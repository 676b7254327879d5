-- ===== src/Control/Reconciler/Keys.antt =====
-- The keys that src/control/pipeline_reconciler.cpp writes for a pipeline, and its comparison of a state.
use eavp.Base.{◌≡◌, refl, ap, ◌∙◌, Bool, true, String, eq_iff, eq_refl, arith}
use eavp.Text.{
  state_key, error_key, state_key-is_absolute, error_key-is_absolute, state_key-error_key,
  error_key-state_key,
}
use eavp.Status.{ok_status, Result, success, failure}
use eavp.Control.StateStore.{
  StateValue, of_string, as_string, StateStore, set, erase, get, not_found_status,
}
use eavp.Control.StateStore.Laws.{get-set_string, get-erase, erase-ok}
use eavp.Control.Reconciler.{is_text, is_actual}

module _ {Double : Type 0} (double_eq : Double → Double → Bool) where
  -- The two keys of a pipeline after a text is set under the one for its state.
  pub set_state :
      (id t : String) (a : StateStore Double)
      → let r = set double_eq (state_key id) (of_string t) a in
        (r.0 ≡ ok_status)
        × (get (state_key id) r.1 ≡ success (of_string t))
        × (get (error_key id) r.1 ≡ get (error_key id) a)
  set_state id t a =
      let s =
        get-set_string double_eq (state_key id) (state_key id) t a (state_key-is_absolute id) in
      let e =
        get-set_string double_eq (state_key id) (error_key id) t a (state_key-is_absolute id) in
      (s.0, s.1 ∙ rw (eq_refl (state_key id)) refl, e.1 ∙ rw (error_key-state_key id) refl)

  -- The same after a text is set under the one for its error.
  pub set_error :
      (id t : String) (a : StateStore Double)
      → let r = set double_eq (error_key id) (of_string t) a in
        (r.0 ≡ ok_status)
        × (get (error_key id) r.1 ≡ success (of_string t))
        × (get (state_key id) r.1 ≡ get (state_key id) a)
  set_error id t a =
      let e =
        get-set_string double_eq (error_key id) (error_key id) t a (error_key-is_absolute id) in
      let s =
        get-set_string double_eq (error_key id) (state_key id) t a (error_key-is_absolute id) in
      (e.0, e.1 ∙ rw (eq_refl (error_key id)) refl, s.1 ∙ rw (state_key-error_key id) refl)

  -- The same after the error is erased.
  pub erase_error :
      (id : String) (a : StateStore Double)
      → let r = erase (error_key id) a in
        (r.0 ≡ ok_status)
        × (get (error_key id) r.1 ≡ failure not_found_status)
        × (get (state_key id) r.1 ≡ get (state_key id) a)
  erase_error id a = (
    erase-ok double_eq (error_key id) a (error_key-is_absolute id),
    get-erase double_eq (error_key id) (error_key id) a (error_key-is_absolute id)
        ∙ rw (eq_refl (error_key id)) refl,
    get-erase double_eq (error_key id) (state_key id) a (error_key-is_absolute id)
        ∙ rw (state_key-error_key id) refl,
  )

  pub is_actual_sound :
      (want : String) (r : Result (StateValue Double))
      → is_actual double_eq want r ≡ true
      → r ≡ success (of_string want)
  unfolding is_actual is_text as_string
  is_actual_sound want (success (of_string s)) e =
      ap (λ (t : String). success (of_string t)) ((eq_iff s want).0 e)
  is_actual_sound want _ e = ground (arith, e)
