-- ===== src/Control/Reconciler/Shows.antt =====
-- What `reconcile_once` of src/control/pipeline_reconciler.cpp shows of its outcome.
use eavp.Base.{
  ◌≡◌, refl, ap, ◌∙◌, inl, inr, Bool, true, false, ◌||◌, String, str_eq, Bool-cases, arith,
}
use eavp.Text.{state_key, error_key}
use eavp.Status.{Status, would_block, is_ok, has_code, success, failure}
use eavp.Media.Node.{Hooks, Outcome, returned, thrown}
use eavp.Media.Pipeline.{Pipeline}
use eavp.Media.Pipeline.Start.{start}
use eavp.Media.Pipeline.Drain.{stop}
use eavp.Control.StateStore.{of_string, as_string, StateStore, set, erase, get, not_found_status}
use eavp.Control.Reconciler.Keys.{set_state, set_error, erase_error, is_actual_sound}
use eavp.Control.Reconciler.Called.{Called, reconcile-Called}
use eavp.Control.Reconciler.{
  publish_failure, settle, publish, published, is_actual, act, to_state, to_value, reconcile,
}

-- What the actual state of a pipeline `id` shows after a status: the state that was wanted and no
-- error, or that the pipeline drains, or an error and its message.
pub data Shows {Double : Type 0} (id want : String) (st : Status) (a : StateStore Double)
    : Type 0 where
  reached :
      is_ok st ≡ true
      → get (state_key id) a ≡ success (of_string want)
      → get (error_key id) a ≡ failure not_found_status
      → Shows id want st a
  drains :
      is_ok st ≡ false
      → has_code would_block st ≡ true
      → get (state_key id) a ≡ success (of_string "draining")
      → Shows id want st a
  failed :
      is_ok st ≡ false
      → has_code would_block st ≡ false
      → get (state_key id) a ≡ success (of_string "error")
      → get (error_key id) a ≡ success (of_string st.message)
      → Shows id want st a

module _ {Double : Type 0} (double_eq : Double → Double → Bool) where
  settle-Shows :
      (id want : String) (a : StateStore Double)
      → let r = settle double_eq id want a in Shows id want r.0 r.1
  unfolding settle
  settle-Shows id want a =
      let e = erase_error double_eq id a in
      let s = set_state double_eq id want (erase (error_key id) a).1 in
      rw e.0 (reached (ap is_ok s.0) s.1 (s.2 ∙ e.1))

  publish_failure-Shows :
      (id want : String) (st : Status) (a : StateStore Double)
      → is_ok st ≡ false
      → has_code would_block st ≡ false
      → let r = publish_failure double_eq id st a in Shows id want r.0 r.1
  unfolding publish_failure
  publish_failure-Shows id want st a n w =
      let s = set_state double_eq id "error" a in
      let e =
        set_error double_eq id st.message (set double_eq (state_key id) (of_string "error") a).1 in
      rw (s.0, e.0) (failed n w (e.2 ∙ s.1) e.1)

  publish-Shows :
      (id want : String) (st : Status) (a : StateStore Double)
      → let r = publish double_eq id want st a in Shows id want r.0 r.1
  unfolding publish
  publish-Shows id want st a = elim (Bool-cases (is_ok st)) [
    | inl e ↦ rw e (settle-Shows id want a)
    | inr e ↦ elim (Bool-cases (has_code would_block st)) [
      | inl w ↦ let s = set_state double_eq id "draining" a in rw (e, w, s.0) (drains e w s.1)
      | inr w ↦ rw (e, w) (publish_failure-Shows id want st a e w)
    ]
  ]

module _ {Double S : Type 0} (double_eq : Double → Double → Bool) (h : Hooks S) where
  -- What a reconciliation leaves of the actual state `a`: its outcome is shown, or an exception of
  -- the pipeline has passed through and nothing has changed.
  pub Shown :
      String → String → StateStore Double → Outcome Status × Pipeline S × StateStore Double → Type 0
  Shown id want a (returned st, p, b) = Shows id want st b
  Shown id want a (thrown e, p, b) = b ≡ a

  published-Shown :
      (id want : String) (r : Outcome Status × Pipeline S) (a : StateStore Double)
      → Shown id want a (published double_eq h id want r a)
  unfolding published Shown
  published-Shown id want (returned st, p) a = publish-Shows double_eq id want st a
  published-Shown id want (thrown e, p) a = refl

  act-Shown :
      (want : String) (p : Pipeline S) (a : StateStore Double)
      → (str_eq want "running" || str_eq want "stopped") ≡ true
      → Shown p.id want a (act double_eq h want p a)
  unfolding act
  act-Shown want p a k = elim (Bool-cases (str_eq want "running")) [
    | inl e ↦ rw e (published-Shown p.id want (start h p) a)
    | inr e ↦ elim (Bool-cases (str_eq want "stopped")) [
      | inl f ↦ rw (e, f) (published-Shown p.id want (stop h p) a)
      | inr f ↦ absurd (ground (arith, e, f, k))
    ]
  ]

  to_state-Shown :
      (want : String) (p : Pipeline S) (a : StateStore Double)
      → (str_eq want "running" || str_eq want "stopped") ≡ true
      → Shown p.id want a (to_state double_eq h (success want) p a)
  unfolding to_state Shown
  to_state-Shown want p a k =
      elim (Bool-cases (is_actual double_eq want (get (state_key p.id) a))) [
        | inl e ↦
            let r = erase_error double_eq p.id a in
            rw e (
              reached (ap is_ok r.0)
                (r.2 ∙ is_actual_sound double_eq want (get (state_key p.id) a) e) r.1)
        | inr e ↦ rw e (act-Shown want p a k)
      ]

  -- When the desired state of the pipeline is that it runs or that it has stopped, a reconciliation
  -- calls nothing and returns ok when the actual state is already the desired one; else it makes one
  -- call of the pipeline, `start` or `stop` as desired, and its outcome is that of the call: the same
  -- exception, or the same status unless both are ok. The actual state shows the outcome: after an
  -- ok it is the desired state, with no error; after `kWouldBlock` it is "draining"; after any other
  -- status it is "error" with the message. After an exception it is as it was.
  pub reconcile_shows :
      (want : String) (d : StateStore Double) (p : Pipeline S) (a : StateStore Double)
      → (str_eq want "running" || str_eq want "stopped") ≡ true
      → get (state_key p.id) d ≡ success (of_string want)
      → Called double_eq h want p a (reconcile double_eq h d p a)
        × Shown p.id want a (reconcile double_eq h d p a)
  unfolding reconcile to_value as_string
  reconcile_shows want d p a k e =
      (reconcile-Called double_eq h want d p a k e, rw e (to_state-Shown want p a k))
