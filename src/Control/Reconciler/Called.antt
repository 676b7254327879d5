-- ===== src/Control/Reconciler/Called.antt =====
-- What src/control/pipeline_reconciler.cpp calls of a pipeline, and what it returns of that.
use mathlib.Core.Bool.{false≢true}
use eavp.Base.{
  sym, if◌then◌else◌, ◌⊎◌, ◌≡◌, refl, ap, ◌∙◌, inl, inr, Bool, true, false, ◌||◌, String, str_eq,
  eq_refl, Bool-cases, arith,
}
use eavp.Text.{state_key, error_key}
use eavp.Status.{Status, ok_status, would_block, is_ok, has_code, Result, success}
use eavp.Media.Node.{Hooks, Outcome, returned, thrown}
use eavp.Media.Pipeline.{Pipeline}
use eavp.Media.Pipeline.Start.{start}
use eavp.Media.Pipeline.Drain.{stop}
use eavp.Control.StateStore.{StateValue, of_string, as_string, StateStore, set, erase, get}
use eavp.Control.Reconciler.{
  publish_failure, settle, publish, published, is_text, is_actual, act, to_state, to_value,
  reconcile,
}
use eavp.Control.Reconciler.Keys.{set_state, set_error, erase_error, is_actual_sound}

-- The same status, or both ok.
pub SameStatus : Status → Status → Type 0
SameStatus s t = (s ≡ t) ⊎ (is_ok s ≡ true) × (is_ok t ≡ true)

-- The same exception, or the same status.
pub SameOutcome : Outcome Status → Outcome Status → Type 0
SameOutcome (returned s) (returned t) = SameStatus s t
SameOutcome (thrown e) (thrown f) = e ≡ f
SameOutcome (returned s) (thrown f) = false ≡ true
SameOutcome (thrown e) (returned t) = false ≡ true

module _ {Double : Type 0} (double_eq : Double → Double → Bool) where
  publish-SameStatus :
      (id want : String) (st : Status) (a : StateStore Double)
      → SameStatus (publish double_eq id want st a).0 st
  unfolding publish settle publish_failure SameStatus
  publish-SameStatus id want st a = elim (Bool-cases (is_ok st)) [
    | inl e ↦
        let c = erase_error double_eq id a in
        let s = set_state double_eq id want (erase (error_key id) a).1 in
        inr (rw (e, c.0) (ap is_ok s.0), e)
    | inr e ↦ elim (Bool-cases (has_code would_block st)) [
      | inl w ↦ let s = set_state double_eq id "draining" a in inl (rw (e, w, s.0) refl)
      | inr w ↦
          let s = set_state double_eq id "error" a in
          let f =
            set_error double_eq id st.message
              (set double_eq (state_key id) (of_string "error") a).1 in
          inl (rw (e, w, s.0, f.0) refl)
    ]
  ]

  is_actual_complete :
      (want : String) (r : Result (StateValue Double))
      → r ≡ success (of_string want)
      → is_actual double_eq want r ≡ true
  unfolding is_actual is_text as_string
  is_actual_complete want r e = rw e (eq_refl want)

module _ {Double S : Type 0} (double_eq : Double → Double → Bool) (h : Hooks S) where
  -- The call that a desired state asks for.
  abbrev pub wanted_call : String → Pipeline S → Outcome Status × Pipeline S
  wanted_call want p = if str_eq want "running" then start h p else stop h p

  -- What a reconciliation has called: nothing, as the actual state was the desired one, or else the
  -- wanted call, whose outcome it returns.
  abbrev pub Called :
      String
      → Pipeline S
      → StateStore Double
      → Outcome Status × Pipeline S × StateStore Double
      → Type 0
  Called want p a r =
      ((get (state_key p.id) a ≡ success (of_string want)) × (r.0 ≡ returned ok_status) × (r.1 ≡ p))
      ⊎ (¬ (get (state_key p.id) a ≡ success (of_string want)))
        × SameOutcome r.0 (wanted_call want p).0
        × (r.1 ≡ (wanted_call want p).1)

  published-outcome :
      (id want : String) (r : Outcome Status × Pipeline S) (a : StateStore Double)
      → let q = published double_eq h id want r a in SameOutcome q.0 r.0 × (q.1 ≡ r.1)
  unfolding published SameOutcome
  published-outcome id want (returned st, p) a = (publish-SameStatus double_eq id want st a, refl)
  published-outcome id want (thrown e, p) a = (refl, refl)

  act-outcome :
      (want : String) (p : Pipeline S) (a : StateStore Double)
      → (str_eq want "running" || str_eq want "stopped") ≡ true
      → let q = act double_eq h want p a in
        SameOutcome q.0 (wanted_call want p).0 × (q.1 ≡ (wanted_call want p).1)
  unfolding act
  act-outcome want p a k = elim (Bool-cases (str_eq want "running")) [
    | inl e ↦ rw e (published-outcome p.id want (start h p) a)
    | inr e ↦ elim (Bool-cases (str_eq want "stopped")) [
      | inl f ↦ rw (e, f) (published-outcome p.id want (stop h p) a)
      | inr f ↦ absurd (ground (arith, e, f, k))
    ]
  ]

  pub reconcile-Called :
      (want : String) (d : StateStore Double) (p : Pipeline S) (a : StateStore Double)
      → (str_eq want "running" || str_eq want "stopped") ≡ true
      → get (state_key p.id) d ≡ success (of_string want)
      → Called want p a (reconcile double_eq h d p a)
  unfolding reconcile to_value as_string to_state
  reconcile-Called want d p a k e =
      let v = get (state_key p.id) a in
      rw e (elim (Bool-cases (is_actual double_eq want v)) [
        | inl f ↦
            let r = erase_error double_eq p.id a in
            rw f (inl (is_actual_sound double_eq want v f, ap returned r.0, refl))
        | inr f ↦ rw f (
            inr (
              λ g. false≢true (sym f ∙ is_actual_complete double_eq want v g),
              (act-outcome want p a k).0,
              (act-outcome want p a k).1,
            ))
      ])
