-- ===== src/Media/Reference/Ran/Every.antt =====
-- What holds after any calls of a backend of src/media/reference_backend.cpp.
use eavp.Base.{
  ℕ, ◌≡◌, refl, sym, ◌∙◌, true, false, List, [], ◌∷◌, ◌++◌, Option, some, inl, inr, arith,
}
use eavp.Status.{Status, is_ok, Result, success, failure}
use eavp.Media.Reference.{
  ReferenceBackendOptions, ReferenceBackend, Behaviour, new_backend, submit, receive, reset,
}
use mathlib.Core.Bool.{false≢true}
use eavp.Media.Reference.Ran.{Keeps, Ran}
use mathlib.Core.Path.{subst}
use eavp.Status.{success-eq}
use eavp.Media.Reference.Ran.{
  fresh, configured, accepted, refused, gave, gave_nothing, drained, cleared, blocked,
}
use eavp.Media.Reference.Ran.Kept.{configure-Keeps, begin_drain-Keeps, Restarted, reset-Restarted}
use eavp.Media.Reference.Ran.Submitted.{Submitted, submit-Submitted}
use eavp.Media.Reference.Ran.Received.{Received, receive-Received}

module _ {V G W : Type 0} (k : Behaviour V G W) (o : ReferenceBackendOptions) where
  new-Keeps : Keeps k o (new_backend o) [] []
  new-Keeps = record {
    options_same = refl;
    front = [];
    rest = [];
    split = refl;
    given = tt;
    queued = λ n. refl;
    bounded = omega arith;
    idle = λ n. refl;
  }

  some-eq : {a b : V} → some a ≡ some b → a ≡ b
  some-eq h = cc

  module _ (t : ℕ) (vs : List V) (ws : List W) where
    accepted-Keeps :
        (v : V) (r : Status × ReferenceBackend V G)
        → Submitted k o t vs ws (some v) r
        → is_ok r.0 ≡ true
        → Keeps k o r.1 (vs ++ v ∷ []) ws
    accepted-Keeps v r (inl (w, e, y, h)) n =
        subst (λ (x : V). Keeps k o r.1 (vs ++ x ∷ []) ws) (some-eq (sym e)) h
    accepted-Keeps v r (inr (y, h)) n = absurd (false≢true (sym y ∙ n))

    refused-Keeps :
        (v : Option V) (r : Status × ReferenceBackend V G)
        → Submitted k o t vs ws v r
        → is_ok r.0 ≡ false
        → Keeps k o r.1 vs ws
    refused-Keeps v r (inl (w, e, y, h)) n = absurd (false≢true (sym n ∙ y))
    refused-Keeps v r (inr (y, h)) n = h

    gave-Keeps :
        (w : W) (r : Result W × ReferenceBackend V G)
        → Received k o t vs ws r
        → r.0 ≡ success w
        → Keeps k o r.1 vs (ws ++ w ∷ [])
    gave-Keeps w (success x, c) h e =
        subst (λ (y : W). Keeps k o c vs (ws ++ y ∷ [])) (success-eq e) h
    gave-Keeps w (failure s, c) h e = absurd (ground (arith, e))

    gave_nothing-Keeps :
        (s : Status) (r : Result W × ReferenceBackend V G)
        → Received k o t vs ws r
        → r.0 ≡ failure s
        → Keeps k o r.1 vs ws
    gave_nothing-Keeps s (success x, c) h e = absurd (ground (arith, e))
    gave_nothing-Keeps s (failure x, c) h e = h

    cleared-Keeps :
        (r : Status × ReferenceBackend V G)
        → Restarted k o t vs ws r
        → is_ok r.0 ≡ true
        → Keeps k o r.1 [] []
    cleared-Keeps r (inl (y, h)) n = h
    cleared-Keeps r (inr (y, h)) n = absurd (false≢true (sym y ∙ n))

    blocked-Keeps :
        (r : Status × ReferenceBackend V G)
        → Restarted k o t vs ws r
        → is_ok r.0 ≡ false
        → Keeps k o r.1 vs ws
    blocked-Keeps r (inl (y, h)) n = absurd (false≢true (sym n ∙ y))
    blocked-Keeps r (inr (y, h)) n = h

  -- After any calls on any threads, the outputs that a backend gave are those of the first frames that
  -- it accepted, in their order, each once; the other frames are in its queue, unless it is in error;
  -- the queue is within its capacity, and is empty when the backend is created or stopped, so that a
  -- stopped backend has given the outputs of all the frames that it accepted.
  pub ran-Keeps :
      {b : ReferenceBackend V G} {vs : List V} {ws : List W} → Ran k o b vs ws → Keeps k o b vs ws
  ran-Keeps fresh = new-Keeps
  ran-Keeps (configured {b = b} {vs = vs} {ws = ws} t g r) =
      configure-Keeps k o t vs ws g b (ran-Keeps r)
  ran-Keeps (accepted {b = b} {vs = vs} {ws = ws} t v y r) =
      accepted-Keeps t vs ws v (submit k t (some v) b)
        (submit-Submitted k o t vs ws (some v) b (ran-Keeps r)) y
  ran-Keeps (refused {b = b} {vs = vs} {ws = ws} t v n r) =
      refused-Keeps t vs ws v (submit k t v b) (submit-Submitted k o t vs ws v b (ran-Keeps r)) n
  ran-Keeps (gave {b = b} {vs = vs} {ws = ws} t w e r) =
      gave-Keeps t vs ws w (receive k t b) (receive-Received k o t vs ws b (ran-Keeps r)) e
  ran-Keeps (gave_nothing {b = b} {vs = vs} {ws = ws} t s e r) =
      gave_nothing-Keeps t vs ws s (receive k t b) (receive-Received k o t vs ws b (ran-Keeps r)) e
  ran-Keeps (drained {b = b} {vs = vs} {ws = ws} t r) =
      begin_drain-Keeps k o t vs ws b (ran-Keeps r)
  ran-Keeps (cleared {b = b} {vs = vs} {ws = ws} t y r) =
      cleared-Keeps t vs ws (reset k t b) (reset-Restarted k o t vs ws b (ran-Keeps r)) y
  ran-Keeps (blocked {b = b} {vs = vs} {ws = ws} t n r) =
      blocked-Keeps t vs ws (reset k t b) (reset-Restarted k o t vs ws b (ran-Keeps r)) n
