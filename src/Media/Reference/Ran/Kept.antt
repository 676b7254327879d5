-- ===== src/Media/Reference/Ran/Kept.antt =====
-- The calls of a backend of src/media/reference_backend.cpp other than `submit` and `receive` keep what
-- `Keeps` says.
use eavp.Base.{
  ℕ, ◌≡◌, ◌⊎◌, refl, sym, ap, ◌∙◌, true, false, not, List, [], Option, some, ◌&&◌, if_both, inl,
  inr, arith,
}
use eavp.Status.{Status, is_ok}
use eavp.Media.Reference.{
  ReferenceBackendOptions, ReferenceBackend, BackendState, Behaviour, configure, configure_bound,
  configure_created, begin_drain, drain_open, reset, verify_current_thread, bound,
}
use mathlib.Core.Bool.{false≢true}
use eavp.Media.Reference.Ran.{Keeps, is_error, is_empty_state}

module _ {V G W : Type 0} (k : Behaviour V G W) (o : ReferenceBackendOptions) where
  -- A call that leaves the queue alone.
  pub retained :
      {b : ReferenceBackend V G} {vs : List V} {ws : List W} (c : ReferenceBackend V G)
      → Keeps k o b vs ws
      → c.options ≡ b.options
      → c.queue ≡ b.queue
      → (is_error c.state ≡ false → is_error b.state ≡ false)
      → (is_empty_state c.state ≡ true → b.queue ≡ [])
      → Keeps k o c vs ws
  retained c h e q f g = record {
    options_same = e ∙ h.options_same;
    front = h.front;
    rest = h.rest;
    split = h.split;
    given = h.given;
    queued = λ n. h.queued (f n) ∙ sym q;
    bounded = rw q h.bounded;
    idle = λ n. q ∙ g n;
  }

  owner-Keeps :
      {b : ReferenceBackend V G} {vs : List V} {ws : List W} (x : Option ℕ)
      → Keeps k o b vs ws
      → Keeps k o (record b { owner = x }) vs ws
  owner-Keeps {b = b} x h = retained (record b { owner = x }) h refl refl (λ n. n) h.idle

  module _ (t : ℕ) (vs : List V) (ws : List W) where
    abbrev After : Status × ReferenceBackend V G → Type 0
    After r = Keeps k o r.1 vs ws

    configure_bound-Keeps :
        (g : G) (b : ReferenceBackend V G) (s : BackendState)
        → b.state ≡ s
        → Keeps k o b vs ws
        → After (configure_bound k t g b s)
    unfolding configure_bound configure_created
    configure_bound-Keeps g b BackendState.created e h =
        if_both After (k.accepts g)
          (λ _.
            retained (record b { state = BackendState.configured; config = some g }) h refl refl
              (λ _. ap is_error e) (λ n. absurd (false≢true n)))
          (λ _. h)
    configure_bound-Keeps g b s e h = h

    pub configure-Keeps :
        (g : G) (b : ReferenceBackend V G) → Keeps k o b vs ws → After (configure k t g b)
    unfolding configure
    configure-Keeps g b h =
        if_both After (is_ok (verify_current_thread b.owner t))
          (λ _.
            configure_bound-Keeps g (record b { owner = some (bound b.owner t) }) b.state refl
              (owner-Keeps (some (bound b.owner t)) h))
          (λ _. h)

    drain_open-Keeps :
        (b : ReferenceBackend V G) (s : BackendState)
        → b.state ≡ s
        → Keeps k o b vs ws
        → After (drain_open k t s b)
    unfolding drain_open
    drain_open-Keeps b BackendState.configured e h =
        retained (record b { state = BackendState.draining }) h refl refl (λ _. ap is_error e)
          (λ n. absurd (false≢true n))
    drain_open-Keeps b BackendState.running e h =
        retained (record b { state = BackendState.draining }) h refl refl (λ _. ap is_error e)
          (λ n. absurd (false≢true n))
    drain_open-Keeps b s e h = h

    pub begin_drain-Keeps :
        (b : ReferenceBackend V G) → Keeps k o b vs ws → After (begin_drain k t b)
    unfolding begin_drain
    begin_drain-Keeps b h =
        if_both After (is_ok (verify_current_thread b.owner t))
          (λ _. drain_open-Keeps b b.state refl h) (λ _. h)

    -- A call of `reset` starts anew or changes nothing.
    abbrev pub Restarted : Status × ReferenceBackend V G → Type 0
    Restarted r =
        (is_ok r.0 ≡ true) × Keeps k o r.1 [] [] ⊎ (is_ok r.0 ≡ false) × Keeps k o r.1 vs ws

    pub reset-Restarted : (b : ReferenceBackend V G) → Keeps k o b vs ws → Restarted (reset k t b)
    unfolding reset
    reset-Restarted b h =
        if_both Restarted (not (is_ok (verify_current_thread b.owner t)))
          (λ e. inr (ground (arith, e), h))
          (λ _.
            if_both Restarted (k.reset_blocks_once && not b.reset_would_blocked)
              (λ _. inr (
                refl,
                retained (record b { reset_would_blocked = true }) h refl refl (λ n. n) h.idle,
              ))
              (λ _. inl (
                refl,
                record {
                  options_same = h.options_same;
                  front = [];
                  rest = [];
                  split = refl;
                  given = tt;
                  queued = λ n. refl;
                  bounded = omega arith;
                  idle = λ n. refl;
                },
              )))
