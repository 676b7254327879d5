-- ===== src/Media/Reference/Ran/Received.antt =====
-- A `receive` of src/media/reference_backend.cpp keeps what `Keeps` says, of one output more when it is ok.
use mathlib.Core.List.{append_assoc}
use eavp.Base.{
  ℕ, ◌≡◌, refl, sym, ap, ◌∙◌, true, false, not, List, [], ◌∷◌, ◌++◌, ◌||◌, length, ltb, if_both,
  arith,
}
use eavp.Status.{is_ok, Result, success, failure}
use eavp.Media.Reference.{
  ReferenceBackendOptions, ReferenceBackend, BackendState, Behaviour, receive, receive_open,
  receive_queued, emitted, held_back, verify_current_thread, can_receive, is_draining,
}
use mathlib.Core.Bool.{false≢true}
use eavp.Media.Reference.Ran.{Keeps, Emits, is_error}
use eavp.Media.Reference.Ran.Kept.{retained}

module _ {V G W : Type 0} (k : Behaviour V G W) (o : ReferenceBackendOptions) where
  receive-no_error : (s : BackendState) → can_receive s ≡ true → is_error s ≡ false
  receive-no_error BackendState.created h = absurd (false≢true h)
  receive-no_error BackendState.error h = absurd (false≢true h)
  receive-no_error s h = refl

  not-cons : {v : V} {l : List V} → ¬ ([] ≡ v ∷ l)
  not-cons h = cc

  Emits-append :
      (v : V) (w : W) (vs : List V) (ws : List W)
      → k.emit v ≡ success w
      → Emits k vs ws
      → Emits k (vs ++ v ∷ []) (ws ++ w ∷ [])
  Emits-append v w [] [] e h = (e, tt)
  Emits-append v w [] (x ∷ ws) e h = absurd h
  Emits-append v w (u ∷ vs) [] e h = absurd h
  Emits-append v w (u ∷ vs) (x ∷ ws) e h = (h.0, Emits-append v w vs ws e h.1)

  module _ (t : ℕ) (vs : List V) (ws : List W) where
    -- What a call of `receive` gives: an output of the next frame, or none.
    abbrev pub Received : Result W × ReferenceBackend V G → Type 0
    Received (success w, c) = Keeps k o c vs (ws ++ w ∷ [])
    Received (failure s, c) = Keeps k o c vs ws

    held_back-Received :
        (b : ReferenceBackend V G)
        → can_receive b.state ≡ true
        → (is_draining b.state ≡ true → b.queue ≡ [])
        → Keeps k o b vs ws
        → Received (held_back k t b)
    unfolding held_back
    held_back-Received b c d h =
        if_both Received (is_draining b.state)
          (λ e.
            retained k o (record b { state = BackendState.stopped }) h refl refl
              (λ n. receive-no_error b.state c) (λ n. d e))
          (λ _. h)

    emitted-Received :
        (v : V) (rest : List V) (b : ReferenceBackend V G) (r : Result W)
        → k.emit v ≡ r
        → b.queue ≡ v ∷ rest
        → can_receive b.state ≡ true
        → Keeps k o b vs ws
        → Received (emitted k t r rest b)
    unfolding emitted
    emitted-Received v rest b (failure s) e q c h =
        retained k o (record b { state = BackendState.error }) h refl refl
          (λ n. absurd (false≢true (sym n))) (λ n. absurd (false≢true n))
    emitted-Received v rest b (success w) e q c h = record {
      options_same = h.options_same;
      front = h.front ++ v ∷ [];
      rest = rest;
      split =
          h.split
          ∙ ap (λ (x : List V). h.front ++ x) (h.queued (receive-no_error b.state c) ∙ q)
          ∙ sym (append_assoc h.front (v ∷ []) rest);
      given = Emits-append v w h.front ws e h.given;
      queued = λ n. refl;
      bounded = let m = ap (λ (x : List V). length x) q in let n = h.bounded in omega (arith, m, n);
      idle = λ n. absurd (not-cons (sym (h.idle n) ∙ q));
    }

    receive_queued-Received :
        (l : List V) (b : ReferenceBackend V G)
        → b.queue ≡ l
        → can_receive b.state ≡ true
        → Keeps k o b vs ws
        → Received (receive_queued k t l b)
    unfolding receive_queued
    receive_queued-Received [] b q c h = held_back-Received b c (λ _. q) h
    receive_queued-Received (v ∷ rest) b q c h =
        if_both Received (is_draining b.state || ltb k.delay (length (v ∷ rest)))
          (λ _. emitted-Received v rest b (k.emit v) refl q c h)
          (λ e. held_back-Received b c (λ d. absurd (ground (arith, e, d))) h)

    receive_open-Received :
        (s : BackendState) (b : ReferenceBackend V G)
        → can_receive b.state ≡ true
        → Keeps k o b vs ws
        → Received (receive_open k t s b)
    unfolding receive_open
    receive_open-Received BackendState.stopped b c h = h
    receive_open-Received s b c h = receive_queued-Received b.queue b refl c h

    pub receive-Received : (b : ReferenceBackend V G) → Keeps k o b vs ws → Received (receive k t b)
    unfolding receive
    receive-Received b h =
        if_both Received (not (is_ok (verify_current_thread b.owner t))) (λ _. h)
          (λ _.
            if_both Received (not (can_receive b.state)) (λ _. h)
              (λ e. receive_open-Received b.state b (ground (arith, e)) h))
