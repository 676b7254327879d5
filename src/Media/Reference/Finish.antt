-- ===== src/Media/Reference/Finish.antt =====
-- The end of a drain of a backend of src/media/reference_backend.cpp.
use mathlib.Core.Bool.{false≢true}
use eavp.Base.{ℕ, zero, suc, ◌≡◌, refl, ap, ◌∙◌, true, List, [], ◌∷◌, length}
use eavp.Status.{Status, ok_status, bare_status, end_of_stream, is_ok, Result, success, failure}
use eavp.Media.Reference.{
  ReferenceBackend, BackendState, Behaviour, receive, receive_open, receive_queued, emitted,
  held_back, begin_drain, drain_open, verify_current_thread, can_submit,
}
use eavp.Media.Reference.Ran.{Emits}

module _ {V G W : Type 0} (k : Behaviour V G W) (t : ℕ) where
  collect :
      (ReferenceBackend V G → List W × Status × ReferenceBackend V G)
      → Result W × ReferenceBackend V G
      → List W × Status × ReferenceBackend V G
  collect f (success w, b) = let r = f b in (w ∷ r.0, r.1, r.2)
  collect f (failure s, b) = ([], s, b)

  -- At most `n` calls of `receive`, up to the first that gives no output: the outputs, the status
  -- of that call, and the backend after it.
  pub receive_all : ℕ → ReferenceBackend V G → List W × Status × ReferenceBackend V G
  unfolding collect
  receive_all zero b = ([], ok_status, b)
  receive_all (suc n) b = collect (receive_all n) (receive k t b)

  -- A backend that drains, with that queue.
  abbrev draining_with : List V → ReferenceBackend V G → ReferenceBackend V G
  draining_with q b = record b { state = BackendState.draining; queue = q }

  module _ (b : ReferenceBackend V G) (owned : is_ok (verify_current_thread b.owner t) ≡ true) where
    drain_open-submit :
        (s : BackendState) → can_submit s ≡ true → (drain_open k t s b).1 ≡ draining_with b.queue b
    unfolding drain_open
    drain_open-submit BackendState.configured c = refl
    drain_open-submit BackendState.running c = refl
    drain_open-submit BackendState.created c = absurd (false≢true c)
    drain_open-submit BackendState.draining c = absurd (false≢true c)
    drain_open-submit BackendState.stopped c = absurd (false≢true c)
    drain_open-submit BackendState.error c = absurd (false≢true c)

    receive-next :
        (v : V) (q : List V) (w : W)
        → k.emit v ≡ success w
        → receive k t (draining_with (v ∷ q) b) ≡ (success w, draining_with q b)
    unfolding receive receive_open receive_queued emitted
    receive-next v q w e = rw (owned, receive) (rw e refl)

    receive-last : receive k t (draining_with [] b) ≡ (
      failure (bare_status end_of_stream),
      record b { state = BackendState.stopped; queue = [] },
    )
    unfolding receive receive_open receive_queued held_back
    receive-last = rw (owned, receive) refl

    receive_all-draining :
        (q : List V) (ws : List W)
        → Emits k q ws
        → receive_all (suc (length q)) (draining_with q b)
          ≡ (ws, bare_status end_of_stream, record b { state = BackendState.stopped; queue = [] })
    unfolding receive_all collect
    receive_all-draining [] [] e = ap (collect (receive_all 0)) receive-last
    receive_all-draining [] (w ∷ ws) e = absurd e
    receive_all-draining (v ∷ q) [] e = absurd e
    receive_all-draining (v ∷ q) (w ∷ ws) e =
        ap (collect (receive_all (suc (length q)))) (receive-next v q w e.0)
        ∙ (λ i. let r = receive_all-draining q ws e.1 i in (w ∷ r.0, r.1, r.2))

    begin_drain-submit : can_submit b.state ≡ true → (begin_drain k t b).1 ≡ draining_with b.queue b
    unfolding begin_drain
    begin_drain-submit c = rw (owned, begin_drain) (drain_open-submit b.state c)

    -- When a backend that is configured or running is asked to drain, on its own thread, and its
    -- queued frames can be emitted, then one call of `receive` more than there are frames suffices:
    -- the calls give the outputs of all the frames, in their order, and then the end of the stream,
    -- and leave the backend stopped with an empty queue.
    pub drain_finishes :
        (ws : List W)
        → can_submit b.state ≡ true
        → Emits k b.queue ws
        → receive_all (suc (length b.queue)) (begin_drain k t b).1
          ≡ (ws, bare_status end_of_stream, record b { state = BackendState.stopped; queue = [] })
    drain_finishes ws c e =
        ap (receive_all (suc (length b.queue))) (begin_drain-submit c)
        ∙ receive_all-draining b.queue ws e
