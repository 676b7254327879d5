-- ===== src/Media/Reference/Ran.antt =====
-- Every sequence of calls of a backend of src/media/reference_backend.cpp gives outputs of the frames
-- that it accepted, in their order.
pub mod Kept
pub mod Submitted
pub mod Received
pub mod Every
use mathlib.Core.List.{append_assoc, append-nil}
use eavp.Base.{
  ℕ, suc, ◌+◌, ◌≤◌, ◌≡◌, refl, sym, ap, ◌∙◌, Bool, true, false, not, List, [], ◌∷◌, ◌++◌, Option,
  none, some, if◌then◌else◌, length, length-append, leb, ltb, Bool-cases, inl, inr, arith,
}
use eavp.Status.{Status, is_ok, Result, success, failure, Result-cases}
use eavp.Media.Reference.{
  ReferenceBackendOptions, ReferenceBackend, BackendState, Behaviour, new_backend, configure,
  configure_bound, configure_created, submit, submit_frame, store, receive, receive_open,
  receive_queued, emitted, held_back, begin_drain, drain_open, reset, verify_current_thread,
  can_submit, can_receive, is_draining,
}

-- The states in which the queue is empty.
abbrev pub is_empty_state : BackendState → Bool
is_empty_state BackendState.created = true
is_empty_state BackendState.stopped = true
is_empty_state BackendState.error = false
is_empty_state _ = false

abbrev pub is_error : BackendState → Bool
is_error BackendState.error = true
is_error _ = false

module _ {V G W : Type 0} (k : Behaviour V G W) where
  -- Each frame is emitted as the output at its place.
  abbrev pub Emits : List V → List W → Type 0
  Emits [] [] = Unit
  Emits (v ∷ vs) (w ∷ ws) = (k.emit v ≡ success w) × Emits vs ws
  Emits _ _ = ⊥

  -- What a backend, the frames that it accepted since it was new or reset and the outputs that it gave
  -- since then have to do with each other: the outputs are those of the first frames, in their order;
  -- the others are in the queue, unless the backend is in error; the queue is within its capacity,
  -- and is empty when the backend is created or stopped.
  pub record Keeps (o : ReferenceBackendOptions) (b : ReferenceBackend V G) (vs : List V)
      (ws : List W) : Type 0 where
    pub options_same : b.options ≡ o
    pub front : List V
    pub rest : List V
    pub split : vs ≡ front ++ rest
    pub given : Emits front ws
    pub queued : is_error b.state ≡ false → rest ≡ b.queue
    pub bounded : length b.queue ≤ o.queue_capacity
    pub idle : is_empty_state b.state ≡ true → b.queue ≡ []

  -- A backend after calls, each made on some thread, with the frames that it accepted and the outputs
  -- that it gave, both since it was new or reset.
  pub data Ran (o : ReferenceBackendOptions) : ReferenceBackend V G → List V → List W → Type 0 where
    fresh : Ran o (new_backend o) [] []
    configured :
        {b : ReferenceBackend V G} {vs : List V} {ws : List W} (t : ℕ) (g : G)
        → Ran o b vs ws
        → Ran o (configure k t g b).1 vs ws
    accepted :
        {b : ReferenceBackend V G} {vs : List V} {ws : List W} (t : ℕ) (v : V)
        → is_ok (submit k t (some v) b).0 ≡ true
        → Ran o b vs ws
        → Ran o (submit k t (some v) b).1 (vs ++ v ∷ []) ws
    refused :
        {b : ReferenceBackend V G} {vs : List V} {ws : List W} (t : ℕ) (v : Option V)
        → is_ok (submit k t v b).0 ≡ false
        → Ran o b vs ws
        → Ran o (submit k t v b).1 vs ws
    gave :
        {b : ReferenceBackend V G} {vs : List V} {ws : List W} (t : ℕ) (w : W)
        → (receive k t b).0 ≡ success w
        → Ran o b vs ws
        → Ran o (receive k t b).1 vs (ws ++ w ∷ [])
    gave_nothing :
        {b : ReferenceBackend V G} {vs : List V} {ws : List W} (t : ℕ) (s : Status)
        → (receive k t b).0 ≡ failure s
        → Ran o b vs ws
        → Ran o (receive k t b).1 vs ws
    drained :
        {b : ReferenceBackend V G} {vs : List V} {ws : List W} (t : ℕ)
        → Ran o b vs ws
        → Ran o (begin_drain k t b).1 vs ws
    cleared :
        {b : ReferenceBackend V G} {vs : List V} {ws : List W} (t : ℕ)
        → is_ok (reset k t b).0 ≡ true
        → Ran o b vs ws
        → Ran o (reset k t b).1 [] []
    blocked :
        {b : ReferenceBackend V G} {vs : List V} {ws : List W} (t : ℕ)
        → is_ok (reset k t b).0 ≡ false
        → Ran o b vs ws
        → Ran o (reset k t b).1 vs ws
