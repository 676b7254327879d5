-- ===== src/Media/BackendNode.antt =====
-- src/media/backend_node.cpp and include/eavp/media/backend_node.hpp: the two nodes that drive a
-- backend, `VideoProcessorNode` and `VideoEncoderNode`. Their methods are the same text over frames
-- or packets as outputs `W` and one message of their own, so one model serves both. The backend of
-- include/eavp/media/backend.hpp and the ports are parameters.
pub mod Balance
pub mod Stop
mod Tests
use eavp.Base.{Bool, true, false, ◌||◌, not, Option, none, some, String, if◌then◌else◌}
use eavp.Status.{
  Status, ok_status, status, bare_status, is_ok, has_code, invalid_state, not_found, would_block,
  resource_exhausted, internal, end_of_stream, Result, success, failure,
}
use eavp.Media.Node.{Exception, bad_alloc, other, Outcome, returned, thrown, Hooks}
use eavp.Media.Flow.{Flow, next, done, raised, Step, ◌>>=◌, ◌>>◌, pure, finish, ensure}

-- The virtual methods of `VideoProcessor` and `VideoEncoder`. An output that a backend gives may be
-- a null pointer.
pub record Backend (B V W : Type 0) : Type 0 where
  pub configure : B → Outcome Status × B
  pub submit : V → B → Outcome Status × B
  pub receive : B → Outcome (Result (Option W)) × B
  pub begin_drain : B → Outcome Status × B
  pub reset : B → Outcome Status × B

-- What the nodes call of their two ports.
pub record Ports (P V W : Type 0) : Type 0 where
  pub receive : P → Result V × P
  pub send : W → P → Status × P

-- The messages in which the texts of the two nodes differ.
pub record Messages : Type 0 where
  pub no_instance : String
  pub early_end : String

abbrev pub processor_messages : Messages
processor_messages = record {
  no_instance = "video processor node has no backend instance";
  early_end = "video processor reached EOS with pending input";
}

abbrev pub encoder_messages : Messages
encoder_messages = record {
  no_instance = "video encoder node has no backend instance";
  early_end = "video encoder reached EOS with pending input";
}

-- The members of a node; `present` says that the pointer to the backend is not null.
pub record BackendNode (B P V W : Type 0) : Type 0 where
  pub present : Bool
  pub backend : B
  pub ports : P
  pub pending_input : Option V
  pub pending_output : Option W
  pub drain_started : Bool

-- `allocation_failure()` and `unexpected_failure()`.
pub caught : Exception → Status
caught bad_alloc = status resource_exhausted "backend node could not allocate result metadata"
caught other = status internal "backend node caught an unexpected backend exception"

-- `is_temporarily_empty`.
abbrev pub is_temporarily_empty : Status → Bool
is_temporarily_empty st = has_code would_block st || has_code not_found st

module _ {S : Type 0} where
  -- The catch clauses of a method.
  pub catches : Flow Status × S → Outcome Status × S
  unfolding caught
  catches (next st, s) = (returned st, s)
  catches (done st, s) = (returned st, s)
  catches (raised e, s) = (returned (caught e), s)

module _ {B P V W : Type 0} where
  -- The constructors of the two nodes.
  pub new_backend_node : Bool → B → P → BackendNode B P V W
  new_backend_node present backend ports = record {
    present = present;
    backend = backend;
    ports = ports;
    pending_input = none;
    pending_output = none;
    drain_started = false;
  }

  pub of_outcome : {A : Type 0} → Outcome A × B → BackendNode B P V W → Flow A × BackendNode B P V W
  of_outcome (returned a, b) s = (next a, record s { backend = b })
  of_outcome (thrown e, b) s = (raised e, record s { backend = b })

  -- A call of the backend.
  pub call : {A : Type 0} → (B → Outcome A × B) → Step (BackendNode B P V W) A
  unfolding of_outcome
  call f s = of_outcome (f s.backend) s

  -- `pending_input_ = input`, and its reset.
  pub hold_input : Option V → Step (BackendNode B P V W) Unit
  hold_input v s = (next tt, record s { pending_input = v })

  pub hold_output : Option W → Step (BackendNode B P V W) Unit
  hold_output w s = (next tt, record s { pending_output = w })

  pub mark_drain : Step (BackendNode B P V W) Unit
  mark_drain s = (next tt, record s { drain_started = true })

module _ {B P V W : Type 0} (b : Backend B V W) (p : Ports P V W) (text : Messages) where
  -- `input_.receive()`.
  pub receive_input : Step (BackendNode B P V W) (Result V)
  receive_input s = let r = p.receive s.ports in (next r.0, record s { ports = r.1 })

  pub sent : Status × P → BackendNode B P V W → Flow Status × BackendNode B P V W
  sent (st, ps) s =
      if is_ok st
      then (next st, record s { ports = ps; pending_output = none })
      else (next st, record s { ports = ps })

  send_output : Option W → Step (BackendNode B P V W) Status
  unfolding sent
  send_output none s = (next ok_status, s)
  send_output (some w) s = sent (p.send w s.ports) s

  -- `send_pending_output`.
  pub send_pending_output : Step (BackendNode B P V W) Status
  unfolding send_output
  send_pending_output s = send_output s.pending_output s

  -- A submission of the held input, which is dropped where the backend took it.
  pub offer : V → Step (BackendNode B P V W) Status
  unfolding call hold_input
  offer v = do st ← call (b.submit v); if is_ok st then (do hold_input none; pure st) else pure st

  -- The first part of `on_tick`: a new output is sent, or there is none for now.
  pub forward_output : Result (Option W) → Step (BackendNode B P V W) Unit
  unfolding hold_output send_pending_output
  forward_output (success w) = do hold_output w; st ← send_pending_output; ensure st
  forward_output (failure st) =
      if has_code end_of_stream st
      then finish st
      else if not (is_temporarily_empty st)
      then finish st
      else pure tt

  -- The last part of `on_tick`, on what the input port gave.
  pub take_input : Result V → Step (BackendNode B P V W) Status
  unfolding call hold_input
  take_input (failure st) = pure (if has_code not_found st then ok_status else st)
  take_input (success v) = do
    st ← call (b.submit v)
    if has_code would_block st then (do hold_input (some v); pure st) else pure st

  pub feed : Option V → Step (BackendNode B P V W) Status
  unfolding offer take_input receive_input
  feed (some v) = offer v
  feed none = do input ← receive_input; take_input input

  pub tick_body : Step (BackendNode B P V W) Status
  unfolding send_pending_output call forward_output feed
  tick_body = do
    st ← send_pending_output
    ensure st
    output ← call b.receive
    forward_output output
    λ s. feed s.pending_input s

  -- `on_tick`.
  pub on_tick : BackendNode B P V W → Outcome Status × BackendNode B P V W
  unfolding tick_body catches
  on_tick s = catches (tick_body s)
