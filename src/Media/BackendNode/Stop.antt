-- ===== src/Media/BackendNode/Stop.antt =====
-- `on_stop`, `on_prepare` and `on_reset` of src/media/backend_node.cpp.
pub mod Keeps
use eavp.Base.{Bool, true, false, not, Option, none, some, String, if◌then◌else◌}
use eavp.Status.{
  Status, ok_status, status, bare_status, is_ok, has_code, invalid_state, not_found, would_block,
  end_of_stream, Result, success, failure,
}
use eavp.Media.Node.{Outcome, returned, thrown, Hooks}
use eavp.Media.Flow.{Flow, next, done, raised, Step, ◌>>=◌, ◌>>◌, pure, finish, ensure}
use eavp.Media.BackendNode.{
  Backend, Ports, Messages, BackendNode, caught, is_temporarily_empty, catches, call, hold_input,
  hold_output, mark_drain, receive_input, send_pending_output, offer, on_tick,
}

module _ {B P V W : Type 0} (b : Backend B V W) (p : Ports P V W) (text : Messages) where
  -- A new output is sent; the node has more to drain.
  pub pass_on : Option W → Step (BackendNode B P V W) Status
  unfolding hold_output send_pending_output
  pass_on w = do
    hold_output w
    st ← send_pending_output b p text
    pure (if is_ok st then bare_status would_block else st)

  -- What follows a submission that the backend could not take.
  pub make_room : Result (Option W) → Step (BackendNode B P V W) Status
  unfolding pass_on
  make_room (success w) = pass_on w
  make_room (failure st) =
      if has_code end_of_stream st
      then pure (status invalid_state text.early_end)
      else pure (if is_temporarily_empty st then bare_status would_block else st)

  -- `on_stop` where an input is pending.
  pub stop_pending : V → Step (BackendNode B P V W) Status
  unfolding offer call make_room
  stop_pending v = do
    st ← offer b p text v
    if is_ok st
        then finish (bare_status would_block)
        else if not (has_code would_block st)
        then finish st
        else do output ← call b.receive; make_room output

  -- What follows when the backend drains.
  pub pass_drained : Result (Option W) → Step (BackendNode B P V W) Status
  unfolding pass_on
  pass_drained (failure st) = pure st
  pass_drained (success w) = pass_on w

  pub drain_output : Step (BackendNode B P V W) Status
  unfolding call pass_drained
  drain_output = do output ← call b.receive; pass_drained output

  -- The start of the drain, once the input port and the backend are empty.
  pub start_drain : Result (Option W) → Step (BackendNode B P V W) Status
  unfolding pass_on call mark_drain drain_output
  start_drain (success w) = pass_on w
  start_drain (failure st) =
      if has_code end_of_stream st
      then finish st
      else if not (is_temporarily_empty st)
      then finish st
      else do started ← call b.begin_drain; ensure started; mark_drain; drain_output

  -- `on_stop` on what the input port gave, where no input is pending.
  pub stop_input : Result V → Step (BackendNode B P V W) Status
  unfolding hold_input offer call start_drain
  stop_input (success v) = do
    hold_input (some v)
    st ← offer b p text v
    pure (if is_ok st then bare_status would_block else st)
  stop_input (failure st) =
      if not (has_code not_found st)
      then finish st
      else do output ← call b.receive; start_drain output

  pub stop_feed : Option V → Step (BackendNode B P V W) Status
  unfolding stop_pending receive_input stop_input
  stop_feed (some v) = stop_pending v
  stop_feed none = do input ← receive_input b p text; stop_input input

  pub stop_body : Step (BackendNode B P V W) Status
  unfolding send_pending_output stop_feed drain_output
  stop_body = do
    st ← send_pending_output b p text
    ensure st
    λ s. if s.drain_started then drain_output s else stop_feed s.pending_input s

  -- `on_stop`.
  pub on_stop : BackendNode B P V W → Outcome Status × BackendNode B P V W
  unfolding stop_body catches
  on_stop s = catches (stop_body s)

  -- `on_prepare`.
  pub on_prepare : BackendNode B P V W → Outcome Status × BackendNode B P V W
  unfolding call catches
  on_prepare s =
      if s.present
      then catches (call b.configure s)
      else (returned (status invalid_state text.no_instance), s)

  -- The members that `on_reset` clears.
  abbrev pub cleared : BackendNode B P V W → BackendNode B P V W
  cleared s = record s { pending_input = none; pending_output = none; drain_started = false }

  -- `on_reset`.
  pub on_reset : BackendNode B P V W → Outcome Status × BackendNode B P V W
  unfolding call catches
  on_reset s =
      if s.present then catches (call b.reset (cleared s)) else (returned ok_status, cleared s)

  -- The node as `MediaNode` sees it; `on_start` is not overridden.
  abbrev pub hooks : Hooks (BackendNode B P V W)
  hooks = record {
    on_prepare = on_prepare;
    on_start = λ s. (returned ok_status, s);
    on_stop = on_stop;
    on_reset = on_reset;
    on_tick = on_tick b p text;
  }
