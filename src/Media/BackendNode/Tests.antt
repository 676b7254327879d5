-- ===== src/Media/BackendNode/Tests.antt =====
-- Runs of the backend nodes of src/media/backend_node.cpp on a small backend and its ports.
use eavp.Base.{ℕ, refl, List, [], ◌∷◌, Option, none, some, true}
use eavp.Status.{Status, ok_status, bare_status, would_block, not_found, Result, success, failure}
use eavp.Media.Node.{Outcome, returned, thrown, bad_alloc}
use eavp.Media.BackendNode.{
  Backend, Ports, BackendNode, new_backend_node, processor_messages, encoder_messages, on_tick,
}
use eavp.Media.BackendNode.Stop.{on_stop}
use eavp.Media.BackendNode.Balance.{Logged, Recorded, logged, recorded, Balanced}
use eavp.Media.BackendNode.Balance.Tick.{TickEnds, tick_keeps}
use eavp.Media.BackendNode.Stop.Keeps.{StopEnds, stop_keeps}

-- A backend that holds one frame at a time.
submit : ℕ → Option ℕ → Outcome Status × Option ℕ
submit v none = (returned ok_status, some v)
submit v (some w) = (returned (bare_status would_block), some w)

receive : Option ℕ → Outcome (Result (Option ℕ)) × Option ℕ
receive none = (returned (failure (bare_status not_found)), none)
receive (some w) = (returned (success (some w)), none)

abbrev codec : Backend (Option ℕ) ℕ ℕ
codec = record {
  configure = λ b. (returned ok_status, b);
  submit = submit;
  receive = receive;
  begin_drain = λ b. (thrown bad_alloc, b);
  reset = λ b. (returned ok_status, none);
}

take : List ℕ → Result ℕ × List ℕ
take [] = (failure (bare_status not_found), [])
take (v ∷ vs) = (success v, vs)

abbrev ports : Ports (List ℕ) ℕ ℕ
ports = record { receive = take; send = λ w vs. (ok_status, vs) }

abbrev backend : Logged (Option ℕ) ℕ ℕ
backend = record { backend = none; accepted = []; received = [] }

abbrev queue : Recorded (List ℕ) ℕ ℕ
queue = record { ports = 1 ∷ 2 ∷ 3 ∷ []; taken = []; delivered = [] }

abbrev fresh : BackendNode (Logged (Option ℕ) ℕ ℕ) (Recorded (List ℕ) ℕ ℕ) ℕ ℕ
fresh = new_backend_node true backend queue

fresh-Balanced : Balanced fresh
unfolding new_backend_node
fresh-Balanced = record { inputs = refl; outputs = refl }

tick_keeps_example : TickEnds (on_tick (logged codec) (recorded ports) processor_messages fresh)
tick_keeps_example = tick_keeps codec ports processor_messages fresh fresh-Balanced

stop_keeps_example : StopEnds (on_stop (logged codec) (recorded ports) encoder_messages fresh)
stop_keeps_example = stop_keeps codec ports encoder_messages fresh fresh-Balanced
