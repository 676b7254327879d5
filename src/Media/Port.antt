-- ===== src/Media/Port.antt =====
-- include/eavp/media/port.hpp: output ports that send to the queues they share with input ports. The
-- shared queues are cells of a store, and a `std::shared_ptr<BoundedQueue<T>>` is an index into it.
pub mod Send
mod Tests
pub mod Wired
use eavp.Base.{
  ℕ, ◌+◌, List, [], ◌∷◌, ◌++◌, Option, none, some, String, Bool, true, false, if◌then◌else◌, ◌==◌,
  length, get_elem?, set,
}
use eavp.Status.{
  Status, ok_status, status, invalid_argument, invalid_state, already_exists, is_ok, Result,
  success, failure,
}
use eavp.Media.Queue.{Queue, OverflowPolicy, new_queue, preflight_push, push, pop}

-- `class OutputPort`.
pub record OutputPort : Type 0 where
  pub name : String
  pub connections : List ℕ

-- `class InputPort`; `none` is the null queue.
pub record InputPort : Type 0 where
  pub name : String
  pub capacity : ℕ
  pub policy : OverflowPolicy
  pub queue : Option ℕ

-- The status of an access to a cell that is not in the store, which the program never makes.
abbrev pub no_cell : Status
no_cell = status invalid_state "no such queue"

module _ {A : Type 0} where
  -- `queue->preflight_push(value)`.
  pub preflight_cell : Option A → Option (Queue A) → Status
  preflight_cell v none = no_cell
  preflight_cell v (some q) = preflight_push v q

  -- The first loop of `OutputPort::send`.
  pub preflight_each : Option A → List ℕ → List (Queue A) → Status
  unfolding preflight_cell
  preflight_each v [] qs = ok_status
  preflight_each v (a ∷ cs) qs =
      let st = preflight_cell v (get_elem? qs a) in
      let rest = preflight_each v cs qs in if is_ok st then rest else st

  -- `queue->push(value)`.
  pub push_cell : Option A → ℕ → Option (Queue A) → List (Queue A) → Status × List (Queue A)
  push_cell v a none qs = (no_cell, qs)
  push_cell v a (some q) qs = let r = push v q in (r.0, set qs a r.1)

  -- The second loop of `OutputPort::send`.
  pub push_each : Option A → List ℕ → List (Queue A) → Status × List (Queue A)
  unfolding push_cell
  push_each v [] qs = (ok_status, qs)
  push_each v (a ∷ cs) qs =
      let r = push_cell v a (get_elem? qs a) qs in
      let rest = push_each v cs r.1 in if is_ok r.0 then rest else r

  pub send_to : Option A → List ℕ → List (Queue A) → Status × List (Queue A)
  unfolding preflight_each push_each
  send_to v [] qs = (status invalid_state "output port is not connected", qs)
  send_to v (a ∷ cs) qs =
      let preflight = preflight_each v (a ∷ cs) qs in
      if is_ok preflight then push_each v (a ∷ cs) qs else (preflight, qs)

  -- `OutputPort::send`.
  unfoldable pub send : OutputPort → Option A → List (Queue A) → Status × List (Queue A)
  unfolding send_to
  send o v qs = send_to v o.connections qs

  pub pop_cell : ℕ → Option (Queue A) → List (Queue A) → Result A × List (Queue A)
  pop_cell a none qs = (failure no_cell, qs)
  pop_cell a (some q) qs = let r = pop q in (r.0, set qs a r.1)

  pub receive_from : Option ℕ → List (Queue A) → Result A × List (Queue A)
  unfolding pop_cell
  receive_from none qs = (failure (status invalid_state "input port is not connected"), qs)
  receive_from (some a) qs = pop_cell a (get_elem? qs a) qs

  -- `InputPort::receive`.
  unfoldable pub receive : InputPort → List (Queue A) → Result A × List (Queue A)
  unfolding receive_from
  receive i qs = receive_from i.queue qs

  connect_to :
      Option ℕ
      → OutputPort
      → InputPort
      → List (Queue A)
      → Status × OutputPort × InputPort × List (Queue A)
  connect_to (some a) o i qs =
      (status already_exists "input port already has an upstream", o, i, qs)
  connect_to none o i qs =
      if i.capacity == 0
      then (status invalid_argument "input queue capacity must be positive", o, i, qs)
      else (
        ok_status,
        record o { connections = o.connections ++ (length qs ∷ []) },
        record i { queue = some (length qs) },
        qs ++ (new_queue i.capacity i.policy ∷ []),
      )

  -- `connect(OutputPort&, InputPort&)`.
  pub connect :
      OutputPort → InputPort → List (Queue A) → Status × OutputPort × InputPort × List (Queue A)
  unfolding connect_to
  connect o i qs = connect_to i.queue o i qs
