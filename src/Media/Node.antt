-- ===== src/Media/Node.antt =====
-- include/eavp/media/node.hpp and src/media/node.cpp: the life cycle of a media node. The hooks that
-- a subclass overrides are a parameter; each returns a status or throws.
pub mod LifeCycle
mod Tests
use eavp.Base.{◌≡◌, refl, ◌⊎◌, inl, inr, Bool, true, false, not, ◌&&◌, ◌||◌, String, if◌then◌else◌}
use eavp.Status.{
  Status, ok_status, status, invalid_state, is_ok, has_code, would_block, not_found, end_of_stream,
}

-- `enum class NodeState`.
pub data NodeState : Type 0 where
  created prepared running draining stopped error : NodeState

-- What a catch clause tells apart: `std::bad_alloc` and `...`.
pub data Exception : Type 0 where
  bad_alloc other : Exception

-- A call returns or throws.
pub data Outcome (A : Type 0) : Type 0 where
  returned : A → Outcome A
  thrown : Exception → Outcome A

pub Outcome-cases :
    {A : Type 0} (o : Outcome A) → ((a : A) × (o ≡ returned a)) ⊎ ((e : Exception) × (o ≡ thrown e))
Outcome-cases (returned a) = inl (a, refl)
Outcome-cases (thrown e) = inr (e, refl)

-- The overridden hooks of a subclass, over its own state.
pub record Hooks (S : Type 0) : Type 0 where
  pub on_prepare : S → Outcome Status × S
  pub on_start : S → Outcome Status × S
  pub on_stop : S → Outcome Status × S
  pub on_reset : S → Outcome Status × S
  pub on_tick : S → Outcome Status × S

-- `class MediaNode` with the state of its subclass.
pub record Node (S : Type 0) : Type 0 where
  pub id : String
  pub state : NodeState
  pub inner : S

-- `status.ok() ? good : NodeState::kError`.
pub or_error : NodeState → Status → NodeState
or_error good st = if is_ok st then good else NodeState.error

module _ {S : Type 0} where
  -- After a hook: a status moves the node on, an exception leaves it where it was.
  pub moved : Node S → Outcome Status × S → (Status → NodeState) → Outcome Status × Node S
  moved n (returned st, s) next = (returned st, record n { state = next st; inner = s })
  moved n (thrown e, s) next = (thrown e, record n { inner = s })

-- `!ok && code != kWouldBlock && code != kNotFound && code != kEndOfStream`.
abbrev pub is_fatal : Status → Bool
is_fatal st =
    not (is_ok st)
    && not (has_code would_block st)
    && not (has_code not_found st)
    && not (has_code end_of_stream st)

module _ {S : Type 0} (h : Hooks S) where
  -- `MediaNode::prepare`.
  prepare_in : NodeState → Node S → Outcome Status × Node S
  unfolding moved or_error
  prepare_in NodeState.prepared n = (returned ok_status, n)
  prepare_in NodeState.created n = moved n (h.on_prepare n.inner) (or_error NodeState.prepared)
  prepare_in NodeState.stopped n = moved n (h.on_prepare n.inner) (or_error NodeState.prepared)
  prepare_in _ n = (returned (status invalid_state "node cannot be prepared from current state"), n)

  unfoldable pub prepare : Node S → Outcome Status × Node S
  unfolding prepare_in
  prepare n = prepare_in n.state n

  -- `MediaNode::start`.
  start_in : NodeState → Node S → Outcome Status × Node S
  unfolding moved or_error
  start_in NodeState.running n = (returned ok_status, n)
  start_in NodeState.prepared n = moved n (h.on_start n.inner) (or_error NodeState.running)
  start_in _ n = (returned (status invalid_state "node is not prepared"), n)

  unfoldable pub start : Node S → Outcome Status × Node S
  unfolding start_in
  start n = start_in n.state n

  -- What `MediaNode::stop` does with the result of `on_stop`.
  pub after_stop : Node S → Outcome Status × S → Outcome Status × Node S
  after_stop n (thrown e, s) = (thrown e, record n { inner = s })
  after_stop n (returned st, s) =
      if is_ok st || has_code end_of_stream st
      then (returned ok_status, record n { state = NodeState.stopped; inner = s })
      else if has_code would_block st || has_code not_found st
      then (returned st, record n { inner = s })
      else (returned st, record n { state = NodeState.error; inner = s })

  -- `MediaNode::stop`.
  stop_in : NodeState → Node S → Outcome Status × Node S
  unfolding after_stop
  stop_in NodeState.stopped n = (returned ok_status, n)
  stop_in NodeState.created n = (returned ok_status, record n { state = NodeState.stopped })
  stop_in _ n = after_stop (record n { state = NodeState.draining }) (h.on_stop n.inner)

  unfoldable pub stop : Node S → Outcome Status × Node S
  unfolding stop_in
  stop n = stop_in n.state n

  -- `MediaNode::reset`.
  reset_in : NodeState → Node S → Outcome Status × Node S
  unfolding moved or_error
  reset_in NodeState.created n = (returned ok_status, n)
  reset_in _ n = moved n (h.on_reset n.inner) (or_error NodeState.created)

  unfoldable pub reset : Node S → Outcome Status × Node S
  unfolding reset_in
  reset n = reset_in n.state n

  -- `MediaNode::tick`.
  tick_in : NodeState → Node S → Outcome Status × Node S
  unfolding moved
  tick_in NodeState.running n =
      moved n (h.on_tick n.inner) λ st. if is_fatal st then NodeState.error else n.state
  tick_in _ n = (returned (status invalid_state "node is not running"), n)

  unfoldable pub tick : Node S → Outcome Status × Node S
  unfolding tick_in
  tick n = tick_in n.state n
