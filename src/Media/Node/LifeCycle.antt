-- ===== src/Media/Node/LifeCycle.antt =====
-- The states that a media node of src/media/node.cpp passes through.
use eavp.Base.{◌≡◌, refl, ◌≢◌, ℕ, ◌==◌, ◌||◌, Bool, true, arith}
use eavp.Status.{Status, ok_status, is_ok}
use eavp.Media.Node.{NodeState, Hooks, Node, Outcome, returned, prepare, start, stop, reset, tick}

abbrev pub state_value : NodeState → ℕ
state_value NodeState.created = 0
state_value NodeState.prepared = 1
state_value NodeState.running = 2
state_value NodeState.draining = 3
state_value NodeState.stopped = 4
state_value NodeState.error = 5

abbrev pub same : NodeState → NodeState → Bool
same s t = state_value s == state_value t

abbrev pub one_of : NodeState → NodeState → NodeState → Bool
one_of a b t = same a t || same b t

-- The operations of a node.
pub data Op : Type 0 where
  prepares starts stops resets ticks : Op

module _ {S : Type 0} (h : Hooks S) where
  abbrev pub operate : Op → Node S → Outcome Status × Node S
  operate prepares = prepare h
  operate starts = start h
  operate stops = stop h
  operate resets = reset h
  operate ticks = tick h

-- The life cycle, as the states that an operation may leave a node in.
abbrev pub allows : Op → NodeState → NodeState → Bool
allows prepares NodeState.created t =
    one_of NodeState.prepared NodeState.error t || same NodeState.created t
allows prepares NodeState.stopped t =
    one_of NodeState.prepared NodeState.error t || same NodeState.stopped t
allows starts NodeState.prepared t =
    one_of NodeState.running NodeState.error t || same NodeState.prepared t
allows stops NodeState.created t = same NodeState.stopped t
allows stops NodeState.stopped t = same NodeState.stopped t
allows stops s t = one_of NodeState.draining NodeState.stopped t || same NodeState.error t
allows resets NodeState.created t = same NodeState.created t
allows resets s t = one_of NodeState.created NodeState.error t || same s t
allows ticks NodeState.running t = one_of NodeState.running NodeState.error t
allows _ s t = same s t

-- The state that an operation promises when it succeeds.
abbrev pub target : Op → NodeState
target prepares = NodeState.prepared
target starts = NodeState.running
target stops = NodeState.stopped
target resets = NodeState.created
target ticks = NodeState.running

module _ {S : Type 0} (h : Hooks S) where
  -- Each operation moves a node along the life cycle only, whatever its hooks return or throw, and
  -- never renames it.
  pub operate-allows :
      (o : Op) (n : Node S)
      → (allows o n.state (operate h o n).1.state ≡ true) × ((operate h o n).1.id ≡ n.id)
  unfolding prepare start stop reset tick
  operate-allows prepares n = ground arith
  operate-allows starts n = ground arith
  operate-allows stops n = ground arith
  operate-allows resets n = ground arith
  operate-allows ticks n = ground arith

  -- An operation that returns an ok status leaves the node in the state that it promises: `prepare`
  -- in prepared, `start` and `tick` in running, `stop` in stopped, `reset` in created.
  pub operate-target :
      (o : Op) (n : Node S) (st : Status)
      → (operate h o n).0 ≡ returned st
      → is_ok st ≡ true
      → (operate h o n).1.state ≡ target o
  unfolding prepare start stop reset tick
  operate-target prepares n st e k = ground arith
  operate-target starts n st e k = ground arith
  operate-target stops n st e k = ground arith
  operate-target resets n st e k = ground arith
  operate-target ticks n st e k = ground arith

  -- In the state that it promises, an operation other than `tick` succeeds without calling a hook
  -- and without changing the node.
  pub operate_again :
      (o : Op) (n : Node S)
      → o ≢ ticks
      → n.state ≡ target o
      → operate h o n ≡ (returned ok_status, n)
  unfolding prepare start stop reset
  operate_again prepares n ne e = ground arith
  operate_again starts n ne e = ground arith
  operate_again stops n ne e = ground arith
  operate_again resets n ne e = ground arith
  operate_again ticks n ne e = absurd (ne refl)
