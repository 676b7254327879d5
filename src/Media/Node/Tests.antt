-- ===== src/Media/Node/Tests.antt =====
-- Runs of the node of src/media/node.cpp with hooks that fail, throw or succeed.
use eavp.Base.{◌≡◌, true}
use eavp.Status.{ok_status, bare_status, would_block, io_error}
use eavp.Media.Node.{NodeState, Hooks, Node, returned, thrown, bad_alloc}
use eavp.Media.Node.LifeCycle.{stops, operate, allows, operate-allows}

abbrev device : Hooks Unit
device = record {
  on_prepare = λ s. (returned ok_status, s);
  on_start = λ s. (returned ok_status, s);
  on_stop = λ s. (returned (bare_status would_block), s);
  on_reset = λ s. (thrown bad_alloc, s);
  on_tick = λ s. (returned (bare_status io_error), s);
}

abbrev ready : Node Unit
ready = record { id = "camera"; state = NodeState.prepared; inner = tt }

abbrev busy : Node Unit
busy = record { id = "camera"; state = NodeState.running; inner = tt }

operate-allows_example :
    (allows stops NodeState.running (operate device stops busy).1.state ≡ true)
    × ((operate device stops busy).1.id ≡ "camera")
operate-allows_example = operate-allows device stops busy
