-- ===== src/Media/Pipeline/Tests.antt =====
-- Runs of the pipeline of src/media/pipeline.cpp on small examples.
use eavp.Base.{◌+◌, ◌≡◌, ◌⊎◌, inl, refl, [], ◌∷◌, some, true, false, arith}
use eavp.StringMap.{find, insert as insert_entry}
use eavp.StringSet.{insert}
use eavp.Status.{ok_status, bare_status, status, would_block, is_ok}
use eavp.Media.Graph.{empty_graph, add_node as add_graph_node, topological_order}
use eavp.Media.Graph.Reach.{empty-IsBuilt}
use eavp.Media.Node.{
  NodeState, Hooks, Node, returned, start as start_node, prepare as prepare_node, stop as stop_node,
  reset as reset_node, tick as tick_node,
}
use eavp.Media.Pipeline.{Pipeline, PipelineState, new_pipeline, add_node, on_node}
use eavp.Media.Pipeline.Formed.{IsFormed, add_node-IsFormed}
use eavp.Media.Pipeline.Start.{start}
use eavp.Media.Pipeline.Start.AllRun.{IsRunning, start_runs}
use eavp.Media.Pipeline.Drain.{drain, drain_loop, stop, cancel}
use eavp.Media.Pipeline.Drain.Ends.{Ends, HasStopped}
use eavp.Media.Pipeline.Drain.Stop.{drain_enough, stop-draining, stop-running}
use eavp.Media.Pipeline.Drain.Cancel.{cancel_stops}

-- Nodes that do at once what they are asked to.
abbrev device : Hooks Unit
device = record {
  on_prepare = λ s. (returned ok_status, s);
  on_start = λ s. (returned ok_status, s);
  on_stop = λ s. (returned ok_status, s);
  on_reset = λ s. (returned ok_status, s);
  on_tick = λ s. (returned ok_status, s);
}

-- Nodes that never end their drain.
abbrev slow : Hooks Unit
slow = record device { on_stop = λ s. (returned (bare_status would_block), s) }

abbrev camera : Node Unit
camera = record { id = "camera"; state = NodeState.created; inner = tt }

new_pipeline-IsFormed : IsFormed 0 (new_pipeline {S = Unit} "p")
unfolding new_pipeline empty_graph
new_pipeline-IsFormed = record { nodes = λ x. refl; built = empty-IsBuilt }

abbrev live : Pipeline Unit
live = (add_node (some camera) (new_pipeline "p")).1

live-IsFormed : IsFormed 1 live
live-IsFormed = add_node-IsFormed 0 (some camera) (new_pipeline "p") new_pipeline-IsFormed

start_runs_example : IsRunning live (start device live).1
unfolding start add_node new_pipeline add_graph_node empty_graph insert find insert_entry
    topological_order on_node prepare_node start_node
start_runs_example =
    start_runs device 1 live ok_status live-IsFormed (omega arith) (λ e. ground (arith, e)) refl
      refl

abbrev running : Pipeline Unit
running = record {
  id = "p";
  state = PipelineState.running;
  graph = empty_graph;
  nodes = record camera { state = NodeState.running } ∷ [];
  drain_order = "camera" ∷ [];
  drain_index = 0;
}

abbrev draining : Pipeline Unit
draining = record running {
  state = PipelineState.draining;
  nodes = record camera { state = NodeState.draining } ∷ [];
}

drain_enough_example : drain device (1 + 5) draining ≡ drain_loop device draining
drain_enough_example = drain_enough device 5 draining

stop-draining_example :
    Ends
      (status would_block "pipeline drain requires another executor turn")
      draining
      (stop slow draining).1
unfolding stop on_node stop_node tick_node reset_node
stop-draining_example =
    stop-draining slow draining (status would_block "pipeline drain requires another executor turn")
      refl (λ j. refl) refl

stop-running_example : Ends ok_status (record running { drain_index = 0 }) (stop device running).1
unfolding stop on_node stop_node tick_node reset_node
stop-running_example =
    stop-running device running ok_status refl (λ j. refl) (λ e. ground (arith, e)) refl

cancel_stops_example :
    ((is_ok (cancel device draining).0 ≡ true) × HasStopped draining (cancel device draining).1)
    ⊎ ((is_ok (cancel device draining).0 ≡ false)
        × ((cancel device draining).1.state ≡ PipelineState.error))
cancel_stops_example = cancel_stops device draining (λ e. ground (arith, e)) (inl (λ j. refl))
