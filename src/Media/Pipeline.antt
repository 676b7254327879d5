-- ===== src/Media/Pipeline.antt =====
-- include/eavp/media/pipeline.hpp, src/media/pipeline.cpp and include/eavp/media/executor.hpp: a
-- pipeline owns its nodes and starts, ticks, drains and resets them in the order of its graph. A
-- `MediaNode*` is the id of the node: ids are unique, since `MediaGraph::add_node` refuses a second.
pub mod Nodes
pub mod Formed
pub mod Start
pub mod Drain
mod Tests
pub mod Tick
use mathlib.Core.List.{reverse}
use eavp.Base.{
  ℕ, zero, suc, ◌+◌, ◌-◌, Bool, true, false, not, ◌&&◌, ◌||◌, String, List, [], ◌∷◌, ◌++◌, map,
  Option, none, some, if◌then◌else◌, str_eq, get_elem?, length,
}
use eavp.Status.{
  Status, ok_status, status, bare_status, invalid_state, invalid_argument, is_ok, has_code,
  would_block, not_found, resource_exhausted, internal, Result, success, failure,
}
use eavp.Media.Graph.{
  Graph, empty_graph, add_node as add_graph_node, connect as connect_graph, topological_order,
}
use eavp.Media.Node.{
  NodeState, Node, Hooks, Outcome, returned, thrown, Exception, bad_alloc, other, is_fatal, prepare,
  start as start_node, stop as stop_node, reset as reset_node, tick as tick_node,
}

-- `enum class PipelineState`.
pub data PipelineState : Type 0 where
  created running draining stopped error : PipelineState

-- `class MediaPipeline`.
pub record Pipeline (S : Type 0) : Type 0 where
  pub id : String
  pub state : PipelineState
  pub graph : Graph
  pub nodes : List (Node S)
  pub drain_order : List String
  pub drain_index : ℕ

-- The rest of a vector from an index on.
abbrev pub drop {ℓ} : {A : Type ℓ} → ℕ → List A → List A
drop zero xs = xs
drop (suc n) [] = []
drop (suc n) (x ∷ xs) = drop n xs

-- `node->state() == NodeState::kRunning`.
pub is_running : NodeState → Bool
is_running NodeState.running = true
is_running _ = false

-- What a caught exception becomes in `reset_nodes_reverse`.
pub caught : Outcome Status → Status
caught (returned st) = st
caught (thrown bad_alloc) = bare_status resource_exhausted
caught (thrown other) = bare_status internal

-- `if (first_failure.ok() && !status.ok()) first_failure = status;`.
pub first_failure : Status → Status → Status
first_failure first st = if is_ok first then (if is_ok st then first else st) else first

module _ {S : Type 0} where
  -- A call through the pointer to the node `id`. (No pointer leads to no node.)
  unfoldable pub on_node :
      String → (Node S → Outcome Status × Node S) → List (Node S) → Outcome Status × List (Node S)
  on_node id f [] = (returned ok_status, [])
  on_node id f (n ∷ ns) =
      let here = f n in
      let later = on_node id f ns in
      if str_eq n.id id then (here.0, here.1 ∷ ns) else (later.0, n ∷ later.1)

  pub runs : String → List (Node S) → Bool
  unfolding is_running
  runs id [] = false
  runs id (n ∷ ns) = if str_eq n.id id then is_running n.state else runs id ns

pub is_active : PipelineState → Bool
is_active PipelineState.running = true
is_active PipelineState.draining = true
is_active _ = false

abbrev pub modify_error : Status
modify_error = status invalid_state "cannot modify an active pipeline"

module _ {S : Type 0} where
  -- `MediaPipeline::MediaPipeline`.
  unfoldable pub new_pipeline : String → Pipeline S
  new_pipeline id = record {
    id = id;
    state = PipelineState.created;
    graph = empty_graph;
    nodes = [];
    drain_order = [];
    drain_index = 0;
  }

  -- `MediaPipeline::add_node`; `none` is the null node.
  unfoldable pub add_node : Option (Node S) → Pipeline S → Status × Pipeline S
  unfolding is_active
  add_node none p = (status invalid_argument "node must not be null", p)
  add_node (some n) p =
      if is_active p.state
      then (modify_error, p)
      else let r = add_graph_node n.id p.graph in
        if is_ok r.0
        then (ok_status, record p { graph = r.1; nodes = p.nodes ++ (n ∷ []) })
        else (r.0, record p { graph = r.1 })

  -- `MediaPipeline::connect`.
  unfoldable pub connect : String → String → Pipeline S → Status × Pipeline S
  unfolding is_active
  connect source sink p =
      if is_active p.state
      then (modify_error, p)
      else let r = connect_graph source sink p.graph in (r.0, record p { graph = r.1 })
