-- ===== src/Media/Pipeline/Start.antt =====
-- `MediaPipeline::start` of src/media/pipeline.cpp.
pub mod AllRun
use mathlib.Core.List.{reverse}
use eavp.Base.{
  ℕ, zero, suc, ◌+◌, ◌-◌, Bool, true, false, not, ◌&&◌, ◌||◌, String, List, [], ◌∷◌, ◌++◌, map,
  Option, none, some, if◌then◌else◌, str_eq, get_elem?, length,
}
use eavp.Status.{
  Status, ok_status, status, bare_status, invalid_state, invalid_argument, is_ok, has_code,
  would_block, not_found, resource_exhausted, internal, Result, success, failure,
}
use eavp.Media.Graph.{
  Graph, empty_graph, add_node as add_graph_node, connect as connect_graph, topological_order,
}
use eavp.Media.Node.{
  NodeState, Node, Hooks, Outcome, returned, thrown, Exception, bad_alloc, other, is_fatal, prepare,
  start as start_node, stop as stop_node, reset as reset_node, tick as tick_node,
}
use eavp.Media.Pipeline.{Pipeline, PipelineState, drop, on_node, runs, caught, first_failure}

module _ {S : Type 0} (h : Hooks S) where
  -- `stop_nodes_reverse`, over the nodes in reverse; an exception leaves the loop.
  pub stop_each : List String → List (Node S) → Outcome Status × List (Node S)
  stop_each [] ns = (returned ok_status, ns)
  stop_each (id ∷ ids) ns =
      let stopped = on_node id (stop_node h) ns in
      let reset = on_node id (reset_node h) stopped.1 in
      let rest = stop_each ids reset.1 in
      elim stopped.0 [
        | thrown e ↦ stopped
        | returned st ↦ elim reset.0 [ thrown e ↦ reset | returned st' ↦ rest ]
      ]

  pub stop_nodes_reverse : List String → List (Node S) → Outcome Status × List (Node S)
  unfolding stop_each
  stop_nodes_reverse ids ns = stop_each (reverse ids) ns

  -- The loop of `start` that prepares the nodes: how it ends, the nodes, and those it prepared.
  pub prepare_each :
      List String → List (Node S) → List String → Outcome Status × List (Node S) × List String
  prepare_each [] ns prepared = (returned ok_status, ns, prepared)
  prepare_each (id ∷ ids) ns prepared =
      let r = on_node id (prepare h) ns in
      let rest = prepare_each ids r.1 (prepared ++ (id ∷ [])) in
      elim r.0 [
        | thrown e ↦ (thrown e, r.1, prepared)
        | returned st ↦ if is_ok st then rest else (returned st, r.1, prepared)
      ]

  -- The loop that starts them.
  pub start_each : List String → List (Node S) → Outcome Status × List (Node S)
  start_each [] ns = (returned ok_status, ns)
  start_each (id ∷ ids) ns =
      let r = on_node id (start_node h) ns in
      let rest = start_each ids r.1 in
      elim r.0 [ thrown e ↦ r | returned st ↦ if is_ok st then rest else r ]

  -- `stop_nodes_reverse(prepared); state_ = kError; return status;`.
  pub abort : Status → List String → Pipeline S → Outcome Status × Pipeline S
  unfolding stop_nodes_reverse
  abort st prepared p =
      let r = stop_nodes_reverse prepared p.nodes in
      elim r.0 [
        | thrown e ↦ (thrown e, record p { nodes = r.1 })
        | returned _ ↦ (returned st, record p { nodes = r.1; state = PipelineState.error })
      ]

  pub start_prepared : List String → List String → Pipeline S → Outcome Status × Pipeline S
  unfolding start_each abort
  start_prepared order prepared p =
      let r = start_each order p.nodes in
      let p' = record p { nodes = r.1 } in
      elim r.0 [
        | thrown e ↦ (thrown e, p')
        | returned st ↦
            if is_ok st
            then (returned ok_status, record p' { state = PipelineState.running })
            else abort st prepared p'
      ]

  pub start_ordered : List String → Pipeline S → Outcome Status × Pipeline S
  unfolding prepare_each start_prepared
  start_ordered order p =
      let r = prepare_each order p.nodes [] in
      let p' = record p { nodes = r.1; drain_order = order } in
      elim r.0 [
        | thrown e ↦ (thrown e, p')
        | returned st ↦ if is_ok st then start_prepared order r.2 p' else abort st r.2 p'
      ]

  -- `start` from the states created and stopped.
  pub start_sorted : Result (List String) → Pipeline S → Outcome Status × Pipeline S
  unfolding start_ordered
  start_sorted (failure st) p = (returned st, record p { state = PipelineState.error })
  start_sorted (success []) p = (
    returned (status invalid_state "pipeline has no nodes"),
    record p { state = PipelineState.error },
  )
  start_sorted (success (id ∷ ids)) p = start_ordered (id ∷ ids) p

  start_in : PipelineState → Pipeline S → Outcome Status × Pipeline S
  unfolding start_sorted
  start_in PipelineState.running p = (returned ok_status, p)
  start_in PipelineState.draining p =
      (returned (status invalid_state "pipeline is still draining"), p)
  start_in PipelineState.error p =
      (returned (status invalid_state "pipeline must be reset after an error"), p)
  start_in _ p =
      start_sorted (topological_order p.graph) (record p { drain_order = []; drain_index = 0 })

  -- `MediaPipeline::start`.
  unfoldable pub start : Pipeline S → Outcome Status × Pipeline S
  unfolding start_in
  start p = start_in p.state p
