-- ===== src/Media/Pipeline/Drain.antt =====
-- `MediaPipeline::stop`, `cancel` and the destructor of src/media/pipeline.cpp.
pub mod Reset
pub mod Ends
pub mod Stop
pub mod Cancel
use mathlib.Core.List.{reverse}
use eavp.Base.{
  ℕ, zero, suc, ◌+◌, ◌-◌, Bool, true, false, not, ◌&&◌, ◌||◌, String, List, [], ◌∷◌, ◌++◌, map,
  Option, none, some, if◌then◌else◌, str_eq, get_elem?, length,
}
use eavp.Status.{
  Status, ok_status, status, bare_status, invalid_state, invalid_argument, is_ok, has_code,
  would_block, not_found, resource_exhausted, internal, Result, success, failure,
}
use eavp.Media.Graph.{
  Graph, empty_graph, add_node as add_graph_node, connect as connect_graph, topological_order,
}
use eavp.Media.Node.{
  NodeState, Node, Hooks, Outcome, returned, thrown, Exception, bad_alloc, other, is_fatal, prepare,
  start as start_node, stop as stop_node, reset as reset_node, tick as tick_node,
}
use eavp.Media.Pipeline.{Pipeline, PipelineState, drop, on_node, runs, caught, first_failure}

module _ {S : Type 0} (h : Hooks S) where
  -- `reset_nodes_reverse`, over the nodes in reverse: every node is reset, exceptions are caught,
  -- and the first failure is kept.
  pub reset_each : List String → Status → List (Node S) → Status × List (Node S)
  unfolding caught first_failure
  reset_each [] first ns = (first, ns)
  reset_each (id ∷ ids) first ns =
      let r = on_node id (reset_node h) ns in reset_each ids (first_failure first (caught r.0)) r.1

  pub reset_nodes_reverse : List String → List (Node S) → Status × List (Node S)
  unfolding reset_each
  reset_nodes_reverse ids ns = reset_each (reverse ids) ok_status ns

  -- `reset_owned_nodes_reverse`: the same over `nodes_`.
  pub reset_owned_nodes_reverse : List (Node S) → Status × List (Node S)
  unfolding reset_nodes_reverse
  reset_owned_nodes_reverse ns = reset_nodes_reverse (map (λ (n : Node S). n.id) ns) ns

  -- `tick_running_downstream`, over the nodes behind the one that drains.
  pub tick_each_running : List String → List (Node S) → Outcome Status × List (Node S)
  tick_each_running [] ns = (returned ok_status, ns)
  tick_each_running (id ∷ ids) ns =
      let r = on_node id (tick_node h) ns in
      let skipped = tick_each_running ids ns in
      let rest = tick_each_running ids r.1 in
      if runs id ns
      then elim r.0 [ thrown e ↦ r | returned st ↦ if is_fatal st then r else rest ]
      else skipped

  -- `reset_nodes_reverse(drain_order_); state_ = kError; return status;`.
  pub fail_drain : Status → Pipeline S → Outcome Status × Pipeline S
  unfolding reset_nodes_reverse
  fail_drain st p =
      let r = reset_nodes_reverse p.drain_order p.nodes in
      (returned st, record p { nodes = r.1; state = PipelineState.error })

  -- A node that is not drained yet: those behind it run on, and `stop` has to be called again.
  pub await_drain : Pipeline S → Outcome Status × Pipeline S
  unfolding tick_each_running fail_drain
  await_drain p =
      let r = tick_each_running (drop (suc p.drain_index) p.drain_order) p.nodes in
      let p' = record p { nodes = r.1 } in
      elim r.0 [
        | thrown e ↦ (thrown e, p')
        | returned st ↦
            if is_ok st
            then (returned (status would_block "pipeline drain requires another executor turn"), p')
            else fail_drain st p'
      ]

  -- The end of `stop` and of `cancel`: the outcome of the resets decides.
  pub conclude : Status × List (Node S) → Pipeline S → Status × Pipeline S
  conclude r p =
      if is_ok r.0
      then (
        ok_status,
        record p { nodes = r.1; state = PipelineState.stopped; drain_order = []; drain_index = 0 },
      )
      else (r.0, record p { nodes = r.1; state = PipelineState.error })

  pub conclude_drain : Pipeline S → Outcome Status × Pipeline S
  unfolding conclude reset_nodes_reverse
  conclude_drain p =
      let r = conclude (reset_nodes_reverse p.drain_order p.nodes) p in (returned r.0, r.1)

  -- A round of the loop of `stop`, with what follows if the node is drained.
  pub drain_node :
      (Pipeline S → Outcome Status × Pipeline S) → String → Pipeline S → Outcome Status × Pipeline S
  unfolding await_drain fail_drain
  drain_node next id p =
      let r = on_node id (stop_node h) p.nodes in
      let p' = record p { nodes = r.1 } in
      elim r.0 [
        | thrown e ↦ (thrown e, p')
        | returned st ↦
            if has_code would_block st || has_code not_found st
            then await_drain p'
            else if is_ok st
            then next (record p' { drain_index = suc p.drain_index })
            else fail_drain st p'
      ]

  -- `while (drain_index_ < drain_order_.size())`, a round for each node that is left.
  pub drain : ℕ → Pipeline S → Outcome Status × Pipeline S
  unfolding drain_node conclude_drain
  drain zero p = conclude_drain p
  drain (suc f) p = elim (get_elem? p.drain_order p.drain_index) [
    | none ↦ conclude_drain p
    | some id ↦ drain_node (drain f) id p
  ]

  pub drain_loop : Pipeline S → Outcome Status × Pipeline S
  unfolding drain
  drain_loop p = drain (length p.drain_order - p.drain_index) p

  -- `stop` from an error state: the nodes are reset, `drain_order_` is kept.
  pub stop_failed : Pipeline S → Outcome Status × Pipeline S
  unfolding reset_nodes_reverse
  stop_failed p =
      let r = reset_nodes_reverse p.drain_order p.nodes in
      (
        returned r.0,
        record p {
          nodes = r.1;
          state = (if is_ok r.0 then PipelineState.stopped else PipelineState.error);
        },
      )

  -- `stop` with its order known.
  enter_drain : PipelineState → Pipeline S → Outcome Status × Pipeline S
  unfolding drain_loop stop_failed
  enter_drain PipelineState.error p = stop_failed (record p { drain_index = 0 })
  enter_drain _ p = drain_loop (record p { drain_index = 0; state = PipelineState.draining })

  -- `stop` from the states running and error.
  stop_active : List String → Pipeline S → Outcome Status × Pipeline S
  unfolding enter_drain
  stop_active [] p = elim (topological_order p.graph) [
    | failure st ↦ (returned st, record p { state = PipelineState.error })
    | success order ↦ enter_drain p.state (record p { drain_order = order })
  ]
  stop_active (id ∷ ids) p = enter_drain p.state p

  stop_in : PipelineState → Pipeline S → Outcome Status × Pipeline S
  unfolding stop_active drain_loop
  stop_in PipelineState.stopped p = (returned ok_status, p)
  stop_in PipelineState.created p = (returned ok_status, record p { state = PipelineState.stopped })
  stop_in PipelineState.draining p = drain_loop p
  stop_in _ p = stop_active p.drain_order p

  -- `MediaPipeline::stop`.
  unfoldable pub stop : Pipeline S → Outcome Status × Pipeline S
  unfolding stop_in
  stop p = stop_in p.state p

  -- The resets of `cancel`.
  cancel_resets : List String → Pipeline S → Status × List (Node S)
  unfolding reset_owned_nodes_reverse
  cancel_resets [] p = reset_owned_nodes_reverse p.nodes
  cancel_resets (id ∷ ids) p = reset_nodes_reverse (id ∷ ids) p.nodes

  cancel_in : PipelineState → Pipeline S → Status × Pipeline S
  unfolding cancel_resets conclude
  cancel_in PipelineState.stopped p = (ok_status, p)
  cancel_in _ p = conclude (cancel_resets p.drain_order p) p

  -- `MediaPipeline::cancel`.
  unfoldable pub cancel : Pipeline S → Status × Pipeline S
  unfolding cancel_in
  cancel p = cancel_in p.state p

  -- `MediaPipeline::~MediaPipeline`, as the state in which its members are destroyed.
  pub destroy : Pipeline S → Pipeline S
  unfolding stop cancel
  destroy p =
      let r = stop p in
      elim r.0 [
        | thrown e ↦ (cancel r.1).1
        | returned st ↦ if is_ok st then r.1 else (cancel r.1).1
      ]
