-- ===== src/Media/Pipeline/Tick.antt =====
-- `MediaPipeline::tick` of src/media/pipeline.cpp and `DeterministicExecutor::run` of
-- include/eavp/media/executor.hpp.
use eavp.Base.{ℕ, zero, suc, String, List, [], ◌∷◌, Option, none, some, if◌then◌else◌}
use eavp.Status.{
  Status, ok_status, status, invalid_state, invalid_argument, is_ok, Result, success, failure,
}
use eavp.Media.Graph.{topological_order}
use eavp.Media.Node.{Node, Hooks, Outcome, returned, thrown, is_fatal, tick as tick_node}
use eavp.Media.Pipeline.{Pipeline, PipelineState, on_node}

module _ {S : Type 0} (h : Hooks S) where
  -- The loop of `tick`.
  pub tick_each : List String → List (Node S) → Outcome Status × List (Node S)
  tick_each [] ns = (returned ok_status, ns)
  tick_each (id ∷ ids) ns =
      let r = on_node id (tick_node h) ns in
      let rest = tick_each ids r.1 in
      elim r.0 [ thrown e ↦ r | returned st ↦ if is_fatal st then r else rest ]

  tick_sorted : Result (List String) → Pipeline S → Outcome Status × Pipeline S
  unfolding tick_each
  tick_sorted (failure st) p = (returned st, p)
  tick_sorted (success order) p =
      let r = tick_each order p.nodes in
      elim r.0 [
        | thrown e ↦ (thrown e, record p { nodes = r.1 })
        | returned st ↦
            if is_ok st
            then (returned ok_status, record p { nodes = r.1 })
            else (returned st, record p { nodes = r.1; state = PipelineState.error })
      ]

  tick_in : PipelineState → Pipeline S → Outcome Status × Pipeline S
  unfolding tick_sorted
  tick_in PipelineState.running p = tick_sorted (topological_order p.graph) p
  tick_in _ p = (returned (status invalid_state "pipeline is not running"), p)

  -- `MediaPipeline::tick`.
  pub tick : Pipeline S → Outcome Status × Pipeline S
  unfolding tick_in
  tick p = tick_in p.state p

  -- `DeterministicExecutor::run`; `none` is the null pipeline.
  pub run_ticks : ℕ → Pipeline S → Outcome Status × Pipeline S
  run_ticks zero p = (returned ok_status, p)
  run_ticks (suc n) p =
      let r = tick p in
      let rest = run_ticks n r.1 in
      elim r.0 [ thrown e ↦ r | returned st ↦ if is_ok st then rest else r ]

  pub run : Option (Pipeline S) → ℕ → Outcome Status × Option (Pipeline S)
  unfolding run_ticks
  run none n = (returned (status invalid_argument "pipeline must not be null"), none)
  run (some p) n = let r = run_ticks n p in (r.0, some r.1)
