-- ===== src/Media/Pipeline/Drain/Ends.antt =====
-- The results of the loop of `MediaPipeline::stop` (src/media/pipeline.cpp).
use native.Mathlib.Nat.{le_refl}
use eavp.Base.{
  ℕ, zero, suc, ◌<◌, ◌≤◌, ◌≡◌, ◌⊎◌, refl, ◌∙◌, String, List, [], ◌∷◌, some, true, false, Bool-cases,
  Option-cases, arith, inl, inr, get_elem?, ◌||◌,
}
use eavp.StringSet.{count}
use eavp.Status.{Status, is_ok, has_code, would_block, not_found}
use eavp.Media.Node.{
  NodeState, Node, Hooks, Outcome, returned, Outcome-cases, stop as stop_node, tick as tick_node,
}
use eavp.Media.Node.LifeCycle.{ticks, stops}
use eavp.Media.Pipeline.{drop, on_node, Pipeline, PipelineState}
use eavp.Media.Pipeline.Formed.{Covers}
use eavp.Media.Pipeline.Nodes.{ids, state_of, ids-operate}
use eavp.Media.Pipeline.Drain.{
  tick_each_running, reset_nodes_reverse, drain_node, conclude_drain, await_drain, fail_drain,
  drain,
}
use eavp.Media.Pipeline.Drain.Reset.{reset_nodes_reverse-created, ids-reset_nodes_reverse}

-- The pipeline has stopped, and all its nodes are in their initial state.
pub record HasStopped {S : Type 0} (p q : Pipeline S) : Type 0 where
  pub state : q.state ≡ PipelineState.stopped
  pub order : q.drain_order ≡ []
  pub index : q.drain_index ≡ 0
  pub created :
      (j : String) → 0 < count j (ids p.nodes) → state_of j q.nodes ≡ some NodeState.created

-- The pipeline drains on from where it was, or from further on.
pub record IsDraining {S : Type 0} (p q : Pipeline S) : Type 0 where
  pub state : q.state ≡ PipelineState.draining
  pub covers : Covers q
  pub same : ids q.nodes ≡ ids p.nodes
  pub progress : p.drain_index ≤ q.drain_index

-- A call of `stop` that returns has stopped the pipeline and says so, has failed and says so, or asks
-- to be called again.
abbrev pub Ends : {S : Type 0} → Status → Pipeline S → Pipeline S → Type 0
Ends st p q =
    ((is_ok st ≡ true) × HasStopped p q)
    ⊎ ((is_ok st ≡ false) × (q.state ≡ PipelineState.error))
    ⊎ ((has_code would_block st ≡ true) × IsDraining p q)

module _ {S : Type 0} (h : Hooks S) where
  ids-tick_each_running :
      (l : List String) (ns : List (Node S)) → ids (tick_each_running h l ns).1 ≡ ids ns
  unfolding tick_each_running
  ids-tick_each_running [] ns = refl
  ids-tick_each_running (id ∷ l) ns = ground (
    arith,
    ids-operate h ticks id ns,
    ids-tick_each_running l ns,
    ids-tick_each_running l (on_node id (tick_node h) ns).1,
  )

  conclude_drain-nodes :
      (p : Pipeline S)
      → (conclude_drain h p).1.nodes ≡ (reset_nodes_reverse h p.drain_order p.nodes).1
  unfolding conclude_drain
  conclude_drain-nodes p = ground arith

  await_drain-frame :
      (p : Pipeline S)
      → ((await_drain h p).1.drain_order ≡ p.drain_order)
        × ((await_drain h p).1.drain_index ≡ p.drain_index)
        × (ids (await_drain h p).1.nodes ≡ ids p.nodes)
  unfolding await_drain
  await_drain-frame p =
      let ticked = tick_each_running h (drop (suc p.drain_index) p.drain_order) p.nodes in
      ground (
        arith,
        ids-tick_each_running (drop (suc p.drain_index) p.drain_order) p.nodes,
        ids-reset_nodes_reverse h p.drain_order ticked.1,
      )

  pub conclude_drain-Ends :
      (p : Pipeline S) (st : Status)
      → Covers p
      → (conclude_drain h p).0 ≡ returned st
      → Ends st p (conclude_drain h p).1
  unfolding conclude_drain
  conclude_drain-Ends p st c e =
      elim (Bool-cases (is_ok (reset_nodes_reverse h p.drain_order p.nodes).0)) [
        | inl k ↦ inl (
          ground arith,
          record {
            state = ground arith;
            order = ground arith;
            index = ground arith;
            created = λ j m. rw (conclude_drain-nodes p) (
                reset_nodes_reverse-created h p.drain_order p.nodes (λ i q. omega (arith, c i)) k j
                  (omega (arith, c j)));
          },
        )
        | inr k ↦ inr (inl (ground arith, ground arith))
      ]

  fail_drain-Ends :
      (a : Status) (p : Pipeline S) (st : Status)
      → is_ok a ≡ false
      → (fail_drain h a p).0 ≡ returned st
      → (is_ok st ≡ false) × ((fail_drain h a p).1.state ≡ PipelineState.error)
  unfolding fail_drain
  fail_drain-Ends a p st k e = ground arith

  await_drain-Ends :
      (p : Pipeline S) (st : Status)
      → p.state ≡ PipelineState.draining
      → Covers p
      → (await_drain h p).0 ≡ returned st
      → Ends st p (await_drain h p).1
  unfolding await_drain
  await_drain-Ends p st d c e =
      elim (Outcome-cases
        (tick_each_running h (drop (suc p.drain_index) p.drain_order) p.nodes).0) [
          | inr (x, q) ↦ absurd (ground arith)
          | inl (a, q) ↦ elim (Bool-cases (is_ok a)) [
            | inl k ↦ inr (
                inr (
                  ground arith,
                  record {
                    state = ground arith;
                    covers = λ j. rw ((await_drain-frame p).0, (await_drain-frame p).2) (c j);
                    same = (await_drain-frame p).2;
                    progress = ground arith;
                  },
                ))
            | inr k ↦ inr (inl (ground arith, ground arith))
          ]
        ]

  stopping : (p : Pipeline S) (id : String) → ids (on_node id (stop_node h) p.nodes).1 ≡ ids p.nodes
  stopping p id = ids-operate h stops id p.nodes

  pub Ends-later :
      (st : Status) (p q r : Pipeline S)
      → ids q.nodes ≡ ids p.nodes
      → p.drain_index ≤ q.drain_index
      → Ends st q r
      → Ends st p r
  Ends-later st p q r same later (inl (k, e)) = inl (
    k,
    record {
      state = e.state;
      order = e.order;
      index = e.index;
      created = λ j m. e.created j (rw same m);
    },
  )
  Ends-later st p q r same later (inr (inl e)) = inr (inl e)
  Ends-later st p q r same later (inr (inr (k, e))) = inr (
      inr (
        k,
        record {
          state = e.state;
          covers = e.covers;
          same = e.same ∙ same;
          progress = omega (arith, e.progress);
        },
      ))

  drain_node-Ends :
      (next : Pipeline S → Outcome Status × Pipeline S)
      → ((p : Pipeline S) (st : Status)
          → p.state ≡ PipelineState.draining
          → Covers p
          → (next p).0 ≡ returned st
          → Ends st p (next p).1)
      → (id : String) (p : Pipeline S) (st : Status) → p.state ≡ PipelineState.draining
      → Covers p
      → (drain_node h next id p).0 ≡ returned st
      → Ends st p (drain_node h next id p).1
  unfolding drain_node
  drain_node-Ends next ih id p st d c e = elim (Outcome-cases r.0) [
    | inr (x, q) ↦ absurd (ground arith)
    | inl (a, q) ↦ elim (Bool-cases (has_code would_block a || has_code not_found a)) [
      | inl w ↦
          rw (q, w, drain_node)
            (Ends-later st p p' _ same (le_refl p.drain_index)
              (await_drain-Ends p' st d c' (rw (q, w, drain_node) at e)))
      | inr w ↦ elim (Bool-cases (is_ok a)) [
        | inl k ↦
            rw (q, w, k, drain_node)
              (Ends-later st p p'' _ same (omega arith)
                (ih p'' st d c' (rw (q, w, k, drain_node) at e)))
        | inr k ↦
            rw (q, w, k, drain_node)
              (inr (inl (fail_drain-Ends a p' st k (rw (q, w, k, drain_node) at e))))
      ]
    ]
  ]
    where
      r : Outcome Status × List (Node S)
      r = on_node id (stop_node h) p.nodes

      p' : Pipeline S
      p' = record p { nodes = r.1 }

      p'' : Pipeline S
      p'' = record p { nodes = r.1; drain_index = suc p.drain_index }

      same : ids r.1 ≡ ids p.nodes
      same = stopping p id

      c' : (j : String) → count j p.drain_order ≡ count j (ids r.1)
      c' j = rw same (c j)

  pub drain-Ends :
      (f : ℕ) (p : Pipeline S) (st : Status)
      → p.state ≡ PipelineState.draining
      → Covers p
      → (drain h f p).0 ≡ returned st
      → Ends st p (drain h f p).1
  unfolding drain
  drain-Ends zero p st d c e = conclude_drain-Ends p st c e
  drain-Ends (suc f) p st d c e = elim (Option-cases (get_elem? p.drain_order p.drain_index)) [
    | inl q ↦ rw (q, drain) (conclude_drain-Ends p st c (rw (q, drain) at e))
    | inr (id, q) ↦
        rw (q, drain) (drain_node-Ends (drain h f) (drain-Ends f) id p st d c (rw (q, drain) at e))
  ]
