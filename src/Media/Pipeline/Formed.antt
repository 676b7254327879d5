-- ===== src/Media/Pipeline/Formed.antt =====
-- What calls of `MediaPipeline::add_node` and `connect` (src/media/pipeline.cpp) build: the nodes of
-- the pipeline are those of its graph, and the graph has an order.
use mathlib.Core.List.{map-append}
use native.Mathlib.Nat.{lt_of_le_of_lt as le_lt_trans}
use eavp.Base.{
  ℕ, suc, ◌<◌, ◌^◌, ◌≡◌, sym, ◌∙◌, ap, String, List, [], ◌∷◌, Option, none, some, arith, Bool-cases,
  inl, inr,
}
use eavp.StringSet.{count, count-append}
use eavp.Status.{is_ok, success}
use eavp.Media.Graph.{topological_order, add_node as add_graph_node}
use eavp.Media.Graph.Order.{topological_order_iff, topological_order_sound}
use eavp.Media.Graph.Reach.{
  IsBuilt, add_node-IsBuilt, connect-IsBuilt, empty-IsBuilt, nodes-add_node, nodes-connect,
  empty_graph-nodes,
}
use eavp.Media.Node.{Node}
use eavp.Media.Pipeline.{Pipeline, add_node, connect, new_pipeline, is_active}
use eavp.Media.Pipeline.Nodes.{ids}

-- Every node of the pipeline is in its drain order, and the other way round.
abbrev pub Covers : {S : Type 0} → Pipeline S → Type 0
Covers p = (j : String) → count j p.drain_order ≡ count j (ids p.nodes)

-- With at most `n` edges.
pub record IsFormed {S : Type 0} (n : ℕ) (p : Pipeline S) : Type 0 where
  pub nodes : (x : String) → count x (ids p.nodes) ≡ count x p.graph.nodes
  pub built : IsBuilt n p.graph

IsFormed-suc : {S : Type 0} (n : ℕ) (p : Pipeline S) → IsFormed n p → IsFormed (suc n) p
IsFormed-suc n p f = record {
  nodes = f.nodes;
  built = record {
    valid = f.built.valid;
    acyclic = f.built.acyclic;
    few = omega (arith, f.built.few);
  };
}

module _ {S : Type 0} where
  -- The order in which a formed pipeline handles its nodes holds each of them as often as it owns it.
  pub order-nodes :
      (n : ℕ) (p : Pipeline S)
      → IsFormed n p
      → n < 2 ^ 64
      → (order : List String) × (topological_order p.graph ≡ success order)
        × ((x : String) → count x order ≡ count x (ids p.nodes))
  order-nodes n p f few =
      let small = le_lt_trans f.built.few few in
      let found = (topological_order_iff p.graph f.built.valid small).0.1 f.built.acyclic in
      (
        _,
        found,
        λ x. (topological_order_sound p.graph f.built.valid small _ found).0 x ∙ sym (f.nodes x),
      )

  new_pipeline-IsFormed : (id : String) → IsFormed 0 (new_pipeline {S = S} id)
  unfolding new_pipeline
  new_pipeline-IsFormed id = record { nodes = λ x. simp empty_graph-nodes; built = empty-IsBuilt }

  -- A call of `connect`, refused or not, on a formed pipeline with at most `n` edges, where `n +
  -- 1` is less than 2 ^ 64, leaves it formed: it owns each node as often as its graph does, and
  -- its graph can be ordered and has at most `n + 1` edges.
  pub connect-IsFormed :
      (n : ℕ) (a b : String) (p : Pipeline S)
      → suc n < 2 ^ 64
      → IsFormed n p
      → IsFormed (suc n) (connect a b p).1
  unfolding connect
  connect-IsFormed n a b p h f = elim (Bool-cases (is_active p.state)) [
    | inl e ↦ rw e (IsFormed-suc n p f)
    | inr e ↦ rw e (record {
      nodes = λ x. f.nodes x ∙ ap (count x) (sym (nodes-connect a b p.graph));
      built = connect-IsBuilt n a b p.graph h f.built;
    })
  ]

  -- A call of `add_node`, refused or not, keeps a pipeline formed: it owns each node as often as
  -- its graph does, and its graph can be ordered.
  pub add_node-IsFormed :
      (n : ℕ) (m : Option (Node S)) (p : Pipeline S)
      → IsFormed n p
      → IsFormed (suc n) (add_node m p).1
  unfolding add_node
  add_node-IsFormed n none p f = IsFormed-suc n p f
  add_node-IsFormed n (some m) p f = elim (Bool-cases (is_active p.state)) [
    | inl e ↦ rw e (IsFormed-suc n p f)
    | inr e ↦ elim (Bool-cases (is_ok (add_graph_node m.id p.graph).0)) [
      | inl k ↦
          rw (e, k)
            (record {
              nodes = λ x.
                  let e' = rw k at (nodes-add_node m.id p.graph) in
                  omega (
                    arith,
                    ap (count x) e',
                    ap (count x) (map-append (λ (q : Node S). q.id) p.nodes (m ∷ [])),
                    count-append x (ids p.nodes) (m.id ∷ []),
                    count-append x p.graph.nodes (m.id ∷ []),
                    f.nodes x,
                  );
              built = add_node-IsBuilt n m.id p.graph f.built;
            })
      | inr k ↦
          rw (e, k)
            (record {
              nodes = λ x. f.nodes x ∙ ap (count x) (rw k at (nodes-add_node m.id p.graph));
              built = add_node-IsBuilt n m.id p.graph f.built;
            })
    ]
  ]
