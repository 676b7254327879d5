-- ===== src/Media/Graph/Order.antt =====
-- `MediaGraph::topological_order` (src/media/graph.cpp) against the orders of a graph: its loop
-- ends, what it returns is an order, and it fails only where there is none.
use eavp.Base.{
  ℕ, zero, suc, ◌≤◌, ◌<◌, ◌^◌, ◌≡◌, refl, String, List, [], ◌∷◌, ◌++◌, if◌then◌else◌, ◌==◌, str_eq,
  eq_iff, arith, length, ◌↔◌, ◌⊎◌,
}
use eavp.StringMap.{IsUnique}
use eavp.StringSet.{count, count-eq_of_length, length-eq_of_count}
use eavp.Status.{success, failure}
use eavp.Media.Graph.{EdgeMap, Graph, Indegree, sinks, sort_nodes, topological_order, cycle_error}
use eavp.Media.Graph.Edges.{pending, edge_count, pending-pos, pending-eq-zero, Placed, count_last}
use eavp.Media.Graph.Kahn.{Inv, initial-Inv, kahn-Inv}

-- There is an edge.
abbrev pub HasEdge : EdgeMap → String → String → Type 0
HasEdge es s x = 0 < count x (sinks es s)

-- A graph as the program builds it: no node twice, `node_set_` with the nodes of `nodes_`, one entry
-- for each source, and edges between nodes only.
pub record IsValid (g : Graph) : Type 0 where
  pub once : (x : String) → count x g.nodes ≤ 1
  pub same : (x : String) → count x g.node_set ≡ count x g.nodes
  pub unique : IsUnique g.edges
  pub sources : (s x : String) → HasEdge g.edges s x → count s g.nodes ≡ 1
  pub targets : (s x : String) → HasEdge g.edges s x → count x g.nodes ≡ 1

-- The graph can be ordered: each edge leads to a greater rank.
abbrev pub Ranks : EdgeMap → (String → ℕ) → Type 0
Ranks es rank = (s x : String) → HasEdge es s x → rank s < rank x

-- The first place of a text in a list.
abbrev pub position : String → List String → ℕ
position x [] = 0
position x (y ∷ ys) = (if str_eq x y then 0 else suc (position x ys))

module _ (g : Graph) (v : IsValid g) (few : edge_count g.edges < 2 ^ 64) where
  sort_nodes-Inv :
      ((sort_nodes g).1 ≡ []) × ((d : Indegree) × Inv g.edges g.nodes (sort_nodes g).0 [] [] d)
  unfolding sort_nodes
  sort_nodes-Inv =
      kahn-Inv g.edges g.nodes v.unique v.once v.targets (length g.nodes) _ _ [] (omega arith)
        (initial-Inv g.edges g.nodes few)

  -- On a valid graph with fewer than 2 ^ 64 edges the loop of `topological_order` ends by its own
  -- test, with nothing left in `ready`: as many rounds as there are nodes are enough.
  pub loop_ends : (sort_nodes g).1 ≡ []
  loop_ends = sort_nodes-Inv.0

  order-count :
      (x : String)
      → count x (sort_nodes g).0
        ≡ (if pending (sort_nodes g).0 g.edges x == 0 then count x g.nodes else 0)
  order-count x = let i = sort_nodes-Inv.1.1 in ground (arith, i.indegrees x, i.visited x)

  order-count-le : (x : String) → count x (sort_nodes g).0 ≤ count x g.nodes
  order-count-le x = ground (arith, order-count x)

pub topological_order-cases :
    (g : Graph)
    → (topological_order g ≡ success (sort_nodes g).0) ⊎ (topological_order g ≡ failure cycle_error)
unfolding topological_order
topological_order-cases g = ground arith

Placed-position :
    (es : EdgeMap) (before xs : List String) (s x : String)
    → IsUnique es
    → Placed es before xs
    → HasEdge es s x
    → count s before ≡ 0
    → 0 < count x xs
    → position s xs < position x xs
Placed-position es before [] s x u p e z h = absurd (omega arith)
Placed-position es before (y ∷ ys) s x u p e z h = ground (
  arith,
  eq_iff x y,
  eq_iff s y,
  count_last s y before,
  pending-pos before es s x u e z,
  Placed-position es (before ++ (y ∷ [])) ys s x u p.1 e,
)

module _ (g : Graph) (v : IsValid g) (few : edge_count g.edges < 2 ^ 64) where
  success-order :
      (order : List String)
      → topological_order g ≡ success order
      → (order ≡ (sort_nodes g).0) × (length order ≡ length g.nodes)
  unfolding topological_order
  success-order order h = (ground arith, ground arith)

  -- On a valid graph with fewer than 2 ^ 64 edges a successful `topological_order` returns each
  -- node as often as the graph holds it, and the source of every edge before its sink.
  pub topological_order_sound :
      (order : List String)
      → topological_order g ≡ success order
      → ((x : String) → count x order ≡ count x g.nodes) × Ranks g.edges (λ x. position x order)
  topological_order_sound order h = (all, λ s x e. before s x e)
    where
      all : (x : String) → count x order ≡ count x g.nodes
      all =
          count-eq_of_length order g.nodes
            (λ x. rw (success-order order h).0 (order-count-le g v few x)) (success-order order h).1

      before : (s x : String) → HasEdge g.edges s x → position s order < position x order
      before s x e =
          Placed-position g.edges [] order s x v.unique
            (rw (success-order order h).0 (sort_nodes-Inv g v few).1.1.placed) e refl
            (omega (arith, all x, v.targets s x e))

  cleared :
      (rank : String → ℕ)
      → Ranks g.edges rank
      → (n : ℕ) (x : String) → rank x < n
      → pending (sort_nodes g).0 g.edges x ≡ 0
  cleared rank r zero x h = absurd (omega arith)
  cleared rank r (suc n) x h =
      pending-eq-zero (sort_nodes g).0 g.edges x v.unique
        λ s e. ground (arith, order-count g v few s, v.sources s x e, cleared rank r n s, r s x e)

  topological_order-Ranks :
      (rank : String → ℕ) → Ranks g.edges rank → topological_order g ≡ success (sort_nodes g).0
  unfolding topological_order
  topological_order-Ranks rank r = ground (
    arith,
    length-eq_of_count (sort_nodes g).0 g.nodes
        λ x. ground (arith, order-count g v few x, cleared rank r (suc (rank x)) x (omega arith)),
  )

  -- On a valid graph with fewer than 2 ^ 64 edges `topological_order` succeeds exactly when the
  -- nodes can be ranked so that every edge leads to a greater rank; otherwise it reports a cycle.
  pub topological_order_iff :
      ((topological_order g ≡ success (sort_nodes g).0)
        ↔ ((rank : String → ℕ) × Ranks g.edges rank))
      × ((topological_order g ≡ success (sort_nodes g).0)
          ⊎ (topological_order g ≡ failure cycle_error))
  topological_order_iff = (
    (
      (λ h. ((λ x. position x (sort_nodes g).0), (topological_order_sound _ h).1)),
      λ r. topological_order-Ranks r.0 r.1,
    ),
    either,
  )
    where
      either :
          (topological_order g ≡ success (sort_nodes g).0)
          ⊎ (topological_order g ≡ failure cycle_error)
      either = topological_order-cases g
