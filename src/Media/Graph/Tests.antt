-- ===== src/Media/Graph/Tests.antt =====
-- Runs of the graph of src/media/graph.cpp on a small example.
use eavp.Base.{ℕ, ◌≤◌, ◌<◌, ◌≡◌, ◌≢◌, ◌↔◌, ◌⊎◌, refl, String, List, [], ◌∷◌, true, arith, eq_iff}
use eavp.StringSet.{count, insert}
use eavp.StringMap.{find, insert as insert_entry}
use eavp.Status.{is_ok, success, failure}
use eavp.Media.Graph.{
  Graph, sinks, topological_order, sort_nodes, cycle_error, empty_graph, add_node, connect,
}
use eavp.Media.Graph.Order.{Ranks, position, loop_ends, topological_order_iff}
use eavp.Media.Graph.Connect.{connect_iff}
use eavp.Media.Graph.Reach.{
  IsBuilt, Call, adds, connects, build, call, build_orders, build-IsBuilt, empty-IsBuilt,
}

abbrev diamond : List Call
diamond =
    adds "a" ∷ adds "b" ∷ adds "c" ∷ connects "a" "b" ∷ connects "b" "c" ∷ connects "c" "a" ∷ []

build_orders_example :
    (order : List String) × (topological_order (build diamond empty_graph) ≡ success order)
    × ((x : String) → count x order ≡ count x (build diamond empty_graph).nodes)
    × ((x : String) → count x order ≤ 1)
    × Ranks (build diamond empty_graph).edges (λ x. position x order)
build_orders_example = build_orders diamond (omega arith)

abbrev chain : Graph
chain = build (adds "a" ∷ adds "b" ∷ adds "c" ∷ connects "b" "a" ∷ []) empty_graph

chain-IsBuilt : IsBuilt 4 chain
chain-IsBuilt =
    build-IsBuilt (adds "a" ∷ adds "b" ∷ adds "c" ∷ connects "b" "a" ∷ []) 0 empty_graph
      (omega arith) empty-IsBuilt

loop_ends_example : (sort_nodes chain).1 ≡ []
loop_ends_example = loop_ends chain chain-IsBuilt.valid (omega (arith, chain-IsBuilt.few))

topological_order_iff_example :
    ((topological_order chain ≡ success (sort_nodes chain).0)
      ↔ ((rank : String → ℕ) × Ranks chain.edges rank))
    × ((topological_order chain ≡ success (sort_nodes chain).0)
        ⊎ (topological_order chain ≡ failure cycle_error))
topological_order_iff_example =
    topological_order_iff chain chain-IsBuilt.valid (omega (arith, chain-IsBuilt.few))

differ : ◌≢◌ {A = String} "c" "b"
differ e = ground (arith, (eq_iff "c" "b").1 e)

connect_iff_example :
    (is_ok (connect "c" "b" chain).0 ≡ true)
    ↔ ((rank : String → ℕ) × Ranks chain.edges rank × (rank "c" < rank "b"))
unfolding topological_order build call add_node connect empty_graph sinks insert find insert_entry
connect_iff_example =
    connect_iff "c" "b" chain chain-IsBuilt.valid (omega (arith, chain-IsBuilt.few)) refl refl
      differ refl
