-- ===== src/Media/Graph/Reach.antt =====
-- Every graph that calls of `MediaGraph::add_node` and `MediaGraph::connect` (src/media/graph.cpp)
-- build can be ordered.
use eavp.Base.{
  ℕ, suc, ◌+◌, ◌≤◌, ◌<◌, ◌^◌, ◌≡◌, refl, String, List, [], ◌∷◌, ◌++◌, if◌then◌else◌, str_eq, eq_iff,
  arith, length, inl, inr, Bool-cases,
}
use native.Mathlib.Nat.{add-zero, zero-add}
use eavp.StringMap.{total, find}
use eavp.StringSet.{count, member, count-insert}
use eavp.Status.{Status, is_ok, success}
use eavp.Media.Graph.{
  Graph, sinks, sort_nodes, topological_order, with_edge, without_edge, connect, add_node,
  empty_graph,
}
use eavp.Media.Graph.Edges.{edge_count, count_last}
use eavp.Media.Graph.Connect.{
  with_edge-IsValid, without_edge-IsValid, connect_cases, keep_cases, undone-SameGraph,
  edge_count-with_edge, edge_count-without_edge, SameGraph,
}
use eavp.Media.Graph.Order.{
  topological_order_sound, position, IsValid, Ranks, topological_order_iff,
}

-- A graph as any sequence of calls leaves it: valid, without cycles, and with at most `n` edges.
pub record IsBuilt (n : ℕ) (g : Graph) : Type 0 where
  pub valid : IsValid g
  pub acyclic : (rank : String → ℕ) × Ranks g.edges rank
  pub few : edge_count g.edges ≤ n

IsBuilt-SameGraph :
    (n : ℕ) (g h : Graph)
    → IsValid h
    → edge_count h.edges ≤ suc n
    → SameGraph h g
    → IsBuilt n g
    → IsBuilt (suc n) h
IsBuilt-SameGraph n g h v few same b = record {
  valid = v;
  acyclic = (b.acyclic.0, λ s x e. b.acyclic.1 s x (omega (arith, same.edges s x)));
  few = few;
}

pub connect-IsBuilt :
    (n : ℕ) (a b : String) (g : Graph)
    → suc n < 2 ^ 64
    → IsBuilt n g
    → IsBuilt (suc n) (connect a b g).1
connect-IsBuilt n a b g h i =
    connect_cases (λ r. IsBuilt (suc n) r.1) a b g
      (λ st e. record { valid = i.valid; acyclic = i.acyclic; few = omega (arith, i.few) })
      λ f ha hb.
        let v = with_edge-IsValid a b g f ha hb i.valid in
        keep_cases (λ r. IsBuilt (suc n) r.1) a b (with_edge a b g)
          (λ e. record {
            valid = v;
            acyclic =
                (topological_order_iff (with_edge a b g) v
                    (omega (arith, i.few, edge_count-with_edge a b g))).0.0
                  e;
            few = omega (arith, i.few, edge_count-with_edge a b g);
          })
          λ st _ e.
            IsBuilt-SameGraph n g (without_edge a b (with_edge a b g))
              (without_edge-IsValid a b (with_edge a b g) v)
              (omega (
                arith,
                i.few,
                edge_count-with_edge a b g,
                edge_count-without_edge a b (with_edge a b g),
              ))
              (undone-SameGraph a b g f) i

pub add_node-IsBuilt :
    (n : ℕ) (id : String) (g : Graph) → IsBuilt n g → IsBuilt (suc n) (add_node id g).1
unfolding add_node
add_node-IsBuilt n id g i = elim (Bool-cases (str_eq id "")) [
  | inl e ↦ rw e (later i)
  | inr e ↦ elim (Bool-cases (member id g.node_set)) [
    | inl f ↦ rw (e, f) (later i)
    | inr f ↦
        rw (e, f)
          (record {
            valid = record {
              once = λ x.
                  ground
                    (arith, eq_iff x id, i.valid.once x, i.valid.same id, count_last x id g.nodes);
              same = λ x. ground (
                arith,
                eq_iff x id,
                i.valid.same x,
                i.valid.same id,
                count_last x id g.nodes,
                count-insert x id g.node_set,
              );
              unique = i.valid.unique;
              sources = λ s x e. ground (
                arith,
                eq_iff s id,
                i.valid.sources s x e,
                i.valid.same id,
                count_last s id g.nodes,
              );
              targets = λ s x e. ground (
                arith,
                eq_iff x id,
                i.valid.targets s x e,
                i.valid.same id,
                count_last x id g.nodes,
              );
            };
            acyclic = i.acyclic;
            few = omega (arith, i.few);
          })
  ]
]
  where
    later : IsBuilt n g → IsBuilt (suc n) g
    later j = record { valid = j.valid; acyclic = j.acyclic; few = omega (arith, j.few) }

pub empty_graph-nodes : empty_graph.nodes ≡ []
unfolding empty_graph
empty_graph-nodes = refl

-- `add_node` appends the node where it succeeds, and changes nothing where it does not.
pub nodes-add_node :
    (id : String) (g : Graph)
    → (if is_ok (add_node id g).0 then g.nodes ++ (id ∷ []) else g.nodes) ≡ (add_node id g).1.nodes
unfolding add_node
nodes-add_node id g = ground arith

-- `connect` changes no node.
pub nodes-connect : (a b : String) (g : Graph) → (connect a b g).1.nodes ≡ g.nodes
unfolding with_edge without_edge
nodes-connect a b g =
    connect_cases (λ r. r.1.nodes ≡ g.nodes) a b g (λ st e. refl)
      λ f ha hb.
        keep_cases (λ r. r.1.nodes ≡ g.nodes) a b (with_edge a b g) (λ e. refl) (λ st e q. refl)

-- A call of a client.
pub data Call : Type 0 where
  adds : String → Call
  connects : String → String → Call

unfoldable pub call : Call → Graph → Status × Graph
call (adds id) g = add_node id g
call (connects a b) g = connect a b g

unfoldable pub build : List Call → Graph → Graph
build [] g = g
build (c ∷ cs) g = build cs (call c g).1

call-IsBuilt :
    (n : ℕ) (c : Call) (g : Graph) → suc n < 2 ^ 64 → IsBuilt n g → IsBuilt (suc n) (call c g).1
unfolding call
call-IsBuilt n (adds id) g h i = add_node-IsBuilt n id g i
call-IsBuilt n (connects a b) g h i = connect-IsBuilt n a b g h i

pub build-IsBuilt :
    (cs : List Call) (n : ℕ) (g : Graph)
    → n + length cs < 2 ^ 64
    → IsBuilt n g
    → IsBuilt (n + length cs) (build cs g)
unfolding build
build-IsBuilt [] n g h i = rw add-zero i
build-IsBuilt (c ∷ cs) n g h i =
    let e : suc n + length cs ≡ n + suc (length cs) = omega arith in
    rw (← e)
      (build-IsBuilt cs (suc n) (call c g).1 (omega arith) (call-IsBuilt n c g (omega arith) i))

pub empty-IsBuilt : IsBuilt 0 empty_graph
unfolding empty_graph sinks find total
empty-IsBuilt = record {
  valid = record {
    once = λ x. omega arith;
    same = λ x. refl;
    unique = tt;
    sources = λ s x e. absurd (omega arith);
    targets = λ s x e. absurd (omega arith);
  };
  acyclic = ((λ x. 0), λ s x e. absurd (omega arith));
  few = omega arith;
}

-- Whatever fewer than 2 ^ 64 calls of `add_node` and `connect` a client makes, in whatever order
-- and refused ones included, the graph that they build from the empty one can be ordered:
-- `topological_order` returns each of its nodes once, the source of each edge before its sink.
pub build_orders :
    (cs : List Call)
    → length cs < 2 ^ 64
    → let g = build cs empty_graph in
      (order : List String) × (topological_order g ≡ success order)
      × ((x : String) → count x order ≡ count x g.nodes)
      × ((x : String) → count x order ≤ 1)
      × Ranks g.edges (λ x. position x order)
build_orders cs h =
    (order, found, sound.0, (λ x. omega (arith, sound.0 x, built.valid.once x)), sound.1)
  where
    g : Graph
    g = build cs empty_graph

    built : IsBuilt (length cs) g
    built = rw (← zero-add (length cs)) (build-IsBuilt cs 0 empty_graph (omega arith) empty-IsBuilt)

    order : List String
    order = (sort_nodes g).0

    found : topological_order g ≡ success order
    found = (topological_order_iff g built.valid (omega (arith, built.few))).0.1 built.acyclic

    sound : ((x : String) → count x order ≡ count x g.nodes) × Ranks g.edges (λ x. position x order)
    sound = topological_order_sound g built.valid (omega (arith, built.few)) order found
