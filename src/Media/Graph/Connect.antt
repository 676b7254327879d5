-- ===== src/Media/Graph/Connect.antt =====
-- `MediaGraph::add_node` and `MediaGraph::connect` (src/media/graph.cpp): they keep a graph valid and
-- free of cycles, and refuse an edge exactly when it would close one.
use eavp.Base.{
  ℕ, ◌+◌, ◌≤◌, ◌<◌, ◌^◌, ◌≡◌, refl, String, List, if◌then◌else◌, str_eq, eq_iff, eq_refl, arith,
  length, inl, inr, Bool-cases, true, false, ◌↔◌, ◌⊎◌, ◌&&◌, ◌≢◌,
}
use eavp.StringMap.{insert-IsUnique, find-insert, total-insert, insert as insert_entry}
use eavp.StringSet.{
  count, member, count-insert, count-erase, length-insert, length-erase-le, insert, erase,
}
use eavp.Status.{Status, ok_status, is_ok, success, failure}
use eavp.Media.Graph.{
  EdgeMap, Graph, sinks, sort_nodes, topological_order, is_success, with_edge, without_edge,
  keep_if_ordered, connect, cycle_error,
}
use eavp.Media.Graph.Edges.{edge_count}
use eavp.Media.Graph.Order.{IsValid, Ranks, topological_order_iff, topological_order-cases}

sinks-insert :
    (es : EdgeMap) (k s : String) (ts : List String)
    → sinks (insert_entry k ts es) s ≡ (if str_eq s k then ts else sinks es s)
unfolding sinks
sinks-insert es k s ts = ground (arith, find-insert k s ts es)

edge_count-insert :
    (es : EdgeMap) (k : String) (ts : List String)
    → edge_count (insert_entry k ts es) + length (sinks es k) ≡ length ts + edge_count es
unfolding sinks
edge_count-insert es k ts = ground (arith, total-insert length k ts es)

count-with_edge :
    (a b s x : String) (g : Graph)
    → member b (sinks g.edges a) ≡ false
    → count x (sinks (with_edge a b g).edges s)
      ≡ (if str_eq s a && str_eq x b then 1 else count x (sinks g.edges s))
unfolding with_edge
count-with_edge a b s x g h = ground (
  arith,
  eq_iff s a,
  sinks-insert g.edges a s (insert b (sinks g.edges a)),
  count-insert x b (sinks g.edges a),
)

count-without_edge :
    (a b s x : String) (g : Graph)
    → count x (sinks (without_edge a b g).edges s)
      ≡ (if str_eq s a && str_eq x b then 0 else count x (sinks g.edges s))
unfolding without_edge
count-without_edge a b s x g = ground (
  arith,
  eq_iff s a,
  sinks-insert g.edges a s (erase b (sinks g.edges a)),
  count-erase x b (sinks g.edges a),
)

pub with_edge-IsValid :
    (a b : String) (g : Graph)
    → member b (sinks g.edges a) ≡ false
    → member a g.node_set ≡ true
    → member b g.node_set ≡ true
    → IsValid g
    → IsValid (with_edge a b g)
unfolding with_edge
with_edge-IsValid a b g h ha hb v = record {
  once = v.once;
  same = v.same;
  unique = insert-IsUnique a _ g.edges v.unique;
  sources = λ s x e. ground (
    arith,
    count-with_edge a b s x g h,
    eq_iff s a,
    eq_iff x b,
    v.sources s x,
    v.same a,
    v.once a,
  );
  targets = λ s x e. ground (
    arith,
    count-with_edge a b s x g h,
    eq_iff s a,
    eq_iff x b,
    v.targets s x,
    v.same b,
    v.once b,
  );
}

pub without_edge-IsValid : (a b : String) (g : Graph) → IsValid g → IsValid (without_edge a b g)
unfolding without_edge
without_edge-IsValid a b g v = record {
  once = v.once;
  same = v.same;
  unique = insert-IsUnique a _ g.edges v.unique;
  sources = λ s x e. ground (arith, count-without_edge a b s x g, v.sources s x);
  targets = λ s x e. ground (arith, count-without_edge a b s x g, v.targets s x);
}

-- A case rule: `connect` changes nothing, or inserts an absent edge and then decides.
pub connect_cases {ℓ} :
    (P : Status × Graph → Type ℓ) (a b : String) (g : Graph)
    → ((st : Status) → is_ok st ≡ false → P (st, g))
    → (member b (sinks g.edges a) ≡ false
        → member a g.node_set ≡ true
        → member b g.node_set ≡ true
        → P (keep_if_ordered a b (with_edge a b g)))
    → P (connect a b g)
unfolding connect
connect_cases P a b g same inserted = elim (Bool-cases (member a g.node_set)) [
  | inr ea ↦ rw ea (same _ refl)
  | inl ea ↦ elim (Bool-cases (member b g.node_set)) [
    | inr eb ↦ rw (ea, eb) (same _ refl)
    | inl eb ↦ elim (Bool-cases (str_eq a b)) [
      | inl e ↦ rw (ea, eb, e) (same _ refl)
      | inr e ↦ elim (Bool-cases (member b (sinks g.edges a))) [
        | inl f ↦ rw (ea, eb, e, f) (same _ refl)
        | inr f ↦ rw (ea, eb, e, f) (inserted f ea eb)
      ]
    ]
  ]
]

-- And what it decides.
pub keep_cases {ℓ} :
    (P : Status × Graph → Type ℓ) (a b : String) (g : Graph)
    → (topological_order g ≡ success (sort_nodes g).0 → P (ok_status, g))
    → ((st : Status)
        → is_ok st ≡ false
        → topological_order g ≡ failure cycle_error
        → P (st, without_edge a b g))
    → P (keep_if_ordered a b g)
unfolding keep_if_ordered is_success
keep_cases P a b g kept undone = elim (topological_order-cases g) [
  | inl e ↦ rw e (kept e)
  | inr e ↦ rw e (undone _ refl e)
]

-- Nodes and edges are the same.
pub record SameGraph (g h : Graph) : Type 0 where
  pub nodes : g.nodes ≡ h.nodes
  pub node_set : g.node_set ≡ h.node_set
  pub edges : (s x : String) → count x (sinks g.edges s) ≡ count x (sinks h.edges s)

undone-count :
    (a b s x : String) (g : Graph)
    → member b (sinks g.edges a) ≡ false
    → count x (sinks (without_edge a b (with_edge a b g)).edges s) ≡ count x (sinks g.edges s)
undone-count a b s x g h = ground (
  arith,
  eq_iff s a,
  eq_iff x b,
  count-without_edge a b s x (with_edge a b g),
  count-with_edge a b s x g h,
)

pub undone-SameGraph :
    (a b : String) (g : Graph)
    → member b (sinks g.edges a) ≡ false
    → SameGraph (without_edge a b (with_edge a b g)) g
unfolding without_edge with_edge
undone-SameGraph a b g h = record {
  nodes = refl;
  node_set = refl;
  edges = λ s x. undone-count a b s x g h;
}

-- A call of `connect` that is refused leaves the nodes of the graph and the sinks of each source, as
-- sets, as they were.
pub connect_refused :
    (a b : String) (g : Graph) → is_ok (connect a b g).0 ≡ false → SameGraph (connect a b g).1 g
connect_refused a b g =
    connect_cases (λ r. is_ok r.0 ≡ false → SameGraph r.1 g) a b g
      (λ st e _. record { nodes = refl; node_set = refl; edges = λ s x. refl })
      λ f _ _.
        keep_cases (λ r. is_ok r.0 ≡ false → SameGraph r.1 g) a b (with_edge a b g) (λ _ e. cc)
          (λ st _ _ _. undone-SameGraph a b g f)

-- The ranks of a graph with a new edge are those of the graph that the edge respects.
Ranks-with_edge :
    (a b : String) (g : Graph) (rank : String → ℕ)
    → member b (sinks g.edges a) ≡ false
    → Ranks (with_edge a b g).edges rank ↔ (Ranks g.edges rank × (rank a < rank b))
Ranks-with_edge a b g rank h = (
  (λ r. (
    (λ s x e. r s x (ground (arith, count-with_edge a b s x g h))),
    r a b (ground (arith, eq_refl a, eq_refl b, count-with_edge a b a b g h)),
  )),
  λ r s x e. ground (arith, eq_iff s a, eq_iff x b, r.0 s x, count-with_edge a b s x g h),
)

pub edge_count-with_edge :
    (a b : String) (g : Graph) → edge_count (with_edge a b g).edges ≤ edge_count g.edges + 1
unfolding with_edge
edge_count-with_edge a b g = omega (
  arith,
  edge_count-insert g.edges a (insert b (sinks g.edges a)),
  length-insert b (sinks g.edges a),
)

pub edge_count-without_edge :
    (a b : String) (g : Graph) → edge_count (without_edge a b g).edges ≤ edge_count g.edges
unfolding without_edge
edge_count-without_edge a b g = omega (
  arith,
  edge_count-insert g.edges a (erase b (sinks g.edges a)),
  length-erase-le b (sinks g.edges a),
)

connect-inserts :
    (a b : String) (g : Graph)
    → member a g.node_set ≡ true
    → member b g.node_set ≡ true
    → a ≢ b
    → member b (sinks g.edges a) ≡ false
    → connect a b g ≡ keep_if_ordered a b (with_edge a b g)
unfolding connect
connect-inserts a b g ha hb ne f = ground (arith, eq_iff a b)

keep_iff :
    (a b : String) (g : Graph)
    → (is_ok (keep_if_ordered a b g).0 ≡ true) ↔ (topological_order g ≡ success (sort_nodes g).0)
keep_iff a b g =
    keep_cases (λ r. (is_ok r.0 ≡ true) ↔ (topological_order g ≡ success (sort_nodes g).0)) a b g
      (λ e. ((λ _. e), λ _. refl)) (λ st e f. ((λ h. cc), λ h. cc))

-- Between two different nodes of a valid graph with fewer than 2 ^ 64 - 1 edges that no edge joins
-- yet, `connect` succeeds exactly when some rank of the nodes that every edge respects has the
-- source below the sink.
pub connect_iff :
    (a b : String) (g : Graph)
    → IsValid g
    → edge_count g.edges + 1 < 2 ^ 64
    → member a g.node_set ≡ true
    → member b g.node_set ≡ true
    → a ≢ b
    → member b (sinks g.edges a) ≡ false
    → (is_ok (connect a b g).0 ≡ true)
      ↔ ((rank : String → ℕ) × Ranks g.edges rank × (rank a < rank b))
connect_iff a b g v few ha hb ne f = rw (connect-inserts a b g ha hb ne f) (
  (λ h. there (order.0.0 ((keep_iff a b h').0 h))),
  λ r. (keep_iff a b h').1 (order.0.1 (r.0, (Ranks-with_edge a b g r.0 f).1 (r.1, r.2))),
)
  where
    h' : Graph
    h' = with_edge a b g

    order :
        ((topological_order h' ≡ success (sort_nodes h').0)
          ↔ ((rank : String → ℕ) × Ranks h'.edges rank))
        × ((topological_order h' ≡ success (sort_nodes h').0)
            ⊎ (topological_order h' ≡ failure cycle_error))
    order =
        topological_order_iff h' (with_edge-IsValid a b g f ha hb v)
          (omega (arith, edge_count-with_edge a b g))

    there :
        ((rank : String → ℕ) × Ranks h'.edges rank)
        → (rank : String → ℕ) × Ranks g.edges rank × (rank a < rank b)
    there (rank, r) = let q = (Ranks-with_edge a b g rank f).0 r in (rank, q.0, q.1)
