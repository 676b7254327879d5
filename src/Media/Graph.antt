-- ===== src/Media/Graph.antt =====
-- include/eavp/media/graph.hpp and src/media/graph.cpp: the directed graph of a pipeline's nodes,
-- ordered by Kahn's algorithm.
pub mod Edges
pub mod Kahn
pub mod Order
pub mod Connect
pub mod Reach
mod Tests
use eavp.Base.{
  ℕ, zero, suc, ◌+◌, ◌-◌, ◌%◌, ◌^◌, Bool, String, List, [], ◌∷◌, ◌++◌, Option, none, some,
  if◌then◌else◌, ◌==◌, str_eq, length, ◌&&◌,
}
use eavp.StringMap.{find, insert as insert_entry}
use eavp.StringSet.{member, insert, erase}
use eavp.Status.{
  Status, ok_status, status, Result, success, failure, invalid_argument, not_found, already_exists,
}

-- `std::map<std::string, std::set<std::string>>`: the sinks of each source.
abbrev pub EdgeMap : Type 0
EdgeMap = List (String × List String)

-- `class MediaGraph`.
pub record Graph : Type 0 where
  pub nodes : List String
  pub node_set : List String
  pub edges : EdgeMap

-- `std::map<std::string, std::size_t>`, where a key that was not written reads as 0.
abbrev pub Indegree : Type 0
Indegree = String → ℕ

pub update : Indegree → String → ℕ → Indegree
update d k n x = if str_eq x k then n else d x

-- `++n` and `--n` on `std::size_t`.
abbrev pub increment : ℕ → ℕ
increment n = (n + 1) % 2 ^ 64

abbrev pub decrement : ℕ → ℕ
decrement n = (n + 2 ^ 64 - 1) % 2 ^ 64

-- The three loops that fill `indegree`: over the nodes, over the sources, over the sinks of one.
pub zero_nodes : List String → Indegree → Indegree
zero_nodes [] d = d
zero_nodes (n ∷ ns) d = zero_nodes ns (update d n 0)

pub count_sinks : List String → Indegree → Indegree
count_sinks [] d = d
count_sinks (t ∷ ts) d = count_sinks ts (update d t (increment (d t)))

pub count_edges : EdgeMap → Indegree → Indegree
count_edges [] d = d
count_edges ((s, ts) ∷ es) d = count_edges es (count_sinks ts d)

pub initial_indegree : Graph → Indegree
unfolding zero_nodes count_sinks count_edges update
initial_indegree g = count_edges g.edges (zero_nodes g.nodes (λ x. 0))

-- The loop that fills `ready`.
pub initial_ready : List String → Indegree → List String
initial_ready [] d = []
initial_ready (n ∷ ns) d = let rest = initial_ready ns d in if d n == 0 then n ∷ rest else rest

-- The loop over the outgoing edges of `current`.
pub relax : List String → Indegree → List String → Indegree × List String
relax [] d ready = (d, ready)
relax (t ∷ ts) d ready =
    let d' = update d t (decrement (d t)) in
    relax ts d' (if d' t == 0 then ready ++ (t ∷ []) else ready)

pub visit : EdgeMap → String → Indegree → List String → Indegree × List String
unfolding relax update
visit es current d ready = elim (find current es) [ none ↦ (d, ready) | some ts ↦ relax ts d ready ]

-- `while (!ready.empty())`, for at most as many rounds as there is fuel: `order` and what is left in
-- `ready` (`Order.loop_ends`: nothing, with the fuel of `topological_order`).
pub kahn : ℕ → EdgeMap → Indegree → List String → List String → List String × List String
kahn zero es d ready order = (order, ready)
kahn (suc f) es d [] order = (order, [])
kahn (suc f) es d (current ∷ rest) order =
    let next = visit es current d rest in kahn f es next.0 next.1 (order ++ (current ∷ []))

-- The loop of `topological_order`; each round moves a node into `order`.
pub sort_nodes : Graph → List String × List String
unfolding initial_indegree initial_ready kahn visit
sort_nodes g =
    let d = initial_indegree g in kahn (length g.nodes) g.edges d (initial_ready g.nodes d) []

abbrev pub cycle_error : Status
cycle_error = status invalid_argument "graph contains a cycle"

-- `MediaGraph::topological_order`.
unfoldable pub topological_order : Graph → Result (List String)
unfolding sort_nodes
topological_order g =
    let order = (sort_nodes g).0 in
    if length order == length g.nodes then success order else failure cycle_error

unfoldable pub empty_graph : Graph
empty_graph = record { nodes = []; node_set = []; edges = [] }

-- `MediaGraph::add_node`.
unfoldable pub add_node : String → Graph → Status × Graph
add_node id g =
    if str_eq id ""
    then (status invalid_argument "node id must not be empty", g)
    else if member id g.node_set
    then (status already_exists "node already exists", g)
    else (ok_status, record g { nodes = g.nodes ++ (id ∷ []); node_set = insert id g.node_set })

-- `edges_[source]`, whose sinks are none where there is no entry.
pub sinks : EdgeMap → String → List String
sinks es source = elim (find source es) [ none ↦ [] | some ts ↦ ts ]

pub is_success {ℓ} : {A : Type ℓ} → Result A → Bool
is_success (success a) = Bool.true
is_success (failure s) = Bool.false

-- `edges_[source]` after an insertion or an erasure.
pub with_edge : String → String → Graph → Graph
with_edge source sink g = record g {
  edges = insert_entry source (insert sink (sinks g.edges source)) g.edges;
}

pub without_edge : String → String → Graph → Graph
without_edge source sink g = record g {
  edges = insert_entry source (erase sink (sinks g.edges source)) g.edges;
}

-- The insertion stays only if the graph can still be ordered.
pub keep_if_ordered : String → String → Graph → Status × Graph
unfolding without_edge is_success
keep_if_ordered source sink g =
    if is_success (topological_order g)
    then (ok_status, g)
    else (status invalid_argument "edge would create a cycle", without_edge source sink g)

-- `MediaGraph::connect`.
unfoldable pub connect : String → String → Graph → Status × Graph
unfolding keep_if_ordered with_edge sinks
connect source sink g =
    if member source g.node_set && member sink g.node_set
    then if str_eq source sink
      then (status invalid_argument "self edge is not allowed", g)
      else if member sink (sinks g.edges source)
      then (status already_exists "edge already exists", g)
      else keep_if_ordered source sink (with_edge source sink g)
    else (status not_found "graph endpoint does not exist", g)
