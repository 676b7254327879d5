-- ===== src/Media/Graph/Kahn.antt =====
-- The invariant of the loops of `MediaGraph::topological_order` (src/media/graph.cpp), and what
-- holds when they end.
use eavp.Base.{
  ℕ, zero, suc, ◌+◌, ◌≤◌, ◌<◌, ◌^◌, ◌≡◌, refl, String, List, [], ◌∷◌, ◌++◌, if◌then◌else◌, ◌==◌,
  eq_iff, eq_refl, arith, length, length-append, Option-cases, inl, inr,
}
use mathlib.Core.List.{append-nil, append_assoc}
use eavp.StringMap.{find, IsUnique}
use eavp.StringSet.{count, count-append, length-le_of_count}
use eavp.Media.Graph.{
  EdgeMap, Indegree, sinks, update, increment, decrement, zero_nodes, count_sinks, count_edges,
  initial_ready, relax, visit, kahn,
}
use eavp.Media.Graph.Edges.{
  pending, edge_count, pending-le-edge_count, count_last, pending-absent, pending-present, Placed,
}

-- The nodes of `done` are in the order, those of `ready` wait, and of the source that is being
-- visited the sinks in `rest` are still to be relaxed.
pub record Inv (es : EdgeMap) (ns done ready rest : List String) (d : Indegree) : Type 0 where
  pub indegrees : (x : String) → d x ≡ count x rest + pending done es x
  pub small : (x : String) → d x < 2 ^ 64
  pub visited : (x : String) → count x done + count x ready ≡ (if d x == 0 then count x ns else 0)
  pub placed : Placed es [] done

Placed-append :
    (es : EdgeMap) (before xs : List String) (c : String)
    → Placed es before xs
    → pending (before ++ xs) es c ≡ 0
    → Placed es before (xs ++ (c ∷ []))
Placed-append es before [] c p h = (simp append-nil at h, tt)
Placed-append es before (x ∷ xs) c p h =
    (p.0, Placed-append es (before ++ (x ∷ [])) xs c p.1 (rw append_assoc h))

count_sinks-count :
    (ts : List String) (d : Indegree) (x : String)
    → d x + count x ts < 2 ^ 64
    → count_sinks ts d x ≡ d x + count x ts
unfolding count_sinks update
count_sinks-count [] d x h = omega arith
count_sinks-count (t ∷ ts) d x h =
    ground (arith, eq_iff x t, count_sinks-count ts (update d t (increment (d t))) x)

count_edges-pending :
    (es : EdgeMap) (d : Indegree) (x : String)
    → d x + pending [] es x < 2 ^ 64
    → count_edges es d x ≡ d x + pending [] es x
unfolding count_edges pending
count_edges-pending [] d x h = omega arith
count_edges-pending ((s, ts) ∷ es) d x h =
    ground (arith, count_sinks-count ts d x, count_edges-pending es (count_sinks ts d) x)

zero_nodes-zero : (ns : List String) (d : Indegree) (x : String) → d x ≡ 0 → zero_nodes ns d x ≡ 0
unfolding zero_nodes update
zero_nodes-zero [] d x h = h
zero_nodes-zero (n ∷ ns) d x h = ground (arith, zero_nodes-zero ns (update d n 0) x)

initial_ready-count :
    (ns : List String) (d : Indegree) (x : String)
    → count x (initial_ready ns d) ≡ (if d x == 0 then count x ns else 0)
unfolding initial_ready
initial_ready-count [] d x = ground arith
initial_ready-count (n ∷ ns) d x = ground (arith, eq_iff x n, initial_ready-count ns d x)

pub initial-Inv :
    (es : EdgeMap) (ns : List String)
    → edge_count es < 2 ^ 64
    → let d = count_edges es (zero_nodes ns (λ x. 0)) in Inv es ns [] (initial_ready ns d) [] d
initial-Inv es ns h = record {
  indegrees = λ x. omega (arith, start x);
  small = λ x. omega (arith, start x, pending-le-edge_count [] es x);
  visited = λ x. omega (arith, initial_ready-count ns _ x);
  placed = tt;
}
  where
    start : (x : String) → count_edges es (zero_nodes ns (λ x. 0)) x ≡ pending [] es x
    start x = omega (
      arith,
      count_edges-pending es (zero_nodes ns (λ x. 0)) x
          (omega (arith, pending-le-edge_count [] es x, zero_nodes-zero ns (λ x. 0) x refl)),
      zero_nodes-zero ns (λ x. 0) x refl,
    )

-- One step of the loop over the sinks keeps the invariant.
relax_step-Inv :
    (es : EdgeMap) (ns done ready ts : List String) (t : String) (d : Indegree)
    → count t ns ≡ 1
    → Inv es ns done ready (t ∷ ts) d
    → let d' = update d t (decrement (d t)) in
      Inv es ns done (if d' t == 0 then ready ++ (t ∷ []) else ready) ts d'
unfolding update
relax_step-Inv es ns done ready ts t d h v = record {
  indegrees = λ x. ground (arith, eq_iff x t, eq_refl t, v.indegrees t, v.indegrees x, v.small t);
  small = λ x. ground (arith, v.small x);
  visited = λ x.
      ground
        (arith, eq_iff x t, eq_refl t, v.indegrees t, v.small t, v.visited x, count_last x t ready);
  placed = v.placed;
}

pub relax-Inv :
    (es : EdgeMap) (ns done ts ready : List String) (d : Indegree)
    → ((x : String) → 0 < count x ts → count x ns ≡ 1)
    → Inv es ns done ready ts d
    → Inv es ns done (relax ts d ready).1 [] (relax ts d ready).0
unfolding relax
relax-Inv es ns done [] ready d h v = v
relax-Inv es ns done (t ∷ ts) ready d h v =
    relax-Inv es ns done ts _ _ (λ x p. h x (ground arith))
      (relax_step-Inv es ns done ready ts t d (h t (ground (arith, eq_refl t))) v)

module _ (es : EdgeMap) (ns : List String) (unique : IsUnique es)
    (once : (x : String) → count x ns ≤ 1)
    (closed : (s x : String) → 0 < count x (sinks es s) → count x ns ≡ 1) where
  -- Taking the front of `ready` and visiting it keeps the invariant.
  visit-Inv :
      (done rest : List String) (c : String) (d : Indegree)
      → Inv es ns done (c ∷ rest) [] d
      → Inv es ns (done ++ (c ∷ [])) (visit es c d rest).1 [] (visit es c d rest).0
  unfolding sinks visit
  visit-Inv done rest c d v = elim (Option-cases (find c es)) [
    | inl e ↦
        rw (e, visit)
          (record {
            indegrees = λ x. omega (arith, v.indegrees x, pending-absent done c es x e);
            small = v.small;
            visited = moved;
            placed = Placed-append es [] done c v.placed cleared;
          })
    | inr (ts, e) ↦
        rw (e, visit)
          (relax-Inv es ns (done ++ (c ∷ [])) ts rest d (λ x p. closed c x (ground arith))
            (record {
              indegrees =
                  λ x. omega (arith, v.indegrees x, pending-present done c es x ts unique e fresh);
              small = v.small;
              visited = moved;
              placed = Placed-append es [] done c v.placed cleared;
            }))
  ]
    where
      fresh : count c done ≡ 0
      fresh = ground (arith, v.visited c, once c, eq_refl c)

      cleared : pending done es c ≡ 0
      cleared = ground (arith, v.visited c, v.indegrees c, eq_refl c)

      moved :
          (x : String)
          → count x (done ++ (c ∷ [])) + count x rest ≡ (if d x == 0 then count x ns else 0)
      moved x = omega (arith, v.visited x, count_last x c done)

  -- With a round for each node that is not yet in the order, the loop ends by its own test.
  pub kahn-Inv :
      (f : ℕ) (d : Indegree) (ready done : List String)
      → length ns ≤ length done + f
      → Inv es ns done ready [] d
      → let r = kahn f es d ready done in (r.1 ≡ []) × ((e : Indegree) × Inv es ns r.0 [] [] e)
  unfolding kahn
  kahn-Inv zero d [] done h v = (refl, (d, v))
  kahn-Inv zero d (c ∷ rest) done h v = absurd (omega (arith, full v))
    where
      full : Inv es ns done (c ∷ rest) [] d → length done + suc (length rest) ≤ length ns
      full w = omega (
        arith,
        length-append done (c ∷ rest),
        length-le_of_count (done ++ (c ∷ rest)) ns
            (λ x. ground (arith, w.visited x, count-append x done (c ∷ rest))),
      )
  kahn-Inv (suc f) d [] done h v = (refl, (d, v))
  kahn-Inv (suc f) d (c ∷ rest) done h v =
      kahn-Inv f _ _ (done ++ (c ∷ [])) (omega (arith, length-append done (c ∷ [])))
        (visit-Inv done rest c d v)
