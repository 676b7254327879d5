-- ===== src/Media/Graph/Edges.antt =====
-- The edges into a node that are still to be followed, on which the proof of Kahn's algorithm in
-- src/media/graph.cpp rests.
use eavp.Base.{
  ℕ, ◌+◌, ◌≤◌, ◌<◌, ◌≡◌, refl, String, List, [], ◌∷◌, ◌++◌, none, some, if◌then◌else◌, ◌==◌, str_eq,
  eq_iff, eq_refl, arith, length, Option-cases, inl, inr,
}
use eavp.StringMap.{total, find, IsUnique}
use eavp.StringSet.{count, count-append, count-le-length}
use eavp.Media.Graph.{EdgeMap, sinks}

-- How many edges enter `x` from sources that are not in `done`.
unfoldable pub pending : List String → EdgeMap → String → ℕ
pending done [] x = 0
pending done ((s, ts) ∷ es) x = (if count s done == 0 then count x ts else 0) + pending done es x

-- How many edges there are.
abbrev pub edge_count : EdgeMap → ℕ
edge_count = total length

pub pending-le-edge_count :
    (done : List String) (es : EdgeMap) (x : String) → pending done es x ≤ edge_count es
unfolding pending total
pending-le-edge_count done [] x = omega arith
pending-le-edge_count done ((s, ts) ∷ es) x =
    ground (arith, count-le-length x ts, pending-le-edge_count done es x)

pub count_last :
    (x y : String) (ys : List String)
    → count x (ys ++ (y ∷ [])) ≡ count x ys + (if str_eq x y then 1 else 0)
count_last x y ys = omega (arith, count-append x ys (y ∷ []))

-- A source without sinks changes nothing when it is done.
pub pending-absent :
    (done : List String) (c : String) (es : EdgeMap) (x : String)
    → find c es ≡ none
    → pending (done ++ (c ∷ [])) es x ≡ pending done es x
unfolding pending find
pending-absent done c [] x h = refl
pending-absent done c ((s, ts) ∷ es) x h =
    ground (arith, eq_iff c s, eq_iff s c, count_last s c done, pending-absent done c es x)

-- A source that becomes done takes its edges off.
pub pending-present :
    (done : List String) (c : String) (es : EdgeMap) (x : String) (ts : List String)
    → IsUnique es
    → find c es ≡ some ts
    → count c done ≡ 0
    → pending done es x ≡ count x ts + pending (done ++ (c ∷ [])) es x
unfolding pending find
pending-present done c [] x ts u h z = ground arith
pending-present done c ((s, us) ∷ es) x ts u h z = ground (
  arith,
  eq_iff c s,
  eq_iff s c,
  count_last s c done,
  pending-absent done c es x,
  pending-present done c es x ts u.1,
)

-- An edge from a source that is not done is pending.
pub pending-pos :
    (done : List String) (es : EdgeMap) (s x : String)
    → IsUnique es
    → 0 < count x (sinks es s)
    → count s done ≡ 0
    → 0 < pending done es x
unfolding sinks
pending-pos done es s x u h z = elim (Option-cases (find s es)) [
  | inl e ↦ ground arith
  | inr (ts, e) ↦ ground (arith, pending-present done s es x ts u)
]

-- No edge into `x` is pending once all its sources are done.
pub pending-eq-zero :
    (done : List String) (es : EdgeMap) (x : String)
    → IsUnique es
    → ((s : String) → 0 < count x (sinks es s) → 0 < count s done)
    → pending done es x ≡ 0
unfolding pending sinks find
pending-eq-zero done [] x u h = refl
pending-eq-zero done ((k, ts) ∷ es) x u h =
    ground
      (arith, eq_refl k, h k, pending-eq-zero done es x u.1 λ s p. ground (arith, h s, eq_iff s k))

-- The nodes that an order has placed when all edges into each came from nodes placed before it.
abbrev pub Placed : EdgeMap → List String → List String → Type 0
Placed es before [] = Unit
Placed es before (x ∷ xs) = (pending before es x ≡ 0) × Placed es (before ++ (x ∷ [])) xs
