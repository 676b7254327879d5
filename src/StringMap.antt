-- ===== src/StringMap.antt =====
-- `std::map<std::string, V>`: entries with unique keys, in the order of the keys, and the operations
-- that the program calls. The laws are in the form of a lookup after each change.
use Prim.Native.String.{compare}
use Prim.Native.Nat.{Ordering}
use eavp.Base.{
  ℕ, ◌+◌, ap, ◌≡◌, refl, String, List, [], ◌∷◌, Option, none, some, if◌then◌else◌, str_eq, eq_iff,
  arith, Option-cases, inl, inr, All, if_both,
}

module _ {ℓ} {V : Type ℓ} where
  -- `m.find(k)`; `none` is `m.end()`.
  unfoldable pub find : String → List (String × V) → Option V
  find k [] = none
  find k ((j, v) ∷ m) = if str_eq k j then some v else find k m

  -- A new entry goes before the first greater key.
  place : String → V → List (String × V) → List (String × V)
  place k v [] = (k, v) ∷ []
  place k v ((j, w) ∷ m) = elim (compare k j) [
    | Ordering.lt ↦ (k, v) ∷ (j, w) ∷ m
    | _ ↦ (j, w) ∷ place k v m
  ]

  assign : String → V → List (String × V) → List (String × V)
  assign k v [] = []
  assign k v ((j, w) ∷ m) = if str_eq k j then (j, v) ∷ m else (j, w) ∷ assign k v m

  -- `m[k] = v`: the entry of `k` is assigned, or a new one is made.
  unfoldable pub insert : String → V → List (String × V) → List (String × V)
  unfolding place assign
  insert k v m = elim (find k m) [ none ↦ place k v m | some w ↦ assign k v m ]

  -- `m.erase(k)`.
  unfoldable pub erase : String → List (String × V) → List (String × V)
  erase k [] = []
  erase k ((j, v) ∷ m) = if str_eq k j then erase k m else (j, v) ∷ erase k m

  -- No key has two entries.
  abbrev pub IsUnique : List (String × V) → Type ℓ
  IsUnique [] = Unit
  IsUnique ((k, v) ∷ m) = (find k m ≡ none) × IsUnique m

  place-All :
      (Q : String × V → Type 0) (k : String) (v : V) (m : List (String × V))
      → Q (k, v)
      → All Q m
      → All Q (place k v m)
  unfolding place
  place-All Q k v [] h a = (h, tt)
  place-All Q k v ((j, w) ∷ m) h (q, a) =
      elim (compare k j)
        as (λ o. All Q (elim o [ Ordering.lt ↦ (k, v) ∷ (j, w) ∷ m | _ ↦ (j, w) ∷ place k v m ])) [
          | Ordering.lt ↦ (h, (q, a))
          | Ordering.eq ↦ (q, place-All Q k v m h a)
          | Ordering.gt ↦ (q, place-All Q k v m h a)
        ]

  assign-All :
      (Q : V → Type 0) (k : String) (v : V) (m : List (String × V))
      → Q v
      → All (λ e. Q e.1) m
      → All (λ e. Q e.1) (assign k v m)
  unfolding assign
  assign-All Q k v [] h a = tt
  assign-All Q k v ((j, w) ∷ m) h (q, a) =
      if_both (All (λ e. Q e.1)) (str_eq k j) (λ _. (h, a)) (λ _. (q, assign-All Q k v m h a))

  -- What holds of the values holds of them after an insertion of such a value.
  pub insert-All :
      (Q : V → Type 0) (k : String) (v : V) (m : List (String × V))
      → Q v
      → All (λ e. Q e.1) m
      → All (λ e. Q e.1) (insert k v m)
  unfolding insert
  insert-All Q k v m h a =
      elim (find k m)
        as (λ o. All (λ e. Q e.1) (elim o [ none ↦ place k v m | some w ↦ assign k v m ])) [
          | none ↦ place-All (λ e. Q e.1) k v m h a
          | some w ↦ assign-All Q k v m h a
        ]

  find-place :
      (k j : String) (v : V) (m : List (String × V))
      → find k m ≡ none
      → find j (place k v m) ≡ (if str_eq j k then some v else find j m)
  unfolding find place
  find-place k j v [] h = refl
  find-place k j v ((i, w) ∷ m) h =
      ground (arith, eq_iff j k, eq_iff k i, eq_iff j i, find-place k j v m)

  find-assign :
      (k j : String) (v u : V) (m : List (String × V))
      → find k m ≡ some u
      → find j (assign k v m) ≡ (if str_eq j k then some v else find j m)
  unfolding find assign
  find-assign k j v u [] h = ground arith
  find-assign k j v u ((i, w) ∷ m) h =
      ground (arith, eq_iff j k, eq_iff k i, eq_iff j i, find-assign k j v u m)

  pub find-insert :
      (k j : String) (v : V) (m : List (String × V))
      → find j (insert k v m) ≡ (if str_eq j k then some v else find j m)
  unfolding insert
  find-insert k j v m = elim (Option-cases (find k m)) [
    | inl e ↦ rw (e, insert) (find-place k j v m e)
    | inr (w, e) ↦ rw (e, insert) (find-assign k j v w m e)
  ]

  place-IsUnique :
      (k : String) (v : V) (m : List (String × V))
      → find k m ≡ none
      → IsUnique m
      → IsUnique (place k v m)
  unfolding find place
  place-IsUnique k v [] h u = (refl, tt)
  place-IsUnique k v ((i, w) ∷ m) h u =
      ground (arith, eq_iff k i, eq_iff i k, place-IsUnique k v m, find-place k i v m)

  assign-IsUnique :
      (k : String) (v u : V) (m : List (String × V))
      → find k m ≡ some u
      → IsUnique m
      → IsUnique (assign k v m)
  unfolding find assign
  assign-IsUnique k v u [] h q = tt
  assign-IsUnique k v u ((i, w) ∷ m) h q =
      ground (arith, eq_iff k i, eq_iff i k, assign-IsUnique k v u m, find-assign k i v u m)

  pub insert-IsUnique :
      (k : String) (v : V) (m : List (String × V)) → IsUnique m → IsUnique (insert k v m)
  unfolding insert
  insert-IsUnique k v m u = elim (Option-cases (find k m)) [
    | inl e ↦ rw (e, insert) (place-IsUnique k v m e u)
    | inr (w, e) ↦ rw (e, insert) (assign-IsUnique k v w m e u)
  ]

  pub find-erase :
      (k j : String) (m : List (String × V))
      → find j (erase k m) ≡ (if str_eq j k then none else find j m)
  unfolding find erase
  find-erase k j [] = ground arith
  find-erase k j ((i, w) ∷ m) = ground (arith, eq_iff j k, eq_iff k i, eq_iff j i, find-erase k j m)

  -- The sum of a measure of the values.
  unfoldable pub total : (V → ℕ) → List (String × V) → ℕ
  total f [] = 0
  total f ((k, v) ∷ m) = f v + total f m

  -- The measure of an entry, 0 where there is none.
  abbrev pub entry : (V → ℕ) → Option V → ℕ
  entry f none = 0
  entry f (some v) = f v

  total-place :
      (f : V → ℕ) (k : String) (v : V) (m : List (String × V))
      → total f (place k v m) ≡ f v + total f m
  unfolding total place
  total-place f k v [] = refl
  total-place f k v ((i, w) ∷ m) = ground (arith, total-place f k v m)

  total-assign :
      (f : V → ℕ) (k : String) (v u : V) (m : List (String × V))
      → find k m ≡ some u
      → total f (assign k v m) + f u ≡ f v + total f m
  unfolding total assign find
  total-assign f k v u [] h = ground arith
  total-assign f k v u ((i, w) ∷ m) h = ground (arith, ap f, total-assign f k v u m)

  pub total-insert :
      (f : V → ℕ) (k : String) (v : V) (m : List (String × V))
      → total f (insert k v m) + entry f (find k m) ≡ f v + total f m
  unfolding insert
  total-insert f k v m = elim (Option-cases (find k m)) [
    | inl e ↦ rw (e, insert) (omega (arith, total-place f k v m))
    | inr (w, e) ↦ rw (e, insert) (total-assign f k v w m e)
  ]
