-- ===== src/StringSet.antt =====
-- `std::set<std::string>` in the order of its elements, and how often a text stands in a list.
use Prim.Native.String.{compare}
use Prim.Native.Nat.{Ordering}
use eavp.Base.{
  ℕ, suc, ◌+◌, ◌≤◌, ◌<◌, ◌≡◌, refl, Bool, String, List, [], ◌∷◌, ◌++◌, if◌then◌else◌, str_eq,
  eq_iff, eq_refl, arith, ltb, length,
}

abbrev pub count : String → List String → ℕ
count x [] = 0
count x (y ∷ ys) = (if str_eq x y then 1 else 0) + count x ys

-- `s.count(k) != 0`.
abbrev pub member : String → List String → Bool
member k s = ltb 0 (count k s)

-- A new element goes before the first greater one.
place : String → List String → List String
place k [] = k ∷ []
place k (j ∷ s) = elim (compare k j) [ Ordering.lt ↦ k ∷ j ∷ s | _ ↦ j ∷ place k s ]

-- `s.insert(k)`; its `second` is `not (member k s)`.
unfoldable pub insert : String → List String → List String
unfolding place
insert k s = if member k s then s else place k s

-- `s.erase(k)`.
unfoldable pub erase : String → List String → List String
erase k [] = []
erase k (j ∷ s) = let rest = erase k s in if str_eq k j then rest else j ∷ rest

pub count-append : (x : String) (ys zs : List String) → count x (ys ++ zs) ≡ count x ys + count x zs
count-append x [] zs = omega arith
count-append x (y ∷ ys) zs = omega (arith, count-append x ys zs)

pub count-le-length : (x : String) (ys : List String) → count x ys ≤ length ys
count-le-length x [] = omega arith
count-le-length x (y ∷ ys) = ground (arith, count-le-length x ys)

count-place :
    (x k : String) (s : List String)
    → count x (place k s) ≡ (if str_eq x k then 1 else 0) + count x s
unfolding place
count-place x k [] = omega arith
count-place x k (j ∷ s) = ground (arith, count-place x k s)

length-place : (k : String) (s : List String) → length (place k s) ≡ suc (length s)
unfolding place
length-place k [] = refl
length-place k (j ∷ s) = ground (arith, length-place k s)

-- An insertion of an absent element.
pub count-insert :
    (x k : String) (s : List String)
    → count x (insert k s)
      ≡ (if str_eq x k then (if member k s then count k s else 1) else count x s)
unfolding insert
count-insert x k s = ground (arith, eq_iff x k, count-place x k s)

pub length-insert : (k : String) (s : List String) → length (insert k s) ≤ suc (length s)
unfolding insert
length-insert k s = ground (arith, length-place k s)

pub count-erase :
    (x k : String) (s : List String) → count x (erase k s) ≡ (if str_eq x k then 0 else count x s)
unfolding erase
count-erase x k [] = ground arith
count-erase x k (j ∷ s) = ground (arith, eq_iff x k, eq_iff k j, eq_iff x j, count-erase x k s)

pub length-erase-le : (k : String) (s : List String) → length (erase k s) ≤ length s
unfolding erase
length-erase-le k [] = omega arith
length-erase-le k (j ∷ s) = ground (arith, length-erase-le k s)

-- One occurrence less.
remove : String → List String → List String
remove k [] = []
remove k (j ∷ s) = let rest = remove k s in if str_eq k j then s else j ∷ rest

count-remove :
    (x k : String) (s : List String)
    → 0 < count k s
    → count x s ≡ (if str_eq x k then 1 else 0) + count x (remove k s)
unfolding remove
count-remove x k [] h = absurd (omega arith)
count-remove x k (j ∷ s) h = ground (arith, eq_iff x k, eq_iff k j, eq_iff x j, count-remove x k s)

length-remove :
    (k : String) (s : List String) → 0 < count k s → length s ≡ suc (length (remove k s))
unfolding remove
length-remove k [] h = absurd (omega arith)
length-remove k (j ∷ s) h = ground (arith, length-remove k s)

-- What stands at most as often in `xs` as in `ys` makes `xs` no longer.
pub length-le_of_count :
    (xs ys : List String) → ((x : String) → count x xs ≤ count x ys) → length xs ≤ length ys
length-le_of_count [] ys h = omega arith
length-le_of_count (x ∷ xs) ys h = omega (
  arith,
  length-remove x ys first,
  length-le_of_count xs (remove x ys) λ y. omega (arith, h y, count-remove y x ys first),
)
  where
    first : 0 < count x ys
    first = ground (arith, h x, eq_refl x)

-- If it is as long, every element stands as often.
pub count-eq_of_length :
    (xs ys : List String)
    → ((x : String) → count x xs ≤ count x ys)
    → length xs ≡ length ys
    → (x : String) → count x xs ≡ count x ys
count-eq_of_length [] [] h e z = refl
count-eq_of_length [] (y ∷ ys) h e z = absurd (omega arith)
count-eq_of_length (x ∷ xs) ys h e z = omega (
  arith,
  count-remove z x ys first,
  count-eq_of_length xs (remove x ys) (λ y. omega (arith, h y, count-remove y x ys first))
      (omega (arith, length-remove x ys first)) z,
)
  where
    first : 0 < count x ys
    first = ground (arith, h x, eq_refl x)

pub length-eq_of_count :
    (xs ys : List String) → ((x : String) → count x xs ≡ count x ys) → length xs ≡ length ys
length-eq_of_count xs ys h = omega (
  arith,
  length-le_of_count xs ys (λ x. omega (arith, h x)),
  length-le_of_count ys xs (λ x. omega (arith, h x)),
)
