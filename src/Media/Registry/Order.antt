-- ===== src/Media/Registry/Order.antt =====
-- The order of the scores of src/media/capability.cpp, and what sorting by it brings first.
use Prim.Native.Char.{code}
use Prim.Native.Nat.{Ordering, compare as compare_ℕ}
use Prim.Native.String.{compare, then}
use Prim.Native.String.compare as text_compare
use text.Mathlib.TextPositions.{compare_refl}
use eavp.Base.{
  ℕ, ◌≡◌, refl, sym, ◌∙◌, true, false, List, [], ◌∷◌, String, All, arith, inl, inr, ◌⊎◌, Bool-cases,
}
use eavp.Media.Capability.Provider.{ProviderPreferenceScore, score_lt, text_lt}
use eavp.Media.Registry.{Candidate, insert_sorted, sort}

then-lt :
    (o q : Ordering)
    → then o q ≡ Ordering.lt
    → (o ≡ Ordering.lt) ⊎ (o ≡ Ordering.eq) × (q ≡ Ordering.lt)
then-lt Ordering.lt q h = inl refl
then-lt Ordering.eq q h = inr (refl, h)
then-lt Ordering.gt q h = absurd (cc)

then-lt_of :
    (a b c : ℕ) (o p q : Ordering)
    → then (compare_ℕ a b) o ≡ Ordering.lt
    → then (compare_ℕ b c) p ≡ Ordering.lt
    → (o ≡ Ordering.lt → p ≡ Ordering.lt → q ≡ Ordering.lt)
    → then (compare_ℕ a c) q ≡ Ordering.lt
then-lt_of a b c o p q h k f = ground (arith, h, k, f)

not-lt-nil : (s : String) → ¬ (compare s "" ≡ Ordering.lt)
not-lt-nil String.[] h = absurd (ground (arith, sym text_compare.nil-nil ∙ h))
not-lt-nil (String.◌∷◌ c s) h = absurd (ground (arith, sym (text_compare.cons-nil c s) ∙ h))

compare_trans :
    (s t u : String)
    → compare s t ≡ Ordering.lt
    → compare t u ≡ Ordering.lt
    → compare s u ≡ Ordering.lt
compare_trans s t String.[] h k = absurd (not-lt-nil t k)
compare_trans String.[] t (String.◌∷◌ e u) h k = text_compare.nil-cons e u
compare_trans (String.◌∷◌ c s) String.[] (String.◌∷◌ e u) h k = absurd (not-lt-nil _ h)
compare_trans (String.◌∷◌ c s) (String.◌∷◌ d t) (String.◌∷◌ e u) h k =
    text_compare.cons-cons c e s u
    ∙ then-lt_of (code c) (code d) (code e) (compare s t) (compare t u) (compare s u)
        (sym (text_compare.cons-cons c d s t) ∙ h) (sym (text_compare.cons-cons d e t u) ∙ k)
        (compare_trans s t u)

text_lt-eq : (s t : String) → text_lt s t ≡ true → compare s t ≡ Ordering.lt
text_lt-eq s t h = ground (arith, h)

text_lt_trans : (s t u : String) → text_lt s t ≡ true → text_lt t u ≡ true → text_lt s u ≡ true
text_lt_trans s t u h k =
    let e = compare_trans s t u (text_lt-eq s t h) (text_lt-eq t u k) in ground (arith, e)

pub score_lt_irrefl : (a : ProviderPreferenceScore) → score_lt a a ≡ false
unfolding score_lt
score_lt_irrefl a = ground (arith, compare_refl a.provider_id)

pub score_lt_trans :
    (a b c : ProviderPreferenceScore)
    → score_lt a b ≡ true
    → score_lt b c ≡ true
    → score_lt a c ≡ true
unfolding score_lt
score_lt_trans a b c h k =
    ground (arith, h, k, text_lt_trans a.provider_id b.provider_id c.provider_id)

module _ {P : Type 0} where
  -- No candidate has a lower score than `b`.
  abbrev pub IsBest : Candidate P → List (Candidate P) → Type 0
  IsBest b cs = All (λ c. score_lt c.score b.score ≡ false) cs

  -- `c` stands in the list.
  abbrev pub IsIn : Candidate P → List (Candidate P) → Type 0
  IsIn c [] = ⊥
  IsIn c (d ∷ ds) = (c ≡ d) ⊎ IsIn c ds

  -- The first of a sorted list, and the best of the list that was sorted.
  abbrev pub Leads : List (Candidate P) → List (Candidate P) → Type 0
  Leads cs [] = ⊥
  Leads cs (b ∷ bs) = IsIn b cs × IsBest b cs

  IsBest-lt :
      (c h : Candidate P) (ds : List (Candidate P))
      → score_lt c.score h.score ≡ true
      → IsBest h ds
      → IsBest c ds
  IsBest-lt c h [] l b = tt
  IsBest-lt c h (d ∷ ds) l b = (
    elim (Bool-cases (score_lt d.score c.score)) [
      | inl e ↦
          let f = score_lt_trans d.score c.score h.score e l in absurd (ground (arith, f, b.0))
      | inr e ↦ e
    ],
    IsBest-lt c h ds l b.1,
  )

  insert_sorted-Leads :
      (c : Candidate P) (cs s : List (Candidate P))
      → Leads cs s
      → Leads (c ∷ cs) (insert_sorted c s)
  unfolding insert_sorted
  insert_sorted-Leads c cs [] l = absurd l
  insert_sorted-Leads c cs (h ∷ s) l = elim (Bool-cases (score_lt c.score h.score)) [
    | inl e ↦ rw e (inl refl, (score_lt_irrefl c.score, IsBest-lt c h cs e l.1))
    | inr e ↦ rw e (inr l.0, (e, l.1))
  ]

  pub sort-Leads : (c : Candidate P) (cs : List (Candidate P)) → Leads (c ∷ cs) (sort (c ∷ cs))
  unfolding sort insert_sorted
  sort-Leads c [] = (inl refl, (score_lt_irrefl c.score, tt))
  sort-Leads c (d ∷ ds) = insert_sorted-Leads c (d ∷ ds) (sort (d ∷ ds)) (sort-Leads d ds)
