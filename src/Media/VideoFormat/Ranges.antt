-- ===== src/Media/VideoFormat/Ranges.antt =====
-- The ranges of the planes that src/media/video_format.cpp accepts.
use eavp.Base.{
  ℕ, ◌+◌, ◌-◌, ◌≤◌, ◌≡◌, inl, inr, true, false, List, [], ◌∷◌, ltb, All, Bool-cases, arith, suc,
}
use eavp.Base.Int.{pos}
use eavp.Status.{is_ok}
use eavp.Media.Buffer.{PlaneLayout, overlaps}
use eavp.Media.Buffer.Planes.{Apart, ArePairwiseApart, unzip}
use eavp.Media.VideoFormat.{
  PixelFormat, size_max, validate_against, validate_ranges, validate_format,
}
use eavp.Media.VideoFormat.Planes.{required, HoldAll, IsSmall, validate_pixels-HoldAll}

-- A plane whose end is a `std::size_t`.
abbrev IsRanged : PlaneLayout → Type 0
IsRanged p = p.offset + p.size ≤ size_max

ranged : (p : PlaneLayout) → IsSmall p → ltb (size_max - p.size) p.offset ≡ false → IsRanged p
ranged p s h = ground (arith, s, h)

apart : (p q : PlaneLayout) → IsRanged p → IsRanged q → overlaps p q ≡ false → Apart p q
apart p q a b h = ground (arith, a, b, h)

validate_against-All :
    (p : PlaneLayout) (qs : List PlaneLayout)
    → IsRanged p
    → All IsSmall qs
    → is_ok (validate_against p qs) ≡ true
    → All (Apart p) qs
unfolding validate_against
validate_against-All p [] r s h = tt
validate_against-All p (q ∷ qs) r s h = elim (Bool-cases (ltb (size_max - q.size) q.offset)) [
  | inl e ↦ absurd (ground (arith, e, h))
  | inr e ↦ elim (Bool-cases (overlaps p q)) [
    | inl f ↦ absurd (ground (arith, e, f, h))
    | inr f ↦
        (apart p q r (ranged q s.0 e) f, validate_against-All p qs r s.1 (ground (arith, e, f, h)))
  ]
]

validate_ranges-Apart :
    (before ps : List PlaneLayout)
    → All IsSmall before
    → All IsSmall ps
    → is_ok (validate_ranges before ps) ≡ true
    → All (λ p. All (Apart p) before) ps × ArePairwiseApart ps
unfolding validate_ranges
validate_ranges-Apart before [] b s h = (tt, tt)
validate_ranges-Apart before (p ∷ ps) b s h = elim (Bool-cases (ltb (size_max - p.size) p.offset)) [
  | inl e ↦ absurd (ground (arith, e, h))
  | inr e ↦ elim (Bool-cases (is_ok (validate_against p before))) [
    | inr f ↦ absurd (ground (arith, e, f, h))
    | inl f ↦
        let r = validate_ranges-Apart (p ∷ before) ps (s.0, b) s.1 (ground (arith, e, f, h)) in
        let z = unzip p before ps r.0 in
        ((validate_against-All p before (ranged p s.0 e) b f, z.1), (z.0, r.1))
  ]
]

-- A picture that is accepted, of planes whose sizes are those of a `std::size_t`, has exactly as
-- many planes as its pixel format needs; each has the stride that a row needs, and its size, with
-- no overflow, is that of its rows at least; and of every two planes one ends before the other
-- begins.
pub format_holds :
    (pixels : PixelFormat) (w h : ℕ) (ps : List PlaneLayout)
    → All IsSmall ps
    → is_ok (validate_format pixels (pos (suc w)) (pos (suc h)) ps) ≡ true
    → HoldAll (required pixels (suc w) (suc h)) ps × ArePairwiseApart ps
unfolding validate_format
format_holds pixels w h ps s k = elim (Bool-cases (is_ok (validate_ranges [] ps))) [
  | inr e ↦ absurd (ground (arith, e, k))
  | inl e ↦ (
    validate_pixels-HoldAll pixels (suc w) (suc h) ps (ground (arith, e, k)),
    (validate_ranges-Apart [] ps tt s e).1,
  )
]
