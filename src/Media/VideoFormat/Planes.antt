-- ===== src/Media/VideoFormat/Planes.antt =====
-- What an accepted picture of src/media/video_format.cpp has: the planes that its pixel format needs.
use native.Mathlib.Nat.{le-div_iff_mul-le, mul-zero}
use eavp.Base.{
  ℕ, suc, ◌*◌, ◌/◌, ◌%◌, ◌^◌, ◌≤◌, ◌<◌, ◌≡◌, inl, inr, true, false, List, [], ◌∷◌, ◌==◌, ltb,
  Bool-cases, arith, zero,
}
use eavp.Status.{Status, is_ok}
use eavp.Media.Buffer.{PlaneLayout}
use eavp.Media.VideoFormat.{
  PixelFormat, unknown, nv12, yuv420p, rgb24, yuyv422, size_max, rows_overflow, is_odd,
  validate_plane, validate_two, validate_yuyv422, validate_rgb24, validate_nv12, validate_yuv420p,
  validate_pixels,
}

-- The planes that a picture of `w` by `h` needs: the least stride, and the rows, of each.
abbrev pub required : PixelFormat → ℕ → ℕ → List (ℕ × ℕ)
required nv12 w h = (w, h) ∷ (w, h / 2) ∷ []
required yuv420p w h = (w, h) ∷ (w / 2, h / 2) ∷ (w / 2, h / 2) ∷ []
required rgb24 w h = (w * 3, h) ∷ []
required yuyv422 w h = (w * 2, h) ∷ []
required unknown w h = []

-- A plane that holds its rows.
abbrev pub Holds : ℕ × ℕ → PlaneLayout → Type 0
Holds (minimum, rows) p = (minimum ≤ p.stride) × (p.stride * rows ≤ p.size)

-- As many planes as are needed, each of which holds its rows.
abbrev pub HoldAll : List (ℕ × ℕ) → List PlaneLayout → Type 0
HoldAll [] [] = Unit
HoldAll (r ∷ rs) (p ∷ ps) = Holds r p × HoldAll rs ps
HoldAll _ _ = ⊥

-- A plane whose size is a `std::size_t`.
abbrev pub IsSmall : PlaneLayout → Type 0
IsSmall p = p.size < 2 ^ 64

no_wrap : (x size : ℕ) → x ≤ size_max → x % 2 ^ 64 ≤ size → x ≤ size
no_wrap x size h k = omega (arith, h, k)

rows_overflow-le : (rows stride : ℕ) → rows_overflow rows stride ≡ false → stride * rows ≤ size_max
rows_overflow-le zero stride h = rw (mul-zero stride) (omega arith)
rows_overflow-le (suc r) stride h =
    (le-div_iff_mul-le {k = suc r} {x = stride} {y = size_max} (omega arith)).0 (ground (arith, h))

validate_plane-Holds :
    (p : PlaneLayout) (minimum rows : ℕ)
    → is_ok (validate_plane p minimum rows) ≡ true
    → Holds (minimum, rows) p
unfolding validate_plane
validate_plane-Holds p minimum rows h = elim (Bool-cases (ltb p.stride minimum)) [
  | inl e ↦ absurd (ground (arith, e, h))
  | inr e ↦ elim (Bool-cases (rows_overflow rows p.stride)) [
    | inl f ↦ absurd (ground (arith, e, f, h))
    | inr f ↦ elim (Bool-cases (ltb p.size (p.stride * rows % 2 ^ 64))) [
      | inl g ↦ absurd (ground (arith, e, f, g, h))
      | inr g ↦ (
        ground (arith, e),
        no_wrap (p.stride * rows) p.size (rows_overflow-le rows p.stride f) (ground (arith, g)),
      )
    ]
  ]
]

two-ok : (s t : Status) → is_ok (validate_two s t) ≡ true → (is_ok s ≡ true) × (is_ok t ≡ true)
unfolding validate_two
two-ok s t h = ground (arith, h)

validate_yuyv422-HoldAll :
    (w h : ℕ) (ps : List PlaneLayout)
    → is_ok (validate_yuyv422 w h ps) ≡ true
    → HoldAll (required yuyv422 w h) ps
unfolding validate_yuyv422
validate_yuyv422-HoldAll w h (p ∷ []) k = elim (Bool-cases (w % 2 == 0)) [
  | inr e ↦ absurd (ground (arith, e, k))
  | inl e ↦ elim (Bool-cases (ltb (size_max / 2) w)) [
    | inl f ↦ absurd (ground (arith, e, f, k))
    | inr f ↦ (validate_plane-Holds p (w * 2) h (ground (arith, e, f, k)), tt)
  ]
]
validate_yuyv422-HoldAll w h _ k = absurd (ground (arith, k))

validate_rgb24-HoldAll :
    (w h : ℕ) (ps : List PlaneLayout)
    → is_ok (validate_rgb24 w h ps) ≡ true
    → HoldAll (required rgb24 w h) ps
unfolding validate_rgb24
validate_rgb24-HoldAll w h (p ∷ []) k = elim (Bool-cases (ltb (size_max / 3) w)) [
  | inl f ↦ absurd (ground (arith, f, k))
  | inr f ↦ (validate_plane-Holds p (w * 3) h (ground (arith, f, k)), tt)
]
validate_rgb24-HoldAll w h _ k = absurd (ground (arith, k))

validate_nv12-HoldAll :
    (w h : ℕ) (ps : List PlaneLayout)
    → is_ok (validate_nv12 w h ps) ≡ true
    → HoldAll (required nv12 w h) ps
unfolding validate_nv12
validate_nv12-HoldAll w h (p ∷ q ∷ []) k = elim (Bool-cases (is_odd w h)) [
  | inl e ↦ absurd (ground (arith, e, k))
  | inr e ↦
      let t = two-ok (validate_plane p w h) (validate_plane q w (h / 2)) (ground (arith, e, k)) in
      (validate_plane-Holds p w h t.0, (validate_plane-Holds q w (h / 2) t.1, tt))
]
validate_nv12-HoldAll w h _ k = absurd (ground (arith, k))

validate_yuv420p-HoldAll :
    (w h : ℕ) (ps : List PlaneLayout)
    → is_ok (validate_yuv420p w h ps) ≡ true
    → HoldAll (required yuv420p w h) ps
unfolding validate_yuv420p
validate_yuv420p-HoldAll w h (p ∷ q ∷ r ∷ []) k = elim (Bool-cases (is_odd w h)) [
  | inl e ↦ absurd (ground (arith, e, k))
  | inr e ↦
      let c = validate_plane q (w / 2) (h / 2) in
      let d = validate_plane r (w / 2) (h / 2) in
      let t = two-ok (validate_plane p w h) (validate_two c d) (ground (arith, e, k)) in
      let u = two-ok c d t.1 in
      (
        validate_plane-Holds p w h t.0,
        (
          validate_plane-Holds q (w / 2) (h / 2) u.0,
          (validate_plane-Holds r (w / 2) (h / 2) u.1, tt),
        ),
      )
]
validate_yuv420p-HoldAll w h _ k = absurd (ground (arith, k))

pub validate_pixels-HoldAll :
    (pixels : PixelFormat) (w h : ℕ) (ps : List PlaneLayout)
    → is_ok (validate_pixels pixels w h ps) ≡ true
    → HoldAll (required pixels w h) ps
unfolding validate_pixels
validate_pixels-HoldAll nv12 w h ps k = validate_nv12-HoldAll w h ps k
validate_pixels-HoldAll yuv420p w h ps k = validate_yuv420p-HoldAll w h ps k
validate_pixels-HoldAll rgb24 w h ps k = validate_rgb24-HoldAll w h ps k
validate_pixels-HoldAll yuyv422 w h ps k = validate_yuyv422-HoldAll w h ps k
validate_pixels-HoldAll unknown w h ps k = absurd (ground (arith, k))
