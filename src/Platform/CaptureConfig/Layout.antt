-- ===== src/Platform/CaptureConfig/Layout.antt =====
-- The pictures that src/platform/linux/v4l2_capture_config.cpp accepts, whatever the width of std::size_t.
use mathlib.Core.Bool.{false≢true}
use native.Mathlib.Nat.{le-div_iff_mul-le, mul_comm}
use eavp.Base.{
  ℕ, zero, suc, ◌+◌, ◌*◌, ◌/◌, ◌<◌, ◌≤◌, ◌≡◌, ◌↔◌, refl, inl, inr, Bool-cases, true, false, not,
  ◌||◌, Option, none, some, leb, if◌then◌else◌, arith,
}
use eavp.Base.Int.{ℤ, pos, negsuc, to_size}
use eavp.Status.{success, success_after}
use eavp.Media.VideoFormat.{PixelFormat, unknown, nv12, yuv420p, rgb24, yuyv422}
use eavp.Media.Capability.Sizes.{◌>>=◌}
use eavp.Platform.CaptureConfig.{
  V4l2CaptureConfig, checked_add, checked_multiply, layout_size, has_representable_layout,
  is_supported_format, has_valid_dimensions, values_invalid, create_v4l2,
}

-- The bits of a pixel: one byte of luma for each, and for each four, or for each two, a byte of
-- either colour.
abbrev pub bits_per_pixel : PixelFormat → ℕ
bits_per_pixel yuv420p = 12
bits_per_pixel nv12 = 12
bits_per_pixel yuyv422 = 16
bits_per_pixel rgb24 = 24
bits_per_pixel unknown = 0

-- A number when it fits.
abbrev fitting : ℕ → ℕ → Option ℕ
fitting max n = if leb n max then some n else none

multiply_fits : (max a b : ℕ) → checked_multiply max a b ≡ fitting max (a * b)
unfolding checked_multiply
multiply_fits max zero b = ground arith
multiply_fits max (suc a) b =
    let m = le-div_iff_mul-le {k = suc a} {x = b} {y = max} (omega arith) in
    let c = mul_comm b (suc a) in ground (arith, m, c)

add_fits : (max a b : ℕ) → b ≤ max → checked_add max a b ≡ fitting max (a + b)
unfolding checked_add
add_fits max a b h = ground (arith, h)

-- The bytes of the planes of a picture.
abbrev bytes : PixelFormat → ℕ → ℕ → ℕ
bytes yuv420p w h = w * h + w / 2 * (h / 2) + w / 2 * (h / 2)
bytes nv12 w h = w * h + w * (h / 2)
bytes yuyv422 w h = w * 2 * h
bytes rgb24 w h = 0
bytes unknown w h = 0

-- Two sums of numbers that fit, in a chain.
add_chain :
    (max a b : ℕ)
    → (fitting max a >>= λ luma. fitting max b >>= λ chroma. checked_add max luma chroma)
      ≡ fitting max (a + b)
add_chain max a b = elim (Bool-cases (leb a max)) [
  | inl e ↦ elim (Bool-cases (leb b max)) [
    | inl f ↦ rw (e, f) (add_fits max a b (ground (arith, f)))
    | inr f ↦ ground (arith, e, f)
  ]
  | inr e ↦ ground (arith, e)
]

add_chain_twice :
    (max a b : ℕ)
    → (fitting max a >>= λ luma. fitting max b >>= λ chroma.
        checked_add max luma chroma >>= λ offset. checked_add max offset chroma)
      ≡ fitting max (a + b + b)
add_chain_twice max a b = elim (Bool-cases (leb a max)) [
  | inl e ↦ elim (Bool-cases (leb b max)) [
    | inl f ↦
        let k : b ≤ max = ground (arith, f) in
        rw (e, f, add_fits max a b k)
          (elim (Bool-cases (leb (a + b) max)) [
            | inl g ↦ rw g (add_fits max (a + b) b k)
            | inr g ↦ ground (arith, g)
          ])
    | inr f ↦ ground (arith, e, f)
  ]
  | inr e ↦ ground (arith, e)
]

widens : (a h : ℕ) → 0 < h → a ≤ a * h
widens a zero p = absurd (ground (arith, p))
widens a (suc h) p = omega arith

quarters : (a b w h : ℕ) → w ≡ a * 2 → h ≡ b * 2 → w * h ≡ a * b * 4
quarters a b w h p q = rw (p, q) (grind arith)

halves : (b w h : ℕ) → h ≡ b * 2 → w * h ≡ w * b * 2
halves b w h q = rw q (grind arith)

layout_size-bytes :
    (max : ℕ) (p : PixelFormat) (w h : ℕ)
    → is_supported_format p ≡ true
    → 0 < h
    → layout_size max p w h ≡ fitting max (bytes p w h)
unfolding layout_size
layout_size-bytes max yuv420p w h s a =
    rw (multiply_fits max w h, multiply_fits max (w / 2) (h / 2))
      (add_chain_twice max (w * h) (w / 2 * (h / 2)))
layout_size-bytes max nv12 w h s a =
    rw (multiply_fits max w h, multiply_fits max w (h / 2)) (add_chain max (w * h) (w * (h / 2)))
layout_size-bytes max yuyv422 w h s a = elim (Bool-cases (leb (w * 2) max)) [
  | inl e ↦ rw (multiply_fits max w 2, e) (multiply_fits max (w * 2) h)
  | inr e ↦
      let k : w * 2 ≤ w * 2 * h = widens (w * 2) h a in
      rw (multiply_fits max w 2, e) (ground (arith, k, e))
]
layout_size-bytes max rgb24 w h s a = absurd (false≢true s)
layout_size-bytes max unknown w h s a = absurd (false≢true s)

-- The bytes of a picture of valid dimensions are those of its pixels.
bytes-bits_per_pixel :
    (p : PixelFormat) (w h : ℕ)
    → is_supported_format p ≡ true
    → has_valid_dimensions p (pos w) (pos h) ≡ true
    → 8 * bytes p w h ≡ bits_per_pixel p * (w * h)
unfolding has_valid_dimensions
bytes-bits_per_pixel yuv420p w h s v =
    let k = quarters (w / 2) (h / 2) w h (ground (arith, v)) (ground (arith, v)) in omega (arith, k)
bytes-bits_per_pixel nv12 w h s v =
    let k = halves (h / 2) w h (ground (arith, v)) in omega (arith, k)
bytes-bits_per_pixel yuyv422 w h s v = grind arith
bytes-bits_per_pixel rgb24 w h s v = absurd (false≢true s)
bytes-bits_per_pixel unknown w h s v = absurd (false≢true s)

bytes-pos :
    (p : PixelFormat) (w h : ℕ) → is_supported_format p ≡ true → 0 < w → 0 < h → 0 < bytes p w h
bytes-pos yuv420p w h s a b = let k = widens w h b in omega (arith, k, a)
bytes-pos nv12 w h s a b = let k = widens w h b in omega (arith, k, a)
bytes-pos yuyv422 w h s a b = let k = widens (w * 2) h b in omega (arith, k, a)
bytes-pos rgb24 w h s a b = absurd (false≢true s)
bytes-pos unknown w h s a b = absurd (false≢true s)

representable :
    (max : ℕ) (p : PixelFormat) (w h : ℤ)
    → is_supported_format p ≡ true
    → has_valid_dimensions p w h ≡ true
    → (has_representable_layout max p w h ≡ true)
      ↔ (bits_per_pixel p * (to_size w * to_size h) ≤ 8 * max)
unfolding has_representable_layout has_valid_dimensions
representable max p (pos w) (pos h) s v =
    let a : 0 < w = ground (arith, v) in
    let b : 0 < h = ground (arith, v) in
    let k = bytes-bits_per_pixel p w h s v in
    let n = bytes-pos p w h s a b in
    rw (layout_size-bytes max p w h s b, has_representable_layout)
      (elim (Bool-cases (leb (bytes p w h) max)) [
        | inl e ↦ rw e (λ _. ground (arith, e, k), λ _. ground (arith, n))
        | inr e ↦ rw e (λ x. absurd (false≢true x), λ x. absurd (ground (arith, e, k, x)))
      ])
representable max p (pos w) (negsuc h) s v = absurd (ground (arith, v))
representable max p (negsuc w) h s v = absurd (ground (arith, v))

-- Whatever the greatest std::size_t is, a configuration of a capture is accepted exactly when its
-- values are in range, its pixel format is supported, its dimensions are valid and the bits of all
-- its pixels, 12 or 16 for each, fill at most that many bytes; it is kept as it is. So a picture
-- is refused when its size does not fit, and never because a step towards it overflows.
pub create_v4l2-success :
    (max : ℕ) (c : V4l2CaptureConfig)
    → (create_v4l2 max c ≡ success c)
      ↔ (values_invalid c ≡ false)
        × (is_supported_format c.pixel_format ≡ true)
        × (has_valid_dimensions c.pixel_format c.width c.height ≡ true)
        × (bits_per_pixel c.pixel_format * (to_size c.width * to_size c.height) ≤ 8 * max)
unfolding create_v4l2
create_v4l2-success max c = (
  λ e.
      let r = success_after (values_invalid c) _ e in
      let q = success_after (not (is_supported_format c.pixel_format)) _ r.1 in
      let t =
        success_after
          (not (has_valid_dimensions c.pixel_format c.width c.height)
            || not (has_representable_layout max c.pixel_format c.width c.height))
          _ q.1 in
      let s : is_supported_format c.pixel_format ≡ true = ground (arith, q.0) in
      let v : has_valid_dimensions c.pixel_format c.width c.height ≡ true = ground (arith, t.0) in
      (r.0, s, v, (representable max c.pixel_format c.width c.height s v).0 (ground (arith, t.0))),
  λ (v, s, d, b).
      let f = (representable max c.pixel_format c.width c.height s d).1 b in rw (v, s, d, f) refl,
)
