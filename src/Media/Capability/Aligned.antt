-- ===== src/Media/Capability/Aligned.antt =====
-- What the arithmetic of src/media/capability.cpp gives, where its result fits.
use native.Mathlib.Nat.{
  mul-mod_right, mul-div_cancel_left, le-div_iff_mul-le, mul_assoc, mul_comm, zero-mul, div-add-mod,
  mul-suc, mod-lt,
}
use mathlib.Core.Path.{subst}
use eavp.Base.{
  ℕ, suc, zero, ◌+◌, ◌-◌, ◌*◌, ◌/◌, ◌%◌, ◌≤◌, ◌<◌, ◌≡◌, sym, ap, ◌∙◌, some, ◌==◌, ltb, Bool-cases,
  inl, inr, arith,
}
use eavp.Media.Buffer.Mapped.{greatest_common_divisor, gcd_loop}
use eavp.Media.Buffer.Mapped.Alignment.{IsMultiple, gcd_loop-divides}
use eavp.Media.VideoFormat.{size_max}
use eavp.Media.Capability.Sizes.{checked_add, checked_multiply, align_up, least_common_multiple}

pub mod_of_multiple : (d n : ℕ) → IsMultiple d n → n % d ≡ 0
mod_of_multiple d n (k, e) = rw e (mul-mod_right d k)

pub checked_add-some :
    (a b : ℕ) {n : ℕ} → b ≤ size_max → checked_add a b ≡ some n → (n ≡ a + b) × (n ≤ size_max)
unfolding checked_add
checked_add-some a b h e = ground arith

pub checked_multiply-some :
    (a b : ℕ) {n : ℕ} → checked_multiply a b ≡ some n → (n ≡ a * b) × (n ≤ size_max)
unfolding checked_multiply
checked_multiply-some zero b e = ground (arith, zero-mul b)
checked_multiply-some (suc a) b {n = n} e = elim (Bool-cases (ltb (size_max / suc a) b)) [
  | inl f ↦ absurd (ground (arith, f, e))
  | inr f ↦
      let k : suc a * b ≡ n = ground (arith, f, e) in
      let h : b * suc a ≤ size_max =
        (le-div_iff_mul-le {k = suc a} {x = b} {y = size_max} (omega arith)).0
          (ground (arith, f)) in
      (sym k, omega (arith, mul_comm (suc a) b, h, k))
]

round-IsMultiple : (v d : ℕ) → 0 < d → IsMultiple d (v + (d - v % d))
round-IsMultiple v d h =
    (suc (v / d), omega (arith, div-add-mod v d, mul-suc d (v / d), mod-lt v h))

pub align_up-some :
    (v d : ℕ) {n : ℕ}
    → d ≤ size_max
    → v ≤ size_max
    → align_up v d ≡ some n
    → (v ≤ n) × (n ≤ size_max) × IsMultiple d n
unfolding align_up
align_up-some v d {n = n} s t e = elim (Bool-cases (d == 0)) [
  | inl z ↦ absurd (ground (arith, z, e))
  | inr z ↦ elim (Bool-cases (v % d == 0)) [
    | inl m ↦
        let k : v ≡ n = ground (arith, z, m, e) in
        (omega arith, omega arith, (v / d, ground (arith, m, div-add-mod v d)))
    | inr m ↦
        let c =
          checked_add-some v (d - v % d) {n = n} (omega (arith, s)) (ground (arith, z, m, e)) in
        (
          omega (arith, c),
          c.1,
          subst (λ (x : ℕ). IsMultiple d x) (sym c.0) (round-IsMultiple v d (ground (arith, z))),
        )
  ]
]

-- A common divisor that is not 0 makes the product of one number and the other's quotient a multiple
-- of both.
quotient-IsMultiple :
    (g a b : ℕ)
    → 0 < g
    → IsMultiple g a
    → IsMultiple g b
    → IsMultiple a (a / g * b) × IsMultiple b (a / g * b)
quotient-IsMultiple g a b h (k, e) (m, f) =
    let q : a / g ≡ k = ap (λ (x : ℕ). x / g) e ∙ mul-div_cancel_left k h in
    (
      (
        m,
        ap (λ (x : ℕ). x * b) q
            ∙ ap (λ (x : ℕ). k * x) f
            ∙ sym (mul_assoc k g m)
            ∙ ap (λ (x : ℕ). x * m) (mul_comm k g ∙ sym e),
      ),
      (a / g, mul_comm (a / g) b),
    )

pub least_common_multiple-some :
    (a b : ℕ) {n : ℕ}
    → least_common_multiple a b ≡ some n
    → IsMultiple a n × IsMultiple b n × (n ≤ size_max)
unfolding least_common_multiple greatest_common_divisor
least_common_multiple-some a b {n = n} e =
    let g = gcd_loop (suc b) a b in
    let r = gcd_loop-divides (suc b) a b (omega arith) in
    elim (Bool-cases (g == 0)) [
      | inl z ↦ absurd (ground (arith, z, e))
      | inr z ↦
          let c = checked_multiply-some (a / g) b {n = n} (ground (arith, z, e)) in
          let q = quotient-IsMultiple g a b (ground (arith, z)) r.0 r.1 in
          (
            subst (λ (x : ℕ). IsMultiple a x) (sym c.0) q.0,
            subst (λ (x : ℕ). IsMultiple b x) (sym c.0) q.1,
            c.1,
          )
    ]
