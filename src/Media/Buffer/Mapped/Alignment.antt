-- ===== src/Media/Buffer/Mapped/Alignment.antt =====
-- The alignment that `plane_address_alignment` of src/media/buffer.cpp promises.
use native.Mathlib.Nat.{div-add-mod, mod-lt, mul-add, mul_assoc}
use mathlib.Core.Path.{subst}
use eavp.Base.{
  ℕ, zero, suc, ◌+◌, ◌*◌, ◌/◌, ◌%◌, ◌<◌, ◌≡◌, sym, ap, ◌∙◌, inl, inr, some, ◌==◌, get_elem?,
  Bool-cases, arith,
}
use eavp.Status.{success}
use eavp.Media.Buffer.{PlaneLayout, Buffer}
use eavp.Media.Buffer.Mapped.{
  gcd_loop, greatest_common_divisor, alignment_at, plane_address_alignment,
}

-- `n` is a multiple of `d`.
abbrev pub IsMultiple : ℕ → ℕ → Type 0
IsMultiple d n = (k : ℕ) × (n ≡ d * k)

IsMultiple-add : (d m n : ℕ) → IsMultiple d m → IsMultiple d n → IsMultiple d (m + n)
IsMultiple-add d m n (a, e) (b, f) = (a + b, rw (e, f) (sym (mul-add d a b)))

pub IsMultiple-mul : (d m k : ℕ) → IsMultiple d m → IsMultiple d (m * k)
IsMultiple-mul d m k (a, e) = (a * k, rw e (mul_assoc d a k))

pub IsMultiple-trans : (c d n : ℕ) → IsMultiple c d → IsMultiple d n → IsMultiple c n
IsMultiple-trans c d n h (k, e) = rw e (IsMultiple-mul c d k h)

pub gcd_loop-divides :
    (fuel left right : ℕ)
    → right < fuel
    → IsMultiple (gcd_loop fuel left right) left × IsMultiple (gcd_loop fuel left right) right
unfolding gcd_loop
gcd_loop-divides zero left right h = absurd (omega (arith, h))
gcd_loop-divides (suc fuel) left right h = elim (Bool-cases (right == 0)) [
  | inl e ↦ rw e ((1, omega arith), (0, ground (arith, e)))
  | inr e ↦
      let r =
        gcd_loop-divides fuel right (left % right)
          (omega (arith, h, mod-lt left {m = right} (ground (arith, e)))) in
      let g = gcd_loop fuel right (left % right) in
      rw e (
        subst (λ (n : ℕ). IsMultiple g n) (div-add-mod left right)
            (IsMultiple-add g _ _ (IsMultiple-mul g right (left / right) r.0) r.1),
        r.0,
      )
]

module _ {S : Type 0} where
  alignment_at-divides :
      (b : Buffer S) (p : PlaneLayout) (n : ℕ)
      → alignment_at b (some p) ≡ success n
      → IsMultiple n b.storage.address_alignment × IsMultiple n p.offset
  unfolding alignment_at greatest_common_divisor
  alignment_at-divides b p n h = elim (Bool-cases (b.storage.address_alignment == 0)) [
    | inl e ↦ absurd (ground (arith, e, h))
    | inr e ↦ elim (Bool-cases (p.offset == 0)) [
      | inl f ↦
          let k : b.storage.address_alignment ≡ n = ground (arith, e, f, h) in
          rw k ((1, omega arith), (0, ground (arith, f)))
      | inr f ↦
          let a = b.storage.address_alignment in
          let k : gcd_loop (suc p.offset) a p.offset ≡ n = ground (arith, e, f, h) in
          subst (λ (m : ℕ). IsMultiple m a × IsMultiple m p.offset) k
            (gcd_loop-divides (suc p.offset) a p.offset (omega arith))
    ]
  ]

  -- When the base address of the storage is a multiple of its alignment, the address of a plane,
  -- the base plus its offset, is a multiple of the alignment that the buffer promises for the
  -- plane.
  pub plane_alignment_holds :
      (b : Buffer S) (i : ℕ) (p : PlaneLayout) (n base : ℕ)
      → get_elem? b.planes i ≡ some p
      → plane_address_alignment b i ≡ success n
      → IsMultiple b.storage.address_alignment base
      → IsMultiple n (base + p.offset)
  unfolding plane_address_alignment
  plane_alignment_holds b i p n base e h m =
      let r = alignment_at-divides b p n (ap (alignment_at b) (sym e) ∙ h) in
      IsMultiple-add n base p.offset (IsMultiple-trans n b.storage.address_alignment base r.0 m) r.1
