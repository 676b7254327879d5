-- ===== src/Base/Int.antt =====
-- Signed integers over the native numbers, for the fixed-width fields of the program, with the tests
-- and the conversions that the program makes on them.
use Prim.Native.Nat.{ℕ, suc, ◌-◌, ◌+◌}
use mathlib.Core.Path.{◌≡◌, refl, ap}
use mathlib.Core.Bool.{Bool, true, false, false≢true}
use eavp.Base.Tests.{ltb, leb, ◌==◌, ==_iff}

-- `negsuc n` is -(n + 1).
pub data ℤ : Type 0 where
  pos : ℕ → ℤ
  negsuc : ℕ → ℤ

-- `z > 0`.
abbrev pub is_positive : ℤ → Bool
is_positive (pos n) = ltb 0 n
is_positive (negsuc n) = false

-- `z < 0`.
abbrev pub is_negative : ℤ → Bool
is_negative (pos n) = false
is_negative (negsuc n) = true

-- `a <= b`.
abbrev pub int_le : ℤ → ℤ → Bool
int_le (pos a) (pos b) = leb a b
int_le (pos a) (negsuc b) = false
int_le (negsuc a) (pos b) = true
int_le (negsuc a) (negsuc b) = leb b a

-- `a == b`.
abbrev pub int_eq : ℤ → ℤ → Bool
int_eq (pos a) (pos b) = a == b
int_eq (pos a) (negsuc b) = false
int_eq (negsuc a) (pos b) = false
int_eq (negsuc a) (negsuc b) = a == b

pub int_eq-eq : (a b : ℤ) → int_eq a b ≡ true → a ≡ b
int_eq-eq (pos a) (pos b) h = ap pos ((==_iff a b).0 h)
int_eq-eq (pos a) (negsuc b) h = absurd (false≢true h)
int_eq-eq (negsuc a) (pos b) h = absurd (false≢true h)
int_eq-eq (negsuc a) (negsuc b) h = ap negsuc ((==_iff a b).0 h)

pub int_eq_refl : (a : ℤ) → int_eq a a ≡ true
int_eq_refl (pos a) = (==_iff a a).1 refl
int_eq_refl (negsuc a) = (==_iff a a).1 refl

-- `static_cast<std::size_t>(z)`, for a `z` of at most 64 bits.
abbrev pub to_size : ℤ → ℕ
to_size (pos n) = n
to_size (negsuc n) = 18446744073709551615 - n

-- `a + b`, of non-negative integers and below.
abbrev pub int_add : ℤ → ℤ → ℤ
int_add (pos a) (pos b) = pos (a + b)
int_add (pos a) (negsuc b) = elim (ltb b a) [ true ↦ pos (a - suc b) | false ↦ negsuc (b - a) ]
int_add (negsuc a) (pos b) = elim (ltb a b) [ true ↦ pos (b - suc a) | false ↦ negsuc (a - b) ]
int_add (negsuc a) (negsuc b) = negsuc (suc (a + b))
