-- ===== src/Media/Capability/Sizes.antt =====
-- The arithmetic on std::size_t of src/media/capability.cpp; `none` is a result that does not fit.
use eavp.Base.{ℕ, ◌+◌, ◌-◌, ◌*◌, ◌/◌, ◌%◌, Option, none, some, if◌then◌else◌, ◌==◌, ltb, not, ◌&&◌}
use eavp.Media.Buffer.Mapped.{greatest_common_divisor}
use eavp.Media.VideoFormat.{size_max}

infixl 5 ◌>>=◌
abbrev pub ◌>>=◌ {ℓ κ} : {A : Type ℓ} {B : Type κ} → Option A → (A → Option B) → Option B
none >>= f = none
some a >>= f = f a

-- `checked_add`.
unfoldable pub checked_add : ℕ → ℕ → Option ℕ
checked_add left right = if ltb (size_max - right) left then none else some (left + right)

-- `checked_multiply`.
unfoldable pub checked_multiply : ℕ → ℕ → Option ℕ
checked_multiply left right =
    if not (left == 0) && ltb (size_max / left) right then none else some (left * right)

-- `align_up`.
unfoldable pub align_up : ℕ → ℕ → Option ℕ
unfolding checked_add
align_up value alignment =
    if alignment == 0
    then none
    else if value % alignment == 0
    then some value
    else checked_add value (alignment - value % alignment)

-- `least_common_multiple`; `greatest_common_divisor` is that of src/media/buffer.cpp.
unfoldable pub least_common_multiple : ℕ → ℕ → Option ℕ
unfolding checked_multiply
least_common_multiple left right =
    let divisor = greatest_common_divisor left right in
    if divisor == 0 then none else checked_multiply (left / divisor) right
