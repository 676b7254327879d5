-- ===== src/Time.antt =====
-- include/eavp/base/time.hpp: time bases.
use eavp.Base.{if◌then◌else◌}
use eavp.Base.Int.{ℤ, is_positive}
use eavp.Status.{Result, success, failure, status, invalid_argument}

-- `class TimeBase`.
pub record TimeBase : Type 0 where
  pub numerator : ℤ
  pub denominator : ℤ

-- `TimeBase::create`.
pub create : ℤ → ℤ → Result TimeBase
create n d =
    if is_positive d
    then success (record { numerator = n; denominator = d })
    else failure (status invalid_argument "time base denominator must be positive")
