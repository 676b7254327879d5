-- ===== src/Status.antt =====
-- include/eavp/base/status.hpp and result.hpp: status values, and results that hold a value or a failure.
use mathlib.Core.Bool.{false≢true}
use eavp.Base.{
  ℕ, Bool, true, false, not, String, if◌then◌else◌, ◌==◌, ◌≡◌, refl, sym, ◌∙◌, ◌⊎◌, inl, inr, arith,
  Bool-cases,
}
use eavp.Base.Int.{ℤ, pos}

-- `enum class StatusCode`.
pub data StatusCode : Type 0 where
  ok invalid_argument invalid_state not_found already_exists unsupported : StatusCode
  capability_mismatch resource_exhausted would_block timeout io_error : StatusCode
  internal end_of_stream device_lost corrupt_data : StatusCode

-- The value of the enumerator, from 0.
abbrev pub code_value : StatusCode → ℕ
code_value ok = 0
code_value invalid_argument = 1
code_value invalid_state = 2
code_value not_found = 3
code_value already_exists = 4
code_value unsupported = 5
code_value capability_mismatch = 6
code_value resource_exhausted = 7
code_value would_block = 8
code_value timeout = 9
code_value io_error = 10
code_value internal = 11
code_value end_of_stream = 12
code_value device_lost = 13
code_value corrupt_data = 14

-- `==` of two codes.
abbrev pub code_eq : StatusCode → StatusCode → Bool
code_eq a b = code_value a == code_value b

-- `class Status`, with its fields.
pub record Status : Type 0 where
  pub code : StatusCode
  pub message : String
  pub provider_id : String
  pub operation : String
  pub native_code : ℤ
  pub has_native_code : Bool

-- `Status(code, message)`.
abbrev pub status : StatusCode → String → Status
status c m = record {
  code = c;
  message = m;
  provider_id = "";
  operation = "";
  native_code = pos 0;
  has_native_code = false;
}

-- `Status(code, message, provider_id, operation, native_code)`.
abbrev pub native_status : StatusCode → String → String → String → ℤ → Status
native_status c m p o n = record {
  code = c;
  message = m;
  provider_id = p;
  operation = o;
  native_code = n;
  has_native_code = true;
}

-- `Status(code)`, whose message is empty.
abbrev pub bare_status : StatusCode → Status
bare_status c = status c ""

-- `Status::ok_status()`.
abbrev pub ok_status : Status
ok_status = bare_status ok

-- `Status::ok()`.
abbrev pub is_ok : Status → Bool
is_ok s = code_eq s.code ok

-- `s.code() == c`.
abbrev pub has_code : StatusCode → Status → Bool
has_code c s = code_eq s.code c

-- `Result<T>` as its clients use it: a value, or a failure and no value.
pub data Result {ℓ} (A : Type ℓ) : Type ℓ where
  success : A → Result A
  failure : Status → Result A

-- `explicit Result(const Status&)`: an ok status is no failure, and is replaced.
abbrev pub of_status {ℓ} : {A : Type ℓ} → Status → Result A
of_status s = failure (
    if is_ok s
    then status invalid_argument "a result without a value must contain a failure status"
    else s)

-- To split on a computed result and keep the equation.
pub Result-cases {ℓ} :
    {A : Type ℓ} (x : Result A) → ((s : Status) × (x ≡ failure s)) ⊎ ((a : A) × (x ≡ success a))
Result-cases (failure s) = inl (s, refl)
Result-cases (success a) = inr (a, refl)

pub success-eq {ℓ} : {A : Type ℓ} {a b : A} → success a ≡ success b → a ≡ b
success-eq h = cc

-- An ok status after a check that fails.
pub ok_after :
    (b : Bool) (t s : Status)
    → is_ok t ≡ false
    → is_ok (if b then t else s) ≡ true
    → (b ≡ false) × (is_ok s ≡ true)
ok_after true t s n h = absurd (false≢true (sym n ∙ h))
ok_after false t s n h = (refl, h)

-- An ok status after a status that is passed on unless it is ok.
pub ok_after_ok :
    (t s : Status)
    → is_ok (if not (is_ok t) then t else s) ≡ true
    → (is_ok t ≡ true) × (is_ok s ≡ true)
ok_after_ok t s h = elim (Bool-cases (is_ok t)) [
  | inl y ↦ (y, rw y at h)
  | inr n ↦ absurd (false≢true (sym n ∙ (rw n at h)))
]

-- A success after a check that fails.
pub success_after {ℓ} :
    {A : Type ℓ} (b : Bool) (s : Status) {r : Result A} {a : A}
    → (if b then failure s else r) ≡ success a
    → (b ≡ false) × (r ≡ success a)
success_after true s h = absurd (ground (arith, h))
success_after false s h = (refl, h)
