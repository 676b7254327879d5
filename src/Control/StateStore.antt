-- ===== src/Control/StateStore.antt =====
-- include/eavp/control/state_store.hpp and src/control/state_store.cpp: typed values under absolute
-- keys, with a version that counts the changes. Doubles are a parameter: their type and `==`.
pub mod Laws
mod Tests
use eavp.Base.{
  ℕ, ◌+◌, ◌%◌, ◌^◌, Bool, true, false, not, String, List, [], ◌∷◌, Option, none, some,
  if◌then◌else◌, ◌==◌, str_eq,
}
use eavp.Base.Int.{ℤ, pos, negsuc}
use eavp.Text.{is_absolute}
use eavp.StringMap.{find, insert, erase as erase_key}
use eavp.Status.{
  Status, ok_status, status, Result, success, failure, invalid_argument, invalid_state, not_found,
}

-- `enum class StateValueType`.
pub data StateValueType : Type 0 where
  bool int64 double string : StateValueType

-- `class StateValue`: the type tag with the field that it makes valid.
pub data StateValue (Double : Type 0) : Type 0 where
  of_bool : Bool → StateValue Double
  of_int64 : ℤ → StateValue Double
  of_double : Double → StateValue Double
  of_string : String → StateValue Double

abbrev pub type_error : Status
type_error = status invalid_state "state value has a different type"

module _ {Double : Type 0} where
  -- `StateValue::type`.
  pub value_type : StateValue Double → StateValueType
  value_type (of_bool b) = bool
  value_type (of_int64 n) = int64
  value_type (of_double d) = double
  value_type (of_string s) = string

  -- `StateValue::as_bool`.
  pub as_bool : StateValue Double → Result Bool
  as_bool (of_bool b) = success b
  as_bool _ = failure type_error

  -- `StateValue::as_int64`.
  pub as_int64 : StateValue Double → Result ℤ
  as_int64 (of_int64 n) = success n
  as_int64 _ = failure type_error

  -- `StateValue::as_double`.
  pub as_double : StateValue Double → Result Double
  as_double (of_double d) = success d
  as_double _ = failure type_error

  -- `StateValue::as_string`.
  unfoldable pub as_string : StateValue Double → Result String
  as_string (of_string s) = success s
  as_string _ = failure type_error

-- `==` of `bool` and of `std::int64_t`.
abbrev pub bool_eq : Bool → Bool → Bool
bool_eq true b = b
bool_eq false b = not b

abbrev pub int_eq : ℤ → ℤ → Bool
int_eq (pos a) (pos b) = a == b
int_eq (negsuc a) (negsuc b) = a == b
int_eq _ _ = false

-- `StateValue::operator==`, over the `==` of doubles.
pub value_eq :
    {Double : Type 0} → (Double → Double → Bool) → StateValue Double → StateValue Double → Bool
value_eq double_eq (of_bool a) (of_bool b) = bool_eq a b
value_eq double_eq (of_int64 a) (of_int64 b) = int_eq a b
value_eq double_eq (of_double a) (of_double b) = double_eq a b
value_eq double_eq (of_string a) (of_string b) = str_eq a b
value_eq double_eq _ _ = false

-- `class StateStore`; the version is a `std::uint64_t`.
pub record StateStore (Double : Type 0) : Type 0 where
  pub version : ℕ
  pub values : List (String × StateValue Double)

-- `++version_`.
abbrev pub next_version : ℕ → ℕ
next_version v = (v + 1) % 2 ^ 64

abbrev pub key_error : Status
key_error = status invalid_argument "state key must be an absolute path"

abbrev pub not_found_status : Status
not_found_status = status not_found "state key was not found"

module _ {Double : Type 0} where
  -- `StateStore::StateStore`.
  pub empty_store : StateStore Double
  empty_store = record { version = 0; values = [] }

  -- `existing != values_.end() && existing->second == value`.
  pub holds : (Double → Double → Bool) → Option (StateValue Double) → StateValue Double → Bool
  holds double_eq none v = false
  holds double_eq (some w) v = value_eq double_eq w v

  -- `StateStore::set`. Assigning to an entry and inserting one are one operation of the map.
  pub set :
      (Double → Double → Bool)
      → String
      → StateValue Double
      → StateStore Double
      → Status × StateStore Double
  set double_eq key v s =
      if is_absolute key
      then if holds double_eq (find key s.values) v then (ok_status, s) else (
        ok_status,
        record { version = next_version s.version; values = insert key v s.values },
      )
      else (key_error, s)

  -- The entry that `erase` found is removed, and the version counts it.
  pub erase_existing :
      Option (StateValue Double) → String → StateStore Double → Status × StateStore Double
  erase_existing none key s = (ok_status, s)
  erase_existing (some v) key s =
      (ok_status, record { version = next_version s.version; values = erase_key key s.values })

  -- `StateStore::erase`.
  pub erase : String → StateStore Double → Status × StateStore Double
  unfolding erase_existing
  erase key s = if is_absolute key then erase_existing (find key s.values) key s else (key_error, s)

  -- `StateStore::snapshot` copies the store, and `StateSnapshot::get` looks a key up in the copy.
  unfoldable pub get : String → StateStore Double → Result (StateValue Double)
  get key s = elim (find key s.values) [ none ↦ failure not_found_status | some v ↦ success v ]
