-- ===== src/Management/Metrics.antt =====
-- include/eavp/management/metrics.hpp and src/management/metrics.cpp: counters and gauges by name.
-- Counters are of type `std::uint64_t`; the type of doubles is a parameter.
use eavp.Base.{
  ℕ, ◌+◌, ◌%◌, ◌^◌, ◌<◌, ◌≡◌, refl, ◌∙◌, inl, inr, false, String, List, [], ◌∷◌, Option, none, some,
  if◌then◌else◌, str_eq, eq_iff, Bool-cases, arith,
}
use eavp.StringMap.{find, insert, find-insert}
use eavp.Status.{Status, ok_status, status, invalid_argument, not_found, Result, success, failure}

-- `class MetricRegistry`.
pub record MetricRegistry (Double : Type 0) : Type 0 where
  pub counters : List (String × ℕ)
  pub gauges : List (String × Double)

-- The value of a counter that `counters_[name]` makes where there is none.
abbrev pub or_zero : Option ℕ → ℕ
or_zero none = 0
or_zero (some n) = n

-- The sum of the amounts for a name.
pub amount : String → List (String × ℕ) → ℕ
amount name [] = 0
amount name ((k, delta) ∷ ds) =
    let rest = amount name ds in if str_eq name k then delta + rest else rest

module _ {Double : Type 0} where
  -- `MetricRegistry::increment_counter`.
  pub increment_counter : String → ℕ → MetricRegistry Double → Status × MetricRegistry Double
  increment_counter name delta m =
      if str_eq name "" then (status invalid_argument "metric name must not be empty", m) else (
        ok_status,
        record m {
          counters = insert name ((or_zero (find name m.counters) + delta) % 2 ^ 64) m.counters;
        },
      )

  -- `MetricRegistry::set_gauge`.
  pub set_gauge : String → Double → MetricRegistry Double → Status × MetricRegistry Double
  set_gauge name value m =
      if str_eq name ""
      then (status invalid_argument "metric name must not be empty", m)
      else (ok_status, record m { gauges = insert name value m.gauges })

  -- `MetricRegistry::counter`.
  pub counter : String → MetricRegistry Double → Result ℕ
  counter name m = elim (find name m.counters) [
    | none ↦ failure (status not_found "counter was not found")
    | some n ↦ success n
  ]

  -- `MetricRegistry::gauge`.
  pub gauge : String → MetricRegistry Double → Result Double
  gauge name m = elim (find name m.gauges) [
    | none ↦ failure (status not_found "gauge was not found")
    | some d ↦ success d
  ]

  -- A sequence of increments, each of a name by an amount.
  pub increment_all : List (String × ℕ) → MetricRegistry Double → MetricRegistry Double
  increment_all [] m = m
  increment_all ((name, delta) ∷ ds) m = increment_all ds (increment_counter name delta m).1

  step-find :
      (k name : String) (delta : ℕ) (m : MetricRegistry Double)
      → str_eq name "" ≡ false
      → or_zero (find name (increment_counter k delta m).1.counters) ≡ (
          if str_eq name k
          then (or_zero (find name m.counters) + delta) % 2 ^ 64
          else or_zero (find name m.counters))
  unfolding increment_counter
  step-find k name delta m e = ground (
    arith,
    e,
    eq_iff name k,
    eq_iff k "",
    eq_iff name "",
    find-insert k name ((or_zero (find k m.counters) + delta) % 2 ^ 64) m.counters,
  )

  -- A counter with a name that is not empty holds the sum of its increments, modulo 2 ^ 64,
  -- whatever increments of other counters stand between them.
  pub counter_sums :
      (name : String) (ds : List (String × ℕ)) (m : MetricRegistry Double)
      → str_eq name "" ≡ false
      → or_zero (find name m.counters) < 2 ^ 64
      → or_zero (find name (increment_all ds m).counters)
        ≡ (or_zero (find name m.counters) + amount name ds) % 2 ^ 64
  unfolding increment_all amount
  counter_sums name [] m e b = omega (arith, b)
  counter_sums name ((k, delta) ∷ ds) m e b =
      let s = step-find k name delta m e in
      elim (Bool-cases (str_eq name k)) [
        | inl f ↦
            let t : or_zero (find name (increment_counter k delta m).1.counters)
                ≡ (or_zero (find name m.counters) + delta) % 2 ^ 64 =
              s ∙ rw f refl in
            rw f (
              omega (
                arith,
                t,
                counter_sums name ds (increment_counter k delta m).1 e (omega (arith, t)),
              ))
        | inr f ↦
            let t : or_zero (find name (increment_counter k delta m).1.counters)
                ≡ or_zero (find name m.counters) =
              s ∙ rw f refl in
            rw f (
              omega (
                arith,
                t,
                b,
                counter_sums name ds (increment_counter k delta m).1 e (omega (arith, t, b)),
              ))
      ]
