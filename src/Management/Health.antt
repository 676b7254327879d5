-- ===== src/Management/Health.antt =====
-- include/eavp/management/health.hpp and src/management/health.cpp: the health of the components that
-- have reported, and the worst of it.
use eavp.Base.{
  ℕ, ◌≤◌, ◌≡◌, refl, ◌∙◌, eq_refl, inl, inr, false, String, List, [], ◌∷◌, none, some,
  if◌then◌else◌, str_eq, ltb, Bool-cases, Option-cases, All, if_both, arith,
}
use eavp.StringMap.{find, insert, find-insert, insert-All}
use eavp.Status.{Status, ok_status, status, invalid_argument, not_found, Result, success, failure}

-- `enum class HealthStatus`.
pub data HealthStatus : Type 0 where
  ok degraded error critical : HealthStatus

-- `static_cast<int>(status)`.
abbrev pub rank : HealthStatus → ℕ
rank ok = 0
rank degraded = 1
rank error = 2
rank critical = 3

-- `struct HealthComponent`.
pub record HealthComponent : Type 0 where
  pub health : HealthStatus
  pub message : String

-- `HealthManager::report`, on the map of a manager. Assigning to an entry and inserting one are one
-- operation of the map.
unfoldable pub report :
    String
    → HealthStatus
    → String
    → List (String × HealthComponent)
    → Status × List (String × HealthComponent)
report component health message cs =
    if str_eq component ""
    then (status invalid_argument "health component must not be empty", cs)
    else (ok_status, insert component (record { health = health; message = message }) cs)

-- `HealthManager::component`.
unfoldable pub component : String → List (String × HealthComponent) → Result HealthComponent
component name cs = elim (find name cs) [
  | none ↦ failure (status not_found "health component was not found")
  | some c ↦ success c
]

-- The loop of `HealthManager::aggregate`.
pub aggregate_from : HealthStatus → List (String × HealthComponent) → HealthStatus
aggregate_from worst [] = worst
aggregate_from worst ((name, c) ∷ cs) =
    let rest = aggregate_from worst cs in
    let next = aggregate_from c.health cs in if ltb (rank worst) (rank c.health) then next else rest

-- `HealthManager::aggregate`.
pub aggregate : List (String × HealthComponent) → HealthStatus
unfolding aggregate_from
aggregate cs = aggregate_from ok cs

aggregate_from-le :
    (worst : HealthStatus) (cs : List (String × HealthComponent))
    → rank worst ≤ rank (aggregate_from worst cs)
unfolding aggregate_from
aggregate_from-le worst [] = omega arith
aggregate_from-le worst ((n, c) ∷ cs) =
    ground (arith, aggregate_from-le worst cs, aggregate_from-le c.health cs)

aggregate_from-bound :
    (worst : HealthStatus) (name : String) (c : HealthComponent)
    (cs : List (String × HealthComponent))
    → find name cs ≡ some c
    → rank c.health ≤ rank (aggregate_from worst cs)
unfolding aggregate_from find
aggregate_from-bound worst name c [] e = absurd (ground (arith, e))
aggregate_from-bound worst name c ((n, d) ∷ cs) e = elim (Bool-cases (str_eq name n)) [
  | inl f ↦
      let k : d ≡ c = ground (arith, e, f) in
      ground (arith, k, aggregate_from-le worst cs, aggregate_from-le d.health cs)
  | inr f ↦ ground (
    arith,
    aggregate_from-bound worst name c cs (ground (arith, e, f)),
    aggregate_from-bound d.health name c cs (ground (arith, e, f)),
  )
]

-- The worse of two ranks.
abbrev pub worse : ℕ → ℕ → ℕ
worse m n = if ltb m n then n else m

aggregate_from-All :
    (worst : HealthStatus) (bound : ℕ) (cs : List (String × HealthComponent))
    → rank worst ≤ bound
    → All (λ e. rank e.1.health ≤ bound) cs
    → rank (aggregate_from worst cs) ≤ bound
unfolding aggregate_from
aggregate_from-All worst bound [] h a = h
aggregate_from-All worst bound ((n, c) ∷ cs) h (q, a) =
    if_both (λ (s : HealthStatus). rank s ≤ bound) (ltb (rank worst) (rank c.health))
      (λ _. aggregate_from-All c.health bound cs q a) (λ _. aggregate_from-All worst bound cs h a)

All-aggregate_from :
    (worst : HealthStatus) (bound : ℕ) (cs : List (String × HealthComponent))
    → rank (aggregate_from worst cs) ≤ bound
    → All (λ e. rank e.1.health ≤ bound) cs
unfolding aggregate_from
All-aggregate_from worst bound [] h = tt
All-aggregate_from worst bound ((n, c) ∷ cs) h =
    elim (Bool-cases (ltb (rank worst) (rank c.health))) [
      | inl e ↦
          let k : rank (aggregate_from c.health cs) ≤ bound = ground (arith, h, e) in
          (omega (arith, aggregate_from-le c.health cs, k), All-aggregate_from c.health bound cs k)
      | inr e ↦
          let k : rank (aggregate_from worst cs) ≤ bound = ground (arith, h, e) in
          (ground (arith, aggregate_from-le worst cs, k, e), All-aggregate_from worst bound cs k)
    ]

aggregate-insert :
    (k : String) (c : HealthComponent) (cs : List (String × HealthComponent))
    → rank (aggregate (insert k c cs)) ≤ worse (rank c.health) (rank (aggregate cs))
unfolding aggregate
aggregate-insert k c cs =
    let b = worse (rank c.health) (rank (aggregate_from ok cs)) in
    aggregate_from-All ok b (insert k c cs) (omega arith) (
      insert-All (λ (d : HealthComponent). rank d.health ≤ b) k c cs (ground arith)
        (All-aggregate_from ok b cs (ground arith)))

-- Whether a health is at least as bad as that of a component, when it is there.
pub AtLeast : Result HealthComponent → HealthStatus → Type 0
AtLeast (success c) h = rank c.health ≤ rank h
AtLeast (failure s) h = Unit {0}

aggregate-AtLeast :
    (name : String) (cs : List (String × HealthComponent))
    → AtLeast (component name cs) (aggregate cs)
unfolding AtLeast component aggregate
aggregate-AtLeast name cs = elim (Option-cases (find name cs)) [
  | inl e ↦ rw (e, AtLeast) tt
  | inr (c, e) ↦ rw (e, AtLeast) (aggregate_from-bound ok name c cs e)
]

-- A report under a name that is not empty returns ok; then that component reads as reported and
-- every other name reads as before, the aggregate is at least as bad as the reported health and as
-- the health of each component that is there, and it is no worse than the worse of the reported
-- health and the aggregate before.
pub report_shows :
    (k name message : String) (h : HealthStatus) (cs : List (String × HealthComponent))
    → str_eq k "" ≡ false
    → let r = report k h message cs in
      (r.0 ≡ ok_status)
      × (component name r.1 ≡ (
          if str_eq name k
          then success (record { health = h; message = message })
          else component name cs))
      × (rank h ≤ rank (aggregate r.1))
      × AtLeast (component name r.1) (aggregate r.1)
      × (rank (aggregate r.1) ≤ worse (rank h) (rank (aggregate cs)))
unfolding report component aggregate
report_shows k name message h cs e =
    let r : HealthComponent = record { health = h; message = message } in
    rw e (
      refl,
      ground (arith, find-insert k name r cs),
      aggregate_from-bound ok k r (insert k r cs) (find-insert k k r cs ∙ rw (eq_refl k) refl),
      aggregate-AtLeast name (insert k r cs),
      aggregate-insert k r cs,
    )
