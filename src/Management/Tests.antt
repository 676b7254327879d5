-- ===== src/Management/Tests.antt =====
-- Runs of the managers of src/management on small examples.
use eavp.Base.{ℕ, ◌≤◌, ◌≡◌, refl, List, [], ◌∷◌, String, if◌then◌else◌, str_eq}
use eavp.Status.{ok_status, success}
use eavp.Management.Health.{
  HealthComponent, degraded, critical, rank, report, component, aggregate, worse, AtLeast,
  report_shows,
}
use eavp.Management.Metrics.{MetricRegistry}

abbrev components : List (String × HealthComponent)
components = ("audio", record { health = degraded; message = "late" }) ∷ []

report_shows_example :
    let r = report "video" critical "lost" components in
    (r.0 ≡ ok_status)
    × (component "audio" r.1 ≡ (
        if str_eq "audio" "video"
        then success (record { health = critical; message = "lost" })
        else component "audio" components))
    × (rank critical ≤ rank (aggregate r.1))
    × AtLeast (component "audio" r.1) (aggregate r.1)
    × (rank (aggregate r.1) ≤ worse (rank critical) (rank (aggregate components)))
report_shows_example = report_shows "video" "audio" "lost" critical components refl

abbrev registry : MetricRegistry ℕ
registry = record { counters = ("frames", 3) ∷ []; gauges = [] }

abbrev increments : List (String × ℕ)
increments = ("frames", 2) ∷ ("drops", 1) ∷ ("frames", 5) ∷ []
