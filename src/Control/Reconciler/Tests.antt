-- ===== src/Control/Reconciler/Tests.antt =====
-- A run of the reconciler of src/control/pipeline_reconciler.cpp on a small example.
use eavp.Base.{ℕ, refl, [], ◌∷◌, ◌==◌}
use eavp.StringMap.{find}
use eavp.Status.{ok_status}
use eavp.Media.Node.{Hooks, returned}
use eavp.Media.Pipeline.{new_pipeline}
use eavp.Control.StateStore.{StateStore, of_string, get}
use eavp.Control.Reconciler.{reconcile}
use eavp.Control.Reconciler.Called.{Called}
use eavp.Control.Reconciler.Shows.{Shown, reconcile_shows}

abbrev device : Hooks Unit
device = record {
  on_prepare = λ s. (returned ok_status, s);
  on_start = λ s. (returned ok_status, s);
  on_stop = λ s. (returned ok_status, s);
  on_reset = λ s. (returned ok_status, s);
  on_tick = λ s. (returned ok_status, s);
}

abbrev desired : StateStore ℕ
desired = record { version = 1; values = ("/pipelines/cam/state", of_string "running") ∷ [] }

abbrev actual : StateStore ℕ
actual = record { version = 0; values = [] }

reconcile_shows_example :
    let r = reconcile ◌==◌ device desired (new_pipeline "cam") actual in
    Called ◌==◌ device "running" (new_pipeline "cam") actual r
    × Shown ◌==◌ device "cam" "running" actual r
unfolding new_pipeline get find
reconcile_shows_example =
    reconcile_shows ◌==◌ device "running" desired (new_pipeline "cam") actual refl refl
