-- ===== src/Control/StateStore/Tests.antt =====
-- Runs of the state store of src/control/state_store.cpp on small examples.
use eavp.Base.{ℕ, ◌+◌, ◌≤◌, ◌≡◌, ◌↔◌, List, [], ◌∷◌, length, arith, ◌==◌}
use eavp.Control.StateStore.{of_string, of_int64, of_double, StateStore}
use eavp.Base.Int.{pos}
use eavp.Control.StateStore.Laws.{Change, sets, erases, apply_all, version_identifies}

abbrev store : StateStore ℕ
store = record { version = 4; values = ("/a", of_int64 (pos 1)) ∷ ("/b", of_double 2) ∷ [] }

abbrev changes : List (Change ℕ)
changes = sets "/a" (of_int64 (pos 2)) ∷ erases "/b" ∷ sets "c" (of_string "x") ∷ []

version_identifies_example :
    let t = apply_all ◌==◌ changes store in
    (4 ≤ t.version) × (t.version ≤ 4 + length changes) × ((t.version ≡ 4) ↔ (t ≡ store))
version_identifies_example = version_identifies ◌==◌ changes store (omega arith)
