-- ===== src/Control/StateStore/Laws.antt =====
-- What `StateStore::set`, `erase` and `get` of src/control/state_store.cpp do to one another.
use eavp.Base.{
  Bool-cases, Option-cases, inl, inr, ◌+◌, ◌<◌, ◌^◌, ◌≡◌, ◌⊎◌, refl, Bool, true, String, Option,
  none, some, if◌then◌else◌, str_eq, eq_iff, arith, List, [], ◌∷◌, length, ◌≤◌, ◌↔◌, ap, ◌≢◌,
  eq_refl,
}
use eavp.Text.{is_absolute}
use eavp.StringMap.{find, find-insert, find-erase}
use eavp.Status.{ok_status, success, failure}
use eavp.Control.StateStore.{
  StateValue, value_type, double, not_found_status, StateStore, next_version, set, holds, value_eq,
  erase, erase_existing, get, of_bool, of_int64, of_double, of_string,
}

module _ {Double : Type 0} (double_eq : Double → Double → Bool) where
  -- The `==` of values is the equality of values, if that of doubles is.
  pub value_eq_sound :
      ((a b : Double) → double_eq a b ≡ true → a ≡ b)
      → (v w : StateValue Double) → value_eq double_eq v w ≡ true
      → v ≡ w
  unfolding value_eq
  value_eq_sound s (of_double a) (of_double b) h = ground (arith, s a b)
  value_eq_sound s (of_string a) (of_string b) h = ground (arith, eq_iff a b)
  value_eq_sound s (of_bool a) (of_bool b) h = ground arith
  value_eq_sound s (of_int64 a) (of_int64 b) h = ground arith
  value_eq_sound s _ _ h = ground arith

-- A change of the store, as a client calls for it.
pub data Change (Double : Type 0) : Type 0 where
  sets : String → StateValue Double → Change Double
  erases : String → Change Double

module _ {Double : Type 0} (double_eq : Double → Double → Bool) where
  pub apply : Change Double → StateStore Double → StateStore Double
  apply (sets k v) s = (set double_eq k v s).1
  apply (erases k) s = (erase k s).1

  pub apply_all : List (Change Double) → StateStore Double → StateStore Double
  apply_all [] s = s
  apply_all (c ∷ cs) s = apply_all cs (apply c s)

  set-cases :
      (k : String) (v : StateValue Double) (s : StateStore Double)
      → ((set double_eq k v s).1 ≡ s) ⊎ ((set double_eq k v s).1.version ≡ next_version s.version)
  unfolding set
  set-cases k v s = ground arith

  erase-cases :
      (k : String) (s : StateStore Double)
      → ((erase k s).1 ≡ s) ⊎ ((erase k s).1.version ≡ next_version s.version)
  unfolding erase
  erase-cases k s = ground arith

  apply-cases :
      (c : Change Double) (s : StateStore Double)
      → (apply c s ≡ s) ⊎ ((apply c s).version ≡ next_version s.version)
  unfolding apply
  apply-cases (sets k v) s = set-cases k v s
  apply-cases (erases k) s = erase-cases k s

  apply_all-bounds :
      (cs : List (Change Double)) (s : StateStore Double)
      → s.version + length cs < 2 ^ 64
      → (s.version ≤ (apply_all cs s).version)
        × ((apply_all cs s).version ≤ s.version + length cs)
        × ((apply_all cs s ≡ s) ⊎ (s.version < (apply_all cs s).version))
  unfolding apply_all
  apply_all-bounds [] s h = ground arith
  apply_all-bounds (c ∷ cs) s h = ground (arith, apply-cases c s, apply_all-bounds cs (apply c s))

  -- The version identifies the contents of a store across any sequence of changes that is too short
  -- to wrap the counter: it never falls, it grows by at most one for each change, and it is the
  -- same exactly when the whole store is the same.
  pub version_identifies :
      (cs : List (Change Double)) (s : StateStore Double)
      → s.version + length cs < 2 ^ 64
      → (s.version ≤ (apply_all cs s).version)
        × ((apply_all cs s).version ≤ s.version + length cs)
        × (((apply_all cs s).version ≡ s.version) ↔ (apply_all cs s ≡ s))
  version_identifies cs s h =
      let b = apply_all-bounds cs s h in
      (b.0, b.1, ((λ e. ground (arith, b)), λ e. ap (λ (t : StateStore Double). t.version) e))

  holds-eq :
      (o : Option (StateValue Double)) (v : StateValue Double)
      → value_type v ≢ double
      → holds double_eq o v ≡ true
      → o ≡ some v
  unfolding holds value_eq value_type
  holds-eq none v nd h = ground arith
  holds-eq (some (of_double a)) (of_double b) nd h = absurd (nd refl)
  holds-eq (some (of_string a)) (of_string b) nd h = ground (arith, eq_iff a b)
  holds-eq (some (of_bool a)) (of_bool b) nd h = ground arith
  holds-eq (some (of_int64 a)) (of_int64 b) nd h = ground arith
  holds-eq (some _) _ nd h = ground arith

  -- After `set` of a value that is no double under an absolute key, that key reads as the value and
  -- every other key as before.
  pub get-set :
      (k j : String) (v : StateValue Double) (s : StateStore Double)
      → is_absolute k ≡ true
      → value_type v ≢ double
      → ((set double_eq k v s).0 ≡ ok_status)
        × (get j (set double_eq k v s).1 ≡ (if str_eq j k then success v else get j s))
  unfolding set get
  get-set k j v s h nd =
      ground (arith, eq_iff j k, find-insert k j v s.values, holds-eq (find k s.values) v nd)

  -- Whatever the value, a double too, what is read back after `set` is the value that was stored or
  -- one that was there before and compares equal to it.
  pub get-set_self :
      (k : String) (v : StateValue Double) (s : StateStore Double)
      → is_absolute k ≡ true
      → (w : StateValue Double) × (get k (set double_eq k v s).1 ≡ success w)
        × ((w ≡ v) ⊎ ((get k s ≡ success w) × (value_eq double_eq w v ≡ true)))
  unfolding set get holds
  get-set_self k v s h = elim (Option-cases (find k s.values)) [
    | inl e ↦ (v, ground (arith, eq_refl k, find-insert k k v s.values), inl refl)
    | inr (w, e) ↦ elim (Bool-cases (value_eq double_eq w v)) [
      | inl q ↦ (w, ground arith, inr (ground arith, q))
      | inr q ↦ (v, ground (arith, eq_refl k, find-insert k k v s.values), inl refl)
    ]
  ]

  -- `erase` of an absolute key leaves no value under it, and every other key as it was.
  pub get-erase :
      (k j : String) (s : StateStore Double)
      → is_absolute k ≡ true
      → get j (erase k s).1 ≡ (if str_eq j k then failure not_found_status else get j s)
  unfolding get erase
  get-erase k j s h = ground (arith, eq_iff j k, find-erase k j s.values)

  -- After a text is set under an absolute key.
  pub get-set_string :
      (k j t : String) (s : StateStore Double)
      → is_absolute k ≡ true
      → ((set double_eq k (of_string t) s).0 ≡ ok_status)
        × (get j (set double_eq k (of_string t) s).1
            ≡ (if str_eq j k then success (of_string t) else get j s))
  unfolding value_type
  get-set_string k j t s h = get-set k j (of_string t) s h (λ e. ground (arith, e))

  pub erase-ok :
      (k : String) (s : StateStore Double) → is_absolute k ≡ true → (erase k s).0 ≡ ok_status
  unfolding erase erase_existing
  erase-ok k s h = ground (arith, h)

  -- A second `set` of the value that a first one stored changes nothing, the version included, if
  -- the value equals itself (a NaN does not).
  pub set-set :
      (k : String) (v : StateValue Double) (s : StateStore Double)
      → value_eq double_eq v v ≡ true
      → set double_eq k v (set double_eq k v s).1
        ≡ ((set double_eq k v s).0, (set double_eq k v s).1)
  unfolding set holds
  set-set k v s h = ground (arith, eq_refl k, find-insert k k v s.values)
