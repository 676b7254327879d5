-- ===== src/Media/Registry/Register.antt =====
-- What a registration of src/media/backend_registry.cpp changes.
use eavp.Base.{
  ◌≡◌, refl, true, false, Option, none, some, String, str_eq, Bool, Bool-cases, inl, inr, ◌⊎◌,
  if◌then◌else◌,
}
use eavp.StringMap.{find, find-insert}
use eavp.Status.{is_ok, Status, status, invalid_state, Result, success, failure}
use eavp.Media.Node.{Outcome, returned, thrown, bad_alloc, other}
use eavp.Media.Capability.Provider.{ProviderCapability}
use eavp.Media.Registry.{Registry, add_new, add_probed, add_provider, register_provider}

-- A registration of the provider `p` under the id that it reports, which was free.
pub record Registers {P : Type 0} (probe : P → Outcome (Result ProviderCapability)) (p : Option P)
    (before after : Registry P) : Type 0 where
  pub was_open : before.frozen ≡ false
  pub provider : P
  pub capability : ProviderCapability
  pub itself : p ≡ some provider
  pub probed : probe provider ≡ returned (success capability)
  pub named : str_eq capability.provider_id "" ≡ false
  pub free : find capability.provider_id before.providers ≡ none
  pub stays_open : after.frozen ≡ false
  pub found :
      (id : String)
      → find id after.providers
        ≡ (if str_eq id capability.provider_id then some provider else find id before.providers)

module _ {P : Type 0} (probe : P → Outcome (Result ProviderCapability)) where
  -- What a registration comes to: an entry more, or an unchanged registry and a status that is not ok.
  Registered : Option P → Registry P → Status × Registry P → Type 0
  Registered p before (st, after) =
      (is_ok st ≡ true) × Registers probe p before after ⊎ (is_ok st ≡ false) × (after ≡ before)

  add_new-Registered :
      (p : P) (reg : Registry P) (c : ProviderCapability) (old : Option P)
      → reg.frozen ≡ false
      → probe p ≡ returned (success c)
      → str_eq c.provider_id "" ≡ false
      → find c.provider_id reg.providers ≡ old
      → Registered (some p) reg (add_new probe c.provider_id p reg old)
  unfolding add_new Registered
  add_new-Registered p reg c (some q) w e n f = inr (refl, refl)
  add_new-Registered p reg c none w e n f = inl (
    refl,
    record {
      was_open = w;
      provider = p;
      capability = c;
      itself = refl;
      probed = e;
      named = n;
      free = f;
      stays_open = w;
      found = λ id. find-insert c.provider_id id p reg.providers;
    },
  )

  -- The status that a probe fails with is not ok.
  Fails : Outcome (Result ProviderCapability) → Type 0
  Fails (returned (failure s)) = is_ok s ≡ false
  Fails _ = Unit

  add_probed-Registered :
      (p : P) (reg : Registry P) (o : Outcome (Result ProviderCapability))
      → reg.frozen ≡ false
      → Fails o
      → probe p ≡ o
      → Registered (some p) reg (add_probed probe p reg o)
  unfolding add_probed Registered Fails
  add_probed-Registered p reg (thrown bad_alloc) w s e = inr (refl, refl)
  add_probed-Registered p reg (thrown other) w s e = inr (refl, refl)
  add_probed-Registered p reg (returned (failure st)) w s e = inr (s, refl)
  add_probed-Registered p reg (returned (success c)) w s e =
      elim (Bool-cases (str_eq c.provider_id "")) [
        | inl y ↦ rw y (inr (refl, refl))
        | inr n ↦ rw n (add_new-Registered p reg c (find c.provider_id reg.providers) w e n refl)
      ]

  add_provider-Registered :
      (p : Option P) (reg : Registry P)
      → reg.frozen ≡ false
      → ((q : P) (s : Status) → probe q ≡ returned (failure s) → is_ok s ≡ false)
      → Registered p reg (add_provider probe p reg)
  unfolding add_provider Registered Fails
  add_provider-Registered none reg w f = inr (refl, refl)
  add_provider-Registered (some p) reg w f =
      add_probed-Registered p reg (probe p) w (fails (probe p) refl) refl
    where
      fails : (o : Outcome (Result ProviderCapability)) → probe p ≡ o → Fails o
      fails (returned (failure s)) e = f p s e
      fails (returned (success c)) e = tt
      fails (thrown x) e = tt

  -- When a probe that fails reports a status that is not ok, a registration either returns ok, and
  -- then the registry was open, the provider is not null, could be probed and reports an id that is
  -- not empty and was free, the registry stays open and a lookup finds the provider under this id and
  -- what it found before under every other; or it returns a status that is not ok, and the registry
  -- is as it was.
  pub register_outcome :
      (p : Option P) (reg : Registry P)
      → ((q : P) (s : Status) → probe q ≡ returned (failure s) → is_ok s ≡ false)
      → (is_ok (register_provider probe p reg).0 ≡ true)
          × Registers probe p reg (register_provider probe p reg).1
        ⊎ (is_ok (register_provider probe p reg).0 ≡ false)
          × ((register_provider probe p reg).1 ≡ reg)
  unfolding register_provider Registered
  register_outcome p reg f = guarded reg.frozen refl
    where
      guarded :
          (b : Bool)
          → reg.frozen ≡ b
          → Registered p reg (
              if b
              then (status invalid_state "backend registry is frozen", reg)
              else add_provider probe p reg)
      guarded true e = inr (refl, refl)
      guarded false e = add_provider-Registered p reg e f
