-- ===== src/Media/Registry.antt =====
-- include/eavp/media/backend_registry.hpp and src/media/backend_registry.cpp: the registry of the
-- providers of backends. A provider is code of a subclass of MediaBackendProvider, a `P` here, and
-- `probe` is a parameter: what a provider reports at the time of the call. The two overloads of the
-- selection are written once, over the kind of the capabilities.
pub mod Order
pub mod Best
pub mod Register
mod Tests
use Prim.Native.String.{◌++◌}
use mathlib.Core.List
use eavp.Base.{
  Bool, true, false, not, List, [], ◌∷◌, Option, none, some, String, if◌then◌else◌, str_eq,
}
use eavp.StringMap.{find, insert}
use eavp.Status.{
  Status, ok_status, status, bare_status, invalid_state, invalid_argument, already_exists,
  not_found, resource_exhausted, internal, is_ok, Result, success, failure, of_status,
}
use eavp.Media.Node.{Exception, bad_alloc, other, Outcome, returned, thrown}
use eavp.Media.Capability.{mismatch}
use eavp.Media.Capability.Provider.{
  ProviderCapability, ProviderPreferenceScore, Negotiation, CapabilityKind, score_lt,
  provider_match, negotiate, preference_score,
}

-- The catch clauses: `allocation_failure()` and `internal_failure()`.
abbrev pub caught : Exception → Status
caught bad_alloc = bare_status resource_exhausted
caught other = bare_status internal

-- `class BackendRegistry`.
pub record Registry (P : Type 0) : Type 0 where
  pub providers : List (String × P)
  pub frozen : Bool

-- `struct ProcessorCandidate` and `struct EncoderCandidate`.
pub record Candidate (P : Type 0) : Type 0 where
  pub provider : P
  pub capability : ProviderCapability
  pub score : ProviderPreferenceScore

-- `struct ProcessorSelection` and `struct EncoderSelection`.
pub record Selection (P G : Type 0) : Type 0 where
  pub provider : P
  pub negotiation : Negotiation G

-- `rejection_message`.
pub rejection_message : String → Status → String
rejection_message id s =
    (id ++ ": ") ++ (if str_eq s.message "" then "provider rejected request" else s.message)

-- `append_rejection`.
pub append_rejection : String → String → Status → String
unfolding rejection_message
append_rejection aggregate id s =
    (if str_eq aggregate "" then aggregate else aggregate ++ "; ") ++ rejection_message id s

module _ {P : Type 0} (probe : P → Outcome (Result ProviderCapability)) where
  add_new : String → P → Registry P → Option P → Status × Registry P
  add_new id p reg (some q) =
      (status already_exists "backend provider id is already registered", reg)
  add_new id p reg none = (ok_status, record reg { providers = insert id p reg.providers })

  add_probed : P → Registry P → Outcome (Result ProviderCapability) → Status × Registry P
  unfolding add_new
  add_probed p reg (thrown e) = (caught e, reg)
  add_probed p reg (returned (failure s)) = (s, reg)
  add_probed p reg (returned (success c)) =
      if str_eq c.provider_id ""
      then (status invalid_argument "backend provider id must not be empty", reg)
      else add_new c.provider_id p reg (find c.provider_id reg.providers)

  add_provider : Option P → Registry P → Status × Registry P
  unfolding add_probed
  add_provider none reg = (status invalid_argument "backend provider must not be null", reg)
  add_provider (some p) reg = add_probed p reg (probe p)

  -- `BackendRegistry::register_provider`; `none` is a null provider.
  unfoldable pub register_provider : Option P → Registry P → Status × Registry P
  unfolding add_provider
  register_provider p reg =
      if reg.frozen
      then (status invalid_state "backend registry is frozen", reg)
      else add_provider p reg

-- `BackendRegistry::freeze`.
pub freeze : {P : Type 0} → Registry P → Status × Registry P
freeze reg = (ok_status, record reg { frozen = true })

module _ {P : Type 0} where
  -- `std::sort` by the scores. Candidates of equal scores may come in any order; here the later one
  -- of the list comes first.
  insert_sorted : Candidate P → List (Candidate P) → List (Candidate P)
  unfolding score_lt
  insert_sorted c [] = c ∷ []
  insert_sorted c (d ∷ ds) =
      let rest = d ∷ insert_sorted c ds in if score_lt c.score d.score then c ∷ d ∷ ds else rest

  pub sort : List (Candidate P) → List (Candidate P)
  unfolding insert_sorted
  sort [] = []
  sort (c ∷ cs) = insert_sorted c (sort cs)

chosen : {P G : Type 0} → P → Result (Negotiation G) → Result (Selection P G)
chosen p (failure s) = of_status s
chosen p (success n) = success (record { provider = p; negotiation = n })

module _ {P R C F G : Type 0} where
  module _ (probe : P → Outcome (Result ProviderCapability)) (k : CapabilityKind R C F G)
      (r : R) where
    -- The required provider, as it was probed.
    required_probed : P → Outcome (Result ProviderCapability) → Result (Selection P G)
    unfolding chosen
    required_probed p (thrown e) = failure (caught e)
    required_probed p (returned (failure s)) = of_status s
    required_probed p (returned (success c)) =
        if not (is_ok (provider_match k c r))
        then of_status (provider_match k c r)
        else chosen p (negotiate k c r)

    required : Option P → Result (Selection P G)
    unfolding required_probed
    required none = failure (
        status not_found
          ("required backend provider is not registered: " ++ k.required_provider_id r))
    required (some p) = required_probed p (probe p)

    -- One round of the loop over the providers; a failure is a return out of it.
    scored :
        P
        → ProviderCapability
        → List (Candidate P)
        → String
        → Result ProviderPreferenceScore
        → Result (List (Candidate P) × String)
    scored p c cs text (failure s) = of_status s
    scored p c cs text (success score) =
        success (List.◌++◌ cs (record { provider = p; capability = c; score = score } ∷ []), text)

    visit :
        String
        → P
        → Outcome (Result ProviderCapability)
        → List (Candidate P)
        → String
        → Result (List (Candidate P) × String)
    unfolding scored append_rejection
    visit id p (thrown e) cs text = failure (caught e)
    visit id p (returned (failure s)) cs text = success (cs, append_rejection text id s)
    visit id p (returned (success c)) cs text =
        if not (is_ok (provider_match k c r))
        then success (cs, append_rejection text id (provider_match k c r))
        else scored p c cs text (preference_score k c r)

    -- The loop over the providers, with the candidates and the rejections so far.
    gather : List (String × P) → List (Candidate P) → String → Result (List (Candidate P) × String)
    unfolding visit
    gather [] cs text = success (cs, text)
    gather ((id, p) ∷ m) cs text = elim (visit id p (probe p) cs text) [
      | failure s ↦ failure s
      | success (ds, t) ↦ gather m ds t
    ]

    -- `candidates[0]`; the sorted list of a list that is not empty is not empty.
    best_of : List (Candidate P) → Result (Selection P G)
    unfolding chosen
    best_of [] = failure (bare_status internal)
    best_of (c ∷ cs) = chosen c.provider (negotiate k c.capability r)

    choose : List (Candidate P) → String → Result (Selection P G)
    unfolding best_of sort
    choose [] text = failure (
        mismatch (
          k.no_provider
          ++ (if str_eq text "" then "no backend providers are registered" else text)))
    choose (c ∷ cs) text = best_of (sort (c ∷ cs))

    after_gather : Result (List (Candidate P) × String) → Result (Selection P G)
    unfolding choose
    after_gather (failure s) = failure s
    after_gather (success (cs, text)) = choose cs text

    -- `BackendRegistry::select_video_processor` and `BackendRegistry::select_video_encoder`.
    unfoldable pub select : Registry P → Result (Selection P G)
    unfolding required after_gather gather
    select reg =
        if not (str_eq (k.required_provider_id r) "")
        then required (find (k.required_provider_id r) reg.providers)
        else after_gather (gather reg.providers [] "")
