-- ===== src/Media/Capability/Provider.antt =====
-- `ProviderCapability` and `ProviderPreferenceScore` of src/media/capability.cpp. `match`, `negotiate`
-- and `preference_score` have an overload for processors and one for encoders that differ in the
-- capabilities alone: they are written once, over what a kind of capability has.
pub mod ZeroCopy
use Prim.Native.String.{compare}
use Prim.Native.Nat.{Ordering}
use eavp.Base.{
  ℕ, suc, ◌+◌, Bool, true, false, not, ◌&&◌, ◌||◌, List, [], ◌∷◌, Option, none, some, String,
  if◌then◌else◌, ◌==◌, ltb, str_eq, length,
}
use eavp.Base.Int.{ℤ}
use eavp.Status.{Status, ok_status, is_ok, Result, success, failure, of_status}
use eavp.Media.VideoFormat.{VideoFormat}
use eavp.Media.Codec.{VideoProcessorConfig, VideoEncoderConfig}
use eavp.Media.Capability.{mismatch}
use eavp.Media.Capability.Request.{
  ProviderKind, SelectionPreferences, VideoProcessorRequest, VideoEncoderRequest,
}
use eavp.Media.Capability.Processor
use eavp.Media.Capability.Processor.{VideoProcessorCapability}
use eavp.Media.Capability.Encoder
use eavp.Media.Capability.Encoder.{VideoEncoderCapability}

-- `class ProviderCapability`.
pub record ProviderCapability : Type 0 where
  pub provider_id : String
  pub implementation_version : String
  pub device_id : String
  pub availability_status : Status
  pub kind : ProviderKind
  pub processor_capabilities : List VideoProcessorCapability
  pub encoder_capabilities : List VideoEncoderCapability
  pub max_concurrent_instances : ℤ
  pub resource_constraints : List String

-- `struct VideoProcessorNegotiation` and `struct VideoEncoderNegotiation`.
pub record Negotiation (G : Type 0) : Type 0 where
  pub provider_id : String
  pub config : G
  pub actual_format : VideoFormat
  pub requires_explicit_conversion : Bool
  pub zero_copy : Bool

-- What the overloads differ in: requests `R`, capabilities `C`, actual values `F`, configurations `G`.
pub record CapabilityKind (R C F G : Type 0) : Type 0 where
  pub required_provider_id : R → String
  pub preferences : R → SelectionPreferences
  pub capabilities : ProviderCapability → List C
  pub match : C → R → Status
  pub actual : C → R → Result F
  pub requires_explicit_conversion : C → R → Bool
  pub uses_zero_copy : C → R → Bool
  pub config_of : R → F → G
  pub format_of : F → VideoFormat
  pub no_capability : String
  pub no_provider : String

abbrev pub processor_kind :
    CapabilityKind VideoProcessorRequest VideoProcessorCapability VideoProcessorConfig
      VideoProcessorConfig
processor_kind = record {
  required_provider_id = λ r. r.required_provider_id;
  preferences = λ r. r.preferences;
  capabilities = λ p. p.processor_capabilities;
  match = Processor.match;
  actual = Processor.negotiated_config;
  requires_explicit_conversion = Processor.requires_explicit_conversion;
  uses_zero_copy = Processor.uses_zero_copy;
  config_of = λ r g. g;
  format_of = λ g. g.output_format;
  no_capability = "provider has no video processor capability";
  no_provider = "no video processor provider matched: ";
}

abbrev pub encoder_kind :
    CapabilityKind VideoEncoderRequest VideoEncoderCapability VideoFormat VideoEncoderConfig
encoder_kind = record {
  required_provider_id = λ r. r.required_provider_id;
  preferences = λ r. r.preferences;
  capabilities = λ p. p.encoder_capabilities;
  match = Encoder.match;
  actual = Encoder.actual_input_format;
  requires_explicit_conversion = Encoder.requires_explicit_conversion;
  uses_zero_copy = Encoder.uses_zero_copy;
  config_of = λ r f. r.config;
  format_of = λ f. f;
  no_capability = "provider has no video encoder capability";
  no_provider = "no video encoder provider matched: ";
}

-- `preferred_provider_rank`, of fewer than 2 ^ 31 ids.
pub preferred_provider_rank : List String → String → ℕ
preferred_provider_rank [] id = 1
preferred_provider_rank (p ∷ ps) id =
    let rest = suc (preferred_provider_rank ps id) in if str_eq p id then 0 else rest

-- `provider_kind_rank`.
pub provider_kind_rank : ProviderKind → Bool → ℕ
provider_kind_rank kind false = 0
provider_kind_rank ProviderKind.hardware true = 0
provider_kind_rank ProviderKind.software true = 1
provider_kind_rank ProviderKind.reference true = 2

-- `class ProviderPreferenceScore`.
pub record ProviderPreferenceScore : Type 0 where
  pub provider_rank : ℕ
  pub kind_rank : ℕ
  pub zero_copy_rank : ℕ
  pub provider_id : String

-- `<` of texts.
abbrev pub text_lt : String → String → Bool
text_lt s t = elim (compare s t) [ Ordering.lt ↦ true | _ ↦ false ]

-- `ProviderPreferenceScore::operator<`.
unfoldable pub score_lt : ProviderPreferenceScore → ProviderPreferenceScore → Bool
score_lt a b =
    if not (a.provider_rank == b.provider_rank)
    then ltb a.provider_rank b.provider_rank
    else if not (a.kind_rank == b.kind_rank)
    then ltb a.kind_rank b.kind_rank
    else if not (a.zero_copy_rank == b.zero_copy_rank)
    then ltb a.zero_copy_rank b.zero_copy_rank
    else text_lt a.provider_id b.provider_id

-- `required_provider_status`.
pub required_provider_status : String → String → Status
required_provider_status id required =
    if not (str_eq required "") && not (str_eq required id)
    then mismatch "candidate is not the explicitly required provider"
    else ok_status

module _ {R C F G : Type 0} (k : CapabilityKind R C F G) where
  -- The loop of `match` after the first capability.
  match_rest : List C → R → Status → Status
  match_rest [] r first = first
  match_rest (c ∷ cs) r first =
      let rest = match_rest cs r first in if is_ok (k.match c r) then k.match c r else rest

  match_capabilities : List C → R → Status
  unfolding match_rest
  match_capabilities [] r = mismatch k.no_capability
  match_capabilities (c ∷ cs) r =
      if is_ok (k.match c r) then k.match c r else match_rest cs r (k.match c r)

  -- `ProviderCapability::match`.
  unfoldable pub provider_match : ProviderCapability → R → Status
  unfolding required_provider_status match_capabilities
  provider_match p r =
      let required = required_provider_status p.provider_id (k.required_provider_id r) in
      if not (is_ok required)
      then required
      else if not (is_ok p.availability_status)
      then p.availability_status
      else match_capabilities (k.capabilities p) r

  -- The capability that the loops of `negotiate` and `preference_score` stop at.
  pub first_match : List C → R → Option C
  first_match [] r = none
  first_match (c ∷ cs) r =
      let rest = first_match cs r in if is_ok (k.match c r) then some c else rest

  unfoldable pub negotiated : ProviderCapability → R → C → Result F → Result (Negotiation G)
  negotiated p r c (failure s) = of_status s
  negotiated p r c (success f) = success (record {
    provider_id = p.provider_id;
    config = k.config_of r f;
    actual_format = k.format_of f;
    requires_explicit_conversion = k.requires_explicit_conversion c r;
    zero_copy = k.uses_zero_copy c r;
  })

  negotiate_first : ProviderCapability → R → Option C → Result (Negotiation G)
  unfolding negotiated
  negotiate_first p r none = of_status (provider_match p r)
  negotiate_first p r (some c) = negotiated p r c (k.actual c r)

  -- `ProviderCapability::negotiate`.
  unfoldable pub negotiate : ProviderCapability → R → Result (Negotiation G)
  unfolding provider_match first_match negotiate_first
  negotiate p r =
      if not (is_ok (provider_match p r))
      then of_status (provider_match p r)
      else negotiate_first p r (first_match (k.capabilities p) r)

  score_of : ProviderCapability → R → C → ProviderPreferenceScore
  unfolding preferred_provider_rank provider_kind_rank
  score_of p r c =
      let preferences = k.preferences r in
      record {
        provider_rank = preferred_provider_rank preferences.preferred_provider_ids p.provider_id;
        kind_rank = provider_kind_rank p.kind preferences.prefer_hardware;
        zero_copy_rank =
            if preferences.prefer_zero_copy && not (k.uses_zero_copy c r) then 1 else 0;
        provider_id = p.provider_id;
      }

  score_first : ProviderCapability → R → Option C → Result ProviderPreferenceScore
  unfolding score_of
  score_first p r none = of_status (provider_match p r)
  score_first p r (some c) = success (score_of p r c)

  -- `ProviderCapability::preference_score`.
  unfoldable pub preference_score : ProviderCapability → R → Result ProviderPreferenceScore
  unfolding provider_match first_match score_first
  preference_score p r =
      if not (is_ok (provider_match p r))
      then of_status (provider_match p r)
      else score_first p r (first_match (k.capabilities p) r)
