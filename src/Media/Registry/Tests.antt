-- ===== src/Media/Registry/Tests.antt =====
-- Runs of src/media/backend_registry.cpp with three providers: two offer the same encoder, and the
-- third is out of order. A provider is its id here.
use eavp.Base.{
  Bool-cases, ap, sym, ◌≡◌, refl, List, [], ◌∷◌, some, true, false, String, str_eq, ◌⊎◌, inl, inr,
  if◌then◌else◌,
}
use eavp.Status.{Status, status, device_lost, is_ok, success, failure, Result}
use eavp.Media.Node.{Outcome, returned}
use eavp.Media.Buffer.Mapped.{greatest_common_divisor}
use eavp.Media.VideoFormat
use eavp.Media.Capability.Encoder
use eavp.Media.Capability.{
  mismatch, range_valid, contains, format_valid, find_format, layout_matches, make_actual_format,
}
use eavp.Media.Capability.Samples.{provider, encode, packed, picture, aligned_planes, settings}
use eavp.Media.Capability.Provider.{
  ProviderCapability, encoder_kind, negotiate, provider_match, preference_score,
}
use eavp.Media.Codec.{VideoEncoderConfig}
use eavp.Media.Registry.{Registry, Candidate, Selection, select, register_provider}
use eavp.Media.Registry.Order.{IsIn, IsBest}
use eavp.Media.Registry.Best.{Polled, unprobed, select-IsBest, select_none}
use eavp.Media.Registry.Register.{Registers, register_outcome}

abbrev probe_board : String → Outcome (Result ProviderCapability)
probe_board id = returned (
    if str_eq id "lost"
    then failure (status device_lost "no device")
    else success (record provider { provider_id = id }))

abbrev boards : Registry String
boards = record {
  providers = ("left", "left") ∷ ("lost", "lost") ∷ ("right", "right") ∷ [];
  frozen = true;
}

abbrev chosen_board : Selection String VideoEncoderConfig
chosen_board = record {
  provider = "left";
  negotiation = record {
    provider_id = "left";
    config = settings;
    actual_format = picture aligned_planes;
    requires_explicit_conversion = true;
    zero_copy = false;
  };
}

chosen_left : select probe_board encoder_kind (encode packed false) boards ≡ success chosen_board
unfolding select provider_match preference_score negotiate Encoder.match Encoder.actual_input_format
    Encoder.requires_explicit_conversion Encoder.uses_zero_copy range_valid contains format_valid
    find_format layout_matches make_actual_format greatest_common_divisor VideoFormat.create
chosen_left = refl

select-IsBest_example :
    (os : List (Candidate String)) × (c : Candidate String) × Polled probe_board encoder_kind
      (encode packed false)
      boards.providers
      os
    × IsIn c os
    × IsBest c os
    × (c.provider ≡ "left")
    × (negotiate encoder_kind c.capability (encode packed false) ≡ success chosen_board.negotiation)
select-IsBest_example =
    select-IsBest probe_board encoder_kind (encode packed false) boards chosen_board refl
      chosen_left

abbrev lost_board : Registry String
lost_board = record { providers = ("lost", "lost") ∷ []; frozen = true }

select_none_example :
    (message : String) × (select probe_board encoder_kind (encode packed false) lost_board
      ≡ failure (mismatch message))
select_none_example =
    select_none probe_board encoder_kind (encode packed false) lost_board refl
      (unprobed (status device_lost "no device") refl, tt)

abbrev no_boards : Registry String
no_boards = record { providers = []; frozen = false }

lost_status :
    {s : Status}
    → ◌≡◌ {A = Outcome (Result ProviderCapability)}
        (returned (failure (status device_lost "no device")))
        (returned (failure s))
    → status device_lost "no device" ≡ s
lost_status h = cc

found_status :
    {c : ProviderCapability} {s : Status}
    → ¬ (
        ◌≡◌ {A = Outcome (Result ProviderCapability)} (returned (success c)) (returned (failure s)))
found_status h = cc

register_outcome_example :
    (is_ok (register_provider probe_board (some "left") no_boards).0 ≡ true)
      × Registers probe_board
          (some "left")
          no_boards
          (register_provider probe_board (some "left") no_boards).1
    ⊎ (is_ok (register_provider probe_board (some "left") no_boards).0 ≡ false)
      × ((register_provider probe_board (some "left") no_boards).1 ≡ no_boards)
register_outcome_example = register_outcome probe_board (some "left") no_boards fails
  where
    fails : (q : String) (s : Status) → probe_board q ≡ returned (failure s) → is_ok s ≡ false
    fails q s e = elim (Bool-cases (str_eq q "lost")) [
      | inl y ↦ ap (λ x. is_ok x) (sym (lost_status (rw y at e)))
      | inr n ↦ absurd (found_status (rw n at e))
    ]
