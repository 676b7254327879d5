-- ===== src/Media/Capability/Processor/Direct.antt =====
-- What a `match` of a processor capability of src/media/capability.cpp has found.
use eavp.Media.Codec.{VideoProcessorConfig}
use eavp.Media.Capability.Encoder.{contains_value}
use eavp.Base.{
  List, [], ◌∷◌, ◌≡◌, refl, true, false, Bool, Option, none, some, not, ◌&&◌, ◌||◌, arith,
}
use eavp.Status.{is_ok, success, ok_after, ok_after_ok}
use eavp.Media.Capability.{FormatMemoryDomain, contains, range_valid, format_valid}
use eavp.Media.Capability.Request.{VideoProcessorRequest, VideoProcessingOperation}
use eavp.Media.Capability.Processor.{
  VideoProcessorCapability, input_entry, output_entry, requires_explicit_conversion, match,
  match_operations, match_formats, check_each, check_operation, requires_operation, check_inferred,
  inferred_operations, same_video_format, uses_zero_copy, negotiated_config,
}

-- A configuration needs no operation when the capability has none.
pub check_inferred-none :
    (g : VideoProcessorConfig) (o : VideoProcessingOperation) (os : List VideoProcessingOperation)
    → is_ok (check_inferred g [] (o ∷ os)) ≡ true
    → (requires_operation g o ≡ false) × (is_ok (check_inferred g [] os) ≡ true)
unfolding check_inferred check_operation contains_value
check_inferred-none g o os h =
    let a = ok_after (requires_operation g o && true) _ (check_inferred g [] os) refl h in
    (ground (arith, a), a.1)

module _ (c : VideoProcessorCapability) (r : VideoProcessorRequest) where
  -- The capability has the operations that the configuration needs, and a conversion only without
  -- zero copy.
  pub record Served : Type 0 where
    pub inferred : is_ok (check_inferred r.config c.operations inferred_operations) ≡ true
    pub copied : r.require_zero_copy && not c.zero_copy ≡ false
    pub direct : r.require_zero_copy && requires_explicit_conversion c r ≡ false

  match_operations-Served : is_ok (match_operations c r) ≡ true → Served
  unfolding match_operations
  match_operations-Served h =
      let a = ok_after_ok (check_each c.operations r.required_operations) _ h in
      let b = ok_after_ok (check_inferred r.config c.operations inferred_operations) _ a.1 in
      let d = ok_after _ _ _ refl b.1 in
      let e = ok_after _ _ _ refl d.1 in record { inferred = b.0; copied = d.0; direct = e.0 }

  match_formats-some :
      (fi fo : Option FormatMemoryDomain)
      → is_ok (match_formats c r fi fo) ≡ true
      → (i : FormatMemoryDomain) × (o : FormatMemoryDomain) × (fi ≡ some i)
        × (fo ≡ some o)
        × (is_ok (match_operations c r) ≡ true)
  unfolding match_formats
  match_formats-some none fo h = absurd (ground (arith, h))
  match_formats-some (some i) none h = absurd (ground (arith, h))
  match_formats-some (some i) (some o) h =
      let a = ok_after (not (format_valid i) || not (format_valid o)) _ _ refl h in
      (i, o, refl, refl, a.1)

  -- A capability that wants equal formats was given different ones.
  abbrev pub formats_differ : Bool
  formats_differ =
      c.requires_identical_formats
      && not (same_video_format r.config.input_format r.config.output_format)

  pub match-found :
      is_ok (match c r) ≡ true
      → (formats_differ ≡ false)
        × (i : FormatMemoryDomain) × (o : FormatMemoryDomain) × (input_entry c r.config.input_format
            ≡ some i)
        × (output_entry c r.config.output_format ≡ some o)
        × Served
  unfolding match
  match-found h =
      let a =
        ok_after
          (not (range_valid c.input_width)
            || not (range_valid c.input_height)
            || not (range_valid c.output_width)
            || not (range_valid c.output_height))
          _ _ refl h in
      let b = ok_after formats_differ _ _ refl a.1 in
      let d =
        ok_after
          (not (contains c.input_width r.config.input_format.width)
            || not (contains c.input_height r.config.input_format.height))
          _ _ refl b.1 in
      let e =
        ok_after
          (not (contains c.output_width r.config.output_format.width)
            || not (contains c.output_height r.config.output_format.height))
          _ _ refl d.1 in
      let (i, o, fi, fo, m) =
        match_formats-some (input_entry c r.config.input_format)
          (output_entry c r.config.output_format) e.1 in
      (b.0, i, o, fi, fo, match_operations-Served m)

  pub match-direct :
      r.require_zero_copy ≡ true
      → is_ok (match c r) ≡ true
      → (uses_zero_copy c r ≡ true)
        × (requires_explicit_conversion c r ≡ false)
        × (negotiated_config c r ≡ success r.config)
  unfolding negotiated_config uses_zero_copy
  match-direct z h =
      let (x, i, o, fi, fo, s) = match-found h in
      let y = s.copied in
      let n : requires_explicit_conversion c r ≡ false = let d = s.direct in ground (arith, z, d) in
      (ground (arith, z, y, n), n, ground (arith, h, n))
