-- ===== src/Media/Capability/Encoder/Direct.antt =====
-- What a `match` of an encoder capability of src/media/capability.cpp has found.
use eavp.Base.{◌≡◌, refl, Bool, true, false, Option, some, none, not, ◌&&◌, ◌||◌, ◌==◌, arith}
use eavp.Base.Int.{int_eq}
use eavp.Status.{is_ok, success, ok_after}
use eavp.Media.Codec.{codec_value, profile_value, rate_value}
use eavp.Media.Capability.{FormatMemoryDomain, contains, range_valid, format_valid}
use eavp.Media.Capability.Request.{VideoEncoderRequest}
use eavp.Media.Capability.Encoder.{
  VideoEncoderCapability, contains_value, input_entry, requires_explicit_conversion, match,
  match_format, match_coding, uses_zero_copy, actual_input_format,
}
use eavp.Media.Capability.Encoder.Stable.{actual-success_of}

module _ (c : VideoEncoderCapability) (r : VideoEncoderRequest) where
  -- The codec and its parameters are among those of the capability.
  pub record Codes : Type 0 where
    pub codec : not (codec_value r.config.codec == codec_value c.codec) ≡ false
    pub profile :
        not (contains_value (λ p. profile_value p == profile_value r.config.profile) c.profiles)
        ≡ false
    pub level : not (contains_value (λ l. int_eq l r.config.level_idc) c.levels) ≡ false
    pub rate :
        not (
          contains_value
            (λ m. rate_value m == rate_value r.config.rate_control)
            c.rate_control_modes)
        ≡ false
    pub copied : r.require_zero_copy && not c.zero_copy ≡ false
    pub direct : r.require_zero_copy && requires_explicit_conversion c r ≡ false

  match_coding-Codes : is_ok (match_coding c r) ≡ true → Codes
  unfolding match_coding
  match_coding-Codes h =
      let a = ok_after _ _ _ refl h in
      let b = ok_after _ _ _ refl a.1 in
      let d = ok_after _ _ _ refl b.1 in
      let e = ok_after _ _ _ refl d.1 in
      let f = ok_after _ _ _ refl e.1 in
      let g = ok_after _ _ _ refl f.1 in
      record { codec = a.0; profile = b.0; level = d.0; rate = e.0; copied = f.0; direct = g.0 }

  -- The capability has a format for that of the request.
  match_format-some :
      (fc : Option FormatMemoryDomain)
      → is_ok (match_format c r fc) ≡ true
      → (f : FormatMemoryDomain) × (fc ≡ some f) × (is_ok (match_coding c r) ≡ true)
  unfolding match_format
  match_format-some none h = absurd (ground (arith, h))
  match_format-some (some f) h =
      let a = ok_after (not (format_valid f)) _ _ refl h in (f, refl, a.1)

  -- The dimensions of the picture are those of the configuration.
  abbrev pub extents : Bool
  extents =
      not (int_eq r.input_format.width r.config.width)
      || not (int_eq r.input_format.height r.config.height)

  pub match-found :
      is_ok (match c r) ≡ true
      → (extents ≡ false)
        × (f : FormatMemoryDomain) × (input_entry c r.input_format ≡ some f)
        × Codes
  unfolding match
  match-found h =
      let a = ok_after (not (range_valid c.width) || not (range_valid c.height)) _ _ refl h in
      let b =
        ok_after (not (contains c.width r.config.width) || not (contains c.height r.config.height))
          _ _ refl a.1 in
      let d = ok_after extents _ _ refl b.1 in
      let (f, e, g) = match_format-some (input_entry c r.input_format) d.1 in
      (d.0, f, e, match_coding-Codes g)

  pub match-direct :
      r.require_zero_copy ≡ true
      → is_ok (match c r) ≡ true
      → (uses_zero_copy c r ≡ true)
        × (requires_explicit_conversion c r ≡ false)
        × (actual_input_format c r ≡ success r.input_format)
  unfolding uses_zero_copy
  match-direct z h =
      let (e, f, g, k) = match-found h in
      let y = k.copied in
      let n : requires_explicit_conversion c r ≡ false = let d = k.direct in ground (arith, z, d) in
      (ground (arith, z, y, n), n, actual-success_of c r h n)
