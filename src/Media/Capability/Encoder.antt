-- ===== src/Media/Capability/Encoder.antt =====
-- `VideoEncoderCapability` of src/media/capability.cpp.
pub mod Direct
pub mod Stable
use eavp.Base.{
  Bool, true, false, not, ◌&&◌, ◌||◌, List, [], ◌∷◌, Option, none, some, if◌then◌else◌, ◌==◌,
}
use eavp.Base.Int.{ℤ, int_eq}
use eavp.Status.{Status, ok_status, is_ok, Result, success, of_status}
use eavp.Media.VideoFormat.{VideoFormat}
use eavp.Media.Codec.{
  CodecId, CodecProfile, RateControlMode, codec_value, profile_value, rate_value,
}
use eavp.Media.Capability.{
  DimensionRange, FormatMemoryDomain, range_valid, contains, format_valid, find_format,
  layout_matches, make_actual_format, mismatch,
}
use eavp.Media.Capability.Request.{VideoEncoderRequest}

-- `class VideoEncoderCapability`.
pub record VideoEncoderCapability : Type 0 where
  pub width : DimensionRange
  pub height : DimensionRange
  pub codec : CodecId
  pub profiles : List CodecProfile
  pub levels : List ℤ
  pub input_formats : List FormatMemoryDomain
  pub rate_control_modes : List RateControlMode
  pub zero_copy : Bool

-- `contains_value`, with the test that `==` stands for.
unfoldable pub contains_value {ℓ} : {A : Type ℓ} → (A → Bool) → List A → Bool
contains_value is_value [] = false
contains_value is_value (x ∷ xs) = is_value x || contains_value is_value xs

-- The entry of the capability for the format of the request.
abbrev pub input_entry : VideoEncoderCapability → VideoFormat → Option FormatMemoryDomain
input_entry c f = find_format c.input_formats f.pixel_format f.memory_domain

conversion_of : VideoEncoderCapability → VideoEncoderRequest → Option FormatMemoryDomain → Bool
conversion_of c r none = true
conversion_of c r (some fc) =
    not (layout_matches r.input_format fc c.width c.height r.input_address_alignment)

-- `VideoEncoderCapability::requires_explicit_conversion`.
unfoldable pub requires_explicit_conversion : VideoEncoderCapability → VideoEncoderRequest → Bool
unfolding conversion_of
requires_explicit_conversion c r = conversion_of c r (input_entry c r.input_format)

-- `VideoEncoderCapability::uses_zero_copy`.
unfoldable pub uses_zero_copy : VideoEncoderCapability → VideoEncoderRequest → Bool
uses_zero_copy c r = c.zero_copy && not (requires_explicit_conversion c r)

-- The tests of `match` after the format is found valid.
match_coding : VideoEncoderCapability → VideoEncoderRequest → Status
unfolding contains_value
match_coding c r =
    if not (codec_value r.config.codec == codec_value c.codec)
    then mismatch "video encoder codec is unsupported"
    else if not (contains_value (λ p. profile_value p == profile_value r.config.profile) c.profiles)
    then mismatch "video encoder codec/profile combination is unsupported"
    else if not (contains_value (λ l. int_eq l r.config.level_idc) c.levels)
    then mismatch "video encoder level is unsupported"
    else if not (
        contains_value (λ m. rate_value m == rate_value r.config.rate_control) c.rate_control_modes)
    then mismatch "video encoder rate control mode is unsupported"
    else if r.require_zero_copy && not c.zero_copy
    then mismatch "video encoder does not support required zero-copy"
    else if r.require_zero_copy && requires_explicit_conversion c r
    then mismatch
        "required zero-copy video encoder plane layout or address alignment is unsupported"
    else ok_status

match_format : VideoEncoderCapability → VideoEncoderRequest → Option FormatMemoryDomain → Status
unfolding match_coding
match_format c r none = mismatch "video encoder input pixel format or memory domain is unsupported"
match_format c r (some fc) =
    if not (format_valid fc)
    then mismatch "video encoder capability has invalid plane layout constraints"
    else match_coding c r

-- `VideoEncoderCapability::match`.
unfoldable pub match : VideoEncoderCapability → VideoEncoderRequest → Status
unfolding match_format
match c r =
    if not (range_valid c.width) || not (range_valid c.height)
    then mismatch "video encoder capability has an invalid dimension range"
    else if not (contains c.width r.config.width) || not (contains c.height r.config.height)
    then mismatch "video encoder dimensions are outside capability"
    else if not (int_eq r.input_format.width r.config.width)
        || not (int_eq r.input_format.height r.config.height)
    then mismatch "video encoder input dimensions do not match required configuration"
    else match_format c r (input_entry c r.input_format)

made_input :
    VideoEncoderCapability → VideoEncoderRequest → Option FormatMemoryDomain → Result VideoFormat
made_input c r none = of_status (match c r)
made_input c r (some fc) = make_actual_format r.input_format fc c.width c.height

-- `VideoEncoderCapability::actual_input_format`; after a match the entry of the format is not null.
unfoldable pub actual_input_format :
    VideoEncoderCapability → VideoEncoderRequest → Result VideoFormat
unfolding made_input
actual_input_format c r =
    if not (is_ok (match c r))
    then of_status (match c r)
    else if not (requires_explicit_conversion c r)
    then success r.input_format
    else made_input c r (input_entry c r.input_format)
