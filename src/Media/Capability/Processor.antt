-- ===== src/Media/Capability/Processor.antt =====
-- `VideoProcessorCapability` of src/media/capability.cpp.
pub mod Direct
pub mod Alike
pub mod Settled
use Prim.Native.String.{◌++◌}
use eavp.Base.{
  ℕ, Bool, true, false, not, ◌&&◌, ◌||◌, List, [], ◌∷◌, Option, none, some, if◌then◌else◌, ◌==◌,
}
use eavp.Base.Int.{ℤ, pos, int_eq}
use eavp.Status.{Status, ok_status, is_ok, Result, success, failure, of_status}
use eavp.Media.Buffer.{PlaneLayout, domain_value}
use eavp.Media.VideoFormat.{VideoFormat, pixel_value, same_planes}
use eavp.Media.VideoFormat.Colour.{range_value, primaries_value, transfer_value, matrix_value}
use eavp.Media.Codec.{VideoProcessorConfig, create_processor}
use eavp.Media.Capability.{
  DimensionRange, FormatMemoryDomain, range_valid, contains, format_valid, find_format,
  layout_matches, make_actual_format, mismatch,
}
use eavp.Media.Capability.Encoder.{contains_value}
use eavp.Media.Capability.Request.{
  VideoProcessorRequest, VideoProcessingOperation, operation_value, operation_name,
}

-- `class VideoProcessorCapability`.
pub record VideoProcessorCapability : Type 0 where
  pub input_width : DimensionRange
  pub input_height : DimensionRange
  pub output_width : DimensionRange
  pub output_height : DimensionRange
  pub input_formats : List FormatMemoryDomain
  pub output_formats : List FormatMemoryDomain
  pub operations : List VideoProcessingOperation
  pub zero_copy : Bool
  pub requires_identical_formats : Bool

-- `same_video_format`.
unfoldable pub same_video_format : VideoFormat → VideoFormat → Bool
same_video_format f g =
    pixel_value f.pixel_format == pixel_value g.pixel_format
    && int_eq f.width g.width
    && int_eq f.height g.height
    && domain_value f.memory_domain == domain_value g.memory_domain
    && range_value f.color.color_range == range_value g.color.color_range
    && primaries_value f.color.color_primaries == primaries_value g.color.color_primaries
    && transfer_value f.color.transfer == transfer_value g.color.transfer
    && matrix_value f.color.matrix == matrix_value g.color.matrix
    && same_planes f.planes g.planes

-- `swaps_axes` in `requires_operation`.
abbrev pub swaps_axes : ℤ → Bool
swaps_axes rotation = int_eq rotation (pos 90) || int_eq rotation (pos 270)

-- `requires_operation`.
unfoldable pub requires_operation : VideoProcessorConfig → VideoProcessingOperation → Bool
requires_operation c VideoProcessingOperation.scaling =
    not (
      int_eq (if swaps_axes c.rotation_degrees then c.crop_height else c.crop_width)
        c.output_format.width)
    || not (
        int_eq (if swaps_axes c.rotation_degrees then c.crop_width else c.crop_height)
          c.output_format.height)
requires_operation c VideoProcessingOperation.cropping =
    not (int_eq c.crop_x (pos 0))
    || not (int_eq c.crop_y (pos 0))
    || not (int_eq c.crop_width c.input_format.width)
    || not (int_eq c.crop_height c.input_format.height)
requires_operation c VideoProcessingOperation.rotation = not (int_eq c.rotation_degrees (pos 0))
requires_operation c VideoProcessingOperation.format_conversion =
    not (pixel_value c.input_format.pixel_format == pixel_value c.output_format.pixel_format)

-- `check_operation`.
pub check_operation : List VideoProcessingOperation → VideoProcessingOperation → Status
check_operation supported o =
    if not (contains_value (λ p. operation_value p == operation_value o) supported)
    then mismatch ("video processor does not support required " ++ operation_name o)
    else ok_status

-- The loop over the required operations.
pub check_each : List VideoProcessingOperation → List VideoProcessingOperation → Status
unfolding check_operation
check_each supported [] = ok_status
check_each supported (o ∷ os) =
    let rest = check_each supported os in
    let here = check_operation supported o in if is_ok here then rest else here

-- `inferred_operations`.
abbrev pub inferred_operations : List VideoProcessingOperation
inferred_operations =
    VideoProcessingOperation.scaling ∷ VideoProcessingOperation.cropping
    ∷ VideoProcessingOperation.rotation ∷ VideoProcessingOperation.format_conversion ∷ []

-- The loop over the inferred operations.
pub check_inferred :
    VideoProcessorConfig → List VideoProcessingOperation → List VideoProcessingOperation → Status
unfolding check_operation requires_operation
check_inferred config supported [] = ok_status
check_inferred config supported (o ∷ os) =
    let rest = check_inferred config supported os in
    let here = check_operation supported o in
    if requires_operation config o && not (is_ok here) then here else rest

-- The entries of the capability for the two formats of a configuration.
abbrev pub input_entry : VideoProcessorCapability → VideoFormat → Option FormatMemoryDomain
input_entry c f = find_format c.input_formats f.pixel_format f.memory_domain

abbrev pub output_entry : VideoProcessorCapability → VideoFormat → Option FormatMemoryDomain
output_entry c f = find_format c.output_formats f.pixel_format f.memory_domain

abbrev pub accepts :
    Option FormatMemoryDomain → VideoFormat → DimensionRange → DimensionRange → ℕ → Bool
accepts none f wr hr address = false
accepts (some fc) f wr hr address = layout_matches f fc wr hr address

-- `VideoProcessorCapability::requires_explicit_conversion`.
unfoldable pub requires_explicit_conversion :
    VideoProcessorCapability → VideoProcessorRequest → Bool
requires_explicit_conversion c r =
    not (
      accepts (input_entry c r.config.input_format) r.config.input_format c.input_width
        c.input_height r.input_address_alignment)
    || not (
        accepts (output_entry c r.config.output_format) r.config.output_format c.output_width
          c.output_height r.output_address_alignment)

-- `VideoProcessorCapability::uses_zero_copy`.
unfoldable pub uses_zero_copy : VideoProcessorCapability → VideoProcessorRequest → Bool
uses_zero_copy c r = c.zero_copy && not (requires_explicit_conversion c r)

-- The tests of `match` after both formats are found valid.
match_operations : VideoProcessorCapability → VideoProcessorRequest → Status
unfolding check_each check_inferred
match_operations c r =
    let required = check_each c.operations r.required_operations in
    let inferred = check_inferred r.config c.operations inferred_operations in
    if not (is_ok required)
    then required
    else if not (is_ok inferred)
    then inferred
    else if r.require_zero_copy && not c.zero_copy
    then mismatch "video processor does not support required zero-copy"
    else if r.require_zero_copy && requires_explicit_conversion c r
    then mismatch
        "required zero-copy video processor plane layout or address alignment is unsupported"
    else ok_status

match_formats :
    VideoProcessorCapability
    → VideoProcessorRequest
    → Option FormatMemoryDomain
    → Option FormatMemoryDomain
    → Status
unfolding match_operations
match_formats c r none output =
    mismatch "video processor input pixel format or memory domain is unsupported"
match_formats c r (some fi) none =
    mismatch "video processor output pixel format or memory domain is unsupported"
match_formats c r (some fi) (some fo) =
    if not (format_valid fi) || not (format_valid fo)
    then mismatch "video processor capability has invalid plane layout constraints"
    else match_operations c r

-- `VideoProcessorCapability::match`.
unfoldable pub match : VideoProcessorCapability → VideoProcessorRequest → Status
unfolding match_formats same_video_format
match c r =
    if not (range_valid c.input_width)
      || not (range_valid c.input_height)
      || not (range_valid c.output_width)
      || not (range_valid c.output_height)
    then mismatch "video processor capability has an invalid dimension range"
    else if c.requires_identical_formats
        && not (same_video_format r.config.input_format r.config.output_format)
    then mismatch "video processor requires identical input and output formats"
    else if not (contains c.input_width r.config.input_format.width)
        || not (contains c.input_height r.config.input_format.height)
    then mismatch "video processor input dimensions are outside capability"
    else if not (contains c.output_width r.config.output_format.width)
        || not (contains c.output_height r.config.output_format.height)
    then mismatch "video processor output dimensions are outside capability"
    else match_formats c r (input_entry c r.config.input_format)
        (output_entry c r.config.output_format)

-- `make_actual_format` on both formats, and the configuration of the results.
pub convert_both :
    VideoProcessorConfig → Result VideoFormat → Result VideoFormat → Result VideoProcessorConfig
convert_both g (failure s) output = of_status s
convert_both g (success i) (failure s) = of_status s
convert_both g (success i) (success o) =
    create_processor i o g.crop_x g.crop_y g.crop_width g.crop_height g.rotation_degrees

abbrev pub made :
    Option FormatMemoryDomain → VideoFormat → DimensionRange → DimensionRange → Result VideoFormat
made none f wr hr = failure (mismatch "")
made (some fc) f wr hr = make_actual_format f fc wr hr

-- `VideoProcessorCapability::negotiated_config`; after a match the entries are not null.
unfoldable pub negotiated_config :
    VideoProcessorCapability → VideoProcessorRequest → Result VideoProcessorConfig
unfolding convert_both
negotiated_config c r =
    if not (is_ok (match c r))
    then of_status (match c r)
    else if not (requires_explicit_conversion c r)
    then success r.config
    else convert_both r.config
        (made (input_entry c r.config.input_format) r.config.input_format c.input_width
          c.input_height)
        (made (output_entry c r.config.output_format) r.config.output_format c.output_width
          c.output_height)
