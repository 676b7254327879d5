-- ===== src/Media/Capability/Tests.antt =====
-- Runs of the negotiations of src/media/capability.cpp, and requests for zero copy.
use eavp.Base.{◌≡◌, ◌⊎◌, refl, List, true, false}
use eavp.Status.{Status, success, failure}
use eavp.Media.Buffer.{PlaneLayout}
use eavp.Media.Buffer.Mapped.{greatest_common_divisor}
use eavp.Media.VideoFormat
use eavp.Media.VideoFormat.{VideoFormat, nv12}
use eavp.Media.Codec.{create_processor}
use eavp.Media.Capability.{
  find_format, range_valid, contains, format_valid, layout_matches, make_actual_format,
}
use eavp.Media.Capability.Encoder
use eavp.Media.Capability.Encoder.{VideoEncoderCapability}
use eavp.Media.Capability.Processor
use eavp.Media.Capability.Processor.{VideoProcessorCapability}
use eavp.Media.Capability.Provider.{encoder_kind, negotiate}
use eavp.Media.Capability.Encoder.Stable.{actual_input_format-stable}
use eavp.Media.Capability.Processor.Settled.{negotiated_config-settles, replan}
use eavp.Media.Capability.Provider.ZeroCopy.{encoder_zero_copy}
use eavp.Media.Capability.Samples.{
  entry, picture, packed, aligned_planes, encoder, encode, met, processor, copy, process, provider,
  direct_encoding,
}

actual_input_format-stable_example :
    (Encoder.requires_explicit_conversion encoder (encode (picture aligned_planes) false) ≡ false)
    × (Encoder.actual_input_format encoder (encode (picture aligned_planes) false)
        ≡ success (picture aligned_planes))
unfolding Encoder.actual_input_format Encoder.match Encoder.requires_explicit_conversion range_valid
    contains format_valid find_format layout_matches make_actual_format greatest_common_divisor
    VideoFormat.create
actual_input_format-stable_example =
    actual_input_format-stable encoder (encode packed false) entry (picture aligned_planes) refl met
      refl

negotiated_config-settles_example :
    (is : List PlaneLayout) × (os : List PlaneLayout) × (replan (copy packed) is os
      ≡ copy (picture aligned_planes))
    × (Processor.requires_explicit_conversion processor (process (picture aligned_planes) false)
        ≡ false)
unfolding Processor.negotiated_config Processor.match Processor.requires_explicit_conversion
    range_valid contains format_valid find_format layout_matches make_actual_format
    greatest_common_divisor VideoFormat.create create_processor
negotiated_config-settles_example =
    negotiated_config-settles processor (process packed false) entry entry
      (copy (picture aligned_planes)) refl refl met met refl

encoder_zero_copy_example :
    ((s : Status) × (negotiate encoder_kind provider (encode (picture aligned_planes) true)
        ≡ failure s))
    ⊎ (negotiate encoder_kind provider (encode (picture aligned_planes) true)
        ≡ success direct_encoding)
encoder_zero_copy_example = encoder_zero_copy provider (encode (picture aligned_planes) true) refl
