-- ===== src/Media/Reference/Offer/Tests.antt =====
-- What the reference provider of src/media/reference_backend.cpp negotiates for two requests.
use eavp.Media.Reference.Samples.{picture, contents, options, copy}
use eavp.Media.Capability.{find_format}
use eavp.Media.Codec.{VideoEncoderConfig, RateControlMode, CodecProfile}
use eavp.Media.Reference.Encode.{encoder_behaviour}
use eavp.Media.Buffer.Mapped.{greatest_common_divisor}
use eavp.Media.VideoFormat
use eavp.Media.Capability.{
  range_valid, contains, layout_matches, make_actual_format, storage_extent,
}
use eavp.Media.Capability.Request.{SelectionPreferences, VideoProcessorRequest, VideoEncoderRequest}
use eavp.Media.Capability.Processor
use eavp.Media.Capability.Processor.{requires_operation}
use eavp.Media.Capability.Encoder
use eavp.Media.Capability.Encoder.{contains_value}
use eavp.Media.Capability.Provider.{
  Negotiation, negotiate, negotiated, processor_kind, encoder_kind, provider_match,
}
use eavp.Media.Reference.Formats.{make_reference_capability}
use eavp.Media.Reference.Offer.{configured_backend, encoder_serves}
use eavp.Media.Reference.Offer.Identity.{processor_serves}
use eavp.Base.{◌≡◌, refl, false, true, [], ◌∷◌}
use eavp.Base.Int.{pos}
use eavp.Status.{ok_status, success}
use eavp.Media.VideoFormat.{VideoFormat, rgb24, same_planes}
use eavp.Media.Codec.{CodecId, VideoProcessorConfig}
use eavp.Media.Capability.{format_valid}
use eavp.Media.Capability.Processor.{same_video_format}
use eavp.Media.Reference.{new_backend, configure}
use eavp.Media.Reference.Encode.{processor_behaviour}

abbrev no_preferences : SelectionPreferences
no_preferences = record {
  preferred_provider_ids = [];
  prefer_hardware = false;
  prefer_zero_copy = false;
}

-- A copy of a picture whose rows of 6 bytes lie 7 bytes apart.
abbrev loose : VideoFormat
loose = record picture { planes = record { offset = 0; size = 7; stride = 7 } ∷ [] }

abbrev to_copy : VideoProcessorRequest
to_copy = record {
  config = record copy { input_format = loose; output_format = loose };
  required_operations = [];
  input_address_alignment = 8;
  output_address_alignment = 8;
  require_zero_copy = true;
  required_provider_id = "";
  preferences = no_preferences;
}

abbrev copying : Negotiation VideoProcessorConfig
copying = record {
  provider_id = "reference";
  config = to_copy.config;
  actual_format = loose;
  requires_explicit_conversion = false;
  zero_copy = true;
}

copy_is_negotiated : negotiate processor_kind make_reference_capability to_copy ≡ success copying
unfolding negotiate provider_match negotiated Processor.negotiated_config Processor.match
    Processor.requires_explicit_conversion Processor.uses_zero_copy same_video_format same_planes
    range_valid contains format_valid find_format layout_matches requires_operation storage_extent
copy_is_negotiated = refl

processor_serves_example :
    configure (processor_behaviour {S = Unit}) 7 to_copy.config (new_backend options)
    ≡ (ok_status, configured_backend options 7 to_copy.config)
processor_serves_example = processor_serves options 7 to_copy copying copy_is_negotiated

abbrev settings : VideoEncoderConfig
settings = record {
  codec = CodecId.reference;
  width = pos 2;
  height = pos 1;
  frame_rate_numerator = pos 30;
  frame_rate_denominator = pos 1;
  time_base = record { numerator = pos 1; denominator = pos 30 };
  target_bitrate = pos 1000;
  max_bitrate = pos 2000;
  gop_length = pos 1;
  b_frames = pos 0;
  rate_control = RateControlMode.constant_quality;
  profile = CodecProfile.unknown;
  level_idc = pos 0;
  low_latency = false;
}

-- A picture with too few bytes, which is converted.
abbrev to_encode : VideoEncoderRequest
to_encode = record {
  input_format = record picture { planes = record { offset = 0; size = 5; stride = 5 } ∷ [] };
  config = settings;
  input_address_alignment = 8;
  require_zero_copy = false;
  required_provider_id = "";
  preferences = no_preferences;
}

abbrev encoding : Negotiation VideoEncoderConfig
encoding = record {
  provider_id = "reference";
  config = settings;
  actual_format = picture;
  requires_explicit_conversion = true;
  zero_copy = false;
}

encoding_is_negotiated :
    negotiate encoder_kind make_reference_capability to_encode ≡ success encoding
unfolding negotiate provider_match negotiated Encoder.actual_input_format Encoder.match
    Encoder.requires_explicit_conversion Encoder.uses_zero_copy contains_value range_valid contains
    format_valid find_format layout_matches make_actual_format VideoFormat.create
    greatest_common_divisor
encoding_is_negotiated = refl

encoder_serves_example :
    configure (encoder_behaviour contents options) 7 (picture, settings) (new_backend options)
    ≡ (ok_status, configured_backend options 7 (picture, settings))
encoder_serves_example = encoder_serves contents options 7 to_encode encoding encoding_is_negotiated
