-- ===== src/Media/Capability/Samples.antt =====
-- Sample capabilities and requests for src/media/capability.cpp: a picture of 6 by 4 whose rows have
-- to be aligned.
use eavp.Base.{refl, List, [], ◌∷◌, true, false, All, arith, Bool}
use eavp.Base.Int.{ℤ, pos}
use eavp.Status.{ok_status}
use eavp.Media.Buffer.{PlaneLayout, cpu}
use eavp.Media.VideoFormat.{VideoFormat, nv12}
use eavp.Media.VideoFormat.Colour.{
  ColorRange, ColorPrimaries, TransferCharacteristic, MatrixCoefficients,
}
use eavp.Media.Codec.{
  CodecId, CodecProfile, RateControlMode, VideoEncoderConfig, VideoProcessorConfig,
}
use eavp.Media.Capability.{DimensionRange, PlaneLayoutConstraint, FormatMemoryDomain}
use eavp.Media.Capability.Actual.{IsMet}
use eavp.Media.Capability.Request.{
  VideoEncoderRequest, VideoProcessorRequest, SelectionPreferences, ProviderKind,
}
use eavp.Media.Capability.Encoder.{VideoEncoderCapability}
use eavp.Media.Capability.Processor.{VideoProcessorCapability}
use eavp.Media.Capability.Provider.{ProviderCapability, Negotiation}

abbrev pub range : DimensionRange
range = record { minimum = pos 2; maximum = pos 4096; step = pos 2; alignment = pos 4 }

abbrev pub rows_of_8 : ℤ → PlaneLayoutConstraint
rows_of_8 vertical = record {
  horizontal_subsampling = pos 1;
  vertical_subsampling = vertical;
  bytes_per_sample = 1;
  stride_alignment = 8;
  offset_alignment = 16;
  size_alignment = 16;
  address_alignment = 8;
}

abbrev pub entry : FormatMemoryDomain
entry = record {
  pixel_format = nv12;
  memory_domain = cpu;
  plane_constraints = rows_of_8 (pos 1) ∷ rows_of_8 (pos 2) ∷ [];
}

abbrev pub picture : List PlaneLayout → VideoFormat
picture planes = record {
  pixel_format = nv12;
  width = pos 6;
  height = pos 4;
  memory_domain = cpu;
  planes = planes;
  color = record {
    color_range = ColorRange.unknown;
    color_primaries = ColorPrimaries.unknown;
    transfer = TransferCharacteristic.unknown;
    matrix = MatrixCoefficients.unknown;
  };
}

-- Rows of 6 bytes, and the rows of 8 bytes that the capability makes of them.
abbrev pub packed : VideoFormat
packed = picture (
    record { offset = 0; size = 24; stride = 6 }
    ∷ record { offset = 24; size = 12; stride = 6 }
    ∷ [])

abbrev pub aligned_planes : List PlaneLayout
aligned_planes =
    record { offset = 0; size = 32; stride = 8 }
    ∷ record { offset = 32; size = 16; stride = 8 }
    ∷ []

abbrev pub encoder : VideoEncoderCapability
encoder = record {
  width = range;
  height = range;
  codec = CodecId.h264;
  profiles = CodecProfile.h264_main ∷ [];
  levels = pos 40 ∷ [];
  input_formats = entry ∷ [];
  rate_control_modes = RateControlMode.cbr ∷ [];
  zero_copy = true;
}

abbrev pub settings : VideoEncoderConfig
settings = record {
  codec = CodecId.h264;
  width = pos 6;
  height = pos 4;
  frame_rate_numerator = pos 30;
  frame_rate_denominator = pos 1;
  time_base = record { numerator = pos 1; denominator = pos 30 };
  target_bitrate = pos 1000;
  max_bitrate = pos 2000;
  gop_length = pos 30;
  b_frames = pos 0;
  rate_control = RateControlMode.cbr;
  profile = CodecProfile.h264_main;
  level_idc = pos 40;
  low_latency = false;
}

abbrev pub no_preferences : SelectionPreferences
no_preferences = record {
  preferred_provider_ids = [];
  prefer_hardware = false;
  prefer_zero_copy = false;
}

abbrev pub encode : VideoFormat → Bool → VideoEncoderRequest
encode format direct = record {
  input_format = format;
  config = settings;
  input_address_alignment = 64;
  require_zero_copy = direct;
  required_provider_id = "";
  preferences = no_preferences;
}

abbrev pub met : All (IsMet 64) entry.plane_constraints
met = (
  record {
    stride_small = omega arith;
    size_small = omega arith;
    proven = (8, refl);
    address_positive = omega arith;
  },
  (
    record {
      stride_small = omega arith;
      size_small = omega arith;
      proven = (8, refl);
      address_positive = omega arith;
    },
    tt,
  ),
)

abbrev pub processor : VideoProcessorCapability
processor = record {
  input_width = range;
  input_height = range;
  output_width = range;
  output_height = range;
  input_formats = entry ∷ [];
  output_formats = entry ∷ [];
  operations = [];
  zero_copy = true;
  requires_identical_formats = false;
}

abbrev pub copy : VideoFormat → VideoProcessorConfig
copy format = record {
  input_format = format;
  output_format = format;
  crop_x = pos 0;
  crop_y = pos 0;
  crop_width = pos 6;
  crop_height = pos 4;
  rotation_degrees = pos 0;
}

abbrev pub process : VideoFormat → Bool → VideoProcessorRequest
process format direct = record {
  config = copy format;
  required_operations = [];
  input_address_alignment = 64;
  output_address_alignment = 64;
  require_zero_copy = direct;
  required_provider_id = "";
  preferences = no_preferences;
}

abbrev pub provider : ProviderCapability
provider = record {
  provider_id = "board";
  implementation_version = "1";
  device_id = "0";
  availability_status = ok_status;
  kind = ProviderKind.hardware;
  processor_capabilities = processor ∷ [];
  encoder_capabilities = encoder ∷ [];
  max_concurrent_instances = pos 1;
  resource_constraints = [];
}

abbrev pub direct_encoding : Negotiation VideoEncoderConfig
direct_encoding = record {
  provider_id = "board";
  config = settings;
  actual_format = picture aligned_planes;
  requires_explicit_conversion = false;
  zero_copy = true;
}

abbrev pub direct_processing : Negotiation VideoProcessorConfig
direct_processing = record {
  provider_id = "board";
  config = copy (picture aligned_planes);
  actual_format = picture aligned_planes;
  requires_explicit_conversion = false;
  zero_copy = true;
}
