-- ===== src/Media/Reference/Formats.antt =====
-- The configurations, the formats and the capability of src/media/reference_backend.cpp.
use eavp.Base.{ℕ, Bool, true, ◌&&◌, List, [], ◌∷◌, none, some, ◌==◌}
use eavp.Base.Int.{ℤ, pos, int_eq}
use eavp.Status.{Status, ok_status, status, capability_mismatch}
use eavp.Media.Buffer.{cpu, domain_value}
use eavp.Media.VideoFormat.{VideoFormat, rgb24, nv12, yuv420p}
use eavp.Media.Codec.{
  VideoProcessorConfig, VideoEncoderConfig, CodecId, CodecProfile, RateControlMode, codec_value,
  profile_value, rate_value,
}
use eavp.Media.Frame.{VideoFrame, validate_frame_plane_alignment}
use eavp.Media.Capability.{FormatMemoryDomain, PlaneLayoutConstraint, DimensionRange, find_format}
use eavp.Media.Capability.Request.{ProviderKind}
use eavp.Media.Capability.Processor.{VideoProcessorCapability, same_video_format}
use eavp.Media.Capability.Encoder.{VideoEncoderCapability}
use eavp.Media.Capability.Provider.{ProviderCapability}

-- `is_identity_processor_config`; `same_format` has the tests of `same_video_format`.
unfoldable pub is_identity_processor_config : VideoProcessorConfig → Bool
is_identity_processor_config c =
    domain_value c.input_format.memory_domain == domain_value cpu
    && same_video_format c.input_format c.output_format
    && int_eq c.crop_x (pos 0)
    && int_eq c.crop_y (pos 0)
    && int_eq c.crop_width c.input_format.width
    && int_eq c.crop_height c.input_format.height
    && int_eq c.rotation_degrees (pos 0)

-- `is_reference_encoder_config`.
unfoldable pub is_reference_encoder_config : VideoFormat × VideoEncoderConfig → Bool
is_reference_encoder_config (input, c) =
    domain_value input.memory_domain == domain_value cpu
    && codec_value c.codec == codec_value CodecId.reference
    && int_eq c.width input.width
    && int_eq c.height input.height
    && rate_value c.rate_control == rate_value RateControlMode.constant_quality
    && profile_value c.profile == profile_value CodecProfile.unknown
    && int_eq c.level_idc (pos 0)

-- A constraint of `reference_formats`, whose alignments are all 1.
abbrev pub unaligned : ℤ → ℤ → ℕ → PlaneLayoutConstraint
unaligned horizontal vertical bytes = record {
  horizontal_subsampling = horizontal;
  vertical_subsampling = vertical;
  bytes_per_sample = bytes;
  stride_alignment = 1;
  offset_alignment = 1;
  size_alignment = 1;
  address_alignment = 1;
}

-- `reference_formats`.
abbrev pub reference_formats : List FormatMemoryDomain
reference_formats =
    record {
      pixel_format = rgb24;
      memory_domain = cpu;
      plane_constraints = unaligned (pos 1) (pos 1) 3 ∷ [];
    }
    ∷ record {
      pixel_format = nv12;
      memory_domain = cpu;
      plane_constraints = unaligned (pos 1) (pos 1) 1 ∷ unaligned (pos 1) (pos 2) 1 ∷ [];
    }
    ∷ record {
      pixel_format = yuv420p;
      memory_domain = cpu;
      plane_constraints =
          unaligned (pos 1) (pos 1) 1
          ∷ unaligned (pos 2) (pos 2) 1
          ∷ unaligned (pos 2) (pos 2) 1
          ∷ [];
    }
    ∷ []

-- `validate_reference_alignment`; its loop is that of `find_format`.
unfoldable pub validate_reference_alignment : {S : Type 0} → VideoFrame S → Status
unfolding validate_frame_plane_alignment find_format
validate_reference_alignment f =
    elim (find_format reference_formats f.format.pixel_format f.format.memory_domain) [
      | none ↦
          status capability_mismatch
            "reference backend has no alignment contract for the submitted frame"
      | some fc ↦ validate_frame_plane_alignment f fc
    ]

abbrev pub reference_range : DimensionRange
reference_range = record { minimum = pos 1; maximum = pos 4096; step = pos 1; alignment = pos 1 }

-- The capability of the processor in `make_reference_capability`.
abbrev pub processor_capability : VideoProcessorCapability
processor_capability = record {
  input_width = reference_range;
  input_height = reference_range;
  output_width = reference_range;
  output_height = reference_range;
  input_formats = reference_formats;
  output_formats = reference_formats;
  operations = [];
  zero_copy = true;
  requires_identical_formats = true;
}

-- The capability of the encoder in `make_reference_capability`.
abbrev pub encoder_capability : VideoEncoderCapability
encoder_capability = record {
  width = reference_range;
  height = reference_range;
  codec = CodecId.reference;
  profiles = CodecProfile.unknown ∷ [];
  levels = pos 0 ∷ [];
  input_formats = reference_formats;
  rate_control_modes = RateControlMode.constant_quality ∷ [];
  zero_copy = true;
}

-- `make_reference_capability`.
abbrev pub make_reference_capability : ProviderCapability
make_reference_capability = record {
  provider_id = "reference";
  implementation_version = "0.2";
  device_id = "reference-cpu";
  availability_status = ok_status;
  kind = ProviderKind.reference;
  processor_capabilities = processor_capability ∷ [];
  encoder_capabilities = encoder_capability ∷ [];
  max_concurrent_instances = pos 0;
  resource_constraints = [];
}
