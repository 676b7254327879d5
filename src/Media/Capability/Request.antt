-- ===== src/Media/Capability/Request.antt =====
-- The requests of include/eavp/media/capability.hpp: what a client asks of a provider.
use eavp.Base.{ℕ, Bool, List, String}
use eavp.Media.VideoFormat.{VideoFormat}
use eavp.Media.Codec.{VideoProcessorConfig, VideoEncoderConfig}

-- `enum class ProviderKind`.
pub data ProviderKind : Type 0 where
  reference software hardware : ProviderKind

-- `enum class VideoProcessingOperation`.
pub data VideoProcessingOperation : Type 0 where
  scaling cropping rotation format_conversion : VideoProcessingOperation

-- The value of the enumerator, from 0, by which `==` compares.
abbrev pub operation_value : VideoProcessingOperation → ℕ
operation_value VideoProcessingOperation.scaling = 0
operation_value VideoProcessingOperation.cropping = 1
operation_value VideoProcessingOperation.rotation = 2
operation_value VideoProcessingOperation.format_conversion = 3

-- `operation_name`.
pub operation_name : VideoProcessingOperation → String
operation_name VideoProcessingOperation.scaling = "scaling"
operation_name VideoProcessingOperation.cropping = "cropping"
operation_name VideoProcessingOperation.rotation = "rotation"
operation_name VideoProcessingOperation.format_conversion = "format conversion"

-- `class SelectionPreferences`.
pub record SelectionPreferences : Type 0 where
  pub preferred_provider_ids : List String
  pub prefer_hardware : Bool
  pub prefer_zero_copy : Bool

-- `class VideoProcessorRequest`; the constraints are the id of the required provider.
pub record VideoProcessorRequest : Type 0 where
  pub config : VideoProcessorConfig
  pub required_operations : List VideoProcessingOperation
  pub input_address_alignment : ℕ
  pub output_address_alignment : ℕ
  pub require_zero_copy : Bool
  pub required_provider_id : String
  pub preferences : SelectionPreferences

-- `class VideoEncoderRequest`.
pub record VideoEncoderRequest : Type 0 where
  pub input_format : VideoFormat
  pub config : VideoEncoderConfig
  pub input_address_alignment : ℕ
  pub require_zero_copy : Bool
  pub required_provider_id : String
  pub preferences : SelectionPreferences
