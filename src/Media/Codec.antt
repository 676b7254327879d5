-- ===== src/Media/Codec.antt =====
-- include/eavp/media/video_codec.hpp and src/media/video_codec.cpp: the checked configurations of a
-- video processor and of a video encoder.
use eavp.Base.{ℕ, Bool, true, false, not, ◌||◌, if◌then◌else◌, ◌==◌}
use eavp.Base.Int.{ℤ, pos, is_positive, is_negative, int_le, int_eq, int_add}
use eavp.Status.{Result, success, failure, status, invalid_argument}
use eavp.Time.{TimeBase}
use eavp.Media.VideoFormat.{VideoFormat}

-- `enum class CodecId`.
pub data CodecId : Type 0 where
  unknown h264 h265 aac reference : CodecId

-- `enum class RateControlMode`.
pub data RateControlMode : Type 0 where
  cbr vbr constant_quality : RateControlMode

-- `enum class CodecProfile`.
pub data CodecProfile : Type 0 where
  unknown h264_baseline h264_main h264_high h265_main : CodecProfile

-- The values of the enumerators, from 0, by which `==` compares.
abbrev pub codec_value : CodecId → ℕ
codec_value CodecId.unknown = 0
codec_value CodecId.h264 = 1
codec_value CodecId.h265 = 2
codec_value CodecId.aac = 3
codec_value CodecId.reference = 4

abbrev pub rate_value : RateControlMode → ℕ
rate_value RateControlMode.cbr = 0
rate_value RateControlMode.vbr = 1
rate_value RateControlMode.constant_quality = 2

abbrev pub profile_value : CodecProfile → ℕ
profile_value CodecProfile.unknown = 0
profile_value CodecProfile.h264_baseline = 1
profile_value CodecProfile.h264_main = 2
profile_value CodecProfile.h264_high = 3
profile_value CodecProfile.h265_main = 4

-- `struct VideoProcessorConfig`.
pub record VideoProcessorConfig : Type 0 where
  pub input_format : VideoFormat
  pub output_format : VideoFormat
  pub crop_x : ℤ
  pub crop_y : ℤ
  pub crop_width : ℤ
  pub crop_height : ℤ
  pub rotation_degrees : ℤ

-- `struct VideoEncoderConfig`.
pub record VideoEncoderConfig : Type 0 where
  pub codec : CodecId
  pub width : ℤ
  pub height : ℤ
  pub frame_rate_numerator : ℤ
  pub frame_rate_denominator : ℤ
  pub time_base : TimeBase
  pub target_bitrate : ℤ
  pub max_bitrate : ℤ
  pub gop_length : ℤ
  pub b_frames : ℤ
  pub rate_control : RateControlMode
  pub profile : CodecProfile
  pub level_idc : ℤ
  pub low_latency : Bool

-- `is_video_codec`.
pub is_video_codec : CodecId → Bool
is_video_codec CodecId.h264 = true
is_video_codec CodecId.h265 = true
is_video_codec CodecId.reference = true
is_video_codec CodecId.unknown = false
is_video_codec CodecId.aac = false

-- `profile_matches_codec`.
pub profile_matches_codec : CodecId → CodecProfile → Bool
profile_matches_codec codec CodecProfile.unknown = true
profile_matches_codec codec CodecProfile.h264_baseline = codec_value codec == 1
profile_matches_codec codec CodecProfile.h264_main = codec_value codec == 1
profile_matches_codec codec CodecProfile.h264_high = codec_value codec == 1
profile_matches_codec codec CodecProfile.h265_main = codec_value codec == 2

-- `is_rotation_degrees`.
pub is_rotation_degrees : ℤ → Bool
is_rotation_degrees r =
    int_eq r (pos 0) || int_eq r (pos 90) || int_eq r (pos 180) || int_eq r (pos 270)

-- `VideoProcessorConfig::create`; `x > width - w` is written `width < x + w`, which does not wrap.
unfoldable pub create_processor :
    VideoFormat → VideoFormat → ℤ → ℤ → ℤ → ℤ → ℤ → Result VideoProcessorConfig
unfolding is_rotation_degrees
create_processor input output x y w h rotation =
    if is_negative x || is_negative y || not (is_positive w) || not (is_positive h)
    then failure (status invalid_argument "video processor crop must be positive")
    else if not (int_le (int_add x w) input.width) || not (int_le (int_add y h) input.height)
    then failure (status invalid_argument "video processor crop is outside input format")
    else if not (is_rotation_degrees rotation)
    then failure (status invalid_argument "video processor rotation is invalid")
    else success (record {
      input_format = input;
      output_format = output;
      crop_x = x;
      crop_y = y;
      crop_width = w;
      crop_height = h;
      rotation_degrees = rotation;
    })

-- `VideoEncoderConfig::create`, whose arguments are the fields; the enumerators of a rate control mode
-- are all modes, so `is_rate_control_mode` is true.
unfoldable pub create_encoder : VideoEncoderConfig → Result VideoEncoderConfig
unfolding is_video_codec profile_matches_codec
create_encoder c =
    if not (is_video_codec c.codec)
    then failure (status invalid_argument "video encoder codec must be supported")
    else if not (is_positive c.width)
        || not (is_positive c.height)
        || not (is_positive c.frame_rate_numerator)
        || not (is_positive c.frame_rate_denominator)
        || not (is_positive c.time_base.numerator)
        || not (is_positive c.time_base.denominator)
    then failure (status invalid_argument "video encoder dimensions and timing must be positive")
    else if not (is_positive c.target_bitrate)
        || not (int_le c.target_bitrate c.max_bitrate)
        || not (is_positive c.gop_length)
        || is_negative c.b_frames
        || is_negative c.level_idc
        || not (profile_matches_codec c.codec c.profile)
    then failure (status invalid_argument "video encoder configuration is invalid")
    else success c
