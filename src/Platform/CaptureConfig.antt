-- ===== src/Platform/CaptureConfig.antt =====
-- The checks of src/platform/linux/v4l2_capture_config.cpp and alsa_capture_config.cpp. The
-- greatest std::size_t, `std::numeric_limits<std::size_t>::max()`, is a parameter `max`.
pub mod Layout
mod Tests
use eavp.Base.{
  ℕ, ◌+◌, ◌-◌, ◌*◌, ◌/◌, ◌%◌, Bool, true, false, not, ◌&&◌, ◌||◌, Option, none, some, String,
  str_eq, if◌then◌else◌, ◌==◌, ltb,
}
use eavp.Base.Int.{ℤ, is_positive, to_size}
use eavp.Status.{
  status, invalid_argument, unsupported, capability_mismatch, Result, success, failure,
}
use eavp.Media.Buffer.{cpu, domain_value}
use eavp.Media.VideoFormat.{PixelFormat, unknown, nv12, yuv420p, rgb24, yuyv422}
use eavp.Media.Frame.{AudioFormat}
use eavp.Media.Capability.Sizes.{◌>>=◌}

-- `checked_add`; `none` is a result that does not fit.
unfoldable pub checked_add : ℕ → ℕ → ℕ → Option ℕ
checked_add max left right = if ltb (max - right) left then none else some (left + right)

-- `checked_multiply`.
unfoldable pub checked_multiply : ℕ → ℕ → ℕ → Option ℕ
checked_multiply max left right =
    if not (left == 0) && ltb (max / left) right then none else some (left * right)

-- The bytes of a picture in `has_representable_layout`.
unfoldable pub layout_size : ℕ → PixelFormat → ℕ → ℕ → Option ℕ
unfolding checked_add checked_multiply
layout_size max yuv420p width height = do
  luma ← checked_multiply max width height
  chroma ← checked_multiply max (width / 2) (height / 2)
  offset ← checked_add max luma chroma
  checked_add max offset chroma
layout_size max nv12 width height = do
  luma ← checked_multiply max width height
  chroma ← checked_multiply max width (height / 2)
  checked_add max luma chroma
layout_size max yuyv422 width height = do
  row ← checked_multiply max width 2
  checked_multiply max row height
layout_size max rgb24 width height = none
layout_size max unknown width height = none

-- `has_representable_layout`.
unfoldable pub has_representable_layout : ℕ → PixelFormat → ℤ → ℤ → Bool
unfolding layout_size
has_representable_layout max p width height =
    elim (layout_size max p (to_size width) (to_size height)) [ none ↦ false | some n ↦ ltb 0 n ]

-- `is_supported_format`.
abbrev pub is_supported_format : PixelFormat → Bool
is_supported_format yuv420p = true
is_supported_format nv12 = true
is_supported_format yuyv422 = true
is_supported_format rgb24 = false
is_supported_format unknown = false

-- `n % 2 == 0`, of a positive number.
abbrev pub is_even : ℤ → Bool
is_even z = to_size z % 2 == 0

-- The tests of `has_valid_dimensions` after those of the signs.
abbrev pub parities : PixelFormat → ℤ → ℤ → Bool
parities yuv420p width height = is_even width && is_even height
parities nv12 width height = is_even width && is_even height
parities yuyv422 width height = is_even width
parities rgb24 width height = true
parities unknown width height = true

-- `has_valid_dimensions`.
unfoldable pub has_valid_dimensions : PixelFormat → ℤ → ℤ → Bool
has_valid_dimensions p width height =
    is_positive width && is_positive height && parities p width height

-- `class V4L2CaptureConfig`.
pub record V4l2CaptureConfig : Type 0 where
  pub device_path : String
  pub pixel_format : PixelFormat
  pub width : ℤ
  pub height : ℤ
  pub frame_rate_numerator : ℤ
  pub frame_rate_denominator : ℤ
  pub buffer_count : ℕ

-- The first tests of `V4L2CaptureConfig::create`.
abbrev pub values_invalid : V4l2CaptureConfig → Bool
values_invalid c =
    str_eq c.device_path ""
    || not (is_positive c.frame_rate_numerator)
    || not (is_positive c.frame_rate_denominator)
    || ltb c.buffer_count 2
    || ltb 4294967295 c.buffer_count

-- `V4L2CaptureConfig::create`, whose arguments are the fields.
unfoldable pub create_v4l2 : ℕ → V4l2CaptureConfig → Result V4l2CaptureConfig
unfolding has_valid_dimensions has_representable_layout
create_v4l2 max c =
    if values_invalid c
    then failure (status invalid_argument "V4L2 capture configuration values are invalid")
    else if not (is_supported_format c.pixel_format)
    then failure (status unsupported "V4L2 capture pixel format is unsupported")
    else if not (has_valid_dimensions c.pixel_format c.width c.height)
        || not (has_representable_layout max c.pixel_format c.width c.height)
    then failure (status invalid_argument "V4L2 capture image layout is invalid or overflows")
    else success c

-- `class AlsaCaptureConfig`.
pub record AlsaCaptureConfig : Type 0 where
  pub device_name : String
  pub format : AudioFormat
  pub samples_per_frame : ℤ
  pub period_size_hint : ℤ
  pub buffer_periods : ℤ

-- `AlsaCaptureConfig::create`, whose arguments are the fields; a sample layout is interleaved.
pub create_alsa : ℕ → AlsaCaptureConfig → Result AlsaCaptureConfig
create_alsa max c =
    if str_eq c.device_name ""
      || not (is_positive c.samples_per_frame)
      || not (is_positive c.period_size_hint)
      || not (is_positive c.buffer_periods)
    then failure (status invalid_argument "ALSA capture configuration values must be positive")
    else if not (domain_value c.format.memory_domain == domain_value cpu)
    then failure (status capability_mismatch "ALSA capture requires interleaved CPU audio")
    else if ltb (max / to_size c.samples_per_frame) c.format.bytes_per_pcm_frame
    then failure (status invalid_argument "ALSA capture frame size overflows")
    else success c
