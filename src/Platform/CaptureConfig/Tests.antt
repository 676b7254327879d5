-- ===== src/Platform/CaptureConfig/Tests.antt =====
-- A configuration of a capture in src/platform/linux/v4l2_capture_config.cpp.
use eavp.Base.{◌≡◌, ◌≤◌, ◌*◌, ◌↔◌, refl, true, false}
use eavp.Base.Int.{pos}
use eavp.Status.{status, invalid_argument, success, failure}
use eavp.Media.VideoFormat.{nv12}
use eavp.Platform.CaptureConfig.{
  V4l2CaptureConfig, checked_add, checked_multiply, layout_size, has_representable_layout,
  create_v4l2, values_invalid, is_supported_format, has_valid_dimensions,
}
use eavp.Platform.CaptureConfig.Layout.{bits_per_pixel, create_v4l2-success}

abbrev camera : V4l2CaptureConfig
camera = record {
  device_path = "/dev/video0";
  pixel_format = nv12;
  width = pos 1920;
  height = pos 1080;
  frame_rate_numerator = pos 30;
  frame_rate_denominator = pos 1;
  buffer_count = 4;
}

-- On a target of 32 bits.
create_v4l2-success_example :
    (create_v4l2 4294967295 camera ≡ success camera)
    ↔ (values_invalid camera ≡ false)
      × (is_supported_format nv12 ≡ true)
      × (has_valid_dimensions nv12 (pos 1920) (pos 1080) ≡ true)
      × (bits_per_pixel nv12 * (1920 * 1080) ≤ 8 * 4294967295)
create_v4l2-success_example = create_v4l2-success 4294967295 camera

-- A picture that 32 bits do not count and 64 bits do.
abbrev wall : V4l2CaptureConfig
wall = record camera { width = pos 65536; height = pos 65536 }

wall_overflows :
    create_v4l2 4294967295 wall
    ≡ failure (status invalid_argument "V4L2 capture image layout is invalid or overflows")
unfolding create_v4l2 has_valid_dimensions has_representable_layout layout_size checked_add
    checked_multiply
wall_overflows = refl

wall_fits : create_v4l2 18446744073709551615 wall ≡ success wall
unfolding create_v4l2 has_valid_dimensions has_representable_layout layout_size checked_add
    checked_multiply
wall_fits = refl
