-- ===== src/Media/Reference/Samples.antt =====
-- Sample pictures and configurations for src/media/reference_backend.cpp: a picture of 2 by 1.
use eavp.Base.{true, [], ◌∷◌, some, List, ℕ}
use eavp.Base.Int.{pos}
use eavp.Status.{ok_status, Result, success}
use eavp.Media.Buffer.{PlaneLayout, BufferStorage, cpu}
use eavp.Media.VideoFormat.{VideoFormat, rgb24}
use eavp.Media.VideoFormat.Colour.{
  ColorRange, ColorPrimaries, TransferCharacteristic, MatrixCoefficients,
}
use eavp.Media.Codec.{VideoProcessorConfig}
use eavp.Media.Frame.{VideoFrame}
use eavp.Media.Reference.{ReferenceBackendOptions}

abbrev pub storage : BufferStorage Unit
storage = record {
  memory_domain = cpu;
  capacity = 6;
  address_alignment = 8;
  provider_id = "cpu";
  map = λ mode s. (record { result = ok_status; address = some 4096; mapped_size = 6 }, s);
  unmap = λ s. (ok_status, s);
}

abbrev pub pixels : List PlaneLayout
pixels = record { offset = 0; size = 6; stride = 6 } ∷ []

abbrev pub picture : VideoFormat
picture = record {
  pixel_format = rgb24;
  width = pos 2;
  height = pos 1;
  memory_domain = cpu;
  planes = pixels;
  color = record {
    color_range = ColorRange.unknown;
    color_primaries = ColorPrimaries.unknown;
    transfer = TransferCharacteristic.unknown;
    matrix = MatrixCoefficients.unknown;
  };
}

abbrev pub frame : ℕ → VideoFrame Unit
frame n = record {
  buffer = record { storage = storage; planes = pixels };
  format = picture;
  pts = pos n;
  time_base = record { numerator = pos 1; denominator = pos 30 };
}

-- What is read from every frame.
abbrev pub contents : VideoFrame Unit → Result (List ℕ)
contents f = success (1 ∷ 2 ∷ 3 ∷ 250 ∷ 251 ∷ 252 ∷ [])

abbrev pub options : ReferenceBackendOptions
options = record {
  queue_capacity = 2;
  output_delay = 0;
  device_lost_after_submissions = 0;
  encoder_reset_would_block_once = true;
}

abbrev pub copy : VideoProcessorConfig
copy = record {
  input_format = picture;
  output_format = picture;
  crop_x = pos 0;
  crop_y = pos 0;
  crop_width = pos 2;
  crop_height = pos 1;
  rotation_degrees = pos 0;
}
