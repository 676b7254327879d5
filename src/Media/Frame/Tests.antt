-- ===== src/Media/Frame/Tests.antt =====
-- A run of the audio frames of src/media/audio_frame.cpp: three samples of two channels.
use eavp.Base.{◌*◌, ◌<◌, ◌^◌, ◌≡◌, refl, true, false, [], ◌∷◌, some}
use eavp.Base.Int.{pos, is_positive}
use eavp.Status.{ok_status, success}
use eavp.Media.Buffer.{Buffer, PlaneLayout, cpu}
use eavp.Media.Frame.{
  SampleFormat, AudioChannelLayout, AudioFormat, AudioFrame, create_audio_format,
  create_audio_frame,
}
use eavp.Media.Frame.Audio.{audio_frame_holds}

abbrev buffer : Buffer Unit
buffer = record {
  storage = record {
    memory_domain = cpu;
    capacity = 12;
    address_alignment = 8;
    provider_id = "cpu";
    map = λ mode s. (record { result = ok_status; address = some 4096; mapped_size = 12 }, s);
    unmap = λ s. (ok_status, s);
  };
  planes = record { offset = 0; size = 12; stride = 12 } ∷ [];
}

abbrev stereo : AudioFormat
stereo = record {
  sample_format = SampleFormat.signed16_le;
  sample_rate = pos 48000;
  channel_layout = AudioChannelLayout.stereo;
  memory_domain = cpu;
  channels = 2;
  bytes_per_sample = 2;
  bytes_per_pcm_frame = 4;
}

abbrev frame : AudioFrame Unit
frame = record {
  buffer = buffer;
  format = stereo;
  samples_per_channel = pos 3;
  pts = pos 0;
  time_base = record { numerator = pos 1; denominator = pos 48000 };
  discontinuity = false;
}

made_format :
    create_audio_format SampleFormat.signed16_le (pos 48000) AudioChannelLayout.stereo cpu
    ≡ success stereo
unfolding create_audio_format
made_format = refl

made_frame : create_audio_frame buffer stereo (pos 3) (pos 0) frame.time_base false ≡ success frame
unfolding create_audio_frame
made_frame = refl

audio_frame_holds_example :
    (p : PlaneLayout) × (buffer.planes ≡ p ∷ [])
    × (p.size ≡ 3 * (2 * 2))
    × (is_positive (pos 3) ≡ true)
    × (0 < p.size)
    × (p.size < 2 ^ 64)
audio_frame_holds_example =
    audio_frame_holds SampleFormat.signed16_le (pos 48000) AudioChannelLayout.stereo cpu stereo
      buffer (pos 3) (pos 0) frame.time_base false frame made_format made_frame
