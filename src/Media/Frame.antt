-- ===== src/Media/Frame.antt =====
-- include/eavp/media/frame.hpp, src/media/audio_format.cpp, src/media/audio_frame.cpp and
-- src/media/media_packet.cpp: frames and packets with their checks against their formats.
pub mod Audio
mod Tests
use eavp.Base.{
  ℕ, suc, ◌*◌, ◌/◌, ◌%◌, Bool, true, false, not, ◌||◌, List, [], ◌∷◌, none, some, if◌then◌else◌,
  ◌==◌, ltb, length, get_elem?,
}
use eavp.Base.Int.{ℤ, is_positive, is_negative, to_size}
use eavp.Status.{
  Status, ok_status, status, invalid_argument, capability_mismatch, Result, success, failure,
}
use eavp.Time.{TimeBase}
use eavp.Media.Buffer.{Buffer, MemoryDomain, domain_value}
use eavp.Media.Buffer.Mapped.{plane_address_alignment}
use eavp.Media.VideoFormat.{VideoFormat, pixel_value, same_planes, size_max}
use eavp.Media.Codec.{CodecId}
use eavp.Media.Capability.{FormatMemoryDomain, PlaneLayoutConstraint, format_valid, mismatch}

-- `enum class SampleFormat`.
pub data SampleFormat : Type 0 where
  unknown signed16_le signed24_in32_le signed32_le float32_le : SampleFormat

-- `enum class AudioChannelLayout`.
pub data AudioChannelLayout : Type 0 where
  mono stereo : AudioChannelLayout

-- `class AudioFormat`; its sample layout is `kInterleaved`, the only one.
pub record AudioFormat : Type 0 where
  pub sample_format : SampleFormat
  pub sample_rate : ℤ
  pub channel_layout : AudioChannelLayout
  pub memory_domain : MemoryDomain
  pub channels : ℕ
  pub bytes_per_sample : ℕ
  pub bytes_per_pcm_frame : ℕ

-- `sample_bytes`.
abbrev pub sample_bytes : SampleFormat → ℕ
sample_bytes SampleFormat.unknown = 0
sample_bytes SampleFormat.signed16_le = 2
sample_bytes SampleFormat.signed24_in32_le = 4
sample_bytes SampleFormat.signed32_le = 4
sample_bytes SampleFormat.float32_le = 4

-- `channel_count`.
abbrev pub channel_count : AudioChannelLayout → ℕ
channel_count AudioChannelLayout.mono = 1
channel_count AudioChannelLayout.stereo = 2

-- `AudioFormat::create`; the number of channels is positive.
unfoldable pub create_audio_format :
    SampleFormat → ℤ → AudioChannelLayout → MemoryDomain → Result AudioFormat
create_audio_format sample rate layout domain =
    let bytes = sample_bytes sample in
    let channels = channel_count layout in
    if bytes == 0 || not (is_positive rate)
    then failure (status invalid_argument "audio format is invalid")
    else if ltb (size_max / channels) bytes
    then failure (status invalid_argument "audio PCM frame size overflows")
    else success (record {
      sample_format = sample;
      sample_rate = rate;
      channel_layout = layout;
      memory_domain = domain;
      channels = channels;
      bytes_per_sample = bytes;
      bytes_per_pcm_frame = bytes * channels;
    })

-- `enum class EncodedStreamFormat`.
pub data EncodedStreamFormat : Type 0 where
  unknown annex_b avcc hvcc reference : EncodedStreamFormat

-- `is_valid_stream_format`.
pub is_valid_stream_format : CodecId → EncodedStreamFormat → Bool
is_valid_stream_format CodecId.h264 EncodedStreamFormat.annex_b = true
is_valid_stream_format CodecId.h264 EncodedStreamFormat.avcc = true
is_valid_stream_format CodecId.h265 EncodedStreamFormat.annex_b = true
is_valid_stream_format CodecId.h265 EncodedStreamFormat.hvcc = true
is_valid_stream_format CodecId.reference EncodedStreamFormat.reference = true
is_valid_stream_format _ _ = false

-- `class MediaPacket` over a type of buffers, with the bytes of `CodecConfigData`.
pub record MediaPacket (B : Type 0) : Type 0 where
  pub buffer : B
  pub codec : CodecId
  pub stream_format : EncodedStreamFormat
  pub stream_index : ℤ
  pub pts : ℤ
  pub dts : ℤ
  pub duration : ℤ
  pub time_base : TimeBase
  pub key_frame : Bool
  pub codec_config : List ℕ

-- `MediaPacket::create`, whose arguments are the fields.
unfoldable pub create_packet : {B : Type 0} → MediaPacket B → Result (MediaPacket B)
unfolding is_valid_stream_format
create_packet p =
    if is_negative p.stream_index || is_negative p.duration
    then failure (status invalid_argument "packet stream index and duration are invalid")
    else if not (is_valid_stream_format p.codec p.stream_format)
    then failure (status invalid_argument "packet codec and stream format are incompatible")
    else success p

-- `class VideoFrame`.
pub record VideoFrame (S : Type 0) : Type 0 where
  pub buffer : Buffer S
  pub format : VideoFormat
  pub pts : ℤ
  pub time_base : TimeBase

-- `class AudioFrame`.
pub record AudioFrame (S : Type 0) : Type 0 where
  pub buffer : Buffer S
  pub format : AudioFormat
  pub samples_per_channel : ℤ
  pub pts : ℤ
  pub time_base : TimeBase
  pub discontinuity : Bool

module _ {S : Type 0} where
  -- `VideoFrame::create`; a layout of an index below the count of planes is read.
  unfoldable pub create_video_frame : Buffer S → VideoFormat → ℤ → TimeBase → Result (VideoFrame S)
  create_video_frame b f pts base =
      if not (domain_value b.storage.memory_domain == domain_value f.memory_domain)
      then failure
          (status capability_mismatch "video frame buffer memory domain does not match its format")
      else if not (length b.planes == length f.planes)
      then failure
          (status capability_mismatch "video frame buffer plane count does not match its format")
      else if not (same_planes b.planes f.planes)
      then failure (status capability_mismatch "video frame buffer planes do not match its format")
      else success (record { buffer = b; format = f; pts = pts; time_base = base })

  -- The size of the plane `0`, if there is one.
  abbrev pub holds_bytes : Buffer S → ℕ → Bool
  holds_bytes b n = elim (get_elem? b.planes 0) [ none ↦ false | some p ↦ p.size == n ]

  -- `AudioFrame::create`.
  unfoldable pub create_audio_frame :
      Buffer S → AudioFormat → ℤ → ℤ → TimeBase → Bool → Result (AudioFrame S)
  create_audio_frame b f samples pts base discontinuity =
      if not (is_positive samples) || not (is_positive base.numerator)
      then failure (status invalid_argument "audio frame samples and time base must be positive")
      else if not (domain_value b.storage.memory_domain == domain_value f.memory_domain)
          || not (length b.planes == 1)
      then failure (status capability_mismatch "audio frame buffer does not match its format")
      else if ltb (size_max / to_size samples) f.bytes_per_pcm_frame
      then failure (status invalid_argument "audio frame size overflows")
      else if not (holds_bytes b (to_size samples * f.bytes_per_pcm_frame))
      then failure (status capability_mismatch "audio frame payload size does not match its format")
      else success (record {
        buffer = b;
        format = f;
        samples_per_channel = samples;
        pts = pts;
        time_base = base;
        discontinuity = discontinuity;
      })

  -- The loop of `validate_frame_plane_alignment`, from the plane `index` on.
  alignments_hold : Buffer S → ℕ → List PlaneLayoutConstraint → Status
  alignments_hold b index [] = ok_status
  alignments_hold b index (c ∷ cs) = elim (plane_address_alignment b index) [
    | failure s ↦ s
    | success n ↦
        if not (n % c.address_alignment == 0)
        then mismatch "submitted frame plane address alignment is unsupported"
        else alignments_hold b (suc index) cs
  ]

  -- `validate_frame_plane_alignment` of src/media/capability.cpp.
  unfoldable pub validate_frame_plane_alignment : VideoFrame S → FormatMemoryDomain → Status
  unfolding alignments_hold
  validate_frame_plane_alignment f fc =
      if not (format_valid fc)
      then mismatch "provider has invalid frame plane alignment constraints"
      else if not (pixel_value f.format.pixel_format == pixel_value fc.pixel_format)
          || not (domain_value f.format.memory_domain == domain_value fc.memory_domain)
          || not (length f.buffer.planes == length fc.plane_constraints)
      then mismatch "submitted frame format does not match alignment constraints"
      else alignments_hold f.buffer 0 fc.plane_constraints
