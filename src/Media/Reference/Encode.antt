-- ===== src/Media/Reference/Encode.antt =====
-- What src/media/reference_backend.cpp encodes, and the reference processor and encoder as backends
-- of include/eavp/media/backend.hpp.
use eavp.Base.{ℕ, zero, suc, ◌+◌, ◌/◌, ◌%◌, ◌^◌, true, false, List, [], ◌∷◌, ◌++◌, Option, some}
use eavp.Base.Int.{pos, to_size}
use eavp.Status.{Result, success, failure}
use eavp.Media.Node.{returned}
use eavp.Media.VideoFormat.{VideoFormat}
use eavp.Media.Codec.{VideoProcessorConfig, VideoEncoderConfig, CodecId}
use eavp.Media.Frame.{VideoFrame, MediaPacket, EncodedStreamFormat, create_packet}
use eavp.Media.BackendNode.{Backend}
use eavp.Media.Reference.{
  ReferenceBackendOptions, ReferenceBackend, Behaviour, configure, submit, receive, begin_drain,
  reset,
}
use eavp.Media.Reference.Formats.{
  is_identity_processor_config, is_reference_encoder_config, validate_reference_alignment,
}

-- The loop that adds the bytes, as `std::uint32_t`.
unfoldable pub checksum : ℕ → List ℕ → ℕ
checksum sum [] = sum
checksum sum (b ∷ bs) = checksum ((sum + b) % 2 ^ 32) bs

-- The loops that write a number, the highest of `n` bytes first.
unfoldable pub big_endian : ℕ → ℕ → List ℕ
big_endian zero x = []
big_endian (suc n) x = (x / 256 ^ n % 256) ∷ big_endian n x

-- The 16 bytes of the payload.
unfoldable pub payload : ℕ → ℕ → List ℕ
unfolding big_endian
payload pts sum = 0x45 ∷ 0x41 ∷ 0x56 ∷ 0x50 ∷ (big_endian 8 pts ++ big_endian 4 sum)

module _ {S : Type 0} where
  packet_of : VideoFrame S → Result (List ℕ) → Result (MediaPacket (List ℕ))
  unfolding checksum payload create_packet
  packet_of f (failure s) = failure s
  packet_of f (success bytes) = create_packet (record {
    buffer = payload (to_size f.pts) (checksum 0 bytes);
    codec = CodecId.reference;
    stream_format = EncodedStreamFormat.reference;
    stream_index = pos 0;
    pts = f.pts;
    dts = f.pts;
    duration = pos 1;
    time_base = f.time_base;
    key_frame = true;
    codec_config = [];
  })

  -- `encode`. What the first plane of the frame holds when it is mapped is a parameter; the buffer of
  -- the packet is its 16 bytes.
  unfoldable pub encode :
      (VideoFrame S → Result (List ℕ)) → VideoFrame S → Result (MediaPacket (List ℕ))
  unfolding packet_of
  encode contents f = packet_of f (contents f)

  -- `class ReferenceProcessor`, which gives each frame as it is.
  abbrev pub processor_behaviour : Behaviour (VideoFrame S) VideoProcessorConfig (VideoFrame S)
  processor_behaviour = record {
    accepts = is_identity_processor_config;
    refusal = "reference processor supports only identical CPU formats";
    input_format = λ g. g.input_format;
    format_of = λ f. f.format;
    foreign_frame = "reference processor input frame format does not match configuration";
    alignment = validate_reference_alignment;
    delay = 0;
    emit = success;
    reset_blocks_once = false;
  }

  -- `class ReferenceEncoder`.
  abbrev pub encoder_behaviour :
      (VideoFrame S → Result (List ℕ))
      → ReferenceBackendOptions
      → Behaviour (VideoFrame S) (VideoFormat × VideoEncoderConfig) (MediaPacket (List ℕ))
  encoder_behaviour contents options = record {
    accepts = is_reference_encoder_config;
    refusal = "reference encoder supports only its CPU reference codec";
    input_format = λ g. g.0;
    format_of = λ f. f.format;
    foreign_frame = "reference encoder input frame format does not match configuration";
    alignment = validate_reference_alignment;
    delay = options.output_delay;
    emit = encode contents;
    reset_blocks_once = options.encoder_reset_would_block_once;
  }

pub offered : {W : Type 0} → Result W → Result (Option W)
offered (failure s) = failure s
offered (success w) = success (some w)

-- A reference backend, called on one thread, as the backend that a node drives.
abbrev pub as_backend :
    {V G W : Type 0} → Behaviour V G W → ℕ → G → Backend (ReferenceBackend V G) V W
as_backend k thread g = record {
  configure = λ b. (returned (configure k thread g b).0, (configure k thread g b).1);
  submit = λ v b. (returned (submit k thread (some v) b).0, (submit k thread (some v) b).1);
  receive = λ b. (returned (offered (receive k thread b).0), (receive k thread b).1);
  begin_drain = λ b. (returned (begin_drain k thread b).0, (begin_drain k thread b).1);
  reset = λ b. (returned (reset k thread b).0, (reset k thread b).1);
}
