-- ===== src/Media/Reference/Tests.antt =====
-- Runs of the reference backends of src/media/reference_backend.cpp.
use eavp.Media.Reference.Samples.{frame, contents, options, copy}
use mathlib.Core.Path.{subst}
use eavp.Base.{◌≡◌, ◌++◌, ◌%◌, ◌^◌, refl, ap, false, true, [], ◌∷◌, some, List, ℕ, length}
use eavp.Base.Int.{pos}
use eavp.Status.{is_ok, ok_status, bare_status, end_of_stream, success}
use eavp.Media.Buffer.Mapped.{plane_address_alignment}
use eavp.Media.VideoFormat.{same_planes}
use eavp.Media.Codec.{CodecId, VideoProcessorConfig}
use eavp.Media.Frame.{
  VideoFrame, MediaPacket, EncodedStreamFormat, create_packet, validate_frame_plane_alignment,
}
use eavp.Media.Capability.{format_valid}
use eavp.Media.Capability.Processor.{same_video_format}
use eavp.Media.Reference.{
  ReferenceBackend, BackendState, new_backend, configure, submit, receive, begin_drain,
  verify_current_thread,
}
use eavp.Media.Reference.Encode.{checksum, payload, encode, processor_behaviour}
use eavp.Media.Reference.Formats.{validate_reference_alignment, is_identity_processor_config}
use eavp.Media.Reference.Payload.{encode_reads_back, value, total}
use eavp.Media.Reference.Ran.{Keeps, Ran, fresh, configured, accepted, gave}
use eavp.Media.Reference.Ran.Every.{ran-Keeps}
use eavp.Media.Reference.Finish.{receive_all, drain_finishes}

abbrev packet : MediaPacket (List ℕ)
packet = record {
  buffer = 0x45 ∷ 0x41 ∷ 0x56 ∷ 0x50 ∷ 0 ∷ 0 ∷ 0 ∷ 0 ∷ 0 ∷ 0 ∷ 1 ∷ 44 ∷ 0 ∷ 0 ∷ 2 ∷ 247 ∷ [];
  codec = CodecId.reference;
  stream_format = EncodedStreamFormat.reference;
  stream_index = pos 0;
  pts = pos 300;
  dts = pos 300;
  duration = pos 1;
  time_base = record { numerator = pos 1; denominator = pos 30 };
  key_frame = true;
  codec_config = [];
}

encoded : encode contents (frame 300) ≡ success packet
unfolding encode payload checksum create_packet
encoded = refl

encode_reads_back_example :
    (bytes : List ℕ) × (stamp : List ℕ) × (sum : List ℕ) × (contents (frame 300) ≡ success bytes)
    × (packet.buffer ≡ 0x45 ∷ 0x41 ∷ 0x56 ∷ 0x50 ∷ (stamp ++ sum))
    × (length stamp ≡ 8)
    × (value stamp ≡ 300)
    × (length sum ≡ 4)
    × (value sum ≡ total bytes % 2 ^ 32)
    × (packet.pts ≡ pos 300)
    × (packet.dts ≡ pos 300)
encode_reads_back_example = encode_reads_back contents (frame 300) packet encoded

abbrev after :
    ℕ
    → BackendState
    → List (VideoFrame Unit)
    → ReferenceBackend (VideoFrame Unit) VideoProcessorConfig
after n state queue = record {
  options = options;
  owner = some 7;
  state = state;
  reset_would_blocked = false;
  successful_submissions = n;
  config = some copy;
  queue = queue;
}

configure_example :
    configure processor_behaviour 7 copy (new_backend options)
    ≡ (ok_status, after 0 BackendState.configured [])
unfolding configure is_identity_processor_config same_video_format same_planes
configure_example = refl

first_submit :
    submit processor_behaviour 7 (some (frame 0)) (after 0 BackendState.configured [])
    ≡ (ok_status, after 1 BackendState.running (frame 0 ∷ []))
unfolding submit same_video_format validate_reference_alignment validate_frame_plane_alignment
    plane_address_alignment same_planes format_valid
first_submit = refl

second_submit :
    submit processor_behaviour 7 (some (frame 1)) (after 1 BackendState.running (frame 0 ∷ []))
    ≡ (ok_status, after 2 BackendState.running (frame 0 ∷ frame 1 ∷ []))
unfolding submit same_video_format validate_reference_alignment validate_frame_plane_alignment
    plane_address_alignment same_planes format_valid
second_submit = refl

first_receive :
    receive processor_behaviour 7 (after 2 BackendState.running (frame 0 ∷ frame 1 ∷ []))
    ≡ (success (frame 0), after 2 BackendState.running (frame 1 ∷ []))
unfolding receive
first_receive = refl

abbrev RanAs :
    ReferenceBackend (VideoFrame Unit) VideoProcessorConfig
    → List (VideoFrame Unit)
    → List (VideoFrame Unit)
    → Type 0
RanAs b vs ws = Ran processor_behaviour options b vs ws

ran : RanAs (after 2 BackendState.running (frame 1 ∷ [])) (frame 0 ∷ frame 1 ∷ []) (frame 0 ∷ [])
ran =
    let k = processor_behaviour in
    let b0 = after 0 BackendState.configured [] in
    let b1 = after 1 BackendState.running (frame 0 ∷ []) in
    let b2 = after 2 BackendState.running (frame 0 ∷ frame 1 ∷ []) in
    let c : RanAs (configure k 7 copy (new_backend options)).1 [] [] = configured 7 copy fresh in
    let r0 : RanAs b0 [] [] = subst (λ b. RanAs b.1 [] []) configure_example c in
    let s1 : RanAs (submit k 7 (some (frame 0)) b0).1 (frame 0 ∷ []) [] =
      accepted 7 (frame 0) (ap (λ r. is_ok r.0) first_submit) r0 in
    let r1 : RanAs b1 (frame 0 ∷ []) [] =
      subst (λ b. RanAs b.1 (frame 0 ∷ []) []) first_submit s1 in
    let s2 : RanAs (submit k 7 (some (frame 1)) b1).1 (frame 0 ∷ frame 1 ∷ []) [] =
      accepted 7 (frame 1) (ap (λ r. is_ok r.0) second_submit) r1 in
    let r2 : RanAs b2 (frame 0 ∷ frame 1 ∷ []) [] =
      subst (λ b. RanAs b.1 (frame 0 ∷ frame 1 ∷ []) []) second_submit s2 in
    let s3 : RanAs (receive k 7 b2).1 (frame 0 ∷ frame 1 ∷ []) (frame 0 ∷ []) =
      gave 7 (frame 0) (ap (λ r. r.0) first_receive) r2 in
    subst (λ b. RanAs b.1 (frame 0 ∷ frame 1 ∷ []) (frame 0 ∷ [])) first_receive s3

ran-Keeps_example :
    Keeps processor_behaviour options
      (after 2 BackendState.running (frame 1 ∷ []))
      (frame 0 ∷ frame 1 ∷ [])
      (frame 0 ∷ [])
ran-Keeps_example = ran-Keeps processor_behaviour options ran

owned : is_ok (verify_current_thread (some 7) 7) ≡ true
unfolding verify_current_thread
owned = refl

drain_finishes_example :
    receive_all processor_behaviour 7 2
      (begin_drain processor_behaviour 7 (after 2 BackendState.running (frame 1 ∷ []))).1
    ≡ (frame 1 ∷ [], bare_status end_of_stream, after 2 BackendState.stopped [])
drain_finishes_example =
    drain_finishes processor_behaviour 7 (after 2 BackendState.running (frame 1 ∷ [])) owned
      (frame 1 ∷ []) refl (refl, tt)
