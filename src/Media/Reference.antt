-- ===== src/Media/Reference.antt =====
-- src/media/reference_backend.cpp: the reference processor and the reference encoder, two backends of
-- include/eavp/media/backend.hpp over a bounded queue of frames. Their methods are the same text but
-- for what a configuration is, what an output is and when it is given: one model serves both, over
-- this difference. A call names the thread that makes it.
pub mod Formats
pub mod Encode
pub mod Payload
pub mod Ran
pub mod Finish
pub mod Offer
pub mod Samples
mod Tests
use eavp.Base.{
  ℕ, zero, suc, ◌+◌, ◌*◌, ◌/◌, ◌%◌, ◌^◌, Bool, true, false, not, ◌&&◌, ◌||◌, List, [], ◌∷◌, ◌++◌,
  Option, none, some, String, if◌then◌else◌, ◌==◌, ltb, leb, length,
}
use eavp.Base.Int.{ℤ, pos, negsuc, int_eq}
use eavp.Status.{
  Status, ok_status, status, bare_status, native_status, is_ok, invalid_state, invalid_argument,
  capability_mismatch, would_block, end_of_stream, device_lost, Result, success, failure, of_status,
}
use eavp.Media.Node.{Outcome, returned}
use eavp.Media.Buffer.{cpu, domain_value}
use eavp.Media.VideoFormat.{VideoFormat, rgb24, nv12, yuv420p, pixel_value}
use eavp.Media.Codec.{
  VideoProcessorConfig, VideoEncoderConfig, CodecId, CodecProfile, RateControlMode, codec_value,
  profile_value, rate_value,
}
use eavp.Media.Frame.{
  VideoFrame, MediaPacket, EncodedStreamFormat, create_packet, validate_frame_plane_alignment,
}
use eavp.Media.Capability.{FormatMemoryDomain, PlaneLayoutConstraint, DimensionRange, find_format}
use eavp.Media.Capability.Request.{ProviderKind}
use eavp.Media.Capability.Processor.{VideoProcessorCapability, same_video_format}
use eavp.Media.Capability.Encoder.{VideoEncoderCapability}
use eavp.Media.Capability.Provider.{ProviderCapability}
use eavp.Media.BackendNode.{Backend}

-- `enum class BackendState`.
pub data BackendState : Type 0 where
  created configured running draining stopped error : BackendState

-- `struct ReferenceBackendOptions`.
pub record ReferenceBackendOptions : Type 0 where
  pub queue_capacity : ℕ
  pub output_delay : ℕ
  pub device_lost_after_submissions : ℕ
  pub encoder_reset_would_block_once : Bool

-- `can_submit`.
abbrev pub can_submit : BackendState → Bool
can_submit BackendState.configured = true
can_submit BackendState.running = true
can_submit _ = false

-- `can_receive`.
abbrev pub can_receive : BackendState → Bool
can_receive BackendState.created = false
can_receive BackendState.error = false
can_receive _ = true

abbrev pub is_draining : BackendState → Bool
is_draining BackendState.draining = true
is_draining _ = false

-- What the two backends differ in: configurations `G` and outputs `W` over frames `V`.
pub record Behaviour (V G W : Type 0) : Type 0 where
  pub accepts : G → Bool
  pub refusal : String
  pub input_format : G → VideoFormat
  pub format_of : V → VideoFormat
  pub foreign_frame : String
  pub alignment : V → Status
  pub delay : ℕ
  pub emit : V → Result W
  pub reset_blocks_once : Bool

-- `class ReferenceProcessor` and `class ReferenceEncoder`, with the thread of BackendThreadAffinity.
pub record ReferenceBackend (V G : Type 0) : Type 0 where
  pub options : ReferenceBackendOptions
  pub owner : Option ℕ
  pub state : BackendState
  pub reset_would_blocked : Bool
  pub successful_submissions : ℕ
  pub config : Option G
  pub queue : List V

abbrev pub new_backend : {V G : Type 0} → ReferenceBackendOptions → ReferenceBackend V G
new_backend options = record {
  options = options;
  owner = none;
  state = BackendState.created;
  reset_would_blocked = false;
  successful_submissions = 0;
  config = none;
  queue = [];
}

-- `verify_current_thread`.
pub verify_current_thread : Option ℕ → ℕ → Status
verify_current_thread none thread = ok_status
verify_current_thread (some t) thread =
    if t == thread
    then ok_status
    else status invalid_state "backend instance called from a different executor thread"

-- The thread that `bind_to_current_thread` leaves bound.
pub bound : Option ℕ → ℕ → ℕ
bound none thread = thread
bound (some t) thread = t

-- `device_lost`.
abbrev pub lost : Status
lost =
    native_status device_lost "reference backend injected device loss" "reference" "submit" (pos 0)

module _ {V G W : Type 0} (k : Behaviour V G W) (thread : ℕ) where
  configure_created : G → ReferenceBackend V G → Status × ReferenceBackend V G
  configure_created g b =
      if k.accepts g
      then (ok_status, record b { state = BackendState.configured; config = some g })
      else (status capability_mismatch k.refusal, b)

  configure_bound : G → ReferenceBackend V G → BackendState → Status × ReferenceBackend V G
  unfolding configure_created
  configure_bound g b BackendState.created = configure_created g b
  configure_bound g b _ = (status invalid_state "configure", b)

  -- `configure`.
  unfoldable pub configure : G → ReferenceBackend V G → Status × ReferenceBackend V G
  unfolding configure_bound verify_current_thread bound
  configure g b =
      let affinity = verify_current_thread b.owner thread in
      if is_ok affinity
      then configure_bound g (record b { owner = some (bound b.owner thread) }) b.state
      else (affinity, b)

  -- `options_.device_lost_after_submissions != 0U && ...`.
  abbrev is_lost : ReferenceBackend V G → Bool
  is_lost b =
      not (b.options.device_lost_after_submissions == 0)
      && leb b.options.device_lost_after_submissions b.successful_submissions

  store : V → ReferenceBackend V G → Status × ReferenceBackend V G
  store v b =
      if is_lost b
      then (lost, record b { state = BackendState.error; queue = [] })
      else if leb b.options.queue_capacity (length b.queue)
      then (bare_status would_block, b)
      else (
        ok_status,
        record b {
          state = BackendState.running;
          successful_submissions = (b.successful_submissions + 1) % 2 ^ 64;
          queue = b.queue ++ v ∷ [];
        },
      )

  -- The frame against the configuration, which a backend that can submit has.
  fits_config : V → Option G → Bool
  fits_config v none = false
  fits_config v (some g) = same_video_format (k.format_of v) (k.input_format g)

  submit_frame : Option V → ReferenceBackend V G → Status × ReferenceBackend V G
  unfolding store fits_config
  submit_frame none b = (bare_status invalid_argument, b)
  submit_frame (some v) b =
      if not (fits_config v b.config)
      then (status capability_mismatch k.foreign_frame, b)
      else if not (is_ok (k.alignment v))
      then (k.alignment v, b)
      else store v b

  -- `submit`; `none` is a null frame.
  unfoldable pub submit : Option V → ReferenceBackend V G → Status × ReferenceBackend V G
  unfolding submit_frame verify_current_thread
  submit v b =
      let affinity = verify_current_thread b.owner thread in
      if not (is_ok affinity)
      then (affinity, b)
      else if not (can_submit b.state)
      then (status invalid_state "submit", b)
      else submit_frame v b

  emitted : Result W → List V → ReferenceBackend V G → Result W × ReferenceBackend V G
  emitted (failure s) rest b = (failure s, record b { state = BackendState.error })
  emitted (success w) rest b = (success w, record b { queue = rest })

  -- A queue that gives nothing now.
  held_back : ReferenceBackend V G → Result W × ReferenceBackend V G
  held_back b =
      if is_draining b.state
      then (failure (bare_status end_of_stream), record b { state = BackendState.stopped })
      else (failure (bare_status would_block), b)

  receive_queued : List V → ReferenceBackend V G → Result W × ReferenceBackend V G
  unfolding emitted held_back
  receive_queued [] b = held_back b
  receive_queued (v ∷ rest) b =
      if is_draining b.state || ltb k.delay (length (v ∷ rest))
      then emitted (k.emit v) rest b
      else held_back b

  receive_open : BackendState → ReferenceBackend V G → Result W × ReferenceBackend V G
  unfolding receive_queued
  receive_open BackendState.stopped b = (failure (bare_status end_of_stream), b)
  receive_open _ b = receive_queued b.queue b

  -- `receive`.
  unfoldable pub receive : ReferenceBackend V G → Result W × ReferenceBackend V G
  unfolding receive_open verify_current_thread
  receive b =
      let affinity = verify_current_thread b.owner thread in
      if not (is_ok affinity)
      then (failure affinity, b)
      else if not (can_receive b.state)
      then (failure (status invalid_state "receive"), b)
      else receive_open b.state b

  drain_open : BackendState → ReferenceBackend V G → Status × ReferenceBackend V G
  drain_open BackendState.stopped b = (ok_status, b)
  drain_open BackendState.draining b = (ok_status, b)
  drain_open BackendState.configured b = (ok_status, record b { state = BackendState.draining })
  drain_open BackendState.running b = (ok_status, record b { state = BackendState.draining })
  drain_open _ b = (status invalid_state "drain", b)

  -- `begin_drain`.
  unfoldable pub begin_drain : ReferenceBackend V G → Status × ReferenceBackend V G
  unfolding drain_open verify_current_thread
  begin_drain b =
      let affinity = verify_current_thread b.owner thread in
      if is_ok affinity then drain_open b.state b else (affinity, b)

  -- `reset`.
  unfoldable pub reset : ReferenceBackend V G → Status × ReferenceBackend V G
  unfolding verify_current_thread
  reset b =
      let affinity = verify_current_thread b.owner thread in
      if not (is_ok affinity)
      then (affinity, b)
      else if k.reset_blocks_once && not b.reset_would_blocked
      then (
        status would_block "reference encoder injected reset backpressure",
        record b { reset_would_blocked = true },
      )
      else (
        ok_status,
        record b {
          state = BackendState.created;
          successful_submissions = 0;
          config = none;
          queue = [];
        },
      )
