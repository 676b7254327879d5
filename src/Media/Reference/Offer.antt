-- ===== src/Media/Reference/Offer.antt =====
-- What the reference provider of src/media/reference_backend.cpp negotiates, its backends accept.
pub mod Identity
mod Tests
use mathlib.Core.Path.{subst}
use eavp.Base.{
  ℕ, ◌≡◌, refl, sym, ap, ◌∙◌, true, false, not, ◌&&◌, ◌||◌, ◌==◌, Bool, List, [], ◌∷◌, Option, none,
  some, arith,
}
use eavp.Base.Int.{ℤ, pos, int_eq, int_eq-eq, int_eq_refl}
use eavp.Status.{Status, ok_status, is_ok, Result, success, success-eq}
use eavp.Media.Buffer.{MemoryDomain, PlaneLayout, cpu, mmap, domain_value}
use eavp.Media.VideoFormat.{VideoFormat, PixelFormat}
use eavp.Media.Codec.{
  VideoEncoderConfig, CodecId, RateControlMode, CodecProfile, codec_value, profile_value,
  rate_value,
}
use eavp.Media.Capability.{FormatMemoryDomain, find_format}
use eavp.Media.Capability.Request.{VideoEncoderRequest}
use eavp.Media.Capability.Encoder
use eavp.Media.Capability.Encoder.{contains_value}
use eavp.Media.Capability.Encoder.Stable.{actual-same}
use eavp.Media.Capability.Encoder.Direct.{match-found, Codes}
use eavp.Media.Capability.Provider.{Negotiation, negotiate, negotiated, encoder_kind}
use eavp.Media.Capability.Provider.ZeroCopy.{negotiate-only}
use eavp.Media.Reference.{
  Behaviour, BackendState, ReferenceBackend, ReferenceBackendOptions, new_backend, configure,
  configure_bound, configure_created, verify_current_thread, bound,
}
use eavp.Media.Reference.Encode.{encoder_behaviour}
use eavp.Media.Frame.{VideoFrame}
use eavp.Media.Reference.Formats.{
  reference_formats, make_reference_capability, encoder_capability, is_reference_encoder_config,
}

-- All formats of the provider are in the memory of the processor.
pub reference_formats-cpu :
    (p : PixelFormat) (d : MemoryDomain) (f : FormatMemoryDomain)
    → find_format reference_formats p d ≡ some f
    → domain_value d ≡ 0
unfolding find_format
reference_formats-cpu p cpu f h = refl
reference_formats-cpu p d f h = absurd (ground (arith, h))

-- The only value of a list of one that is equal to `x`.
contains_value-only {ℓ} :
    {A : Type ℓ} (is_value : A → Bool) (x : A)
    → not (contains_value is_value (x ∷ [])) ≡ false
    → is_value x ≡ true
unfolding contains_value
contains_value-only is_value x h = ground (arith, h)

==_comm : (a b : ℕ) → (a == b) ≡ true → (b == a) ≡ true
==_comm a b h = ground (arith, h)

-- Pictures of one extent in the memory of the processor, for the codec of the provider.
accepted_config :
    (f : VideoFormat) (c : VideoEncoderConfig)
    → domain_value f.memory_domain ≡ 0
    → c.width ≡ f.width
    → c.height ≡ f.height
    → (codec_value c.codec == codec_value CodecId.reference) ≡ true
    → (rate_value c.rate_control == rate_value RateControlMode.constant_quality) ≡ true
    → (profile_value c.profile == profile_value CodecProfile.unknown) ≡ true
    → int_eq c.level_idc (pos 0) ≡ true
    → is_reference_encoder_config (f, c) ≡ true
unfolding is_reference_encoder_config
accepted_config f c d w h co ra pr le =
    let w : int_eq c.width f.width ≡ true = rw w (int_eq_refl f.width) in
    let h : int_eq c.height f.height ≡ true = rw h (int_eq_refl f.height) in
    ground (arith, d, w, h, co, ra, pr, le)

encoder_accepts :
    (r : VideoEncoderRequest) (f : VideoFormat)
    → is_ok (Encoder.match encoder_capability r) ≡ true
    → Encoder.actual_input_format encoder_capability r ≡ success f
    → is_reference_encoder_config (f, r.config) ≡ true
encoder_accepts r f m a =
    let (x, fc, e, k) = match-found encoder_capability r m in
    let (ps, s) = actual-same encoder_capability r f a in
    let d = reference_formats-cpu r.input_format.pixel_format r.input_format.memory_domain fc e in
    let c = k.codec in
    let w = int_eq-eq r.input_format.width r.config.width (ground (arith, x)) in
    let h = int_eq-eq r.input_format.height r.config.height (ground (arith, x)) in
    let profile =
      contains_value-only (λ p. profile_value p == profile_value r.config.profile)
        CodecProfile.unknown k.profile in
    let level = contains_value-only (λ l. int_eq l r.config.level_idc) (pos 0) k.level in
    let rate =
      contains_value-only (λ p. rate_value p == rate_value r.config.rate_control)
        RateControlMode.constant_quality k.rate in
    accepted_config f r.config (ap (λ (g : VideoFormat). domain_value g.memory_domain) (sym s) ∙ d)
      (sym w ∙ ap (λ (g : VideoFormat). g.width) s) (sym h ∙ ap (λ (g : VideoFormat). g.height) s)
      (ground (arith, c))
      (==_comm (rate_value RateControlMode.constant_quality) (rate_value r.config.rate_control)
        rate)
      (==_comm (profile_value CodecProfile.unknown) (profile_value r.config.profile) profile)
      (ap (λ z. int_eq z (pos 0)) (sym (int_eq-eq (pos 0) r.config.level_idc level)))

-- A new backend that was configured on a thread.
abbrev pub configured_backend :
    {V G : Type 0} → ReferenceBackendOptions → ℕ → G → ReferenceBackend V G
configured_backend o t g = record (new_backend o) {
  owner = some t;
  state = BackendState.configured;
  config = some g;
}

-- A new backend, on its first thread, with a configuration that it accepts.
pub configure-new :
    {V G W : Type 0} (k : Behaviour V G W) (o : ReferenceBackendOptions) (t : ℕ) (g : G)
    → k.accepts g ≡ true
    → configure k t g (new_backend o) ≡ (ok_status, configured_backend o t g)
unfolding configure configure_bound configure_created verify_current_thread bound
configure-new k o t g a = rw a refl

-- Whatever the reference provider negotiates for a request, a new reference encoder accepts: it
-- is configured with the negotiated format and configuration, and is bound to the calling thread.
pub encoder_serves :
    {S : Type 0} (contents : VideoFrame S → Result (List ℕ)) (o : ReferenceBackendOptions) (t : ℕ)
    (r : VideoEncoderRequest) (n : Negotiation VideoEncoderConfig)
    → negotiate encoder_kind make_reference_capability r ≡ success n
    → configure (encoder_behaviour contents o) t (n.actual_format, n.config) (new_backend o)
      ≡ (ok_status, configured_backend o t (n.actual_format, n.config))
unfolding negotiated
encoder_serves contents o t r n h =
    let (f, m, a, s) =
      negotiate-only encoder_kind make_reference_capability r n encoder_capability refl h in
    let e = success-eq s in
    let c = encoder_accepts r f m a in
    configure-new (encoder_behaviour contents o) o t (n.actual_format, n.config)
      (subst
        (λ (x : Negotiation VideoEncoderConfig).
          is_reference_encoder_config (x.actual_format, x.config) ≡ true)
        e c)
