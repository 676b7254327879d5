-- ===== src/Media/Frame/Audio.antt =====
-- The payload of an audio frame of src/media/audio_frame.cpp.
use native.Mathlib.Nat.{le-div_iff_mul-le, mul_comm}
use mathlib.Core.Path.{subst}
use eavp.Base.{
  ℕ, ◌*◌, ◌^◌, ◌/◌, ◌≤◌, ◌<◌, ◌≡◌, refl, sym, ap, Bool, true, false, not, ◌||◌, List, [], ◌∷◌, none,
  some, ◌==◌, ltb, length, get_elem?, arith,
}
use eavp.Base.Int.{ℤ, pos, negsuc, is_positive, to_size}
use eavp.Status.{success, success-eq, success_after}
use eavp.Time.{TimeBase}
use eavp.Media.Buffer.{Buffer, PlaneLayout, MemoryDomain, domain_value}
use eavp.Media.VideoFormat.{size_max}
use eavp.Media.Frame.{
  SampleFormat, AudioChannelLayout, AudioFormat, AudioFrame, sample_bytes, channel_count,
  create_audio_format, create_audio_frame, holds_bytes,
}

frame_bytes :
    (sample : SampleFormat) (layout : AudioChannelLayout)
    → (sample_bytes sample == 0) ≡ false
    → 0 < sample_bytes sample * channel_count layout
frame_bytes sample AudioChannelLayout.mono h = ground (arith, h)
frame_bytes sample AudioChannelLayout.stereo h = ground (arith, h)

-- The bytes of one sample of every channel.
created_bytes :
    (sample : SampleFormat) (rate : ℤ) (layout : AudioChannelLayout) (domain : MemoryDomain)
    (f : AudioFormat)
    → create_audio_format sample rate layout domain ≡ success f
    → (f.bytes_per_pcm_frame ≡ sample_bytes sample * channel_count layout)
      × (0 < f.bytes_per_pcm_frame)
unfolding create_audio_format
created_bytes sample rate layout domain f e =
    let r = success_after (sample_bytes sample == 0 || not (is_positive rate)) _ e in
    let q = success_after (ltb (size_max / channel_count layout) (sample_bytes sample)) _ r.1 in
    let g = ap (λ (x : AudioFormat). x.bytes_per_pcm_frame) (success-eq q.1) in
    (sym g, rw (sym g) (frame_bytes sample layout (ground (arith, r.0))))

one_plane :
    (l : List PlaneLayout) (n : ℕ)
    → length l ≡ 1
    → elim (get_elem? l 0) [ none ↦ false | some p ↦ p.size == n ] ≡ true
    → (p : PlaneLayout) × (l ≡ p ∷ []) × (p.size ≡ n)
one_plane [] n l h = absurd (omega (arith, l))
one_plane (p ∷ []) n l h = (p, refl, ground (arith, h))
one_plane (p ∷ q ∷ ps) n l h = absurd (omega (arith, l))

positive_size : (z : ℤ) → is_positive z ≡ true → 0 < to_size z
positive_size (pos n) h = ground (arith, h)
positive_size (negsuc n) h = absurd (ground (arith, h))

-- A product that the division admits.
product_fits :
    (n c : ℕ) → 0 < n → 0 < c → ltb (size_max / n) c ≡ false → (0 < n * c) × (n * c < 2 ^ 64)
product_fits n c p q h =
    let m : c * n ≤ size_max =
      (le-div_iff_mul-le {k = n} {x = c} {y = size_max} p).0 (ground (arith, h)) in
    (grind (arith, p, q), omega (arith, m, mul_comm c n))

module _ {S : Type 0} where
  -- The payload of a frame of that many samples, each of that many bytes.
  abbrev Payload : ℕ → AudioFrame S → Type 0
  Payload bytes a =
      (p : PlaneLayout) × (a.buffer.planes ≡ p ∷ [])
      × (p.size ≡ to_size a.samples_per_channel * bytes)
      × (is_positive a.samples_per_channel ≡ true)
      × (0 < p.size)
      × (p.size < 2 ^ 64)

  -- When an audio frame is made of an audio format that was made, it has a positive number of samples
  -- for each channel and its buffer has exactly one plane, which is not empty, whose bytes are
  -- exactly those samples times the bytes of a sample times the number of channels; the product
  -- is below 2 ^ 64.
  pub audio_frame_holds :
      (sample : SampleFormat) (rate : ℤ) (layout : AudioChannelLayout) (domain : MemoryDomain)
      (f : AudioFormat) (b : Buffer S) (samples pts : ℤ) (base : TimeBase) (discontinuity : Bool)
      (a : AudioFrame S)
      → create_audio_format sample rate layout domain ≡ success f
      → create_audio_frame b f samples pts base discontinuity ≡ success a
      → Payload (sample_bytes sample * channel_count layout) a
  unfolding create_audio_frame
  audio_frame_holds sample rate layout domain f b samples pts base discontinuity a m e =
      let c = created_bytes sample rate layout domain f m in
      let g1 = success_after (not (is_positive samples) || not (is_positive base.numerator)) _ e in
      let g2 =
        success_after
          (not (domain_value b.storage.memory_domain == domain_value f.memory_domain)
            || not (length b.planes == 1))
          _ g1.1 in
      let g3 = success_after (ltb (size_max / to_size samples) f.bytes_per_pcm_frame) _ g2.1 in
      let g4 =
        success_after (not (holds_bytes b (to_size samples * f.bytes_per_pcm_frame))) _ g3.1 in
      let plus : is_positive samples ≡ true = ground (arith, g1.0) in
      let n = positive_size samples plus in
      let fits = product_fits (to_size samples) f.bytes_per_pcm_frame n c.1 g3.0 in
      let o =
        one_plane b.planes (to_size samples * f.bytes_per_pcm_frame) (ground (arith, g2.0))
          (ground (arith, g4.0)) in
      subst (Payload (sample_bytes sample * channel_count layout)) (success-eq g4.1)
        (rw (sym c.0) (o.0, o.1, o.2, plus, rw o.2 fits.0, rw o.2 fits.1))
