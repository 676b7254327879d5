-- ===== src/Media/Capability/Provider/ZeroCopy.antt =====
-- A provider of src/media/capability.cpp that negotiates a request for zero copy serves it so.
use mathlib.Core.Path.{subst}
use eavp.Base.{
  ◌⊎◌, ◌≡◌, sym, ap, ◌∙◌, refl, true, false, List, [], ◌∷◌, some, arith, Bool-cases, Option-cases,
  inl, inr,
}
use eavp.Status.{Status, Result-cases, success-eq, is_ok, Result, success, failure}
use eavp.Media.Capability.Request.{VideoProcessorRequest, VideoEncoderRequest}
use eavp.Media.Codec.{VideoProcessorConfig, VideoEncoderConfig}
use eavp.Media.Capability.Processor
use eavp.Media.Capability.Processor.{VideoProcessorCapability}
use eavp.Media.Capability.Encoder
use eavp.Media.Capability.Encoder.{VideoEncoderCapability}
use eavp.Media.Capability.Provider.{
  ProviderCapability, CapabilityKind, Negotiation, provider_match, first_match, negotiated,
  negotiate_first, negotiate, processor_kind, encoder_kind,
}

module _ {R C F G : Type 0} (k : CapabilityKind R C F G) where
  first_match-ok :
      (cs : List C) (r : R) (c : C) → first_match k cs r ≡ some c → is_ok (k.match c r) ≡ true
  unfolding first_match
  first_match-ok [] r c h = absurd (cc)
  first_match-ok (d ∷ cs) r c h = elim (Bool-cases (is_ok (k.match d r))) [
    | inl y ↦ let e : d ≡ c = ground (arith, y, h) in ap (λ x. is_ok (k.match x r)) (sym e) ∙ y
    | inr n ↦ first_match-ok cs r c (ground (arith, n, h))
  ]

  first_match-only : (c d : C) (r : R) → first_match k (c ∷ []) r ≡ some d → d ≡ c
  unfolding first_match
  first_match-only c d r h = elim (Bool-cases (is_ok (k.match c r))) [
    | inl y ↦ ground (arith, y, h)
    | inr n ↦ absurd (ground (arith, n, h))
  ]

  negotiated-success :
      (p : ProviderCapability) (r : R) (c : C) (a : Result F) (n : Negotiation G)
      → negotiated k p r c a ≡ success n
      → (f : F) × (a ≡ success f) × (negotiated k p r c (success f) ≡ success n)
  unfolding negotiated
  negotiated-success p r c (failure s) n h = absurd (ground (arith, h))
  negotiated-success p r c (success f) n h = (f, refl, h)

  -- A negotiation is made by the first capability that matches, from what that capability makes.
  pub negotiate-first :
      (p : ProviderCapability) (r : R) (n : Negotiation G)
      → negotiate k p r ≡ success n
      → (c : C) × (f : F) × (first_match k (k.capabilities p) r ≡ some c)
        × (k.actual c r ≡ success f)
        × (negotiated k p r c (success f) ≡ success n)
  unfolding negotiate negotiate_first
  negotiate-first p r n h = elim (Bool-cases (is_ok (provider_match k p r))) [
    | inr m ↦ absurd (ground (arith, m, h))
    | inl m ↦ elim (Option-cases (first_match k (k.capabilities p) r)) [
      | inl e ↦ absurd (ground (arith, m, e, h))
      | inr (c, e) ↦
          let (f, a, s) = negotiated-success p r c (k.actual c r) n (ground (arith, m, e, h)) in
          (c, f, e, a, s)
    ]
  ]

  -- This capability matches.
  pub negotiate-success :
      (p : ProviderCapability) (r : R) (n : Negotiation G)
      → negotiate k p r ≡ success n
      → (c : C) × (f : F) × (is_ok (k.match c r) ≡ true)
        × (k.actual c r ≡ success f)
        × (negotiated k p r c (success f) ≡ success n)
  negotiate-success p r n h =
      let (c, f, e, a, s) = negotiate-first p r n h in
      (c, f, first_match-ok (k.capabilities p) r c e, a, s)

  -- The only capability of a provider is the one that negotiates.
  pub negotiate-only :
      (p : ProviderCapability) (r : R) (n : Negotiation G) (c : C)
      → k.capabilities p ≡ c ∷ []
      → negotiate k p r ≡ success n
      → (f : F) × (is_ok (k.match c r) ≡ true)
        × (k.actual c r ≡ success f)
        × (negotiated k p r c (success f) ≡ success n)
  unfolding first_match
  negotiate-only p r n c o h =
      let (d, f, e, a, s) = negotiate-first p r n h in
      let m = first_match-ok (k.capabilities p) r d e in
      let g : first_match k (c ∷ []) r ≡ some d = ap (λ l. first_match k l r) (sym o) ∙ e in
      let q : d ≡ c = first_match-only c d r g in
      subst
        (λ (x : C).
          (f : F) × (is_ok (k.match x r) ≡ true)
          × (k.actual x r ≡ success f)
          × (negotiated k p r x (success f) ≡ success n))
        q (f, m, a, s)

encoder_zero_copy-eq :
    (p : ProviderCapability) (r : VideoEncoderRequest) (n : Negotiation VideoEncoderConfig)
    → r.require_zero_copy ≡ true
    → negotiate encoder_kind p r ≡ success n
    → n ≡ record {
      provider_id = p.provider_id;
      config = r.config;
      actual_format = r.input_format;
      requires_explicit_conversion = false;
      zero_copy = true;
    }
unfolding negotiated
encoder_zero_copy-eq p r n z h =
    let (c, f, m, a, s) = negotiate-success encoder_kind p r n h in
    let d = Encoder.Direct.match-direct c r z m in
    let e : f ≡ r.input_format = success-eq (sym a ∙ d.2) in
    sym (success-eq s) ∙ (λ i. record {
      provider_id = p.provider_id;
      config = r.config;
      actual_format = e i;
      requires_explicit_conversion = d.1 i;
      zero_copy = d.0 i;
    })

processor_zero_copy-eq :
    (p : ProviderCapability) (r : VideoProcessorRequest) (n : Negotiation VideoProcessorConfig)
    → r.require_zero_copy ≡ true
    → negotiate processor_kind p r ≡ success n
    → n ≡ record {
      provider_id = p.provider_id;
      config = r.config;
      actual_format = r.config.output_format;
      requires_explicit_conversion = false;
      zero_copy = true;
    }
unfolding negotiated
processor_zero_copy-eq p r n z h =
    let (c, f, m, a, s) = negotiate-success processor_kind p r n h in
    let d = Processor.Direct.match-direct c r z m in
    let e : f ≡ r.config = success-eq (sym a ∙ d.2) in
    sym (success-eq s) ∙ (λ i. record {
      provider_id = p.provider_id;
      config = e i;
      actual_format = (e i).output_format;
      requires_explicit_conversion = d.1 i;
      zero_copy = d.0 i;
    })

-- A provider that is asked for an encoder with zero copy fails, or promises zero copy and no
-- conversion, on the input format and with the configuration that were asked for.
pub encoder_zero_copy :
    (p : ProviderCapability) (r : VideoEncoderRequest)
    → r.require_zero_copy ≡ true
    → ((s : Status) × (negotiate encoder_kind p r ≡ failure s))
      ⊎ (negotiate encoder_kind p r
          ≡ success (record {
            provider_id = p.provider_id;
            config = r.config;
            actual_format = r.input_format;
            requires_explicit_conversion = false;
            zero_copy = true;
          }))
encoder_zero_copy p r z = elim (Result-cases (negotiate encoder_kind p r)) [
  | inl f ↦ inl f
  | inr (n, e) ↦ inr (e ∙ ap success (encoder_zero_copy-eq p r n z e))
]

-- A provider that is asked for a processor with zero copy fails, or promises zero copy and no
-- conversion, with the configuration that was asked for.
pub processor_zero_copy :
    (p : ProviderCapability) (r : VideoProcessorRequest)
    → r.require_zero_copy ≡ true
    → ((s : Status) × (negotiate processor_kind p r ≡ failure s))
      ⊎ (negotiate processor_kind p r
          ≡ success (record {
            provider_id = p.provider_id;
            config = r.config;
            actual_format = r.config.output_format;
            requires_explicit_conversion = false;
            zero_copy = true;
          }))
processor_zero_copy p r z = elim (Result-cases (negotiate processor_kind p r)) [
  | inl f ↦ inl f
  | inr (n, e) ↦ inr (e ∙ ap success (processor_zero_copy-eq p r n z e))
]
