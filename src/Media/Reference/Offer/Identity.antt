-- ===== src/Media/Reference/Offer/Identity.antt =====
-- The reference processor of src/media/reference_backend.cpp accepts what its provider negotiates.
use mathlib.Core.Path.{subst}
use eavp.Base.{ℕ, ◌≡◌, refl, sym, ap, ◌∙◌, true, false, List, some, arith, inl, inr}
use eavp.Status.{ok_status, is_ok, Result, success, success-eq}
use eavp.Media.Buffer.{PlaneLayout, domain_value}
use eavp.Media.VideoFormat.{VideoFormat}
use eavp.Media.Codec.{VideoProcessorConfig}
use eavp.Media.Capability.{
  FormatMemoryDomain, DimensionRange, find_format, storage_extent, actual_planes,
}
use eavp.Media.Capability.Made.{Made, make_actual_format-Made}
use eavp.Media.Capability.Request.{VideoProcessorRequest, VideoProcessingOperation}
use eavp.Media.Capability.Processor
use eavp.Media.Capability.Processor.{
  same_video_format, requires_operation, check_inferred, check_operation, inferred_operations, made,
  convert_both,
}
use eavp.Media.Capability.Processor.Alike.{
  Alike, find_format-values, same_video_format-Alike, same_video_format-planes,
}
use eavp.Media.Capability.Processor.Direct.{match-found, check_inferred-none}
use eavp.Media.Capability.Processor.Settled.{convert_both-eq, negotiated-success}
use eavp.Media.Capability.Provider.{Negotiation, negotiate, negotiated, processor_kind}
use eavp.Media.Capability.Provider.ZeroCopy.{negotiate-only}
use eavp.Media.Reference.{ReferenceBackendOptions, new_backend, configure}
use eavp.Media.Reference.Encode.{processor_behaviour}
use eavp.Media.Reference.Offer.{reference_formats-cpu, configured_backend, configure-new}
use eavp.Media.Reference.Formats.{
  reference_formats, reference_range, make_reference_capability, processor_capability,
  is_identity_processor_config,
}

-- A configuration of pictures that are alike and in the memory of the processor, that needs no
-- cropping and no rotation.
identity :
    (g : VideoProcessorConfig)
    → domain_value g.input_format.memory_domain ≡ 0
    → same_video_format g.input_format g.output_format ≡ true
    → requires_operation g VideoProcessingOperation.cropping ≡ false
    → requires_operation g VideoProcessingOperation.rotation ≡ false
    → is_identity_processor_config g ≡ true
unfolding is_identity_processor_config requires_operation
identity g d s c r = rw (d, s) (ground (arith, c, r))

-- What a match of the processor of the provider has found.
record Plain (g : VideoProcessorConfig) : Type 0 where
  domain : domain_value g.input_format.memory_domain ≡ 0
  same : same_video_format g.input_format g.output_format ≡ true
  cropping : requires_operation g VideoProcessingOperation.cropping ≡ false
  rotation : requires_operation g VideoProcessingOperation.rotation ≡ false

match-Plain :
    (r : VideoProcessorRequest)
    → is_ok (Processor.match processor_capability r) ≡ true
    → Plain r.config
match-Plain r h =
    let (x, i, o, fi, fo, s) = match-found processor_capability r h in
    let a = check_inferred-none r.config VideoProcessingOperation.scaling _ s.inferred in
    let b = check_inferred-none r.config VideoProcessingOperation.cropping _ a.1 in
    let c = check_inferred-none r.config VideoProcessingOperation.rotation _ b.1 in
    record {
      domain =
          reference_formats-cpu r.config.input_format.pixel_format
            r.config.input_format.memory_domain i fi;
      same = ground (arith, x);
      cropping = b.0;
      rotation = c.0;
    }

some-eq {ℓ} : {A : Type ℓ} {a b : A} → some a ≡ some b → a ≡ b
some-eq h = cc

-- The planes that are made for two pictures that are alike.
one_layout :
    (f g i o : VideoFormat) (fc : FormatMemoryDomain) (wr hr : DimensionRange)
    → Alike f g
    → Made f i fc wr hr
    → Made g o fc wr hr
    → (ps : List PlaneLayout) × (record f { planes = ps } ≡ i) × (record g { planes = ps } ≡ o)
unfolding storage_extent
one_layout f g i o fc wr hr a m n =
    let e : storage_extent f wr hr ≡ storage_extent g wr hr = rw (a.width, a.height) refl in
    let x : (m.width, m.height) ≡ (n.width, n.height) = some-eq (sym m.extent ∙ e ∙ n.extent) in
    let p : m.planes ≡ n.planes =
      some-eq (
        sym m.made ∙ ap (λ (z : ℕ × ℕ). actual_planes z.0 z.1 0 fc.plane_constraints) x ∙ n.made) in
    (m.planes, m.same, ap (λ (z : List PlaneLayout). record g { planes = z }) p ∙ n.same)

module _ (r : VideoProcessorRequest) where
  abbrev made_of : VideoFormat → Result VideoFormat
  made_of f =
      made (find_format reference_formats f.pixel_format f.memory_domain) f reference_range
        reference_range

  entry-Made :
      (f g : VideoFormat) (fc : FormatMemoryDomain)
      → find_format reference_formats f.pixel_format f.memory_domain ≡ some fc
      → made_of f ≡ success g
      → Made f g fc reference_range reference_range
  entry-Made f g fc e h = make_actual_format-Made f g fc reference_range reference_range (rw e at h)

  -- A negotiated configuration is plain as well.
  convert_both-Plain :
      (g : VideoProcessorConfig)
      → is_ok (Processor.match processor_capability r) ≡ true
      → convert_both r.config (made_of r.config.input_format) (made_of r.config.output_format)
        ≡ success g
      → is_identity_processor_config g ≡ true
  unfolding requires_operation
  convert_both-Plain g m h =
      let c = r.config in
      let p = match-Plain r m in
      let a = same_video_format-Alike c.input_format c.output_format p.same in
      let (x, fi, fo, ei, eo, s) = match-found processor_capability r m in
      let (i, o, mi, mo, e) =
        convert_both-eq c g (made_of c.input_format) (made_of c.output_format) h in
      let same_entry =
        find_format-values reference_formats c.input_format.pixel_format
          c.output_format.pixel_format c.input_format.memory_domain c.output_format.memory_domain
          a.pixels a.domains in
      let (ps, ui, uo) =
        one_layout c.input_format c.output_format i o fi reference_range reference_range a
          (entry-Made c.input_format i fi ei mi)
          (entry-Made c.output_format o fi (sym same_entry ∙ ei) mo) in
      let q : record c {
        input_format = record c.input_format { planes = ps };
        output_format = record c.output_format { planes = ps };
      }
          ≡ g =
        (λ j. record c { input_format = ui j; output_format = uo j }) ∙ e in
      subst (λ (z : VideoProcessorConfig). is_identity_processor_config z ≡ true) q
        (identity
          (record c {
            input_format = record c.input_format { planes = ps };
            output_format = record c.output_format { planes = ps };
          })
          p.domain (same_video_format-planes c.input_format c.output_format ps p.same) p.cropping
          p.rotation)

  accepts :
      (g : VideoProcessorConfig)
      → Processor.negotiated_config processor_capability r ≡ success g
      → is_identity_processor_config g ≡ true
  accepts g h =
      let (m, d) = negotiated-success processor_capability r g h in
      let p = match-Plain r m in
      elim d [
        | inl (n, e) ↦
            subst (λ (z : VideoProcessorConfig). is_identity_processor_config z ≡ true) e
              (identity r.config p.domain p.same p.cropping p.rotation)
        | inr e ↦ convert_both-Plain g m e
      ]

-- Whatever the reference provider negotiates for a request, with a conversion of the planes or with
-- none, a new reference processor accepts: it is configured with the negotiated configuration, and
-- is bound to the calling thread.
pub processor_serves :
    {S : Type 0} (o : ReferenceBackendOptions) (t : ℕ) (r : VideoProcessorRequest)
    (n : Negotiation VideoProcessorConfig)
    → negotiate processor_kind make_reference_capability r ≡ success n
    → configure (processor_behaviour {S = S}) t n.config (new_backend o)
      ≡ (ok_status, configured_backend o t n.config)
unfolding negotiated
processor_serves o t r n h =
    let (f, m, a, s) =
      negotiate-only processor_kind make_reference_capability r n processor_capability refl h in
    let e : f ≡ n.config = ap (λ (x : Negotiation VideoProcessorConfig). x.config) (success-eq s) in
    configure-new processor_behaviour o t n.config (
      subst (λ (z : VideoProcessorConfig). is_identity_processor_config z ≡ true) e (accepts r f a))
