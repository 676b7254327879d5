-- ===== src/Media/Capability/Processor/Settled.antt =====
-- What `negotiated_config` of src/media/capability.cpp changes, and that its result needs no conversion.
use mathlib.Core.Path.{subst}
use eavp.Base.{
  ◌≡◌, sym, ◌∙◌, refl, true, false, List, some, All, not, arith, Bool-cases, inl, inr, ◌⊎◌, ◌||◌,
  Bool, if◌then◌else◌,
}
use eavp.Base.Int.{is_negative, is_positive, int_le, int_add}
use eavp.Status.{success-eq, Status, is_ok, Result, success, failure}
use eavp.Media.Buffer.{PlaneLayout}
use eavp.Media.Codec.{VideoProcessorConfig, create_processor, is_rotation_degrees}
use eavp.Media.VideoFormat.{VideoFormat}
use eavp.Media.Capability.{FormatMemoryDomain, layout_matches, contains}
use eavp.Media.Capability.Actual.{IsMet}
use eavp.Media.Capability.Made.{make_actual_format-Made, Made-layout_matches}
use eavp.Media.Capability.Request.{VideoProcessorRequest}
use eavp.Media.Capability.Processor.{
  VideoProcessorCapability, input_entry, output_entry, requires_explicit_conversion, match, made,
  convert_both, negotiated_config,
}

-- A configuration with new planes in its formats, and all else as it was.
abbrev pub replan :
    VideoProcessorConfig → List PlaneLayout → List PlaneLayout → VideoProcessorConfig
replan g is os = record g {
  input_format = record g.input_format { planes = is };
  output_format = record g.output_format { planes = os };
}

-- Three guards that fail before a success.
guards-success {ℓ} :
    {A : Type ℓ} (a b c : Bool) (s t u : Status) {v w : A}
    → (if a then failure s else if b then failure t else if c then failure u else success v)
      ≡ success w
    → v ≡ w
guards-success true b c s t u h = absurd (ground (arith, h))
guards-success false true c s t u h = absurd (ground (arith, h))
guards-success false false true s t u h = absurd (ground (arith, h))
guards-success false false false s t u h = success-eq h

create_processor-eq :
    (g h : VideoProcessorConfig) (i o : VideoFormat)
    → create_processor i o g.crop_x g.crop_y g.crop_width g.crop_height g.rotation_degrees
      ≡ success h
    → record g { input_format = i; output_format = o } ≡ h
unfolding create_processor
create_processor-eq g h i o e =
    guards-success
      (is_negative g.crop_x
        || is_negative g.crop_y
        || not (is_positive g.crop_width)
        || not (is_positive g.crop_height))
      (not (int_le (int_add g.crop_x g.crop_width) i.width)
        || not (int_le (int_add g.crop_y g.crop_height) i.height))
      (not (is_rotation_degrees g.rotation_degrees)) _ _ _ e

pub convert_both-eq :
    (g h : VideoProcessorConfig) (input output : Result VideoFormat)
    → convert_both g input output ≡ success h
    → (i : VideoFormat) × (o : VideoFormat) × (input ≡ success i)
      × (output ≡ success o)
      × (record g { input_format = i; output_format = o } ≡ h)
unfolding convert_both
convert_both-eq g h (failure s) output e = absurd (ground (arith, e))
convert_both-eq g h (success i) (failure s) e = absurd (ground (arith, e))
convert_both-eq g h (success i) (success o) e = (i, o, refl, refl, create_processor-eq g h i o e)

module _ (c : VideoProcessorCapability) (r : VideoProcessorRequest) where
  match-contains :
      is_ok (match c r) ≡ true
      → (contains c.input_width r.config.input_format.width ≡ true)
        × (contains c.input_height r.config.input_format.height ≡ true)
        × (contains c.output_width r.config.output_format.width ≡ true)
        × (contains c.output_height r.config.output_format.height ≡ true)
  unfolding match
  match-contains h = ground (arith, h)

  pub negotiated-success :
      (g : VideoProcessorConfig)
      → negotiated_config c r ≡ success g
      → (is_ok (match c r) ≡ true)
        × ((requires_explicit_conversion c r ≡ false) × (r.config ≡ g)
            ⊎ (convert_both r.config
                  (made
                    (input_entry c r.config.input_format)
                    r.config.input_format
                    c.input_width
                    c.input_height)
                  (made
                    (output_entry c r.config.output_format)
                    r.config.output_format
                    c.output_width
                    c.output_height)
                ≡ success g))
  unfolding negotiated_config
  negotiated-success g h = elim (Bool-cases (is_ok (match c r))) [
    | inr n ↦ absurd (ground (arith, n, h))
    | inl y ↦ elim (Bool-cases (requires_explicit_conversion c r)) [
      | inr n ↦ (y, inl (n, success-eq (rw (y, n) at h)))
      | inl k ↦ (y, inr (rw (y, k) at h))
    ]
  ]

  no_conversion :
      (is os : List PlaneLayout) (fi fo : FormatMemoryDomain)
      → input_entry c r.config.input_format ≡ some fi
      → output_entry c r.config.output_format ≡ some fo
      → layout_matches
          (record r.config.input_format { planes = is })
          fi
          c.input_width
          c.input_height
          r.input_address_alignment
        ≡ true
      → layout_matches
          (record r.config.output_format { planes = os })
          fo
          c.output_width
          c.output_height
          r.output_address_alignment
        ≡ true
      → requires_explicit_conversion c (record r { config = replan r.config is os }) ≡ false
  unfolding requires_explicit_conversion
  no_conversion is os fi fo e f l k = rw (e, f) (ground (arith, l, k))

module _ (c : VideoProcessorCapability) (r : VideoProcessorRequest)
    (fi fo : FormatMemoryDomain) where
  -- When the alignments of the two storages of a request are positive multiples of every address
  -- alignment that the capability has for their formats, a negotiated configuration differs from that
  -- of the request in the planes of its formats only, and needs no conversion.
  pub negotiated_config-settles :
      (g : VideoProcessorConfig)
      → input_entry c r.config.input_format ≡ some fi
      → output_entry c r.config.output_format ≡ some fo
      → All (IsMet r.input_address_alignment) fi.plane_constraints
      → All (IsMet r.output_address_alignment) fo.plane_constraints
      → negotiated_config c r ≡ success g
      → (is : List PlaneLayout) × (os : List PlaneLayout) × (replan r.config is os ≡ g)
        × (requires_explicit_conversion c (record r { config = g }) ≡ false)
  negotiated_config-settles g e f m n h =
      let s = negotiated-success c r g h in
      elim s.1 [
        | inl (k, same) ↦ (
          r.config.input_format.planes,
          r.config.output_format.planes,
          same,
          subst
              (λ (x : VideoProcessorConfig).
                requires_explicit_conversion c (record r { config = x }) ≡ false)
              same k,
        )
        | inr both ↦
            let (i, o, mi, mo, same) = convert_both-eq r.config g _ _ both in
            let b = match-contains c r s.0 in
            let x =
              make_actual_format-Made r.config.input_format i fi c.input_width c.input_height
                (rw e at mi) in
            let y =
              make_actual_format-Made r.config.output_format o fo c.output_width c.output_height
                (rw f at mo) in
            let l =
              Made-layout_matches r.config.input_format i fi c.input_width c.input_height
                r.input_address_alignment x b.0 b.1 m in
            let k =
              Made-layout_matches r.config.output_format o fo c.output_width c.output_height
                r.output_address_alignment y b.2 b.3 n in
            let q : replan r.config x.planes y.planes ≡ g =
              (λ j. record r.config { input_format = x.same j; output_format = y.same j }) ∙ same in
            let z =
              no_conversion c r x.planes y.planes fi fo e f
                (subst
                  (λ (v : VideoFormat).
                    layout_matches v fi c.input_width c.input_height r.input_address_alignment
                    ≡ true)
                  (sym x.same) l)
                (subst
                  (λ (v : VideoFormat).
                    layout_matches v fo c.output_width c.output_height r.output_address_alignment
                    ≡ true)
                  (sym y.same) k) in
            (
              x.planes,
              y.planes,
              q,
              subst
                  (λ (v : VideoProcessorConfig).
                    requires_explicit_conversion c (record r { config = v }) ≡ false)
                  q z,
            )
      ]
