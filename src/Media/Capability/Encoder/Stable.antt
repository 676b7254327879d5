-- ===== src/Media/Capability/Encoder/Stable.antt =====
-- What `actual_input_format` of src/media/capability.cpp returns is accepted as it is.
use mathlib.Core.Path.{subst}
use eavp.Base.{
  ◌≡◌, sym, true, false, List, some, none, Option, All, arith, Bool-cases, inl, inr, ◌⊎◌,
}
use eavp.Status.{success-eq, is_ok, success}
use eavp.Media.Buffer.{PlaneLayout}
use eavp.Media.VideoFormat.{VideoFormat}
use eavp.Media.Capability.{FormatMemoryDomain, layout_matches, contains}
use eavp.Media.Capability.Actual.{IsMet}
use eavp.Media.Capability.Made.{make_actual_format-Made, Made-layout_matches}
use eavp.Media.Capability.Request.{VideoEncoderRequest}
use eavp.Media.Capability.Encoder.{
  VideoEncoderCapability, input_entry, conversion_of, requires_explicit_conversion, match,
  match_format, match_coding, made_input, actual_input_format,
}

-- The request with new planes in its input format.
abbrev with_planes : VideoEncoderRequest → List PlaneLayout → VideoEncoderRequest
with_planes r ps = record r { input_format = record r.input_format { planes = ps } }

module _ (c : VideoEncoderCapability) (r : VideoEncoderRequest) where
  match_coding-planes :
      (ps : List PlaneLayout)
      → requires_explicit_conversion c (with_planes r ps) ≡ false
      → is_ok (match_coding c r) ≡ true
      → is_ok (match_coding c (with_planes r ps)) ≡ true
  unfolding match_coding
  match_coding-planes ps n h = ground (arith, n, h)

  match-planes :
      (ps : List PlaneLayout)
      → requires_explicit_conversion c (with_planes r ps) ≡ false
      → is_ok (match c r) ≡ true
      → is_ok (match c (with_planes r ps)) ≡ true
  unfolding match match_format
  match-planes ps n h = ground (arith, n, h, match_coding-planes ps)

  match-contains :
      is_ok (match c r) ≡ true
      → (contains c.width r.input_format.width ≡ true)
        × (contains c.height r.input_format.height ≡ true)
  unfolding match
  match-contains h = ground (arith, h)

  actual-success :
      (g : VideoFormat)
      → actual_input_format c r ≡ success g
      → (is_ok (match c r) ≡ true)
        × ((requires_explicit_conversion c r ≡ false) × (r.input_format ≡ g)
            ⊎ (requires_explicit_conversion c r ≡ true)
              × (made_input c r (input_entry c r.input_format) ≡ success g))
  unfolding actual_input_format
  actual-success g h = elim (Bool-cases (is_ok (match c r))) [
    | inr n ↦ absurd (ground (arith, n, h))
    | inl y ↦ elim (Bool-cases (requires_explicit_conversion c r)) [
      | inr n ↦ (y, inl (n, success-eq (rw (y, n) at h)))
      | inl k ↦ (y, inr (k, rw (y, k) at h))
    ]
  ]

  made_input-same :
      (fc : Option FormatMemoryDomain) (g : VideoFormat)
      → made_input c r fc ≡ success g
      → (ps : List PlaneLayout) × (record r.input_format { planes = ps } ≡ g)
  unfolding made_input
  made_input-same none g h = absurd (ground (arith, h))
  made_input-same (some fc) g h =
      let m = make_actual_format-Made r.input_format g fc c.width c.height h in (m.planes, m.same)

  -- The negotiated format is that of the request with some planes.
  pub actual-same :
      (g : VideoFormat)
      → actual_input_format c r ≡ success g
      → (ps : List PlaneLayout) × (record r.input_format { planes = ps } ≡ g)
  actual-same g h = elim (actual-success g h).1 [
    | inl (n, e) ↦ (r.input_format.planes, e)
    | inr (n, e) ↦ made_input-same (input_entry c r.input_format) g e
  ]

  pub actual-success_of :
      is_ok (match c r) ≡ true
      → requires_explicit_conversion c r ≡ false
      → actual_input_format c r ≡ success r.input_format
  unfolding actual_input_format
  actual-success_of y n = ground (arith, y, n)

module _ (c : VideoEncoderCapability) (r : VideoEncoderRequest) (fc : FormatMemoryDomain) where
  no_conversion :
      (ps : List PlaneLayout)
      → input_entry c r.input_format ≡ some fc
      → layout_matches
          (record r.input_format { planes = ps })
          fc
          c.width
          c.height
          r.input_address_alignment
        ≡ true
      → requires_explicit_conversion c (with_planes r ps) ≡ false
  unfolding requires_explicit_conversion conversion_of
  no_conversion ps e l = rw (e, conversion_of) (ground (arith, l))

  -- On a storage whose alignment is a positive multiple of every address alignment that the capability
  -- has for the format of a request, the format that is negotiated needs no conversion, and to
  -- negotiate it again gives it back.
  pub actual_input_format-stable :
      (g : VideoFormat)
      → input_entry c r.input_format ≡ some fc
      → All (IsMet r.input_address_alignment) fc.plane_constraints
      → actual_input_format c r ≡ success g
      → (requires_explicit_conversion c (record r { input_format = g }) ≡ false)
        × (actual_input_format c (record r { input_format = g }) ≡ success g)
  unfolding made_input
  actual_input_format-stable g e m h =
      let s = actual-success c r g h in
      elim s.1 [
        | inl (n, same) ↦
            subst
              (λ (x : VideoFormat).
                (requires_explicit_conversion c (record r { input_format = x }) ≡ false)
                × (actual_input_format c (record r { input_format = x }) ≡ success x))
              same (n, actual-success_of c r s.0 n)
        | inr (k, made) ↦
            let d = make_actual_format-Made r.input_format g fc c.width c.height (rw e at made) in
            let b = match-contains c r s.0 in
            let l =
              Made-layout_matches r.input_format g fc c.width c.height r.input_address_alignment d
                b.0 b.1 m in
            let n = no_conversion d.planes e (
              subst
                (λ (x : VideoFormat).
                  layout_matches x fc c.width c.height r.input_address_alignment ≡ true)
                (sym d.same) l) in
            subst
              (λ (x : VideoFormat).
                (requires_explicit_conversion c (record r { input_format = x }) ≡ false)
                × (actual_input_format c (record r { input_format = x }) ≡ success x))
              d.same
              (n, actual-success_of c (with_planes r d.planes) (match-planes c r d.planes n s.0) n)
      ]
