-- ===== src/Media/Capability/Made.antt =====
-- The format that `make_actual_format` of src/media/capability.cpp makes.
use mathlib.Core.Path.{subst}
use eavp.Base.{
  ℕ, ◌≡◌, true, List, [], some, All, length, arith, Bool-cases, Option-cases, inl, inr, ==_iff,
}
use eavp.Status.{is_ok, success, success-eq}
use eavp.Media.Buffer.{PlaneLayout}
use eavp.Media.VideoFormat
use eavp.Media.VideoFormat.{VideoFormat, validate_format, size_max}
use eavp.Media.Capability.{
  FormatMemoryDomain, DimensionRange, format_valid, storage_extent, actual_planes, layout_matches,
  make_actual_format, contains,
}
use eavp.Media.Capability.Actual.{IsMet, actual_planes-match}

-- How a format was made: from the extent of the picture, with new planes and all else as it was.
pub record Made (f g : VideoFormat) (fc : FormatMemoryDomain) (wr hr : DimensionRange)
    : Type 0 where
  pub valid : format_valid fc ≡ true
  pub width : ℕ
  pub height : ℕ
  pub planes : List PlaneLayout
  pub extent : storage_extent f wr hr ≡ some (width, height)
  pub made : actual_planes width height 0 fc.plane_constraints ≡ some planes
  pub same : record f { planes = planes } ≡ g

create-same :
    (f g : VideoFormat) (planes : List PlaneLayout)
    → VideoFormat.create f.pixel_format f.width f.height f.memory_domain planes f.color ≡ success g
    → record f { planes = planes } ≡ g
unfolding VideoFormat.create
create-same f g planes e =
    elim (Bool-cases (is_ok (validate_format f.pixel_format f.width f.height planes))) [
      | inr n ↦ absurd (ground (arith, n, e))
      | inl n ↦ success-eq (rw n at e)
    ]

pub make_actual_format-Made :
    (f g : VideoFormat) (fc : FormatMemoryDomain) (wr hr : DimensionRange)
    → make_actual_format f fc wr hr ≡ success g
    → Made f g fc wr hr
unfolding make_actual_format
make_actual_format-Made f g fc wr hr e = elim (Bool-cases (format_valid fc)) [
  | inr n ↦ absurd (ground (arith, n, e))
  | inl v ↦ elim (Option-cases (storage_extent f wr hr)) [
    | inl n ↦ absurd (ground (arith, v, n, e))
    | inr ((w, h), x) ↦ elim (Option-cases (actual_planes w h 0 fc.plane_constraints)) [
      | inl n ↦ absurd (ground (arith, v, x, n, e))
      | inr (ps, y) ↦ record {
        valid = v;
        width = w;
        height = h;
        planes = ps;
        extent = x;
        made = y;
        same = create-same f g ps (ground (arith, v, x, y, e));
      }
    ]
  ]
]

-- A made format is accepted with no conversion on a storage whose alignment is a multiple of every
-- address alignment of the capability.
pub Made-layout_matches :
    (f g : VideoFormat) (fc : FormatMemoryDomain) (wr hr : DimensionRange) (address : ℕ)
    → Made f g fc wr hr
    → contains wr f.width ≡ true
    → contains hr f.height ≡ true
    → All (IsMet address) fc.plane_constraints
    → layout_matches g fc wr hr address ≡ true
unfolding layout_matches storage_extent
Made-layout_matches f g fc wr hr address m a b c =
    let r =
      actual_planes-match m.width m.height address 0 [] m.planes fc.plane_constraints (omega arith)
        tt c m.made in
    let t = (==_iff (length m.planes) (length fc.plane_constraints)).1 r.1 in
    let x = m.extent in
    let v = m.valid in
    subst (λ (x : VideoFormat). layout_matches x fc wr hr address ≡ true) m.same
      (ground (arith, v, t, a, b, x, r.0))
