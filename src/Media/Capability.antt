-- ===== src/Media/Capability.antt =====
-- include/eavp/media/capability.hpp and src/media/capability.cpp: what a provider can process. Here
-- are the ranges of dimensions, the layouts that a capability accepts and the layout that it makes.
pub mod Sizes
pub mod Aligned
pub mod Actual
pub mod Made
pub mod Request
pub mod Processor
pub mod Encoder
pub mod Provider
pub mod Samples
mod Tests
use eavp.Base.{
  ℕ, ◌+◌, ◌-◌, ◌*◌, ◌/◌, ◌%◌, Bool, true, false, not, ◌&&◌, ◌||◌, List, [], ◌∷◌, Option, none, some,
  String, if◌then◌else◌, ◌==◌, ltb, leb, length,
}
use eavp.Base.Int.{ℤ, pos, is_positive, int_le, to_size}
use eavp.Status.{Status, status, capability_mismatch, resource_exhausted, Result, failure}
use eavp.Media.Buffer.{MemoryDomain, domain_value, PlaneLayout, overlaps}
use eavp.Media.Buffer.Mapped.{greatest_common_divisor}
use eavp.Media.VideoFormat
use eavp.Media.VideoFormat.{
  PixelFormat, unknown, nv12, yuv420p, rgb24, yuyv422, pixel_value, VideoFormat, size_max,
}
use eavp.Media.Capability.Sizes.{
  checked_add, checked_multiply, align_up, least_common_multiple, ◌>>=◌,
}

-- `mismatch`.
abbrev pub mismatch : String → Status
mismatch message = status capability_mismatch message

-- `class DimensionRange`.
pub record DimensionRange : Type 0 where
  pub minimum : ℤ
  pub maximum : ℤ
  pub step : ℤ
  pub alignment : ℤ

-- `((value + alignment - 1) / alignment) * alignment`, of positive numbers of 32 bits on 64 bits.
abbrev pub round_up : ℕ → ℕ → ℕ
round_up value alignment = (value + alignment - 1) / alignment * alignment

-- `DimensionRange::valid`.
unfoldable pub range_valid : DimensionRange → Bool
range_valid r =
    is_positive r.minimum
    && int_le r.minimum r.maximum
    && is_positive r.step
    && is_positive r.alignment
    && leb (round_up (to_size r.minimum) (to_size r.alignment)) (to_size r.maximum)

-- `DimensionRange::contains`; a value that passes the first tests is positive.
unfoldable pub contains : DimensionRange → ℤ → Bool
unfolding range_valid
contains r v =
    range_valid r
    && int_le r.minimum v
    && int_le v r.maximum
    && (to_size v - to_size r.minimum) % to_size r.step == 0
    && leb (round_up (to_size v) (to_size r.alignment)) (to_size r.maximum)

-- `class PlaneLayoutConstraint`.
pub record PlaneLayoutConstraint : Type 0 where
  pub horizontal_subsampling : ℤ
  pub vertical_subsampling : ℤ
  pub bytes_per_sample : ℕ
  pub stride_alignment : ℕ
  pub offset_alignment : ℕ
  pub size_alignment : ℕ
  pub address_alignment : ℕ

-- `PlaneLayoutConstraint::valid`.
pub constraint_valid : PlaneLayoutConstraint → Bool
constraint_valid c =
    is_positive c.horizontal_subsampling
    && is_positive c.vertical_subsampling
    && ltb 0 c.bytes_per_sample
    && ltb 0 c.stride_alignment
    && ltb 0 c.offset_alignment
    && ltb 0 c.size_alignment
    && ltb 0 c.address_alignment

-- `class FormatMemoryDomain`.
pub record FormatMemoryDomain : Type 0 where
  pub pixel_format : PixelFormat
  pub memory_domain : MemoryDomain
  pub plane_constraints : List PlaneLayoutConstraint

-- The loop of `FormatMemoryDomain::valid`.
pub all_valid : List PlaneLayoutConstraint → Bool
unfolding constraint_valid
all_valid [] = true
all_valid (c ∷ cs) = constraint_valid c && all_valid cs

-- The `switch` of `FormatMemoryDomain::valid`; an unknown pixel format has no number of planes.
abbrev pub plane_count : PixelFormat → Option ℕ
plane_count yuyv422 = some 1
plane_count rgb24 = some 1
plane_count nv12 = some 2
plane_count yuv420p = some 3
plane_count unknown = none

-- `FormatMemoryDomain::valid`.
unfoldable pub format_valid : FormatMemoryDomain → Bool
unfolding all_valid
format_valid f = elim (plane_count f.pixel_format) [
  | none ↦ false
  | some n ↦ length f.plane_constraints == n && all_valid f.plane_constraints
]

-- `find_format`; `none` is the null pointer.
unfoldable pub find_format :
    List FormatMemoryDomain → PixelFormat → MemoryDomain → Option FormatMemoryDomain
find_format [] pixels domain = none
find_format (f ∷ fs) pixels domain =
    if pixel_value f.pixel_format == pixel_value pixels
      && domain_value f.memory_domain == domain_value domain
    then some f
    else find_format fs pixels domain

-- The stride that the rows of a plane need, aligned.
pub aligned_stride : ℕ → PlaneLayoutConstraint → Option ℕ
unfolding checked_add checked_multiply align_up
aligned_stride width c =
    let horizontal = to_size c.horizontal_subsampling in
    do
      samples ← checked_add width (horizontal - 1)
      minimum ← checked_multiply (samples / horizontal) c.bytes_per_sample
      align_up minimum c.stride_alignment

-- The size of the rows of a plane of that stride.
pub required_size : ℕ → PlaneLayoutConstraint → ℕ → Option ℕ
unfolding checked_add checked_multiply
required_size height c stride =
    let vertical = to_size c.vertical_subsampling in
    do rows ← checked_add height (vertical - 1); checked_multiply stride (rows / vertical)

-- `plane_address_is_proven`.
abbrev pub address_is_proven : PlaneLayoutConstraint → PlaneLayout → ℕ → Bool
address_is_proven c p address =
    c.address_alignment == 1
    || not (address == 0)
      && address % c.address_alignment == 0
      && p.offset % c.address_alignment == 0

abbrev pub at_least : ℕ → Option ℕ → Bool
at_least n none = false
at_least n (some m) = leb m n

-- The tests of one plane in `layout_matches` that do not concern the other planes.
pub plane_fits : ℕ → ℕ → ℕ → PlaneLayout → PlaneLayoutConstraint → Bool
unfolding aligned_stride required_size
plane_fits width height address p c =
    at_least p.stride (aligned_stride width c)
    && p.stride % c.stride_alignment == 0
    && p.offset % c.offset_alignment == 0
    && p.size % c.size_alignment == 0
    && address_is_proven c p address
    && at_least p.size (required_size height c p.stride)

-- `!(plane.offset > max - plane.size)`.
abbrev pub in_range : PlaneLayout → Bool
in_range p = leb p.offset (size_max - p.size)

-- The inner loop of `layout_matches`, over the planes before `p`.
pub clear_of : PlaneLayout → List PlaneLayout → Bool
clear_of p [] = true
clear_of p (q ∷ qs) = in_range q && not (overlaps p q) && clear_of p qs

-- The outer loop of `layout_matches`; `before` holds the planes that it has passed.
pub planes_match :
    ℕ → ℕ → ℕ → List PlaneLayout → List PlaneLayout → List PlaneLayoutConstraint → Bool
unfolding clear_of plane_fits
planes_match width height address before (p ∷ ps) (c ∷ cs) =
    in_range p
    && clear_of p before
    && plane_fits width height address p c
    && planes_match width height address (p ∷ before) ps cs
planes_match width height address before _ _ = true

-- The storage extent of a picture: its dimensions, aligned to those of the capability.
unfoldable pub storage_extent : VideoFormat → DimensionRange → DimensionRange → Option (ℕ × ℕ)
unfolding align_up
storage_extent f wr hr = do
  width ← align_up (to_size f.width) (to_size wr.alignment)
  height ← align_up (to_size f.height) (to_size hr.alignment)
  some (width, height)

-- `layout_matches`.
unfoldable pub layout_matches :
    VideoFormat → FormatMemoryDomain → DimensionRange → DimensionRange → ℕ → Bool
unfolding format_valid contains storage_extent planes_match
layout_matches f fc wr hr address =
    format_valid fc
    && length f.planes == length fc.plane_constraints
    && contains wr f.width
    && contains hr f.height
    && elim (storage_extent f wr hr) [
      | none ↦ false
      | some (w, h) ↦ planes_match w h address [] f.planes fc.plane_constraints
    ]

-- One round of the loop of `make_actual_format`: the plane, and the next free offset.
pub actual_plane : ℕ → ℕ → ℕ → PlaneLayoutConstraint → Option (PlaneLayout × ℕ)
unfolding aligned_stride required_size checked_add align_up least_common_multiple
actual_plane width height next c = do
  stride ← aligned_stride width c
  rows ← required_size height c stride
  size ← align_up rows c.size_alignment
  alignment ← least_common_multiple c.offset_alignment c.address_alignment
  offset ← align_up next alignment
  end ← checked_add offset size
  some (record { offset = offset; size = size; stride = stride }, end)

-- The loop of `make_actual_format`; `none` is the `std::bad_alloc` that it throws.
pub actual_planes : ℕ → ℕ → ℕ → List PlaneLayoutConstraint → Option (List PlaneLayout)
unfolding actual_plane
actual_planes width height next [] = some []
actual_planes width height next (c ∷ cs) = do
  (p, end) ← actual_plane width height next c
  ps ← actual_planes width height end cs
  some (p ∷ ps)

-- `make_actual_format`.
unfoldable pub make_actual_format :
    VideoFormat → FormatMemoryDomain → DimensionRange → DimensionRange → Result VideoFormat
unfolding format_valid storage_extent actual_planes
make_actual_format f fc wr hr =
    if not (format_valid fc)
    then failure (mismatch "capability plane layout constraints are invalid")
    else elim (storage_extent f wr hr) [
      | none ↦ failure (
          status resource_exhausted
            "video format storage extent overflows capability representation")
      | some (w, h) ↦ elim (actual_planes w h 0 fc.plane_constraints) [
        | none ↦ failure (status resource_exhausted "failed to create aligned video plane layout")
        | some planes ↦
            VideoFormat.create f.pixel_format f.width f.height f.memory_domain planes f.color
      ]
    ]
