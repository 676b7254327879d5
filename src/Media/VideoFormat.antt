-- ===== src/Media/VideoFormat.antt =====
-- include/eavp/media/video_format.hpp and src/media/video_format.cpp: the checks of the planes of a
-- picture against its pixel format.
pub mod Colour
pub mod Planes
pub mod Ranges
mod Tests
use eavp.Base.{
  ℕ, suc, ◌+◌, ◌-◌, ◌*◌, ◌/◌, ◌%◌, ◌^◌, Bool, true, false, not, ◌||◌, ◌&&◌, List, [], ◌∷◌, String,
  if◌then◌else◌, ◌==◌, ltb, leb,
}
use eavp.Base.Int.{ℤ, pos, negsuc}
use eavp.Status.{
  Status, ok_status, status, invalid_argument, unsupported, is_ok, Result, success, failure,
}
use eavp.Media.VideoFormat.Colour.{ColorTags}
use eavp.Media.Buffer.{MemoryDomain, PlaneLayout, overlaps}

-- `enum class PixelFormat`.
pub data PixelFormat : Type 0 where
  unknown nv12 yuv420p rgb24 yuyv422 : PixelFormat

-- The value of the enumerator, from 0, by which `==` compares.
abbrev pub pixel_value : PixelFormat → ℕ
pixel_value unknown = 0
pixel_value nv12 = 1
pixel_value yuv420p = 2
pixel_value rgb24 = 3
pixel_value yuyv422 = 4

-- `pixel_format_name`.
pub pixel_format_name : PixelFormat → Result String
pixel_format_name nv12 = success "nv12"
pixel_format_name yuv420p = success "yuv420p"
pixel_format_name rgb24 = success "rgb24"
pixel_format_name yuyv422 = success "yuyv422"
pixel_format_name unknown =
    failure (status invalid_argument "pixel format has no stable state name")

-- `std::numeric_limits<std::size_t>::max()`.
abbrev pub size_max : ℕ
size_max = 18446744073709551615

-- `invalid_format`.
abbrev pub invalid_format : String → Status
invalid_format message = status invalid_argument message

-- `rows != 0U && plane.stride > max / rows`.
abbrev pub rows_overflow : ℕ → ℕ → Bool
rows_overflow rows stride = if rows == 0 then false else ltb (size_max / rows) stride

-- `validate_plane`.
pub validate_plane : PlaneLayout → ℕ → ℕ → Status
validate_plane p minimum_stride rows =
    if ltb p.stride minimum_stride
    then invalid_format "video plane stride is smaller than the pixel format requires"
    else if rows_overflow rows p.stride
    then invalid_format "video plane size overflows"
    else if ltb p.size (p.stride * rows % 2 ^ 64)
    then invalid_format "video plane size is smaller than the pixel format requires"
    else ok_status

-- The inner loop of `validate_plane_ranges`, over the planes before `p`.
pub validate_against : PlaneLayout → List PlaneLayout → Status
validate_against p [] = ok_status
validate_against p (q ∷ qs) =
    let rest = validate_against p qs in
    if ltb (size_max - q.size) q.offset
    then invalid_format "video plane range overflows"
    else if overlaps p q
    then invalid_format "video planes must not overlap"
    else rest

-- The outer loop of `validate_plane_ranges`; `before` holds the planes that it has passed.
pub validate_ranges : List PlaneLayout → List PlaneLayout → Status
unfolding validate_against
validate_ranges before [] = ok_status
validate_ranges before (p ∷ ps) =
    let rest = validate_ranges (p ∷ before) ps in
    let here = validate_against p before in
    if ltb (size_max - p.size) p.offset
    then invalid_format "video plane range overflows"
    else if is_ok here
    then rest
    else here

-- `validate_plane` on each of some planes, up to the first that fails.
pub validate_two : Status → Status → Status
validate_two first second = if is_ok first then second else first

-- The cases of the `switch` of `validate_format`.
pub validate_yuyv422 : ℕ → ℕ → List PlaneLayout → Status
unfolding validate_plane
validate_yuyv422 w h (p ∷ []) =
    if not (w % 2 == 0)
    then status unsupported "YUYV422 with an odd width is unsupported"
    else if ltb (size_max / 2) w
    then invalid_format "YUYV422 stride overflows"
    else validate_plane p (w * 2) h
validate_yuyv422 w h _ =
    if not (w % 2 == 0)
    then status unsupported "YUYV422 with an odd width is unsupported"
    else invalid_format "YUYV422 requires one plane"

pub validate_rgb24 : ℕ → ℕ → List PlaneLayout → Status
unfolding validate_plane
validate_rgb24 w h (p ∷ []) =
    if ltb (size_max / 3) w
    then invalid_format "RGB24 stride overflows"
    else validate_plane p (w * 3) h
validate_rgb24 w h _ = invalid_format "RGB24 requires one plane"

-- `width % 2 != 0 || height % 2 != 0`.
abbrev pub is_odd : ℕ → ℕ → Bool
is_odd w h = not (w % 2 == 0) || not (h % 2 == 0)

pub validate_nv12 : ℕ → ℕ → List PlaneLayout → Status
unfolding validate_plane validate_two
validate_nv12 w h (p ∷ q ∷ []) =
    if is_odd w h
    then status unsupported "NV12 with odd dimensions is unsupported in 0.2"
    else validate_two (validate_plane p w h) (validate_plane q w (h / 2))
validate_nv12 w h _ =
    if is_odd w h
    then status unsupported "NV12 with odd dimensions is unsupported in 0.2"
    else invalid_format "NV12 requires two planes"

pub validate_yuv420p : ℕ → ℕ → List PlaneLayout → Status
unfolding validate_plane validate_two
validate_yuv420p w h (p ∷ q ∷ r ∷ []) =
    if is_odd w h
    then status unsupported "YUV420P with odd dimensions is unsupported in 0.2"
    else validate_two (validate_plane p w h)
        (validate_two (validate_plane q (w / 2) (h / 2)) (validate_plane r (w / 2) (h / 2)))
validate_yuv420p w h _ =
    if is_odd w h
    then status unsupported "YUV420P with odd dimensions is unsupported in 0.2"
    else invalid_format "YUV420P requires three planes"

pub validate_pixels : PixelFormat → ℕ → ℕ → List PlaneLayout → Status
unfolding validate_yuyv422 validate_rgb24 validate_nv12 validate_yuv420p
validate_pixels yuyv422 w h planes = validate_yuyv422 w h planes
validate_pixels rgb24 w h planes = validate_rgb24 w h planes
validate_pixels nv12 w h planes = validate_nv12 w h planes
validate_pixels yuv420p w h planes = validate_yuv420p w h planes
validate_pixels unknown w h planes = invalid_format "video pixel format must be known"

-- `validate_format`; `pos 0` and the negative numbers are not positive.
pub validate_format : PixelFormat → ℤ → ℤ → List PlaneLayout → Status
unfolding validate_ranges validate_pixels
validate_format pixels (pos (suc w)) (pos (suc h)) planes =
    let ranges = validate_ranges [] planes in
    if is_ok ranges then validate_pixels pixels (suc w) (suc h) planes else ranges
validate_format _ _ _ _ = invalid_format "video format dimensions must be positive"

-- `class VideoFormat`.
pub record VideoFormat : Type 0 where
  pub pixel_format : PixelFormat
  pub width : ℤ
  pub height : ℤ
  pub memory_domain : MemoryDomain
  pub planes : List PlaneLayout
  pub color : ColorTags

-- `VideoFormat::create`.
unfoldable pub create :
    PixelFormat → ℤ → ℤ → MemoryDomain → List PlaneLayout → ColorTags → Result VideoFormat
unfolding validate_format
create pixels width height domain planes color =
    let st = validate_format pixels width height planes in
    if is_ok st
    then success (record {
      pixel_format = pixels;
      width = width;
      height = height;
      memory_domain = domain;
      planes = planes;
      color = color;
    })
    else failure st

-- Whether two lists of planes have the same layouts, as many on each side: the loops of the
-- comparisons of formats and frames.
unfoldable pub same_planes : List PlaneLayout → List PlaneLayout → Bool
same_planes [] [] = true
same_planes (p ∷ ps) (q ∷ qs) =
    p.offset == q.offset && p.size == q.size && p.stride == q.stride && same_planes ps qs
same_planes _ _ = false
