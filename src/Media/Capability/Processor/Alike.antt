-- ===== src/Media/Capability/Processor/Alike.antt =====
-- Pictures that `same_video_format` of src/media/capability.cpp does not tell apart.
use eavp.Base.{◌≡◌, refl, true, false, ◌&&◌, ◌==◌, Bool, List, [], ◌∷◌, arith}
use eavp.Base.Int.{int_eq, int_eq-eq}
use eavp.Media.Buffer.{MemoryDomain, PlaneLayout, domain_value}
use eavp.Media.VideoFormat.{VideoFormat, PixelFormat, same_planes, pixel_value}
use eavp.Media.VideoFormat.Colour.{range_value, primaries_value, transfer_value, matrix_value}
use eavp.Media.Capability.{FormatMemoryDomain, find_format}
use eavp.Media.Capability.Processor.{same_video_format}

pub find_format-values :
    (fs : List FormatMemoryDomain) (p q : PixelFormat) (d e : MemoryDomain)
    → pixel_value p ≡ pixel_value q
    → domain_value d ≡ domain_value e
    → find_format fs p d ≡ find_format fs q e
unfolding find_format
find_format-values [] p q d e h k = refl
find_format-values (f ∷ fs) p q d e h k = rw (h, k, find_format-values fs p q d e h k) refl

same_planes_refl : (ps : List PlaneLayout) → same_planes ps ps ≡ true
unfolding same_planes
same_planes_refl [] = refl
same_planes_refl (p ∷ ps) = let h = same_planes_refl ps in ground (arith, h)

-- What two pictures of the same format have in common.
pub record Alike (f g : VideoFormat) : Type 0 where
  pub pixels : pixel_value f.pixel_format ≡ pixel_value g.pixel_format
  pub domains : domain_value f.memory_domain ≡ domain_value g.memory_domain
  pub width : f.width ≡ g.width
  pub height : f.height ≡ g.height

pub same_video_format-Alike : (f g : VideoFormat) → same_video_format f g ≡ true → Alike f g
unfolding same_video_format
same_video_format-Alike f g h = record {
  pixels = ground (arith, h);
  domains = ground (arith, h);
  width = int_eq-eq f.width g.width (ground (arith, h));
  height = int_eq-eq f.height g.height (ground (arith, h));
}

-- Another last test.
last_true : (a : Bool) {b c : Bool} → (b ≡ true → c ≡ true) → a && b ≡ true → a && c ≡ true
last_true true f h = f h
last_true false f h = h

pub same_video_format-planes :
    (f g : VideoFormat) (ps : List PlaneLayout)
    → same_video_format f g ≡ true
    → same_video_format (record f { planes = ps }) (record g { planes = ps }) ≡ true
unfolding same_video_format
same_video_format-planes f g ps h =
    last_true
      (pixel_value f.pixel_format == pixel_value g.pixel_format
        && int_eq f.width g.width
        && int_eq f.height g.height
        && domain_value f.memory_domain == domain_value g.memory_domain
        && range_value f.color.color_range == range_value g.color.color_range
        && primaries_value f.color.color_primaries == primaries_value g.color.color_primaries
        && transfer_value f.color.transfer == transfer_value g.color.transfer
        && matrix_value f.color.matrix == matrix_value g.color.matrix)
      {b = same_planes f.planes g.planes} (λ _. same_planes_refl ps) h
