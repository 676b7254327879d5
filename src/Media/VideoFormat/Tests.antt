-- ===== src/Media/VideoFormat/Tests.antt =====
-- A run of the checks of src/media/video_format.cpp on a small picture.
use eavp.Base.{List, [], ◌∷◌, refl, arith}
use eavp.Media.Buffer.{PlaneLayout}
use eavp.Media.Buffer.Planes.{ArePairwiseApart}
use eavp.Media.VideoFormat.{nv12, validate_format}
use eavp.Media.VideoFormat.Planes.{required, HoldAll}
use eavp.Media.VideoFormat.Ranges.{format_holds}

abbrev picture : List PlaneLayout
picture =
    record { offset = 0; size = 32; stride = 8 }
    ∷ record { offset = 32; size = 16; stride = 8 }
    ∷ []

format_holds_example : HoldAll (required nv12 8 4) picture × ArePairwiseApart picture
unfolding validate_format
format_holds_example = format_holds nv12 7 3 picture (omega arith, (omega arith, tt)) refl
