-- ===== src/Media/Buffer/Tests.antt =====
-- Runs of the buffers of src/media/buffer.cpp on small examples.
use eavp.Base.{◌+◌, ◌≡◌, ◌↔◌, refl, true, [], ◌∷◌, some, arith}
use eavp.Status.{ok_status, is_ok}
use eavp.Media.Buffer.{
  PlaneLayout, BufferStorage, Buffer, read_write, cpu, validate_planes, slice_plane,
}
use eavp.Media.Buffer.Planes.{IsBuffer, validate_planes_iff}
use eavp.Media.Buffer.Slice.{sliced, slice_plane_exact}
use eavp.Media.Buffer.Mapped.{plane_address_alignment, map_plane, greatest_common_divisor}
use eavp.Media.Buffer.Mapped.Alignment.{IsMultiple, plane_alignment_holds}
use eavp.Media.Buffer.Mapped.Cover.{Covers, map_plane-Covers}

abbrev storage : BufferStorage Unit
storage = record {
  memory_domain = cpu;
  capacity = 64;
  address_alignment = 16;
  provider_id = "cpu";
  map = λ mode s. (record { result = ok_status; address = some 4096; mapped_size = 64 }, s);
  unmap = λ s. (ok_status, s);
}

abbrev luma : PlaneLayout
luma = record { offset = 0; size = 24; stride = 8 }

abbrev chroma : PlaneLayout
chroma = record { offset = 24; size = 40; stride = 8 }

abbrev buffer : Buffer Unit
buffer = record { storage = storage; planes = luma ∷ chroma ∷ [] }

planes-IsBuffer : IsBuffer storage (luma ∷ chroma ∷ [])
planes-IsBuffer = record {
  nonempty = refl;
  aligned = omega arith;
  layout = record {
    inside = (
      record { strided = omega arith; within = omega arith },
      (record { strided = omega arith; within = omega arith }, tt),
    );
    apart = ((ground arith, tt), (tt, tt));
  };
}

validate_planes_iff_example :
    (is_ok (validate_planes (some storage) (luma ∷ luma ∷ [])) ≡ true)
    ↔ IsBuffer storage (luma ∷ luma ∷ [])
validate_planes_iff_example = validate_planes_iff storage (luma ∷ luma ∷ []) (omega arith)

slice_plane_exact_example : slice_plane buffer 1 8 16 ≡ sliced storage chroma 8 16
slice_plane_exact_example =
    slice_plane_exact buffer 1 chroma 8 16 (omega arith) planes-IsBuffer refl

plane_alignment_holds_example : IsMultiple 8 (4096 + 24)
unfolding plane_address_alignment greatest_common_divisor
plane_alignment_holds_example = plane_alignment_holds buffer 1 chroma 8 4096 refl refl (256, refl)

map_plane-Covers_example :
    Covers storage chroma read_write
      (record { result = ok_status; address = some 4096; mapped_size = 64 })
      tt
      (map_plane buffer 1 read_write tt)
map_plane-Covers_example = map_plane-Covers buffer 1 chroma read_write tt refl
