-- ===== src/Media/Buffer/Slice.antt =====
-- `slice_plane` and `slice` of src/media/buffer.cpp.
use eavp.Base.{
  ℕ, zero, suc, ◌+◌, ◌%◌, ◌^◌, ◌≤◌, ◌<◌, ◌≡◌, refl, sym, ◌∙◌, inl, inr, true, false, List, [], ◌∷◌,
  some, if◌then◌else◌, leb, get_elem?, All, Bool-cases, arith, tests,
}
use eavp.Status.{status, invalid_argument, Result, success, failure}
use eavp.Media.Buffer.{
  PlaneLayout, BufferStorage, Buffer, is_within, create, create_on, slice_of, slice_plane,
}
use eavp.Media.Buffer.Planes.{IsInside, IsBuffer, validate_complete}

All-get :
    (P : PlaneLayout → Type 0) (ps : List PlaneLayout) (i : ℕ) {p : PlaneLayout}
    → All P ps
    → get_elem? ps i ≡ some p
    → P p
All-get P [] i h e = ground (arith, e)
All-get P (q ∷ ps) zero {p} h e = ground (arith, h.0, e)
All-get P (q ∷ ps) (suc i) h e = All-get P ps i h.1 e

fits :
    (offset size capacity : ℕ)
    → leb (offset + size) capacity ≡ true
    → is_within offset size capacity ≡ true
fits offset size capacity h = ground (arith, h)

misfits :
    (offset size capacity : ℕ)
    → leb (offset + size) capacity ≡ false
    → is_within offset size capacity ≡ false
misfits offset size capacity h = ground (arith, h)

-- The offset of a slice is not too large for `std::size_t`.
wraps :
    (p : PlaneLayout) (offset size capacity : ℕ)
    → capacity < 2 ^ 64
    → p.offset + p.size ≤ capacity
    → offset + size ≤ p.size
    → (p.offset + offset) % 2 ^ 64 ≡ p.offset + offset
wraps p offset size capacity c h l = omega (arith, c, h, l)

-- A plane of `size` bytes from `offset` within `p`.
abbrev pub part : PlaneLayout → ℕ → ℕ → PlaneLayout
part p offset size = record { offset = p.offset + offset; size = size; stride = p.stride }

module _ {S : Type 0} where
  -- The result of a slice, with a sum that cannot overflow.
  abbrev pub sliced : BufferStorage S → PlaneLayout → ℕ → ℕ → Result (Buffer S)
  sliced storage p offset size =
      if leb (offset + size) p.size
      then success (record { storage = storage; planes = part p offset size ∷ [] })
      else failure (status invalid_argument "buffer slice is out of range")

  part-IsBuffer :
      (storage : BufferStorage S) (p : PlaneLayout) (offset size : ℕ)
      → 0 < storage.address_alignment
      → IsInside storage.capacity p
      → offset + size ≤ p.size
      → IsBuffer storage (part p offset size ∷ [])
  part-IsBuffer storage p offset size a h l = record {
    nonempty = refl;
    aligned = a;
    layout = record {
      inside = (record { strided = h.strided; within = omega (arith, h.within, l) }, tt);
      apart = (tt, tt);
    };
  }

  slice_of-some :
      (b : Buffer S) (p : PlaneLayout) (offset size : ℕ)
      → b.storage.capacity < 2 ^ 64
      → 0 < b.storage.address_alignment
      → IsInside b.storage.capacity p
      → slice_of b (some p) offset size ≡ sliced b.storage p offset size
  unfolding slice_of create create_on
  slice_of-some b p offset size c a h = elim (Bool-cases (leb (offset + size) p.size)) [
    | inl e ↦
        rw
          (
            e,
            fits offset size p.size e,
            wraps p offset size b.storage.capacity c h.within (omega (tests, e)),
            validate_complete b.storage (part p offset size ∷ []) c
                (part-IsBuffer b.storage p offset size a h (omega (tests, e))),
          )
          refl
    | inr e ↦ rw (e, misfits offset size p.size e) refl
  ]

  -- In a buffer that `create` made on a storage of fewer than 2 ^ 64 bytes, a slice of a plane
  -- succeeds when the offset and the size, added without overflow, stay within the plane, and then
  -- is that part of it; otherwise it fails.
  pub slice_plane_exact :
      (b : Buffer S) (i : ℕ) (p : PlaneLayout) (offset size : ℕ)
      → b.storage.capacity < 2 ^ 64
      → IsBuffer b.storage b.planes
      → get_elem? b.planes i ≡ some p
      → slice_plane b i offset size ≡ sliced b.storage p offset size
  unfolding slice_plane
  slice_plane_exact b i p offset size c h e = rw e (
      slice_of-some b p offset size c h.aligned
        (All-get (IsInside b.storage.capacity) b.planes i h.layout.inside e))

  both :
      (p : PlaneLayout) (offset size inner_offset inner_size : ℕ) (storage : BufferStorage S)
      → offset + size ≤ p.size
      → inner_offset + inner_size ≤ size
      → sliced storage (part p offset size) inner_offset inner_size
        ≡ sliced storage p (offset + inner_offset) inner_size
  both p offset size inner_offset inner_size storage l k =
      let inner : leb (inner_offset + inner_size) size ≡ true = ground (arith, k) in
      let outer : leb (offset + inner_offset + inner_size) p.size ≡ true = ground (arith, l, k) in
      let sum : p.offset + offset + inner_offset ≡ p.offset + (offset + inner_offset) =
        omega arith in
      rw (inner, outer, sum) refl

  -- In a buffer that `create` made on a storage of fewer than 2 ^ 64 bytes, a slice within the
  -- part of a plane that a first slice gave is the slice of the plane from the sum of the offsets.
  pub slice_of_slice :
      (b : Buffer S) (i : ℕ) (p : PlaneLayout) (offset size inner_offset inner_size : ℕ)
      → b.storage.capacity < 2 ^ 64
      → IsBuffer b.storage b.planes
      → get_elem? b.planes i ≡ some p
      → offset + size ≤ p.size
      → inner_offset + inner_size ≤ size
      → slice_plane
          (record { storage = b.storage; planes = part p offset size ∷ [] })
          0
          inner_offset
          inner_size
        ≡ slice_plane b i (offset + inner_offset) inner_size
  slice_of_slice b i p offset size inner_offset inner_size c h e l k =
      let q = part p offset size in
      let s : Buffer S = record { storage = b.storage; planes = q ∷ [] } in
      let inside = All-get (IsInside b.storage.capacity) b.planes i h.layout.inside e in
      slice_plane_exact s 0 q inner_offset inner_size c
        (part-IsBuffer b.storage p offset size h.aligned inside l) refl
      ∙ both p offset size inner_offset inner_size b.storage l k
      ∙ sym (slice_plane_exact b i p (offset + inner_offset) inner_size c h e)
