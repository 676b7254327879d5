-- ===== src/Media/Buffer/Mapped.antt =====
-- `map_plane`, `MappedRegion` and `plane_address_alignment` of src/media/buffer.cpp.
pub mod Alignment
pub mod Cover
use eavp.Base.{
  ℕ, zero, suc, ◌+◌, ◌-◌, ◌*◌, ◌/◌, ◌%◌, ◌≤◌, ◌<◌, ◌≡◌, refl, sym, ap, ◌∙◌, inl, inr, Bool, true,
  false, not, ◌&&◌, ◌||◌, List, [], ◌∷◌, Option, none, some, if◌then◌else◌, ◌==◌, ltb, leb,
  get_elem?, Bool-cases, arith,
}
use eavp.Status.{
  Status, ok_status, status, invalid_argument, invalid_state, is_ok, Result, success, failure,
}
use eavp.Media.Buffer.{
  PlaneLayout, BufferStorage, Buffer, Mapping, MapMode, read_write, read_only, is_within,
}

-- `class MappedRegion`; `mapped` says that it holds the storage, which its destructor unmaps.
pub record MappedRegion : Type 0 where
  pub mapped : Bool
  pub address : Option ℕ
  pub size : ℕ
  pub mode : MapMode

-- `MappedRegion::mutable_data`.
pub mutable_data : MappedRegion → Option ℕ
mutable_data r = elim r.mode [ read_write ↦ r.address | read_only ↦ none ]

abbrev pub is_null : Option ℕ → Bool
is_null none = true
is_null (some a) = false

-- `mapped_data + plane.offset`, where the address is not null.
abbrev pub advance : Option ℕ → ℕ → Option ℕ
advance none n = none
advance (some a) n = some (a + n)

module _ {S : Type 0} where
  cover : BufferStorage S → PlaneLayout → MapMode → Mapping × S → Result MappedRegion × S
  cover storage p mode (m, s) =
      if not (is_ok m.result)
      then (failure m.result, s)
      else if not (is_within p.offset p.size m.mapped_size)
          || is_null m.address && not (p.size == 0)
      then (
        failure (status invalid_argument "mapped storage cannot cover requested plane"),
        (storage.unmap s).1,
      )
      else (
        success (record {
          mapped = true;
          address = advance m.address p.offset;
          size = p.size;
          mode = mode;
        }),
        s,
      )

  map_at : Buffer S → Option PlaneLayout → MapMode → S → Result MappedRegion × S
  unfolding cover
  map_at b none mode s = (failure (status invalid_argument "plane index is invalid"), s)
  map_at b (some p) mode s = cover b.storage p mode (b.storage.map mode s)

  -- `Buffer::map_plane`.
  pub map_plane : Buffer S → ℕ → MapMode → S → Result MappedRegion × S
  unfolding map_at
  map_plane b index mode s = map_at b (get_elem? b.planes index) mode s

  -- `MappedRegion::unmap`, also run by the destructor.
  pub unmap : BufferStorage S → MappedRegion → S → MappedRegion × S
  unmap storage r s =
      let cleared = record r { mapped = false; address = none; size = 0 } in
      if r.mapped then (cleared, (storage.unmap s).1) else (cleared, s)

-- The loop of `greatest_common_divisor`, on fuel.
pub gcd_loop : ℕ → ℕ → ℕ → ℕ
gcd_loop zero left right = left
gcd_loop (suc fuel) left right =
    let rest = gcd_loop fuel right (left % right) in if right == 0 then left else rest

-- `greatest_common_divisor`: the second number falls with each round.
unfoldable pub greatest_common_divisor : ℕ → ℕ → ℕ
unfolding gcd_loop
greatest_common_divisor left right = gcd_loop (suc right) left right

module _ {S : Type 0} where
  alignment_at : Buffer S → Option PlaneLayout → Result ℕ
  alignment_at b none = failure (status invalid_argument "plane index is invalid")
  alignment_at b (some p) =
      if b.storage.address_alignment == 0
      then failure
          (status invalid_state "buffer storage has an invalid address alignment guarantee")
      else if p.offset == 0
      then success b.storage.address_alignment
      else success (greatest_common_divisor b.storage.address_alignment p.offset)

  -- `Buffer::plane_address_alignment`.
  unfoldable pub plane_address_alignment : Buffer S → ℕ → Result ℕ
  unfolding alignment_at
  plane_address_alignment b index = alignment_at b (get_elem? b.planes index)
