-- ===== src/Media/Buffer.antt =====
-- include/eavp/media/buffer.hpp and src/media/buffer.cpp: buffers of planes in a storage. The storage
-- is an object of a subclass of `BufferStorage` and a parameter; its own state is `S`.
pub mod Mapped
pub mod Planes
pub mod Slice
mod Tests
use eavp.Base.{
  ℕ, zero, suc, ◌+◌, ◌-◌, ◌%◌, ◌^◌, Bool, true, false, not, ◌&&◌, ◌||◌, List, [], ◌∷◌, Option, none,
  some, String, if◌then◌else◌, ◌==◌, ltb, leb, length, get_elem?,
}
use eavp.Status.{
  Status, ok_status, status, invalid_argument, invalid_state, unsupported, is_ok, Result, success,
  failure,
}

-- `enum class MemoryDomain`.
pub data MemoryDomain : Type 0 where
  cpu mmap dma_buf device_opaque : MemoryDomain

-- The value of the enumerator, from 0, by which `==` compares.
abbrev pub domain_value : MemoryDomain → ℕ
domain_value cpu = 0
domain_value mmap = 1
domain_value dma_buf = 2
domain_value device_opaque = 3

-- `enum class MapMode`.
pub data MapMode : Type 0 where
  read_only read_write : MapMode

-- `memory_domain_name`.
pub memory_domain_name : MemoryDomain → Result String
memory_domain_name cpu = success "cpu"
memory_domain_name mmap = success "mmap"
memory_domain_name dma_buf = success "dmabuf"
memory_domain_name device_opaque = success "device_opaque"

-- `struct PlaneLayout`.
pub record PlaneLayout : Type 0 where
  pub offset : ℕ
  pub size : ℕ
  pub stride : ℕ

-- What `map` reports: its status, the address unless it is null, and the size.
pub record Mapping : Type 0 where
  pub result : Status
  pub address : Option ℕ
  pub mapped_size : ℕ

-- `class BufferStorage`: the constants of an object, and the calls that change its state.
pub record BufferStorage (S : Type 0) : Type 0 where
  pub memory_domain : MemoryDomain
  pub capacity : ℕ
  pub address_alignment : ℕ
  pub provider_id : String
  pub map : MapMode → S → Mapping × S
  pub unmap : S → Status × S

-- `class Buffer`.
pub record Buffer (S : Type 0) : Type 0 where
  pub storage : BufferStorage S
  pub planes : List PlaneLayout

-- `is_within`.
abbrev pub is_within : ℕ → ℕ → ℕ → Bool
is_within offset size capacity = leb offset capacity && leb size (capacity - offset)

-- `plane.offset + plane.size`.
abbrev pub plane_end : PlaneLayout → ℕ
plane_end p = (p.offset + p.size) % 2 ^ 64

-- `plane.offset < other_end && other.offset < plane_end`.
abbrev pub overlaps : PlaneLayout → PlaneLayout → Bool
overlaps p q = ltb p.offset (plane_end q) && ltb q.offset (plane_end p)

-- The inner loop of `validate_planes`, over the planes before `p`.
pub overlaps_any : PlaneLayout → List PlaneLayout → Bool
overlaps_any p [] = false
overlaps_any p (q ∷ qs) = if overlaps p q then true else overlaps_any p qs

-- The outer loop of `validate_planes`; `before` holds the planes that it has passed, the last first.
pub validate_each : ℕ → List PlaneLayout → List PlaneLayout → Status
unfolding overlaps_any
validate_each capacity before [] = ok_status
validate_each capacity before (p ∷ ps) =
    let rest = validate_each capacity (p ∷ before) ps in
    if p.stride == 0
    then status invalid_argument "plane stride must be positive"
    else if not (is_within p.offset p.size capacity)
    then status invalid_argument "plane is outside storage capacity"
    else if overlaps_any p before
    then status invalid_argument "buffer planes must not overlap"
    else rest

module _ {S : Type 0} where
  validate_layout : BufferStorage S → List PlaneLayout → Status
  unfolding validate_each
  validate_layout storage [] = status invalid_argument "buffer must contain at least one plane"
  validate_layout storage (p ∷ ps) =
      if storage.address_alignment == 0
      then status invalid_argument "buffer storage address alignment must be positive"
      else validate_each storage.capacity [] (p ∷ ps)

  -- `validate_planes`; `none` is the null storage.
  pub validate_planes : Option (BufferStorage S) → List PlaneLayout → Status
  unfolding validate_layout
  validate_planes none planes = status invalid_argument "buffer storage must not be null"
  validate_planes (some storage) planes = validate_layout storage planes

  create_on : Option (BufferStorage S) → List PlaneLayout → Status → Result (Buffer S)
  create_on none planes st = failure st
  create_on (some storage) planes st =
      if is_ok st then success (record { storage = storage; planes = planes }) else failure st

  -- `Buffer::create`.
  pub create : Option (BufferStorage S) → List PlaneLayout → Result (Buffer S)
  unfolding create_on validate_planes
  create storage planes = create_on storage planes (validate_planes storage planes)

  -- `Buffer::allocate(size, planes)`; `cpu_storage` is `CpuBufferStorage(size)`.
  pub allocate_planes : (ℕ → BufferStorage S) → ℕ → List PlaneLayout → Result (Buffer S)
  unfolding create
  allocate_planes cpu_storage size planes =
      if size == 0
      then failure (status invalid_argument "buffer size must be positive")
      else create (some (cpu_storage size)) planes

  -- `Buffer::allocate(size)`.
  pub allocate : (ℕ → BufferStorage S) → ℕ → Result (Buffer S)
  unfolding allocate_planes
  allocate cpu_storage size =
      allocate_planes cpu_storage size (record { offset = 0; size = size; stride = size } ∷ [])

  slice_of : Buffer S → Option PlaneLayout → ℕ → ℕ → Result (Buffer S)
  unfolding create
  slice_of b none offset size = failure (status invalid_argument "plane index is invalid")
  slice_of b (some p) offset size =
      if not (is_within offset size p.size)
      then failure (status invalid_argument "buffer slice is out of range")
      else create (some b.storage)
          (record { offset = (p.offset + offset) % 2 ^ 64; size = size; stride = p.stride } ∷ [])

  -- `Buffer::slice_plane`.
  unfoldable pub slice_plane : Buffer S → ℕ → ℕ → ℕ → Result (Buffer S)
  unfolding slice_of
  slice_plane b index offset size = slice_of b (get_elem? b.planes index) offset size

  -- `Buffer::slice`.
  pub slice : Buffer S → ℕ → ℕ → Result (Buffer S)
  unfolding slice_plane
  slice b offset size =
      if length b.planes == 1
      then slice_plane b 0 offset size
      else failure (status unsupported "slice requires a single-plane buffer")
