-- ===== src/Media/Buffer/Mapped/Cover.antt =====
-- `map_plane` of src/media/buffer.cpp: what a region that it returns covers.
use eavp.Base.{
  ℕ, ◌+◌, ◌≤◌, ◌≡◌, refl, ◌⊎◌, inl, inr, true, false, not, ◌&&◌, some, ◌==◌, get_elem?, Bool-cases,
  arith,
}
use eavp.Status.{is_ok, Result, success, failure}
use eavp.Media.Buffer.{PlaneLayout, BufferStorage, Buffer, Mapping, MapMode, is_within}
use eavp.Media.Buffer.Mapped.{MappedRegion, is_null, advance, cover, map_at, map_plane}

module _ {S : Type 0} where
  -- What a map of the plane `p` by `m` has left: a region of the plane within the mapped bytes, or
  -- a failure after which the storage is as `map` left it, or unmapped where `map` had succeeded.
  pub Covers :
      BufferStorage S → PlaneLayout → MapMode → Mapping → S → Result MappedRegion × S → Type 0
  Covers storage p mode m s (success r, t) =
      (is_ok m.result ≡ true)
      × (p.offset + p.size ≤ m.mapped_size)
      × (r ≡ record {
        mapped = true;
        address = advance m.address p.offset;
        size = p.size;
        mode = mode;
      })
      × (t ≡ s)
  Covers storage p mode m s (failure st, t) =
      ((is_ok m.result ≡ false) × (t ≡ s)) ⊎ ((is_ok m.result ≡ true) × (t ≡ (storage.unmap s).1))

  cover-Covers :
      (storage : BufferStorage S) (p : PlaneLayout) (mode : MapMode) (m : Mapping) (s : S)
      → Covers storage p mode m s (cover storage p mode (m, s))
  unfolding cover Covers
  cover-Covers storage p mode m s = elim (Bool-cases (is_ok m.result)) [
    | inr e ↦ rw e (inl (e, refl))
    | inl e ↦ elim (Bool-cases (is_within p.offset p.size m.mapped_size)) [
      | inr f ↦ rw (e, f) (inr (e, refl))
      | inl f ↦ elim (Bool-cases (is_null m.address && not (p.size == 0))) [
        | inl g ↦ rw (e, f, g) (inr (e, refl))
        | inr g ↦ rw (e, f, g) (e, ground (arith, f), refl, refl)
      ]
    ]
  ]

  -- A map of a plane that the buffer has either fails, and then has unmapped what was mapped, or
  -- returns a region of the plane's size at its offset, within the bytes that the storage mapped.
  pub map_plane-Covers :
      (b : Buffer S) (i : ℕ) (p : PlaneLayout) (mode : MapMode) (s : S)
      → get_elem? b.planes i ≡ some p
      → let m = b.storage.map mode s in Covers b.storage p mode m.0 m.1 (map_plane b i mode s)
  unfolding map_plane map_at
  map_plane-Covers b i p mode s e =
      let m = b.storage.map mode s in rw e (cover-Covers b.storage p mode m.0 m.1)
