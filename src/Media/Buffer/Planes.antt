-- ===== src/Media/Buffer/Planes.antt =====
-- `validate_planes` of src/media/buffer.cpp: the planes that it accepts.
use eavp.Base.{
  ℕ, ◌+◌, ◌^◌, ◌≤◌, ◌<◌, ◌≡◌, refl, ◌⊎◌, ◌↔◌, inl, inr, Bool, true, false, List, [], ◌∷◌, some,
  ◌==◌, All, Bool-cases, arith,
}
use eavp.Status.{is_ok}
use eavp.Media.Buffer.{
  PlaneLayout, BufferStorage, is_within, overlaps, overlaps_any, validate_each, validate_layout,
  validate_planes,
}

-- A plane with a stride that stands in a storage of `capacity`.
pub record IsInside (capacity : ℕ) (p : PlaneLayout) : Type 0 where
  pub strided : 0 < p.stride
  pub within : p.offset + p.size ≤ capacity

-- One plane ends before the other begins.
abbrev pub Apart : PlaneLayout → PlaneLayout → Type 0
Apart p q = (p.offset + p.size ≤ q.offset) ⊎ (q.offset + q.size ≤ p.offset)

-- Every two planes of a list are apart.
abbrev pub ArePairwiseApart : List PlaneLayout → Type 0
ArePairwiseApart [] = Unit
ArePairwiseApart (p ∷ ps) = All (λ q. Apart q p) ps × ArePairwiseApart ps

-- The layouts that a storage can hold.
pub record IsLayout (capacity : ℕ) (ps : List PlaneLayout) : Type 0 where
  pub inside : All (IsInside capacity) ps
  pub apart : ArePairwiseApart ps

overlaps_iff :
    (c : ℕ) (p q : PlaneLayout)
    → c < 2 ^ 64
    → IsInside c p
    → IsInside c q
    → (overlaps p q ≡ false) ↔ Apart p q
overlaps_iff c p q b ip iq = ground (arith, b, ip.within, iq.within)

overlaps_any→All :
    (c : ℕ) (p : PlaneLayout) (qs : List PlaneLayout)
    → c < 2 ^ 64
    → IsInside c p
    → All (IsInside c) qs
    → overlaps_any p qs ≡ false
    → All (Apart p) qs
unfolding overlaps_any
overlaps_any→All c p [] b ip iqs h = tt
overlaps_any→All c p (q ∷ qs) b ip iqs h = elim (Bool-cases (overlaps p q)) [
  | inl e ↦ absurd (ground (arith, e, h))
  | inr e ↦ (
    (overlaps_iff c p q b ip iqs.0).0 e,
    overlaps_any→All c p qs b ip iqs.1 (ground (arith, e, h)),
  )
]

All→overlaps_any :
    (c : ℕ) (p : PlaneLayout) (qs : List PlaneLayout)
    → c < 2 ^ 64
    → IsInside c p
    → All (IsInside c) qs
    → All (Apart p) qs
    → overlaps_any p qs ≡ false
unfolding overlaps_any
All→overlaps_any c p [] b ip iqs h = refl
All→overlaps_any c p (q ∷ qs) b ip iqs h =
    rw ((overlaps_iff c p q b ip iqs.0).1 h.0) (All→overlaps_any c p qs b ip iqs.1 h.1)

-- What `validate_each` has checked where it passes.
record Passes (c : ℕ) (before ps : List PlaneLayout) : Type 0 where
  inside : All (IsInside c) ps
  earlier : All (λ p. All (Apart p) before) ps
  apart : ArePairwiseApart ps

pub unzip :
    (p : PlaneLayout) (before ps : List PlaneLayout)
    → All (λ q. All (Apart q) (p ∷ before)) ps
    → All (λ q. Apart q p) ps × All (λ q. All (Apart q) before) ps
unzip p before [] h = (tt, tt)
unzip p before (q ∷ qs) h = let r = unzip p before qs h.1 in ((h.0.0, r.0), (h.0.1, r.1))

zip :
    (p : PlaneLayout) (before ps : List PlaneLayout)
    → All (λ q. Apart q p) ps
    → All (λ q. All (Apart q) before) ps
    → All (λ q. All (Apart q) (p ∷ before)) ps
zip p before [] h k = tt
zip p before (q ∷ qs) h k = ((h.0, k.0), zip p before qs h.1 k.1)

validate_each_sound :
    (c : ℕ) (before ps : List PlaneLayout)
    → c < 2 ^ 64
    → All (IsInside c) before
    → is_ok (validate_each c before ps) ≡ true
    → Passes c before ps
unfolding validate_each
validate_each_sound c before [] b i h = record { inside = tt; earlier = tt; apart = tt }
validate_each_sound c before (p ∷ ps) b i h = elim (Bool-cases (p.stride == 0)) [
  | inl e ↦ absurd (ground (arith, e, h))
  | inr e ↦ elim (Bool-cases (is_within p.offset p.size c)) [
    | inr f ↦ absurd (ground (arith, e, f, h))
    | inl f ↦ elim (Bool-cases (overlaps_any p before)) [
      | inl g ↦ absurd (ground (arith, e, f, g, h))
      | inr g ↦
          let ip : IsInside c p = record {
            strided = ground (arith, e);
            within = ground (arith, f);
          } in
          let r = validate_each_sound c (p ∷ before) ps b (ip, i) (ground (arith, e, f, g, h)) in
          let z = unzip p before ps r.earlier in
          record {
            inside = (ip, r.inside);
            earlier = (overlaps_any→All c p before b ip i g, z.1);
            apart = (z.0, r.apart);
          }
    ]
  ]
]

validate_each_complete :
    (c : ℕ) (before ps : List PlaneLayout)
    → c < 2 ^ 64
    → All (IsInside c) before
    → Passes c before ps
    → is_ok (validate_each c before ps) ≡ true
unfolding validate_each
validate_each_complete c before [] b i h = refl
validate_each_complete c before (p ∷ ps) b i h =
    let rest =
      validate_each_complete c (p ∷ before) ps b (h.inside.0, i)
        (record {
          inside = h.inside.1;
          earlier = zip p before ps h.apart.0 h.earlier.1;
          apart = h.apart.1;
        }) in
    ground (
      arith,
      rest,
      h.inside.0.strided,
      h.inside.0.within,
      All→overlaps_any c p before b h.inside.0 i h.earlier.0,
    )

-- A list that has an element.
abbrev pub is_nonempty : List PlaneLayout → Bool
is_nonempty [] = false
is_nonempty (p ∷ ps) = true

-- What the storage and the planes of a buffer satisfy.
pub record IsBuffer {S : Type 0} (storage : BufferStorage S) (ps : List PlaneLayout) : Type 0 where
  pub nonempty : is_nonempty ps ≡ true
  pub aligned : 0 < storage.address_alignment
  pub layout : IsLayout storage.capacity ps

module _ {S : Type 0} (storage : BufferStorage S) where
  validate_sound :
      (ps : List PlaneLayout)
      → storage.capacity < 2 ^ 64
      → is_ok (validate_planes (some storage) ps) ≡ true
      → IsBuffer storage ps
  unfolding validate_planes validate_layout
  validate_sound [] b h = absurd (ground (arith, h))
  validate_sound (p ∷ ps) b h = elim (Bool-cases (storage.address_alignment == 0)) [
    | inl e ↦ absurd (ground (arith, e, h))
    | inr e ↦
        let r = validate_each_sound storage.capacity [] (p ∷ ps) b tt (ground (arith, e, h)) in
        record {
          nonempty = refl;
          aligned = ground (arith, e);
          layout = record { inside = r.inside; apart = r.apart };
        }
  ]

  none_earlier : (ps : List PlaneLayout) → All (λ p. All (Apart p) []) ps
  none_earlier [] = tt
  none_earlier (p ∷ ps) = (tt, none_earlier ps)

  pub validate_complete :
      (ps : List PlaneLayout)
      → storage.capacity < 2 ^ 64
      → IsBuffer storage ps
      → is_ok (validate_planes (some storage) ps) ≡ true
  unfolding validate_planes validate_layout
  validate_complete [] b h = h.nonempty
  validate_complete (p ∷ ps) b h =
      let r = validate_each_complete storage.capacity [] (p ∷ ps) b tt (record {
        inside = h.layout.inside;
        earlier = none_earlier (p ∷ ps);
        apart = h.layout.apart;
      }) in
      ground (arith, r, h.aligned)

  -- The planes that a storage of fewer than 2 ^ 64 bytes accepts are those of a list that is not
  -- empty, on a storage with an alignment, where each plane has a stride and ends within the
  -- storage, and of every two planes one ends before the other begins.
  pub validate_planes_iff :
      (ps : List PlaneLayout)
      → storage.capacity < 2 ^ 64
      → (is_ok (validate_planes (some storage) ps) ≡ true) ↔ IsBuffer storage ps
  validate_planes_iff ps b = (validate_sound ps b, validate_complete ps b)
