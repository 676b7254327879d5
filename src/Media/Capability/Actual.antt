-- ===== src/Media/Capability/Actual.antt =====
-- The layout that `make_actual_format` of src/media/capability.cpp makes is one that
-- `layout_matches` accepts.
use mathlib.Core.Path.{subst}
use eavp.Base.{
  suc, ◌-◌, ◌/◌, ℕ, ◌+◌, ◌%◌, ◌≤◌, ◌<◌, ◌≡◌, sym, ap, ◌∙◌, refl, true, List, [], ◌∷◌, Option, none,
  some, All, length, arith,
}
use eavp.Base.Int.{to_size}
use eavp.Media.Buffer.{PlaneLayout}
use eavp.Media.Buffer.Mapped.Alignment.{IsMultiple, IsMultiple-trans}
use eavp.Media.VideoFormat.{size_max}
use eavp.Media.Capability.{
  PlaneLayoutConstraint, aligned_stride, required_size, plane_fits, actual_plane, actual_planes,
  clear_of, planes_match,
}
use eavp.Media.Capability.Sizes.{
  checked_add, checked_multiply, align_up, least_common_multiple, ◌>>=◌,
}
use eavp.Media.Capability.Aligned.{
  mod_of_multiple, checked_add-some, checked_multiply-some, align_up-some,
  least_common_multiple-some,
}

pub >>=-some {ℓ κ} :
    {A : Type ℓ} {B : Type κ} (m : Option A) (f : A → Option B) {b : B}
    → (m >>= f) ≡ some b
    → (a : A) × (m ≡ some a) × (f a ≡ some b)
>>=-some none f h = absurd (cc)
>>=-some (some a) f h = (a, refl, h)

pub some-eq {ℓ} : {A : Type ℓ} {a b : A} → some a ≡ some b → a ≡ b
some-eq h = cc

some-pair {ℓ κ} :
    {A : Type ℓ} {B : Type κ} {a c : A} {b d : B}
    → ◌≡◌ {A = Option (A × B)} (some (a, b)) (some (c, d))
    → (a ≡ c) × (b ≡ d)
some-pair h = (cc, cc)

-- A constraint whose numbers are those of a std::size_t, and whose address alignment divides that of
-- the storage.
pub record IsMet (address : ℕ) (c : PlaneLayoutConstraint) : Type 0 where
  pub stride_small : c.stride_alignment ≤ size_max
  pub size_small : c.size_alignment ≤ size_max
  pub proven : IsMultiple c.address_alignment address
  pub address_positive : 0 < address

aligned_stride-multiple :
    (width : ℕ) (c : PlaneLayoutConstraint) (stride : ℕ)
    → c.stride_alignment ≤ size_max
    → aligned_stride width c ≡ some stride
    → stride % c.stride_alignment ≡ 0
unfolding aligned_stride
aligned_stride-multiple width c stride small e =
    let h = to_size c.horizontal_subsampling in
    let (samples, es, e) = >>=-some (checked_add width (h - 1)) _ e in
    let (minimum, em, e) =
      >>=-some (checked_multiply (samples / h) c.bytes_per_sample)
        (λ n. align_up n c.stride_alignment) e in
    let m = checked_multiply-some (samples / h) c.bytes_per_sample em in
    mod_of_multiple c.stride_alignment stride
      (align_up-some minimum c.stride_alignment small m.1 e).2

required_size-le :
    (height : ℕ) (c : PlaneLayoutConstraint) (stride rows : ℕ)
    → required_size height c stride ≡ some rows
    → rows ≤ size_max
unfolding required_size
required_size-le height c stride rows e =
    let v = to_size c.vertical_subsampling in
    let (samples, es, e) = >>=-some (checked_add height (v - 1)) _ e in
    (checked_multiply-some stride (samples / v) e).1

module _ (width height address next : ℕ) (c : PlaneLayoutConstraint) (met : IsMet address c) where
  fits :
      (stride rows size offset : ℕ)
      → aligned_stride width c ≡ some stride
      → required_size height c stride ≡ some rows
      → rows ≤ size
      → stride % c.stride_alignment ≡ 0
      → size % c.size_alignment ≡ 0
      → offset % c.offset_alignment ≡ 0
      → offset % c.address_alignment ≡ 0
      → plane_fits width height address (record { offset = offset; size = size; stride = stride }) c
        ≡ true
  unfolding plane_fits
  fits stride rows size offset es er le a b d f =
      let z = mod_of_multiple c.address_alignment address met.proven in
      let pos = met.address_positive in rw (es, er) (ground (arith, le, a, b, d, f, z, pos))

  actual_plane-fits :
      (p : PlaneLayout) (end : ℕ)
      → next ≤ size_max
      → actual_plane width height next c ≡ some (p, end)
      → (plane_fits width height address p c ≡ true)
        × (next ≤ p.offset)
        × (p.offset + p.size ≡ end)
        × (end ≤ size_max)
  unfolding actual_plane
  actual_plane-fits p end n e =
      let (stride, es, e) = >>=-some (aligned_stride width c) _ e in
      let (rows, er, e) = >>=-some (required_size height c stride) _ e in
      let (size, ez, e) = >>=-some (align_up rows c.size_alignment) _ e in
      let (al, ea, e) =
        >>=-some (least_common_multiple c.offset_alignment c.address_alignment) _ e in
      let (offset, eo, e) = >>=-some (align_up next al) _ e in
      let (end', ee, e) = >>=-some (checked_add offset size) _ e in
      let z =
        align_up-some rows c.size_alignment met.size_small
          (required_size-le height c stride rows er) ez in
      let l = least_common_multiple-some c.offset_alignment c.address_alignment ea in
      let o = align_up-some next al l.2 n eo in
      let s = checked_add-some offset size z.1 ee in
      let f =
        fits stride rows size offset es er z.0
          (aligned_stride-multiple width c stride met.stride_small es)
          (mod_of_multiple c.size_alignment size z.2)
          (mod_of_multiple c.offset_alignment offset
            (IsMultiple-trans c.offset_alignment al offset l.0 o.2))
          (mod_of_multiple c.address_alignment offset
            (IsMultiple-trans c.address_alignment al offset l.1 o.2)) in
      let p' : PlaneLayout = record { offset = offset; size = size; stride = stride } in
      let (r, t) = some-pair {a = p'} {c = p} {b = end'} {d = end} e in
      (
        ap (λ x. plane_fits width height address x c) (sym r) ∙ f,
        subst (λ (x : PlaneLayout). next ≤ x.offset) r o.0,
        ap (λ (x : PlaneLayout). x.offset + x.size) (sym r) ∙ sym s.0 ∙ t,
        subst (λ (x : ℕ). x ≤ size_max) t s.1,
      )

-- A plane in range that ends at `next` or before.
abbrev pub EndsBy : ℕ → PlaneLayout → Type 0
EndsBy next p = p.offset + p.size ≤ next

clear_of-EndsBy :
    (p : PlaneLayout) (next : ℕ) (qs : List PlaneLayout)
    → next ≤ p.offset
    → next ≤ size_max
    → All (EndsBy next) qs
    → clear_of p qs ≡ true
unfolding clear_of
clear_of-EndsBy p next [] h n a = refl
clear_of-EndsBy p next (q ∷ qs) h n a =
    let b : q.offset + q.size ≤ next = a.0 in
    ground (arith, b, h, n, clear_of-EndsBy p next qs h n a.1)

All-EndsBy : (n m : ℕ) (qs : List PlaneLayout) → n ≤ m → All (EndsBy n) qs → All (EndsBy m) qs
All-EndsBy n m [] h a = tt
All-EndsBy n m (q ∷ qs) h a = (omega (arith, a.0, h), All-EndsBy n m qs h a.1)

module _ (width height address : ℕ) where
  planes_match-cons :
      (p : PlaneLayout) (c : PlaneLayoutConstraint) (before ps : List PlaneLayout)
      (cs : List PlaneLayoutConstraint)
      → p.offset + p.size ≤ size_max
      → clear_of p before ≡ true
      → plane_fits width height address p c ≡ true
      → planes_match width height address (p ∷ before) ps cs ≡ true
      → planes_match width height address before (p ∷ ps) (c ∷ cs) ≡ true
  unfolding planes_match
  planes_match-cons p c before ps cs r k f m = ground (arith, r, k, f, m)

  pub actual_planes-match :
      (next : ℕ) (before ps : List PlaneLayout) (cs : List PlaneLayoutConstraint)
      → next ≤ size_max
      → All (EndsBy next) before
      → All (IsMet address) cs
      → actual_planes width height next cs ≡ some ps
      → (planes_match width height address before ps cs ≡ true) × (length ps ≡ length cs)
  unfolding actual_planes planes_match
  actual_planes-match next before [] [] n a m e = (refl, refl)
  actual_planes-match next before (p ∷ ps) [] n a m e = absurd (ground (arith, e))
  actual_planes-match next before ps' (c ∷ cs) n a m e =
      let ((p, end), ep, e) = >>=-some (actual_plane width height next c) _ e in
      let (ps, es, e) = >>=-some (actual_planes width height end cs) _ e in
      let f = actual_plane-fits width height address next c m.0 p end n ep in
      let rest =
        actual_planes-match end (p ∷ before) ps cs f.3
          (omega (arith, f.2), All-EndsBy next end before (omega (arith, f.1, f.2)) a) m.1 es in
      let whole =
        planes_match-cons p c before ps cs (omega (arith, f.2, f.3))
          (clear_of-EndsBy p next before f.1 n a) f.0 rest.0 in
      subst
        (λ (xs : List PlaneLayout).
          (planes_match width height address before xs (c ∷ cs) ≡ true)
          × (length xs ≡ length (c ∷ cs)))
        (some-eq e) (whole, ap suc rest.1)
