-- ===== src/Media/Reference/Payload.antt =====
-- What can be read back from a packet of the encoder of src/media/reference_backend.cpp.
use native.Mathlib.Nat.{
  div-add-mod, mod-lt, mul-add-mod_self_left, mod-eq_of_lt, mod-one, pow-suc, mul-le-mul_right,
}
use mathlib.Core.Path.{ap₂}
use eavp.Base.{
  ℕ, zero, suc, ◌+◌, ◌*◌, ◌/◌, ◌%◌, ◌^◌, ◌<◌, ◌≡◌, refl, sym, ap, ◌∙◌, List, [], ◌∷◌, ◌++◌, length,
  arith, inl, inr,
}
use eavp.Base.Int.{to_size}
use eavp.Status.{Result, success, success-eq, Result-cases}
use eavp.Media.Frame.{VideoFrame, MediaPacket, create_packet}
use eavp.Media.Reference.Encode.{checksum, big_endian, payload, encode}

-- The number that bytes stand for, the highest first.
abbrev pub value : List ℕ → ℕ
value [] = 0
value (b ∷ bs) = b * 256 ^ length bs + value bs

length-big_endian : (n x : ℕ) → length (big_endian n x) ≡ n
unfolding big_endian
length-big_endian zero x = refl
length-big_endian (suc n) x = ap suc (length-big_endian n x)

-- The next digit to the left.
digit : (m q r : ℕ) → 0 < m → r < m → (m * q + r) % (m * 256) ≡ q % 256 * m + r
digit m q r h k =
    let c = q % 256 * m + r in
    let e : m * q + r ≡ m * 256 * (q / 256) + c =
      grind (arith, ap (λ (t : ℕ). m * t) (div-add-mod q 256)) in
    let l : c < m * 256 = omega (
      arith,
      mul-le-mul_right {m = q % 256} {n = 255} m (omega (arith, mod-lt q {m = 256} (omega arith))),
    ) in
    ap (λ (x : ℕ). x % (m * 256)) e ∙ mul-add-mod_self_left (m * 256) (q / 256) c ∙ mod-eq_of_lt l

power_pos : (n : ℕ) → 0 < 256 ^ n
power_pos zero = omega arith
power_pos (suc n) = rw (pow-suc 256 n) (omega (arith, power_pos n))

value-big_endian : (n x : ℕ) → value (big_endian n x) ≡ x % 256 ^ n
unfolding big_endian
value-big_endian zero x = sym (mod-one x)
value-big_endian (suc n) x =
    let m = 256 ^ n in
    let h : 0 < m = power_pos n in
    ap₂ (λ (l v : ℕ). x / m % 256 * 256 ^ l + v) (length-big_endian n x) (value-big_endian n x)
    ∙ sym (digit m (x / m) (x % m) h (mod-lt x h))
    ∙ ap₂ (λ (a b : ℕ). a % b) (div-add-mod x m) (sym (pow-suc 256 n))

-- The sum of the bytes.
abbrev pub total : List ℕ → ℕ
total [] = 0
total (b ∷ bs) = b + total bs

checksum-total :
    (sum : ℕ) (bs : List ℕ) → sum < 2 ^ 32 → checksum sum bs ≡ (sum + total bs) % 2 ^ 32
unfolding checksum
checksum-total sum [] h = omega (arith, h)
checksum-total sum (b ∷ bs) h = checksum-total ((sum + b) % 2 ^ 32) bs (omega arith) ∙ omega arith

-- A packet of the reference encoder has a payload of 16 bytes: the four of the magic, then eight and
-- four bytes whose values, the highest byte first, are the time stamp of the frame as an unsigned
-- number of 64 bits and the sum of the bytes of its first plane modulo 2 ^ 32; the stamps of the
-- packet are that of the frame.
pub encode_reads_back :
    {S : Type 0} (contents : VideoFrame S → Result (List ℕ)) (f : VideoFrame S)
    (p : MediaPacket (List ℕ))
    → encode contents f ≡ success p
    → (bytes : List ℕ) × (stamp : List ℕ) × (sum : List ℕ) × (contents f ≡ success bytes)
      × (p.buffer ≡ 0x45 ∷ 0x41 ∷ 0x56 ∷ 0x50 ∷ (stamp ++ sum))
      × (length stamp ≡ 8)
      × (value stamp ≡ to_size f.pts % 2 ^ 64)
      × (length sum ≡ 4)
      × (value sum ≡ total bytes % 2 ^ 32)
      × (p.pts ≡ f.pts)
      × (p.dts ≡ f.pts)
unfolding encode payload create_packet
encode_reads_back contents f p e = elim (Result-cases (contents f)) [
  | inl (s, n) ↦ absurd (ground (arith, n, e))
  | inr (bytes, c) ↦
      let q = success-eq (rw (c, encode) at e) in
      (
        bytes,
        big_endian 8 (to_size f.pts),
        big_endian 4 (checksum 0 bytes),
        c,
        ap (λ (x : MediaPacket (List ℕ)). x.buffer) (sym q),
        length-big_endian 8 (to_size f.pts),
        value-big_endian 8 (to_size f.pts),
        length-big_endian 4 (checksum 0 bytes),
        value-big_endian 4 (checksum 0 bytes)
            ∙ ap (λ (x : ℕ). x % 2 ^ 32) (checksum-total 0 bytes (omega arith))
            ∙ omega arith,
        ap (λ (x : MediaPacket (List ℕ)). x.pts) (sym q),
        ap (λ (x : MediaPacket (List ℕ)). x.dts) (sym q),
      )
]
