-- ===== src/Rtcm/Crc/Residue.antt =====
-- The check sum has 24 bits, and a frame that ends in its check sum leaves a register of zero.
use rtcmbridge.Base.{
  ℕ, zero, suc, ◌*◌, ◌/◌, ◌%◌, ◌^◌, ◌≤◌, ◌<◌, [], ◌∷◌, ◌++◌, ◌≡◌, refl, ap, ◌∙◌, bit_xor, arith,
  Bytes, ltb, ltb→lt, ltb_false→le, All, Bool-cases, inl, inr,
}
use native.Mathlib.Nat.{mod-eq_of_lt, pow-suc, one-le-pow, mul-le-mul_left}
use rtcmbridge.Base.Xor.{xor_div_pow, xor_mod_pow, xor_lt_pow, xor_self, xor-zero}
use rtcmbridge.Rtcm.Crc.{poly, crc_bit, crc_bits, crc_byte, crc_loop, crc24q}

-- Below 2^23 a round only shifts.
pub crc_bit_low : (crc : ℕ) → crc < 2 ^ 23 → crc_bit crc ≡ crc * 2
unfolding crc_bit
crc_bit_low crc h = ground arith

pub crc_bit_high : (crc : ℕ) → 2 ^ 23 ≤ crc → crc < 2 ^ 24 → crc_bit crc ≡ bit_xor (crc * 2) poly
unfolding crc_bit
crc_bit_high crc g h =
    let fits : crc * 2 % 2 ^ 32 ≡ crc * 2 = omega arith in
    let top : crc * 2 / 2 ^ 24 % 2 ≡ 1 = omega arith in rw (fits, top)

xor-poly-lt : (x : ℕ) → x / 2 ^ 24 ≡ 1 → bit_xor x poly < 2 ^ 24
xor-poly-lt x h =
    let top : bit_xor x poly / 2 ^ 24 ≡ 0 = xor_div_pow 24 x poly ∙ rw h in omega arith

pub crc_bit-lt : (crc : ℕ) → crc < 2 ^ 24 → crc_bit crc < 2 ^ 24
crc_bit-lt crc h = elim (Bool-cases (ltb crc (2 ^ 23))) [
  | inl low ↦ rw (crc_bit_low crc (ltb→lt _ _ low)) (omega (arith, ltb→lt _ _ low))
  | inr high ↦
      rw (crc_bit_high crc (ltb_false→le _ _ high) h)
        (xor-poly-lt (crc * 2) (omega (arith, ltb_false→le _ _ high)))
]

pub crc_bits-lt : (n crc : ℕ) → crc < 2 ^ 24 → crc_bits n crc < 2 ^ 24
unfolding crc_bits
crc_bits-lt zero crc h = h
crc_bits-lt (suc n) crc h = crc_bits-lt n (crc_bit crc) (crc_bit-lt crc h)

pub crc_byte-lt : (crc byte : ℕ) → crc < 2 ^ 24 → byte < 2 ^ 8 → crc_byte crc byte < 2 ^ 24
unfolding crc_byte
crc_byte-lt crc byte h b =
    crc_bits-lt 8 _ (xor_lt_pow 24 crc (byte * 2 ^ 16 % 2 ^ 32) h (omega arith))

abbrev pub IsBytes : Bytes → Type 0
IsBytes = All (λ b. b < 2 ^ 8)

pub crc_loop-lt :
    (crc : ℕ) (bytes : Bytes) → crc < 2 ^ 24 → IsBytes bytes → crc_loop crc bytes < 2 ^ 24
unfolding crc_loop
crc_loop-lt crc [] h b = h
crc_loop-lt crc (x ∷ xs) h b = crc_loop-lt (crc_byte crc x) xs (crc_byte-lt crc x h b.0) b.1

pub crc_loop-append :
    (crc : ℕ) (xs ys : Bytes) → crc_loop crc (xs ++ ys) ≡ crc_loop (crc_loop crc xs) ys
unfolding crc_loop
crc_loop-append crc [] ys = refl
crc_loop-append crc (x ∷ xs) ys = crc_loop-append (crc_byte crc x) xs ys

-- The final mask changes nothing: the register stays below 2^24.
pub crc24q-crc_loop : (bytes : Bytes) → IsBytes bytes → crc24q bytes ≡ crc_loop 0 bytes
unfolding crc24q
crc24q-crc_loop bytes b = mod-eq_of_lt (crc_loop-lt 0 bytes (omega arith) b)

crc_bits_shift : (n x : ℕ) → x * 2 ^ n < 2 ^ 24 → crc_bits n x ≡ x * 2 ^ n
unfolding crc_bits
crc_bits_shift zero x h = omega arith
crc_bits_shift (suc n) x h =
    let grow : x * 2 * 1 ≤ x * 2 * 2 ^ n = mul-le-mul_left (x * 2) (one-le-pow n 2 (omega arith)) in
    let double : x * 2 ^ suc n ≡ x * 2 * 2 ^ n =
      omega (arith, ap (λ (t : ℕ). x * t) (pow-suc 2 n)) in
    rw (crc_bit_low x (omega arith), double) (crc_bits_shift n (x * 2) (omega arith))

-- The register's own top byte takes that byte out and moves the rest up.
crc_byte_top : (crc : ℕ) → crc < 2 ^ 24 → crc_byte crc (crc / 2 ^ 16) ≡ crc % 2 ^ 16 * 2 ^ 8
unfolding crc_byte
crc_byte_top crc h =
    let word : crc / 2 ^ 16 * 2 ^ 16 % 2 ^ 32 ≡ crc / 2 ^ 16 * 2 ^ 16 = omega arith in
    let x = bit_xor crc (crc / 2 ^ 16 * 2 ^ 16) in
    let low : x % 2 ^ 16 ≡ crc % 2 ^ 16 =
      xor_mod_pow 16 crc (crc / 2 ^ 16 * 2 ^ 16)
      ∙ let none : crc / 2 ^ 16 * 2 ^ 16 % 2 ^ 16 ≡ 0 = omega arith in
        rw none (xor-zero (crc % 2 ^ 16)) in
    let high : x / 2 ^ 16 ≡ 0 =
      xor_div_pow 16 crc (crc / 2 ^ 16 * 2 ^ 16)
      ∙ let same : crc / 2 ^ 16 * 2 ^ 16 / 2 ^ 16 ≡ crc / 2 ^ 16 = omega arith in
        rw same (xor_self (crc / 2 ^ 16)) in
    let value : x ≡ crc % 2 ^ 16 = omega (arith) in
    rw (word, value) (crc_bits_shift 8 (crc % 2 ^ 16) (omega arith))

-- The check sum as the three bytes of a frame's end, the highest first.
abbrev pub crc_bytes : ℕ → Bytes
crc_bytes crc = crc / 2 ^ 16 ∷ crc / 2 ^ 8 % 2 ^ 8 ∷ crc % 2 ^ 8 ∷ []

crc_loop-crc_bytes : (crc : ℕ) → crc < 2 ^ 24 → crc_loop crc (crc_bytes crc) ≡ 0
unfolding crc_loop
crc_loop-crc_bytes crc h =
    let second = crc % 2 ^ 16 * 2 ^ 8 in
    let third = second % 2 ^ 16 * 2 ^ 8 in
    let b : crc / 2 ^ 8 % 2 ^ 8 ≡ second / 2 ^ 16 = omega arith in
    let c : crc % 2 ^ 8 ≡ third / 2 ^ 16 = omega arith in
    let last : third % 2 ^ 16 * 2 ^ 8 ≡ 0 = omega arith in
    rw (crc_byte_top crc h) (
      rw (b, c)
        (rw (crc_byte_top second (omega arith)) (rw (crc_byte_top third (omega arith)) last)))

-- A message followed by its own check sum, highest byte first, has the check sum 0.
pub crc24q-residue :
    (bytes : Bytes) → IsBytes bytes → crc24q (bytes ++ crc_bytes (crc24q bytes)) ≡ 0
unfolding crc24q
crc24q-residue bytes b =
    let crc = crc_loop 0 bytes in
    let small : crc < 2 ^ 24 = crc_loop-lt 0 bytes (omega arith) b in
    rw (mod-eq_of_lt small, crc_loop-append 0 bytes (crc_bytes crc), crc_loop-crc_bytes crc small)
      refl
