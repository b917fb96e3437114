-- ===== src/Rtcm/Crc/Detect.antt =====
-- A damaged byte always changes the check sum: each round of the register can be undone.
use rtcmbridge.Base.{
  ◌≢◌, ℕ, zero, suc, ◌*◌, ◌%◌, ◌^◌, ◌≤◌, ◌<◌, [], ◌∷◌, ◌++◌, ◌≡◌, refl, sym, ◌∙◌, bit_xor, arith,
  Bytes, Bool-cases, inl, inr, ltb, ltb→lt, ltb_false→le, All-append,
}
use rtcmbridge.Base.Xor.{xor_parity, xor_injective, xor_comm, xor_lt_pow}
use rtcmbridge.Rtcm.Crc.{poly, crc_bit, crc_bits, crc_byte, crc_loop, crc24q}
use rtcmbridge.Rtcm.Crc.Residue.{
  crc_bit_low, crc_bit_high, crc_bit-lt, crc_byte-lt, crc_loop-lt, crc_loop-append, IsBytes,
  crc24q-crc_loop,
}

even_low : (crc : ℕ) → crc < 2 ^ 23 → crc_bit crc % 2 ≡ 0
even_low crc h = omega (arith, crc_bit_low crc h)

odd_high : (crc : ℕ) → 2 ^ 23 ≤ crc → crc < 2 ^ 24 → crc_bit crc % 2 ≡ 1
odd_high crc g h = omega (arith, crc_bit_high crc g h, xor_parity (crc * 2) poly)

pub crc_bit_injective : (x y : ℕ) → x < 2 ^ 24 → y < 2 ^ 24 → crc_bit x ≡ crc_bit y → x ≡ y
crc_bit_injective x y h k e = elim (Bool-cases (ltb x (2 ^ 23))) [
  | inl x_low ↦ elim (Bool-cases (ltb y (2 ^ 23))) [
    | inl y_low ↦ omega (
      arith,
      ltb→lt _ _ x_low,
      ltb→lt _ _ y_low,
      crc_bit_low x (ltb→lt _ _ x_low),
      crc_bit_low y (ltb→lt _ _ y_low),
    )
    | inr y_high ↦
        absurd
          (omega (arith, even_low x (ltb→lt _ _ x_low), odd_high y (ltb_false→le _ _ y_high) k))
  ]
  | inr x_high ↦ elim (Bool-cases (ltb y (2 ^ 23))) [
    | inl y_low ↦
        absurd
          (omega (arith, even_low y (ltb→lt _ _ y_low), odd_high x (ltb_false→le _ _ x_high) h))
    | inr y_high ↦
        let same : x * 2 ≡ y * 2 = xor_injective (x * 2) (y * 2) poly (
          sym (crc_bit_high x (ltb_false→le _ _ x_high) h)
          ∙ e
          ∙ crc_bit_high y (ltb_false→le _ _ y_high) k) in
        omega arith
  ]
]

crc_bits_injective : (n x y : ℕ) → x < 2 ^ 24 → y < 2 ^ 24 → crc_bits n x ≡ crc_bits n y → x ≡ y
unfolding crc_bits
crc_bits_injective zero x y h k e = e
crc_bits_injective (suc n) x y h k e =
    crc_bit_injective x y h k
      (crc_bits_injective n (crc_bit x) (crc_bit y) (crc_bit-lt x h) (crc_bit-lt y k) e)

place : (b : ℕ) → b < 2 ^ 8 → b * 2 ^ 16 % 2 ^ 32 < 2 ^ 24
place b h = omega arith

-- Different registers stay different under the same byte.
crc_byte_injective :
    (x y b : ℕ) → x < 2 ^ 24 → y < 2 ^ 24 → b < 2 ^ 8 → crc_byte x b ≡ crc_byte y b → x ≡ y
unfolding crc_byte
crc_byte_injective x y b h k f e =
    let w = b * 2 ^ 16 % 2 ^ 32 in
    xor_injective x y w (
      crc_bits_injective 8 (bit_xor x w) (bit_xor y w) (xor_lt_pow 24 x w h (place b f))
        (xor_lt_pow 24 y w k (place b f)) e)

-- Different bytes lead the same register to different ones.
crc_byte-byte_injective :
    (x a b : ℕ) → x < 2 ^ 24 → a < 2 ^ 8 → b < 2 ^ 8 → crc_byte x a ≡ crc_byte x b → a ≡ b
unfolding crc_byte
crc_byte-byte_injective x a b h f g e =
    let v = a * 2 ^ 16 % 2 ^ 32 in
    let w = b * 2 ^ 16 % 2 ^ 32 in
    let same : bit_xor x v ≡ bit_xor x w =
      crc_bits_injective 8 (bit_xor x v) (bit_xor x w) (xor_lt_pow 24 x v h (place a f))
        (xor_lt_pow 24 x w h (place b g)) e in
    let words : v ≡ w = xor_injective v w x (xor_comm v x ∙ same ∙ xor_comm x w) in omega arith

crc_loop_injective :
    (x y : ℕ) (bytes : Bytes)
    → x < 2 ^ 24
    → y < 2 ^ 24
    → IsBytes bytes
    → crc_loop x bytes ≡ crc_loop y bytes
    → x ≡ y
unfolding crc_loop
crc_loop_injective x y [] h k b e = e
crc_loop_injective x y (c ∷ cs) h k b e = crc_byte_injective x y c h k b.0 (
    crc_loop_injective (crc_byte x c) (crc_byte y c) cs (crc_byte-lt x c h b.0)
      (crc_byte-lt y c k b.0) b.1 e)

crc24q_injective :
    (before after : Bytes) (a b : ℕ)
    → IsBytes before
    → IsBytes after
    → a < 2 ^ 8
    → b < 2 ^ 8
    → crc24q (before ++ (a ∷ after)) ≡ crc24q (before ++ (b ∷ after))
    → a ≡ b
crc24q_injective before after a b p q f g e =
    let x = crc_loop 0 before in
    let small : x < 2 ^ 24 = crc_loop-lt 0 before (omega arith) p in
    let plain : (c : ℕ)
        → c < 2 ^ 8
        → crc24q (before ++ (c ∷ after)) ≡ crc_loop (crc_byte x c) after =
      λ c h.
        crc24q-crc_loop _ (All-append _ before (c ∷ after) p (h, q))
        ∙ crc_loop-append 0 before (c ∷ after)
        ∙ unfold crc_loop in refl in
    crc_byte-byte_injective x a b small f g (
      crc_loop_injective (crc_byte x a) (crc_byte x b) after (crc_byte-lt x a small f)
        (crc_byte-lt x b small g) q (sym (plain a f) ∙ e ∙ plain b g))

-- Two messages that differ in one byte only have different check sums.
pub crc24q-detects :
    (before after : Bytes) (a b : ℕ)
    → IsBytes before
    → IsBytes after
    → a < 2 ^ 8
    → b < 2 ^ 8
    → a ≢ b
    → crc24q (before ++ (a ∷ after)) ≢ crc24q (before ++ (b ∷ after))
crc24q-detects before after a b p q f g ne = λ e. ne (crc24q_injective before after a b p q f g e)
