-- ===== src/Rtcm/BitReader/Value.antt =====
-- What `getU` and `getS` return, told from the list of all bits of the buffer.
use rtcmbridge.Base.{
  ℕ, suc, ◌+◌, ◌-◌, ◌*◌, ◌/◌, ◌%◌, ◌^◌, ◌≤◌, ◌<◌, ◌≡◌, ap, inl, inr, true, false, none, some, List,
  ltb, ◌==◌, if◌then◌else◌, arith, Bool-cases, length, take, drop, length-take, length-drop,
}
use rtcmbridge.Base.{
  All-take, All-drop, leb, leb→le, le→ltb_false, lt→ltb, ltb→lt, ltb_false→le, leb_false→lt,
}
use rtcmbridge.Base.Int.{ℤ, pos, negsuc}
use rtcmbridge.Rtcm.BitReader.{get_s, BitReader, read_bits, get_u, to_int64, sign_extend}
use native.Mathlib.Nat.{div-eq_of_lt, div-eq_of_lt-le, pow-suc}
use rtcmbridge.Rtcm.BitReader.Bits.{
  of_bits, bits, length-bits, of_bits-lt, bits-All, read_bits-of_bits, two_pow_mono,
}

-- A reader as the constructor and the methods leave it.
pub record IsValid (br : BitReader) : Type 0 where
  pub total : br.total_bits ≡ length br.bytes * 8
  pub within : br.bitpos ≤ br.total_bits

-- The bits that a read of `n` bits takes.
abbrev pub window : BitReader → ℕ → List ℕ
window br n = take n (drop br.bitpos (bits br.bytes))

abbrev pub advance : BitReader → ℕ → BitReader
advance br n = record br { bitpos = br.bitpos + n }

-- `getU` returns the number that the next `n` bits spell and moves past them, or fails and leaves
-- the reader where it is, exactly when fewer than `n` bits are left. It reads at most 64 bits.
pub get_u_lem :
    (n : ℕ) (br : BitReader)
    → IsValid br
    → n ≤ 64
    → get_u n br ≡ (
        if leb (br.bitpos + n) br.total_bits
        then some (of_bits (window br n), advance br n)
        else none)
unfolding get_u
get_u_lem n br v h = elim (Bool-cases (leb (br.bitpos + n) br.total_bits)) [
  | inl fits ↦
      let room : br.bitpos + n ≤ length br.bytes * 8 = omega (arith, leb→le _ _ fits, v.total) in
      let word : 0 * 2 ^ n + 2 ^ n ≤ 2 ^ 64 = omega (arith, two_pow_mono n 64 h) in
      let value : read_bits br.bytes n br.bitpos 0 ≡ of_bits (window br n) =
        omega (arith, read_bits-of_bits br.bytes n br.bitpos 0 room word) in
      let width : ltb 64 n ≡ false = le→ltb_false n 64 h in
      let there : ltb br.total_bits (br.bitpos + n) ≡ false =
        le→ltb_false (br.bitpos + n) br.total_bits (leb→le _ _ fits) in
      rw (width, there, fits, value)
  | inr short ↦
      let width : ltb 64 n ≡ false = le→ltb_false n 64 h in
      let beyond : ltb br.total_bits (br.bitpos + n) ≡ true =
        lt→ltb br.total_bits (br.bitpos + n) (leb_false→lt _ _ short) in
      rw (width, beyond, short)
]

-- Two's complement in `n` bits.
abbrev pub twos_complement : ℕ → ℕ → ℤ
twos_complement n u = if ltb u (2 ^ (n - 1)) then pos u else negsuc (2 ^ n - 1 - u)

extend_cast :
    (p u : ℕ)
    → p ≤ 2 ^ 62
    → u < p * 2
    → to_int64 (if u / p % 2 == 1 then u + (2 ^ 64 - p * 2) else u)
      ≡ (if ltb u p then pos u else negsuc (p * 2 - 1 - u))
unfolding to_int64
extend_cast p u h f = elim (Bool-cases (ltb u p)) [
  | inl low ↦
      let q : u / p ≡ 0 = div-eq_of_lt (ltb→lt u p low) in
      rw (q, low) (rw (lt→ltb u (2 ^ 63) (omega (arith, ltb→lt u p low))))
  | inr high ↦
      let above : p ≤ u = ltb_false→le p u high in
      let q : u / p ≡ 1 = div-eq_of_lt-le {k = 1} p {m = u} (omega arith) (omega arith) in
      rw (q, high)
        (rw (le→ltb_false (2 ^ 63) (u + (2 ^ 64 - p * 2)) (omega arith)) (ap negsuc (omega arith)))
]

sign_extend-to_int64 :
    (m u : ℕ)
    → m < 63
    → u < 2 ^ suc m
    → to_int64 (sign_extend (suc m) u) ≡ twos_complement (suc m) u
unfolding sign_extend
sign_extend-to_int64 m u h f =
    let less : suc m - 1 ≡ m = omega arith in
    let bound : 2 ^ m ≤ 2 ^ 62 = two_pow_mono m 62 (omega arith) in
    rw (less, pow-suc 2 m) (extend_cast (2 ^ m) u bound (omega (arith, pow-suc 2 m)))

pub advance-IsValid :
    (n : ℕ) (br : BitReader) → IsValid br → br.bitpos + n ≤ br.total_bits → IsValid (advance br n)
advance-IsValid n br v h = record { total = v.total; within = h }

pub length-window :
    (br : BitReader) (n : ℕ) → IsValid br → br.bitpos + n ≤ br.total_bits → length (window br n) ≡ n
length-window br n v h = omega (
  arith,
  length-take n (drop br.bitpos (bits br.bytes)),
  length-drop br.bitpos (bits br.bytes),
  length-bits br.bytes,
  v.total,
)

pub window-lt :
    (br : BitReader) (n : ℕ)
    → IsValid br
    → br.bitpos + n ≤ br.total_bits
    → of_bits (window br n) < 2 ^ n
window-lt br n v h = rw (length-window br n v h) at (
    of_bits-lt (window br n) (
      All-take (λ b. b ≤ 1) n _
        (All-drop (λ b. b ≤ 1) br.bitpos (bits br.bytes) (bits-All br.bytes))))

-- `getS` returns the two's complement value of the next `n` bits under the same condition as `getU`.
pub get_s_lem :
    (m : ℕ) (br : BitReader)
    → IsValid br
    → m < 63
    → get_s (suc m) br ≡ (
        if leb (br.bitpos + suc m) br.total_bits
        then some (twos_complement (suc m) (of_bits (window br (suc m))), advance br (suc m))
        else none)
unfolding get_s
get_s_lem m br v h = elim (Bool-cases (leb (br.bitpos + suc m) br.total_bits)) [
  | inl fits ↦
      let u = of_bits (window br (suc m)) in
      let some_cast : to_int64 (sign_extend (suc m) u) ≡ twos_complement (suc m) u =
        sign_extend-to_int64 m u h (window-lt br (suc m) v (leb→le _ _ fits)) in
      let nonzero : (suc m == 0) ≡ false = ground arith in
      rw (get_u_lem (suc m) br v (omega arith), get_s) (rw fits (rw nonzero (rw some_cast)))
  | inr short ↦ rw (get_u_lem (suc m) br v (omega arith), get_s) (rw short)
]
