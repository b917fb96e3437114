-- ===== src/Rtcm/BitReader/Fields.antt =====
-- Fields that an encoder has put into a buffer are read back by `getU` and `getS`, and a read of
-- two fields at once is the two reads in turn.
use native.Mathlib.Nat.{
  pow-suc, mod-eq_of_lt, mod-lt, one-le-pow, mul-le-mul_right, div-add-mod, mul-add-mod_self_right,
}
use rtcmbridge.Base.{
  ℕ, zero, suc, ◌+◌, ◌-◌, ◌*◌, ◌/◌, ◌%◌, ◌^◌, ◌≤◌, ◌<◌, ◌≡◌, refl, ap, ◌∙◌, Option, none, some,
  List, [], ◌∷◌, ◌++◌, arith, length, take, drop, leb, leb→le, inl, inr, Bool-cases, leb_false→lt,
  lt→leb_false, take_add, drop_add, le→leb, length-append, take-append_length, drop-append_length,
  lt→ltb, le→ltb_false,
}
use rtcmbridge.Base.Int.{ℤ, pos, negsuc}
use rtcmbridge.Rtcm.BitReader.{BitReader, get_u, get_s}
use rtcmbridge.Rtcm.BitReader.Bits.{to_bits, of_bits, bits, length-bits}
use rtcmbridge.Rtcm.BitReader.Value.{
  IsValid, advance-IsValid, window, advance, get_u_lem, get_s_lem, twos_complement, length-window,
}

pub length-to_bits : (n v : ℕ) → length (to_bits n v) ≡ n
length-to_bits zero v = refl
length-to_bits (suc n) v = ap suc (length-to_bits n v)

of_bits-to_bits_mod : (n v : ℕ) → of_bits (to_bits n v) ≡ v % 2 ^ n
of_bits-to_bits_mod zero v = omega arith
of_bits-to_bits_mod (suc n) v =
    let p = 2 ^ n in
    let q = v / p in
    let digit : p * q ≡ p * (2 * (q / 2) + q % 2) = ap (λ (t : ℕ). p * t) (omega arith) in
    let whole : v ≡ q / 2 * (p * 2) + (q % 2 * p + v % p) = omega (arith, digit, div-add-mod v p) in
    let small : q % 2 * p ≤ 1 * p = mul-le-mul_right p (omega arith) in
    let rest : v % p < p = mod-lt v (one-le-pow n 2 (omega arith)) in
    let low : v % 2 ^ suc n ≡ q % 2 * p + v % p = rw (pow-suc 2 n) (
      ap (λ (t : ℕ). t % (p * 2)) whole
      ∙ mul-add-mod_self_right (q / 2) (p * 2) (q % 2 * p + v % p)
      ∙ mod-eq_of_lt (omega arith)) in
    rw (low, length-to_bits n v, of_bits-to_bits_mod n v)

of_bits-to_bits : (n v : ℕ) → v < 2 ^ n → of_bits (to_bits n v) ≡ v
of_bits-to_bits n v h = of_bits-to_bits_mod n v ∙ mod-eq_of_lt h

infixl 5 ◌>>=◌
abbrev pub ◌>>=◌ : {A B : Type 0} → Option A → (A → Option B) → Option B
none >>= f = none
some a >>= f = f a

-- The bits of `field` stand at the reader's place.
pub record Holds (br : BitReader) (field : List ℕ) : Type 0 where
  pub before : List ℕ
  pub after : List ℕ
  pub splits : bits br.bytes ≡ before ++ (field ++ after)
  pub here : br.bitpos ≡ length before

window-Holds : (br : BitReader) (field : List ℕ) → Holds br field → window br (length field) ≡ field
window-Holds br field h =
    rw (h.splits, h.here)
      (ap (take (length field)) (drop-append_length h.before (field ++ h.after))
        ∙ take-append_length field h.after)

pub Holds-fits :
    (br : BitReader) (field : List ℕ)
    → IsValid br
    → Holds br field
    → br.bitpos + length field ≤ br.total_bits
Holds-fits br field v h = omega (
  arith,
  v.total,
  length-bits br.bytes,
  ap length h.splits,
  length-append h.before (field ++ h.after),
  length-append field h.after,
  h.here,
)

-- `getU` reads back an unsigned field of up to 64 bits.
pub get_u-to_bits :
    (n x : ℕ) (br : BitReader)
    → IsValid br
    → n ≤ 64
    → x < 2 ^ n
    → Holds br (to_bits n x)
    → get_u n br ≡ some (x, advance br n)
get_u-to_bits n x br v w f h =
    let fits : br.bitpos + n ≤ br.total_bits =
      omega (arith, Holds-fits br (to_bits n x) v h, length-to_bits n x) in
    let field : window br n ≡ to_bits n x =
      rw (length-to_bits n x) at (window-Holds br (to_bits n x) h) in
    rw (get_u_lem n br v w, le→leb _ _ fits, field, of_bits-to_bits n x f)

-- The `n`-bit pattern of a signed number.
pub two_pow_add : (a b : ℕ) → 2 ^ (a + b) ≡ 2 ^ a * 2 ^ b
two_pow_add zero b = let e : 0 + b ≡ b = omega arith in rw e (omega arith)
two_pow_add (suc a) b =
    let e : suc a + b ≡ suc (a + b) = omega arith in
    rw e (
      omega (
        arith,
        pow-suc 2 (a + b),
        pow-suc 2 a,
        two_pow_add a b,
        ap (λ (t : ℕ). t * 2 ^ b) (pow-suc 2 a),
      ))

abbrev pub pattern_of : ℕ → ℤ → ℕ
pattern_of n (pos u) = u
pattern_of n (negsuc k) = 2 ^ n - 1 - k

-- The signed numbers that `n` bits hold.
abbrev pub InSigned : ℕ → ℤ → Type 0
InSigned n (pos u) = u < 2 ^ (n - 1)
InSigned n (negsuc k) = k < 2 ^ (n - 1)

pattern_of-lt : (m : ℕ) (z : ℤ) → InSigned (suc m) z → pattern_of (suc m) z < 2 ^ suc m
pattern_of-lt m (pos u) h =
    let e : suc m - 1 ≡ m = omega arith in omega (arith, pow-suc 2 m, rw e at h)
pattern_of-lt m (negsuc k) h =
    let one : 1 ≤ 2 ^ suc m = one-le-pow (suc m) 2 (omega arith) in omega arith

twos_complement-pattern_of :
    (m : ℕ) (z : ℤ) → InSigned (suc m) z → twos_complement (suc m) (pattern_of (suc m) z) ≡ z
twos_complement-pattern_of m (pos u) h = rw (lt→ltb u _ h)
twos_complement-pattern_of m (negsuc k) h =
    let e : suc m - 1 ≡ m = omega arith in
    let below : k < 2 ^ m = rw e at h in
    let high : 2 ^ (suc m - 1) ≤ 2 ^ suc m - 1 - k = rw e (omega (arith, pow-suc 2 m)) in
    rw (le→ltb_false (2 ^ (suc m - 1)) (2 ^ suc m - 1 - k) high)
      (ap negsuc (omega (arith, pow-suc 2 m)))

-- `getS` reads back a signed field of 1 to 63 bits.
pub get_s-to_bits :
    (m : ℕ) (z : ℤ) (br : BitReader)
    → IsValid br
    → m < 63
    → InSigned (suc m) z
    → Holds br (to_bits (suc m) (pattern_of (suc m) z))
    → get_s (suc m) br ≡ some (z, advance br (suc m))
get_s-to_bits m z br v w f h =
    let x = pattern_of (suc m) z in
    let fits : br.bitpos + suc m ≤ br.total_bits =
      omega (arith, Holds-fits br (to_bits (suc m) x) v h, length-to_bits (suc m) x) in
    let field : window br (suc m) ≡ to_bits (suc m) x =
      rw (length-to_bits (suc m) x) at (window-Holds br (to_bits (suc m) x) h) in
    get_s_lem m br v w
    ∙ rw (le→leb _ _ fits, field, of_bits-to_bits (suc m) x (pattern_of-lt m z f))
        (rw (twos_complement-pattern_of m z f))

of_bits-append : (xs ys : List ℕ) → of_bits (xs ++ ys) ≡ of_bits xs * 2 ^ length ys + of_bits ys
of_bits-append [] ys = omega arith
of_bits-append (x ∷ xs) ys =
    let power : 2 ^ length (xs ++ ys) ≡ 2 ^ length xs * 2 ^ length ys =
      ap (λ (t : ℕ). 2 ^ t) (length-append xs ys) ∙ two_pow_add (length xs) (length ys) in
    omega (arith, of_bits-append xs ys, ap (λ (t : ℕ). x * t) power)

window-add : (m n : ℕ) (br : BitReader) → window br (m + n) ≡ window br m ++ window (advance br m) n
window-add m n br =
    take_add m n (drop br.bitpos (bits br.bytes)) ∙ rw (drop_add br.bitpos m (bits br.bytes))

-- A read of `m + n` bits is a read of `m` bits and then one of `n` bits.
pub get_u-add :
    (m n : ℕ) (br : BitReader)
    → IsValid br
    → m + n ≤ 64
    → get_u (m + n) br
      ≡ (get_u m br >>= λ (hi, next). get_u n next >>= λ (lo, last). some (hi * 2 ^ n + lo, last))
get_u-add m n br v h = elim (Bool-cases (leb (br.bitpos + (m + n)) br.total_bits)) [
  | inl fits ↦
      let all : br.bitpos + (m + n) ≤ br.total_bits = leb→le _ _ fits in
      let first : br.bitpos + m ≤ br.total_bits = omega arith in
      let second : br.bitpos + m + n ≤ br.total_bits = omega arith in
      let value : of_bits (window br (m + n))
          ≡ of_bits (window br m) * 2 ^ n + of_bits (window (advance br m) n) =
        ap of_bits (window-add m n br)
        ∙ of_bits-append (window br m) (window (advance br m) n)
        ∙ rw (length-window (advance br m) n (advance-IsValid m br v first) second) in
      let place : br.bitpos + (m + n) ≡ br.bitpos + m + n = omega arith in
      rw (get_u_lem (m + n) br v h, fits, get_u_lem m br v (omega arith), le→leb _ _ first)
        (rw
          (
            get_u_lem n (advance br m) (advance-IsValid m br v first) (omega arith),
            le→leb _ _ second,
          )
          (rw (value, place)))
  | inr short ↦
      rw (get_u_lem (m + n) br v h, short, get_u_lem m br v (omega arith))
        (elim (Bool-cases (leb (br.bitpos + m) br.total_bits)) [
          | inl first ↦ rw first (
              rw
                (get_u_lem n (advance br m) (advance-IsValid m br v (leb→le _ _ first))
                  (omega arith))
                (rw (
                  lt→leb_false br.total_bits (br.bitpos + m + n)
                    (omega (arith, leb_false→lt _ _ short)))))
          | inr none_left ↦ rw none_left
        ])
]
