-- ===== src/Rtcm/BitReader/Bits.antt =====
-- The buffer of a `BitReader` as one list of bits, and the loop of `getU` told by it.
use rtcmbridge.Base.{
  ℕ, zero, suc, ◌+◌, ◌*◌, ◌/◌, ◌%◌, ◌^◌, ◌≤◌, ◌<◌, ◌≡◌, refl, ap, ◌∙◌, List, [], ◌∷◌, ◌++◌, arith,
  Bytes, length, get_or, take, drop, length-take, length-drop,
}
use rtcmbridge.Base.{All, All-append}
use rtcmbridge.Rtcm.BitReader.{bit_at, read_bits}
use native.Mathlib.Nat.{pow-suc, pow-le-pow_right, one-le-pow, mul-le-mul_left, mul-le-mul_right}

-- The n lowest bits of a number, the highest of them first.
abbrev pub to_bits : ℕ → ℕ → List ℕ
to_bits zero v = []
to_bits (suc n) v = (v / 2 ^ n % 2) ∷ to_bits n v

-- The number that a list of bits spells, the highest first.
abbrev pub of_bits : List ℕ → ℕ
of_bits [] = 0
of_bits (b ∷ bs) = b * 2 ^ length bs + of_bits bs

-- All bits of a buffer.
abbrev pub bits : Bytes → List ℕ
bits [] = []
bits (b ∷ bs) = to_bits 8 b ++ bits bs

pub length-bits : (bs : Bytes) → length (bits bs) ≡ length bs * 8
length-bits [] = omega arith
length-bits (b ∷ bs) = omega (arith, length-bits bs)

-- `getU` looks at the bit that it should.
get_or-bits : (bs : Bytes) (i : ℕ) → i < length bs * 8 → get_or (bits bs) i 0 ≡ bit_at bs i
unfolding bit_at
get_or-bits [] i h = absurd (omega arith)
get_or-bits (b ∷ bs) zero h = refl
get_or-bits (b ∷ bs) (suc zero) h = refl
get_or-bits (b ∷ bs) (suc (suc zero)) h = refl
get_or-bits (b ∷ bs) (suc (suc (suc zero))) h = refl
get_or-bits (b ∷ bs) (suc (suc (suc (suc zero)))) h = refl
get_or-bits (b ∷ bs) (suc (suc (suc (suc (suc zero))))) h = refl
get_or-bits (b ∷ bs) (suc (suc (suc (suc (suc (suc zero)))))) h = refl
get_or-bits (b ∷ bs) (suc (suc (suc (suc (suc (suc (suc zero))))))) h = refl
get_or-bits (b ∷ bs) (suc (suc (suc (suc (suc (suc (suc (suc j)))))))) h =
    let quotient : suc (suc (suc (suc (suc (suc (suc (suc j))))))) / 8 ≡ suc (j / 8) =
      omega arith in
    let rest : suc (suc (suc (suc (suc (suc (suc (suc j))))))) % 8 ≡ j % 8 = omega arith in
    rw (quotient, rest) (get_or-bits bs j (omega arith))

take-drop-suc :
    (n i : ℕ) (l : List ℕ)
    → i < length l
    → take (suc n) (drop i l) ≡ get_or l i 0 ∷ take n (drop (suc i) l)
take-drop-suc n i [] h = absurd (omega arith)
take-drop-suc n zero (x ∷ l) h = refl
take-drop-suc n (suc i) (x ∷ l) h = take-drop-suc n i l (omega arith)

bit_at-le-one : (bytes : Bytes) (idx : ℕ) → bit_at bytes idx ≤ 1
unfolding bit_at
bit_at-le-one bytes idx = omega arith

two_pow_suc : (v n : ℕ) → v * 2 ^ suc n ≡ 2 * (v * 2 ^ n)
two_pow_suc v n = omega (arith, ap (λ (t : ℕ). v * t) (pow-suc 2 n))

pub two_pow_mono : (i j : ℕ) → i ≤ j → 2 ^ i ≤ 2 ^ j
two_pow_mono i j h = pow-le-pow_right {n = 2} (omega arith) h

double_fits : (v n : ℕ) → v * 2 ^ suc n + 2 ^ suc n ≤ 2 ^ 64 → v * 2 < 2 ^ 64
double_fits v n f =
    let one : 1 ≤ 2 ^ n = one-le-pow n 2 (omega arith) in
    let grow : (2 * v) * 1 ≤ (2 * v) * 2 ^ n = mul-le-mul_left (2 * v) one in
    omega (arith, two_pow_suc v n, two_pow_suc 1 n)

-- Reading on from `idx` appends the bits to the value, which keeps its 64 bits.
pub read_bits-of_bits :
    (bytes : Bytes) (n idx v : ℕ)
    → idx + n ≤ length bytes * 8
    → v * 2 ^ n + 2 ^ n ≤ 2 ^ 64
    → read_bits bytes n idx v ≡ v * 2 ^ n + of_bits (take n (drop idx (bits bytes)))
unfolding read_bits
read_bits-of_bits bytes zero idx v h f = omega arith
read_bits-of_bits bytes (suc n) idx v h f =
    let b = bit_at bytes idx in
    let one : 1 ≤ 2 ^ n = one-le-pow n 2 (omega arith) in
    let fits : v * 2 < 2 ^ 64 = double_fits v n f in
    let same : v * 2 % 2 ^ 64 + b ≡ v * 2 + b = omega arith in
    let next : idx + 1 ≡ suc idx = omega arith in
    let split : take (suc n) (drop idx (bits bytes)) ≡ b ∷ take n (drop (suc idx) (bits bytes)) =
      take-drop-suc n idx (bits bytes) (omega (arith, length-bits bytes))
      ∙ rw (get_or-bits bytes idx (omega arith)) in
    let rest : length (take n (drop (suc idx) (bits bytes))) ≡ n = omega (
      arith,
      length-take n (drop (suc idx) (bits bytes)),
      length-drop (suc idx) (bits bytes),
      length-bits bytes,
    ) in
    let small : b * 2 ^ n ≤ 1 * 2 ^ n = mul-le-mul_right (2 ^ n) (bit_at-le-one bytes idx) in
    rw (same, next, split, rest)
      (omega (
        arith,
        read_bits-of_bits bytes n (suc idx) (v * 2 + b) (omega arith)
            (omega (arith, two_pow_suc v n, two_pow_suc 1 n)),
        two_pow_suc v n,
      ))

pub of_bits-lt : (bs : List ℕ) → All (λ b. b ≤ 1) bs → of_bits bs < 2 ^ length bs
of_bits-lt [] h = omega arith
of_bits-lt (b ∷ bs) h =
    let small : b * 2 ^ length bs ≤ 1 * 2 ^ length bs = mul-le-mul_right (2 ^ length bs) h.0 in
    omega (arith, of_bits-lt bs h.1, pow-suc 2 (length bs))

pub to_bits-All : (n v : ℕ) → All (λ b. b ≤ 1) (to_bits n v)
to_bits-All zero v = tt
to_bits-All (suc n) v = (omega arith, to_bits-All n v)

pub bits-All : (bs : Bytes) → All (λ b. b ≤ 1) (bits bs)
bits-All [] = tt
bits-All (b ∷ bs) = All-append (λ c. c ≤ 1) (to_bits 8 b) (bits bs) (to_bits-All 8 b) (bits-All bs)
