-- ===== src/Base/Xor.antt =====
-- Laws of `^` on numbers of any width, from its lowest digit up.
use Prim.Native.Nat.{digits, bit_xor-bitwise, differ}
use native.Mathlib.Nat.{
  le_refl, pow-suc, div-div-eq-div-mul, mul-add-mod_self_right, mod-eq_of_lt, mod-lt, one-le-pow,
  div-add-mod, pow-succ',
}
use rtcmbridge.Base.{
  ℕ, zero, suc, ◌+◌, ◌*◌, ◌/◌, ◌%◌, ◌^◌, ◌≤◌, ◌<◌, bit_xor, ◌≡◌, refl, sym, ap, ◌∙◌, arith,
}

abbrev xor_digits : ℕ → ℕ → ℕ → ℕ
xor_digits = digits (λ b. b) differ

xor_digits_fuel : (n m a b : ℕ) → a ≤ n → a ≤ m → xor_digits n a b ≡ xor_digits m a b
xor_digits_fuel zero zero a b p q = refl
xor_digits_fuel zero (suc m) zero b p q = refl
xor_digits_fuel zero (suc m) (suc a) b p q = absurd (omega arith)
xor_digits_fuel (suc n) zero zero b p q = refl
xor_digits_fuel (suc n) zero (suc a) b p q = absurd (omega arith)
xor_digits_fuel (suc n) (suc m) zero b p q = refl
xor_digits_fuel (suc n) (suc m) (suc a) b p q =
    rw (xor_digits_fuel n m (suc a / 2) (b / 2) (omega arith) (omega arith))

differ-add : (x y : ℕ) → x < 2 → y < 2 → differ x y ≡ (x + y) % 2
differ-add zero y h k = omega arith
differ-add (suc zero) zero h k = omega arith
differ-add (suc zero) (suc zero) h k = omega arith
differ-add (suc zero) (suc (suc y)) h k = absurd (omega arith)
differ-add (suc (suc x)) y h k = absurd (omega arith)

xor_step : (a b : ℕ) → bit_xor a b ≡ bit_xor (a / 2) (b / 2) * 2 + (a % 2 + b % 2) % 2
xor_step zero b = simp bit_xor-bitwise (omega arith)
xor_step (suc a) b = simp bit_xor-bitwise (
    omega (
      arith,
      xor_digits_fuel a (suc a / 2) (suc a / 2) (b / 2) (omega arith) (le_refl _),
      differ-add (suc a % 2) (b % 2) (omega arith) (omega arith),
    ))

pub xor_half : (a b : ℕ) → bit_xor a b / 2 ≡ bit_xor (a / 2) (b / 2)
xor_half a b = omega (arith, xor_step a b)

pub xor_parity : (a b : ℕ) → bit_xor a b % 2 ≡ (a + b) % 2
xor_parity a b = omega (arith, xor_step a b)

xor_self_fuel : (n a : ℕ) → a ≤ n → bit_xor a a ≡ 0
xor_self_fuel n zero h = refl
xor_self_fuel zero (suc a) h = absurd (omega arith)
xor_self_fuel (suc n) (suc a) h =
    omega (arith, xor_step (suc a) (suc a), xor_self_fuel n (suc a / 2) (omega arith))

pub xor_self : (a : ℕ) → bit_xor a a ≡ 0
xor_self a = xor_self_fuel a a (le_refl a)

xor-zero_fuel : (n a : ℕ) → a ≤ n → bit_xor a 0 ≡ a
xor-zero_fuel n zero h = refl
xor-zero_fuel zero (suc a) h = absurd (omega arith)
xor-zero_fuel (suc n) (suc a) h =
    omega (arith, xor_step (suc a) 0, xor-zero_fuel n (suc a / 2) (omega arith))

pub xor-zero : (a : ℕ) → bit_xor a 0 ≡ a
xor-zero a = xor-zero_fuel a a (le_refl a)

xor_cancel_fuel : (n a b : ℕ) → a ≤ n → b ≤ n → bit_xor (bit_xor a b) b ≡ a
xor_cancel_fuel zero zero zero h k = refl
xor_cancel_fuel zero zero (suc b) h k = absurd (omega arith)
xor_cancel_fuel zero (suc a) b h k = absurd (omega arith)
xor_cancel_fuel (suc n) a b h k = omega (
  arith,
  xor_step (bit_xor a b) b,
  xor_step a b,
  ap (λ t. bit_xor t (b / 2)) (xor_half a b),
  xor_cancel_fuel n (a / 2) (b / 2) (omega arith) (omega arith),
)

-- Two exclusive ors with one number undo each other.
pub xor_cancel : (a b : ℕ) → bit_xor (bit_xor a b) b ≡ a
xor_cancel a b = xor_cancel_fuel (a + b) a b (omega arith) (omega arith)

pub xor_injective : (a b c : ℕ) → bit_xor a c ≡ bit_xor b c → a ≡ b
xor_injective a b c e = sym (xor_cancel a c) ∙ ap (λ t. bit_xor t c) e ∙ xor_cancel b c

xor_comm_fuel : (n a b : ℕ) → a ≤ n → b ≤ n → bit_xor a b ≡ bit_xor b a
xor_comm_fuel zero zero zero h k = refl
xor_comm_fuel zero zero (suc b) h k = absurd (omega arith)
xor_comm_fuel zero (suc a) b h k = absurd (omega arith)
xor_comm_fuel (suc n) a b h k =
    omega (
      arith,
      xor_step a b,
      xor_step b a,
      xor_comm_fuel n (a / 2) (b / 2) (omega arith) (omega arith),
    )

pub xor_comm : (a b : ℕ) → bit_xor a b ≡ bit_xor b a
xor_comm a b = xor_comm_fuel (a + b) a b (omega arith) (omega arith)

-- The digits from place `k` up.
pub xor_div_pow : (k a b : ℕ) → bit_xor a b / 2 ^ k ≡ bit_xor (a / 2 ^ k) (b / 2 ^ k)
xor_div_pow zero a b =
    let same : (x : ℕ) → x / 1 ≡ x = λ x. omega arith in rw (same (bit_xor a b), same a, same b)
xor_div_pow (suc k) a b =
    let halved : (x : ℕ) → x / 2 ^ suc k ≡ x / 2 / 2 ^ k =
      λ x. ap (λ (t : ℕ). x / t) (pow-succ' 2 k) ∙ sym (div-div-eq-div-mul x 2 (2 ^ k)) in
    rw (halved (bit_xor a b), halved a, halved b, xor_half a b) (xor_div_pow k (a / 2) (b / 2))

mod_pow_suc : (k x : ℕ) → x % 2 ^ suc k ≡ x / 2 % 2 ^ k * 2 + x % 2
mod_pow_suc k x =
    let p = 2 ^ k in
    let r = x / 2 % p in
    let rest : r < p = mod-lt (x / 2) (one-le-pow k 2 (omega arith)) in
    let whole : x ≡ x / 2 / p * (p * 2) + (r * 2 + x % 2) = omega (arith, div-add-mod (x / 2) p) in
    rw (pow-suc 2 k) (
      ap (λ (t : ℕ). t % (p * 2)) whole
      ∙ mul-add-mod_self_right (x / 2 / p) (p * 2) (r * 2 + x % 2)
      ∙ mod-eq_of_lt (omega arith))

-- The digits below place `k`.
pub xor_mod_pow : (k a b : ℕ) → bit_xor a b % 2 ^ k ≡ bit_xor (a % 2 ^ k) (b % 2 ^ k)
xor_mod_pow zero a b =
    let none : (x : ℕ) → x % 1 ≡ 0 = λ x. omega arith in
    rw (none (bit_xor a b), none a, none b) refl
xor_mod_pow (suc k) a b =
    let half : (x : ℕ) → x % 2 ^ suc k / 2 ≡ x / 2 % 2 ^ k = λ x. omega (arith, mod_pow_suc k x) in
    let digit : (x : ℕ) → x % 2 ^ suc k % 2 ≡ x % 2 = λ x. omega (arith, mod_pow_suc k x) in
    let halves : bit_xor (a % 2 ^ suc k / 2) (b % 2 ^ suc k / 2) ≡ bit_xor a b / 2 % 2 ^ k =
      rw (half a, half b, xor_half a b) (sym (xor_mod_pow k (a / 2) (b / 2))) in
    omega (
      arith,
      mod_pow_suc k (bit_xor a b),
      xor_step (a % 2 ^ suc k) (b % 2 ^ suc k),
      halves,
      digit a,
      digit b,
      xor_parity a b,
    )

-- The exclusive or of two numbers of `k` bits has `k` bits.
pub xor_lt_pow : (k a b : ℕ) → a < 2 ^ k → b < 2 ^ k → bit_xor a b < 2 ^ k
xor_lt_pow k a b h g =
    let e : bit_xor a b % 2 ^ k ≡ bit_xor a b =
      xor_mod_pow k a b ∙ rw (mod-eq_of_lt h, mod-eq_of_lt g) in
    omega (arith, e, mod-lt (bit_xor a b) (one-le-pow k 2 (omega arith)))
