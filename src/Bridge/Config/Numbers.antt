-- ===== src/Bridge/Config/Numbers.antt =====
-- The numbers of a configuration file: `parse_positive_int` of src/nats2ntrip.cpp reads what
-- `std::to_string` writes.
use native.Mathlib.Nat.{pow-suc}
use rtcmbridge.Base.{
  ltb→lt, lt→ltb, le→leb, ℕ, zero, suc, ◌+◌, ◌-◌, ◌*◌, ◌/◌, ◌%◌, ◌^◌, ◌≤◌, ◌<◌, ◌≡◌, refl, ap, ◌∙◌,
  true, false, some, [], ◌∷◌, ◌++◌, arith, Bytes, length, length-append, Bool-cases, inl, inr, ltb,
  ◌==◌,
}
use rtcmbridge.Base.Text.{decimal_from, to_string}
use rtcmbridge.Bridge.Config.{is_space, is_digit, digits, unsigned_text, stoi, parse_positive_int}

-- The number that a text of digits stands for, after `n`.
unfoldable pub value_from : ℕ → Bytes → ℕ
value_from n [] = n
value_from n (c ∷ s) = value_from (n * 10 + (c - 48)) s

pub data IsDigits : Bytes → Type 0 where
  done : IsDigits []
  more : {c : ℕ} {s : Bytes} → 48 ≤ c → c ≤ 57 → IsDigits s → IsDigits (c ∷ s)

digit_test : (c : ℕ) → 48 ≤ c → c ≤ 57 → is_digit c ≡ true
digit_test c h k = rw (le→leb 48 c h, le→leb c 57 k) refl

digits_more :
    (n c : ℕ) (s : Bytes) → is_digit c ≡ true → digits n (c ∷ s) ≡ digits (n * 10 + (c - 48)) s
unfolding digits
digits_more n c s h = rw (digits, h) refl

pub digits-IsDigits : (n : ℕ) (s : Bytes) → IsDigits s → digits n s ≡ (value_from n s, [])
unfolding digits value_from
digits-IsDigits n [] done = refl
digits-IsDigits n (c ∷ s) (more h k d) =
    digits_more n c s (digit_test c h k) ∙ digits-IsDigits (n * 10 + (c - 48)) s d

value-snoc :
    (n : ℕ) (s : Bytes) (c : ℕ) → value_from n (s ++ (c ∷ [])) ≡ value_from n s * 10 + (c - 48)
unfolding value_from
value-snoc n [] c = refl
value-snoc n (d ∷ s) c = value-snoc (n * 10 + (d - 48)) s c

IsDigits-snoc : (s : Bytes) (c : ℕ) → 48 ≤ c → c ≤ 57 → IsDigits s → IsDigits (s ++ (c ∷ []))
IsDigits-snoc [] c h k done = more h k done
IsDigits-snoc (d ∷ s) c h k (more p q r) = more p q (IsDigits-snoc s c h k r)

pub decimal-IsDigits : (fuel n : ℕ) → IsDigits (decimal_from fuel n)
unfolding decimal_from
decimal-IsDigits zero n = done
decimal-IsDigits (suc fuel) n = elim (Bool-cases (ltb n 10)) [
  | inl e ↦ rw e (more (omega arith) (omega (arith, ltb→lt _ _ e)) done)
  | inr e ↦ rw e (IsDigits-snoc _ _ (omega arith) (omega arith) (decimal-IsDigits fuel (n / 10)))
]

-- A number is written with a digit at least.
pub decimal-length : (fuel n : ℕ) → 0 < length (decimal_from (suc fuel) n)
unfolding decimal_from
decimal-length fuel n = elim (Bool-cases (ltb n 10)) [
  | inl e ↦ rw e (omega arith)
  | inr e ↦ rw e (omega (arith, length-append (decimal_from fuel (n / 10)) ((48 + n % 10) ∷ [])))
]

decimal_value : (fuel n : ℕ) → n < 10 ^ fuel → value_from 0 (decimal_from fuel n) ≡ n
unfolding decimal_from value_from
decimal_value zero n h = omega (arith, h)
decimal_value (suc fuel) n h = elim (Bool-cases (ltb n 10)) [
  | inl e ↦ rw e (omega arith)
  | inr e ↦
      let big : 10 ^ suc fuel ≡ 10 ^ fuel * 10 = pow-suc 10 fuel in
      let front : value_from 0 (decimal_from fuel (n / 10)) ≡ n / 10 =
        decimal_value fuel (n / 10) (omega (arith, h, big)) in
      rw (e, value-snoc 0 (decimal_from fuel (n / 10)) (48 + n % 10)) (omega (arith, front))
]

unsigned_text-IsDigits :
    (c : ℕ) (s : Bytes)
    → IsDigits (c ∷ s)
    → value_from 0 (c ∷ s) < 2 ^ 31
    → unsigned_text (c ∷ s) ≡ some (value_from 0 (c ∷ s), [])
unfolding unsigned_text value_from
unsigned_text-IsDigits c s (more p q d) h =
    rw (unsigned_text, digits-IsDigits 0 (c ∷ s) (more p q d), digit_test c p q, lt→ltb _ _ h) refl

no_space : (c : ℕ) → 48 ≤ c → c ≤ 57 → is_space c ≡ false
no_space c h k = ground arith

no_plus : (c : ℕ) → 48 ≤ c → c ≤ 57 → (c == 43) ≡ false
no_plus c h k = ground arith

no_minus : (c : ℕ) → 48 ≤ c → c ≤ 57 → (c == 45) ≡ false
no_minus c h k = ground arith

positive : (n : ℕ) → 0 < n → (n == 0) ≡ false
positive n h = ground arith

-- A text of digits with the value of a positive `int` is read as that value.
pub parse_positive_int-IsDigits :
    (t : Bytes)
    → IsDigits t
    → 0 < value_from 0 t
    → value_from 0 t < 2 ^ 31
    → parse_positive_int t ≡ some (value_from 0 t)
unfolding stoi parse_positive_int
parse_positive_int-IsDigits [] done h k = absurd (unfold value_from in omega (arith, h))
parse_positive_int-IsDigits (c ∷ s) (more p q d) h k =
    let read : stoi (c ∷ s) ≡ some (value_from 0 (c ∷ s), []) =
      rw (stoi, no_space c p q, no_plus c p q, no_minus c p q)
        (unsigned_text-IsDigits c s (more p q d) k) in
    rw (parse_positive_int, read, positive _ h) refl

-- A positive `int` that `std::to_string` has written is read back.
pub parse_positive_int-to_string :
    (n : ℕ) → 0 < n → n < 2 ^ 31 → parse_positive_int (to_string n) ≡ some n
parse_positive_int-to_string n h k =
    let v : value_from 0 (to_string n) ≡ n = decimal_value 10 n (omega (arith, k)) in
    parse_positive_int-IsDigits (to_string n) (decimal-IsDigits 10 n) (omega (arith, v, h))
      (omega (arith, v, k))
    ∙ ap some v
