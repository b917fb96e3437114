-- ===== src/Base/Text.antt =====
-- The members of `std::string` that the program uses, on byte texts.
use rtcmbridge.Base.{
  ℕ, zero, suc, ◌+◌, ◌/◌, ◌%◌, ltb, ◌≤◌, ◌≡◌, refl, ap, Bool, true, false, ◌&&◌, [], ◌∷◌, ◌++◌,
  Option, none, some, arith, ◌==◌, if◌then◌else◌, Bytes, length, Bool-cases, Option-cases, sym, ◌∙◌,
  inl, inr,
}

-- `s.rfind(pat, 0) == 0`
abbrev pub starts_with : Bytes → Bytes → Bool
starts_with [] s = true
starts_with (p ∷ pat) [] = false
starts_with (p ∷ pat) (c ∷ s) = (p == c) && starts_with pat s

abbrev pub next_index : Option ℕ → Option ℕ
next_index none = none
next_index (some i) = some (suc i)

-- `s.find(pat)`: the first place where `pat` stands, `none` for npos.
unfoldable pub find : Bytes → Bytes → Option ℕ
find pat [] = if starts_with pat [] then some 0 else none
find pat (c ∷ s) =
    let later = find pat s in if starts_with pat (c ∷ s) then some 0 else next_index later

-- `std::to_string` of a number with at most `fuel` digits; an `int` has at most ten.
unfoldable pub decimal_from : ℕ → ℕ → Bytes
decimal_from zero n = []
decimal_from (suc fuel) n =
    let front = decimal_from fuel (n / 10) in
    if ltb n 10 then (48 + n) ∷ [] else front ++ ((48 + n % 10) ∷ [])

abbrev pub to_string : ℕ → Bytes
to_string n = decimal_from 10 n

starts_with-append : (pat s t : Bytes) → starts_with pat s ≡ true → starts_with pat (s ++ t) ≡ true
starts_with-append [] s t h = refl
starts_with-append (p ∷ pat) [] t h = ground arith
starts_with-append (p ∷ pat) (c ∷ s) t h = ground (arith, starts_with-append pat s t)

starts_with-append_long :
    (pat s t : Bytes) → length pat ≤ length s → starts_with pat (s ++ t) ≡ starts_with pat s
starts_with-append_long [] s t h = refl
starts_with-append_long (p ∷ pat) [] t h = absurd (omega arith)
starts_with-append_long (p ∷ pat) (c ∷ s) t h =
    ap (λ b. (p == c) && b) (starts_with-append_long pat s t (omega arith))

pub starts_with-length : (pat s : Bytes) → starts_with pat s ≡ true → length pat ≤ length s
starts_with-length [] s h = omega arith
starts_with-length (p ∷ pat) [] h = ground arith
starts_with-length (p ∷ pat) (c ∷ s) h = ground (arith, starts_with-length pat s)

find_here : (pat s : Bytes) → starts_with pat s ≡ true → find pat s ≡ some 0
unfolding find
find_here pat [] h = rw h
find_here pat (c ∷ s) h = rw h

-- A later first hit of a text is the first hit of its tail.
find_later :
    (pat s : Bytes) (c i : ℕ)
    → starts_with pat (c ∷ s) ≡ false
    → find pat (c ∷ s) ≡ some i
    → (j : ℕ) × (find pat s ≡ some j) × (i ≡ suc j)
unfolding find
find_later pat s c i h e = elim (Option-cases (find pat s)) [
  | inl none_there ↦ absurd (ground arith)
  | inr (j, there) ↦ (j, there, ground arith)
]

find_next :
    (pat s : Bytes) (c j : ℕ)
    → starts_with pat (c ∷ s) ≡ false
    → find pat s ≡ some j
    → find pat (c ∷ s) ≡ some (suc j)
unfolding find
find_next pat s c j h e = rw (h, e)

-- A hit lies within the text.
pub find-length : (pat s : Bytes) (i : ℕ) → find pat s ≡ some i → i + length pat ≤ length s
find-length pat [] i h = unfold find in ground (arith, starts_with-length pat [])
find-length pat (c ∷ s) i h = elim (Bool-cases (starts_with pat (c ∷ s))) [
  | inl here ↦
      let first : some 0 ≡ some i = sym (find_here pat (c ∷ s) here) ∙ h in
      let zero_is : 0 ≡ i = cc in omega (arith, starts_with-length pat (c ∷ s) here)
  | inr there ↦
      let (j, later, e) = find_later pat s c i there h in
      omega (arith, e, find-length pat s j later)
]

-- More text behind does not move the first hit.
pub find-append : (pat s t : Bytes) (i : ℕ) → find pat s ≡ some i → find pat (s ++ t) ≡ some i
find-append pat [] t i h = elim (Bool-cases (starts_with pat [])) [
  | inl here ↦ find_here pat t (starts_with-append pat [] t here) ∙ sym (find_here pat [] here) ∙ h
  | inr there ↦ absurd (unfold find in ground arith)
]
find-append pat (c ∷ s) t i h = elim (Bool-cases (starts_with pat (c ∷ s))) [
  | inl here ↦
      find_here pat (c ∷ (s ++ t)) (starts_with-append pat (c ∷ s) t here)
      ∙ sym (find_here pat (c ∷ s) here)
      ∙ h
  | inr there ↦
      let (j, later, e) = find_later pat s c i there h in
      let long : length pat ≤ length (c ∷ s) = omega (arith, find-length pat s j later) in
      let still : starts_with pat (c ∷ (s ++ t)) ≡ false =
        starts_with-append_long pat (c ∷ s) t long ∙ there in
      find_next pat (s ++ t) c j still (find-append pat s t j later) ∙ ap some (sym e)
]
