-- ===== src/Ntrip/Source/Chunks.antt =====
-- What a caster makes of the chunks that src/ntrip.cpp sends.
use native.Mathlib.Nat.{pow-suc}
use rtcmbridge.Base.{
  ltb→lt, leb, ℕ, zero, suc, ◌+◌, ◌-◌, ◌*◌, ◌/◌, ◌%◌, ◌^◌, ◌<◌, ◌≡◌, refl, ap, sym, ◌∙◌, false, not,
  ◌&&◌, ◌||◌, Option, none, some, List, [], ◌∷◌, ◌++◌, Bytes, length, arith, take, drop, ltb, ◌==◌,
  if◌then◌else◌, append_assoc, append-nil, take-append_length, drop-append_length, Bool-cases, inl,
  inr, All, drop_add, length-append,
}
use rtcmbridge.Base.Text.{starts_with}
use rtcmbridge.Ntrip.Connection.{crlf}
use rtcmbridge.Ntrip.Source.{
  Upload, all_of, hex_char, hex_from, encode_chunk, write_bytes, write_source,
}

abbrev hex_digit : ℕ → Option ℕ
hex_digit c =
    if leb 48 c && leb c 57
    then some (c - 48)
    else if leb 97 c && leb c 102
    then some (c - 87)
    else none

-- The number that the digits in front spell, after `n`, and what stands behind them.
unfoldable pub hex_digits : ℕ → Bytes → ℕ × Bytes
hex_digits n [] = (n, [])
hex_digits n (c ∷ s) = elim (hex_digit c) [ none ↦ (n, c ∷ s) | some d ↦ hex_digits (n * 16 + d) s ]

-- One chunk off the front of a chunked body: its size, a line end, that many bytes and a line end.
unfoldable pub read_chunk : Bytes → Option (Bytes × Bytes)
read_chunk s =
    let (n, rest) = hex_digits 0 s in
    if not (starts_with crlf rest) || (n == 0) || not (starts_with crlf (drop (2 + n) rest))
    then none
    else some (take n (drop 2 rest), drop (2 + n + 2) rest)

-- The chunks of a body, on fuel for each.
unfoldable pub read_chunks : ℕ → Bytes → Option (List Bytes)
read_chunks zero s = none
read_chunks (suc fuel) s = if length s == 0 then some [] else elim (read_chunk s) [
  | none ↦ none
  | some (chunk, rest) ↦ elim (read_chunks fuel rest) [
    | none ↦ none
    | some chunks ↦ some (chunk ∷ chunks)
  ]
]

hex_digit-hex_char : (d : ℕ) → d < 16 → hex_digit (hex_char d) ≡ some d
hex_digit-hex_char d h = ground arith

hex_digits-digit :
    (n d : ℕ) (t : Bytes) → d < 16 → hex_digits n (hex_char d ∷ t) ≡ hex_digits (n * 16 + d) t
unfolding hex_digits
hex_digits-digit n d t h = rw (hex_digits, hex_digit-hex_char d h) refl

hex_digits-hex_from :
    (fuel n : ℕ) (t : Bytes) → n < 16 ^ fuel → hex_digits 0 (hex_from fuel n ++ t) ≡ hex_digits n t
unfolding hex_from
hex_digits-hex_from zero n t h = ap (λ k. hex_digits k t) (omega (arith, h))
hex_digits-hex_from (suc fuel) n t h = elim (Bool-cases (ltb n 16)) [
  | inl e ↦ rw e (hex_digits-digit 0 n t (ltb→lt _ _ e) ∙ ap (λ k. hex_digits k t) (omega arith))
  | inr e ↦
      let big : 16 ^ suc fuel ≡ 16 ^ fuel * 16 = pow-suc 16 fuel in
      rw (e, append_assoc (hex_from fuel (n / 16)) (hex_char (n % 16) ∷ []) t)
        (hex_digits-hex_from fuel (n / 16) (hex_char (n % 16) ∷ t) (omega (arith, h, big))
          ∙ hex_digits-digit (n / 16) (n % 16) t (omega arith)
          ∙ ap (λ k. hex_digits k t) (omega arith))
]

-- The frame of a chunk, once its size has been read.
read_sized :
    (bytes t : Bytes)
    → 0 < length bytes
    → (s : Bytes) → hex_digits 0 s ≡ (length bytes, 13 ∷ 10 ∷ (bytes ++ (13 ∷ 10 ∷ t)))
    → read_chunk s ≡ some (bytes, t)
unfolding read_chunk crlf
read_sized bytes t h s e =
    let n = length bytes in
    let some_bytes : (n == 0) ≡ false = ground arith in
    let ahead : 2 + n ≡ suc (suc n) = omega arith in
    let behind : suc (suc n) + 2 ≡ suc (suc (n + 2)) = omega arith in
    let rest : drop (n + 2) (bytes ++ (13 ∷ 10 ∷ t)) ≡ t =
      drop_add n 2 (bytes ++ (13 ∷ 10 ∷ t))
      ∙ ap (drop 2) (drop-append_length bytes (13 ∷ 10 ∷ t)) in
    rw (read_chunk, e, some_bytes, ahead)
      (rw (drop-append_length bytes (13 ∷ 10 ∷ t), behind)
        (rw (rest, take-append_length bytes (13 ∷ 10 ∷ t)) refl))

encode_chunk-append :
    (bytes t : Bytes)
    → encode_chunk bytes ++ t ≡ hex_from 16 (length bytes) ++ (13 ∷ 10 ∷ (bytes ++ (13 ∷ 10 ∷ t)))
unfolding encode_chunk crlf
encode_chunk-append bytes t =
    append_assoc (hex_from 16 (length bytes)) (13 ∷ 10 ∷ (bytes ++ (13 ∷ 10 ∷ []))) t
    ∙ ap (λ (q : Bytes). hex_from 16 (length bytes) ++ (13 ∷ 10 ∷ q))
        (append_assoc bytes (13 ∷ 10 ∷ []) t)

read_chunk-encode_chunk :
    (bytes t : Bytes)
    → 0 < length bytes
    → length bytes < 2 ^ 64
    → read_chunk (encode_chunk bytes ++ t) ≡ some (bytes, t)
read_chunk-encode_chunk bytes t h k = read_sized bytes t h (encode_chunk bytes ++ t) (
    ap (hex_digits 0) (encode_chunk-append bytes t)
    ∙ hex_digits-hex_from 16 (length bytes) (13 ∷ 10 ∷ (bytes ++ (13 ∷ 10 ∷ t))) (omega (arith, k))
    ∙ unfold hex_digits in refl)

positive : (n : ℕ) → 0 < n → (n == 0) ≡ false
positive n h = ground arith

write_source-sent :
    (u : Upload) (p : Bytes)
    → 0 < length p
    → (write_source all_of p u).1.sent ≡ u.sent ++ encode_chunk p
unfolding write_source write_bytes
write_source-sent u p h = rw (write_source, positive (length p) h) refl

-- Payloads that `encode_chunk` takes: not empty, and of a size that a `size_t` holds.
abbrev pub AllSendable : List Bytes → Type 0
AllSendable = All (λ p. (0 < length p) × (length p < 2 ^ 64))

unfoldable pub body : List Bytes → Bytes
body [] = []
body (p ∷ ps) = encode_chunk p ++ body ps

chunk-nonempty : (p t : Bytes) → (length (encode_chunk p ++ t) == 0) ≡ false
chunk-nonempty p t =
    let size =
      ap length (encode_chunk-append p t)
      ∙ length-append (hex_from 16 (length p)) (13 ∷ 10 ∷ (p ++ (13 ∷ 10 ∷ t))) in
    positive _ (omega (arith, size))

read_chunks-body :
    (ps : List Bytes) → AllSendable ps → read_chunks (suc (length ps)) (body ps) ≡ some ps
unfolding read_chunks body
read_chunks-body [] h = refl
read_chunks-body (p ∷ ps) h =
    let one : read_chunk (encode_chunk p ++ body ps) ≡ some (p, body ps) =
      read_chunk-encode_chunk p (body ps) h.0.0 h.0.1 in
    rw (read_chunks, chunk-nonempty p (body ps), one) (rw (read_chunks-body ps h.1) refl)

-- The payloads written one after the other, each write taking all its bytes.
unfoldable pub write_all : Upload → List Bytes → Upload
write_all u [] = u
write_all u (p ∷ ps) = write_all (write_source all_of p u).1 ps

write_all-body :
    (u : Upload) (ps : List Bytes) → AllSendable ps → (write_all u ps).sent ≡ u.sent ++ body ps
unfolding write_all body
write_all-body u [] h = sym (append-nil u.sent)
write_all-body u (p ∷ ps) h =
    write_all-body (write_source all_of p u).1 ps h.1
    ∙ ap (λ (q : Bytes). q ++ body ps) (write_source-sent u p h.0.0)
    ∙ append_assoc u.sent (encode_chunk p) (body ps)

-- Behind what was sent before, a caster that reads the chunked body gets exactly the payloads that
-- were written, each as one chunk, in order.
pub write_all-read_chunks :
    (u : Upload) (ps : List Bytes)
    → AllSendable ps
    → ((write_all u ps).sent ≡ u.sent ++ body ps)
      × (read_chunks (suc (length ps)) (body ps) ≡ some ps)
write_all-read_chunks u ps h = (write_all-body u ps h, read_chunks-body ps h)
