-- ===== src/Rtcm/Framer/Next.antt =====
-- One turn of the loop of `RtcmStreamFramer::push`, and the same turn with more bytes behind.
use rtcmbridge.Base.{
  ℕ, zero, suc, ◌+◌, ◌^◌, ◌≤◌, ◌<◌, [], ◌∷◌, ◌++◌, ◌≡◌, refl, sym, ap, ◌∙◌, ltb, ◌==◌, arith, Bytes,
  length, get_or, take, drop, false, inl, inr, Bool-cases, ◌⊎◌, length-append, length-drop,
  take-append_le, drop-append_le, get_or-append_lt, ltb_false→le, le→ltb_false, All-drop, ltb→lt,
  lt→ltb, append-nil,
}
use rtcmbridge.Rtcm.Crc.Residue.{IsBytes}
use rtcmbridge.Rtcm.Framer.{
  Turn, break, accept, reject, skip_to_preamble, payload_len, got_crc, check_frame, next,
}

skip_to_preamble-append :
    (p q : Bytes) → skip_to_preamble (p ++ q) ≡ skip_to_preamble (skip_to_preamble p ++ q)
unfolding skip_to_preamble
skip_to_preamble-append [] q = refl
skip_to_preamble-append (b ∷ p) q = ground (arith, skip_to_preamble-append p q)

length-skip_to_preamble : (p : Bytes) → length (skip_to_preamble p) ≤ length p
unfolding skip_to_preamble
length-skip_to_preamble [] = omega arith
length-skip_to_preamble (b ∷ p) = ground (arith, length-skip_to_preamble p)

-- A nonempty rest begins with the preamble, and stays as it is.
skip_to_preamble-pos :
    (p q : Bytes)
    → 0 < length (skip_to_preamble p)
    → skip_to_preamble (skip_to_preamble p ++ q) ≡ skip_to_preamble p ++ q
unfolding skip_to_preamble
skip_to_preamble-pos [] q h = absurd (omega arith)
skip_to_preamble-pos (b ∷ p) q h = elim (Bool-cases (b == 0xD3)) [
  | inl hit ↦ rw hit (rw hit)
  | inr miss ↦ rw miss (skip_to_preamble-pos p q (rw miss at h))
]

pub IsBytes-skip_to_preamble : (p : Bytes) → IsBytes p → IsBytes (skip_to_preamble p)
unfolding skip_to_preamble
IsBytes-skip_to_preamble [] h = tt
IsBytes-skip_to_preamble (b ∷ p) h = elim (Bool-cases (b == 0xD3)) [
  | inl hit ↦ rw hit h
  | inr miss ↦ rw miss (IsBytes-skip_to_preamble p h.1)
]

payload_len-append : (p q : Bytes) → 3 ≤ length p → payload_len (p ++ q) ≡ payload_len p
unfolding payload_len
payload_len-append p q h =
    rw (get_or-append_lt p q 1 0 (omega arith), get_or-append_lt p q 2 0 (omega arith))

get_or-byte : (p : Bytes) (i : ℕ) → IsBytes p → get_or p i 0 < 2 ^ 8
get_or-byte [] i h = omega arith
get_or-byte (b ∷ p) zero h = h.0
get_or-byte (b ∷ p) (suc i) h = get_or-byte p i h.1

pub payload_len-lt : (p : Bytes) → IsBytes p → payload_len p < 1024
unfolding payload_len
payload_len-lt p h = omega (arith, get_or-byte p 2 h)

got_crc-append : (p q : Bytes) → 3 + payload_len p + 3 ≤ length p → got_crc (p ++ q) ≡ got_crc p
unfolding got_crc
got_crc-append p q h =
    let n = payload_len p in
    rw (payload_len-append p q (omega arith)) (
      rw (
        get_or-append_lt p q (3 + n) 0 (omega arith),
        get_or-append_lt p q (3 + n + 1) 0 (omega arith),
        get_or-append_lt p q (3 + n + 2) 0 (omega arith),
      ))

-- What a turn becomes when the bytes `q` stand behind those that it saw.
unfoldable pub extend : Turn → Bytes → Turn
extend (break rest) q = next (rest ++ q)
extend (accept payload rest) q = accept payload (rest ++ q)
extend (reject rest) q = reject (rest ++ q)

check_frame-append :
    (p q : Bytes)
    → 3 ≤ length p
    → 3 + payload_len p + 3 ≤ length p
    → check_frame (p ++ q) ≡ extend (check_frame p) q
unfolding check_frame extend
check_frame-append p q h k =
    let n = payload_len p in
    let longer : length (p ++ q) ≡ length p + length q = length-append p q in
    let all_head : ltb (length (p ++ q)) 3 ≡ false = le→ltb_false 3 _ (omega arith) in
    let head : ltb (length p) 3 ≡ false = le→ltb_false 3 _ h in
    let all_body : ltb (length (p ++ q)) (3 + n + 3) ≡ false = le→ltb_false _ _ (omega arith) in
    let body : ltb (length p) (3 + n + 3) ≡ false = le→ltb_false _ _ k in
    let checked : take (3 + n) (p ++ q) ≡ take (3 + n) p =
      take-append_le (3 + n) p q (omega arith) in
    let after : drop (3 + n + 3) (p ++ q) ≡ drop (3 + n + 3) p ++ q =
      drop-append_le (3 + n + 3) p q k in
    let one : drop 1 (p ++ q) ≡ drop 1 p ++ q = drop-append_le 1 p q (omega arith) in
    let three : drop 3 (p ++ q) ≡ drop 3 p ++ q = drop-append_le 3 p q h in
    let payload : take n (drop 3 p ++ q) ≡ take n (drop 3 p) =
      take-append_le n (drop 3 p) q (omega (arith, length-drop 3 p)) in
    rw (payload_len-append p q h, all_head, head, all_body, body)
      (rw (got_crc-append p q k, checked, after, one, three, payload) (ground arith))

short_head : (p : Bytes) → length p < 3 → check_frame p ≡ break p
unfolding check_frame
short_head p h = rw (lt→ltb _ _ h)

short_body : (p : Bytes) → length p < 3 + payload_len p + 3 → check_frame p ≡ break p
unfolding check_frame
short_body p h = rw (lt→ltb _ _ h) (ground arith)

-- More bytes behind change no decision that a turn has made, and a turn that broke is made again.
pub next-append : (p q : Bytes) → next (p ++ q) ≡ extend (next p) q
unfolding next
next-append p q =
    let r = skip_to_preamble p in
    let again : check_frame (skip_to_preamble (p ++ q)) ≡ check_frame (skip_to_preamble (r ++ q)) =
      ap check_frame (skip_to_preamble-append p q) in
    elim (Bool-cases (ltb (length r) 3)) [
      | inl few ↦ again ∙ rw (short_head r (ltb→lt _ _ few)) (unfold extend in refl)
      | inr head ↦ elim (Bool-cases (ltb (length r) (3 + payload_len r + 3))) [
        | inl few ↦ again ∙ rw (short_body r (ltb→lt _ _ few)) (unfold extend in refl)
        | inr body ↦
            let has : 3 ≤ length r = ltb_false→le _ _ head in
            again
            ∙ ap check_frame (skip_to_preamble-pos p q (omega arith))
            ∙ check_frame-append r q has (ltb_false→le _ _ body)
      ]
    ]

-- What a turn leaves: a rest that is shorter, or, when it breaks, less than one frame.
abbrev pub Leaves : Bytes → Turn → Type 0
Leaves p (break r) = (length r < 1029) × (next r ≡ break r) × IsBytes r
Leaves p (accept payload r) = (length r < length p) × IsBytes r
Leaves p (reject r) = (length r < length p) × IsBytes r

abbrev LeavesFrame : Bytes → Turn → Type 0
LeavesFrame p (break r) = (length r < 1029) × (r ≡ p)
LeavesFrame p (accept payload r) = (length r < length p) × IsBytes r
LeavesFrame p (reject r) = (length r < length p) × IsBytes r

check_frame-Leaves : (p : Bytes) → IsBytes p → LeavesFrame p (check_frame p)
unfolding check_frame
check_frame-Leaves p b =
    let n = payload_len p in
    ground (
      arith,
      payload_len-lt p b,
      length-drop (3 + n + 3) p,
      length-drop 1 p,
      All-drop (λ (c : ℕ). c < 2 ^ 8) (3 + n + 3) p b,
      All-drop (λ (c : ℕ). c < 2 ^ 8) 1 p b,
    )

pub Turn-cases :
    (t : Turn)
    → ((r : Bytes) × (t ≡ break r))
      ⊎ (((payload : Bytes) × (r : Bytes) × (t ≡ accept payload r))
          ⊎ ((r : Bytes) × (t ≡ reject r)))
Turn-cases (break r) = inl (r, refl)
Turn-cases (accept payload r) = inr (inl (payload, r, refl))
Turn-cases (reject r) = inr (inr (r, refl))

pub next-Leaves : (p : Bytes) → IsBytes p → Leaves p (next p)
next-Leaves p b = elim (Turn-cases (next p)) [
  | inl (r, e) ↦
      let made : check_frame (skip_to_preamble p) ≡ break r = unfold next in e in
      let left =
        rw made at (check_frame-Leaves (skip_to_preamble p) (IsBytes-skip_to_preamble p b)) in
      let bytes : IsBytes r = rw left.1 (IsBytes-skip_to_preamble p b) in
      let again : next (p ++ []) ≡ next (r ++ []) =
        next-append p [] ∙ rw e (unfold extend in refl) in
      let settled : next r ≡ break r = sym (rw (append-nil p, append-nil r) at again) ∙ e in
      rw e (left.0, settled, bytes)
  | inr (inl (payload, r, e)) ↦
      let made : check_frame (skip_to_preamble p) ≡ accept payload r = unfold next in e in
      let left =
        rw made at (check_frame-Leaves (skip_to_preamble p) (IsBytes-skip_to_preamble p b)) in
      rw e (omega (arith, left.0, length-skip_to_preamble p), left.1)
  | inr (inr (r, e)) ↦
      let made : check_frame (skip_to_preamble p) ≡ reject r = unfold next in e in
      let left =
        rw made at (check_frame-Leaves (skip_to_preamble p) (IsBytes-skip_to_preamble p b)) in
      rw e (omega (arith, left.0, length-skip_to_preamble p), left.1)
]

-- A turn that breaks keeps a tail of the bytes.
pub break-le : (p r : Bytes) → IsBytes p → next p ≡ break r → length r ≤ length p
break-le p r b e =
    let made : check_frame (skip_to_preamble p) ≡ break r = unfold next in e in
    let left =
      rw made at (check_frame-Leaves (skip_to_preamble p) (IsBytes-skip_to_preamble p b)) in
    omega (arith, ap length left.1, length-skip_to_preamble p)
