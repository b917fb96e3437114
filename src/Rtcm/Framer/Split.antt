-- ===== src/Rtcm/Framer/Split.antt =====
-- `push` does not depend on how the network has cut the stream into pieces, and its buffer never
-- reaches the limit.
use mathlib.Core.List.{flatten}
use rtcmbridge.Base.{
  ℕ, zero, suc, ◌+◌, ◌≤◌, ◌<◌, List, [], ◌∷◌, ◌++◌, ◌≡◌, refl, sym, ◌∙◌, ltb, ◌==◌, arith, Bytes,
  length, false, inl, inr, length-append, le→ltb_false, All, All-append, append_assoc, append-nil,
}
use rtcmbridge.Rtcm.Crc.Residue.{IsBytes}
use rtcmbridge.Rtcm.Framer.{
  Framer, new_framer, skip_to_preamble, check_frame, break, accept, reject, accepted, rejected,
  next, scan, cap_buffer, push, max_buffer,
}
use rtcmbridge.Rtcm.Framer.Next.{extend, next-append, break-le, next-Leaves, Turn-cases}

-- The loop reads the bytes that it is given, not the buffer of the state.
scan-buf : (f : ℕ) (s : Framer) (old p : Bytes) → scan f (record s { buf = old }) p ≡ scan f s p
unfolding scan
scan-buf zero s old p = refl
scan-buf (suc f) s old p = elim (Turn-cases (next p)) [
  | inl (r, e) ↦ rw (e, scan)
  | inr (inl (payload, r, e)) ↦ rw (e, scan) (scan-buf f (accepted s payload) old r)
  | inr (inr (r, e)) ↦ rw (e, scan) (scan-buf f (rejected s) old r)
]

-- Fuel above the length of the bytes is enough: more changes nothing.
scan_enough :
    (f g : ℕ) (s : Framer) (p : Bytes)
    → IsBytes p
    → length p < f
    → length p < g
    → scan f s p ≡ scan g s p
unfolding scan
scan_enough zero g s p b h k = elim h [ ]
scan_enough (suc f) zero s p b h k = elim k [ ]
scan_enough (suc f) (suc g) s p b h k = elim (Turn-cases (next p)) [
  | inl (r, e) ↦ rw (e, scan)
  | inr (inl (payload, r, e)) ↦
      let left = rw e at (next-Leaves p b) in
      rw (e, scan)
        (scan_enough f g (accepted s payload) r left.1 (omega (arith, left.0))
          (omega (arith, left.0)))
  | inr (inr (r, e)) ↦
      let left = rw e at (next-Leaves p b) in
      rw (e, scan)
        (scan_enough f g (rejected s) r left.1 (omega (arith, left.0)) (omega (arith, left.0)))
]

-- The loop ends by its break, with less than one frame in the buffer.
pub record IsSettled (s : Framer) : Type 0 where
  pub short : length s.buf < 1029
  pub bytes : IsBytes s.buf
  pub waits : next s.buf ≡ break s.buf

scan-IsSettled :
    (f : ℕ) (s : Framer) (p : Bytes) → IsBytes p → length p < f → IsSettled (scan f s p)
unfolding scan
scan-IsSettled zero s p b h = elim h [ ]
scan-IsSettled (suc f) s p b h = elim (Turn-cases (next p)) [
  | inl (r, e) ↦
      let left = rw e at (next-Leaves p b) in
      rw (e, scan) (record { short = left.0; bytes = left.2; waits = left.1 })
  | inr (inl (payload, r, e)) ↦
      let left = rw e at (next-Leaves p b) in
      rw (e, scan) (scan-IsSettled f (accepted s payload) r left.1 (omega (arith, left.0)))
  | inr (inr (r, e)) ↦
      let left = rw e at (next-Leaves p b) in
      rw (e, scan) (scan-IsSettled f (rejected s) r left.1 (omega (arith, left.0)))
]

pub new_framer-IsSettled : IsSettled new_framer
unfolding next skip_to_preamble check_frame
new_framer-IsSettled = record { short = omega arith; bytes = tt; waits = refl }

same_next :
    (f : ℕ) (s : Framer) (p q : Bytes) → next p ≡ next q → scan (suc f) s p ≡ scan (suc f) s q
unfolding scan
same_next f s p q e = rw (e, scan)

-- Bytes that come later are scanned from where the loop stopped.
scan-append :
    (f g h : ℕ) (s : Framer) (p q : Bytes)
    → IsBytes p
    → IsBytes q
    → length p < f
    → length (p ++ q) < g
    → length ((scan f s p).buf ++ q) < h
    → scan g s (p ++ q) ≡ scan h (scan f s p) ((scan f s p).buf ++ q)
unfolding scan
scan-append zero g h s p q b c hf hg hh = elim hf [ ]
scan-append (suc f) zero h s p q b c hf hg hh = elim hg [ ]
scan-append (suc f) (suc g) h s p q b c hf hg hh = elim (Turn-cases (next p)) [
  | inl (r, e) ↦
      let left = rw e at (next-Leaves p b) in
      let turned : next (p ++ q) ≡ next (r ++ q) = next-append p q ∙ rw e (unfold extend in refl) in
      let stopped : scan (suc f) s p ≡ record s { buf = r } = rw (e, scan) in
      let room : length (r ++ q) < h = rw stopped at hh in
      let fewer : length r ≤ length p = omega (arith, break-le p r b e) in
      let enough : length (r ++ q) < suc g = omega (arith, length-append r q, length-append p q) in
      rw stopped (
        same_next g s (p ++ q) (r ++ q) turned
        ∙ scan_enough (suc g) h s (r ++ q) (All-append _ r q left.2 c) enough room
        ∙ sym (scan-buf h s r (r ++ q)))
  | inr (inl (payload, r, e)) ↦
      let left = rw e at (next-Leaves p b) in
      let turned : next (p ++ q) ≡ accept payload (r ++ q) =
        next-append p q ∙ rw e (unfold extend in refl) in
      let later : scan (suc f) s p ≡ scan f (accepted s payload) r = rw (e, scan) in
      rw (turned, scan)
        (rw later (
          scan-append f g h (accepted s payload) r q left.1 c (omega (arith, left.0))
            (omega (arith, left.0, length-append r q, length-append p q)) (rw later at hh)))
  | inr (inr (r, e)) ↦
      let left = rw e at (next-Leaves p b) in
      let turned : next (p ++ q) ≡ reject (r ++ q) =
        next-append p q ∙ rw e (unfold extend in refl) in
      let later : scan (suc f) s p ≡ scan f (rejected s) r = rw (e, scan) in
      rw (turned, scan)
        (rw later (
          scan-append f g h (rejected s) r q left.1 c (omega (arith, left.0))
            (omega (arith, left.0, length-append r q, length-append p q)) (rw later at hh)))
]

-- The buffer never reaches `max_buffer_`, so that nothing is ever cut off its front.
pub push-scan :
    (s : Framer) (p : Bytes)
    → IsBytes s.buf
    → IsBytes p
    → 0 < length p
    → push s p ≡ scan (length (s.buf ++ p) + 1) s (s.buf ++ p)
unfolding push cap_buffer
push-scan s p b c h =
    let all = s.buf ++ p in
    let some_bytes : (length p == 0) ≡ false = ground arith in
    let settled = scan-IsSettled (length all + 1) s all (All-append _ s.buf p b c) (omega arith) in
    let small : ltb max_buffer (length (scan (length all + 1) s all).buf) ≡ false =
      le→ltb_false _ max_buffer (omega (arith, settled.short)) in
    rw some_bytes (rw small)

pub push-nil : (s : Framer) → push s [] ≡ s
unfolding push
push-nil s = refl

-- After any push the buffer holds less than one frame, of which the next bytes may make one.
pub push-IsSettled : (s : Framer) (p : Bytes) → IsSettled s → IsBytes p → IsSettled (push s p)
push-IsSettled s [] v c = rw (push-nil s) v
push-IsSettled s (x ∷ p) v c =
    rw (push-scan s (x ∷ p) v.bytes c (omega arith))
      (scan-IsSettled _ s _ (All-append _ s.buf (x ∷ p) v.bytes c) (omega arith))

-- Two pushes are one push of all the bytes.
pub push-append :
    (s : Framer) (p q : Bytes)
    → IsSettled s
    → IsBytes p
    → IsBytes q
    → push (push s p) q ≡ push s (p ++ q)
push-append s [] q v b c = rw (push-nil s)
push-append s (x ∷ p) [] v b c = rw (push-nil, append-nil)
push-append s (x ∷ p) (y ∷ q) v b c =
    let first = x ∷ p in
    let second = y ∷ q in
    let all = s.buf ++ first in
    let t = scan (length all + 1) s all in
    let settled =
      scan-IsSettled (length all + 1) s all (All-append _ s.buf first v.bytes b) (omega arith) in
    rw
      (
        push-scan s first v.bytes b (omega arith),
        push-scan t second settled.bytes c (omega arith),
        push-scan s (first ++ second) v.bytes (All-append _ first second b c) (omega arith),
        ← append_assoc s.buf first second,
      )
      (sym (
        scan-append (length all + 1) _ _ s all second (All-append _ s.buf first v.bytes b) c
          (omega arith) (omega arith) (omega arith)))

-- The pieces of a stream, pushed in turn.
unfoldable pub push_all : Framer → List Bytes → Framer
push_all s [] = s
push_all s (p ∷ ps) = push_all (push s p) ps

abbrev pub Pieces : List Bytes → Type 0
Pieces = All IsBytes

pub IsBytes-flatten : (ps : List Bytes) → Pieces ps → IsBytes (flatten ps)
unfolding flatten
IsBytes-flatten [] h = tt
IsBytes-flatten (p ∷ ps) h = All-append _ p (flatten ps) h.0 (IsBytes-flatten ps h.1)

-- However a stream is cut into pieces, pushing them in turn leaves the framer (the lines printed,
-- the counters, the buffer) as pushing the stream whole does.
pub push_all-flatten :
    (s : Framer) (ps : List Bytes) → IsSettled s → Pieces ps → push_all s ps ≡ push s (flatten ps)
unfolding push_all flatten
push_all-flatten s [] v h = sym (push-nil s)
push_all-flatten s (p ∷ ps) v h =
    push_all-flatten (push s p) ps (push-IsSettled s p v h.0) h.1
    ∙ push-append s p (flatten ps) v h.0 (IsBytes-flatten ps h.1)
