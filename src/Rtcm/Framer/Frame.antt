-- ===== src/Rtcm/Framer/Frame.antt =====
-- One turn of the loop of RtcmStreamFramer::push, src/rtcm_decoder_ntrip.cpp, on one frame.
use rtcmbridge.Base.{
  ℕ, zero, suc, ◌+◌, ◌/◌, ◌%◌, ◌^◌, ◌<◌, [], ◌∷◌, ◌++◌, ◌≡◌, ◌≢◌, refl, sym, ap, ◌∙◌, ltb, ◌==◌,
  if◌then◌else◌, arith, Bytes, length, drop, take, get_or, false, length-append, drop_add,
  le→ltb_false, All, append_assoc, ==_iff, take-append_length, drop-append_length,
}
use rtcmbridge.Rtcm.Crc.{crc24q}
use rtcmbridge.Rtcm.Crc.Residue.{IsBytes, crc_bytes}
use rtcmbridge.Rtcm.Crc.Detect.{crc24q-detects}
use rtcmbridge.Rtcm.Framer.{
  accept, reject, next, skip_to_preamble, check_frame, payload_len, got_crc,
}

-- The first three bytes of a frame.
abbrev pub header : Bytes → Bytes
header payload = 0xD3 ∷ length payload / 2 ^ 8 ∷ length payload % 2 ^ 8 ∷ []

-- A frame whose three last bytes are the check sum of `checked`, sent with `payload`.
abbrev pub frame_of : Bytes → Bytes → Bytes
frame_of checked payload = header payload ++ (payload ++ crc_bytes (crc24q checked))

abbrev pub frame : Bytes → Bytes
frame payload = frame_of (header payload ++ payload) payload

-- Bytes in which no frame can begin.
abbrev pub IsNoise : Bytes → Type 0
IsNoise = All (λ b. b ≢ 0xD3)

skip_to_preamble-IsNoise :
    (noise p : Bytes) → IsNoise noise → skip_to_preamble (noise ++ (0xD3 ∷ p)) ≡ 0xD3 ∷ p
unfolding skip_to_preamble
skip_to_preamble-IsNoise [] p h = refl
skip_to_preamble-IsNoise (b ∷ noise) p h = ground (arith, skip_to_preamble-IsNoise noise p h.1)

get_or-end : (xs ys : Bytes) (i n : ℕ) → n ≡ length xs + i → get_or (xs ++ ys) n 0 ≡ get_or ys i 0
get_or-end [] ys i n e = ap (λ k. get_or ys k 0) (omega arith)
get_or-end (x ∷ xs) ys i zero e = absurd (omega arith)
get_or-end (x ∷ xs) ys i (suc n) e = get_or-end xs ys i n (omega arith)

pub crc24q-lt : (bytes : Bytes) → crc24q bytes < 2 ^ 24
unfolding crc24q
crc24q-lt bytes = omega arith

module _ (payload : Bytes) (fits : length payload < 1024) where
  payload_len-header : (rest : Bytes) → payload_len (header payload ++ rest) ≡ length payload
  unfolding payload_len
  payload_len-header rest = omega arith

  got_crc-frame_of :
      (sum : ℕ) (rest : Bytes)
      → sum < 2 ^ 24
      → got_crc (header payload ++ (payload ++ (crc_bytes sum ++ rest))) ≡ sum
  unfolding got_crc
  got_crc-frame_of sum rest h =
      let n = length payload in
      let tail = crc_bytes sum ++ rest in
      let first : 3 + n ≡ suc (suc (suc n)) = omega arith in
      let second : suc (suc (suc n)) + 1 ≡ suc (suc (suc (suc n))) = omega arith in
      let third : suc (suc (suc n)) + 2 ≡ suc (suc (suc (suc (suc n)))) = omega arith in
      rw (payload_len-header (payload ++ tail), first, second, third)
        (rw
          (
            get_or-end payload tail 0 n (omega arith),
            get_or-end payload tail 1 (suc n) (omega arith),
            get_or-end payload tail 2 (suc (suc n)) (omega arith),
          )
          (omega arith))

  check_frame-frame_of :
      (checked rest : Bytes)
      → check_frame (header payload ++ (payload ++ (crc_bytes (crc24q checked) ++ rest))) ≡ (
          if crc24q checked == crc24q (header payload ++ payload)
          then accept payload rest
          else reject
              (drop 1 (header payload) ++ (payload ++ (crc_bytes (crc24q checked) ++ rest))))
  unfolding check_frame
  check_frame-frame_of checked rest =
      let n = length payload in
      let sum = crc24q checked in
      let tail = crc_bytes sum ++ rest in
      let all = header payload ++ (payload ++ tail) in
      let size : length all ≡ 3 + n + 3 + length rest = omega (arith, length-append payload tail) in
      let head : ltb (length all) 3 ≡ false = le→ltb_false 3 _ (omega arith) in
      let body : ltb (length all) (3 + n + 3) ≡ false = le→ltb_false _ _ (omega arith) in
      let three : 3 + n ≡ suc (suc (suc n)) = omega arith in
      let six : suc (suc (suc n)) + 3 ≡ suc (suc (suc (n + 3))) = omega arith in
      let covered : take (suc (suc (suc n))) all ≡ header payload ++ payload =
        ap (λ t. header payload ++ t) (take-append_length payload tail) in
      let behind : drop (n + 3) (payload ++ tail) ≡ rest =
        drop_add n 3 (payload ++ tail) ∙ ap (drop 3) (drop-append_length payload tail) in
      rw (payload_len-header (payload ++ tail), head, body)
        (rw (got_crc-frame_of sum rest (crc24q-lt checked), three)
          (rw (six, covered) (rw (behind, take-append_length payload tail) refl)))

-- In a stream, behind noise, a frame is judged by its check sum alone.
next-frame_of :
    (noise checked payload rest : Bytes)
    → IsNoise noise
    → length payload < 1024
    → next (noise ++ (frame_of checked payload ++ rest)) ≡ (
        if crc24q checked == crc24q (header payload ++ payload)
        then accept payload rest
        else reject (drop 1 (frame_of checked payload) ++ rest))
unfolding next
next-frame_of noise checked payload rest h fits =
    rw (append_assoc payload (crc_bytes (crc24q checked)) rest) (
      ap check_frame (skip_to_preamble-IsNoise noise _ h)
      ∙ check_frame-frame_of payload fits checked rest)

-- A frame is taken, whatever stands behind it and whatever noise before it.
pub next-frame :
    (noise payload rest : Bytes)
    → IsNoise noise
    → length payload < 1024
    → next (noise ++ (frame payload ++ rest)) ≡ accept payload rest
next-frame noise payload rest h fits =
    next-frame_of noise (header payload ++ payload) payload rest h fits
    ∙ rw ((==_iff (crc24q (header payload ++ payload)) _).1 refl)

-- The frame of `payload` as it arrives when its payload has become `damaged`.
abbrev pub arrived : Bytes → Bytes → Bytes
arrived payload damaged = frame_of (header payload ++ payload) damaged

==_false : (a b : ℕ) → a ≢ b → (a == b) ≡ false
==_false a b h = ground arith

-- A frame with one byte of its payload damaged is never taken: the turn gives its preamble up.
pub next-damaged :
    (noise before after rest : Bytes) (sent got : ℕ)
    → IsNoise noise
    → IsBytes before
    → IsBytes after
    → sent < 2 ^ 8
    → got < 2 ^ 8
    → length (before ++ (got ∷ after)) < 1024
    → sent ≢ got
    → let bytes = arrived (before ++ (sent ∷ after)) (before ++ (got ∷ after)) in
      next (noise ++ (bytes ++ rest)) ≡ reject (drop 1 bytes ++ rest)
next-damaged noise before after rest sent got h b c f g fits ne =
    let payload = before ++ (sent ∷ after) in
    let damaged = before ++ (got ∷ after) in
    let same_size : length damaged ≡ length payload =
      length-append before (got ∷ after) ∙ sym (length-append before (sent ∷ after)) in
    let same_header : crc24q (header damaged ++ damaged) ≡ crc24q (header payload ++ damaged) =
      ap (λ (k : ℕ). crc24q (0xD3 ∷ k / 2 ^ 8 ∷ k % 2 ^ 8 ∷ damaged)) same_size in
    let small : length payload < 1024 = omega arith in
    let head : IsBytes (header payload ++ before) =
      (omega arith, (omega arith, (omega arith, b))) in
    let differ : crc24q (header payload ++ payload) ≢ crc24q (header damaged ++ damaged) = λ e.
      crc24q-detects (header payload ++ before) after sent got head c f g ne (e ∙ same_header) in
    next-frame_of noise (header payload ++ payload) damaged rest h fits
    ∙ rw (==_false (crc24q (header payload ++ payload)) (crc24q (header damaged ++ damaged)) differ)
