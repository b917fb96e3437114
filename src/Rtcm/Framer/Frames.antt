-- ===== src/Rtcm/Framer/Frames.antt =====
-- Frames as a station sends them, and what the framer makes of them, whole or damaged.
use rtcmbridge.Base.{
  ℕ, zero, suc, ◌+◌, ◌%◌, ◌^◌, ◌<◌, List, [], ◌∷◌, ◌++◌, map, ◌≡◌, refl, sym, ap, ◌∙◌, arith, Bytes,
  length, length-append, All, All-append, append_assoc, append-nil,
}
use rtcmbridge.Rtcm.Crc.{crc24q}
use rtcmbridge.Rtcm.Crc.Residue.{IsBytes, crc_bytes}
use rtcmbridge.Rtcm.Decoder.{decode}
use rtcmbridge.Rtcm.Framer.{
  Framer, break, accept, accepted, next, scan, push, skip_to_preamble, check_frame,
}
use rtcmbridge.Rtcm.Framer.Split.{push-scan, push-nil}
use rtcmbridge.Rtcm.Framer.Frame.{header, frame, IsNoise, crc24q-lt, next-frame}

-- Frames, each behind some noise, as one stream.
abbrev pub stream_of : List (Bytes × Bytes) → Bytes
stream_of [] = []
stream_of ((noise, payload) ∷ more) = noise ++ (frame payload ++ stream_of more)

abbrev pub Sendable : Bytes × Bytes → Type 0
Sendable (noise, payload) =
    IsNoise noise × IsBytes noise × IsBytes payload × (length payload < 1024)

abbrev pub AllSendable : List (Bytes × Bytes) → Type 0
AllSendable = All Sendable

IsBytes-frame :
    (payload : Bytes) → IsBytes payload → length payload < 1024 → IsBytes (frame payload)
IsBytes-frame payload b h =
    let sum = crc24q (header payload ++ payload) in
    let end : IsBytes (crc_bytes sum) =
      (omega (arith, crc24q-lt (header payload ++ payload)), (omega arith, (omega arith, tt))) in
    (omega arith, (omega arith, (omega arith, All-append _ payload (crc_bytes sum) b end)))

IsBytes-stream_of : (items : List (Bytes × Bytes)) → AllSendable items → IsBytes (stream_of items)
IsBytes-stream_of [] h = tt
IsBytes-stream_of ((noise, payload) ∷ more) h =
    let (quiet, n, p, fits) = h.0 in
    All-append _ noise (frame payload ++ stream_of more) n (
      All-append _ (frame payload) (stream_of more) (IsBytes-frame payload p fits)
        (IsBytes-stream_of more h.1))

-- The payloads of a stream of frames.
abbrev pub payloads : List (Bytes × Bytes) → List Bytes
payloads = map (λ item. item.1)

-- `s` after the frames of `items`, all taken; the counter has 64 bits.
abbrev pub after_frames : Framer → List (Bytes × Bytes) → Framer
after_frames s items = record s {
  buf = [];
  frames_ok = (s.frames_ok + length items) % 2 ^ 64;
  lines = s.lines ++ map decode (payloads items);
}

next-nil : next [] ≡ break []
unfolding next skip_to_preamble check_frame
next-nil = refl

after_frames-nil : (s : Framer) → s.frames_ok < 2 ^ 64 → record s { buf = [] } ≡ after_frames s []
after_frames-nil s r = λ i. record s {
  buf = [];
  frames_ok = let e : s.frames_ok ≡ (s.frames_ok + 0) % 2 ^ 64 = omega arith in e i;
  lines = sym (append-nil s.lines) i;
}

scan-stream_of :
    (f : ℕ) (s : Framer) (items : List (Bytes × Bytes))
    → s.frames_ok < 2 ^ 64
    → AllSendable items
    → length (stream_of items) < f
    → scan f s (stream_of items) ≡ after_frames s items
unfolding scan
scan-stream_of zero s items r h k = elim k [ ]
scan-stream_of (suc f) s [] r h k = rw (next-nil, scan) (after_frames-nil s r)
scan-stream_of (suc f) s ((noise, payload) ∷ more) r h k =
    let (quiet, n, p, fits) = h.0 in
    let taken : next (noise ++ (frame payload ++ stream_of more))
        ≡ accept payload (stream_of more) =
      next-frame noise payload (stream_of more) quiet fits in
    let fewer : length (stream_of more) < f = omega (
      arith,
      length-append noise (frame payload ++ stream_of more),
      length-append (frame payload) (stream_of more),
    ) in
    rw (taken, scan)
      (scan-stream_of f (accepted s payload) more (omega arith) h.1 fewer
        ∙ rw (append_assoc s.lines (decode payload ∷ []) (map decode (payloads more))) (
            ap
              (λ k. record s {
                buf = [];
                frames_ok = k;
                lines = s.lines ++ (decode payload ∷ map decode (payloads more));
              })
              (omega arith)))

-- A stream of correct frames with noise between them, pushed to a framer whose buffer is empty, is taken
-- apart into exactly its payloads, in order, each decoded into one line, with none counted as bad and
-- no byte left over; the counter of the frames, of 64 bits, goes up by one for each.
pub push-stream_of :
    (s : Framer) (items : List (Bytes × Bytes))
    → s.buf ≡ []
    → s.frames_ok < 2 ^ 64
    → AllSendable items
    → push s (stream_of items) ≡ after_frames s items
push-stream_of s [] e r h = push-nil s ∙ (λ i. record s { buf = e i }) ∙ after_frames-nil s r
push-stream_of s ((noise, payload) ∷ more) e r h =
    let items = (noise, payload) ∷ more in
    let bytes = stream_of items in
    let some_bytes : 0 < length bytes = omega (
      arith,
      length-append noise (frame payload ++ stream_of more),
      length-append (frame payload) (stream_of more),
    ) in
    let settled : IsBytes s.buf = rw e tt in
    push-scan s bytes settled (IsBytes-stream_of items h) some_bytes
    ∙ ap (λ b. scan (length (b ++ bytes) + 1) s (b ++ bytes)) e
    ∙ scan-stream_of (length bytes + 1) s items r h (omega arith)
