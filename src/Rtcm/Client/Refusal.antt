-- ===== src/Rtcm/Client/Refusal.antt =====
-- `NtripDecoderClient` of src/rtcm_decoder_ntrip.cpp when the caster refuses the request.
use mathlib.Core.List.{flatten}
use rtcmbridge.Base.{
  ℕ, ◌+◌, ◌≤◌, ◌≡◌, refl, sym, ap, ◌∙◌, false, none, some, List, [], ◌∷◌, ◌++◌, Bytes, length, take,
  Bool-cases, Option-cases, inl, inr, append_assoc, append-nil, take-append_le,
}
use rtcmbridge.Base.Text.{find, find-length, find-append}
use rtcmbridge.Ntrip.Connection.{blank_line}
use rtcmbridge.Rtcm.Framer.{Framer}
use rtcmbridge.Rtcm.Client.{
  Client, logged, first_line, caster_rejected, reconnect, is_ok_response, with_header, on_bytes,
  on_read,
}
use rtcmbridge.Rtcm.Client.Feeding.{receive, read_loop-fields, on_bytes-pending, some_injective}

-- The header of `whole` ends at `i`, and the response is not one of the good ones.
pub record Refuses (whole : Bytes) (i : ℕ) : Type 0 where
  pub ended : find blank_line whole ≡ some i
  pub bad : is_ok_response (take (i + 4) whole) ≡ false

-- The bytes that have come are kept as a header, and the framer is `f`.
pub record Holds (c : Client) (buffer : Bytes) (f : Framer) : Type 0 where
  pub pending : c.header_done ≡ false
  pub held : c.response_header ≡ buffer
  pub idle : c.framer ≡ f

reconnect-Holds :
    (c : Client) (buffer : Bytes) (f : Framer) → Holds c buffer f → Holds (reconnect c) buffer f
unfolding reconnect
reconnect-Holds c buffer f h = elim (Bool-cases c.running) [
  | inl e ↦ simp e record { pending = h.pending; held = h.held; idle = h.idle }
  | inr e ↦ simp e record { pending = h.pending; held = h.held; idle = h.idle }
]

with_header-Holds :
    (c : Client) (buffer : Bytes) (f : Framer) (i : ℕ)
    → Holds c buffer f
    → is_ok_response (take (i + 4) buffer) ≡ false
    → Holds (with_header c (some i)) buffer f
unfolding with_header
with_header-Holds c buffer f i h bad =
    let line = caster_rejected (first_line (take (i + 4) c.response_header)) in
    let refused : is_ok_response (take (i + 4) c.response_header) ≡ false =
      ap (λ b. is_ok_response (take (i + 4) b)) h.held ∙ bad in
    let logged_Holds : Holds (logged c line) buffer f = record {
      pending = h.pending;
      held = h.held;
      idle = h.idle;
    } in
    simp refused (reconnect-Holds (logged c line) buffer f logged_Holds)

-- A read that brings no more than a part of a refused response.
step-Holds :
    (c : Client) (bytes buffer : Bytes) (f : Framer) (more : Bytes) (i : ℕ)
    → Holds c buffer f
    → Refuses ((buffer ++ bytes) ++ more) i
    → Holds (on_bytes c bytes) (buffer ++ bytes) f
unfolding with_header
step-Holds c bytes buffer f more i h r =
    let c' = record c { response_header = buffer ++ bytes } in
    let c'_Holds : Holds c' (buffer ++ bytes) f = record {
      pending = h.pending;
      held = refl;
      idle = h.idle;
    } in
    elim (Option-cases (find blank_line (buffer ++ bytes))) [
      | inl e ↦ rw (on_bytes-pending c bytes buffer none h.pending h.held e) c'_Holds
      | inr (j, e) ↦
          let same : j ≡ i =
            some_injective j i
              (sym (find-append blank_line (buffer ++ bytes) more j e) ∙ r.ended) in
          let here : find blank_line (buffer ++ bytes) ≡ some i = e ∙ ap some same in
          let long : i + 4 ≤ length (buffer ++ bytes) =
            find-length blank_line (buffer ++ bytes) i here in
          let bad : is_ok_response (take (i + 4) (buffer ++ bytes)) ≡ false =
            ap is_ok_response (sym (take-append_le (i + 4) (buffer ++ bytes) more long)) ∙ r.bad in
          rw (on_bytes-pending c bytes buffer (some i) h.pending h.held here)
            (with_header-Holds c' (buffer ++ bytes) f i c'_Holds bad)
    ]

-- However the bytes of a refused response arrive, and whatever comes behind its header before the
-- next connection, the framer is left as it was and all bytes stay in the header buffer.
pub receive-Holds :
    (c : Client) (buffer : Bytes) (f : Framer) (pieces : List Bytes) (i : ℕ)
    → Holds c buffer f
    → Refuses (buffer ++ flatten pieces) i
    → Holds (receive c pieces) (buffer ++ flatten pieces) f
unfolding receive flatten on_read
receive-Holds c buffer f [] i h r = rw (append-nil buffer) h
receive-Holds c buffer f (bytes ∷ more) i h r =
    let regroup : buffer ++ (bytes ++ flatten more) ≡ (buffer ++ bytes) ++ flatten more =
      sym (append_assoc buffer bytes (flatten more)) in
    let r' : Refuses ((buffer ++ bytes) ++ flatten more) i = rw regroup at r in
    let s = step-Holds c bytes buffer f (flatten more) i h r' in
    let (d, g, b) = read_loop-fields (on_bytes c bytes) in
    let read : Holds (on_read c (some bytes)) (buffer ++ bytes) f = record {
      pending = d ∙ s.pending;
      held = b ∙ s.held;
      idle = g ∙ s.idle;
    } in
    rw regroup (receive-Holds (on_read c (some bytes)) (buffer ++ bytes) f more i read r')
