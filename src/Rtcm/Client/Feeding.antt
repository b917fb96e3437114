-- ===== src/Rtcm/Client/Feeding.antt =====
-- What `NtripDecoderClient` of src/rtcm_decoder_ntrip.cpp feeds its framer, however the response
-- arrives.
use mathlib.Core.List.{flatten}
use rtcmbridge.Base.{
  ℕ, ◌+◌, ◌≤◌, ◌≡◌, ◌≢◌, refl, sym, ap, ◌∙◌, true, false, Option, none, some, List, [], ◌∷◌, ◌++◌,
  ltb, Bytes, length, take, drop, Bool-cases, Option-cases, drop_all, inl, inr, append_assoc,
  append-nil, take-append_le, drop-append_le, ltb_false→le, All-append, All-drop,
}
use rtcmbridge.Base.Text.{find, find-length, find-append}
use rtcmbridge.Ntrip.Connection.{blank_line}
use rtcmbridge.Rtcm.Crc.Residue.{IsBytes}
use rtcmbridge.Rtcm.Framer.{Framer, push}
use rtcmbridge.Rtcm.Framer.Split.{
  IsSettled, push-nil, push-append, push-IsSettled, Pieces, IsBytes-flatten,
}
use rtcmbridge.Rtcm.Client.{Client, read_loop, is_ok_response, with_header, on_bytes, on_read}

-- The reads that succeed, one after the other.
unfoldable pub receive : Client → List Bytes → Client
receive c [] = c
receive c (bytes ∷ more) = receive (on_read c (some bytes)) more

-- Past the header `bytes` were pushed.
pub record Feeds (framer : Framer) (bytes : Bytes) (d : Client) : Type 0 where
  pub done : d.header_done ≡ true
  pub fed : d.framer ≡ push framer bytes

pub read_loop-fields :
    (c : Client)
    → ((read_loop c).header_done ≡ c.header_done)
      × ((read_loop c).framer ≡ c.framer)
      × ((read_loop c).response_header ≡ c.response_header)
unfolding read_loop
read_loop-fields c = elim (Bool-cases c.running) [
  | inl e ↦ simp e (refl, refl, refl)
  | inr e ↦ simp e (refl, refl, refl)
]

streaming_step :
    (c : Client) (bytes : Bytes)
    → c.header_done ≡ true
    → ((on_read c (some bytes)).header_done ≡ true)
      × ((on_read c (some bytes)).framer ≡ push c.framer bytes)
unfolding on_read
streaming_step c bytes h =
    let (d, f, b) = read_loop-fields (on_bytes c bytes) in
    let pushed : on_bytes c bytes ≡ record c { framer = push c.framer bytes } =
      unfold on_bytes in simp h in
    (d ∙ ap (λ (x : Client). x.header_done) pushed ∙ h, f ∙ ap (λ (x : Client). x.framer) pushed)

-- Past the header every read is pushed.
streaming :
    (c : Client) (f : Framer) (pieces : List Bytes)
    → c.header_done ≡ true
    → c.framer ≡ f
    → IsSettled f
    → Pieces pieces
    → Feeds f (flatten pieces) (receive c pieces)
unfolding receive flatten
streaming c f [] h e s p = record { done = h; fed = e ∙ sym (push-nil f) }
streaming c f (bytes ∷ more) h e s p =
    let (d, g) = streaming_step c bytes h in
    let rest =
      streaming (on_read c (some bytes)) (push f bytes) more d
        (g ∙ ap (λ (x : Framer). push x bytes) e) (push-IsSettled f bytes s p.0) p.1 in
    record {
      done = rest.done;
      fed = rest.fed ∙ push-append f bytes (flatten more) s p.0 (IsBytes-flatten more p.1);
    }

-- The bytes of a header that have come so far do not end it.
pub record Waits (c : Client) (buffer : Bytes) (f : Framer) : Type 0 where
  pub pending : c.header_done ≡ false
  pub held : c.response_header ≡ buffer
  pub unended : find blank_line buffer ≡ none
  pub idle : c.framer ≡ f

-- The header of `whole` ends at `i`, and the response is good.
pub record Accepts (whole : Bytes) (i : ℕ) : Type 0 where
  pub ended : find blank_line whole ≡ some i
  pub good : is_ok_response (take (i + 4) whole) ≡ true

pub on_bytes-pending :
    (c : Client) (bytes buffer : Bytes) (found : Option ℕ)
    → c.header_done ≡ false
    → c.response_header ≡ buffer
    → find blank_line (buffer ++ bytes) ≡ found
    → on_bytes c bytes ≡ with_header (record c { response_header = buffer ++ bytes }) found
unfolding on_bytes
on_bytes-pending c bytes buffer found h k e = simp (h, k, e)

with_header-good :
    (c : Client) (i : ℕ)
    → is_ok_response (take (i + 4) c.response_header) ≡ true
    → ((with_header c (some i)).header_done ≡ true)
      × ((with_header c (some i)).framer ≡ push c.framer (drop (i + 4) c.response_header))
unfolding with_header
with_header-good c i good = elim (Bool-cases (ltb (i + 4) (length c.response_header))) [
  | inl more ↦ simp (good, more) (refl, refl)
  | inr nothing ↦
      let empty : drop (i + 4) c.response_header ≡ [] =
        drop_all (i + 4) c.response_header (ltb_false→le _ _ nothing) in
      simp (good, nothing, empty) (refl, sym (push-nil c.framer))
]

pending_step :
    (c : Client) (bytes buffer : Bytes) (f : Framer)
    → Waits c buffer f
    → find blank_line (buffer ++ bytes) ≡ none
    → Waits (on_read c (some bytes)) (buffer ++ bytes) f
unfolding on_read with_header
pending_step c bytes buffer f w e =
    let (d, g, b) = read_loop-fields (on_bytes c bytes) in
    let kept = on_bytes-pending c bytes buffer none w.pending w.held e in
    record {
      pending = d ∙ ap (λ (x : Client). x.header_done) kept ∙ w.pending;
      held = b ∙ ap (λ (x : Client). x.response_header) kept;
      unended = e;
      idle = g ∙ ap (λ (x : Client). x.framer) kept ∙ w.idle;
    }

ended_step :
    (c : Client) (bytes buffer : Bytes) (f : Framer) (i : ℕ)
    → Waits c buffer f
    → Accepts (buffer ++ bytes) i
    → ((on_read c (some bytes)).header_done ≡ true)
      × ((on_read c (some bytes)).framer ≡ push f (drop (i + 4) (buffer ++ bytes)))
unfolding on_read
ended_step c bytes buffer f i w a =
    let c' = record c { response_header = buffer ++ bytes } in
    let (d, g, _) = read_loop-fields (on_bytes c bytes) in
    let kept = on_bytes-pending c bytes buffer (some i) w.pending w.held a.ended in
    let (opened, fed) = with_header-good c' i a.good in
    (
      d ∙ ap (λ (x : Client). x.header_done) kept ∙ opened,
      g
          ∙ ap (λ (x : Client). x.framer) kept
          ∙ fed
          ∙ ap (λ (x : Framer). push x (drop (i + 4) (buffer ++ bytes))) w.idle,
    )

none≢some : (i : ℕ) → ◌≢◌ {A = Option ℕ} none (some i)
none≢some i e = cc

pub some_injective : (i j : ℕ) → ◌≡◌ {A = Option ℕ} (some i) (some j) → i ≡ j
some_injective i j e = cc

-- The read that ends the header, and those behind it.
after_header :
    (c : Client) (bytes buffer : Bytes) (f : Framer) (more : List Bytes) (i : ℕ)
    → Waits c buffer f
    → find blank_line (buffer ++ bytes) ≡ some i
    → i + 4 ≤ length (buffer ++ bytes)
    → Accepts ((buffer ++ bytes) ++ flatten more) i
    → IsSettled f
    → IsBytes (buffer ++ bytes)
    → Pieces more
    → Feeds f
        (drop (i + 4) ((buffer ++ bytes) ++ flatten more))
        (receive (on_read c (some bytes)) more)
after_header c bytes buffer f more i w here long a s b p =
    let whole = buffer ++ bytes in
    let good : is_ok_response (take (i + 4) whole) ≡ true =
      ap is_ok_response (sym (take-append_le (i + 4) whole (flatten more) long)) ∙ a.good in
    let (opened, fed) = ended_step c bytes buffer f i w record { ended = here; good = good } in
    let first = drop (i + 4) whole in
    let first_bytes : IsBytes first = All-drop _ (i + 4) whole b in
    let rest =
      streaming (on_read c (some bytes)) (push f first) more opened fed
        (push-IsSettled f first s first_bytes) p in
    record {
      done = rest.done;
      fed =
          rest.fed
          ∙ push-append f first (flatten more) s first_bytes (IsBytes-flatten more p)
          ∙ ap (push f) (sym (drop-append_le (i + 4) whole (flatten more) long));
    }

-- However the bytes of an accepted response arrive, once they are all there the framer is as if the
-- bytes behind the header had been pushed to it at once.
pub receive-Feeds :
    (c : Client) (buffer : Bytes) (f : Framer) (pieces : List Bytes) (i : ℕ)
    → Waits c buffer f
    → Accepts (buffer ++ flatten pieces) i
    → IsSettled f
    → IsBytes buffer
    → Pieces pieces
    → Feeds f (drop (i + 4) (buffer ++ flatten pieces)) (receive c pieces)
unfolding receive flatten
receive-Feeds c buffer f [] i w a s b p =
    let ended : find blank_line buffer ≡ some i = rw (append-nil buffer) at a.ended in
    absurd (none≢some i (sym w.unended ∙ ended))
receive-Feeds c buffer f (bytes ∷ more) i w a s b p =
    let regroup : buffer ++ (bytes ++ flatten more) ≡ (buffer ++ bytes) ++ flatten more =
      sym (append_assoc buffer bytes (flatten more)) in
    let a' : Accepts ((buffer ++ bytes) ++ flatten more) i = rw regroup at a in
    elim (Option-cases (find blank_line (buffer ++ bytes))) [
      | inl e ↦ rw regroup (
          receive-Feeds (on_read c (some bytes)) (buffer ++ bytes) f more i
            (pending_step c bytes buffer f w e) a' s (All-append _ buffer bytes b p.0) p.1)
      | inr (j, e) ↦
          let same : j ≡ i =
            some_injective j i
              (sym (find-append blank_line (buffer ++ bytes) (flatten more) j e) ∙ a'.ended) in
          let here : find blank_line (buffer ++ bytes) ≡ some i = e ∙ ap some same in
          let long : i + 4 ≤ length (buffer ++ bytes) =
            find-length blank_line (buffer ++ bytes) i here in
          rw regroup (
            after_header c bytes buffer f more i w here long a' s (All-append _ buffer bytes b p.0)
              p.1)
    ]
