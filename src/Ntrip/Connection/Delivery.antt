-- ===== src/Ntrip/Connection/Delivery.antt =====
-- What `handle_stream_bytes` hands to the consumer, however the response arrives.
use mathlib.Core.List.{flatten}
use rtcmbridge.Base.{
  ℕ, suc, ◌+◌, ◌≤◌, ◌≡◌, refl, sym, ap, ◌∙◌, true, false, Option, none, some, ◌≢◌, List, [], ◌∷◌,
  ◌++◌, arith, ◌==◌, ltb, if◌then◌else◌, Bytes, length, take, drop, Bool-cases, Option-cases,
  drop_all, inl, inr, append_assoc, append-nil, take-append_le, drop-append_le, ltb_false→le,
}
use rtcmbridge.Base.Text.{find, find-length, find-append}
use rtcmbridge.Ntrip.Connection.{
  Connection, consume, blank_line, response_ok, handle_headers, handle_stream_bytes, on_read,
  read_more,
}
use rtcmbridge.Ntrip.Connection.Streaming.{
  receive, delivered_bytes, Streams, read_more-Streams, consume-Streams, handle-nil, Streams-trans,
  receive-Streams,
}

-- A connection that waits for the end of the headers.
pub record Waits (c : Connection) : Type 0 where
  pub handler : c.has_handler ≡ true
  pub incomplete : c.headers_complete ≡ false
  pub unended : find blank_line c.response_buffer ≡ none

-- The headers of `whole` end at `i`, and the response is good.
pub record Accepts (whole : Bytes) (i : ℕ) : Type 0 where
  pub ended : find blank_line whole ≡ some i
  pub good : response_ok (take (i + 4) whole) ≡ true

handle_headers-good :
    (c : Connection) (i : ℕ)
    → response_ok (take (i + 4) c.response_buffer) ≡ true
    → handle_headers c i ≡ (
        let ready = record c { headers_complete = true } in
        let fed =
          if ltb (i + 4) (length c.response_buffer)
          then consume ready (drop (i + 4) c.response_buffer)
          else ready in
        record fed { response_buffer = [] })
unfolding handle_headers
handle_headers-good c i h = simp h

-- At the end of the headers what is left of the buffer goes to the consumer.
handle_headers-Streams :
    (c : Connection) (i : ℕ)
    → c.has_handler ≡ true
    → Accepts c.response_buffer i
    → Streams c (handle_headers c i) (drop (i + 4) c.response_buffer)
handle_headers-Streams c i h a =
    rw (handle_headers-good c i a.good)
      (elim (Bool-cases (ltb (i + 4) (length c.response_buffer))) [
        | inl more ↦
            let ready = record c { headers_complete = true } in
            let s = consume-Streams ready (drop (i + 4) c.response_buffer) h refl in
            rw more (record {
              handler = s.handler;
              complete = s.complete;
              given = s.given;
              same_delay = s.same_delay;
            })
        | inr nothing ↦
            let empty : drop (i + 4) c.response_buffer ≡ [] =
              drop_all (i + 4) c.response_buffer (ltb_false→le _ _ nothing) in
            rw (nothing, empty)
              (record {
                handler = h;
                complete = refl;
                given = sym (append-nil (delivered_bytes c));
                same_delay = refl;
              })
      ])

pub handle-incomplete :
    (c : Connection) (b : ℕ) (bytes : Bytes) (found : Option ℕ)
    → c.headers_complete ≡ false
    → find blank_line (c.response_buffer ++ (b ∷ bytes)) ≡ found
    → handle_stream_bytes c (b ∷ bytes) ≡ elim found [
      | none ↦ record c { response_buffer = c.response_buffer ++ (b ∷ bytes) }
      | some i ↦ handle_headers (record c { response_buffer = c.response_buffer ++ (b ∷ bytes) }) i
    ]
unfolding handle_stream_bytes
handle-incomplete c b bytes found k e =
    let some_bytes : (suc (length bytes) == 0) ≡ false = ground arith in simp (some_bytes, k, e)

some_injective : (i j : ℕ) → ◌≡◌ {A = Option ℕ} (some i) (some j) → i ≡ j
some_injective i j e = cc

none≢some : (i : ℕ) → ◌≢◌ {A = Option ℕ} none (some i)
none≢some i e = cc

read_more-Waits : (c : Connection) → Waits c → Waits (read_more c)
unfolding read_more
read_more-Waits c w = record { handler = w.handler; incomplete = w.incomplete; unended = w.unended }

read_more-Accepts :
    (c : Connection) (bytes : Bytes) (i : ℕ)
    → Accepts (c.response_buffer ++ bytes) i
    → Accepts ((read_more c).response_buffer ++ bytes) i
unfolding read_more
read_more-Accepts c bytes i a = a

read_more-before :
    (c d : Connection) (bytes : Bytes) → Streams (read_more c) d bytes → Streams c d bytes
unfolding read_more
read_more-before c d bytes s = record {
  handler = s.handler;
  complete = s.complete;
  given = s.given;
  same_delay = s.same_delay;
}

buffered :
    (c : Connection) (buffer : Bytes) (d : Connection) (bytes : Bytes)
    → Streams (record c { response_buffer = buffer }) d bytes
    → Streams c d bytes
buffered c buffer d bytes s = record {
  handler = s.handler;
  complete = s.complete;
  given = s.given;
  same_delay = s.same_delay;
}

-- However the bytes of an accepted response arrive, once they are all there the consumer has been
-- given the bytes behind the headers, in order and nothing else, and no reconnection was asked for.
pub receive-Accepts :
    (c : Connection) (pieces : List Bytes) (i : ℕ)
    → Waits c
    → Accepts (c.response_buffer ++ flatten pieces) i
    → Streams c (receive c pieces) (drop (i + 4) (c.response_buffer ++ flatten pieces))
unfolding receive flatten on_read
receive-Accepts c [] i w a =
    let ended : find blank_line c.response_buffer ≡ some i =
      rw (append-nil c.response_buffer) at a.ended in
    absurd (none≢some i (sym w.unended ∙ ended))
receive-Accepts c ([] ∷ more) i w a =
    let same : handle_stream_bytes c [] ≡ c = handle-nil c in
    rw same (
      let s =
        receive-Accepts (read_more c) more i (read_more-Waits c w)
          (read_more-Accepts c (flatten more) i a) in
      read_more-before c (receive (read_more c) more)
        (drop (i + 4) (c.response_buffer ++ flatten more)) s)
receive-Accepts c ((b ∷ bytes) ∷ more) i w a =
    let piece = b ∷ bytes in
    let buffer = c.response_buffer ++ piece in
    let c' = record c { response_buffer = buffer } in
    let regroup : c.response_buffer ++ (piece ++ flatten more) ≡ buffer ++ flatten more =
      sym (append_assoc c.response_buffer piece (flatten more)) in
    let a' : Accepts (buffer ++ flatten more) i = rw regroup at a in
    elim (Option-cases (find blank_line buffer)) [
      | inl e ↦
          let w' : Waits c' = record {
            handler = w.handler;
            incomplete = w.incomplete;
            unended = e;
          } in
          let s =
            receive-Accepts (read_more c') more i (read_more-Waits c' w')
              (read_more-Accepts c' (flatten more) i a') in
          rw (handle-incomplete c b bytes none w.incomplete e, regroup)
            (buffered c buffer (receive (read_more c') more) _
              (read_more-before c' (receive (read_more c') more) _ s))
      | inr (j, e) ↦
          let same : j ≡ i =
            some_injective j i
              (sym (find-append blank_line buffer (flatten more) j e) ∙ a'.ended) in
          let at : find blank_line buffer ≡ some i = e ∙ ap some same in
          let long : i + 4 ≤ length buffer = find-length blank_line buffer i at in
          let headers : take (i + 4) (buffer ++ flatten more) ≡ take (i + 4) buffer =
            take-append_le (i + 4) buffer (flatten more) long in
          let done = read_more-Streams c' (handle_headers c' i) (drop (i + 4) buffer) (
            handle_headers-Streams c' i w.handler
              (record { ended = at; good = rw headers at a'.good })) in
          let rest =
            receive-Streams (read_more (handle_headers c' i)) more done.handler done.complete in
          rw
            (
              handle-incomplete c b bytes (some i) w.incomplete at,
              regroup,
              drop-append_le (i + 4) buffer (flatten more) long,
            )
            (buffered c buffer (receive (read_more (handle_headers c' i)) more) _ (
              Streams-trans c' (read_more (handle_headers c' i)) _ (drop (i + 4) buffer)
                (flatten more) done rest))
    ]
