-- ===== src/Ntrip/Connection/Refused.antt =====
-- A refused response, src/ntrip.cpp.
use rtcmbridge.Base.{ℕ, ◌+◌, ◌*◌, min, ◌≡◌, refl, ◌∙◌, false, some, [], ◌∷◌, ◌++◌, Bytes, take}
use rtcmbridge.Base.Text.{find}
use rtcmbridge.Ntrip.Connection.Delivery.{handle-incomplete}
use rtcmbridge.Ntrip.Connection.{
  Connection, success, error, reconnect, on_read, handle_stream_bytes, handle_headers, response_ok,
  blank_line, read_more,
}

handle_headers-bad :
    (c : Connection) (i : ℕ)
    → response_ok (take (i + 4) c.response_buffer) ≡ false
    → handle_headers c i ≡ reconnect c
unfolding handle_headers
handle_headers-bad c i h = simp h

-- The delay that two reconnections in a row leave.
abbrev pub doubled_twice : Connection → ℕ
doubled_twice c =
    min (min (c.delay * 2) c.options.reconnect_max_sec * 2) c.options.reconnect_max_sec

-- A response that is refused arms the timer and then asks for one more read, of the socket that was
-- just closed. When that read fails, the connection reconnects again: one refusal doubles the delay
-- twice.
pub rejected_twice :
    (c : Connection) (b : ℕ) (bytes : Bytes) (i : ℕ)
    → c.headers_complete ≡ false
    → find blank_line (c.response_buffer ++ (b ∷ bytes)) ≡ some i
    → response_ok (take (i + 4) (c.response_buffer ++ (b ∷ bytes))) ≡ false
    → let refused = record c { response_buffer = c.response_buffer ++ (b ∷ bytes) } in
      (on_read c success (b ∷ bytes) ≡ read_more (reconnect refused))
      × ((on_read (on_read c success (b ∷ bytes)) error []).delay ≡ doubled_twice c)
unfolding on_read
rejected_twice c b bytes i k e bad =
    let refused = record c { response_buffer = c.response_buffer ++ (b ∷ bytes) } in
    let read_it : handle_stream_bytes c (b ∷ bytes) ≡ reconnect refused =
      handle-incomplete c b bytes (some i) k e ∙ handle_headers-bad refused i bad in
    (rw read_it, rw read_it (unfold read_more reconnect in refl))
