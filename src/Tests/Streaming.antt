-- ===== src/Tests/Streaming.antt =====
-- `ntripConnection` of src/ntrip.cpp on concrete responses.
use mathlib.Core.List.{flatten}
use rtcmbridge.Base.{◌≤◌, ◌≡◌, refl, true, some, List, [], ◌∷◌, arith, Bytes, Option, codes}
use rtcmbridge.Base.Text.{find}
use rtcmbridge.Ntrip.Options.{default_options, NtripSource}
use rtcmbridge.Ntrip.Connection.{
  Connection, new_connection, response_ok, on_read, read_more, reconnect, success, error, crlf,
}
use rtcmbridge.Ntrip.Connection.Streaming.{receive, Streams}
use rtcmbridge.Ntrip.Connection.Delivery.{Waits, Accepts, receive-Accepts}
use rtcmbridge.Ntrip.Connection.Backoff.{run, run-delay, connected, resolved}
use rtcmbridge.Ntrip.Connection.Refused.{rejected_twice}

abbrev caster : NtripSource
caster = record {
  user = codes "u";
  pass = codes "p";
  host = codes "h";
  name = codes "m";
  port = 2101;
}

-- A connection with a data handler.
abbrev listening : Connection
unfolding new_connection
listening = record (new_connection default_options caster) { has_handler = true }

abbrev pieces : List Bytes
pieces = codes "ICY 200 OK\r\n" ∷ codes "\r\nab" ∷ codes "c" ∷ []

abbrev listening-Waits : Waits listening
unfolding listening new_connection find
listening-Waits = record { handler = refl; incomplete = refl; unended = refl }

abbrev pieces-Accepts : Accepts (codes "ICY 200 OK\r\n\r\nabc") 10
unfolding find response_ok crlf
pieces-Accepts = record { ended = refl; good = refl }

receive-Accepts_example : Streams listening (receive listening pieces) (codes "abc")
unfolding listening flatten
receive-Accepts_example = receive-Accepts listening pieces 10 listening-Waits pieces-Accepts

abbrev no_base64 : Bytes → Option Bytes
no_base64 bytes = some []

run-delay_example :
    let c =
      run no_base64
        (new_connection default_options caster)
        (resolved error ∷ connected success ∷ []) in
    (2 ≤ c.delay) × (c.delay ≤ 32) × (c.delay ≤ (run no_base64 c (connected error ∷ [])).delay)
run-delay_example =
    run-delay no_base64 default_options caster (resolved error ∷ connected success ∷ [])
      (connected error ∷ []) (omega arith)

abbrev refusal : Bytes
refusal = codes "NTRIP 401\r\n\r\n"

rejected_twice_example :
    let refused = record listening { response_buffer = refusal } in
    (on_read listening success refusal ≡ read_more (reconnect refused))
    × ((on_read (on_read listening success refusal) error []).delay ≡ 8)
unfolding listening
rejected_twice_example =
    rejected_twice listening 78 (codes "TRIP 401\r\n\r\n") 9 refl (unfold find in refl)
      (unfold find response_ok crlf in refl)
