-- ===== src/Tests/Publishing.antt =====
-- `StreamSession` of src/ntrip2nats.cpp and the functions it calls, on concrete inputs.
use mathlib.Core.List.{flatten}
use rtcmbridge.Base.{ℕ, zero, suc, ◌≡◌, refl, some, none, true, List, [], ◌∷◌, Bytes, Option, codes}
use rtcmbridge.Base.Text.{find}
use rtcmbridge.Ntrip.Options.{create_options, default_options, ntrip_err}
use rtcmbridge.Ntrip.Connection.{response_ok, crlf}
use rtcmbridge.Ntrip.Connection.Delivery.{Accepts}
use rtcmbridge.Ntrip.Connection.Streaming.{receive}
use rtcmbridge.Ntrip.Api.{create_connection, create_from}
use rtcmbridge.Ntrip.Connection.{base64}
use rtcmbridge.Ntrip.Options.{NtripSource}
use rtcmbridge.Bridge.Ntrip2nats.Streams.{publisher_of, connection_of}
use rtcmbridge.Bridge.Ntrip2nats.Publishes.{established, session-publishes}
use rtcmbridge.Bridge.Publisher.Published.{handle_all, succeeding}

-- A connection needs the asio context.
no_context : (create_connection (some create_options) true).0 ≡ ntrip_err
unfolding create_connection create_from create_options
no_context = refl

abbrev caster : NtripSource
caster = record {
  user = codes "u";
  pass = codes "p";
  host = codes "h";
  name = codes "M";
  port = 2101;
}

abbrev reads : List Bytes
reads = codes "ICY 200 OK\r\n\r" ∷ codes "\nab" ∷ codes "c" ∷ []

abbrev reads-Accepts : Accepts (codes "ICY 200 OK\r\n\r\nabc") 10
unfolding find response_ok crlf
reads-Accepts = record { ended = refl; good = refl }

-- The first publication fails, the others succeed.
abbrev first_fails : ℕ → Option Bytes
first_fails zero = some (codes "Timeout")
first_fails (suc n) = none

abbrev encode_block : Bytes → Option Bytes
encode_block bytes = some (codes "dTpw")

session-publishes_example :
    let c = receive (established encode_block (connection_of default_options caster)) reads in
    let t = handle_all first_fails (publisher_of default_options caster) c.delivered in
    (t.offered ≡ c.delivered)
    × (flatten t.offered ≡ codes "abc")
    × (t.published ≡ succeeding first_fails t.offered)
    × (t.subject ≡ codes "NTRIP.M")
unfolding flatten
session-publishes_example =
    session-publishes encode_block first_fails default_options caster reads 10
      (unfold base64 in refl) reads-Accepts
