-- ===== src/Bridge/Publisher.antt =====
-- `StreamSession` of src/ntrip2nats.cpp: what a connection delivers is published on NATS.
pub mod Published
use rtcmbridge.Base.{
  ◌/◌, Option, none, some, List, [], ◌∷◌, ◌++◌, Bytes, codes, length, leb, if◌then◌else◌, ℕ,
}
use rtcmbridge.Base.Int.{ℤ}
use rtcmbridge.Ntrip.Options.{Status, ntrip_ok, ntrip_err}
use rtcmbridge.Ntrip.Connection.{Connection}
use rtcmbridge.Ntrip.Api.{
  set_handler, consume_connection, status_text, source_text, throughput_log_every_bytes,
}
use rtcmbridge.Bridge.Session.{to_u64, add64, sub64}

-- What the session logs; a number is the one that the text shows.
pub data Line : Type 0 where
  starting : Line
  streamed : ℕ → Line
  publish_failed : Bytes → Line

-- `limit` is what ntripOptions_GetThroughputLogEveryBytes returns for the connection, which does not
-- change. `offered` is what natsConnection_Publish has been called with, `published` that of these calls
-- for which it has returned NATS_OK.
pub record StreamSession : Type 0 where
  pub limit : ℤ
  pub subject : Bytes
  pub total : ℕ
  pub last_log : ℕ
  pub log : List Line
  pub offered : List Bytes
  pub published : List Bytes

-- The constructor.
unfoldable pub new_session : Connection → StreamSession
new_session c = record {
  limit = throughput_log_every_bytes (some c);
  subject = codes "NTRIP." ++ source_text c;
  total = 0;
  last_log = 0;
  log = [];
  offered = [];
  published = [];
}

abbrev pub logged : StreamSession → Line → StreamSession
logged s line = record s { log = s.log ++ (line ∷ []) }

unfoldable pub log_throughput : StreamSession → StreamSession
log_throughput s =
    if leb (to_u64 s.limit) (sub64 s.total s.last_log)
    then record (logged s (streamed (s.total / 1024))) { last_log = s.total }
    else s

-- natsConnection_Publish and what is done with its status: `none` for NATS_OK, else its text.
unfoldable pub publish : StreamSession → Bytes → Option Bytes → StreamSession
publish s bytes none = record s {
  offered = s.offered ++ (bytes ∷ []);
  published = s.published ++ (bytes ∷ []);
}
publish s bytes (some text) =
    logged (record s { offered = s.offered ++ (bytes ∷ []) }) (publish_failed text)

unfoldable pub handle_stream : StreamSession → Bytes → Option Bytes → StreamSession
handle_stream s bytes status =
    publish (log_throughput (record s { total = add64 s.total (length bytes) })) bytes status

-- How `start` ends: with the session and the connection, or with an exception.
pub data Started : Type 0 where
  running : StreamSession → Option Connection → Started
  thrown : Bytes → Started

unfoldable pub consumed : StreamSession → Status × Option Connection → Started
consumed s (ntrip_ok, c) = running s c
consumed s (ntrip_err, c) = thrown (codes "Consuming from NTRIP failed: " ++ status_text ntrip_err)

unfoldable pub start : StreamSession → Option Connection → Started
start s c = consumed (logged s starting) (consume_connection (set_handler c).1)
