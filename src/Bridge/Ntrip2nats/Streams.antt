-- ===== src/Bridge/Ntrip2nats/Streams.antt =====
-- The sessions that `main` of src/ntrip2nats.cpp streams with.
use rtcmbridge.Base.{
  ◌≡◌, refl, ap, ◌||◌, true, false, Option, some, List, [], ◌∷◌, ◌++◌, Bytes, codes, map, bytes_eq,
  ℕ,
}
use rtcmbridge.Ntrip.Options.{Options, NtripSource}
use rtcmbridge.Ntrip.Connection.{Connection, new_connection, connect, resolve}
use rtcmbridge.Ntrip.Api.{set_handler, consume_connection, throughput_log_every_bytes, source_text}
use rtcmbridge.Bridge.Config.{parsed}
use rtcmbridge.Bridge.Config.Ntrip2nats.{Configuration, empty_configuration, parse_configuration}
use rtcmbridge.Bridge.Publisher
use rtcmbridge.Bridge.Publisher.{StreamSession, starting, new_session, consumed}
use rtcmbridge.Bridge.Program.{running, Ended, World, ending, finish}
use rtcmbridge.Bridge.Program.Sessions.{AllOk, run-Agree}
use rtcmbridge.Bridge.Ntrip2nats.{Streaming, started, start, streaming, bridge, configured, main}

-- A new session of a source, with which nothing has been published.
abbrev pub publisher_of : Options → NtripSource → StreamSession
publisher_of options source = record {
  limit = options.throughput_log_every_bytes;
  subject = codes "NTRIP." ++ source.name;
  total = 0;
  last_log = 0;
  log = starting ∷ [];
  offered = [];
  published = [];
}

-- Its connection, which calls it and has asked for the address of the source's host.
abbrev pub connection_of : Options → NtripSource → Connection
connection_of options source = record {
  options = options;
  source = source;
  has_handler = true;
  request = [];
  response_buffer = [];
  headers_complete = false;
  delay = options.reconnect_min_sec;
  has_timer = false;
  asked = resolve source.host source.port ∷ [];
  delivered = [];
}

abbrev pub session_of : Options → NtripSource → Streaming
session_of options source = (publisher_of options source, some (connection_of options source))

start-session_of :
    (options : Options) (i : ℕ) (source : NtripSource)
    → start i (new_connection options source) ≡ running (session_of options source)
unfolding start started Publisher.start new_session consumed new_connection set_handler
    consume_connection connect throughput_log_every_bytes source_text
start-session_of options i source = refl

module _ (w : World) (file : Bytes → Option Bytes) (io_run : List Streaming → Ended) where
  -- For a path that asks for no help, whose file is accepted, and when every call of the libraries
  -- succeeds, main streams with exactly one new session for each source of the file, in order, and
  -- returns what the end of io.run() with these sessions says.
  pub main-session_of :
      (name path text : Bytes) (c : Configuration)
      → AllOk w
      → (bytes_eq path (codes "--help") || bytes_eq path (codes "-h")) ≡ false
      → file path ≡ some text
      → parse_configuration path (some text) empty_configuration ≡ parsed c
      → let o = main w file io_run (name ∷ path ∷ []) in
        let sessions = map (session_of c.options) c.ntrip_sources in
        (o.sessions ≡ sessions) × (o.code ≡ (ending (codes "Sessions stopped") (io_run sessions)).0)
  unfolding main configured bridge finish streaming
  main-session_of name path text c ok h f p =
      let agree =
        run-Agree w ok c.options start (streaming w file io_run) (session_of c.options)
          (start-session_of c.options) c.nats_destinations c.ntrip_sources in
      simp (h, f, p) (agree.0, ap (λ ended. (ending (codes "Sessions stopped") ended).0) agree.1)
