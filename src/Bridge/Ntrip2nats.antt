-- ===== src/Bridge/Ntrip2nats.antt =====
-- `main` of src/ntrip2nats.cpp: the command line, the configuration file, and a publisher for each
-- source of it.
pub mod Streams
pub mod Publishes
use rtcmbridge.Base.{
  ◌||◌, Option, some, List, [], ◌∷◌, ◌++◌, Bytes, codes, bytes_eq, if◌then◌else◌, ℕ,
}
use rtcmbridge.Logger.{Entry, error}
use rtcmbridge.Ntrip.Connection.{Connection}
use rtcmbridge.Bridge.Config.{Result, refused, parsed}
use rtcmbridge.Bridge.Config.Ntrip2nats.{Configuration, empty_configuration, parse_configuration}
use rtcmbridge.Bridge.Publisher
use rtcmbridge.Bridge.Publisher.{StreamSession, new_session}
use rtcmbridge.Bridge.Program.{
  Ended, Started, running, failed, Run, World, Outcome, wait, run, finish, told, refused_with,
  main_error, program_name,
}

-- A session with the connection that calls it.
abbrev pub Streaming : Type 0
Streaming = StreamSession × Option Connection

unfoldable pub started : Publisher.Started → Started Streaming
started (Publisher.running s c) = running (s, c)
started (Publisher.thrown text) = failed text

unfoldable pub start : ℕ → Connection → Started Streaming
start i c = started (Publisher.start (new_session c) (some c))

unfoldable pub help : Bytes → Bytes
help prog =
    codes "ntrip2nats - NTRIP to NATS bridge\n\n"
    ++ codes "Usage:\n"
    ++ codes "  "
    ++ prog
    ++ codes " <config-file>\n"
    ++ codes "  "
    ++ prog
    ++ codes " --help\n\n"
    ++ codes "Arguments:\n"
    ++ codes "  <config-file>   Path to configuration file (e.g. ntrip2nats.conf)\n\n"
    ++ codes "Required config format:\n"
    ++ codes "  [options]\n"
    ++ codes "    read_buffer_bytes=<positive integer>\n"
    ++ codes "    reconnect_min_sec=<positive integer>\n"
    ++ codes "    reconnect_max_sec=<positive integer>\n"
    ++ codes "    throughput_log_kb=<positive integer>\n"
    ++ codes "  [nats_destinations]\n"
    ++ codes "    <nats_url>\n"
    ++ codes "    Format: nats://<host>:<port>\n"
    ++ codes "  [ntrip_sources]\n"
    ++ codes "    <user>:<pass> <host>:<port>/<mountpoint>\n"
    ++ codes "Notes:\n"
    ++ codes "  - Subject prefix is fixed to: NTRIP.\n"
    ++ codes "  - User-Agent is fixed to: NTRIP-CppBridge\n"

abbrev pub config_error : Bytes → Entry
config_error text = record { level = error; context = codes "configuration"; message = text }

unfoldable pub usage : Bytes → List Entry
usage prog =
    main_error (codes "Usage: " ++ prog ++ codes " <config-file>")
    ∷ main_error (codes "Use --help to see full documentation.")
    ∷ []

-- `file` is what can be read at a path, `io_run` how `io.run()` ends with those sessions.
module _ (w : World) (file : Bytes → Option Bytes) (io_run : List Streaming → Ended) where
  unfoldable pub streaming : List Streaming → Run Streaming
  streaming sessions = record { calls = wait ∷ []; sessions = sessions; ended = io_run sessions }

  unfoldable pub bridge : Configuration → Outcome Streaming
  bridge c =
      finish (codes "Sessions stopped")
        (run w c.options start streaming c.nats_destinations c.ntrip_sources)

  unfoldable pub configured : Result Configuration → Outcome Streaming
  configured (refused text) = refused_with (config_error text ∷ [])
  configured (parsed c) = bridge c

  -- `argv`, with the program's name.
  unfoldable pub main : List Bytes → Outcome Streaming
  main (name ∷ path ∷ []) =
      if bytes_eq path (codes "--help") || bytes_eq path (codes "-h")
      then told (help (program_name (codes "ntrip2nats") (name ∷ [])) ∷ [])
      else configured (parse_configuration path (file path) empty_configuration)
  main argv = refused_with (usage (program_name (codes "ntrip2nats") argv))
