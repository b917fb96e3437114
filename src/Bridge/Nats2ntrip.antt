-- ===== src/Bridge/Nats2ntrip.antt =====
-- `main` of src/nats2ntrip.cpp: the command line, the configuration file, a session for each mountpoint
-- of it, and the subscription of a session.
pub mod Feeds
pub mod Signal
use rtcmbridge.Base.{
  ◌||◌, Option, none, some, List, [], ◌∷◌, ◌++◌, Bytes, codes, bytes_eq, if◌then◌else◌, ℕ,
}
use rtcmbridge.Ntrip.Options.{NtripSource}
use rtcmbridge.Ntrip.Connection.{Connection}
use rtcmbridge.Bridge.Config.{Result, refused, parsed}
use rtcmbridge.Bridge.Config.Nats2ntrip.{Configuration, empty_configuration, parse_configuration}
use rtcmbridge.Bridge.Session.{new_session}
use rtcmbridge.Bridge.Session.Worker
use rtcmbridge.Bridge.Session.Worker.{Worker}
use rtcmbridge.Bridge.Program.{
  NatsStatus, returned, Started, running, failed, Run, World, Outcome, wait, clear_sessions, run,
  finish, told, refused_with, program_name,
}
use rtcmbridge.Bridge.Ntrip2nats.{config_error, usage}

-- `start`: the worker starts when the subscription has been made.
unfoldable pub subscribed : Bytes → Worker → NatsStatus → Started Worker
subscribed subject worker none = running worker
subscribed subject worker (some text) =
    failed (codes "Subscribe failed on " ++ subject ++ codes ": " ++ text)

-- The session of one mountpoint. `hash` is std::hash.
unfoldable pub start : (Bytes → ℕ) → (ℕ → NatsStatus) → ℕ → Connection → Started Worker
start hash status i c =
    let s = new_session hash c.options c.source in subscribed s.subject (Worker.start s) (status i)

unfoldable pub destinations : NtripSource → List Bytes → List NtripSource
destinations d [] = []
destinations d (mountpoint ∷ more) = record d { name = mountpoint } ∷ destinations d more

unfoldable pub help : Bytes → Bytes
help prog =
    codes "nats2ntrip - NATS to NTRIP bridge\n\n"
    ++ codes "Usage:\n"
    ++ codes "  "
    ++ prog
    ++ codes " <config-file>\n"
    ++ codes "  "
    ++ prog
    ++ codes " --help\n\n"
    ++ codes "Arguments:\n"
    ++ codes "  <config-file>   Path to configuration file (e.g. nats2ntrip.conf)\n\n"
    ++ codes "Required config format:\n"
    ++ codes "  [options]\n"
    ++ codes "    read_buffer_bytes=<positive integer>\n"
    ++ codes "    reconnect_min_sec=<positive integer>\n"
    ++ codes "    reconnect_max_sec=<positive integer>\n"
    ++ codes "    throughput_log_kb=<positive integer>\n"
    ++ codes "  [nats_sources]\n"
    ++ codes "    <nats_url>\n"
    ++ codes "    Format: nats://<host>:<port>\n"
    ++ codes "  [nats_mountpoints]\n"
    ++ codes "    <mountpoint>\n"
    ++ codes "  [ntrip_destinations]\n"
    ++ codes "    <user>:<pass> <host>:<port>\n"
    ++ codes "Notes:\n"
    ++ codes "  - Subscription subject is fixed to: NTRIP.<mountpoint>\n"
    ++ codes "  - User-Agent is fixed to: NTRIP-CppBridge\n"

-- `file` is what can be read at a path, `status` what natsConnection_Subscribe returns for the session
-- with a number. The wait ends with the signal.
module _ (w : World) (file : Bytes → Option Bytes) (hash : Bytes → ℕ)
    (status : ℕ → NatsStatus) where
  unfoldable pub waiting : List Worker → Run Worker
  waiting sessions = record {
    calls = wait ∷ clear_sessions ∷ [];
    sessions = sessions;
    ended = returned;
  }

  unfoldable pub bridge : Configuration → Outcome Worker
  bridge c = finish (codes "Stopping sessions") (
      run w c.options (start hash status) waiting c.nats_sources
        (destinations c.ntrip_destination c.nats_mountpoints))

  unfoldable pub configured : Result Configuration → Outcome Worker
  configured (refused text) = refused_with (config_error text ∷ [])
  configured (parsed c) = bridge c

  -- `argv`, with the program's name.
  unfoldable pub main : List Bytes → Outcome Worker
  main (name ∷ path ∷ []) =
      if bytes_eq path (codes "--help") || bytes_eq path (codes "-h")
      then told (help (program_name (codes "nats2ntrip") (name ∷ [])) ∷ [])
      else configured (parse_configuration path (file path) empty_configuration)
  main argv = refused_with (usage (program_name (codes "nats2ntrip") argv))
