-- ===== src/Bridge/Program.antt =====
-- What the `main` functions of src/ntrip2nats.cpp and src/nats2ntrip.cpp have in common, written alike
-- in both: the name in the usage, the NATS options and connection, the loop that opens a session for
-- each source, the destructors, and the handlers of the exceptions. What the libraries return is a
-- parameter; memory is exhausted only where the NTRIP functions say so.
pub mod Lifetime
pub mod Sessions
use rtcmbridge.Base.{ℕ, suc, Bool, true, Option, none, some, List, [], ◌∷◌, ◌++◌, Bytes, codes}
use rtcmbridge.Logger.{Entry, warn, error}
use rtcmbridge.Ntrip.Options.{
  Options, NtripSource, NtripOptions, Status, ntrip_ok, ntrip_err, set_options, set_io, set_source,
}
use rtcmbridge.Ntrip.Connection.{Connection}
use rtcmbridge.Ntrip.Api.{allocate_options, create_connection, status_text}

-- A natsStatus: `none` for NATS_OK, else its text.
abbrev pub NatsStatus : Type 0
NatsStatus = Option Bytes

-- What is done with the objects of the libraries, and the sessions.
pub data Call : Type 0 where
  create_nats_options connect : NatsStatus → Call
  set_callbacks : Call
  set_servers : List Bytes → Call
  create_io create_session start_session wait : Call
  create_ntrip_options : Status → Call
  set_ntrip_options : NtripSource → Call
  create_ntrip_connection : Status → Call
  destroy_session destroy_ntrip_connection destroy_ntrip_options : Call
  clear_sessions clear_ntrip_connections destroy_io destroy_nats_connection : Call
  destroy_nats_options : Call

-- How a block is left: at its end, with a `std::exception`, or with another exception.
pub data Ended : Type 0 where
  returned threw_other : Ended
  threw : Bytes → Ended

-- A session that `start` leaves running, or the text of its exception.
pub data Started (S : Type 0) : Type 0 where
  running : S → Started S
  failed : Bytes → Started S

-- `sessions` are those that run while `main` waits.
pub record Run (S : Type 0) : Type 0 where
  pub calls : List Call
  pub sessions : List S
  pub ended : Ended

abbrev pub thrown : {S : Type 0} → Bytes → Run S
thrown text = record { calls = []; sessions = []; ended = threw text }

abbrev pub after : {S : Type 0} → List Call → Run S → Run S
after calls r = record r { calls = calls ++ r.calls }

-- The destructors at the end of a scope, however it is left.
abbrev pub closing : {S : Type 0} → List Call → Run S → Run S
closing calls r = record r { calls = r.calls ++ calls }

-- What the libraries return: for the NTRIP functions, whether the object of the session with that
-- number could be allocated.
pub record World : Type 0 where
  pub created : NatsStatus
  pub connected : NatsStatus
  pub options_allocated : ℕ → Bool
  pub connection_allocated : ℕ → Bool

-- The three setters.
unfoldable pub set_up : Options → NtripSource → Option NtripOptions → Option NtripOptions
set_up options source o =
    (set_source (set_io (set_options o (some options)).1 true).1 (some source)).1

-- `start i c` is the session on `c`, constructed and started; `body` is what `main` does when all
-- sessions run.
module _ {S : Type 0} (w : World) (options : Options) (start : ℕ → Connection → Started S)
    (body : List S → Run S) where
  unfoldable pub with_session : (List S → Run S) → List S → Started S → Run S
  with_session next sessions (running s) =
      after (destroy_ntrip_options ∷ []) (next (sessions ++ (s ∷ [])))
  with_session next sessions (failed text) =
      closing (destroy_session ∷ destroy_ntrip_connection ∷ destroy_ntrip_options ∷ [])
        (thrown text)

  -- A connection that is not null is what NTRIP_OK promises.
  unfoldable pub with_ntrip_connection :
      ℕ → (List S → Run S) → List S → Status × Option Connection → Run S
  with_ntrip_connection i next sessions (status, none) =
      closing (destroy_ntrip_options ∷ [])
        (thrown (codes "NTRIP connection create failed: " ++ status_text status))
  with_ntrip_connection i next sessions (status, some c) =
      after (create_session ∷ start_session ∷ []) (with_session next sessions (start i c))

  unfoldable pub with_ntrip_options :
      ℕ → NtripSource → (List S → Run S) → List S → Status × Option NtripOptions → Run S
  with_ntrip_options i source next sessions (ntrip_err, o) =
      thrown (codes "NTRIP options create failed: " ++ status_text ntrip_err)
  with_ntrip_options i source next sessions (ntrip_ok, o) =
      let created = create_connection (set_up options source o) (w.connection_allocated i) in
      after (set_ntrip_options source ∷ create_ntrip_connection created.0 ∷ [])
        (with_ntrip_connection i next sessions created)

  -- The loop over the sources, from the one with the number `i`.
  unfoldable pub open_sessions : ℕ → List NtripSource → List S → Run S
  open_sessions i [] sessions = body sessions
  open_sessions i (source ∷ more) sessions =
      let created = allocate_options (w.options_allocated i) in
      after (create_ntrip_options created.0 ∷ [])
        (with_ntrip_options i source (open_sessions (suc i) more) sessions created)

  unfoldable pub with_io : List NtripSource → Run S
  with_io sources =
      closing (clear_sessions ∷ clear_ntrip_connections ∷ destroy_io ∷ [])
        (after (create_io ∷ []) (open_sessions 0 sources []))

  unfoldable pub with_nats_connection : List NtripSource → NatsStatus → Run S
  with_nats_connection sources (some text) = thrown (codes "NATS connection failed: " ++ text)
  with_nats_connection sources none = closing (destroy_nats_connection ∷ []) (with_io sources)

  unfoldable pub with_nats_options : List Bytes → List NtripSource → NatsStatus → Run S
  with_nats_options servers sources (some text) =
      thrown (codes "NATS options create failed: " ++ text)
  with_nats_options servers sources none = closing (destroy_nats_options ∷ []) (
      after (set_callbacks ∷ set_servers servers ∷ connect w.connected ∷ [])
        (with_nats_connection sources w.connected))

  -- The `try` block.
  unfoldable pub run : List Bytes → List NtripSource → Run S
  run servers sources =
      after (create_nats_options w.created ∷ []) (with_nats_options servers sources w.created)

-- What `main` gives to the logger (a session's own lines are the session's), and whether it is written at once.
pub data Logged : Type 0 where
  queued sync : Entry → Logged

abbrev pub main_error : Bytes → Entry
main_error text = record { level = error; context = codes "main"; message = text }

abbrev pub synced : List Entry → List Logged
synced [] = []
synced (e ∷ entries) = sync e ∷ synced entries

pub record Outcome (S : Type 0) : Type 0 where
  pub code : ℕ
  pub out : List Bytes
  pub log : List Logged
  pub calls : List Call
  pub sessions : List S

-- The end of `main`: its exit code and its last line, which the end of the block logs itself.
unfoldable pub ending : Bytes → Ended → ℕ × Entry
ending last returned = (0, record { level = warn; context = codes "main"; message = last })
ending last (threw text) = (1, main_error text)
ending last threw_other = (1, main_error (codes "Unexpected error"))

unfoldable pub finish : {S : Type 0} → Bytes → Run S → Outcome S
finish last r =
    let end = ending last r.ended in
    record {
      code = end.0;
      out = [];
      log = queued end.1 ∷ [];
      calls = r.calls;
      sessions = r.sessions;
    }

-- `main` ends before the block: with the help, or with errors.
abbrev pub told : {S : Type 0} → List Bytes → Outcome S
told out = record { code = 0; out = out; log = []; calls = []; sessions = [] }

abbrev pub refused_with : {S : Type 0} → List Entry → Outcome S
refused_with entries = record {
  code = 1;
  out = [];
  log = synced entries;
  calls = [];
  sessions = [];
}

-- The name in the usage: `argv[0]`, if there is one.
unfoldable pub program_name : Bytes → List Bytes → Bytes
program_name default [] = default
program_name default ([] ∷ argv) = default
program_name default ((c ∷ name) ∷ argv) = c ∷ name
