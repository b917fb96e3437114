-- ===== src/Bridge/Program/Lifetime.antt =====
-- The objects that the `main` functions of src/ntrip2nats.cpp and src/nats2ntrip.cpp use and destroy.
use rtcmbridge.Base.{
  ℕ, zero, suc, ◌+◌, ◌≡◌, refl, Bool, true, false, Option, none, some, List, [], ◌∷◌, ◌++◌, Bytes,
  ◌⊎◌, inl, inr,
}
use rtcmbridge.Base.Calls.{after_calls, after_calls_trans}
use rtcmbridge.Ntrip.Options.{Options, NtripSource, NtripOptions, Status, ntrip_ok, ntrip_err}
use rtcmbridge.Ntrip.Connection.{Connection}
use rtcmbridge.Ntrip.Api.{allocate_options, create_from, create_connection}
use rtcmbridge.Bridge.Program.{
  Call, create_nats_options, connect, set_callbacks, set_servers, create_io, create_session,
  start_session, wait, create_ntrip_options, set_ntrip_options, create_ntrip_connection,
  destroy_session, destroy_ntrip_connection, destroy_ntrip_options, clear_sessions,
  clear_ntrip_connections, destroy_io, destroy_nats_connection, destroy_nats_options, NatsStatus,
  Started, running, failed, Run, World, set_up, with_session, with_ntrip_connection,
  with_ntrip_options, open_sessions, with_io, with_nats_connection, with_nats_options, run,
}

-- What is alive: nothing, the NATS options, these and the NATS connection, these and the io_context
-- with sessions on connections and `bare` connections, and with all that NTRIP options.
pub data Alive : Type 0 where
  nothing nats_options nats_connection : Alive
  io with_options : (bare sessions : ℕ) → Alive

-- One call, which uses only what is alive: a session is destroyed before its connection and the NATS
-- connection, a connection before the io_context, and each object before what it was created from. All
-- connections have sessions when `main` waits.
abbrev pub call : Call → Alive → Option Alive
call (create_nats_options none) nothing = some nats_options
call (create_nats_options (some _)) nothing = some nothing
call set_callbacks nats_options = some nats_options
call (set_servers _) nats_options = some nats_options
call (connect none) nats_options = some nats_connection
call (connect (some _)) nats_options = some nats_options
call create_io nats_connection = some (io 0 0)
call (create_ntrip_options ntrip_ok) (io b s) = some (with_options b s)
call (create_ntrip_options ntrip_err) (io b s) = some (io b s)
call (set_ntrip_options _) (with_options b s) = some (with_options b s)
call (create_ntrip_connection ntrip_ok) (with_options b s) = some (with_options (suc b) s)
call (create_ntrip_connection ntrip_err) (with_options b s) = some (with_options b s)
call create_session (with_options (suc b) s) = some (with_options b (suc s))
call start_session (with_options b (suc s)) = some (with_options b (suc s))
call destroy_session (with_options b (suc s)) = some (with_options (suc b) s)
call destroy_ntrip_connection (with_options (suc b) s) = some (with_options b s)
call destroy_ntrip_options (with_options b s) = some (io b s)
call wait (io zero s) = some (io 0 s)
call clear_sessions (io b s) = some (io (b + s) 0)
call clear_ntrip_connections (io b zero) = some (io 0 0)
call destroy_io (io zero zero) = some nats_connection
call destroy_nats_connection nats_connection = some nats_options
call destroy_nats_options nats_options = some nothing
call _ _ = none

-- The calls are allowed and leave the io_context, and what is alive in it.
abbrev pub InIo : List Call → Alive → Type 0
InIo calls a = (b : ℕ) × (s : ℕ) × (after_calls call calls a ≡ some (io b s))

abbrev Created : Status × Option Connection → Type 0
Created created =
    (created ≡ (ntrip_err, none)) ⊎ ((c : Connection) × (created ≡ (ntrip_ok, some c)))

from-Created :
    (o : NtripOptions) (has_io allocated : Bool) → Created (create_from o has_io allocated)
unfolding create_from
from-Created o true true = inr (_, refl)
from-Created o true false = inl refl
from-Created o false allocated = inl refl

connection-Created :
    (o : Option NtripOptions) (allocated : Bool) → Created (create_connection o allocated)
unfolding create_connection
connection-Created none allocated = inl refl
connection-Created (some o) allocated = from-Created o o.has_io allocated

module _ {S : Type 0} (w : World) (options : Options) (start : ℕ → Connection → Started S)
    (body : List S → Run S)
    (body-InIo : (sessions : List S) (n : ℕ) → InIo (body sessions).calls (io 0 n)) where
  -- What follows the start of a session leaves the io_context.
  abbrev NextInIo : (List S → Run S) → ℕ → Type 0
  NextInIo next n = (sessions : List S) → InIo (next sessions).calls (io 0 n)

  session-InIo :
      (next : List S → Run S) (sessions : List S) (n : ℕ)
      → NextInIo next (suc n)
      → (s : Started S)
      → InIo (with_session w options start body next sessions s).calls (with_options 0 (suc n))
  unfolding with_session
  session-InIo next sessions n h (running s) = h (sessions ++ (s ∷ []))
  session-InIo next sessions n h (failed text) = (0, n, refl)

  connection-InIo :
      (i : ℕ) (next : List S → Run S) (sessions : List S) (n : ℕ)
      → NextInIo next (suc n)
      → (created : Status × Option Connection) → Created created
      → InIo
          (create_ntrip_connection created.0
            ∷ (with_ntrip_connection w options start body i next sessions created).calls)
          (with_options 0 n)
  unfolding with_ntrip_connection
  connection-InIo i next sessions n h created (inl e) = rw e (0, n, refl)
  connection-InIo i next sessions n h created (inr (c, e)) =
      rw e (session-InIo next sessions n h (start i c))

  options-InIo :
      (i : ℕ) (source : NtripSource) (next : List S → Run S) (sessions : List S) (n : ℕ)
      → NextInIo next (suc n)
      → (created : Status × Option NtripOptions)
      → InIo
          (create_ntrip_options created.0
            ∷ (with_ntrip_options w options start body i source next sessions created).calls)
          (io 0 n)
  unfolding with_ntrip_options
  options-InIo i source next sessions n h (ntrip_err, o) = (0, n, refl)
  options-InIo i source next sessions n h (ntrip_ok, o) =
      let created = create_connection (set_up options source o) (w.connection_allocated i) in
      connection-InIo i next sessions n h created
        (connection-Created (set_up options source o) (w.connection_allocated i))

  sessions-InIo :
      (i : ℕ) (sources : List NtripSource) (n : ℕ)
      → NextInIo (open_sessions w options start body i sources) n
  unfolding open_sessions
  sessions-InIo i [] n sessions = body-InIo sessions n
  sessions-InIo i (source ∷ more) n sessions =
      options-InIo i source (open_sessions w options start body (suc i) more) sessions n
        (sessions-InIo (suc i) more (suc n)) (allocate_options (w.options_allocated i))

  io-clean :
      (sources : List NtripSource)
      → after_calls call (with_io w options start body sources).calls nats_connection
        ≡ some nats_connection
  unfolding with_io
  io-clean sources =
      let (b, s, e) = sessions-InIo 0 sources 0 [] in
      after_calls_trans call (open_sessions w options start body 0 sources []).calls
        (clear_sessions ∷ clear_ntrip_connections ∷ destroy_io ∷ []) (io 0 0) (io b s)
        nats_connection e refl

  abbrev opened : NatsStatus → Alive → Alive → Alive
  opened none a b = a
  opened (some text) a b = b

  connection-clean :
      (sources : List NtripSource) (status : NatsStatus)
      → after_calls call
          (with_nats_connection w options start body sources status).calls
          (opened status nats_connection nats_options)
        ≡ some nats_options
  unfolding with_nats_connection
  connection-clean sources (some text) = refl
  connection-clean sources none =
      after_calls_trans call (with_io w options start body sources).calls
        (destroy_nats_connection ∷ []) nats_connection nats_connection nats_options
        (io-clean sources) refl

  connect-clean :
      (sources : List NtripSource) (status : NatsStatus)
      → after_calls call
          (connect status ∷ (with_nats_connection w options start body sources status).calls)
          nats_options
        ≡ some nats_options
  connect-clean sources none = connection-clean sources none
  connect-clean sources (some text) = connection-clean sources (some text)

  options-clean :
      (servers : List Bytes) (sources : List NtripSource) (status : NatsStatus)
      → after_calls call
          (create_nats_options status
            ∷ (with_nats_options w options start body servers sources status).calls)
          nothing
        ≡ some nothing
  unfolding with_nats_options
  options-clean servers sources (some text) = refl
  options-clean servers sources none =
      after_calls_trans call
        (connect w.connected
          ∷ (with_nats_connection w options start body sources w.connected).calls)
        (destroy_nats_options ∷ []) nats_options nats_options nothing
        (connect-clean sources w.connected) refl

  -- The block uses only what is alive and leaves nothing alive.
  pub run-clean :
      (servers : List Bytes) (sources : List NtripSource)
      → after_calls call (run w options start body servers sources).calls nothing ≡ some nothing
  unfolding run
  run-clean servers sources = options-clean servers sources w.created
