-- ===== src/Bridge/Nats2ntrip/Feeds.antt =====
-- The sessions that `main` of src/nats2ntrip.cpp feeds casters with.
use rtcmbridge.Base.{
  ◌≡◌, refl, ap, ◌∙◌, ◌%◌, ◌||◌, false, Option, none, some, List, [], ◌∷◌, ◌++◌, Bytes, codes, map,
  bytes_eq, ℕ,
}
use rtcmbridge.Ntrip.Options.{Options, NtripSource}
use rtcmbridge.Ntrip.Connection.{new_connection}
use rtcmbridge.Bridge.Config.{parsed}
use rtcmbridge.Bridge.Config.Nats2ntrip.{Configuration, empty_configuration, parse_configuration}
use rtcmbridge.Bridge.Session.{starting, new_session}
use rtcmbridge.Bridge.Session.Worker
use rtcmbridge.Bridge.Session.Worker.{Worker, opening, run_test}
use rtcmbridge.Bridge.Program.{NatsStatus, running, World, ending, finish}
use rtcmbridge.Bridge.Program.Sessions.{AllOk, run-Agree}
use rtcmbridge.Bridge.Nats2ntrip.{
  subscribed, start, destinations, waiting, bridge, configured, main,
}

-- A new session of a mountpoint at the destination: its queue is empty, and its worker opens the
-- mountpoint.
abbrev pub worker_of : (Bytes → ℕ) → Options → NtripSource → Worker
worker_of hash options source = record {
  session = record {
    options = options;
    subject = codes "NTRIP." ++ source.name;
    reconnect_delay = options.reconnect_min_sec;
    reconnect_jitter_ms = hash (codes "NTRIP." ++ source.name) % 1000;
    queue = [];
    stop = false;
    g_stop = false;
    total = 0;
    last_log = 0;
    queued_bytes = 0;
    dropped_bytes = 0;
    log = starting ∷ [];
  };
  phase = opening;
  written = [];
  lost = [];
}

-- The destination of a mountpoint.
abbrev pub named : NtripSource → Bytes → NtripSource
named d mountpoint = record d { name = mountpoint }

destinations-map :
    {S : Type 0} (f : NtripSource → S) (d : NtripSource) (mountpoints : List Bytes)
    → map f (destinations d mountpoints) ≡ map (λ mountpoint. f (named d mountpoint)) mountpoints
unfolding destinations
destinations-map f d [] = refl
destinations-map f d (mountpoint ∷ more) =
    ap (λ rest. f (named d mountpoint) ∷ rest) (destinations-map f d more)

start-worker_of :
    (hash : Bytes → ℕ) (status : ℕ → NatsStatus) (options : Options)
    → ((i : ℕ) → status i ≡ none)
    → (i : ℕ) (source : NtripSource)
    → start hash status i (new_connection options source) ≡ running (worker_of hash options source)
unfolding start subscribed new_connection new_session Worker.start run_test
start-worker_of hash status options h i source = rw (h i) refl

module _ (w : World) (file : Bytes → Option Bytes) (hash : Bytes → ℕ)
    (status : ℕ → NatsStatus) where
  -- For a path that asks for no help, whose file is accepted, and when every call of the libraries
  -- succeeds, main waits for the signal with exactly one new session for each mountpoint of the file,
  -- in order, on the destination of the file, and returns 0.
  pub main-worker_of :
      (name path text : Bytes) (c : Configuration)
      → AllOk w
      → ((i : ℕ) → status i ≡ none)
      → (bytes_eq path (codes "--help") || bytes_eq path (codes "-h")) ≡ false
      → file path ≡ some text
      → parse_configuration path (some text) empty_configuration ≡ parsed c
      → let o = main w file hash status (name ∷ path ∷ []) in
        (o.sessions
          ≡ map
              (λ mountpoint. worker_of hash c.options (named c.ntrip_destination mountpoint))
              c.nats_mountpoints)
        × (o.code ≡ 0)
  unfolding main configured bridge finish waiting ending
  main-worker_of name path text c ok s h f p =
      let agree =
        run-Agree w ok c.options (start hash status) (waiting w file hash status)
          (worker_of hash c.options) (start-worker_of hash status c.options s) c.nats_sources
          (destinations c.ntrip_destination c.nats_mountpoints) in
      simp (h, f, p)
        (
          agree.0
              ∙ destinations-map (worker_of hash c.options) c.ntrip_destination c.nats_mountpoints,
          ap (λ ended. (ending (codes "Stopping sessions") ended).0) agree.1,
        )
