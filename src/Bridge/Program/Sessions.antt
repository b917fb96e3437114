-- ===== src/Bridge/Program/Sessions.antt =====
-- The sessions that the `main` functions of src/ntrip2nats.cpp and src/nats2ntrip.cpp wait for.
use rtcmbridge.Base.{
  ℕ, suc, ◌≡◌, refl, ap, ◌∙◌, true, none, List, [], ◌∷◌, ◌++◌, Bytes, append-nil, append_assoc, map,
}
use rtcmbridge.Ntrip.Options.{Options, NtripSource, create_options, set_options, set_io, set_source}
use rtcmbridge.Ntrip.Connection.{Connection, new_connection}
use rtcmbridge.Ntrip.Api.{allocate_options, create_from, create_connection}
use rtcmbridge.Bridge.Program.{
  Started, running, Run, World, set_up, with_session, with_ntrip_connection, with_ntrip_options,
  open_sessions, with_io, with_nats_connection, with_nats_options, run,
}

-- Every call of the libraries has succeeded.
pub record AllOk (w : World) : Type 0 where
  pub created : w.created ≡ none
  pub connected : w.connected ≡ none
  pub options_allocated : (i : ℕ) → w.options_allocated i ≡ true
  pub connection_allocated : (i : ℕ) → w.connection_allocated i ≡ true

-- Runs with the same sessions that end alike.
abbrev pub Agree : {S : Type 0} → Run S → Run S → Type 0
Agree r q = (r.sessions ≡ q.sessions) × (r.ended ≡ q.ended)

module _ {S : Type 0} (w : World) (ok : AllOk w) (options : Options)
    (start : ℕ → Connection → Started S) (body : List S → Run S) (session : NtripSource → S)
    (starts : (i : ℕ) (source : NtripSource)
      → start i (new_connection options source) ≡ running (session source)) where
  one-Agree :
      (i : ℕ) (source : NtripSource) (next : List S → Run S) (sessions : List S)
      → Agree
          (with_ntrip_options w options start body i source next sessions
            (allocate_options (w.options_allocated i)))
          (next (sessions ++ (session source ∷ [])))
  unfolding allocate_options with_ntrip_options create_connection create_from create_options set_up
      set_options set_io set_source with_ntrip_connection with_session
  one-Agree i source next sessions =
      rw (ok.options_allocated i, ok.connection_allocated i, starts i source) (refl, refl)

  sessions-Agree :
      (i : ℕ) (sources : List NtripSource) (sessions : List S)
      → Agree
          (open_sessions w options start body i sources sessions)
          (body (sessions ++ map session sources))
  unfolding open_sessions
  sessions-Agree i [] sessions = rw (append-nil sessions) (refl, refl)
  sessions-Agree i (source ∷ more) sessions =
      let next = open_sessions w options start body (suc i) more in
      let one = one-Agree i source next sessions in
      let rest = sessions-Agree (suc i) more (sessions ++ (session source ∷ [])) in
      let joined = append_assoc sessions (session source ∷ []) (map session more) in
      (
        one.0 ∙ rest.0 ∙ ap (λ all. (body all).sessions) joined,
        one.1 ∙ rest.1 ∙ ap (λ all. (body all).ended) joined,
      )

  -- When every call succeeds, the block ends as `body` does with a session for each source, in order.
  pub run-Agree :
      (servers : List Bytes) (sources : List NtripSource)
      → Agree (run w options start body servers sources) (body (map session sources))
  unfolding run with_nats_options with_nats_connection with_io
  run-Agree servers sources = simp (ok.created, ok.connected) (sessions-Agree 0 sources [])
