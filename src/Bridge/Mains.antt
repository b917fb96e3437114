-- ===== src/Bridge/Mains.antt =====
-- What holds of every run of `main` in src/ntrip2nats.cpp and src/nats2ntrip.cpp.
use rtcmbridge.Base.{
  ℕ, ◌+◌, ◌≡◌, refl, Bool, true, false, ◌||◌, Option, some, List, [], ◌∷◌, Bytes, codes, bytes_eq,
  if◌then◌else◌,
}
use rtcmbridge.Base.Calls.{after_calls}
use rtcmbridge.Logger.{Level, error}
use rtcmbridge.Bridge.Config.{Result, refused, parsed}
use rtcmbridge.Bridge.Config.Ntrip2nats as SourceFile
use rtcmbridge.Bridge.Config.Nats2ntrip as DestinationFile
use rtcmbridge.Bridge.Session.Worker.{Worker}
use rtcmbridge.Bridge.Program.{
  NatsStatus, Ended, returned, threw, threw_other, World, Logged, queued, sync, Outcome, Run, told,
  refused_with, ending, finish,
}
use rtcmbridge.Bridge.Program.Lifetime.{call, nothing, run-clean}
use rtcmbridge.Bridge.Ntrip2nats
use rtcmbridge.Bridge.Ntrip2nats.{Streaming, start, streaming, usage, config_error}
use rtcmbridge.Bridge.Nats2ntrip
use rtcmbridge.Bridge.Nats2ntrip.{waiting, destinations}

abbrev is_error : Level → Bool
is_error error = true
is_error _ = false

abbrev level_of : Logged → Level
level_of (queued e) = e.level
level_of (sync e) = e.level

-- Whether an error has been logged.
abbrev pub has_error : List Logged → Bool
has_error [] = false
has_error (line ∷ more) = is_error (level_of line) || has_error more

-- The exit code says whether an error has been logged.
abbrev pub Tells : {S : Type 0} → Outcome S → Type 0
Tells o = o.code ≡ (if has_error o.log then 1 else 0)

-- The objects of the libraries are used and destroyed as they may be, and none is left.
abbrev pub IsClean : {S : Type 0} → Outcome S → Type 0
IsClean o = after_calls call o.calls nothing ≡ some nothing

abbrev Good : {S : Type 0} → Outcome S → Type 0
Good o = Tells o × IsClean o

ending-Tells :
    (last : Bytes) (ended : Ended)
    → (ending last ended).0 ≡ (if is_error (ending last ended).1.level || false then 1 else 0)
unfolding ending
ending-Tells last returned = refl
ending-Tells last threw_other = refl
ending-Tells last (threw text) = refl

finish-Good :
    {S : Type 0} (last : Bytes) (r : Run S)
    → after_calls call r.calls nothing ≡ some nothing
    → Good (finish last r)
unfolding finish
finish-Good last r h = (ending-Tells last r.ended, h)

usage-Good : (S : Type 0) (prog : Bytes) → Good (refused_with {S = S} (usage prog))
unfolding usage
usage-Good S prog = (refl, refl)

-- The two arguments of `main`: the help, or what is done with the file.
arguments-Good :
    {S : Type 0} (test : Bool) (help : List Bytes) (o : Outcome S)
    → Good o
    → Good (if test then told help else o)
arguments-Good true help o h = (refl, refl)
arguments-Good false help o h = h

module _ (w : World) (file : Bytes → Option Bytes) (io_run : List Streaming → Ended) where
  publishing-Good :
      (r : Result SourceFile.Configuration) → Good (Ntrip2nats.configured w file io_run r)
  unfolding Ntrip2nats.configured Ntrip2nats.bridge streaming
  publishing-Good (refused text) = (refl, refl)
  publishing-Good (parsed c) = finish-Good (codes "Sessions stopped") _ (
      run-clean w c.options start (streaming w file io_run) (λ sessions n. (0, n, refl))
        c.nats_destinations c.ntrip_sources)

  ntrip2nats-Good : (argv : List Bytes) → Good (Ntrip2nats.main w file io_run argv)
  unfolding Ntrip2nats.main
  ntrip2nats-Good [] = usage-Good Streaming _
  ntrip2nats-Good (name ∷ []) = usage-Good Streaming _
  ntrip2nats-Good (name ∷ path ∷ []) =
      arguments-Good (bytes_eq path (codes "--help") || bytes_eq path (codes "-h")) _ _
        (publishing-Good _)
  ntrip2nats-Good (name ∷ path ∷ other ∷ more) = usage-Good Streaming _

module _ (w : World) (file : Bytes → Option Bytes) (hash : Bytes → ℕ)
    (status : ℕ → NatsStatus) where
  feeding-Good :
      (r : Result DestinationFile.Configuration) → Good (Nats2ntrip.configured w file hash status r)
  unfolding Nats2ntrip.configured Nats2ntrip.bridge waiting
  feeding-Good (refused text) = (refl, refl)
  feeding-Good (parsed c) = finish-Good (codes "Stopping sessions") _ (
      run-clean w c.options (Nats2ntrip.start hash status) (waiting w file hash status)
        (λ sessions n. (0 + n, 0, refl)) c.nats_sources
        (destinations c.ntrip_destination c.nats_mountpoints))

  nats2ntrip-Good : (argv : List Bytes) → Good (Nats2ntrip.main w file hash status argv)
  unfolding Nats2ntrip.main
  nats2ntrip-Good [] = usage-Good Worker _
  nats2ntrip-Good (name ∷ []) = usage-Good Worker _
  nats2ntrip-Good (name ∷ path ∷ []) =
      arguments-Good (bytes_eq path (codes "--help") || bytes_eq path (codes "-h")) _ _
        (feeding-Good _)
  nats2ntrip-Good (name ∷ path ∷ other ∷ more) = usage-Good Worker _

module _ (w : World) (file : Bytes → Option Bytes) (io_run : List Streaming → Ended)
    (hash : Bytes → ℕ) (status : ℕ → NatsStatus) (argv : List Bytes) where
  -- Whatever the arguments are, what the file holds, what the libraries return and how io.run() ends,
  -- both mains return 1 when they have logged an error, and 0 when they have not.
  pub mains-Tells :
      Tells (Ntrip2nats.main w file io_run argv) × Tells (Nats2ntrip.main w file hash status argv)
  mains-Tells =
      ((ntrip2nats-Good w file io_run argv).0, (nats2ntrip-Good w file hash status argv).0)

  -- Whatever the arguments are, what the file holds, what the libraries return and how io.run() ends,
  -- both mains use only what they have created and not yet destroyed, destroy every session before its
  -- connection and the NATS connection and every connection before the io_context, wait only with a
  -- session on each connection, and leave nothing alive.
  pub mains-IsClean :
      IsClean (Ntrip2nats.main w file io_run argv)
      × IsClean (Nats2ntrip.main w file hash status argv)
  mains-IsClean =
      ((ntrip2nats-Good w file io_run argv).1, (nats2ntrip-Good w file hash status argv).1)
