-- ===== src/Bridge/Session/Stopping.antt =====
-- When the worker of `StreamSession`, src/nats2ntrip.cpp, ends once `stop` has been called. `stop` joins
-- it and cancels no call that it is in: ntripConnection_Source and ntripConnection_Write block without a
-- timeout.
use rtcmbridge.Base.{◌≡◌, refl, ap, sym, ◌∙◌, true, List, [], ◌∷◌, ◌++◌, All, Bool-cases, inl, inr}
use mathlib.Core.Bool.{false≢true}
use rtcmbridge.Ntrip.Options.{Status, ntrip_ok, ntrip_err}
use rtcmbridge.Bridge.Session.Worker.{
  Phase, opening, streaming, backing_off, finished, writing, Worker, stopping, run_test, returned,
  stream_test, caught, opened, wrote, woken, waited, Event, worker, message, stop_called, signalled,
  worker_step, step, run,
}
use rtcmbridge.Bridge.Session.Delay.{run-stays}

caught-finished :
    (w : Worker) (text : _) → stopping w.session ≡ true → (caught w text).phase ≡ finished
unfolding caught
caught-finished w text h = rw h refl

returned-finished : (w : Worker) → stopping w.session ≡ true → (returned w).phase ≡ finished
unfolding returned run_test
returned-finished w h = rw h refl

stream_test-finished : (w : Worker) → stopping w.session ≡ true → (stream_test w).phase ≡ finished
unfolding stream_test
stream_test-finished w h = rw h (returned-finished w h)

worker_step-finished :
    (p : Phase) (w : Worker) (status : Status)
    → w.phase ≡ p
    → stopping w.session ≡ true
    → (worker_step p w status).phase ≡ finished
unfolding worker_step opened woken wrote waited run_test
worker_step-finished opening w ntrip_ok e h = stream_test-finished _ h
worker_step-finished opening w ntrip_err e h = caught-finished _ _ h
worker_step-finished streaming w status e h = rw h (returned-finished w h)
worker_step-finished backing_off w status e h = rw h refl
worker_step-finished finished w status e h = e
worker_step-finished (writing payload) w ntrip_ok e h = stream_test-finished _ h
worker_step-finished (writing payload) w ntrip_err e h = caught-finished _ _ h

step-stays :
    (w : Worker) (e : Event) → stopping w.session ≡ true → stopping (step w e).session ≡ true
unfolding run
step-stays w e h = elim (Bool-cases (stopping (step w e).session)) [
  | inl told ↦ told
  | inr untold ↦ absurd (false≢true (sym (run-stays w (e ∷ []) untold) ∙ h))
]

step-finished : (w : Worker) (e : Event) → w.phase ≡ finished → (step w e).phase ≡ finished
unfolding step worker_step
step-finished w (worker status) f = ap (λ p. (worker_step p w status).phase) f ∙ f
step-finished w (message payload) f = f
step-finished w stop_called f = f
step-finished w signalled f = f

run-finished : (es : List Event) (w : Worker) → w.phase ≡ finished → (run w es).phase ≡ finished
unfolding run
run-finished [] w f = f
run-finished (e ∷ es) w f = run-finished es (step w e) (step-finished w e f)

run-finishes :
    (w : Worker) (before later : List Event) (status : Status)
    → stopping w.session ≡ true
    → (run w (before ++ (worker status ∷ later))).phase ≡ finished
unfolding run step
run-finishes w [] later status h =
    run-finished later (worker_step w.phase w status) (worker_step-finished w.phase w status refl h)
run-finishes w (e ∷ before) later status h =
    run-finishes (step w e) before later status (step-stays w e h)

-- An event that is not the return of the worker's own call.
abbrev pub IsOther : Event → Type 0
IsOther (worker status) = ⊥
IsOther (message payload) = Unit
IsOther stop_called = Unit
IsOther signalled = Unit

run-waits : (w : Worker) (others : List Event) → All IsOther others → (run w others).phase ≡ w.phase
unfolding run step
run-waits w [] h = refl
run-waits w (worker status ∷ others) h = absurd h.0
run-waits w (message payload ∷ others) h = run-waits (step w (message payload)) others h.1
run-waits w (stop_called ∷ others) h = run-waits (step w stop_called) others h.1
run-waits w (signalled ∷ others) h = run-waits (step w signalled) others h.1

-- Once the session or the program has been told to stop, the worker ends when the call that it is in
-- returns, whatever that call returns and whatever other threads do before and after; until it returns
-- the worker stays in it, whatever other threads do. That the call returns is not shown.
pub run-Finishes :
    (w : Worker) (others later : List Event) (status : Status)
    → stopping w.session ≡ true
    → All IsOther others
    → ((run w others).phase ≡ w.phase)
      × ((run w (others ++ (worker status ∷ later))).phase ≡ finished)
run-Finishes w others later status h o =
    (run-waits w others o, run-finishes w others later status h)
