-- ===== src/Bridge/Session/Delay.antt =====
-- The delay before a reconnection of a session, src/nats2ntrip.cpp.
use native.Mathlib.Nat.{mul_assoc, one-le-pow}
use rtcmbridge.Base.{
  ℕ, ◌+◌, ◌*◌, ◌^◌, ◌≤◌, min, ◌≡◌, refl, ap, ◌∙◌, sym, Bool, true, false, List, [], ◌∷◌, ◌++◌,
  arith, Bytes, Option, some, none, String, if◌then◌else◌, ◌||◌,
}
use rtcmbridge.Bridge.Session.{
  Session, new_session, failure, on_nats_msg, enqueue, trim_queue, log_throughput, clear_from,
}
use rtcmbridge.Ntrip.Options.{Options, NtripSource, Status, ntrip_ok, ntrip_err}
use rtcmbridge.Ntrip.Connection.Backoff.{min_scale}
use rtcmbridge.Rtcm.BitReader.Fields.{two_pow_add}
use rtcmbridge.Bridge.Session.Worker.{
  Phase, opening, streaming, backing_off, finished, writing, Worker, stopping, run_test, returned,
  stream_test, caught, opened, wrote, woken, popped, waited, Event, worker, message, stop_called,
  signalled, worker_step, step, run, start,
}

-- The waits of `wait_for` that an event ends, and those that end in a history.
unfoldable pub wait_ends : Phase → ℕ
wait_ends opening = 0
wait_ends streaming = 0
wait_ends backing_off = 1
wait_ends finished = 0
wait_ends (writing payload) = 0

unfoldable pub ended : Phase → Event → ℕ
ended phase (worker status) = wait_ends phase
ended phase (message payload) = 0
ended phase stop_called = 0
ended phase signalled = 0

unfoldable pub waits : Worker → List Event → ℕ
waits w [] = 0
waits w (e ∷ es) = ended w.phase e + waits (step w e) es

-- The two sessions agree on what the delay depends on.
record Agrees (s t : Session) : Type 0 where
  options : t.options ≡ s.options
  stops : stopping t ≡ stopping s
  delay : t.reconnect_delay ≡ s.reconnect_delay

if-Agrees : (s t u : Session) (b : Bool) → Agrees s t → Agrees s u → Agrees s (if b then t else u)
if-Agrees s t u true k l = k
if-Agrees s t u false k l = l

log_throughput-Agrees : (s t : Session) → Agrees s t → Agrees s (log_throughput t)
unfolding log_throughput
log_throughput-Agrees s t k =
    if-Agrees s _ _ _ record { options = k.options; stops = k.stops; delay = k.delay } k

on_nats_msg-Agrees : (s : Session) (payload : Option Bytes) → Agrees s (on_nats_msg s payload)
unfolding on_nats_msg enqueue trim_queue
on_nats_msg-Agrees s none = record { options = refl; stops = refl; delay = refl }
on_nats_msg-Agrees s (some payload) =
    if-Agrees s _ _ _ record { options = refl; stops = refl; delay = refl }
      (log_throughput-Agrees s _ record { options = refl; stops = refl; delay = refl })

clear_from-Agrees : (s : Session) (queue : List Bytes) → Agrees s (clear_from s queue)
unfolding clear_from
clear_from-Agrees s [] = record { options = refl; stops = refl; delay = refl }
clear_from-Agrees s (front ∷ rest) = record { options = refl; stops = refl; delay = refl }

-- From `s` to `t` the delay doubles `n` times, to at most the maximum, unless the session stops, and
-- a session that stops never runs again.
record Paced (n : ℕ) (s t : Session) : Type 0 where
  options : t.options ≡ s.options
  stays : stopping t ≡ false → stopping s ≡ false
  delay :
      stopping t ≡ false
      → s.reconnect_delay ≤ s.options.reconnect_max_sec
      → t.reconnect_delay ≡ min (s.reconnect_delay * 2 ^ n) s.options.reconnect_max_sec

Agrees→Paced : {s t : Session} → Agrees s t → Paced 0 s t
Agrees→Paced k = record {
  options = k.options;
  stays = λ h. sym k.stops ∙ h;
  delay = λ h l. omega (arith, k.delay, l);
}

if-Paced :
    (n : ℕ) (s : Session) (v w : Worker) (b : Bool)
    → (b ≡ true → Paced n s v.session)
    → (b ≡ false → Paced n s w.session)
    → Paced n s (if b then v else w).session
if-Paced n s v w true k l = k refl
if-Paced n s v w false k l = l refl

-- A session that stops keeps no pace.
stopped-Paced : (n : ℕ) (s t : Session) → t.options ≡ s.options → stopping t ≡ true → Paced n s t
stopped-Paced n s t o e = record { options = o; stays = λ h. cc (e, h); delay = λ h l. cc (e, h) }

stream_test-Paced :
    (s : Session) (w : Worker) → Agrees s w.session → Paced 0 s (stream_test w).session
unfolding stream_test returned run_test
stream_test-Paced s w k =
    if-Paced 0 s (returned w) _ (stopping w.session) (λ e. stopped-Paced 0 s _ k.options e)
      (λ e. Agrees→Paced k)

caught-Paced :
    (s : Session) (w : Worker) (text : String)
    → Agrees s w.session
    → Paced 0 s (caught w text).session
unfolding caught
caught-Paced s w text k =
    let t = w.session in
    let logged = record t { log = t.log ++ (failure text ∷ []) } in
    let c = clear_from-Agrees logged logged.queue in
    if-Paced 0 s _ _ (stopping t)
      (λ e. Agrees→Paced record { options = k.options; stops = k.stops; delay = k.delay })
      (λ e. Agrees→Paced record {
        options = c.options ∙ k.options;
        stops = c.stops ∙ k.stops;
        delay = c.delay ∙ k.delay;
      })

popped-Agrees : (w : Worker) (queue : List Bytes) → Agrees w.session (popped w queue).session
unfolding popped
popped-Agrees w [] = record { options = refl; stops = refl; delay = refl }
popped-Agrees w (front ∷ rest) = record { options = refl; stops = refl; delay = refl }

worker-Paced :
    (w : Worker) (phase : Phase) (status : Status)
    → Paced (wait_ends phase) w.session (worker_step phase w status).session
unfolding worker_step wait_ends opened wrote woken waited run_test returned
worker-Paced w opening ntrip_ok =
    stream_test-Paced w.session _ record { options = refl; stops = refl; delay = refl }
worker-Paced w opening ntrip_err =
    caught-Paced w.session w _ record { options = refl; stops = refl; delay = refl }
worker-Paced w streaming status =
    if-Paced 0 w.session (returned w) _ (stopping w.session)
      (λ e. stopped-Paced 0 w.session _ refl e)
      (λ e. Agrees→Paced (popped-Agrees w w.session.queue))
worker-Paced w backing_off status = record { options = refl; stays = λ h. h; delay = λ h l. refl }
worker-Paced w finished status = Agrees→Paced record { options = refl; stops = refl; delay = refl }
worker-Paced w (writing payload) ntrip_ok =
    stream_test-Paced w.session _ record { options = refl; stops = refl; delay = refl }
worker-Paced w (writing payload) ntrip_err =
    caught-Paced w.session _ _ record { options = refl; stops = refl; delay = refl }

or_true : (b : Bool) → b || true ≡ true
or_true true = refl
or_true false = refl

step-Paced : (w : Worker) (e : Event) → Paced (ended w.phase e) w.session (step w e).session
unfolding step ended
step-Paced w (worker status) = worker-Paced w w.phase status
step-Paced w (message payload) = Agrees→Paced (on_nats_msg-Agrees w.session payload)
step-Paced w stop_called = stopped-Paced 0 w.session _ refl refl
step-Paced w signalled = stopped-Paced 0 w.session _ refl (or_true w.session.stop)

pub run-stays :
    (w : Worker) (es : List Event)
    → stopping (run w es).session ≡ false
    → stopping w.session ≡ false
unfolding run
run-stays w [] h = h
run-stays w (e ∷ es) h = (step-Paced w e).stays (run-stays (step w e) es h)

powers : (d n m : ℕ) → d * 2 ^ n * 2 ^ m ≡ d * 2 ^ (n + m)
powers d n m = mul_assoc d (2 ^ n) (2 ^ m) ∙ ap (λ (t : ℕ). d * t) (sym (two_pow_add n m))

-- `n` doublings and then `m`, each cut at the maximum.
combine :
    (d max_sec n m between same_max : ℕ) {after : ℕ}
    → between ≡ min (d * 2 ^ n) max_sec
    → same_max ≡ max_sec
    → after ≡ min (between * 2 ^ m) same_max
    → after ≡ min (d * 2 ^ (n + m)) max_sec
combine d max_sec n m between same_max now same rest =
    rest
    ∙ ap (λ (k : ℕ). min (between * 2 ^ m) k) same
    ∙ ap (λ (k : ℕ). min (k * 2 ^ m) max_sec) now
    ∙ min_scale (d * 2 ^ n) max_sec (2 ^ m) (one-le-pow m 2 (omega arith))
    ∙ ap (λ (k : ℕ). min k max_sec) (powers d n m)

from-delay :
    (w : Worker) (es : List Event)
    → w.session.reconnect_delay ≤ w.session.options.reconnect_max_sec
    → stopping (run w es).session ≡ false
    → (run w es).session.reconnect_delay
      ≡ min (w.session.reconnect_delay * 2 ^ waits w es) w.session.options.reconnect_max_sec
unfolding run waits
from-delay w [] h go = omega arith
from-delay w (e ∷ es) h go =
    let max_sec = w.session.options.reconnect_max_sec in
    let n = ended w.phase e in
    let m = waits (step w e) es in
    let p = step-Paced w e in
    let now = p.delay (run-stays (step w e) es go) h in
    let same : (step w e).session.options.reconnect_max_sec ≡ max_sec =
      ap (λ (o : Options). o.reconnect_max_sec) p.options in
    let rest = from-delay (step w e) es (omega (arith, now, same)) go in
    combine w.session.reconnect_delay max_sec n m _ _ now same rest

-- While a session has not been told to stop, its delay is `reconnect_min_sec` doubled once for each
-- wait that has ended since it started, cut at the maximum: no connection and no write that
-- succeeded in between has brought it back.
pub run-delay_doubles :
    (hash : Bytes → ℕ) (options : Options) (source : NtripSource) (es : List Event)
    → options.reconnect_min_sec ≤ options.reconnect_max_sec
    → stopping (run (start (new_session hash options source)) es).session ≡ false
    → let w = start (new_session hash options source) in
      (run w es).session.reconnect_delay
      ≡ min (options.reconnect_min_sec * 2 ^ waits w es) options.reconnect_max_sec
unfolding start run_test new_session
run-delay_doubles hash options source es h go =
    from-delay (start (new_session hash options source)) es h go
