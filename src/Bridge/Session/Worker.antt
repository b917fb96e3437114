-- ===== src/Bridge/Session/Worker.antt =====
-- `run` and `connect_and_stream` of `StreamSession`, src/nats2ntrip.cpp, as a machine: a phase is a
-- call at which the worker can block, an event is what that call returns or what another thread does
-- meanwhile. `written` and `lost` record what the writes were given: they are not in the source.
use rtcmbridge.Base.{
  ◌+◌, ◌*◌, min, Bool, true, ◌||◌, Option, List, [], ◌∷◌, ◌++◌, String, Bytes, length,
  if◌then◌else◌,
}
use rtcmbridge.Ntrip.Options.{Status, ntrip_ok, ntrip_err}
use rtcmbridge.Bridge.Session.{
  Session, connected, reconnecting, failure, starting, sub64, on_nats_msg, clear_queue,
}

-- `opening`: in ntripConnection_Source. `streaming`: at the wait for a payload.
-- `writing`: in ntripConnection_Write. `backing_off`: in `wait_for`. `finished`: the thread has ended.
pub data Phase : Type 0 where
  opening streaming backing_off finished : Phase
  writing : Bytes → Phase

pub record Worker : Type 0 where
  pub session : Session
  pub phase : Phase
  pub written : List Bytes
  pub lost : List Bytes

abbrev pub stopping : Session → Bool
stopping s = s.stop || s.g_stop

-- `while (!stop_ && !parser::g_stop)` in `run`.
unfoldable pub run_test : Worker → Worker
run_test w = record w { phase = if stopping w.session then finished else opening }

-- `connect_and_stream` returns: only when the session stops.
unfoldable pub returned : Worker → Worker
returned w =
    let s = w.session in
    run_test (record w { session = record s { reconnect_delay = s.options.reconnect_min_sec } })

-- `while (!stop_ && !parser::g_stop)` in `connect_and_stream`.
unfoldable pub stream_test : Worker → Worker
stream_test w = if stopping w.session then returned w else record w { phase = streaming }

-- The handler of the exception. The `int` reconnect_wait_ms overflows for a delay from 2147484 seconds
-- on, with some jitter from 2147483 on: the model is that of shorter delays.
unfoldable pub caught : Worker → String → Worker
caught w message =
    if stopping w.session
    then record w { phase = finished }
    else let s = w.session in
      let cleared = clear_queue (record s { log = s.log ++ (failure message ∷ []) }) in
      let wait_ms = s.reconnect_delay * 1000 + s.reconnect_jitter_ms in
      record w {
        session = record cleared { log = cleared.log ++ (reconnecting wait_ms ∷ []) };
        phase = backing_off;
      }

-- ntripConnection_Source has returned.
unfoldable pub opened : Worker → Status → Worker
opened w ntrip_ok =
    let s = w.session in
    stream_test (record w { session = record s { log = s.log ++ (connected ∷ []) } })
opened w ntrip_err = caught w "Opening NTRIP source failed: NTRIP_ERR"

-- The write of `payload` has returned.
unfoldable pub wrote : Worker → Bytes → Status → Worker
wrote w payload ntrip_ok = stream_test (record w { written = w.written ++ (payload ∷ []) })
wrote w payload ntrip_err =
    caught (record w { lost = w.lost ++ (payload ∷ []) }) "Writing to NTRIP failed: NTRIP_ERR"

-- The worker takes the oldest payload, or sleeps on when there is none.
unfoldable pub popped : Worker → List Bytes → Worker
popped w [] = w
popped w (front ∷ rest) =
    let s = w.session in
    record w {
      session = record s { queue = rest; queued_bytes = sub64 s.queued_bytes (length front) };
      phase = writing front;
    }

-- The worker wakes at `cv_.wait`.
unfoldable pub woken : Worker → Worker
woken w = if stopping w.session then returned w else popped w w.session.queue

-- `cv_.wait_for` is over. The `int` product overflows for a delay from 2^30 seconds on, which is longer
-- than the delays of the model.
unfoldable pub waited : Worker → Worker
waited w =
    let s = w.session in
    run_test (record w {
      session = record s {
        reconnect_delay = min (s.reconnect_delay * 2) s.options.reconnect_max_sec;
      };
    })

pub data Event : Type 0 where
  -- The worker's own call returns, an NTRIP call with that status.
  worker : Status → Event
  -- A NATS message, `stop()`, and the signal.
  message : Option Bytes → Event
  stop_called signalled : Event

unfoldable pub worker_step : Phase → Worker → Status → Worker
worker_step opening w status = opened w status
worker_step streaming w status = woken w
worker_step backing_off w status = waited w
worker_step finished w status = w
worker_step (writing payload) w status = wrote w payload status

unfoldable pub step : Worker → Event → Worker
step w (worker status) = worker_step w.phase w status
step w (message payload) = record w { session = on_nats_msg w.session payload }
step w stop_called = let s = w.session in record w { session = record s { stop = true } }
step w signalled = let s = w.session in record w { session = record s { g_stop = true } }

unfoldable pub run : Worker → List Event → Worker
run w [] = w
run w (e ∷ es) = run (step w e) es

-- `start`: the thread begins with the test of `run`.
unfoldable pub start : Session → Worker
start s = run_test (record {
  session = record s { log = s.log ++ (starting ∷ []) };
  phase = opening;
  written = [];
  lost = [];
})
