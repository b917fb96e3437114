-- ===== src/Tests/Queueing.antt =====
-- `StreamSession` of src/nats2ntrip.cpp on concrete histories.
use rtcmbridge.Base.{
  ℕ, ◌≡◌, refl, false, some, List, [], ◌∷◌, ◌++◌, ◌^◌, ◌*◌, arith, Bytes, codes, min,
}
use rtcmbridge.Ntrip.Options.{default_options, NtripSource, ntrip_ok, ntrip_err}
use rtcmbridge.Bridge.Session.{new_session, trim_loop, clear_from}
use rtcmbridge.Bridge.Session.Stopping.{run-Finishes}
use rtcmbridge.Bridge.Nats2ntrip.Signal.{
  Waiter, checked, asleep, handle_signal, wait_steps, handle_signal-misses, misses,
}
use rtcmbridge.Bridge.Session.Worker.{
  Event, worker, message, stop_called, finished, run, start, run_test, step, worker_step, opened,
  caught, waited,
}
use rtcmbridge.Bridge.Session.Trim.{Trimmed, trim_loop-Trimmed, total_size}
use rtcmbridge.Bridge.Session.Accounts.{IsTracked}
use rtcmbridge.Bridge.Session.History.{received, brought_in, run-accounts}
use rtcmbridge.Bridge.Session.Delay.{waits, run-delay_doubles}
use rtcmbridge.Bridge.Session.Drain.{at_wait, Drained}
use rtcmbridge.Bridge.Session.Relay.{pumps, pumps-read_chunks}
use rtcmbridge.Ntrip.Source.{Upload}
use rtcmbridge.Ntrip.Source.Chunks.{body, read_chunks}

abbrev caster : NtripSource
caster = record {
  user = codes "u";
  pass = codes "p";
  host = codes "h";
  name = codes "m";
  port = 2101;
}

abbrev no_hash : Bytes → ℕ
no_hash bytes = 0

-- The source opens, two payloads come in, and the second write fails.
abbrev history : List Event
history =
    worker ntrip_ok
    ∷ message (some (1 ∷ 2 ∷ []))
    ∷ message (some (3 ∷ []))
    ∷ worker ntrip_ok
    ∷ worker ntrip_ok
    ∷ worker ntrip_ok
    ∷ worker ntrip_err
    ∷ []

run-accounts_example :
    IsTracked (received history) (run (start (new_session no_hash default_options caster)) history)
run-accounts_example =
    run-accounts no_hash default_options caster history
      (unfold received brought_in total_size in omega arith)

trim_loop-Trimmed_example :
    Trimmed 2 ((1 ∷ 2 ∷ []) ∷ (3 ∷ []) ∷ []) 5 (
      trim_loop 2
        ((1 ∷ 2 ∷ []) ∷ (3 ∷ []) ∷ [])
        (total_size ((1 ∷ 2 ∷ []) ∷ (3 ∷ []) ∷ []))
        5
        false)
trim_loop-Trimmed_example =
    trim_loop-Trimmed 2 ((1 ∷ 2 ∷ []) ∷ (3 ∷ []) ∷ []) 5 false (unfold total_size in omega arith)

-- The source is refused, and the wait ends.
abbrev failures : List Event
failures = worker ntrip_err ∷ worker ntrip_ok ∷ worker ntrip_err ∷ []

run-delay_doubles_example :
    let w = start (new_session no_hash default_options caster) in
    (run w failures).session.reconnect_delay ≡ min (2 * 2 ^ waits w failures) 32
run-delay_doubles_example =
    run-delay_doubles no_hash default_options caster failures (omega arith) (
      unfold start run run_test step worker_step opened caught waited clear_from new_session in
      refl)

abbrev idle : Upload
idle = record {
  source = caster;
  request = [];
  response_buffer = [];
  headers_complete = false;
  sent = codes "POST";
}

pumps-read_chunks_example :
    let session = new_session no_hash default_options caster in
    let x = pumps 2 (at_wait session ((1 ∷ 2 ∷ []) ∷ (3 ∷ []) ∷ []) [] [], idle) in
    Drained ((1 ∷ 2 ∷ []) ∷ (3 ∷ []) ∷ []) [] [] x.0
    × (x.1.sent ≡ codes "POST" ++ body ((1 ∷ 2 ∷ []) ∷ (3 ∷ []) ∷ []))
    × (read_chunks 3 (body ((1 ∷ 2 ∷ []) ∷ (3 ∷ []) ∷ [])) ≡ some ((1 ∷ 2 ∷ []) ∷ (3 ∷ []) ∷ []))
pumps-read_chunks_example =
    pumps-read_chunks ((1 ∷ 2 ∷ []) ∷ (3 ∷ []) ∷ []) (new_session no_hash default_options caster) []
      [] idle (unfold new_session in refl)
      ((omega arith, omega arith), ((omega arith, omega arith), tt))

-- The opening of the source fails after stop() and a message, and the worker is run once more.
run-Finishes_example :
    let w = run (start (new_session no_hash default_options caster)) (stop_called ∷ []) in
    ((run w (message (some (1 ∷ [])) ∷ [])).phase ≡ w.phase)
    × ((run w (message (some (1 ∷ [])) ∷ worker ntrip_err ∷ worker ntrip_ok ∷ [])).phase ≡ finished)
run-Finishes_example =
    run-Finishes (run (start (new_session no_hash default_options caster)) (stop_called ∷ []))
      (message (some (1 ∷ [])) ∷ []) (worker ntrip_ok ∷ []) ntrip_err
      (unfold start run run_test step new_session in refl) (tt, tt)

abbrev at_predicate : Waiter
at_predicate = record { g_stop = false; phase = checked }

handle_signal-misses_example : (wait_steps 1_000 (handle_signal at_predicate)).phase ≡ asleep
unfolding misses
handle_signal-misses_example = handle_signal-misses at_predicate 998
