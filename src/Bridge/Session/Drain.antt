-- ===== src/Bridge/Session/Drain.antt =====
-- A connected session writes what is queued, src/nats2ntrip.cpp.
use rtcmbridge.Base.{
  ◌≡◌, refl, ◌∙◌, sym, false, List, [], ◌∷◌, ◌++◌, Bytes, length, append_assoc, append-nil,
}
use rtcmbridge.Bridge.Session.{Session, sub64}
use rtcmbridge.Ntrip.Options.{ntrip_ok}
use rtcmbridge.Bridge.Session.Worker.{
  streaming, Worker, stopping, stream_test, wrote, woken, popped, Event, worker, worker_step, step,
  run,
}

-- A session that is streaming, with that queue.
abbrev pub at_wait : Session → List Bytes → List Bytes → List Bytes → Worker
at_wait s queue written lost = record {
  session = record s { queue = queue };
  phase = streaming;
  written = written;
  lost = lost;
}

-- For each payload the wait ends and the write succeeds.
unfoldable pub write_all : List Bytes → List Event
write_all [] = []
write_all (p ∷ ps) = worker ntrip_ok ∷ worker ntrip_ok ∷ write_all ps

one_write :
    (s : Session) (front : Bytes) (rest written lost : List Bytes)
    → stopping s ≡ false
    → step (step (at_wait s (front ∷ rest) written lost) (worker ntrip_ok)) (worker ntrip_ok)
      ≡ at_wait
          (record s { queued_bytes = sub64 s.queued_bytes (length front) })
          rest
          (written ++ (front ∷ []))
          lost
unfolding step worker_step woken wrote stream_test popped
one_write s front rest written lost h = rw h (rw h refl)

-- The worker has written the queue after `written`, and waits.
pub record Drained (queue written lost : List Bytes) (w : Worker) : Type 0 where
  pub all_written : w.written ≡ written ++ queue
  pub none_queued : w.session.queue ≡ []
  pub waiting : w.phase ≡ streaming
  pub none_lost : w.lost ≡ lost

from-one :
    (w v : Worker) (events : List Event) (front : Bytes) (rest written lost : List Bytes)
    → w ≡ v
    → Drained rest (written ++ (front ∷ [])) lost (run v events)
    → Drained (front ∷ rest) written lost (run w events)
from-one w v events front rest written lost e d = rw e record {
  all_written = d.all_written ∙ append_assoc written (front ∷ []) rest;
  none_queued = d.none_queued;
  waiting = d.waiting;
  none_lost = d.none_lost;
}

-- While the session is not told to stop and its writes succeed, the worker writes the whole queue, the
-- oldest payload first, and waits for more.
pub run-drains :
    (s : Session) (queue written lost : List Bytes)
    → stopping s ≡ false
    → Drained queue written lost (run (at_wait s queue written lost) (write_all queue))
unfolding run write_all
run-drains s [] written lost h = record {
  all_written = sym (append-nil written);
  none_queued = refl;
  waiting = refl;
  none_lost = refl;
}
run-drains s (front ∷ rest) written lost h =
    let s' = record s { queued_bytes = sub64 s.queued_bytes (length front) } in
    from-one _ _ (write_all rest) front rest written lost (one_write s front rest written lost h)
      (run-drains s' rest (written ++ (front ∷ [])) lost h)
