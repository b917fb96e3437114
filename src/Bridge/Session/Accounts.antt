-- ===== src/Bridge/Session/Accounts.antt =====
-- What becomes of the payloads that a session receives, src/nats2ntrip.cpp.
use rtcmbridge.Base.{
  ℕ, ◌+◌, ◌^◌, ◌≤◌, ◌<◌, ◌≡◌, refl, ap, ◌∙◌, sym, Bool, true, false, List, [], ◌∷◌, ◌++◌, arith,
  Bytes, length, Bool-cases, inl, inr, append_assoc, append-nil, String, if◌then◌else◌,
}
use rtcmbridge.Bridge.Session.{sub64, add64, max_queue_bytes, clear_from, cleared_bytes, failure}
use rtcmbridge.Bridge.Session.Trim.{total_size, total_size-append, sub64-of_le, add64-of_lt}
use rtcmbridge.Bridge.Session.Order.{Sublist, Sublist-trans, Sublist-middle, Sublist-from}
use rtcmbridge.Bridge.Session.Worker.{
  Phase, opening, streaming, backing_off, finished, writing, Worker, stopping, run_test, returned,
  stream_test, caught, opened, wrote, woken, popped, waited,
}
use rtcmbridge.Ntrip.Options.{Status, ntrip_ok, ntrip_err}

-- The payload that the worker holds while it writes.
unfoldable pub in_flight : Phase → List Bytes
in_flight opening = []
in_flight streaming = []
in_flight backing_off = []
in_flight finished = []
in_flight (writing payload) = payload ∷ []

-- The sums of the session are those of its queue and of what it received; each byte received was
-- written, lost in a failed write, dropped, or is in flight or queued; and the payloads that were not
-- given up stand in the order they came in.
pub record Tracks (received : List Bytes) (limit total : ℕ) (queue : List Bytes)
    (queued_bytes dropped_bytes : ℕ) (written lost flight : List Bytes) : Type 0 where
  pub totals : total ≡ total_size received
  pub queued : queued_bytes ≡ total_size queue
  pub bounded : queued_bytes ≤ limit
  pub counted :
      total_size written + total_size lost + total_size flight + dropped_bytes + queued_bytes
      ≡ total_size received
  pub in_order : Sublist (written ++ (flight ++ queue)) received

abbrev pub IsTracked : List Bytes → Worker → Type 0
IsTracked received w =
    let s = w.session in
    Tracks received (max_queue_bytes s.options) s.total s.queue s.queued_bytes s.dropped_bytes
      w.written w.lost (in_flight w.phase)

if-IsTracked :
    (received : List Bytes) (b : Bool) (v w : Worker)
    → IsTracked received v
    → IsTracked received w
    → IsTracked received (if b then v else w)
if-IsTracked received true v w k l = k
if-IsTracked received false v w k l = l

pub run_test-IsTracked :
    (r : List Bytes) (w : Worker)
    → IsTracked r (record w { phase = opening })
    → IsTracked r (run_test w)
unfolding run_test in_flight
run_test-IsTracked r w k = elim (Bool-cases (stopping w.session)) [
  | inl e ↦ rw e k
  | inr e ↦ rw e k
]

returned-IsTracked :
    (r : List Bytes) (w : Worker)
    → IsTracked r (record w { phase = opening })
    → IsTracked r (returned w)
unfolding returned in_flight
returned-IsTracked r w k = run_test-IsTracked r _ k

stream_test-IsTracked :
    (r : List Bytes) (w : Worker)
    → IsTracked r (record w { phase = opening })
    → IsTracked r (stream_test w)
unfolding stream_test in_flight
stream_test-IsTracked r w k = if-IsTracked r (stopping w.session) _ _ (returned-IsTracked r w k) k

cleared_bytes-sum :
    (sum : ℕ) (queue : List Bytes)
    → sum + total_size queue < 2 ^ 64
    → cleared_bytes sum queue ≡ sum + total_size queue
unfolding cleared_bytes total_size
cleared_bytes-sum sum [] h = omega arith
cleared_bytes-sum sum (front ∷ rest) h =
    let e : add64 sum (length front) ≡ sum + length front = add64-of_lt _ _ (omega (arith, h)) in
    rw e (cleared_bytes-sum (sum + length front) rest (omega (arith, h)) ∙ omega arith)

-- Clearing gives up the queue and counts it.
clear_from-IsTracked :
    (r : List Bytes) (w : Worker) (queue : List Bytes)
    → w.session.queue ≡ queue
    → total_size r < 2 ^ 64
    → IsTracked r (record w { phase = opening })
    → IsTracked r (record w { session = clear_from w.session queue; phase = opening })
unfolding clear_from in_flight total_size
clear_from-IsTracked r w [] e small k = k
clear_from-IsTracked r w (front ∷ rest) e small k =
    let s = w.session in
    let size : s.queued_bytes ≡ total_size (front ∷ rest) = k.queued ∙ ap total_size e in
    let sum : cleared_bytes 0 (front ∷ rest) ≡ total_size (front ∷ rest) =
      cleared_bytes-sum 0 (front ∷ rest) (omega (arith, small, size, k.counted)) ∙ omega arith in
    let dropped : add64 s.dropped_bytes (cleared_bytes 0 (front ∷ rest))
        ≡ s.dropped_bytes + total_size (front ∷ rest) =
      rw sum (add64-of_lt _ _ (omega (arith, small, size, k.counted))) in
    record {
      totals = k.totals;
      queued = refl;
      bounded = omega arith;
      counted = omega (arith, dropped, size, k.counted);
      in_order =
          Sublist-trans (Sublist-middle w.written s.queue []) (
            Sublist-from (ap (λ (q : List Bytes). w.written ++ q) (append-nil s.queue)) k.in_order);
    }

caught-IsTracked :
    (r : List Bytes) (w : Worker) (text : String)
    → total_size r < 2 ^ 64
    → IsTracked r (record w { phase = opening })
    → IsTracked r (caught w text)
unfolding caught in_flight
caught-IsTracked r w text small k =
    let s = w.session in
    let logged = record w {
      session = record s { log = s.log ++ (failure text ∷ []) };
      phase = opening;
    } in
    if-IsTracked r (stopping w.session) _ _ k (clear_from-IsTracked r logged _ refl small k)

pub opened-IsTracked :
    (r : List Bytes) (w : Worker) (status : Status)
    → total_size r < 2 ^ 64
    → IsTracked r (record w { phase = opening })
    → IsTracked r (opened w status)
unfolding opened in_flight
opened-IsTracked r w ntrip_ok small k = stream_test-IsTracked r _ k
opened-IsTracked r w ntrip_err small k = caught-IsTracked r w _ small k

pub wrote-IsTracked :
    (r : List Bytes) (w : Worker) (payload : Bytes) (status : Status)
    → total_size r < 2 ^ 64
    → IsTracked r (record w { phase = writing payload })
    → IsTracked r (wrote w payload status)
unfolding wrote in_flight total_size
wrote-IsTracked r w payload ntrip_ok small k = stream_test-IsTracked r _ (record {
  totals = k.totals;
  queued = k.queued;
  bounded = k.bounded;
  counted = rw (total_size-append w.written (payload ∷ [])) (omega (arith, k.counted));
  in_order = Sublist-from (append_assoc w.written (payload ∷ []) w.session.queue) k.in_order;
})
wrote-IsTracked r w payload ntrip_err small k = caught-IsTracked r _ _ small (record {
  totals = k.totals;
  queued = k.queued;
  bounded = k.bounded;
  counted = rw (total_size-append w.lost (payload ∷ [])) (omega (arith, k.counted));
  in_order = Sublist-trans (Sublist-middle w.written (payload ∷ []) w.session.queue) k.in_order;
})

popped-IsTracked :
    (r : List Bytes) (w : Worker) (queue : List Bytes)
    → w.session.queue ≡ queue
    → w.phase ≡ streaming
    → total_size r < 2 ^ 64
    → IsTracked r (record w { phase = opening })
    → IsTracked r (popped w queue)
unfolding popped in_flight total_size
popped-IsTracked r w [] e streams small k = simp streams k
popped-IsTracked r w (front ∷ rest) e streams small k =
    let s = w.session in
    let size : s.queued_bytes ≡ length front + total_size rest = k.queued ∙ ap total_size e in
    let left : sub64 s.queued_bytes (length front) ≡ total_size rest =
      sub64-of_le _ _ (omega (arith, size)) (omega (arith, small, k.counted))
      ∙ omega (arith, size) in
    record {
      totals = k.totals;
      queued = left;
      bounded = omega (arith, left, size, k.bounded);
      counted = omega (arith, left, size, k.counted);
      in_order = Sublist-from (ap (λ (q : List Bytes). w.written ++ q) (sym e)) k.in_order;
    }

pub woken-IsTracked :
    (r : List Bytes) (w : Worker)
    → w.phase ≡ streaming
    → total_size r < 2 ^ 64
    → IsTracked r (record w { phase = opening })
    → IsTracked r (woken w)
unfolding woken
woken-IsTracked r w streams small k =
    if-IsTracked r (stopping w.session) _ _ (returned-IsTracked r w k)
      (popped-IsTracked r w w.session.queue refl streams small k)

pub waited-IsTracked :
    (r : List Bytes) (w : Worker)
    → IsTracked r (record w { phase = opening })
    → IsTracked r (waited w)
unfolding waited in_flight
waited-IsTracked r w k = run_test-IsTracked r _ k
