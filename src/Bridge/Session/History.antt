-- ===== src/Bridge/Session/History.antt =====
-- The accounts of a session over its whole life, src/nats2ntrip.cpp.
use rtcmbridge.Base.{
  ℕ, ◌+◌, ◌/◌, ◌^◌, ◌<◌, ◌≡◌, refl, ap, ◌∙◌, sym, Bool, true, false, List, [], ◌∷◌, ◌++◌, arith,
  Bytes, length, Bool-cases, inl, inr, append_assoc, append-nil, Option, some, none, if◌then◌else◌,
  ◌==◌, leb,
}
use rtcmbridge.Bridge.Session.{
  Session, sub64, add64, trim_loop, trim_queue, log_throughput, enqueue, on_nats_msg,
  max_queue_bytes, to_u64, streamed, starting, new_session,
}
use rtcmbridge.Bridge.Session.Trim.{
  total_size, total_size-append, add64-of_lt, Drops-append, Drops-bound, trim_loop-Trimmed,
}
use rtcmbridge.Bridge.Session.Accounts.{
  in_flight, IsTracked, run_test-IsTracked, opened-IsTracked, wrote-IsTracked, woken-IsTracked,
  waited-IsTracked,
}
use rtcmbridge.Bridge.Session.Order.{
  Sublist, done, Sublist-trans, Sublist-snoc, Sublist-middle, Sublist-from,
}
use rtcmbridge.Bridge.Session.Worker.{
  Phase, opening, streaming, backing_off, finished, writing, Worker, Event, worker, message,
  stop_called, signalled, worker_step, step, run, start,
}
use rtcmbridge.Ntrip.Options.{Options, NtripSource, Status}

-- The payload that an event brings into the queue.
unfoldable pub brought_in : Event → List Bytes
brought_in (worker status) = []
brought_in (message none) = []
brought_in (message (some payload)) = if length payload == 0 then [] else payload ∷ []
brought_in stop_called = []
brought_in signalled = []

unfoldable pub received : List Event → List Bytes
received [] = []
received (e ∷ es) = brought_in e ++ received es

either-IsTracked :
    (r : List Bytes) (w : Worker) (b : Bool) (s t : Session)
    → IsTracked r (record w { session = s })
    → IsTracked r (record w { session = t })
    → IsTracked r (record w { session = if b then s else t })
either-IsTracked r w true s t k l = k
either-IsTracked r w false s t k l = l

log_throughput-IsTracked :
    (r : List Bytes) (w : Worker) (s : Session)
    → IsTracked r (record w { session = s })
    → IsTracked r (record w { session = log_throughput s })
unfolding log_throughput
log_throughput-IsTracked r w s k =
    either-IsTracked r w
      (leb (to_u64 s.options.throughput_log_every_bytes) (sub64 s.total s.last_log))
      (record s { log = s.log ++ (streamed (s.total / 1024) ∷ []); last_log = s.total }) s k k

-- Dropping `cut` from the queue that the payload has joined keeps the order.
trimmed_order :
    (written flight cut kept queue : List Bytes) (payload : Bytes) (r : List Bytes)
    → cut ++ kept ≡ queue ++ (payload ∷ [])
    → Sublist (written ++ (flight ++ queue)) r
    → Sublist (written ++ (flight ++ kept)) (r ++ (payload ∷ []))
trimmed_order written flight cut kept queue payload r parts s =
    let whole : Sublist ((written ++ flight) ++ (queue ++ (payload ∷ []))) (r ++ (payload ∷ [])) =
      Sublist-from
        (sym (append_assoc (written ++ flight) queue (payload ∷ []))
          ∙ ap (λ (q : List Bytes). q ++ (payload ∷ [])) (append_assoc written flight queue))
        (Sublist-snoc payload s) in
    Sublist-from (sym (append_assoc written flight kept)) (
      Sublist-trans (Sublist-middle (written ++ flight) cut kept)
        (Sublist-from (ap (λ (q : List Bytes). (written ++ flight) ++ q) parts) whole))

enqueue-IsTracked :
    (r : List Bytes) (w : Worker) (payload : Bytes)
    → total_size (r ++ (payload ∷ [])) < 2 ^ 64
    → IsTracked r w
    → IsTracked (r ++ (payload ∷ [])) (record w { session = enqueue w.session payload })
unfolding enqueue trim_queue total_size
enqueue-IsTracked r w payload small k =
    let s = w.session in
    let size = length payload in
    let grown : total_size (r ++ (payload ∷ [])) ≡ total_size r + (size + 0) =
      total_size-append r (payload ∷ []) in
    let longer : total_size (s.queue ++ (payload ∷ [])) ≡ total_size s.queue + (size + 0) =
      total_size-append s.queue (payload ∷ []) in
    let total : add64 s.total size ≡ s.total + size =
      add64-of_lt _ _ (omega (arith, small, grown, k.totals)) in
    let queued : add64 s.queued_bytes size ≡ total_size (s.queue ++ (payload ∷ [])) =
      add64-of_lt _ _ (omega (arith, small, grown, k.counted)) ∙ omega (arith, longer, k.queued) in
    let limit = max_queue_bytes s.options in
    let t =
      trim_loop-Trimmed limit (s.queue ++ (payload ∷ [])) s.dropped_bytes false
        (omega (arith, small, grown, longer, k.counted, k.queued)) in
    let b =
      trim_loop limit (s.queue ++ (payload ∷ [])) (total_size (s.queue ++ (payload ∷ [])))
        s.dropped_bytes false in
    let parts : t.cut ++ b.queue ≡ s.queue ++ (payload ∷ []) = Drops-append t.drops in
    let sizes : total_size t.cut + total_size b.queue ≡ total_size (s.queue ++ (payload ∷ [])) =
      sym (total_size-append t.cut b.queue) ∙ ap total_size parts in
    log_throughput-IsTracked (r ++ (payload ∷ [])) w _ (
      rw queued record {
        totals = omega (arith, total, grown, k.totals);
        queued = t.queued;
        bounded = omega (arith, t.queued, Drops-bound t.drops);
        counted = omega (arith, t.counted, t.queued, sizes, longer, grown, k.counted, k.queued);
        in_order =
            trimmed_order w.written (in_flight w.phase) t.cut b.queue s.queue payload r parts
              k.in_order;
      })

message-IsTracked :
    (r : List Bytes) (w : Worker) (payload : Option Bytes)
    → total_size (r ++ brought_in (message payload)) < 2 ^ 64
    → IsTracked r w
    → IsTracked
        (r ++ brought_in (message payload))
        (record w { session = on_nats_msg w.session payload })
unfolding on_nats_msg brought_in
message-IsTracked r w none small k = rw (append-nil r) k
message-IsTracked r w (some payload) small k = elim (Bool-cases (length payload == 0)) [
  | inl e ↦ rw (e, append-nil r) k
  | inr e ↦ rw e (enqueue-IsTracked r w payload (rw e at small) k)
]

worker-IsTracked :
    (r : List Bytes) (w : Worker) (phase : Phase) (status : Status)
    → w.phase ≡ phase
    → total_size r < 2 ^ 64
    → IsTracked r (record w { phase = phase })
    → IsTracked r (worker_step phase w status)
unfolding worker_step in_flight
worker-IsTracked r w opening status e small k = opened-IsTracked r w status small k
worker-IsTracked r w streaming status e small k = woken-IsTracked r w e small k
worker-IsTracked r w backing_off status e small k = waited-IsTracked r w k
worker-IsTracked r w finished status e small k = simp e k
worker-IsTracked r w (writing payload) status e small k = wrote-IsTracked r w payload status small k

step-IsTracked :
    (r : List Bytes) (w : Worker) (e : Event)
    → total_size (r ++ brought_in e) < 2 ^ 64
    → IsTracked r w
    → IsTracked (r ++ brought_in e) (step w e)
unfolding step brought_in
step-IsTracked r w (worker status) small k =
    rw (append-nil r) (worker-IsTracked r w w.phase status refl (rw (append-nil r) at small) k)
step-IsTracked r w (message payload) small k = message-IsTracked r w payload small k
step-IsTracked r w stop_called small k = rw (append-nil r) k
step-IsTracked r w signalled small k = rw (append-nil r) k

run-IsTracked :
    (r : List Bytes) (w : Worker) (es : List Event)
    → total_size (r ++ received es) < 2 ^ 64
    → IsTracked r w
    → IsTracked (r ++ received es) (run w es)
unfolding run received
run-IsTracked r w [] small k = rw (append-nil r) k
run-IsTracked r w (e ∷ es) small k =
    let regroup : (r ++ brought_in e) ++ received es ≡ r ++ (brought_in e ++ received es) =
      append_assoc r (brought_in e) (received es) in
    let whole : total_size (r ++ (brought_in e ++ received es))
        ≡ total_size (r ++ brought_in e) + total_size (received es) =
      ap total_size (sym regroup) ∙ total_size-append (r ++ brought_in e) (received es) in
    rw⁻¹ regroup (
      run-IsTracked (r ++ brought_in e) (step w e) es
        (omega (arith, small, whole, ap total_size regroup))
        (step-IsTracked r w e (omega (arith, small, whole)) k))

-- In every history of a session, whatever the results of its NTRIP calls, and while it has received
-- fewer than 2^64 bytes: each byte received was written, lost in a failed write, dropped, or is in
-- flight or queued; the queue's sum is right and within the limit; and the payloads written, in
-- flight and queued stand in the order they were received in.
pub run-accounts :
    (hash : Bytes → ℕ) (options : Options) (source : NtripSource) (es : List Event)
    → total_size (received es) < 2 ^ 64
    → IsTracked (received es) (run (start (new_session hash options source)) es)
unfolding start new_session in_flight total_size
run-accounts hash options source es small =
    let s = new_session hash options source in
    let first : Worker = record {
      session = record s { log = s.log ++ (starting ∷ []) };
      phase = opening;
      written = [];
      lost = [];
    } in
    let fresh : IsTracked [] (record first { phase = opening }) = record {
      totals = refl;
      queued = refl;
      bounded = omega arith;
      counted = refl;
      in_order = done;
    } in
    run-IsTracked [] (start s) es small (run_test-IsTracked [] first fresh)
