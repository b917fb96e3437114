-- ===== src/Bridge/Session/Relay.antt =====
-- The worker of src/nats2ntrip.cpp together with the connection of src/ntrip.cpp that it writes to.
use rtcmbridge.Base.{
  ℕ, zero, suc, ◌<◌, ◌≡◌, refl, ap, sym, ◌∙◌, false, some, List, [], ◌∷◌, ◌++◌, Bytes, length,
  arith, append_assoc, append-nil, ◌==◌,
}
use rtcmbridge.Ntrip.Options.{ntrip_ok}
use rtcmbridge.Ntrip.Source.{Upload, all_of, write_bytes, write_source}
use rtcmbridge.Ntrip.Source.Chunks.{
  AllSendable, body, read_chunks, write_all, write_all-read_chunks,
}
use rtcmbridge.Bridge.Session.{Session, sub64}
use rtcmbridge.Bridge.Session.Worker.{
  Phase, writing, Worker, stopping, stream_test, wrote, woken, popped, worker, worker_step, step,
}
use rtcmbridge.Bridge.Session.Drain.{at_wait, Drained}

-- The call that the worker is in returns: a write is that of the connection, which takes all bytes.
unfoldable pub pump_from : Phase → Worker → Upload → Worker × Upload
pump_from (writing payload) w u =
    let (status, u') = write_source all_of payload u in (step w (worker status), u')
pump_from _ w u = (step w (worker ntrip_ok), u)

unfoldable pub pump : Worker × Upload → Worker × Upload
pump (w, u) = pump_from w.phase w u

-- `n` times, the wait ends and the write returns.
unfoldable pub pumps : ℕ → Worker × Upload → Worker × Upload
pumps zero x = x
pumps (suc n) x = pumps n (pump (pump x))

not_empty : (n : ℕ) → 0 < n → (n == 0) ≡ false
not_empty n h = ground arith

wait_ends :
    (s : Session) (front : Bytes) (rest written lost : List Bytes) (u : Upload)
    → stopping s ≡ false
    → pump (at_wait s (front ∷ rest) written lost, u) ≡ (
      record (at_wait
          (record s { queued_bytes = sub64 s.queued_bytes (length front) })
          rest
          written
          lost) { phase = writing front },
      u,
    )
unfolding pump pump_from step worker_step woken popped
wait_ends s front rest written lost u h = rw h refl

write_returns :
    (s : Session) (front : Bytes) (rest written lost : List Bytes) (u : Upload)
    → stopping s ≡ false
    → 0 < length front
    → pump (record (at_wait s rest written lost) { phase = writing front }, u)
      ≡ (at_wait s rest (written ++ (front ∷ [])) lost, (write_source all_of front u).1)
unfolding pump pump_from write_source write_bytes step worker_step wrote stream_test
write_returns s front rest written lost u h k = rw (not_empty (length front) k) (rw h refl)

one_written :
    (x y : Worker × Upload) (v : Upload) (front : Bytes) (rest written lost : List Bytes)
    → x ≡ y
    → Drained rest (written ++ (front ∷ [])) lost y.0 × (y.1 ≡ v)
    → Drained (front ∷ rest) written lost x.0 × (x.1 ≡ v)
one_written x y v front rest written lost same (d, e) = rw same (
  record {
    all_written = d.all_written ∙ append_assoc written (front ∷ []) rest;
    none_queued = d.none_queued;
    waiting = d.waiting;
    none_lost = d.none_lost;
  },
  e,
)

-- The session has written its queue, and the connection the chunks of it.
pumps-write_all :
    (queue : List Bytes) (s : Session) (written lost : List Bytes) (u : Upload)
    → stopping s ≡ false
    → AllSendable queue
    → Drained queue written lost (pumps (length queue) (at_wait s queue written lost, u)).0
      × ((pumps (length queue) (at_wait s queue written lost, u)).1 ≡ write_all u queue)
unfolding pumps write_all
pumps-write_all [] s written lost u h sendable = (
  record {
    all_written = sym (append-nil written);
    none_queued = refl;
    waiting = refl;
    none_lost = refl;
  },
  refl,
)
pumps-write_all (front ∷ rest) s written lost u h sendable =
    let s' = record s { queued_bytes = sub64 s.queued_bytes (length front) } in
    let two =
      ap pump (wait_ends s front rest written lost u h)
      ∙ write_returns s' front rest written lost u h sendable.0.0 in
    one_written _ _ _ front rest written lost (ap (pumps (length rest)) two) (
      pumps-write_all rest s' (written ++ (front ∷ [])) lost (write_source all_of front u).1 h
        sendable.1)

-- While a connected session is not told to stop, its payloads are not empty, and the connection takes
-- what is written: the worker writes its whole queue, the oldest payload first, and waits for more; and
-- behind what was sent before, a caster that reads the chunked body gets exactly these payloads, each
-- as one chunk, in order.
pub pumps-read_chunks :
    (queue : List Bytes) (s : Session) (written lost : List Bytes) (u : Upload)
    → stopping s ≡ false
    → AllSendable queue
    → Drained queue written lost (pumps (length queue) (at_wait s queue written lost, u)).0
      × ((pumps (length queue) (at_wait s queue written lost, u)).1.sent ≡ u.sent ++ body queue)
      × (read_chunks (suc (length queue)) (body queue) ≡ some queue)
pumps-read_chunks queue s written lost u h sendable =
    let (drained, same) = pumps-write_all queue s written lost u h sendable in
    let (sent, read) = write_all-read_chunks u queue sendable in
    (drained, ap (λ (v : Upload). v.sent) same ∙ sent, read)
