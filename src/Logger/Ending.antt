-- ===== src/Logger/Ending.antt =====
-- The end of the logger of src/logger.cpp: what the worker does after `stop`.
use rtcmbridge.Base.{
  ℕ, ◌+◌, ◌*◌, ◌≤◌, ◌<◌, ◌≡◌, refl, sym, ap, ◌∙◌, true, List, [], ◌∷◌, ◌++◌, Bytes, length, arith,
  append-nil, ◌⊎◌, inl, inr,
}
use rtcmbridge.Logger.{
  Entry, Phase, starting, testing, checked, asleep, draining, finished, emitting, Logger,
  emitted_by, pop_front, worker_step, work, awakened, notify, set_stop, worker, notified, stopped,
  Reach, later,
}
use rtcmbridge.Logger.Order.{in_flight, Ordered, Reach-Ordered}

-- The worker's steps at these times, with no other thread between.
unfoldable pub work_alone : Logger → List Bytes → Logger
work_alone l [] = l
work_alone l (ts ∷ times) = work_alone (work l ts) times

-- `stop`
abbrev pub stop : Logger → Logger
stop l = notify (set_stop l)

-- The steps that the worker has before it, with so many entries in the queue, once it is to stop. The
-- phases in which it does not go on by itself have none.
abbrev pub steps_left : Phase → ℕ → ℕ
steps_left starting n = 2 * n + 3
steps_left testing n = 2 * n + 2
steps_left draining n = 2 * n + 1
steps_left (emitting _) n = 2 * n + 2
steps_left _ n = 0

pub record HasEnded (l m : Logger) : Type 0 where
  pub ended : m.phase ≡ finished
  pub emptied : m.queue ≡ []
  pub same_pushed : m.pushed ≡ l.pushed

-- The worker goes on, with fewer steps before it than `left`.
record GoesOn (l : Logger) (left : ℕ) (m : Logger) : Type 0 where
  stops : m.stop ≡ true
  fewer : steps_left m.phase (length m.queue) < left
  some_left : 0 < steps_left m.phase (length m.queue)
  kept : m.pushed ≡ l.pushed

pop_front_lem :
    (l : Logger) (queue : List Entry)
    → l.stop ≡ true
    → l.queue ≡ queue
    → HasEnded l (pop_front l queue) ⊎ GoesOn l (2 * length queue + 1) (pop_front l queue)
unfolding pop_front
pop_front_lem l [] s q = simp s (inl record { ended = refl; emptied = q; same_pushed = refl })
pop_front_lem l (front ∷ rest) s q =
    inr record { stops = s; fewer = omega arith; some_left = omega arith; kept = refl }

step_lem :
    (p : Phase) (l : Logger) (ts : Bytes)
    → l.stop ≡ true
    → 0 < steps_left p (length l.queue)
    → HasEnded l (worker_step p l ts)
      ⊎ GoesOn l (steps_left p (length l.queue)) (worker_step p l ts)
unfolding worker_step emitted_by
step_lem starting l ts s h =
    inr record { stops = s; fewer = omega arith; some_left = omega arith; kept = refl }
step_lem testing l ts s h =
    simp s (inr record { stops = refl; fewer = omega arith; some_left = omega arith; kept = refl })
step_lem checked l ts s h = absurd (omega arith)
step_lem asleep l ts s h = absurd (omega arith)
step_lem draining l ts s h = pop_front_lem l l.queue s refl
step_lem finished l ts s h = absurd (omega arith)
step_lem (emitting front) l ts s h =
    inr record { stops = s; fewer = omega arith; some_left = omega arith; kept = refl }

-- In a phase in which it does nothing the worker does nothing for ever.
work_alone_idle :
    (p : Phase)
    → ((l : Logger) (ts : Bytes) → worker_step p l ts ≡ l)
    → (l : Logger) (times : List Bytes) → l.phase ≡ p
    → work_alone l times ≡ l
unfolding work_alone work
work_alone_idle p idle l [] e = refl
work_alone_idle p idle l (ts ∷ times) e =
    let same : work l ts ≡ l = ap (λ q. worker_step q l ts) e ∙ idle l ts in
    ap (λ m. work_alone m times) same ∙ work_alone_idle p idle l times e

still_finished : (l : Logger) (times : List Bytes) → l.phase ≡ finished → work_alone l times ≡ l
unfolding worker_step
still_finished = work_alone_idle finished (λ l ts. refl)

still_asleep : (l : Logger) (times : List Bytes) → l.phase ≡ asleep → work_alone l times ≡ l
unfolding worker_step
still_asleep = work_alone_idle asleep (λ l ts. refl)

work_alone-HasEnded :
    (times : List Bytes) (l : Logger)
    → l.stop ≡ true
    → 0 < steps_left l.phase (length l.queue)
    → steps_left l.phase (length l.queue) ≤ length times
    → HasEnded l (work_alone l times)
unfolding work_alone work
work_alone-HasEnded [] l s h k = absurd (omega arith)
work_alone-HasEnded (ts ∷ times) l s h k = elim (step_lem l.phase l ts s h) [
  | inl done ↦ rw (still_finished (work l ts) times done.ended) done
  | inr on ↦
      let e = work_alone-HasEnded times (work l ts) on.stops on.some_left (omega arith) in
      record { ended = e.ended; emptied = e.emptied; same_pushed = e.same_pushed ∙ on.kept }
]

work_alone-Ordered : (l : Logger) (times : List Bytes) → Reach l → Ordered (work_alone l times)
unfolding work_alone
work_alone-Ordered l [] r = Reach-Ordered r
work_alone-Ordered l (ts ∷ times) r = work_alone-Ordered (work l ts) times (later r (worker ts))

-- The worker is between its test of the condition and its sleep, or has ended.
abbrev pub Misses : Phase → Type 0
Misses checked = Unit
Misses finished = Unit
Misses _ = ⊥

stop_some_left : (p : Phase) (n : ℕ) → ¬ Misses p → 0 < steps_left (awakened p) n
stop_some_left starting n h = omega arith
stop_some_left testing n h = omega arith
stop_some_left draining n h = omega arith
stop_some_left (emitting e) n h = omega arith
stop_some_left asleep n h = omega arith
stop_some_left checked n h = absurd (h tt)
stop_some_left finished n h = absurd (h tt)

steps_left_bound : (p : Phase) (n : ℕ) → steps_left p n ≤ 2 * n + 3
steps_left_bound starting n = omega arith
steps_left_bound testing n = omega arith
steps_left_bound draining n = omega arith
steps_left_bound (emitting e) n = omega arith
steps_left_bound asleep n = omega arith
steps_left_bound checked n = omega arith
steps_left_bound finished n = omega arith

all_emitted_of_ended :
    (m : Logger) → Ordered m → m.phase ≡ finished → m.queue ≡ [] → m.emitted ≡ m.pushed
all_emitted_of_ended m o e q =
    let none_left : in_flight m.phase ++ m.queue ≡ [] = ap (λ p. in_flight p ++ m.queue) e ∙ q in
    sym (append-nil m.emitted) ∙ ap (λ x. m.emitted ++ x) (sym none_left) ∙ o.order

-- The worker has ended, and all that was enqueued is written.
pub record IsJoined (l m : Logger) : Type 0 where
  pub ended : m.phase ≡ finished
  pub emptied : m.queue ≡ []
  pub all_emitted : m.emitted ≡ l.pushed

-- Whenever stop() is called in a history and does not fall between the worker's test of its condition
-- and its sleep, the worker ends within two steps for each entry that waits and three more, and has
-- then written every entry that was enqueued, in order.
pub stop-IsJoined :
    (l : Logger) (times : List Bytes)
    → Reach l
    → ¬ Misses l.phase
    → 2 * length l.queue + 3 ≤ length times
    → IsJoined l (work_alone (stop l) times)
unfolding notify set_stop
stop-IsJoined l times r m h =
    let r' : Reach (stop l) = later (later r stopped) notified in
    let n = length l.queue in
    let enough : steps_left (awakened l.phase) n ≤ length times =
      omega (arith, steps_left_bound (awakened l.phase) n) in
    let e = work_alone-HasEnded times (stop l) refl (stop_some_left l.phase n m) enough in
    let o = work_alone-Ordered (stop l) times r' in
    record {
      ended = e.ended;
      emptied = e.emptied;
      all_emitted = all_emitted_of_ended _ o e.ended e.emptied ∙ e.same_pushed;
    }

-- When stop() falls between the worker's test of its condition and its sleep, the wake-up is lost: the
-- worker sleeps and never ends by itself.
pub stop_missed :
    (l : Logger) (ts : Bytes) (times : List Bytes)
    → l.phase ≡ checked
    → work_alone (stop l) (ts ∷ times) ≡ record l { stop = true; phase = asleep }
unfolding work_alone notify set_stop work worker_step
stop_missed l ts times e =
    let sleeps : work (stop l) ts ≡ record l { stop = true; phase = asleep } =
      ap (λ p. worker_step (awakened p) (record l { stop = true; phase = awakened p }) ts) e in
    ap (λ m. work_alone m times) sleeps
    ∙ still_asleep (record l { stop = true; phase = asleep }) times refl
