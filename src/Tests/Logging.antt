-- ===== src/Tests/Logging.antt =====
-- `Logger` of src/logger.cpp in concrete histories.
use rtcmbridge.Base.{◌≡◌, refl, true, List, [], ◌∷◌, arith, Bytes, codes}
use rtcmbridge.Logger.{
  Entry, info, error, cerr, emit, asleep, Logger, new_logger, work, worker_step, pop_front,
  emitted_by, enqueue, notify, Reach, start, later, worker, enqueued, notified, emit_sync,
}
use rtcmbridge.Logger.Order.{Ordered, Reach-Ordered}
use rtcmbridge.Logger.Ending.{work_alone, stop, IsJoined, stop-IsJoined, stop_missed}

abbrev started : Entry
started = record { level = info; context = codes "main"; message = codes "started" }

abbrev failed : Entry
failed = record { level = error; context = codes "main"; message = codes "failed" }

emitted_text : emit failed (codes "12:00") ≡ (cerr, codes "[12:00][ERROR][main] failed\n")
unfolding emit
emitted_text = refl

abbrev t : Bytes
t = codes "12:00"

-- The worker has taken the lock, found the queue empty and not gone to sleep yet.
abbrev at_checked : Logger
at_checked = work (work new_logger t) t

abbrev at_checked-Reach : Reach at_checked
at_checked-Reach = later (later start (worker t)) (worker t)

abbrev sleeping : Logger
sleeping = work at_checked t

abbrev sleeping-Reach : Reach sleeping
sleeping-Reach = later at_checked-Reach (worker t)

-- Two entries are enqueued while the worker sleeps; it wakes and takes the first.
abbrev taking : Logger
taking = work (work (notify (enqueue (enqueue sleeping started) failed)) t) t

abbrev taking-Reach : Reach taking
unfolding work worker_step enqueue
taking-Reach =
    later
      (later
        (later (later (later sleeping-Reach (enqueued started refl)) (enqueued failed refl))
          notified)
        (worker t))
      (worker t)

Reach-Ordered_example : Ordered (emitted_by taking started t)
Reach-Ordered_example = Reach-Ordered (later taking-Reach (emit_sync started t))

abbrev times : List Bytes
times = t ∷ t ∷ t ∷ t ∷ t ∷ t ∷ []

stop-IsJoined_example : IsJoined taking (work_alone (stop taking) times)
unfolding work worker_step enqueue notify pop_front
stop-IsJoined_example = stop-IsJoined taking times taking-Reach (λ h. h) (omega arith)

stop_missed_example :
    work_alone (stop at_checked) (t ∷ times) ≡ record at_checked { stop = true; phase = asleep }
unfolding work worker_step
stop_missed_example = stop_missed at_checked t times refl
