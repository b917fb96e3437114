-- ===== src/Logger.antt =====
-- `Logger` of src/logger.cpp and include/logger/logger.h: the worker thread as a machine whose phases
-- are the places where another thread can come between, and the calls of the other threads as steps.
pub mod Order
pub mod Ending
use rtcmbridge.Base.{
  ◌≡◌, Bool, true, false, not, ◌||◌, List, [], ◌∷◌, ◌++◌, Bytes, codes, if◌then◌else◌,
}

pub data Level : Type 0 where
  info warn error : Level

pub record Entry : Type 0 where
  pub level : Level
  pub context : Bytes
  pub message : Bytes

unfoldable pub level_name : Level → Bytes
level_name info = codes "INFO"
level_name warn = codes "WARN"
level_name error = codes "ERROR"

pub data Stream : Type 0 where
  cout cerr : Stream

abbrev pub stream_of : Level → Stream
stream_of error = cerr
stream_of _ = cout

-- What `emit` writes at the time `ts`, and to which stream.
unfoldable pub emit : Entry → Bytes → Stream × Bytes
unfolding level_name
emit e ts = (
  stream_of e.level,
  codes "["
      ++ ts
      ++ codes "]["
      ++ level_name e.level
      ++ codes "]["
      ++ e.context
      ++ codes "] "
      ++ e.message
      ++ codes "\n",
)

-- `starting`: before the lock is taken. `testing`: at the condition of `cv_.wait`.
-- `checked`: the condition was false, and the lock is not yet given up. `asleep`: in `cv_.wait`.
-- `draining`: at `while (!q_.empty())`. `emitting`: the lock is given up for `emit`.
pub data Phase : Type 0 where
  starting testing checked asleep draining finished : Phase
  emitting : Entry → Phase

-- `out` is what has been written; `pushed` and `emitted` record the entries that `enqueue` was given
-- and those that the worker has written: they are not in the source.
pub record Logger : Type 0 where
  pub queue : List Entry
  pub stop : Bool
  pub phase : Phase
  pub out : List (Stream × Bytes)
  pub pushed : List Entry
  pub emitted : List Entry

-- The constructor.
abbrev pub new_logger : Logger
new_logger = record {
  queue = [];
  stop = false;
  phase = starting;
  out = [];
  pushed = [];
  emitted = [];
}

abbrev pub is_empty : List Entry → Bool
is_empty [] = true
is_empty (_ ∷ _) = false

-- `emit` from any thread.
unfoldable pub emitted_by : Logger → Entry → Bytes → Logger
emitted_by l e ts = record l { out = l.out ++ (emit e ts ∷ []) }

-- The loop over the queue takes its front, or ends.
unfoldable pub pop_front : Logger → List Entry → Logger
pop_front l [] = record l { phase = if l.stop then finished else testing }
pop_front l (front ∷ rest) = record l { queue = rest; phase = emitting front }

-- One step of `run`, at the time `ts`.
unfoldable pub worker_step : Phase → Logger → Bytes → Logger
worker_step starting l ts = record l { phase = testing }
worker_step testing l ts = record l {
  phase = if l.stop || not (is_empty l.queue) then draining else checked;
}
worker_step checked l ts = record l { phase = asleep }
worker_step asleep l ts = l
worker_step draining l ts = pop_front l l.queue
worker_step finished l ts = l
worker_step (emitting e) l ts = record (emitted_by l e ts) {
  phase = draining;
  emitted = l.emitted ++ (e ∷ []);
}

unfoldable pub work : Logger → Bytes → Logger
work l ts = worker_step l.phase l ts

-- Whether the worker holds `mtx_`.
abbrev pub holds_lock : Phase → Bool
holds_lock testing = true
holds_lock checked = true
holds_lock draining = true
holds_lock _ = false

-- `q_.push` in `enqueue`, which has the lock.
unfoldable pub enqueue : Logger → Entry → Logger
enqueue l e = record l { queue = l.queue ++ (e ∷ []); pushed = l.pushed ++ (e ∷ []) }

abbrev pub awakened : Phase → Phase
awakened asleep = testing
awakened p = p

-- `cv_.notify_one` in `enqueue`, `cv_.notify_all` in `stop`, and a wake-up for no reason.
unfoldable pub notify : Logger → Logger
notify l = record l { phase = awakened l.phase }

-- `stop_ = true` in `stop`, which does not take the lock.
unfoldable pub set_stop : Logger → Logger
set_stop l = record l { stop = true }

-- One step of one thread.
pub data Step (l : Logger) : Logger → Type 0 where
  worker : (ts : Bytes) → Step l (work l ts)
  enqueued : (e : Entry) → holds_lock l.phase ≡ false → Step l (enqueue l e)
  notified : Step l (notify l)
  stopped : Step l (set_stop l)
  emit_sync : (e : Entry) (ts : Bytes) → Step l (emitted_by l e ts)

pub data Reach : Logger → Type 0 where
  start : Reach new_logger
  later : {l m : Logger} → Reach l → Step l m → Reach m
