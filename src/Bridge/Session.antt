-- ===== src/Bridge/Session.antt =====
-- `StreamSession` of src/nats2ntrip.cpp: the queue between the NATS callback and the worker.
-- The worker's loop is in Worker. A `uint64_t` or `size_t` sum keeps its remainder by 2^64.
pub mod Trim
pub mod Worker
pub mod Accounts
pub mod Order
pub mod History
pub mod Delay
pub mod Drain
pub mod Stopping
pub mod Relay
use rtcmbridge.Base.{
  ℕ, zero, suc, ◌+◌, ◌-◌, ◌*◌, ◌/◌, ◌%◌, ◌^◌, min, max, Bool, true, false, ◌||◌, Option, none, some,
  List, [], ◌∷◌, ◌++◌, String, Bytes, length, ltb, leb, ◌==◌, if◌then◌else◌, codes,
}
use rtcmbridge.Base.Int.{ℤ, pos, negsuc}
use rtcmbridge.Ntrip.Options.{Options, NtripSource}

-- What the session logs; a number is the one that the text shows.
pub data Line : Type 0 where
  starting connected : Line
  streamed dropped discarded reconnecting : ℕ → Line
  failure : String → Line

-- `stop` is `stop_`, and `g_stop` the flag that the signal handler sets.
pub record Session : Type 0 where
  pub options : Options
  pub subject : Bytes
  pub reconnect_delay : ℕ
  pub reconnect_jitter_ms : ℕ
  pub queue : List Bytes
  pub stop : Bool
  pub g_stop : Bool
  pub total : ℕ
  pub last_log : ℕ
  pub queued_bytes : ℕ
  pub dropped_bytes : ℕ
  pub log : List Line

-- The constructor; `hash` is `std::hash<std::string>`.
unfoldable pub new_session : (Bytes → ℕ) → Options → NtripSource → Session
new_session hash options source =
    let subject = codes "NTRIP." ++ source.name in
    record {
      options = options;
      subject = subject;
      reconnect_delay = options.reconnect_min_sec;
      reconnect_jitter_ms = hash subject % 1000;
      queue = [];
      stop = false;
      g_stop = false;
      total = 0;
      last_log = 0;
      queued_bytes = 0;
      dropped_bytes = 0;
      log = [];
    }

-- The cast of an `int` to `uint64_t`.
abbrev pub to_u64 : ℤ → ℕ
to_u64 (pos n) = n
to_u64 (negsuc k) = 2 ^ 64 - 1 - k

-- `std::max(1, n)`
abbrev pub at_least_one : ℤ → ℕ
at_least_one (pos n) = max 1 n
at_least_one (negsuc k) = 1

unfoldable pub max_queue_bytes : Options → ℕ
max_queue_bytes o = max (256 * 1024) (at_least_one o.throughput_log_every_bytes * 4 % 2 ^ 64)

abbrev pub sub64 : ℕ → ℕ → ℕ
sub64 a b = (a + 2 ^ 64 - b) % 2 ^ 64

abbrev pub add64 : ℕ → ℕ → ℕ
add64 a b = (a + b) % 2 ^ 64

-- The queue, its bytes and the bytes dropped, with `dropped_any`.
pub record Backlog : Type 0 where
  pub queue : List Bytes
  pub queued_bytes : ℕ
  pub dropped_bytes : ℕ
  pub dropped_any : Bool

-- `while (queued_bytes_ > max_queue_bytes() && !queue_.empty())`
unfoldable pub trim_loop : ℕ → List Bytes → ℕ → ℕ → Bool → Backlog
trim_loop limit [] queued gone any = record {
  queue = [];
  queued_bytes = queued;
  dropped_bytes = gone;
  dropped_any = any;
}
trim_loop limit (front ∷ rest) queued gone any =
    let after =
      trim_loop limit rest (sub64 queued (length front)) (add64 gone (length front)) true in
    if ltb limit queued then after else record {
      queue = front ∷ rest;
      queued_bytes = queued;
      dropped_bytes = gone;
      dropped_any = any;
    }

unfoldable pub trim_queue : Session → Session
trim_queue s =
    let b = trim_loop (max_queue_bytes s.options) s.queue s.queued_bytes s.dropped_bytes false in
    record s {
      queue = b.queue;
      queued_bytes = b.queued_bytes;
      dropped_bytes = b.dropped_bytes;
      log = if b.dropped_any then s.log ++ (dropped (b.dropped_bytes / 1024) ∷ []) else s.log;
    }

unfoldable pub log_throughput : Session → Session
log_throughput s =
    if leb (to_u64 s.options.throughput_log_every_bytes) (sub64 s.total s.last_log)
    then record s { log = s.log ++ (streamed (s.total / 1024) ∷ []); last_log = s.total }
    else s

unfoldable pub enqueue : Session → Bytes → Session
enqueue s payload =
    let size = length payload in
    log_throughput (
      trim_queue (record s {
        queue = s.queue ++ (payload ∷ []);
        queued_bytes = add64 s.queued_bytes size;
        total = add64 s.total size;
      }))

-- `on_nats_msg`: the data of the message, `none` when it is null.
unfoldable pub on_nats_msg : Session → Option Bytes → Session
on_nats_msg s none = s
on_nats_msg s (some payload) = if length payload == 0 then s else enqueue s payload

-- The sum that `clear_queue_locked` makes.
unfoldable pub cleared_bytes : ℕ → List Bytes → ℕ
cleared_bytes sum [] = sum
cleared_bytes sum (front ∷ rest) = cleared_bytes (add64 sum (length front)) rest

-- `clear_queue_locked` on the queue that it finds.
unfoldable pub clear_from : Session → List Bytes → Session
clear_from s [] = s
clear_from s (front ∷ rest) =
    let cleared = cleared_bytes 0 (front ∷ rest) in
    record s {
      queue = [];
      queued_bytes = 0;
      dropped_bytes = add64 s.dropped_bytes cleared;
      log = s.log ++ (discarded (cleared / 1024) ∷ []);
    }

abbrev pub clear_queue : Session → Session
clear_queue s = clear_from s s.queue
