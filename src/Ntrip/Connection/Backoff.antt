-- ===== src/Ntrip/Connection/Backoff.antt =====
-- The delay before a reconnection of `ntripConnection`.
use native.Mathlib.Nat.{pow-suc, one-le-pow, mul-le-mul_left}
use rtcmbridge.Base.{
  ltb→lt, ltb_false→le, ℕ, zero, suc, ◌+◌, ◌*◌, ◌^◌, ◌≤◌, min, ◌≡◌, refl, ap, ◌∙◌, Bool, true,
  false, not, Option, none, some, List, [], ◌∷◌, ◌++◌, arith, Bytes, length, take, drop, Bool-cases,
  inl, inr, ◌==◌, if◌then◌else◌, ltb,
}
use rtcmbridge.Base.Text.{find}
use rtcmbridge.Ntrip.Options.{Options, NtripSource}
use rtcmbridge.Ntrip.Connection.{
  Connection, Ec, success, aborted, error, reconnect, connect, on_read, on_written, on_timer,
  on_resolved, on_connected, send_request, handle_stream_bytes, handle_headers, consume,
  response_ok, blank_line, read_more, new_connection,
}

reconnect_fields :
    (c : Connection)
    → ((reconnect c).delay ≡ min (c.delay * 2) c.options.reconnect_max_sec)
      × ((reconnect c).options ≡ c.options)
unfolding reconnect
reconnect_fields c = (refl, refl)

-- `n` reconnections, whatever happened between them.
unfoldable pub reconnects : ℕ → Connection → Connection
reconnects zero c = c
reconnects (suc n) c = reconnects n (reconnect c)

pub min_scale : (a m p : ℕ) → 1 ≤ p → min (min a m * p) m ≡ min (a * p) m
min_scale a m p h =
    let grow_a : a * 1 ≤ a * p = mul-le-mul_left a h in
    let grow_m : m * 1 ≤ m * p = mul-le-mul_left m h in
    elim (Bool-cases (ltb m a)) [
      | inl over ↦
          let e : min a m ≡ m = omega (arith, ltb→lt _ _ over) in
          rw e (omega (arith, ltb→lt _ _ over))
      | inr under ↦ let e : min a m ≡ a = omega (arith, ltb_false→le _ _ under) in rw e
    ]

double_pos : (d n : ℕ) → d * 2 * 2 ^ n ≡ d * 2 ^ suc n
double_pos d n = omega (arith, ap (λ (t : ℕ). d * t) (pow-suc 2 n))

-- After `n` reconnections the delay is the first delay doubled `n` times, cut at the maximum.
pub reconnects-delay :
    (n : ℕ) (c : Connection)
    → c.delay ≤ c.options.reconnect_max_sec
    → (reconnects n c).delay ≡ min (c.delay * 2 ^ n) c.options.reconnect_max_sec
unfolding reconnects
reconnects-delay zero c h = omega arith
reconnects-delay (suc n) c h =
    let max_sec = c.options.reconnect_max_sec in
    let one : 1 ≤ 2 ^ n = one-le-pow n 2 (omega arith) in
    let capped : (reconnect c).delay ≤ (reconnect c).options.reconnect_max_sec =
      unfold reconnect in omega arith in
    let rest = reconnects-delay n (reconnect c) capped in
    rest
    ∙ unfold reconnect in
      (min_scale (c.delay * 2) max_sec (2 ^ n) one ∙ ap (λ k. min k max_sec) (double_pos c.delay n))

-- From `c` to `d` the delay has not fallen, is at most the maximum, and the options are the same.
pub record Keeps (c d : Connection) : Type 0 where
  pub options : d.options ≡ c.options
  pub grows : c.delay ≤ d.delay
  pub capped : d.delay ≤ c.options.reconnect_max_sec

abbrev pub IsCapped : Connection → Type 0
IsCapped c = c.delay ≤ c.options.reconnect_max_sec

Keeps-refl : (c d : Connection) → IsCapped c → d.delay ≡ c.delay → d.options ≡ c.options → Keeps c d
Keeps-refl c d h e o = record { options = o; grows = omega arith; capped = omega arith }

if-Keeps :
    (c : Connection) (b : Bool) {d e : Connection}
    → Keeps c d
    → Keeps c e
    → Keeps c (if b then d else e)
if-Keeps c true k l = k
if-Keeps c false k l = l

-- A step from a state that differs from `c` in its buffer and its flag only.
from-Keeps :
    (c d e : Connection) → d.delay ≡ c.delay → d.options ≡ c.options → Keeps d e → Keeps c e
from-Keeps c d e p q k = record {
  options = k.options ∙ q;
  grows = omega (arith, k.grows, p);
  capped = omega (arith, k.capped, ap (λ o. o.reconnect_max_sec) q);
}

emptied-Keeps : (c d : Connection) → Keeps c d → Keeps c (record d { response_buffer = [] })
emptied-Keeps c d k = record { options = k.options; grows = k.grows; capped = k.capped }

connect-Keeps : (c : Connection) → IsCapped c → Keeps c (connect c)
unfolding connect
connect-Keeps c h = Keeps-refl c _ h refl refl

reconnect-Keeps : (c : Connection) → IsCapped c → Keeps c (reconnect c)
unfolding reconnect
reconnect-Keeps c h = record { options = refl; grows = omega arith; capped = omega arith }

read_more-Keeps : (c d : Connection) → Keeps c d → Keeps c (read_more d)
unfolding read_more
read_more-Keeps c d k = record { options = k.options; grows = k.grows; capped = k.capped }

consume-Keeps : (c : Connection) (bytes : Bytes) → IsCapped c → Keeps c (consume c bytes)
unfolding consume
consume-Keeps c bytes h = elim (Bool-cases c.has_handler) [
  | inl e ↦ simp e (Keeps-refl c _ h refl refl)
  | inr e ↦ simp e (Keeps-refl c _ h refl refl)
]

handle_headers-Keeps : (c : Connection) (i : ℕ) → IsCapped c → Keeps c (handle_headers c i)
unfolding handle_headers
handle_headers-Keeps c i h =
    let ready = record c { headers_complete = true } in
    let payload = drop (i + 4) c.response_buffer in
    if-Keeps c (not (response_ok (take (i + 4) c.response_buffer))) (reconnect-Keeps c h) (
      emptied-Keeps c
        (if ltb (i + 4) (length c.response_buffer) then consume ready payload else ready)
        (if-Keeps c (ltb (i + 4) (length c.response_buffer))
          (from-Keeps c ready (consume ready payload) refl refl (consume-Keeps ready payload h))
          (Keeps-refl c ready h refl refl)))

ended-Keeps :
    (c : Connection) (found : Option ℕ)
    → IsCapped c
    → Keeps c (elim found [ none ↦ c | some i ↦ handle_headers c i ])
ended-Keeps c none h = Keeps-refl c c h refl refl
ended-Keeps c (some i) h = handle_headers-Keeps c i h

handle_stream_bytes-Keeps :
    (c : Connection) (bytes : Bytes) → IsCapped c → Keeps c (handle_stream_bytes c bytes)
unfolding handle_stream_bytes
handle_stream_bytes-Keeps c bytes h =
    let c' = record c { response_buffer = c.response_buffer ++ bytes } in
    if-Keeps c (length bytes == 0) (Keeps-refl c c h refl refl) (
      if-Keeps c c.headers_complete (consume-Keeps c bytes h)
        (from-Keeps c c' _ refl refl (ended-Keeps c' (find blank_line c'.response_buffer) h)))

send_request-Keeps :
    (encode_block : Bytes → Option Bytes) (c : Connection)
    → IsCapped c
    → Keeps c (send_request encode_block c)
unfolding send_request
send_request-Keeps encode_block c h =
    if-Keeps c _ (reconnect-Keeps c h) (Keeps-refl c _ h refl refl)

-- What can complete on a connection.
pub data Completion : Type 0 where
  resolved connected written timer : Ec → Completion
  received : Ec → Bytes → Completion

module _ (encode_block : Bytes → Option Bytes) where
  unfoldable pub complete : Connection → Completion → Connection
  complete c (resolved ec) = on_resolved c ec
  complete c (connected ec) = on_connected encode_block c ec
  complete c (written ec) = on_written c ec
  complete c (timer ec) = on_timer c ec
  complete c (received ec bytes) = on_read c ec bytes

  -- No completion, a successful connection included, lowers the delay or takes it over the maximum.
  pub complete-Keeps : (c : Connection) (e : Completion) → IsCapped c → Keeps c (complete c e)
  unfolding complete on_resolved on_connected on_written on_timer on_read
  complete-Keeps c (resolved success) h = Keeps-refl c _ h refl refl
  complete-Keeps c (resolved aborted) h = Keeps-refl c c h refl refl
  complete-Keeps c (resolved error) h = reconnect-Keeps c h
  complete-Keeps c (connected success) h = send_request-Keeps encode_block c h
  complete-Keeps c (connected aborted) h = Keeps-refl c c h refl refl
  complete-Keeps c (connected error) h = reconnect-Keeps c h
  complete-Keeps c (written success) h = read_more-Keeps c c (Keeps-refl c c h refl refl)
  complete-Keeps c (written aborted) h = Keeps-refl c c h refl refl
  complete-Keeps c (written error) h = reconnect-Keeps c h
  complete-Keeps c (timer success) h = connect-Keeps c h
  complete-Keeps c (timer aborted) h = Keeps-refl c c h refl refl
  complete-Keeps c (timer error) h = connect-Keeps c h
  complete-Keeps c (received success bytes) h =
      read_more-Keeps c _ (handle_stream_bytes-Keeps c bytes h)
  complete-Keeps c (received aborted bytes) h = Keeps-refl c c h refl refl
  complete-Keeps c (received error bytes) h = reconnect-Keeps c h

  -- Any history of completions.
  unfoldable pub run : Connection → List Completion → Connection
  run c [] = c
  run c (e ∷ es) = run (complete c e) es

  run-Keeps : (c : Connection) (es : List Completion) → IsCapped c → Keeps c (run c es)
  unfolding run
  run-Keeps c [] h = Keeps-refl c c h refl refl
  run-Keeps c (e ∷ es) h =
      let k = complete-Keeps c e h in
      let capped : IsCapped (complete c e) =
        omega (arith, k.capped, ap (λ o. o.reconnect_max_sec) k.options) in
      let l = run-Keeps (complete c e) es capped in
      record {
        options = l.options ∙ k.options;
        grows = omega (arith, k.grows, l.grows);
        capped = omega (arith, l.capped, ap (λ o. o.reconnect_max_sec) k.options);
      }

  -- In every history the delay lies between the configured bounds, and it never falls: once it has
  -- grown, no success brings it back to `reconnect_min_sec`.
  pub run-delay :
      (options : Options) (source : NtripSource) (es later : List Completion)
      → options.reconnect_min_sec ≤ options.reconnect_max_sec
      → let c = run (new_connection options source) es in
        (options.reconnect_min_sec ≤ c.delay)
        × (c.delay ≤ options.reconnect_max_sec)
        × (c.delay ≤ (run c later).delay)
  unfolding new_connection
  run-delay options source es later h =
      let first = new_connection options source in
      let c = run first es in
      let k = run-Keeps first es h in
      let capped : IsCapped c = omega (arith, k.capped, ap (λ o. o.reconnect_max_sec) k.options) in
      (k.grows, k.capped, (run-Keeps c later capped).grows)
