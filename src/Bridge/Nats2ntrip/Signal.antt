-- ===== src/Bridge/Nats2ntrip/Signal.antt =====
-- The wait of `main` in src/nats2ntrip.cpp for the signal, `g_stop_cv.wait(lk, …)`, and the handler of
-- the signal, which can run at any place of it and does not take the mutex.
use rtcmbridge.Base.{ℕ, zero, suc, ◌≡◌, refl, ap, ◌∙◌, Bool, true, if◌then◌else◌}

-- `testing`: at the predicate. `checked`: it was false, and the mutex is not yet given up.
-- `asleep`: in the wait. `stopping`: behind it.
pub data Phase : Type 0 where
  testing checked asleep stopping : Phase

pub record Waiter : Type 0 where
  pub g_stop : Bool
  pub phase : Phase

unfoldable pub step_from : Phase → Bool → Phase
step_from testing g_stop = if g_stop then stopping else checked
step_from checked g_stop = asleep
step_from asleep g_stop = asleep
step_from stopping g_stop = stopping

-- One step of `main`.
unfoldable pub wait_step : Waiter → Waiter
wait_step w = record w { phase = step_from w.phase w.g_stop }

unfoldable pub wait_steps : ℕ → Waiter → Waiter
wait_steps zero w = w
wait_steps (suc n) w = wait_steps n (wait_step w)

-- `notify_all`
unfoldable pub awakened : Phase → Phase
awakened testing = testing
awakened checked = checked
awakened asleep = testing
awakened stopping = stopping

unfoldable pub handle_signal : Waiter → Waiter
handle_signal w = record { g_stop = true; phase = awakened w.phase }

-- Where the wait stands for good.
unfoldable pub misses : Phase → Phase
misses testing = stopping
misses checked = asleep
misses asleep = stopping
misses stopping = stopping

wait_steps-still :
    (n : ℕ) (w : Waiter) → step_from w.phase w.g_stop ≡ w.phase → (wait_steps n w).phase ≡ w.phase
unfolding wait_steps wait_step
wait_steps-still zero w h = refl
wait_steps-still (suc n) w h =
    wait_steps-still n (wait_step w) (ap (λ p. step_from p w.g_stop) h) ∙ h

two_steps :
    (p : Phase) (n : ℕ)
    → (wait_steps n
        (record { g_stop = true; phase = step_from (step_from (awakened p) true) true })).phase
      ≡ misses p
unfolding step_from awakened misses
two_steps testing n = wait_steps-still n _ refl
two_steps checked n = wait_steps-still n _ refl
two_steps asleep n = wait_steps-still n _ refl
two_steps stopping n = wait_steps-still n _ refl

-- After a signal main goes on within two steps, unless the handler has run between the test of the
-- predicate and the sleep: then main sleeps, however long one waits.
pub handle_signal-misses :
    (w : Waiter) (n : ℕ) → (wait_steps (suc (suc n)) (handle_signal w)).phase ≡ misses w.phase
unfolding wait_steps wait_step handle_signal
handle_signal-misses w n = two_steps w.phase n
