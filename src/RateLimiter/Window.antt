-- ===== src/RateLimiter/Window.antt =====
-- The fixed windows of the rate limiter, and how long a refused client is told to wait.
use native.Mathlib.Nat.{div-add-mod, mod-lt, le-div_iff_mul-le, mul-le-mul_right}
use civic_pulse_24i3089_24i.Prelude.{ℕ, ◌+◌, ◌*◌, ◌/◌, ◌≤◌, ◌<◌, arith}
use civic_pulse_24i3089_24i.RateLimiter.{second, window_start, retry_after_of}

-- The time lies in the window: from its start, and before its end.
pub window_bounds :
    (window now : ℕ)
    → 0 < window
    → (window_start window now * second ≤ now) × (now < (window_start window now + window) * second)
unfolding window_start
window_bounds window now h =
    omega (arith, div-add-mod now (second * window), mod-lt now {m = second * window} (omega arith))

-- In windows of at least a second, what is told a refused client is at least a second and at most
-- the window.
pub retry_after_bounds :
    (window now : ℕ)
    → 0 < window
    → (1 ≤ retry_after_of window now) × (retry_after_of window now ≤ window)
unfolding retry_after_of
retry_after_bounds window now h = omega (arith, window_bounds window now h)

wait-reaches :
    (window now later : ℕ)
    → 0 < window
    → (now + retry_after_of window now * second) * 1000 + second ≤ later * 1000
    → (window_start window now + window) * second ≤ later
unfolding retry_after_of
wait-reaches window now later h e = omega (arith, window_bounds window now h)

-- In windows of at least a second, a client that waits for the announced time and a millisecond
-- more, or longer, is counted in a later window.
pub wait-next_window :
    (window now later : ℕ)
    → 0 < window
    → (now + retry_after_of window now * second) * 1000 + second ≤ later * 1000
    → window_start window now + window ≤ window_start window later
unfolding window_start
wait-next_window window now later h e =
    let reached : (now / (second * window) + 1) * (second * window) ≤ later =
      omega (arith, wait-reaches window now later h e) in
    let counted : now / (second * window) + 1 ≤ later / (second * window) =
      (le-div_iff_mul-le {x = now / (second * window) + 1} {y = later} (omega arith)).1 reached in
    omega (arith, mul-le-mul_right window counted)
