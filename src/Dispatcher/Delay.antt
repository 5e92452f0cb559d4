-- ===== src/Dispatcher/Delay.antt =====
-- `jittered_backoff`: the delay of a retry.
use native.Mathlib.Nat.{pow-suc}
use lumenqraph.Base.{ℕ, zero, suc, ◌-◌, ◌^◌, ◌≤◌, ◌≡◌, min, max, arith}

abbrev pub backoff_cap_secs : ℕ
backoff_cap_secs = 3_600

abbrev pub backoff_floor_secs : ℕ
backoff_floor_secs = 1

-- The window that the delay is drawn from; the power saturates at the largest `i64`.
unfoldable pub window : ℕ → ℕ
window attempts =
    max (min (min (2 ^ max attempts 1) (2 ^ 63 - 1)) backoff_cap_secs) backoff_floor_secs

-- The delay, for the number that was drawn.
unfoldable pub jittered_backoff : ℕ → ℕ
jittered_backoff drawn = max drawn backoff_floor_secs

power_positive : (n : ℕ) → 1 ≤ 2 ^ n
power_positive zero = omega arith
power_positive (suc n) = grind (arith, power_positive n, pow-suc 2 n)

-- A delay that is drawn from the window is at least the floor, at most the cap, and, from the first
-- attempt on, at most 2 to the number of attempts.
jittered_backoff_bounds :
    (attempts drawn : ℕ)
    → 1 ≤ attempts
    → drawn ≤ window attempts
    → (backoff_floor_secs ≤ jittered_backoff drawn)
      × (jittered_backoff drawn ≤ backoff_cap_secs)
      × (jittered_backoff drawn ≤ 2 ^ attempts)
unfolding window jittered_backoff
jittered_backoff_bounds attempts drawn some_attempt h =
    let e : max attempts 1 ≡ attempts = omega arith in
    let within : drawn
        ≤ max (min (min (2 ^ attempts) (2 ^ 63 - 1)) backoff_cap_secs) backoff_floor_secs =
      rw e at h in
    let positive : 1 ≤ 2 ^ attempts = power_positive attempts in
    (omega arith, omega (arith, within), omega (arith, within, positive))
