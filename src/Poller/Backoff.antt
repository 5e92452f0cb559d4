-- ===== src/Poller/Backoff.antt =====
-- How long the poller sleeps between cycles.
use lumenqraph.Base.{
  ℕ, zero, suc, ◌*◌, ◌%◌, ◌^◌, ◌≤◌, ◌<◌, ◌≡◌, min, max, none, some, leb, if◌then◌else◌, arith,
}
use lumenqraph.Poller.{
  Config, LoopState, processed, failed, base_interval, degraded_interval, initial_state,
  circuit_open, after_failure, run_round,
}

-- The states of the loop, with the number of failures since the last cycle that succeeded.
pub data LoopReach (config : Config) : LoopState → ℕ → Type 0 where
  started : LoopReach config (initial_state config) 0
  succeeded :
      {s t : LoopState} {k sleep : ℕ}
      → LoopReach config s k
      → run_round config processed s ≡ some (t, sleep)
      → LoopReach config t 0
  failed_again :
      {s t : LoopState} {k sleep : ℕ}
      → LoopReach config s k
      → run_round config failed s ≡ some (t, sleep)
      → LoopReach config t (suc k)

-- The counter counts the failures in a row, as a `u32`, and the next sleep is bounded.
pub record IsPaced (config : Config) (s : LoopState) (k : ℕ) : Type 0 where
  pub counted : s.consecutive_errors ≡ k % 2 ^ 32
  pub positive : 1 ≤ s.backoff
  pub bounded : s.backoff ≤ max 60 (max (base_interval config) (degraded_interval config))

-- In every state that the loop reaches, the counter of errors is the number of failures since the
-- last success modulo 2 ^ 32, and the backoff is at least a second and at most the longest of a
-- minute and the two intervals.
pub loop-IsPaced :
    {config : Config} {s : LoopState} {k : ℕ} → LoopReach config s k → IsPaced config s k
unfolding initial_state run_round after_failure
loop-IsPaced started = record {
  counted = omega arith;
  positive = omega arith;
  bounded = omega arith;
}
loop-IsPaced (succeeded r e) = record {
  counted = ground (arith, e);
  positive = ground (arith, e);
  bounded = ground (arith, e);
}
loop-IsPaced (failed_again r e) =
    let p = loop-IsPaced r in
    record {
      counted = ground (arith, e, p.counted);
      positive = ground (arith, e, p.positive);
      bounded = ground (arith, e, p.bounded);
    }

-- The state after a number of failures in a row.
abbrev pub after_failures : Config → ℕ → LoopState → LoopState
after_failures config zero s = s
after_failures config (suc k) s =
    let t = after_failures config k s in
    elim (run_round config failed t) [ none ↦ t | some (t', sleep) ↦ t' ]

doubled : (b k : ℕ) → b * 2 ^ suc k ≡ (b * 2 ^ k) * 2
doubled b k = grind arith

-- With the circuit breaker off and an interval of at most a minute, the backoff doubles with each
-- failure in a row, up to a minute.
after_failures-backoff :
    (config : Config) (k : ℕ)
    → config.max_consecutive_errors ≡ 0
    → base_interval config ≤ 60
    → (after_failures config k (initial_state config)).backoff
      ≡ min (base_interval config * 2 ^ k) 60
unfolding initial_state run_round after_failure circuit_open
after_failures-backoff config zero off short = omega arith
after_failures-backoff config (suc k) off short =
    ground (arith, off, doubled (base_interval config) k, after_failures-backoff config k off short)

-- With the circuit breaker set and fewer than 2 ^ 32 failures in a row, a failure sleeps for the
-- degraded interval if it makes their number reach the threshold, and for the backoff otherwise.
run_round-sleep :
    {config : Config} {s t : LoopState} {k sleep : ℕ}
    → LoopReach config s k
    → suc k < 2 ^ 32
    → 0 < config.max_consecutive_errors
    → run_round config failed s ≡ some (t, sleep)
    → sleep
      ≡ (if leb config.max_consecutive_errors (suc k) then degraded_interval config else s.backoff)
unfolding run_round after_failure circuit_open
run_round-sleep r small on e = ground (arith, e, small, on, (loop-IsPaced r).counted)
