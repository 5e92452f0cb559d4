-- ===== src/Poller.antt =====
-- crates/lumenqraph-indexer/src/poller.rs: the range of ledgers of a poll cycle, and the loop's backoff
-- and circuit breaker. Ledger numbers are not negative, so they are natural numbers; a configured
-- start that is not positive is 0. An interval is its number of seconds.
mod Examples
pub mod Ranges
pub mod Backoff
pub mod Fetch
use lumenqraph.Base.{
  ℕ, suc, ◌+◌, ◌-◌, ◌*◌, ◌%◌, ◌^◌, min, max, Bool, true, false, ◌&&◌, Option, none, some, List, [],
  ◌∷◌, ◌++◌, ltb, leb, ◌==◌, if◌then◌else◌,
}
use lumenqraph.Base.Str.{Str, lit}

-- What the poller reads of the configuration.
pub record Config : Type 0 where
  pub start_ledger : ℕ
  pub max_catchup_ledgers : ℕ
  pub poll_interval_secs : ℕ
  pub degraded_poll_interval_secs : ℕ
  pub max_consecutive_errors : ℕ

abbrev pub max_lookback_ledgers : ℕ
max_lookback_ledgers = 120_000

-- A row of `missed_ranges`.
pub record MissedRange : Type 0 where
  pub from_ledger : ℕ
  pub to_ledger : ℕ
  pub reason : Str
  pub recoverable : Bool

-- The oldest ledger that is served, from the answer to `getHealth`, or `none` for its failure.
unfoldable pub oldest_available : ℕ → Option ℕ → ℕ
oldest_available latest none = max (latest - max_lookback_ledgers) 1
oldest_available latest (some oldest) =
    if ltb 0 oldest then max oldest 1 else max (latest - max_lookback_ledgers) 1

-- Where the cycle would start: after the cursor, or at the configured ledger, or at the tip.
unfoldable pub first_ledger : Config → Option ℕ → ℕ → ℕ
first_ledger config (some last_processed) latest = last_processed + 1
first_ledger config none latest = if ltb 0 config.start_ledger then config.start_ledger else latest

-- The clamp to what is served: the new start, and what it records as missed.
unfoldable pub clamp_retention : ℕ → ℕ → ℕ × List MissedRange
clamp_retention oldest start =
    if ltb start oldest
    then (
      oldest,
      (record {
        from_ledger = start;
        to_ledger = oldest - 1;
        reason = lit "retention-window skip";
        recoverable = false;
      })
          ∷ [],
    )
    else (start, [])

-- The clamp to the catch-up window.
unfoldable pub clamp_catchup : ℕ → ℕ → ℕ → ℕ × List MissedRange
clamp_catchup max_catchup latest start =
    if ltb max_catchup (latest - start)
    then (
      latest - max_catchup,
      (if ltb start (latest - max_catchup)
          then (record {
            from_ledger = start;
            to_ledger = latest - max_catchup - 1;
            reason = lit "catch-up skip";
            recoverable = true;
          })
            ∷ []
          else []),
    )
    else (start, [])

-- What a cycle will do: nothing new, or fetch from a ledger to the tip after recording ranges.
pub data CyclePlan : Type 0 where
  nothing_new : CyclePlan
  fetch_from : ℕ → List MissedRange → CyclePlan

unfoldable pub plan_from : Config → ℕ → ℕ → ℕ → CyclePlan
plan_from config latest oldest start =
    if ltb latest start
    then nothing_new
    else (let (clamped, skipped) = clamp_retention oldest start in
        let (from_ledger, behind) = clamp_catchup config.max_catchup_ledgers latest clamped in
        fetch_from from_ledger (skipped ++ behind))

-- The part of `poll_once` up to the fetching.
unfoldable pub plan_cycle : Config → Option ℕ → ℕ → Option ℕ → CyclePlan
plan_cycle config last_processed latest health =
    plan_from config latest (oldest_available latest health)
      (first_ledger config last_processed latest)

-- The variables of the loop.
pub record LoopState : Type 0 where
  pub backoff : ℕ
  pub consecutive_errors : ℕ

-- How a cycle ended; a failure that will not go away is `permanent`.
pub data PollOutcome : Type 0 where
  processed failed permanent : PollOutcome

abbrev pub base_interval : Config → ℕ
base_interval config = max config.poll_interval_secs 1

abbrev pub degraded_interval : Config → ℕ
degraded_interval config = max config.degraded_poll_interval_secs 1

unfoldable pub initial_state : Config → LoopState
initial_state config = record { backoff = base_interval config; consecutive_errors = 0 }

-- Whether the circuit breaker is open.
unfoldable pub circuit_open : Config → ℕ → Bool
circuit_open config errors =
    ltb 0 config.max_consecutive_errors && leb config.max_consecutive_errors errors

-- A failed cycle, for the new number of errors in a row: the new state, and how long to sleep.
unfoldable pub after_failure : Config → ℕ → ℕ → LoopState × ℕ
after_failure config errors backoff =
    if circuit_open config errors
    then (
      record { backoff = degraded_interval config; consecutive_errors = errors },
      degraded_interval config,
    )
    else (record { backoff = min (backoff * 2) 60; consecutive_errors = errors }, backoff)

-- One round of the loop; `none` is the return with an error. The counter is a `u32`.
unfoldable pub run_round : Config → PollOutcome → LoopState → Option (LoopState × ℕ)
run_round config processed s =
    some (record { backoff = base_interval config; consecutive_errors = 0 }, base_interval config)
run_round config permanent s = none
run_round config failed s =
    some (after_failure config ((s.consecutive_errors + 1) % 2 ^ 32) s.backoff)
