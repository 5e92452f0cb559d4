-- ===== src/Poller/Examples.antt =====
-- Concrete cycles and rounds, and the theorems at them.
use lumenqraph.Base.{◌≡◌, refl, true, false, none, some, List, [], ◌∷◌, if◌then◌else◌}
use lumenqraph.Base.Str.{lit}
use lumenqraph.Poller.{
  Config, MissedRange, oldest_available, first_ledger, nothing_new, fetch_from, plan_cycle,
  LoopState, base_interval, degraded_interval, initial_state, failed, run_round,
}
use lumenqraph.Poller.Ranges.{IsGapless, plan_cycle-IsGapless}
use lumenqraph.Base.{◌==◌, Option, none, ℕ, Bool, false, here, there, ◌++◌}
use lumenqraph.Base.Str.{Str}
use lumenqraph.Base.Result.{Result, ok}
use lumenqraph.Poller.Fetch.{EventsPage, Stored, convert, fetch_loop}
use lumenqraph.Poller.Fetch.Complete.{fetch_loop-skipped}
use lumenqraph.Poller.Backoff.{started, failed_again, IsPaced, loop-IsPaced}

abbrev config : Config
config = record {
  start_ledger = 0;
  max_catchup_ledgers = 4_000;
  poll_interval_secs = 5;
  degraded_poll_interval_secs = 300;
  max_consecutive_errors = 1;
}

-- The cursor is at 100, ledgers are served from 150, and the tip is 10 000.
abbrev ranges : List MissedRange
ranges =
    (record {
      from_ledger = 101;
      to_ledger = 149;
      reason = lit "retention-window skip";
      recoverable = false;
    })
    ∷ (record {
      from_ledger = 150;
      to_ledger = 5_999;
      reason = lit "catch-up skip";
      recoverable = true;
    })
    ∷ []

ranges-plan : plan_cycle config (some 100) 10_000 (some 150) ≡ fetch_from 6_000 ranges
unfolding plan_cycle first_ledger oldest_available lumenqraph.Poller.plan_from
    lumenqraph.Poller.clamp_retention lumenqraph.Poller.clamp_catchup
ranges-plan = refl

plan_cycle-IsGapless_example :
    IsGapless config
      (first_ledger config (some 100) 10_000)
      10_000
      (oldest_available 10_000 (some 150))
      6_000
      ranges
plan_cycle-IsGapless_example =
    plan_cycle-IsGapless config (some 100) 10_000 (some 150) 6_000 ranges ranges-plan

-- One failure opens the circuit breaker.
abbrev broken : LoopState
broken = record { backoff = 300; consecutive_errors = 1 }

broken_round : run_round config failed (initial_state config) ≡ some (broken, 300)
unfolding run_round initial_state lumenqraph.Poller.after_failure lumenqraph.Poller.circuit_open
broken_round = refl

loop-IsPaced_example : IsPaced config broken 1
loop-IsPaced_example = loop-IsPaced (failed_again started broken_round)

abbrev patient : Config
patient = record config { max_consecutive_errors = 0 }

-- Two pages of two events each; an event is its ledger.
abbrev get_events : Option ℕ → Result Str (EventsPage ℕ ℕ)
get_events none = ok (record { events = 7 ∷ 8 ∷ []; cursor = some 1 })
get_events (some t) = ok (record { events = 9 ∷ 10 ∷ []; cursor = none })

abbrev nothing_stored : Stored ℕ
nothing_stored = record { inserted = []; missed = []; errors = 0 }

-- A conversion that knows every event, and one that refuses ledger 8.
abbrev known : ℕ → Option ℕ
known e = some e

abbrev refuses_8 : ℕ → Option ℕ
refuses_8 e = if e == 8 then none else some e

abbrev running : ℕ → Bool
running k = false

fetch_loop-skipped_example :
    fetch_loop (λ e. e) refuses_8 get_events running 2 10 9 none 0 7 nothing_stored
    ≡ some (ok (record nothing_stored { inserted = [] ++ convert refuses_8 (7 ∷ 8 ∷ []) }))
fetch_loop-skipped_example =
    fetch_loop-skipped (λ e. e) refuses_8 get_events running 2 10 {token = none} refl refl
      (there here) refl 8 0 7 nothing_stored refl
