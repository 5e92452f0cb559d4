-- ===== src/Poller/Ranges.antt =====
-- No ledger between the cursor and the tip is lost without a record.
use lumenqraph.Base.{ℕ, ◌-◌, ◌≤◌, ◌<◌, ◌≡◌, Bool, true, Option, List, any, leb, ◌&&◌, arith}
use lumenqraph.Poller.{
  Config, MissedRange, oldest_available, first_ledger, clamp_retention, clamp_catchup, fetch_from,
  plan_from, plan_cycle,
}

-- Whether a ledger is in a range that is recorded.
abbrev pub is_recorded : ℕ → List MissedRange → Bool
is_recorded l ranges = any (λ (r : MissedRange). leb r.from_ledger l && leb l r.to_ledger) ranges

-- What a plan promises, from the ledger where the cycle would start.
pub record IsGapless (config : Config) (first latest oldest start : ℕ) (ranges : List MissedRange)
    : Type 0 where
  pub covered : (l : ℕ) → first ≤ l → l < start → is_recorded l ranges ≡ true
  pub exact : (l : ℕ) → is_recorded l ranges ≡ true → (first ≤ l) × (l < start)
  pub forward : first ≤ start
  pub served : oldest ≤ start
  pub near : latest - start ≤ config.max_catchup_ledgers

-- A cycle that is going to fetch from a ledger has, before it fetches, recorded as missed exactly
-- the ledgers from where it would have started up to that one, which is served and within the
-- catch-up window.
pub plan_cycle-IsGapless :
    (config : Config) (last_processed : Option ℕ) (latest : ℕ) (health : Option ℕ) (start : ℕ)
    (ranges : List MissedRange)
    → plan_cycle config last_processed latest health ≡ fetch_from start ranges
    → IsGapless config
        (first_ledger config last_processed latest)
        latest
        (oldest_available latest health)
        start
        ranges
unfolding plan_cycle plan_from clamp_retention clamp_catchup any
plan_cycle-IsGapless config last_processed latest health start ranges e =
    go (oldest_available latest health) (first_ledger config last_processed latest) e
  where
    go :
        (oldest first : ℕ)
        → plan_from config latest oldest first ≡ fetch_from start ranges
        → IsGapless config first latest oldest start ranges
    go oldest first e = record {
      covered = λ l low high. ground (arith, e, low, high);
      exact = λ l r. ground (arith, e, r);
      forward = ground (arith, e);
      served = ground (arith, e);
      near = ground (arith, e);
    }
