-- ===== src/RpcClient/Failover.antt =====
-- The failover between the endpoints, of crates/lumenqraph-indexer/src/rpc_client.rs: the client's
-- state, `try_failover` and the fail-back. Each of them holds the mutex throughout, so concurrent
-- calls interleave them as a whole. An instant is its number of milliseconds.
pub mod Interleaved
use lumenqraph.Base.{
  ℕ, ◌+◌, ◌-◌, ◌%◌, ◌^◌, min, Bool, false, not, ◌&&◌, Option, none, some, List, length, leb, ◌==◌,
  if◌then◌else◌,
}
use lumenqraph.Base.Str.{Str}

pub record FailoverState : Type 0 where
  pub active_idx : ℕ
  pub last_failover_at : Option ℕ

-- `RpcClient`, without the HTTP client and the list of endpoints. The counters are `u64`.
pub record Client : Type 0 where
  pub failover : FailoverState
  pub calls_made : ℕ
  pub calls_failed : ℕ
  pub calls_failed_32001 : ℕ
  pub failover_count : ℕ
  pub active_url_idx : ℕ
  pub network_passphrase : Option Str

unfoldable pub with_urls : Client
with_urls = record {
  failover = record { active_idx = 0; last_failover_at = none };
  calls_made = 0;
  calls_failed = 0;
  calls_failed_32001 = 0;
  failover_count = 0;
  active_url_idx = 0;
  network_passphrase = none;
}

abbrev pub fetch_add : ℕ → ℕ
fetch_add n = (n + 1) % 2 ^ 64

-- The end of the list is where there is nowhere to advance. The number of endpoints is not 0, as
-- `with_urls` asserts.
unfoldable pub try_failover : List Str → ℕ → ℕ → Client → Client × ℕ
try_failover urls now from_idx c =
    let next : ℕ = min (from_idx + 1) (length urls - 1) in
    if c.failover.active_idx == from_idx
    then (
      (if not (next == from_idx)
          then record c {
            failover = record { active_idx = next; last_failover_at = some now };
            active_url_idx = next;
            failover_count = fetch_add c.failover_count;
          }
          else c),
      next,
    )
    else (c, c.failover.active_idx)

abbrev pub primary_probe_interval : ℕ
primary_probe_interval = 60_000

-- The first part of `maybe_probe_primary`: whether the primary is asked.
unfoldable pub should_probe : ℕ → Client → Bool
should_probe now c = not (c.failover.active_idx == 0) && (elim c.failover.last_failover_at [
  | none ↦ false
  | some t ↦ leb primary_probe_interval (now - t)
])

-- Its last part, after the primary has answered.
unfoldable pub fail_back : Client → Client
fail_back c =
    if not (c.failover.active_idx == 0)
    then record c {
      failover = record { active_idx = 0; last_failover_at = none };
      active_url_idx = 0;
    }
    else c
