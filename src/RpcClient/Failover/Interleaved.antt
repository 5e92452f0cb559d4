-- ===== src/RpcClient/Failover/Interleaved.antt =====
-- The failover under any interleaving of the calls that share a client.
use lumenqraph.Base.{ℕ, ◌<◌, ◌≡◌, refl, ◌↔◌, Option, none, List, length, arith}
use lumenqraph.Base.Str.{Str}
use lumenqraph.RpcClient.Failover.{Client, with_urls, try_failover, fail_back}

-- The states of a shared client. A call advances from the endpoint that it read some time before,
-- a probe that was answered fails back, and the counters and the pinned network change freely.
pub data FailoverReach (urls : List Str) : Client → Type 0 where
  started : FailoverReach urls with_urls
  advanced :
      {c : Client}
      → FailoverReach urls c
      → (now from_idx : ℕ) → FailoverReach urls (try_failover urls now from_idx c).0
  recovered : {c : Client} → FailoverReach urls c → FailoverReach urls (fail_back c)
  counted :
      {c : Client}
      → FailoverReach urls c
      → (made failed failed_32001 : ℕ) (pinned : Option Str)
      → FailoverReach urls (record c {
        calls_made = made;
        calls_failed = failed;
        calls_failed_32001 = failed_32001;
        network_passphrase = pinned;
      })

-- The active endpoint exists, its snapshot for the metrics is it, and the time of a failover is
-- kept exactly while it is not the primary.
pub record IsConsistent (urls : List Str) (c : Client) : Type 0 where
  pub in_range : c.failover.active_idx < length urls
  pub snapshot : c.active_url_idx ≡ c.failover.active_idx
  pub timed : (c.failover.last_failover_at ≡ none) ↔ (c.failover.active_idx ≡ 0)

pub try_failover-IsConsistent :
    (urls : List Str) (now from_idx : ℕ) (c : Client)
    → IsConsistent urls c
    → IsConsistent urls (try_failover urls now from_idx c).0
unfolding try_failover
try_failover-IsConsistent urls now from_idx c i = record {
  in_range = ground (arith, i.in_range);
  snapshot = ground (arith, i.snapshot);
  timed = ground (arith, i.timed);
}

pub fail_back-IsConsistent :
    (urls : List Str) (c : Client) → IsConsistent urls c → IsConsistent urls (fail_back c)
unfolding fail_back
fail_back-IsConsistent urls c i = record {
  in_range = ground (arith, i.in_range);
  snapshot = ground (arith, i.snapshot);
  timed = ground (arith, i.timed);
}

-- In every state that concurrent calls bring a client with an endpoint to, the active endpoint
-- exists, the snapshot for the metrics is the active endpoint, and the time of a failover is kept
-- exactly while the active endpoint is not the primary.
pub failover-IsConsistent :
    {urls : List Str} {c : Client} → 0 < length urls → FailoverReach urls c → IsConsistent urls c
unfolding with_urls
failover-IsConsistent some_url started = record {
  in_range = some_url;
  snapshot = refl;
  timed = (λ h. refl, λ h. refl);
}
failover-IsConsistent {urls} some_url (advanced {c} r now from_idx) =
    try_failover-IsConsistent urls now from_idx c (failover-IsConsistent some_url r)
failover-IsConsistent {urls} some_url (recovered {c} r) =
    fail_back-IsConsistent urls c (failover-IsConsistent some_url r)
failover-IsConsistent some_url (counted r made failed failed_32001 pinned) =
    let i = failover-IsConsistent some_url r in
    record { in_range = i.in_range; snapshot = i.snapshot; timed = i.timed }

-- Two calls that fail on the same endpoint advance a consistent client once: the second one leaves
-- the state and goes on with the endpoint that the first one chose.
try_failover_twice :
    (urls : List Str) (now later from_idx : ℕ) (c : Client)
    → IsConsistent urls c
    → try_failover urls later from_idx (try_failover urls now from_idx c).0
      ≡ ((try_failover urls now from_idx c).0, (try_failover urls now from_idx c).1)
unfolding try_failover
try_failover_twice urls now later from_idx c i = ground (arith, i.in_range)
