-- ===== src/Concurrency.antt =====
-- crates/lumenqraph-api/src/concurrency_limit.rs: the per-IP limiter of requests in flight, and the
-- limiter of event streams. A hash map is an association list; no operation sees its order. A
-- mutex makes each operation one step.
mod Examples
pub mod Pruning
pub mod Requests
pub mod Streams
use lumenqraph.Base.{
  ℕ, zero, suc, ◌+◌, ◌-◌, Bool, true, false, not, ◌&&◌, ◌||◌, Option, none, some, List, [], ◌∷◌,
  length, ltb, leb, ◌==◌, if◌then◌else◌,
}
use lumenqraph.Base.Str.{Str, str_eq}
use lumenqraph.Base.Maps.{Map, get, insert}

-- `retain`: the entries whose value passes the test.
unfoldable pub retain {ℓ} : {V : Type ℓ} → (V → Bool) → Map V → Map V
retain keep [] = []
retain keep ((k, v) ∷ m) = let rest = retain keep m in if keep v then (k, v) ∷ rest else rest

-- `map.remove(k)`.
unfoldable pub remove {ℓ} : {V : Type ℓ} → Str → Map V → Map V
remove k [] = []
remove k ((j, v) ∷ m) = let rest = remove k m in if str_eq j k then rest else (j, v) ∷ rest

abbrev pub max_tracked_ips : ℕ
max_tracked_ips = 100_000

pub record ConcurrencyLimitStatus : Type 0 where
  pub allowed : Bool
  pub current_in_flight : ℕ
  pub limit : ℕ

-- `Secs` is the type of the `f64` clock.
pub record IpState (Secs : Type 0) : Type 0 where
  pub in_flight : ℕ
  pub last_activity_secs : Secs

abbrev pub Ips : Type 0 → Type 0
Ips Secs = Map (IpState Secs)

-- `entry(ip).or_insert_with(…)`.
unfoldable pub entry_or {ℓ} : {V : Type ℓ} → V → Option V → V
entry_or fresh none = fresh
entry_or fresh (some v) = v

-- `recent now t` is the test `t > now - 10.0`. The bound on the tracked addresses, which is
-- `max_tracked_ips` in the code, is a parameter: what is proved holds for every bound.
module _ {Secs : Type 0} (recent : Secs → Secs → Bool) (max_tracked : ℕ) where
  -- Pruning, if too many addresses are tracked.
  unfoldable pub pruned : Secs → Ips Secs → Ips Secs
  pruned now ips =
      if leb max_tracked (length ips)
      then retain (λ s. recent now s.last_activity_secs && ltb 0 s.in_flight) ips
      else ips

  -- What `acquire` makes of the entry of the address.
  unfoldable pub admit :
      Secs → Str → ℕ → Ips Secs → IpState Secs → Ips Secs × ConcurrencyLimitStatus
  admit now ip max_concurrent ips state =
      if ltb state.in_flight max_concurrent
      then (
        insert ip (record { in_flight = state.in_flight + 1; last_activity_secs = now }) ips,
        record { allowed = true; current_in_flight = state.in_flight + 1; limit = max_concurrent },
      )
      else (
        insert ip (record { in_flight = state.in_flight; last_activity_secs = now }) ips,
        record { allowed = false; current_in_flight = state.in_flight; limit = max_concurrent },
      )

  unfoldable pub acquire : Secs → Str → ℕ → Ips Secs → Ips Secs × ConcurrencyLimitStatus
  acquire now ip max_concurrent ips =
      if max_concurrent == 0
      then (ips, record { allowed = true; current_in_flight = 0; limit = max_concurrent })
      else admit now ip max_concurrent (pruned now ips)
          (entry_or (record { in_flight = 0; last_activity_secs = now }) (get (pruned now ips) ip))

module _ {Secs : Type 0} where
  unfoldable pub release : Str → Ips Secs → Ips Secs
  release ip ips = elim (get ips ip) [
    | none ↦ ips
    | some state ↦
        if ltb 0 state.in_flight
        then insert ip (record state { in_flight = state.in_flight - 1 }) ips
        else ips
  ]

-- `ConcurrencySlot`: the address, and whether the slot was counted.
pub record ConcurrencySlot : Type 0 where
  pub ip : Str
  pub counted : Bool

module _ {Secs : Type 0} (recent : Secs → Secs → Bool) (max_tracked : ℕ) where
  unfoldable pub try_acquire : Secs → Str → ℕ → Ips Secs → Ips Secs × Option ConcurrencySlot
  try_acquire now ip max_concurrent ips =
      let (ips', status) = acquire recent max_tracked now ip max_concurrent ips in
      (
        ips',
        (if status.allowed
            then some (record { ip = ip; counted = ltb 0 max_concurrent })
            else none),
      )

-- `Drop for ConcurrencySlot`.
unfoldable pub drop_slot : {Secs : Type 0} → ConcurrencySlot → Ips Secs → Ips Secs
drop_slot slot ips = if slot.counted then release slot.ip ips else ips

pub record SseStreamStatus : Type 0 where
  pub allowed : Bool
  pub current_streams : ℕ
  pub limit : ℕ

pub record SseStreamLimiter : Type 0 where
  pub per_key : Map ℕ
  pub global : ℕ

abbrev pub streams_new : SseStreamLimiter
streams_new = record { per_key = []; global = 0 }

-- `per_key.get(key).copied().unwrap_or(0)`.
unfoldable pub key_count : Str → Map ℕ → ℕ
key_count key m = entry_or 0 (get m key)

unfoldable pub acquire_stream : Str → ℕ → ℕ → SseStreamLimiter → SseStreamLimiter × SseStreamStatus
acquire_stream key max_per_key max_global l =
    let current_key = key_count key l.per_key in
    let key_blocked = not (max_per_key == 0) && leb max_per_key current_key in
    let global_blocked = not (max_global == 0) && leb max_global l.global in
    if key_blocked || global_blocked
    then (l, record { allowed = false; current_streams = l.global; limit = max_global })
    else (
      record { per_key = insert key (current_key + 1) l.per_key; global = l.global + 1 },
      record { allowed = true; current_streams = l.global + 1; limit = max_global },
    )

-- The decrement of a key's count, which goes with its entry at zero.
unfoldable pub release_key : Str → Option ℕ → Map ℕ → Map ℕ
release_key key none m = m
release_key key (some count) m = if count - 1 == 0 then remove key m else insert key (count - 1) m

unfoldable pub release_stream : Str → SseStreamLimiter → SseStreamLimiter
release_stream key l = record {
  per_key = release_key key (get l.per_key key) l.per_key;
  global = if ltb 0 l.global then l.global - 1 else l.global;
}
