-- ===== src/Concurrency/Pruning.antt =====
-- What the pruning of the request limiter does to an address with requests in flight.
use lumenqraph.Base.{
  ℕ, ◌≤◌, ◌<◌, ◌≡◌, refl, Bool, true, false, ◌&&◌, none, [], ◌∷◌, length, In, here, there, ltb,
  arith, Bool-cases, inl, inr,
}
use lumenqraph.Base.Str.{Str, str_eq, eq_of_str_eq}
use lumenqraph.Base.Maps.{Map, get}
use lumenqraph.Concurrency.{IpState, Ips, entry_or, retain, pruned, admit, acquire}

get-retain-none :
    {V : Type 0} (keep : V → Bool) (k : Str) (m : Map V)
    → ((v : V) → In (k, v) m → keep v ≡ false)
    → get (retain keep m) k ≡ none
unfolding get retain
get-retain-none keep k [] gone = refl
get-retain-none keep k ((j, v) ∷ m) gone = elim (Bool-cases (str_eq j k)) [
  | inl e ↦
      rw (gone v (rw (← eq_of_str_eq j k e) here))
        (get-retain-none keep k m (λ w i. gone w (there i)))
  | inr e ↦ ground (arith, e, get-retain-none keep k m (λ w i. gone w (there i)))
]

module _ {Secs : Type 0} (recent : Secs → Secs → Bool) (max_tracked : ℕ) where
  pruned-none :
      (now : Secs) (ip : Str) (ips : Ips Secs)
      → max_tracked ≤ length ips
      → ((s : IpState Secs) → In (ip, s) ips → recent now s.last_activity_secs ≡ false)
      → get (pruned recent max_tracked now ips) ip ≡ none
  unfolding pruned
  pruned-none now ip ips full stale = ground (
    arith,
    get-retain-none (λ s. recent now s.last_activity_secs && ltb 0 s.in_flight) ip ips
        (λ s i. rw (stale s i) refl),
  )

  -- When the table is full, an address that was not active in the last 10 seconds is admitted as
  -- if it had no request in flight, whatever its entry counts, for a limit that is not 0.
  acquire_forgets :
      (now : Secs) (ip : Str) (max_concurrent : ℕ) (ips : Ips Secs)
      → max_tracked ≤ length ips
      → ((s : IpState Secs) → In (ip, s) ips → recent now s.last_activity_secs ≡ false)
      → 0 < max_concurrent
      → (acquire recent max_tracked now ip max_concurrent ips).1
        ≡ (record { allowed = true; current_in_flight = 1; limit = max_concurrent })
  unfolding acquire admit entry_or
  acquire_forgets now ip max_concurrent ips full stale limited =
      rw (pruned-none now ip ips full stale) (ground arith)
