-- ===== src/Concurrency/Requests.antt =====
-- The request limiter counts the requests that hold a slot, and keeps its limit, while it never
-- has so many addresses that it prunes.
use lumenqraph.Base.{
  ℕ, suc, ◌+◌, ◌-◌, ◌≤◌, ◌<◌, ◌≡◌, refl, ◌∙◌, Bool, true, false, ◌&&◌, Option, none, some, List, [],
  ◌∷◌, ◌++◌, length, ltb, ◌==◌, if◌then◌else◌, arith, Bool-cases, inl, inr,
}
use lumenqraph.Base.Str.{Str, str_eq, eq_of_str_eq}
use lumenqraph.Base.Maps.{get, insert, get-insert}
use lumenqraph.Concurrency.{
  IpState, Ips, ConcurrencyLimitStatus, entry_or, pruned, admit, acquire, release, try_acquire,
  drop_slot, ConcurrencySlot,
}

-- The requests in flight that an entry stands for.
abbrev state_in_flight : {Secs : Type 0} → Option (IpState Secs) → ℕ
state_in_flight none = 0
state_in_flight (some s) = s.in_flight

abbrev pub in_flight : {Secs : Type 0} → Str → Ips Secs → ℕ
in_flight k ips = state_in_flight (get ips k)

-- How many of the slots count for an address.
abbrev pub live : Str → List ConcurrencySlot → ℕ
live k [] = 0
live k (s ∷ slots) = if s.counted && str_eq s.ip k then suc (live k slots) else live k slots

live-append : (k : Str) (xs ys : List ConcurrencySlot) → live k (xs ++ ys) ≡ live k xs + live k ys
live-append k [] ys = omega arith
live-append k (x ∷ xs) ys = ground (arith, live-append k xs ys)

in_flight-insert :
    {Secs : Type 0} (k j : Str) (s : IpState Secs) (m : Ips Secs)
    → in_flight j (insert k s m) ≡ (if str_eq k j then s.in_flight else in_flight j m)
in_flight-insert k j s m = ground (arith, get-insert k j s m)

in_flight-release :
    {Secs : Type 0} (ip k : Str) (o : Option (IpState Secs)) (m : Ips Secs)
    → get m ip ≡ o
    → in_flight k (release ip m) ≡ (if str_eq ip k then in_flight k m - 1 else in_flight k m)
unfolding release
in_flight-release ip k none m e = rw (release, e) (ground (arith, e, eq_of_str_eq ip k))
in_flight-release ip k (some s) m e =
    rw (release, e)
      (ground (
        arith,
        e,
        in_flight-insert ip k (record s { in_flight = s.in_flight - 1 }) m,
        eq_of_str_eq ip k,
      ))

module _ {Secs : Type 0} (recent : Secs → Secs → Bool) (max_tracked max_concurrent : ℕ) where
  -- The limiter and the slots that are held.
  pub record Requests : Type 0 where
    pub ips : Ips Secs
    pub slots : List ConcurrencySlot

  -- A request is granted a slot, is refused, or ends and drops its slot.
  pub data RequestStep : Requests → Requests → Type 0 where
    granted :
        (now : Secs) (ip : Str) (slot : ConcurrencySlot) (s : Requests)
        → length s.ips < max_tracked
        → (try_acquire recent max_tracked now ip max_concurrent s.ips).1 ≡ some slot
        → RequestStep s (record {
          ips = (try_acquire recent max_tracked now ip max_concurrent s.ips).0;
          slots = slot ∷ s.slots;
        })
    refused :
        (now : Secs) (ip : Str) (s : Requests)
        → length s.ips < max_tracked
        → (try_acquire recent max_tracked now ip max_concurrent s.ips).1 ≡ none
        → RequestStep s (record {
          ips = (try_acquire recent max_tracked now ip max_concurrent s.ips).0;
          slots = s.slots;
        })
    finished :
        (slot : ConcurrencySlot) (ips : Ips Secs) (front back : List ConcurrencySlot)
        → RequestStep
            (record { ips = ips; slots = front ++ slot ∷ back })
            (record { ips = drop_slot slot ips; slots = front ++ back })

  pub data RequestReach : Requests → Type 0 where
    idle : RequestReach (record { ips = []; slots = [] })
    next : {s t : Requests} → RequestReach s → RequestStep s t → RequestReach t

  pub record IsBounded (s : Requests) : Type 0 where
    pub account : (k : Str) → in_flight k s.ips ≡ live k s.slots
    pub bound : (k : Str) → live k s.slots ≤ max_concurrent

  admitted :
      (now : Secs) (ip k : Str) (m : Ips Secs) (st : IpState Secs)
      → in_flight ip m ≡ st.in_flight
      → in_flight k (admit recent max_tracked now ip max_concurrent m st).0 ≡ (
          if (admit recent max_tracked now ip max_concurrent m st).1.allowed && str_eq ip k
          then suc (in_flight k m)
          else in_flight k m)
  unfolding admit
  admitted now ip k m st e = ground (
    arith,
    e,
    in_flight-insert ip k (record { in_flight = st.in_flight + 1; last_activity_secs = now }) m,
    in_flight-insert ip k (record { in_flight = st.in_flight; last_activity_secs = now }) m,
    eq_of_str_eq ip k,
  )

  admitted_below :
      (now : Secs) (ip : Str) (m : Ips Secs) (st : IpState Secs)
      → (admit recent max_tracked now ip max_concurrent m st).1.allowed ≡ true
      → st.in_flight < max_concurrent
  unfolding admit
  admitted_below now ip m st ok = ground (arith, ok)

  entry-in_flight :
      (now : Secs) (ip : Str) (m : Ips Secs)
      → in_flight ip m
        ≡ (entry_or (record { in_flight = 0; last_activity_secs = now }) (get m ip)).in_flight
  unfolding entry_or
  entry-in_flight now ip m = ground arith

  pruned-room :
      (now : Secs) (m : Ips Secs) → length m < max_tracked → pruned recent max_tracked now m ≡ m
  unfolding pruned
  pruned-room now m room = ground arith

  -- The account after a request for a slot, by its outcome.
  record Outcome (ip : Str) (m m' : Ips Secs) (slot : Option ConcurrencySlot) : Type 0 where
    account :
        (s : ConcurrencySlot)
        → slot ≡ some s
        → (k : Str)
        → in_flight k m'
          ≡ (if s.counted && str_eq s.ip k then suc (in_flight k m) else in_flight k m)
    below :
        (s : ConcurrencySlot) → slot ≡ some s → s.counted ≡ true → in_flight s.ip m < max_concurrent
    same : slot ≡ none → (k : Str) → in_flight k m' ≡ in_flight k m

  admit-Outcome :
      (ip : Str) (m : Ips Secs) (r : Ips Secs × ConcurrencyLimitStatus)
      → ((k : Str)
          → in_flight k r.0
            ≡ (if r.1.allowed && str_eq ip k then suc (in_flight k m) else in_flight k m))
      → (r.1.allowed ≡ true → in_flight ip m < max_concurrent)
      → (max_concurrent == 0) ≡ false
      → Outcome ip m r.0
          (if r.1.allowed then some (record { ip = ip; counted = ltb 0 max_concurrent }) else none)
  admit-Outcome ip m r acc below z = record {
    account = λ s e k. ground (arith, e, acc k);
    below = λ s e c. ground (arith, e, below);
    same = λ e k. ground (arith, e, acc k);
  }

  unlimited-Outcome :
      (ip : Str) (m : Ips Secs) (max : ℕ)
      → (max == 0) ≡ true
      → Outcome ip m m (some (record { ip = ip; counted = ltb 0 max }))
  unlimited-Outcome ip m max z = record {
    account = λ s e k. ground (arith, e);
    below = λ s e c. ground (arith, e);
    same = λ e k. ground (arith, e);
  }

  try_acquire-Outcome :
      (now : Secs) (ip : Str) (m : Ips Secs)
      → length m < max_tracked
      → Outcome ip m
          (try_acquire recent max_tracked now ip max_concurrent m).0
          (try_acquire recent max_tracked now ip max_concurrent m).1
  unfolding try_acquire acquire
  try_acquire-Outcome now ip m room = elim (Bool-cases (max_concurrent == 0)) [
    | inl z ↦ rw z (unlimited-Outcome ip m max_concurrent z)
    | inr z ↦
        let st = entry_or (record { in_flight = 0; last_activity_secs = now }) (get m ip) in
        let e = entry-in_flight now ip m in
        rw (z, pruned-room now m room)
          (admit-Outcome ip m (admit recent max_tracked now ip max_concurrent m st)
            (λ k. admitted now ip k m st e) (λ ok. rw e (admitted_below now ip m st ok)) z)
  ]

  drop_slot-account :
      (slot : ConcurrencySlot) (k : Str) (m : Ips Secs)
      → in_flight k (drop_slot slot m)
        ≡ (if slot.counted && str_eq slot.ip k then in_flight k m - 1 else in_flight k m)
  unfolding drop_slot
  drop_slot-account slot k m = ground (arith, in_flight-release slot.ip k (get m slot.ip) m refl)

  bound_step :
      (s : ConcurrencySlot) (k : Str) (slots : List ConcurrencySlot) (m : Ips Secs)
      → in_flight s.ip m ≡ live s.ip slots
      → (s.counted ≡ true → in_flight s.ip m < max_concurrent)
      → live k slots ≤ max_concurrent
      → live k (s ∷ slots) ≤ max_concurrent
  bound_step s k slots m acc below h = ground (arith, eq_of_str_eq s.ip k)

  RequestStep-IsBounded : {s t : Requests} → RequestStep s t → IsBounded s → IsBounded t
  RequestStep-IsBounded (granted now ip slot s room e) w =
      let o = try_acquire-Outcome now ip s.ips room in
      record {
        account = λ k. ground (arith, o.account slot e k, w.account k);
        bound =
            λ k. bound_step slot k s.slots s.ips (w.account slot.ip) (o.below slot e) (w.bound k);
      }
  RequestStep-IsBounded (refused now ip s room e) w =
      let o = try_acquire-Outcome now ip s.ips room in
      record { account = λ k. o.same e k ∙ w.account k; bound = w.bound }
  RequestStep-IsBounded (finished slot ips front back) w = record {
    account = λ k. ground (
      arith,
      drop_slot-account slot k ips,
      w.account k,
      live-append k front (slot ∷ back),
      live-append k front back,
    );
    bound =
        λ k. ground (arith, w.bound k, live-append k front (slot ∷ back), live-append k front back);
  }

  -- In every state reached with fewer addresses than the bound, the counter of an address is the
  -- number of the counted slots that are held for it, and that is at most the limit.
  pub requests-IsBounded : {s : Requests} → RequestReach s → IsBounded s
  unfolding get
  requests-IsBounded idle = record { account = λ k. refl; bound = λ k. omega arith }
  requests-IsBounded (next r st) = RequestStep-IsBounded st (requests-IsBounded r)
