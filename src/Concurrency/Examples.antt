-- ===== src/Concurrency/Examples.antt =====
-- Concrete limiters, and the theorems at them.
use lumenqraph.Base.{ℕ, ◌+◌, ◌≡◌, refl, Bool, true, false, [], ◌∷◌, In, here, there, ltb, arith}
use lumenqraph.Base.Str.{lit}
use lumenqraph.Base.Maps.{get}
use lumenqraph.Concurrency.{
  IpState, Ips, ConcurrencySlot, SseStreamLimiter, acquire, try_acquire, acquire_stream,
  streams_new, max_tracked_ips,
}
use lumenqraph.Concurrency.Streams.{
  Streams, StreamReach, start, step, opened, IsWithin, streams-IsWithin,
}
use lumenqraph.Concurrency.Requests.{
  Requests, RequestReach, idle, next, granted, IsBounded, requests-IsBounded,
}

-- One stream is open, under a limit of one per key and two in all.
abbrev one_stream : Streams
one_stream = record { limiter = (acquire_stream (lit "k") 1 2 streams_new).0; held = lit "k" ∷ [] }

one_stream-Reach : StreamReach 1 2 one_stream
unfolding acquire_stream lumenqraph.Concurrency.key_count lumenqraph.Concurrency.entry_or get
one_stream-Reach = step start (opened (lit "k") (record { limiter = streams_new; held = [] }) refl)

streams-IsWithin_example : IsWithin 1 2 one_stream
streams-IsWithin_example = streams-IsWithin one_stream-Reach

-- The clock counts seconds.
abbrev recent : ℕ → ℕ → Bool
recent now t = ltb now (t + 10)

abbrev first_slot : ConcurrencySlot
first_slot = record { ip = lit "10.1.1.1"; counted = true }

abbrev one_request : Requests recent max_tracked_ips 1
one_request = record {
  ips = (try_acquire recent max_tracked_ips 5 (lit "10.1.1.1") 1 []).0;
  slots = first_slot ∷ [];
}

one_request-Reach : RequestReach recent max_tracked_ips 1 one_request
unfolding try_acquire acquire lumenqraph.Concurrency.pruned lumenqraph.Concurrency.admit
    lumenqraph.Concurrency.entry_or get
one_request-Reach =
    next idle
      (granted 5 (lit "10.1.1.1") first_slot (record { ips = []; slots = [] }) (omega arith) refl)

requests-IsBounded_example : IsBounded recent max_tracked_ips 1 one_request
requests-IsBounded_example = requests-IsBounded recent max_tracked_ips 1 one_request-Reach

-- A table of one address is full, and has seven requests of it in flight.
abbrev seven : IpState ℕ
seven = record { in_flight = 7; last_activity_secs = 0 }

abbrev full : Ips ℕ
full = (lit "10.1.1.1", seven) ∷ []

seven_only : (s : IpState ℕ) → In (lit "10.1.1.1", s) full → recent 20 s.last_activity_secs ≡ false
seven_only s here = refl
seven_only s (there m) = elim m [ ]
