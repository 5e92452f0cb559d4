-- ===== src/Dispatcher/Examples.antt =====
-- A subscription at its threshold, and the theorems at it.
use lumenqraph.Base.{ℕ, ◌+◌, ◌*◌, ◌≡◌, ◌↔◌, refl, true, false, none, some, List, [], ◌∷◌, length}
use lumenqraph.Dispatcher.{Subscription, SendResult, responded, send_error, settle}
use lumenqraph.Dispatcher.Disabling.{IsDue, settle-inactive, settle_all, settle_all-count}
use lumenqraph.Base.{ℕ, ◌≡◌, ◌+◌, refl, Bool, true, false, Option, none, some, List, [], ◌∷◌}
use lumenqraph.Base.Str.{lit}
use lumenqraph.Dispatcher.Enqueue.{Event, Sub, event, Database, enqueue_events}

abbrev failing : Subscription
failing = record {
  active = true;
  consecutive_failures = 8;
  last_success_at = some 0;
  first_failure_at = some 10;
  auto_disabled_at = none;
  auto_disabled_reason = none;
}

-- A failure two days later is the one too many.
settle-inactive_example :
    ((settle 10 172_800 send_error failing).active ≡ false)
    ↔ IsDue 10 172_800 send_error (settle 10 172_800 send_error failing)
settle-inactive_example = settle-inactive 10 172_800 send_error failing refl

failing_disabled : (settle 10 172_800 send_error failing).active ≡ false
unfolding settle lumenqraph.Dispatcher.settle_failure lumenqraph.Dispatcher.check_and_auto_disable
    lumenqraph.Dispatcher.disable_if_due lumenqraph.Dispatcher.count_failure
    lumenqraph.Dispatcher.mark_failure lumenqraph.Dispatcher.is_failing_long
    lumenqraph.Dispatcher.disable
failing_disabled = refl

abbrev two_failures : List (ℕ × SendResult)
two_failures = (20, send_error) ∷ (40, responded (some 500)) ∷ []

settle_all-count_example :
    (settle_all 10 two_failures failing).consecutive_failures ≡ 8 + 2 * length two_failures
settle_all-count_example = settle_all-count 10 two_failures failing refl

-- The tables of a small run: a subscription to the events of one contract.
abbrev an_event : ℕ → Event
an_event n = record {
  seq = n;
  event_id = n ∷ [];
  contract_id = lit "CA";
  event_name = some (lit "mint");
}

abbrev a_sub : Option ℕ → Sub ℕ
a_sub cursor = record {
  id = lit "s";
  active = true;
  kind = event;
  contract_id = some (lit "CA");
  contract_ids = [];
  event_name = none;
  event_names = [];
  filter = none;
  starting_seq = 2;
  backfill_seq = cursor;
}

abbrev no_filter : ℕ → Event → Bool
no_filter f e = false

abbrev empty_tables : Database ℕ
empty_tables = record { events = []; subs = []; deliveries = []; last_seq = 0 }

abbrev with_sub : Database ℕ
with_sub = record empty_tables { subs = a_sub none ∷ [] }

abbrev with_event : Database ℕ
with_event = record with_sub { events = an_event 3 ∷ [] }

-- The pass creates the one delivery.
one_created : (enqueue_events no_filter 10 with_event).1 ≡ 1
unfolding enqueue_events
one_created = refl
