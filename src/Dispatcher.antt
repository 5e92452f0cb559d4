-- ===== src/Dispatcher.antt =====
-- crates/lumenqraph-webhooks/src/dispatcher.rs: what the outcome of a delivery does to the subscription,
-- and the delay of a retry. The row of the subscription is the state; a time is its number of
-- seconds. The drawn number of a delay is a parameter.
mod Examples
pub mod Disabling
pub mod Delay
pub mod Enqueue
use lumenqraph.Base.{
  ℕ, suc, ◌+◌, ◌-◌, ◌/◌, ◌^◌, min, max, Bool, true, false, ◌&&◌, Option, none, some, leb, ◌==◌,
  if◌then◌else◌, ◌++◌,
}
use lumenqraph.Base.Str.{Str, lit}
use lumenqraph.Base.Decimal.{decimal}

-- The columns of `webhook_subscriptions` that the dispatcher writes.
pub record Subscription : Type 0 where
  pub active : Bool
  pub consecutive_failures : ℕ
  pub last_success_at : Option ℕ
  pub first_failure_at : Option ℕ
  pub auto_disabled_at : Option ℕ
  pub auto_disabled_reason : Option Str

-- How a send ended: an answer with its status, if there is one; the source row was pruned; or
-- another error.
pub data SendResult : Type 0 where
  responded : Option ℕ → SendResult
  source_pruned send_error : SendResult

abbrev pub status_or_200 : Option ℕ → ℕ
status_or_200 none = 200
status_or_200 (some status) = status

-- `COALESCE(first_failure_at, now())`.
abbrev coalesce : Option ℕ → ℕ → ℕ
coalesce none now = now
coalesce (some t) now = t

abbrev pub is_day_since : ℕ → ℕ → Bool
is_day_since now t = leb 24 ((now - t) / 3600)

-- Whether there was no success for a day, on the row after the update.
unfoldable pub is_failing_long : ℕ → Option ℕ → Option ℕ → Bool
is_failing_long now (some last_success) first_failure = is_day_since now last_success
is_failing_long now none (some first_failure) = is_day_since now first_failure
is_failing_long now none none = false

unfoldable pub mark_success : ℕ → Subscription → Subscription
mark_success now s = record s { consecutive_failures = 0; last_success_at = some now }

unfoldable pub mark_gone : ℕ → Subscription → Subscription
mark_gone now s = record s {
  active = false;
  auto_disabled_at = some now;
  auto_disabled_reason = some (lit "endpoint returned 410 Gone");
}

-- The caller's own increment.
unfoldable pub mark_failure : Subscription → Subscription
mark_failure s = record s { consecutive_failures = s.consecutive_failures + 1 }

unfoldable pub disable : ℕ → Subscription → Subscription
disable now s = record s {
  active = false;
  auto_disabled_at = some now;
  auto_disabled_reason = some (
      lit "Auto-disabled after "
      ++ decimal s.consecutive_failures
      ++ lit " consecutive delivery failures with no success for 24+ hours");
}

-- The update of `check_and_auto_disable`, and what follows it.
unfoldable pub count_failure : ℕ → Subscription → Subscription
count_failure now s = record s {
  consecutive_failures = s.consecutive_failures + 1;
  first_failure_at = some (coalesce s.first_failure_at now);
}

unfoldable pub disable_if_due : ℕ → ℕ → Subscription → Subscription
disable_if_due failure_threshold now s =
    if leb failure_threshold s.consecutive_failures
      && is_failing_long now s.last_success_at s.first_failure_at
    then disable now s
    else s

unfoldable pub check_and_auto_disable : ℕ → ℕ → Subscription → Subscription
check_and_auto_disable failure_threshold now s =
    disable_if_due failure_threshold now (count_failure now s)

unfoldable pub settle_failure : ℕ → ℕ → Subscription → Subscription
settle_failure failure_threshold now s =
    check_and_auto_disable failure_threshold now (mark_failure s)

-- What one delivery does to its subscription.
unfoldable pub settle : ℕ → ℕ → SendResult → Subscription → Subscription
settle failure_threshold now (responded status) s =
    if leb 200 (status_or_200 status) && leb (status_or_200 status) 299
    then mark_success now s
    else if status_or_200 status == 410
    then settle_failure failure_threshold now (mark_gone now s)
    else settle_failure failure_threshold now s
settle failure_threshold now source_pruned s = s
settle failure_threshold now send_error s = settle_failure failure_threshold now s
