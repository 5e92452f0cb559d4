-- ===== src/Dispatcher/Disabling.antt =====
-- When a subscription is disabled, and how its failures are counted.
use lumenqraph.Base.{
  ℕ, ◌+◌, ◌*◌, ◌≤◌, ◌≡◌, ◌↔◌, refl, ap, Bool-cases, inl, inr, Bool, true, false, not, ◌&&◌, Option,
  none, some, List, [], ◌∷◌, length, leb, ◌==◌, arith,
}
use lumenqraph.Dispatcher.{
  Subscription, SendResult, responded, source_pruned, send_error, status_or_200, is_failing_long,
  is_day_since, mark_success, mark_gone, mark_failure, disable, count_failure, disable_if_due,
  check_and_auto_disable, settle_failure, settle,
}

-- Whether a send counts as a failure of the subscriber.
abbrev pub is_failure : SendResult → Bool
is_failure (responded status) =
    not (leb 200 (status_or_200 status) && leb (status_or_200 status) 299)
is_failure source_pruned = false
is_failure send_error = true

-- When there was last no failure: the last success, else the first failure.
abbrev pub last_good : Option ℕ → Option ℕ → Option ℕ
last_good (some last_success) first_failure = some last_success
last_good none first_failure = first_failure

-- At least a day of 86 400 seconds lies between a time, where there is one, and now.
pub data IsDayOld (now : ℕ) : Option ℕ → Type 0 where
  day : {t : ℕ} → t + 86_400 ≤ now → IsDayOld now (some t)

-- Why a subscription is disabled, from the row after the delivery: the answer was 410, or the
-- delivery failed, the counter is at the threshold, and there was no success for a day.
pub data IsDue (failure_threshold now : ℕ) (result : SendResult) (s : Subscription) : Type 0 where
  gone : result ≡ responded (some 410) → IsDue failure_threshold now result s
  failing :
      is_failure result ≡ true
      → failure_threshold ≤ s.consecutive_failures
      → IsDayOld now (last_good s.last_success_at s.first_failure_at)
      → IsDue failure_threshold now result s

is_day_since_lem : (now t : ℕ) → (is_day_since now t ≡ true) ↔ (t + 86_400 ≤ now)
is_day_since_lem now t = (λ h. ground (arith, h), λ h. ground (arith, h))

is_failing_long_lem :
    (now : ℕ) (success failure : Option ℕ)
    → (is_failing_long now success failure ≡ true) ↔ IsDayOld now (last_good success failure)
unfolding is_failing_long
is_failing_long_lem now (some t) failure =
    (λ h. day ((is_day_since_lem now t).0 h), λ d. elim d [ day h ↦ (is_day_since_lem now t).1 h ])
is_failing_long_lem now none (some t) =
    (λ h. day ((is_day_since_lem now t).0 h), λ d. elim d [ day h ↦ (is_day_since_lem now t).1 h ])
is_failing_long_lem now none none = (λ h. cc h, λ d. elim d [ ])

-- A failure disables an active subscription exactly under the two conditions.
IsFailing : ℕ → ℕ → Subscription → Type 0
IsFailing threshold now s =
    (threshold ≤ s.consecutive_failures)
    × IsDayOld now (last_good s.last_success_at s.first_failure_at)

disable_if_due-inactive :
    (threshold now : ℕ) (s : Subscription)
    → s.active ≡ true
    → ((disable_if_due threshold now s).active ≡ false)
      ↔ IsFailing threshold now (disable_if_due threshold now s)
unfolding disable_if_due disable IsFailing
disable_if_due-inactive threshold now s a = (
  λ h. (
    ground (arith, a, h),
    (is_failing_long_lem now (disable_if_due threshold now s).last_success_at
          (disable_if_due threshold now s).first_failure_at).0
        (ground (arith, a, h)),
  ),
  λ (m, d). ground (
    arith,
    a,
    m,
    (is_failing_long_lem now (disable_if_due threshold now s).last_success_at
          (disable_if_due threshold now s).first_failure_at).1
        d,
  ),
)

settle_failure-inactive :
    (threshold now : ℕ) (s : Subscription)
    → s.active ≡ true
    → ((settle_failure threshold now s).active ≡ false)
      ↔ IsFailing threshold now (settle_failure threshold now s)
unfolding settle_failure check_and_auto_disable count_failure mark_failure
settle_failure-inactive threshold now s a = disable_if_due-inactive threshold now _ a

settle_failure-gone :
    (threshold now : ℕ) (s : Subscription)
    → s.active ≡ false
    → (settle_failure threshold now s).active ≡ false
unfolding settle_failure check_and_auto_disable disable_if_due disable count_failure mark_failure
settle_failure-gone threshold now s a = ground (arith, a)

status_410 :
    (status : Option ℕ)
    → (status_or_200 status == 410) ≡ true
    → responded status ≡ responded (some 410)
status_410 none h = cc h
status_410 (some n) h = let e : n ≡ 410 = ground (arith, h) in rw e refl

abbrev is_gone : SendResult → Bool
is_gone (responded status) = status_or_200 status == 410
is_gone source_pruned = false
is_gone send_error = false

-- A failure that is not a 410.
failed-IsDue :
    (threshold now : ℕ) (result : SendResult) (s : Subscription)
    → s.active ≡ true
    → is_failure result ≡ true
    → is_gone result ≡ false
    → ((settle_failure threshold now s).active ≡ false)
      ↔ IsDue threshold now result (settle_failure threshold now s)
unfolding IsFailing
failed-IsDue threshold now result s a f other = (
  λ h. let (many, long) = (settle_failure-inactive threshold now s a).0 h in failing f many long,
  λ d. elim d [
    | gone e ↦ cc (other, ap is_gone e)
    | failing f many long ↦ (settle_failure-inactive threshold now s a).1 (many, long)
  ],
)

-- A result that is no failure.
kept-IsDue :
    (threshold now : ℕ) (result : SendResult) (s : Subscription)
    → s.active ≡ true
    → is_failure result ≡ false
    → (s.active ≡ false) ↔ IsDue threshold now result s
kept-IsDue threshold now result s a f = (
  λ h. cc (a, h),
  λ d. elim d [ gone e ↦ cc (f, ap is_failure e) | failing g many long ↦ cc (f, g) ],
)

-- A delivery disables an active subscription exactly if the answer was 410, or the delivery failed,
-- the counter has reached the threshold, and the last success, or the first failure where there was
-- none, is at least 86 400 seconds ago.
pub settle-inactive :
    (threshold now : ℕ) (result : SendResult) (s : Subscription)
    → s.active ≡ true
    → ((settle threshold now result s).active ≡ false)
      ↔ IsDue threshold now result (settle threshold now result s)
unfolding settle mark_success mark_gone
settle-inactive threshold now (responded status) s a = elim (Bool-cases ok) [
  | inl fine ↦
      rw fine (kept-IsDue threshold now (responded status) (mark_success now s) a (rw fine refl))
  | inr bad ↦ elim (Bool-cases (status_or_200 status == 410)) [
    | inl is_410 ↦
        rw (bad, is_410)
          (
            λ h. gone (status_410 status is_410),
            λ d. settle_failure-gone threshold now (mark_gone now s) refl,
          )
    | inr other ↦
        rw (bad, other) (failed-IsDue threshold now (responded status) s a (rw bad refl) other)
  ]
]
  where
    ok : Bool
    ok = leb 200 (status_or_200 status) && leb (status_or_200 status) 299
settle-inactive threshold now source_pruned s a = kept-IsDue threshold now source_pruned s a refl
settle-inactive threshold now send_error s a = failed-IsDue threshold now send_error s a refl refl

settle_failure-count :
    (threshold now : ℕ) (s : Subscription)
    → (settle_failure threshold now s).consecutive_failures ≡ s.consecutive_failures + 2
unfolding settle_failure check_and_auto_disable disable_if_due disable count_failure mark_failure
settle_failure-count threshold now s = ground arith

settle-count :
    (threshold now : ℕ) (result : SendResult) (s : Subscription)
    → is_failure result ≡ true
    → (settle threshold now result s).consecutive_failures ≡ s.consecutive_failures + 2
unfolding settle mark_gone
settle-count threshold now (responded status) s f = ground (
  arith,
  f,
  settle_failure-count threshold now s,
  settle_failure-count threshold now (mark_gone now s),
)
settle-count threshold now source_pruned s f = ground (arith, f)
settle-count threshold now send_error s f = settle_failure-count threshold now s

-- The row after a list of deliveries, each with its time.
abbrev pub settle_all : ℕ → List (ℕ × SendResult) → Subscription → Subscription
settle_all threshold [] s = s
settle_all threshold ((now, result) ∷ rest) s =
    settle_all threshold rest (settle threshold now result s)

abbrev pub all_fail : List (ℕ × SendResult) → Bool
all_fail [] = true
all_fail ((now, result) ∷ rest) = is_failure result && all_fail rest

-- Failures in a row raise the counter by two each.
pub settle_all-count :
    (threshold : ℕ) (results : List (ℕ × SendResult)) (s : Subscription)
    → all_fail results ≡ true
    → (settle_all threshold results s).consecutive_failures
      ≡ s.consecutive_failures + 2 * length results
settle_all-count threshold [] s f = omega arith
settle_all-count threshold ((now, result) ∷ rest) s f = ground (
  arith,
  f,
  settle_all-count threshold rest (settle threshold now result s),
  settle-count threshold now result s,
)
