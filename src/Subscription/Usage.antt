-- ===== src/Subscription/Usage.antt =====
-- src/subscription/usage.py: the limits of a plan, and the counters of a billing period. The counters
-- are the keys `usage:{user}:{period}:{type}` of Redis, each with the instant until which it is kept.
use logit_be.Common.{
  ℕ, suc, ◌+◌, ◌-◌, ◌*◌, min, max, Bool, true, false, not, ◌&&◌, Option, none, some, ◌==◌, ltb,
  if◌then◌else◌,
}
use logit_be.Clock.{
  DateTime, Date, date, at_midnight, before, month_length, prev_month, prev_year, next_month,
  next_year, micros, second_micros, seconds_until,
}
use logit_be.Rows.Subscription.{Subscription, SubscriptionPlan, basic, lite, pro}

-- `none` is no limit.
pub record PlanLimits : Type 0 where
  pub chat : Option ℕ
  pub draft : Option ℕ

abbrev pub free_limits : PlanLimits
free_limits = record { chat = some 5; draft = some 1 }

abbrev pub limits_of : SubscriptionPlan → PlanLimits
limits_of lite = record { chat = some 50; draft = some 10 }
limits_of pro = record { chat = none; draft = none }
limits_of basic = free_limits

unfoldable pub get_plan_limits : Option Subscription → PlanLimits
get_plan_limits none = free_limits
get_plan_limits (some s) = if not s.is_active then free_limits else limits_of s.plan

-- `_billing_period_key`, as the date that it prints.
unfoldable pub billing_period_key : Option DateTime → DateTime → Date
billing_period_key none now = record { year = now.year; month = now.month; day = 1 }
billing_period_key (some started_at) now =
    let anchor = min started_at.day (month_length now.year now.month) in
    let period_start = at_midnight now anchor in
    let pm = prev_month now.month in
    let py = prev_year now.year now.month in
    if before now period_start
    then record { year = py; month = pm; day = min started_at.day (month_length py pm) }
    else date period_start

-- `next_period` of `_period_ttl`, from the key of a period, and for an instant.
abbrev pub period_after : Date → DateTime
period_after k =
    let m = next_month k.month in
    let y = next_year k.year k.month in
    record { year = y; month = m; day = min k.day (month_length y m); clock = 0 }

abbrev pub next_period : Option DateTime → DateTime → DateTime
next_period started now = period_after (billing_period_key started now)

-- `_period_ttl`, in seconds; for a `next_period` that has passed `max` makes 1 of any difference.
unfoldable pub period_ttl : Option DateTime → DateTime → ℕ
period_ttl started now = max (seconds_until now (next_period started now) + 1) 1

pub data UsageType : Type 0 where
  chat draft : UsageType

abbrev pub usage_eq : UsageType → UsageType → Bool
usage_eq chat chat = true
usage_eq draft draft = true
usage_eq _ _ = false

abbrev pub date_eq : Date → Date → Bool
date_eq a b = a.year == b.year && a.month == b.month && a.day == b.day

-- A counter, and the microsecond from which Redis has it no more.
pub record Counter : Type 0 where
  pub number : ℕ
  pub kept_until : ℕ

abbrev pub Counters : Type 0
Counters = ℕ → Date → UsageType → Option Counter

-- What Redis has at an instant, 0 where it has nothing.
abbrev pub number_at : DateTime → Option Counter → ℕ
number_at now none = 0
number_at now (some x) = if ltb (micros now) x.kept_until then x.number else 0

abbrev pub limit_of : UsageType → PlanLimits → Option ℕ
limit_of chat l = l.chat
limit_of draft l = l.draft

-- `UsageLimiter._started_at`
unfoldable pub started_at : Option Subscription → Option DateTime
started_at none = none
started_at (some s) = if s.is_active then some s.started_at else none

-- `UsageLimiter._count`
unfoldable pub count : ℕ → Option DateTime → UsageType → DateTime → Counters → ℕ
count u started k now c = number_at now (c u (billing_period_key started now) k)

-- INCR of a counter, then EXPIRE.
abbrev pub bumped : Option DateTime → DateTime → Option Counter → Counter
bumped started now o = record {
  number = suc (number_at now o);
  kept_until = micros now + period_ttl started now * second_micros;
}

-- `UsageLimiter._incr`
unfoldable pub incr : ℕ → Option DateTime → UsageType → DateTime → Counters → Counters
incr u started k now c v d j =
    if v == u && date_eq d (billing_period_key started now) && usage_eq j k
    then some (bumped started now (c v d j))
    else c v d j

-- `check_chat` and `check_draft`: whether one more is allowed, and how many remain.
unfoldable pub check : ℕ → Option Subscription → UsageType → DateTime → Counters → Bool × Option ℕ
check u s k now c = elim (limit_of k (get_plan_limits s)) [
  | none ↦ (true, none)
  | some limit ↦
      (ltb (count u (started_at s) k now c) limit, some (limit - count u (started_at s) k now c))
]

abbrev left : Option ℕ → ℕ → Option ℕ
left none n = none
left (some limit) n = some (limit - n)

-- `get_remaining`, of chats and of drafts.
unfoldable pub get_remaining : ℕ → Option Subscription → DateTime → Counters → Option ℕ × Option ℕ
get_remaining u s now c = (
  left (get_plan_limits s).chat (count u (started_at s) chat now c),
  left (get_plan_limits s).draft (count u (started_at s) draft now c),
)

-- `increment_chat` and `increment_draft`, without their answer; no limit, no count.
unfoldable pub increment : ℕ → Option Subscription → UsageType → DateTime → Counters → Counters
increment u s k now c = elim (limit_of k (get_plan_limits s)) [
  | none ↦ c
  | some limit ↦ incr u (started_at s) k now c
]
