-- ===== src/Clock.antt =====
-- The part of Python's `datetime` and `calendar` that the services use. All instants are in UTC:
-- a datetime is its year, month, day, and the microseconds since midnight.
pub mod Order
use logit_be.Common.{
  ℕ, zero, suc, ◌+◌, ◌-◌, ◌*◌, ◌/◌, ◌%◌, ◌≤◌, ◌<◌, min, Bool, true, false, ◌&&◌, ◌||◌, ltb, leb,
  ◌==◌, not, if◌then◌else◌,
}

pub record DateTime : Type 0 where
  pub year : ℕ
  pub month : ℕ
  pub day : ℕ
  -- hour, minute, second and microsecond, as microseconds since midnight
  pub clock : ℕ

-- A `date`.
pub record Date : Type 0 where
  pub year : ℕ
  pub month : ℕ
  pub day : ℕ

abbrev pub date : DateTime → Date
date d = record { year = d.year; month = d.month; day = d.day }

abbrev pub day_micros : ℕ
day_micros = 86400000000

-- `calendar.isleap`
unfoldable pub is_leap : ℕ → Bool
is_leap y = y % 4 == 0 && (not (y % 100 == 0) || y % 400 == 0)

-- `calendar.monthrange(year, month)[1]`
unfoldable pub month_length : ℕ → ℕ → ℕ
month_length y m =
    if m == 2
    then (if is_leap y then 29 else 28)
    else if m == 4 || m == 6 || m == 9 || m == 11
    then 30
    else 31

-- What `datetime` accepts.
pub record IsDateTime (d : DateTime) : Type 0 where
  pub year_ge : 1 ≤ d.year
  pub month_ge : 1 ≤ d.month
  pub month_le : d.month ≤ 12
  pub day_ge : 1 ≤ d.day
  pub day_le : d.day ≤ month_length d.year d.month
  pub clock_lt : d.clock < day_micros

-- `a < b`: the fields are compared from the year on.
unfoldable pub before : DateTime → DateTime → Bool
before a b =
    if a.year == b.year
    then if a.month == b.month
      then if a.day == b.day then ltb a.clock b.clock else ltb a.day b.day
      else ltb a.month b.month
    else ltb a.year b.year

-- The day after.
unfoldable pub next_day : DateTime → DateTime
next_day d =
    if ltb d.day (month_length d.year d.month)
    then record d { day = d.day + 1 }
    else if d.month == 12
    then record d { year = d.year + 1; month = 1; day = 1 }
    else record d { month = d.month + 1; day = 1 }

-- `d + timedelta(days=n)`
unfoldable pub add_days : ℕ → DateTime → DateTime
add_days zero d = d
add_days (suc n) d = add_days n (next_day d)

-- `d.replace(day=day, hour=0, minute=0, second=0, microsecond=0)`
abbrev pub at_midnight : DateTime → ℕ → DateTime
at_midnight d n = record d { day = n; clock = 0 }

-- The month before the one of `now`, as the two billing-period functions compute it.
abbrev pub prev_month : ℕ → ℕ
prev_month m = if ltb 1 m then m - 1 else 12

abbrev pub prev_year : ℕ → ℕ → ℕ
prev_year y m = if ltb 1 m then y else y - 1

-- The month after, as `_period_ttl` of src/subscription/usage.py computes it.
abbrev pub next_month : ℕ → ℕ
next_month m = m % 12 + 1

abbrev pub next_year : ℕ → ℕ → ℕ
next_year y m = y + (if m == 12 then 1 else 0)

-- The days of the years before, the days of the months of a year before, and `toordinal`.
abbrev days_before_year : ℕ → ℕ
days_before_year y = (y - 1) * 365 + (y - 1) / 4 - (y - 1) / 100 + (y - 1) / 400

days_before_month : ℕ → ℕ → ℕ
days_before_month y zero = 0
days_before_month y (suc zero) = 0
days_before_month y (suc (suc m)) = month_length y (suc m) + days_before_month y (suc m)

unfoldable pub days_before : ℕ → ℕ → ℕ
unfolding days_before_month
days_before y m = days_before_year y + days_before_month y m

-- The microseconds from a fixed instant to a datetime: differences of them are `timedelta`s.
abbrev pub micros : DateTime → ℕ
micros d = (days_before d.year d.month + d.day) * day_micros + d.clock

abbrev pub second_micros : ℕ
second_micros = 1000000

-- `int((b - a).total_seconds())`, with 0 for a negative difference.
abbrev pub seconds_until : DateTime → DateTime → ℕ
seconds_until a b = (micros b - micros a) / second_micros
