-- ===== src/Tokens/Monthly.antt =====
-- The monthly grant of src/tokens/service.py. `now` is the instant that the period is computed at,
-- `later` the one that is stored; all datetimes are in UTC, so a stored instant without a time zone
-- reads as it is. The row that the function returns third is the one that it leaves in the session.
pub mod Period
pub mod Grants
pub mod Once
use logit_be.Common.{
  ℕ, ℤ, pos, ◌+ℤ◌, min, Bool, true, false, not, Option, none, some, String, str_eq, if◌then◌else◌,
}
use Prim.Native.String.{◌++◌}
use logit_be.Clock.{DateTime, at_midnight, before, month_length, prev_month, prev_year}
use logit_be.Rows.Token.{UserToken, monthly_grant}
use logit_be.Rows.Subscription.{Subscription, plan_value}
use logit_be.World.Action.{Action, pure, key_error, or_raise, ◌>>=◌, ◌>>◌}
use logit_be.Tokens.{get_or_create_balance, record_transaction, save_token}

-- The day of the month a period begins on: the anchor's, or the last day of a shorter month.
abbrev pub clamped_day : ℕ → ℕ → ℕ → ℕ
clamped_day day y m = min day (month_length y m)

-- The branch of an active subscription.
unfoldable pub anchored_start : DateTime → ℕ → DateTime
anchored_start now day =
    let period_start = at_midnight now (clamped_day day now.year now.month) in
    let py = prev_year now.year now.month in
    let pm = prev_month now.month in
    if before now period_start
    then record period_start { year = py; month = pm; day = clamped_day day py pm }
    else period_start

-- `_current_billing_period_start`
unfoldable pub current_billing_period_start : DateTime → Option Subscription → DateTime
unfolding anchored_start
current_billing_period_start now none = at_midnight now 1
current_billing_period_start now (some s) =
    if not s.is_active then at_midnight now 1 else anchored_start now s.started_at.day

-- `_plan_key`
unfoldable pub plan_key : Option Subscription → String
plan_key none = "free"
plan_key (some s) = if not s.is_active then "free" else plan_value s.plan

-- `PLAN_MONTHLY_TOKENS`
unfoldable pub plan_monthly_tokens : String → Option ℤ
plan_monthly_tokens k =
    if str_eq k "free"
    then some (pos 50)
    else if str_eq k "lite"
    then some (pos 400)
    else if str_eq k "pro"
    then some (pos 2000)
    else none

abbrev pub already_granted : Option DateTime → DateTime → Bool
already_granted none start = false
already_granted (some t) start = not (before t start)

grant_month : ℕ → UserToken → Bool → String → DateTime → Action (Bool × ℤ)
unfolding record_transaction
grant_month u token true plan later = pure (false, pos 0)
grant_month u token false plan later = do
  amount ← or_raise (plan_monthly_tokens plan) key_error
  save_token u (record token {
    balance = token.balance +ℤ amount;
    last_monthly_grant_at = some later;
    updated_at = later;
  })
  record_transaction u amount monthly_grant (some (plan ++ " 플랜 월 토큰 지급"))
  pure (true, amount)

unfoldable pub ensure_monthly_tokens :
    ℕ → Option Subscription → DateTime → DateTime → Action (Bool × ℤ)
unfolding get_or_create_balance grant_month
ensure_monthly_tokens u sub now later = do
  token ← get_or_create_balance u now
  let start = current_billing_period_start now sub
  grant_month u token (already_granted token.last_monthly_grant_at start) (plan_key sub) later
