-- ===== src/Tokens/Tests.antt =====
-- Runs of the token service on a small database, and its theorems at those inputs.
use logit_be.Common.{
  ◌+◌, pos, ◌+ℤ◌, ◌-ℤ◌, ◌≤ℤ◌, ◌≤◌, ◌≡◌, ◌↔◌, refl, true, false, none, some, List, [], ◌∷◌, arith,
  if◌then◌else◌,
}
use logit_be.Clock.{DateTime, IsDateTime, before, month_length}
use logit_be.Clock.Order.{month_length-ge}
use logit_be.Rows.Token.{admin_grant, draft_usage}
use logit_be.Rows.Subscription.{Subscription, pro}
use logit_be.World.{World, fresh, empty_db}
use logit_be.World.Action.{ok}
use logit_be.Tokens.Balance.{TokenBalanceResponse, is_settled, get_token_balance, always_answers}
use logit_be.Subscription.{get_active_subscription}
use logit_be.Tokens.{credit}
use logit_be.Tokens.Ledger.{posted, IsBalanced, IsSolvent}
use logit_be.Tokens.Books.{
  TokenOp, credit as crediting, debit as debiting, reward_inviter, claim_referral, sign_up, monthly,
  after_all, after_all-IsBalanced, after_all-IsSolvent,
}
use logit_be.Tokens.Notices.{
  pending, pending_count, told, rewarded, number_told, number_rewarded, TellsAll, told_once,
  bonuses, BonusOnce, bonus_paid_once,
}
use logit_be.Tokens.Monthly.{
  current_billing_period_start, ensure_monthly_tokens, plan_key, plan_monthly_tokens,
}
use logit_be.Tokens.Monthly.Period.{IsLastAnchor, current_billing_period_start-IsLastAnchor}
use logit_be.Tokens.Monthly.Once.{NewPeriod, granted_again_iff, same_day_purchase_waits}
use logit_be.Tokens.Attendance.{
  distributed, check_in, success, event_ended, already_checked_in, init_pool_if_needed, take_tokens,
  record_check_in,
}
use logit_be.Tokens.Attendance.Pool.{IsFunded}
use logit_be.Tokens.Attendance.Event.{
  Event, checks_in, books, commits, rolls_back, occur, event_within_pool,
}
use logit_be.Tokens.Attendance.Daily.{visits, once_a_day}

-- 15 July 2025, 09:00.
abbrev morning : DateTime
morning = record { year = 2025; month = 7; day = 15; clock = 32400000000 }

abbrev evening : DateTime
evening = record { year = 2025; month = 7; day = 15; clock = 72000000000 }

abbrev next_month_start : DateTime
next_month_start = record { year = 2025; month = 8; day = 20; clock = 0 }

abbrev start : World
start = fresh empty_db

morning-IsDateTime : IsDateTime morning
morning-IsDateTime = omega (arith, month_length-ge 2025 7)

evening-IsDateTime : IsDateTime evening
evening-IsDateTime = omega (arith, month_length-ge 2025 7)

next-IsDateTime : IsDateTime next_month_start
next-IsDateTime = omega (arith, month_length-ge 2025 8)

-- A pro plan bought on 15 July 2025.
abbrev pro_plan : Subscription
pro_plan = record {
  is_active = true;
  plan = pro;
  token = none;
  is_auto_renew = true;
  started_at = morning;
  expires_at = none;
}

abbrev day_of_use : List TokenOp
day_of_use =
    monthly 7 none morning morning
    ∷ sign_up 7 morning
    ∷ debiting 7 (pos 10) draft_usage none morning
    ∷ debiting 7 (pos 1000) draft_usage none morning
    ∷ reward_inviter 7 (pos 10) none evening
    ∷ crediting 8 (pos 5) admin_grant none evening
    ∷ claim_referral 7 evening
    ∷ sign_up 7 evening
    ∷ []

start-IsBalanced : IsBalanced start.db
start-IsBalanced = record { at_user = λ u. unfold posted in refl }

start-IsSolvent : IsSolvent start.db
start-IsSolvent = record { at_user = λ u. omega arith }

after_all-IsBalanced_example : IsBalanced (after_all day_of_use start).db
after_all-IsBalanced_example = after_all-IsBalanced day_of_use start start-IsBalanced

after_all-IsSolvent_example : IsSolvent (after_all day_of_use start).db
after_all-IsSolvent_example = after_all-IsSolvent day_of_use start (omega arith) start-IsSolvent

abbrev rich : World
rich = (credit 7 (pos 40) admin_grant none morning start).1

told_once_example :
    (pending 7 (after_all day_of_use start).db +ℤ told 7 day_of_use start
      ≡ pending 7 start.db +ℤ rewarded 7 day_of_use)
    × (pending_count 7 (after_all day_of_use start).db + number_told 7 day_of_use start
        ≡ pending_count 7 start.db + number_rewarded 7 day_of_use)
    × TellsAll 7 evening (after_all day_of_use start)
told_once_example = told_once 7 day_of_use evening start

start-BonusOnce : BonusOnce start.db
start-BonusOnce = record { at_user = λ v. unfold bonuses in refl }

bonus_paid_once_example : bonuses 7 (after_all day_of_use start).db.token_transactions ≤ 1
bonus_paid_once_example = bonus_paid_once day_of_use start 7 (grind arith) start-BonusOnce

abbrev granted : World
granted = (ensure_monthly_tokens 7 none morning morning start).1

free_grant : (ensure_monthly_tokens 7 none morning morning start).0 ≡ ok (true, pos 50)
unfolding ensure_monthly_tokens plan_key plan_monthly_tokens
free_grant = refl

pro_tokens : plan_monthly_tokens (plan_key (some pro_plan)) ≡ some (pos 2000)
unfolding plan_key plan_monthly_tokens
pro_tokens = refl

granted_again_iff_example :
    ((ensure_monthly_tokens 7 (some pro_plan) next_month_start next_month_start granted).0
      ≡ ok (true, pos 2000))
    ↔ NewPeriod pro_plan morning next_month_start
granted_again_iff_example =
    granted_again_iff 7 none pro_plan morning morning next_month_start next_month_start start
      (pos 50) (pos 2000) free_grant refl morning-IsDateTime next-IsDateTime pro_tokens

same_day_purchase_waits_example :
    ensure_monthly_tokens 7 (some pro_plan) evening evening granted ≡ (ok (false, pos 0), granted)
unfolding before month_length
same_day_purchase_waits_example =
    same_day_purchase_waits 7 none pro_plan morning morning evening evening start (pos 50)
      free_grant refl morning-IsDateTime evening-IsDateTime refl refl

current_billing_period_start-IsLastAnchor_example :
    IsLastAnchor 15 next_month_start (current_billing_period_start next_month_start (some pro_plan))
current_billing_period_start-IsLastAnchor_example =
    current_billing_period_start-IsLastAnchor next_month_start pro_plan next-IsDateTime refl

abbrev two_days : List Event
two_days =
    checks_in 7 morning
    ∷ commits
    ∷ checks_in 7 evening
    ∷ books (crediting 7 (pos 5) admin_grant none evening)
    ∷ rolls_back
    ∷ checks_in 7 next_month_start
    ∷ []

start-IsFunded : IsFunded start
start-IsFunded = record {
  paid = unfold distributed ◌+ℤ◌ in omega arith;
  left = λ n e. cc;
  committed = omega arith;
}

event_within_pool_example : distributed (occur two_days start).db.token_transactions ≤ℤ pos 30000
event_within_pool_example = event_within_pool two_days start (grind arith) start-IsFunded

first_visit : (check_in 7 morning start).0 ≡ ok (true, success)
unfolding check_in take_tokens record_check_in init_pool_if_needed credit distributed ◌+ℤ◌ ◌-ℤ◌
first_visit = refl

once_a_day_example :
    let w' = visits ((8, evening) ∷ []) (check_in 7 morning start).1 in
    check_in 7 evening w'
    ≡ (ok (false, if w'.redis.event_ended then event_ended else already_checked_in), w')
once_a_day_example = once_a_day 7 morning evening ((8, evening) ∷ []) start first_visit refl

always_answers_example :
    (r : TokenBalanceResponse) × (v : World) × (get_token_balance 7 true morning evening start
      ≡ (ok r, record v { committed = v.db }))
    × (is_settled (v.db.user_tokens 7) ≡ true)
    × (r.monthly_tokens ≡ pos 50)
unfolding get_active_subscription plan_key plan_monthly_tokens
always_answers_example =
    always_answers 7 true morning evening start none (pos 50) refl refl refl refl
