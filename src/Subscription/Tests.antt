-- ===== src/Subscription/Tests.antt =====
-- The subscriptions on concrete requests.
use logit_be.Subscription.Expiry.{IsLeftOver, end_passed_iff}
use logit_be.Common.{
  ◌↔◌, ◌<◌, arith, ltb, ◌-◌, ◌+◌, All, [], ◌∷◌, ◌≡◌, refl, true, false, ◌&&◌, none, some, ◌==◌,
  if◌then◌else◌,
}
use logit_be.Config.{Config}
use logit_be.Clock.{DateTime, before, days_before, is_leap, micros, month_length}
use logit_be.Rows.Subscription.{lite, Subscription, mcp, basic, type_eq}
use logit_be.World.{World, empty_db, fresh}
use logit_be.World.Action.{ok}
use logit_be.Subscription.{get_or_create_mcp_token, create_mcp_token}
use logit_be.Subscription.Usage.{
  Counters, chat, started_at, next_period, period_ttl, billing_period_key, limit_of,
  get_plan_limits, check,
}
use logit_be.Subscription.Limits.{uses, IsEarlier, limit_is_exact}

abbrev cfg : Config
cfg = record {
  payapp_userid = none;
  payapp_linkkey = none;
  payapp_linkval = none;
  mcp_jwt_secret = some "secret";
  mcp_token_expire_days = 365;
  encode_mcp = λ s u e. "token";
}

abbrev noon : DateTime
noon = record { year = 2026; month = 1; day = 15; clock = 43200000000 }

abbrev later : DateTime
later = record noon { month = 3 }

abbrev row : Subscription
row = record {
  is_active = true;
  plan = basic;
  token = none;
  is_auto_renew = true;
  started_at = noon;
  expires_at = some (record noon { month = 2 });
}

abbrev start : World
start =
    fresh (record empty_db {
      subscriptions = λ u k. if u == 7 && type_eq k mcp then some row else none;
    })

first_token : (get_or_create_mcp_token cfg 7 noon start).0 ≡ ok ("token", false)
unfolding get_or_create_mcp_token create_mcp_token before
first_token = refl

abbrev free_uses : Counters
free_uses = λ u d k. none

abbrev lite_row : Subscription
lite_row = record row { plan = lite }

lite_limit : limit_of chat (get_plan_limits (some lite_row)) ≡ some 50
unfolding get_plan_limits
lite_limit = refl

-- The two weeks of the first period.
abbrev next_week : DateTime
next_week = record noon { day = 22 }

abbrev next_month_eve : DateTime
next_month_eve = record noon { month = 2; day = 14 }

ordinal_test : days_before 2000 1 + 1 ≡ 730120
unfolding days_before month_length is_leap
ordinal_test = refl

first_month_is_running :
    micros next_month_eve < micros (next_period (started_at (some lite_row)) next_month_eve)
unfolding billing_period_key started_at before days_before month_length is_leap
first_month_is_running = omega arith

uses-IsEarlier :
    All
      (λ (t : DateTime). IsEarlier (started_at (some lite_row)) next_month_eve t)
      (next_week ∷ noon ∷ [])
unfolding billing_period_key started_at before days_before month_length is_leap
uses-IsEarlier = (
  record { same_period = refl; not_after = omega arith },
  (record { same_period = refl; not_after = omega arith }, tt),
)

limit_is_exact_example :
    check 7
      (some lite_row)
      chat
      next_month_eve
      (uses (next_week ∷ noon ∷ []) 7 (some lite_row) chat free_uses)
    ≡ (ltb 2 50, some (50 - 2))
limit_is_exact_example =
    limit_is_exact 7 (some lite_row) chat next_month_eve 50 lite_limit first_month_is_running
      (next_week ∷ noon ∷ []) free_uses refl uses-IsEarlier

-- A subscription of January 31, and March 29.
abbrev began : DateTime
began = record { year = 2025; month = 1; day = 31; clock = 0 }

abbrev late_march : DateTime
late_march = record { year = 2025; month = 3; day = 29; clock = 0 }

end_passed_iff_example :
    (before late_march (next_period (some began) late_march) ≡ false)
    ↔ (IsLeftOver began late_march × (period_ttl (some began) late_march ≡ 1))
end_passed_iff_example = end_passed_iff began late_march (omega arith) (omega arith) (omega arith)
