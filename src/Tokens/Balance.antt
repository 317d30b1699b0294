-- ===== src/Tokens/Balance.antt =====
-- `get_token_balance` of src/tokens/router.py: the endpoint that pays what is due and tells of it. A call
-- reads the clock at `now` until the monthly grant and at `later` from then on; `reachable` is whether
-- `get_redis` answers.
use logit_be.Common.{
  ℕ, ℤ, pos, ltb, ltb_ℤ, eqb_ℤ, ◌≡◌, refl, ◌∙◌, Bool, true, false, not, ◌&&◌, ◌==◌, Option, none,
  some, String, arith, if◌then◌else◌, ==_self,
}
use logit_be.Clock.{DateTime, Date, date}
use logit_be.Rows.Token.{UserToken, attendance_tokens}
use logit_be.Rows.Subscription.{Subscription, logit}
use logit_be.World.{World}
use logit_be.World.Action.{
  Action, Result, ok, raised, pure, raise, try, or_raise, key_error, external, use_session, commit,
  ◌>>=◌, ◌>>◌, >>=-of_ok,
}
use logit_be.Subscription.{get_active_subscription}
use logit_be.Tokens.{
  credit, get_or_create_balance, get_balance, grant_signup_bonus, claim_signup_bonus_notification,
  claim_referral_notification, record_transaction,
}
use logit_be.Tokens.Monthly.{ensure_monthly_tokens, plan_key, plan_monthly_tokens}
use logit_be.Tokens.Attendance.{
  check_in, take_tokens, record_check_in, init_pool_if_needed, pool_ran_out, has_log,
}

pub record TokenBalanceResponse : Type 0 where
  pub balance : ℤ
  pub plan : String
  pub monthly_tokens : ℤ
  pub monthly_grant_received : Bool
  pub monthly_grant_amount : ℤ
  pub signup_bonus_received : Bool
  pub signup_bonus_amount : ℤ
  pub attendance_received : Bool
  pub attendance_amount : ℤ
  pub referral_reward_received : Bool
  pub referral_reward_amount : ℤ
  pub referral_reward_count : ℕ

-- The check-in, of which any failure is logged only: the session is not rolled back.
unfoldable pub attend : ℕ → Bool → DateTime → Action Bool
attend u reachable now =
    try (if reachable then (check_in u now >>= λ r. pure r.0) else raise external) (λ e. pure false)

abbrev pub response :
    Option Subscription → Bool × ℤ → Bool → ℤ → ℤ × ℕ → ℤ → ℤ → TokenBalanceResponse
response sub (granted, amount) attended bonus (reward, count) balance monthly = record {
  balance = balance;
  plan = plan_key sub;
  monthly_tokens = monthly;
  monthly_grant_received = granted;
  monthly_grant_amount = amount;
  signup_bonus_received = ltb_ℤ (pos 0) bonus;
  signup_bonus_amount = bonus;
  attendance_received = attended;
  attendance_amount = if attended then attendance_tokens else pos 0;
  referral_reward_received = ltb 0 count;
  referral_reward_amount = reward;
  referral_reward_count = count;
}

-- The answer, once everything was told.
unfoldable pub tell_balance :
    ℕ → Option Subscription → Bool × ℤ → Bool → ℤ → ℤ × ℕ → Action TokenBalanceResponse
unfolding get_balance
tell_balance u sub grant attended bonus reward = do
  balance ← get_balance u
  commit
  monthly ← or_raise (plan_monthly_tokens (plan_key sub)) key_error
  pure (response sub grant attended bonus reward balance monthly)

-- What follows the check-in, which may have left a failed session.
unfoldable pub settle_notices :
    ℕ → DateTime → Option Subscription → Bool × ℤ → Bool → Action TokenBalanceResponse
unfolding tell_balance
settle_notices u now sub grant attended = do
  use_session
  grant_signup_bonus u now
  bonus ← claim_signup_bonus_notification u now
  reward ← claim_referral_notification u now
  tell_balance u sub grant attended bonus reward

unfoldable pub get_token_balance : ℕ → Bool → DateTime → DateTime → Action TokenBalanceResponse
get_token_balance u reachable now later = do
  sub ← get_active_subscription u logit now
  grant ← ensure_monthly_tokens u sub now later
  attended ← attend u reachable later
  settle_notices u later sub grant attended

abbrev is_ok : {A : Type 0} → Result A → Bool
is_ok (ok a) = true
is_ok (raised x) = false

ok_of : {A : Type 0} (r : Result A × World) → is_ok r.0 ≡ true → (a : A) × (r ≡ (ok a, r.1))
ok_of (ok a, w) h = (a, refl)
ok_of (raised x, w) h = absurd (ground arith)

abbrev flagged : Option UserToken → Bool
flagged none = false
flagged (some t) = t.signup_bonus_granted

abbrev quiet_bonus : Option UserToken → Bool
quiet_bonus none = false
quiet_bonus (some t) = t.signup_bonus_granted && eqb_ℤ t.unnotified_signup_bonus_amount (pos 0)

-- The bonus is granted, and neither it nor a reward is left to tell.
abbrev pub is_settled : Option UserToken → Bool
is_settled none = false
is_settled (some t) =
    t.signup_bonus_granted
    && eqb_ℤ t.unnotified_signup_bonus_amount (pos 0)
    && eqb_ℤ t.unnotified_referral_amount (pos 0)
    && t.unnotified_referral_count == 0

ensured :
    (u : ℕ) (sub : Option Subscription) (now later : DateTime) (w : World) (m : ℤ)
    → plan_monthly_tokens (plan_key sub) ≡ some m
    → is_ok (ensure_monthly_tokens u sub now later w).0 ≡ true
unfolding ensure_monthly_tokens get_or_create_balance
ensured u sub now later w m h = ground (arith, h)

tried_ok : (m : Action Bool) (w : World) → is_ok (try m (λ e. pure false) w).0 ≡ true
tried_ok m w = go (m w).0 (m w).1
  where
    go :
        (r : Result Bool) (v : World)
        → is_ok
            (elim r as (λ x. Result Bool × World) [ ok a ↦ (ok a, v) | raised e ↦ pure false v ]).0
          ≡ true
    go (ok a) v = refl
    go (raised e) v = refl

-- The monthly grant does not touch what the check-in looks at.
ensured_rest :
    (u : ℕ) (sub : Option Subscription) (now later : DateTime) (w : World)
    → let v = (ensure_monthly_tokens u sub now later w).1 in
      (v.session_failed ≡ w.session_failed)
      × (v.db.attendance_logs ≡ w.db.attendance_logs)
      × (v.redis ≡ w.redis)
unfolding ensure_monthly_tokens get_or_create_balance
ensured_rest u sub now later w = ground arith

-- A row of the user and day that the check-in would meet: the key of the day is not there.
abbrev pub meets_row : ℕ → Date → World → Bool
meets_row u d w = has_log u d w.db.attendance_logs && not (w.redis.checked_in u d)

checked_in_usable :
    (u : ℕ) (now : DateTime) (w : World)
    → w.session_failed ≡ false
    → meets_row u (date now) w ≡ false
    → (check_in u now w).1.session_failed ≡ false
unfolding check_in take_tokens record_check_in init_pool_if_needed credit pool_ran_out
checked_in_usable u now w h f = ground (arith, h, f)

attended_usable :
    (u : ℕ) (reachable : Bool) (now : DateTime) (w : World)
    → w.session_failed ≡ false
    → meets_row u (date now) w ≡ false
    → (attend u reachable now w).1.session_failed ≡ false
unfolding attend
attended_usable u reachable now w h f = ground (arith, h, checked_in_usable u now w h f)

attended_ok :
    (u : ℕ) (reachable : Bool) (now : DateTime) (w : World)
    → is_ok (attend u reachable now w).0 ≡ true
unfolding attend
attended_ok u reachable now w =
    tried_ok (if reachable then (check_in u now >>= λ r. pure r.0) else raise external) w

granted :
    (u : ℕ) (now : DateTime) (w : World)
    → (is_ok (grant_signup_bonus u now w).0 ≡ true)
      × (flagged ((grant_signup_bonus u now w).1.db.user_tokens u) ≡ true)
unfolding grant_signup_bonus get_or_create_balance record_transaction
granted u now w = (ground (arith, ==_self u), ground (arith, ==_self u))

bonus_told :
    (u : ℕ) (now : DateTime) (w : World)
    → flagged (w.db.user_tokens u) ≡ true
    → (is_ok (claim_signup_bonus_notification u now w).0 ≡ true)
      × (quiet_bonus ((claim_signup_bonus_notification u now w).1.db.user_tokens u) ≡ true)
unfolding claim_signup_bonus_notification get_or_create_balance record_transaction
bonus_told u now w h = (ground (arith, h, ==_self u), ground (arith, h, ==_self u))

reward_told :
    (u : ℕ) (now : DateTime) (w : World)
    → quiet_bonus (w.db.user_tokens u) ≡ true
    → (is_ok (claim_referral_notification u now w).0 ≡ true)
      × (is_settled ((claim_referral_notification u now w).1.db.user_tokens u) ≡ true)
unfolding claim_referral_notification get_or_create_balance record_transaction
reward_told u now w h = (ground (arith, h, ==_self u), ground (arith, h, ==_self u))

balance_told :
    (u : ℕ) (sub : Option Subscription) (grant : Bool × ℤ) (attended : Bool) (bonus : ℤ)
    (reward : ℤ × ℕ) (w : World) (m : ℤ)
    → plan_monthly_tokens (plan_key sub) ≡ some m
    → (r : TokenBalanceResponse) × (tell_balance u sub grant attended bonus reward w
        ≡ (ok r, record w { committed = w.db }))
      × (r.monthly_tokens ≡ m)
unfolding tell_balance get_balance
balance_told u sub grant attended bonus reward w m h =
    let balance : ℤ = elim (w.db.user_tokens u) [ none ↦ pos 0 | some token ↦ token.balance ] in
    (response sub grant attended bonus reward balance m, rw h refl, refl)

-- Where the plan of the user's subscription has a monthly amount, and no attendance row of the user and day
-- is stored without its key in Redis, a balance request with a usable session is always answered, also where
-- the pool of tokens is used up or Redis cannot be reached. It tells the amount of the plan, and leaves,
-- committed, the sign-up bonus granted and no bonus or reward to tell.
pub always_answers :
    (u : ℕ) (reachable : Bool) (now later : DateTime) (w : World) (sub : Option Subscription)
    (m : ℤ)
    → get_active_subscription u logit now w ≡ (ok sub, w)
    → plan_monthly_tokens (plan_key sub) ≡ some m
    → w.session_failed ≡ false
    → meets_row u (date later) w ≡ false
    → (r : TokenBalanceResponse) × (v : World) × (get_token_balance u reachable now later w
        ≡ (ok r, record v { committed = v.db }))
      × (is_settled (v.db.user_tokens u) ≡ true)
      × (r.monthly_tokens ≡ m)
unfolding get_token_balance settle_notices
always_answers u reachable now later w sub m e h usable row =
    let g = ok_of (ensure_monthly_tokens u sub now later w) (ensured u sub now later w m h) in
    let w₁ = (ensure_monthly_tokens u sub now later w).1 in
    let a = ok_of (attend u reachable later w₁) (attended_ok u reachable later w₁) in
    let w₂ = (attend u reachable later w₁).1 in
    let rest = ensured_rest u sub now later w in
    let usable₂ : w₂.session_failed ≡ false =
      attended_usable u reachable later w₁ (rest.0 ∙ usable) (rw (rest.1, rest.2) row) in
    let b = granted u later w₂ in
    let b' = ok_of (grant_signup_bonus u later w₂) b.0 in
    let w₃ = (grant_signup_bonus u later w₂).1 in
    let c = bonus_told u later w₃ b.1 in
    let c' = ok_of (claim_signup_bonus_notification u later w₃) c.0 in
    let w₄ = (claim_signup_bonus_notification u later w₃).1 in
    let d = reward_told u later w₄ c.1 in
    let d' = ok_of (claim_referral_notification u later w₄) d.0 in
    let w₅ = (claim_referral_notification u later w₄).1 in
    let f = balance_told u sub g.0 a.0 c'.0 d'.0 w₅ m h in
    let last : Option Subscription → Bool × ℤ → Bool → ℤ → ℤ × ℕ → Action TokenBalanceResponse =
      tell_balance u in
    let third = λ (x : ℤ). claim_referral_notification u later >>= last sub g.0 a.0 x in
    let second = λ (x : Bool × ℤ). claim_signup_bonus_notification u later >>= third in
    let settle₂ : Unit {0} → Action TokenBalanceResponse =
      λ x. grant_signup_bonus u later >>= second in
    let settle = λ (x : Bool × ℤ) (y : Bool). settle_notices u later sub x y in
    let answer : Bool × ℤ → Action TokenBalanceResponse =
      λ x. attend u reachable later >>= settle x in
    let begin : Option Subscription → Action TokenBalanceResponse = λ s.
      ensure_monthly_tokens u s now later >>= λ x.
      attend u reachable later >>= λ y. settle_notices u later s x y in
    (
      f.0,
      w₅,
      >>=-of_ok (get_active_subscription u logit now) begin w e
          ∙ >>=-of_ok (ensure_monthly_tokens u sub now later) answer w g.1
          ∙ >>=-of_ok (attend u reachable later) (settle g.0) w₁ a.1
          ∙ >>=-of_ok use_session settle₂ w₂ (rw usable₂ refl)
          ∙ >>=-of_ok (grant_signup_bonus u later) second w₂ b'.1
          ∙ >>=-of_ok (claim_signup_bonus_notification u later) third w₃ c'.1
          ∙ >>=-of_ok (claim_referral_notification u later) (last sub g.0 a.0 c'.0) w₄ d'.1
          ∙ f.1,
      d.1,
      f.2,
    )
