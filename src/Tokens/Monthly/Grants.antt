-- ===== src/Tokens/Monthly/Grants.antt =====
-- When `ensure_monthly_tokens` of src/tokens/service.py grants, and what.
use logit_be.Common.{ℕ, ℤ, pos, int_laws, ◌≡◌, Bool, not, true, false, Option, none, some, arith}
use logit_be.Clock.{DateTime, before}
use logit_be.Rows.Token.{UserToken}
use logit_be.Rows.Subscription.{Subscription}
use logit_be.World.{Db, World}
use logit_be.World.Action.{Result, ok, raised, key_error}
use logit_be.Tokens.Ledger.{posted, Posts}
use logit_be.Tokens.Effects.{token_of}
use logit_be.Tokens.Monthly.{
  already_granted, plan_key, plan_monthly_tokens, current_billing_period_start,
  ensure_monthly_tokens,
}

-- Whether the tokens of the period of `now` are already granted to user `u`.
abbrev pub has_grant : Db → ℕ → Option Subscription → DateTime → Bool
has_grant d u sub now =
    already_granted (token_of d u now).last_monthly_grant_at (current_billing_period_start now sub)

abbrev pub monthly_amount : Bool → Option ℤ → ℤ
monthly_amount true o = pos 0
monthly_amount false none = pos 0
monthly_amount false (some a) = a

abbrev pub monthly_result : Bool → Option ℤ → Result (Bool × ℤ)
monthly_result true o = ok (false, pos 0)
monthly_result false none = raised key_error
monthly_result false (some a) = ok (true, a)

module _ (u : ℕ) (sub : Option Subscription) (now later : DateTime) (w : World) where
  pub ensure_monthly_tokens-Posts :
      Posts u
        (monthly_amount (has_grant w.db u sub now) (plan_monthly_tokens (plan_key sub)))
        w.db
        (ensure_monthly_tokens u sub now later w).1.db
  unfolding ensure_monthly_tokens posted
  ensure_monthly_tokens-Posts = grind int_laws

  pub ensure_monthly_tokens-result :
      (ensure_monthly_tokens u sub now later w).0
      ≡ monthly_result (has_grant w.db u sub now) (plan_monthly_tokens (plan_key sub))
  unfolding ensure_monthly_tokens
  ensure_monthly_tokens-result = ground arith

  -- A grant leaves its instant in the row.
  pub grant_stamps :
      (a : ℤ)
      → (ensure_monthly_tokens u sub now later w).0 ≡ ok (true, a)
      → (t : DateTime)
      → (token_of (ensure_monthly_tokens u sub now later w).1.db u t).last_monthly_grant_at
        ≡ some later
  unfolding ensure_monthly_tokens
  grant_stamps a h t = ground arith

  pub grant_keeps_row :
      (a : ℤ)
      → (ensure_monthly_tokens u sub now later w).0 ≡ ok (true, a)
      → let d = (ensure_monthly_tokens u sub now later w).1.db in
        (t : DateTime) → d.user_tokens u ≡ some (token_of d u t)
  unfolding ensure_monthly_tokens
  grant_keeps_row a h t = ground arith

  -- With the period granted and a row there, nothing is written.
  pub granted_no_op :
      (t : UserToken)
      → w.db.user_tokens u ≡ some t
      → has_grant w.db u sub now ≡ true
      → ensure_monthly_tokens u sub now later w ≡ (ok (false, pos 0), w)
  unfolding ensure_monthly_tokens
  granted_no_op t e h = ground arith

pub has_grant-stamped :
    (d : Db) (u : ℕ) (sub : Option Subscription) (now since : DateTime) (t : UserToken)
    → d.user_tokens u ≡ some t
    → t.last_monthly_grant_at ≡ some since
    → has_grant d u sub now ≡ not (before since (current_billing_period_start now sub))
has_grant-stamped d u sub now since t row stamp = ground arith
