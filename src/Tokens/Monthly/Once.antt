-- ===== src/Tokens/Monthly/Once.antt =====
-- `ensure_monthly_tokens` of src/tokens/service.py pays an active subscriber once for each billing
-- period.
use logit_be.Common.{
  ℕ, ℤ, pos, ◌+◌, ◌*◌, ◌≤◌, ◌<◌, ◌≡◌, ◌∙◌, ap, ◌↔◌, refl, subst, Bool, not, true, false, Option,
  some, arith, Bool-cases, inl, inr,
}
use native.Mathlib.Decide.{dec_lt}
use logit_be.Clock.{DateTime, Date, before, date, IsDateTime, next_month, next_year}
use logit_be.Clock.Order.{
  InRadix, before_trans, IsDateTime-InRadix, rank, before_iff, not_before_iff,
}
use logit_be.Rows.Token.{UserToken}
use logit_be.Rows.Subscription.{Subscription}
use logit_be.World.{World}
use logit_be.World.Action.{ok}
use logit_be.Tokens.Monthly.{
  current_billing_period_start, ensure_monthly_tokens, plan_key, plan_monthly_tokens,
}
use logit_be.Tokens.Monthly.Period.{
  anchor, anchor_mono, clamped_day-le, anchor-InRadix, IsLastAnchor,
  current_billing_period_start-IsLastAnchor,
}
use logit_be.Tokens.Monthly.Grants.{
  granted_no_op, has_grant-stamped, monthly_result, grant_keeps_row, grant_stamps,
  ensure_monthly_tokens-result,
}

-- A billing day of the subscription that came after `since` and up to `now`.
abbrev pub NewPeriod : Subscription → DateTime → DateTime → Type 0
NewPeriod s since now =
    (y m : ℕ) × (1 ≤ m)
    × (m ≤ 12)
    × (before since (anchor s.started_at.day y m) ≡ true)
    × (before now (anchor s.started_at.day y m) ≡ false)

module _ (s : Subscription) (since now : DateTime) (active : s.is_active ≡ true)
    (since_valid : IsDateTime since) (now_valid : IsDateTime now) where
  start : DateTime
  start = current_billing_period_start now (some s)

  start-IsLastAnchor : IsLastAnchor s.started_at.day now start
  unfolding start
  start-IsLastAnchor = current_billing_period_start-IsLastAnchor now s now_valid active

  start-InRadix : InRadix start
  start-InRadix = rw start-IsLastAnchor.is_anchor (anchor-InRadix _ _ _ start-IsLastAnchor.month_le)

  NewPeriod-starts : before since start ≡ true → NewPeriod s since now
  NewPeriod-starts e =
      let at_anchor : start ≡ anchor s.started_at.day start.year start.month =
        start-IsLastAnchor.is_anchor in
      (
        start.year,
        start.month,
        start-IsLastAnchor.month_ge,
        start-IsLastAnchor.month_le,
        subst (λ x. before since x ≡ true) at_anchor e,
        subst (λ x. before now x ≡ false) at_anchor start-IsLastAnchor.reached,
      )

  start_after : NewPeriod s since now → before since start ≡ true
  start_after (y, m, m1, m2, a, b) =
      before_trans (IsDateTime-InRadix since_valid) (anchor-InRadix _ y m m2) start-InRadix a
        (start-IsLastAnchor.last y m m1 m2 b)

paid_only_if :
    (b : Bool) (amount : ℤ) → monthly_result (not b) (some amount) ≡ ok (true, amount) → b ≡ true
paid_only_if true amount e = refl
paid_only_if false amount e = cc

-- After a grant at `since`, an active subscriber's next call, where the plan has a monthly amount, pays it
-- exactly when a billing day of the subscription has come in between.
pub granted_again_iff :
    (u : ℕ) (sub : Option Subscription) (s : Subscription) (at since now later : DateTime)
    (w : World) (a b : ℤ)
    → (ensure_monthly_tokens u sub at since w).0 ≡ ok (true, a)
    → s.is_active ≡ true
    → IsDateTime since
    → IsDateTime now
    → plan_monthly_tokens (plan_key (some s)) ≡ some b
    → ((ensure_monthly_tokens u (some s) now later (ensure_monthly_tokens u sub at since w).1).0
        ≡ ok (true, b))
      ↔ NewPeriod s since now
unfolding start
granted_again_iff u sub s at since now later w a b granted active vs vn price =
    let stamp = grant_stamps u sub at since w a granted now in
    rw (ensure_monthly_tokens-result, stamp, price)
      (
        (λ e. NewPeriod-starts s since now active vs vn (paid_only_if _ b e)),
        (λ p. rw (start_after s since now active vs vn p) refl),
      )

-- Within a period there is no second grant: as long as no billing day has come since the last one,
-- a call reports none and writes nothing.
pub no_grant_within_period :
    (u : ℕ) (s : Subscription) (since now later : DateTime) (w : World) (t : UserToken)
    → w.db.user_tokens u ≡ some t
    → t.last_monthly_grant_at ≡ some since
    → s.is_active ≡ true
    → IsDateTime since
    → IsDateTime now
    → ¬ NewPeriod s since now
    → ensure_monthly_tokens u (some s) now later w ≡ (ok (false, pos 0), w)
unfolding start
no_grant_within_period u s since now later w t row stamp active vs vn none_new =
    granted_no_op u (some s) now later w t row (
      has_grant-stamped w.db u (some s) now since t row stamp
      ∙ elim (Bool-cases (before since (current_billing_period_start now (some s)))) [
        | inl e ↦ absurd (none_new (NewPeriod-starts s since now active vs vn e))
        | inr e ↦ rw e refl
      ])

-- The billing day in the month after the purchase.
abbrev pub second_billing_day : Subscription → DateTime
second_billing_day s =
    let start = s.started_at in
    anchor start.day (next_year start.year start.month) (next_month start.month)

-- A grant on the day of the purchase is after that day's midnight, where the first period begins.
not-NewPeriod :
    (s : Subscription) (since now : DateTime)
    → IsDateTime since
    → IsDateTime now
    → date s.started_at ≡ date since
    → before now (second_billing_day s) ≡ true
    → ¬ NewPeriod s since now
not-NewPeriod s since now vs vn day rest (y, m, m1, m2, a, b) =
    let ey : s.started_at.year ≡ since.year = ap (λ (x : Date). x.year) day in
    let em : s.started_at.month ≡ since.month = ap (λ (x : Date). x.month) day in
    let ed : s.started_at.day ≡ since.day = ap (λ (x : Date). x.day) day in
    let ny = next_year s.started_at.year s.started_at.month in
    let nm = next_month s.started_at.month in
    let nm-le : nm ≤ 12 = omega arith in
    let lt : rank since < rank (anchor s.started_at.day y m) =
      (before_iff (IsDateTime-InRadix vs) (anchor-InRadix _ y m m2)).0 a in
    let come : rank (anchor s.started_at.day y m) ≤ rank now =
      (not_before_iff (IsDateTime-InRadix vn) (anchor-InRadix _ y m m2)).0 b in
    let wait : rank now < rank (anchor s.started_at.day ny nm) =
      (before_iff (IsDateTime-InRadix vn) (anchor-InRadix _ ny nm nm-le)).0 rest in
    elim (dec_lt (since.year * 13 + since.month) (y * 13 + m)) [
      | yes later ↦
          let next : ny * 13 + nm ≤ y * 13 + m = ground (arith, vs.month_ge, vs.month_le) in
          let mono : rank (anchor s.started_at.day ny nm) ≤ rank (anchor s.started_at.day y m) =
            anchor_mono s.started_at.day ny nm y m nm-le m2 next in
          absurd (omega arith)
      | no not_later ↦ absurd (omega (arith, clamped_day-le s.started_at.day y m))
    ]

-- Whoever buys a plan on the day of a grant, such as the free one, is paid nothing for it before the
-- next month's billing day.
pub same_day_purchase_waits :
    (u : ℕ) (sub : Option Subscription) (s : Subscription) (at since now later : DateTime)
    (w : World) (a : ℤ)
    → (ensure_monthly_tokens u sub at since w).0 ≡ ok (true, a)
    → s.is_active ≡ true
    → IsDateTime since
    → IsDateTime now
    → date s.started_at ≡ date since
    → before now (second_billing_day s) ≡ true
    → ensure_monthly_tokens u (some s) now later (ensure_monthly_tokens u sub at since w).1
      ≡ (ok (false, pos 0), (ensure_monthly_tokens u sub at since w).1)
same_day_purchase_waits u sub s at since now later w a granted active vs vn day rest =
    no_grant_within_period u s since now later _ _ (grant_keeps_row u sub at since w a granted now)
      (grant_stamps u sub at since w a granted now) active vs vn
      (not-NewPeriod s since now vs vn day rest)
