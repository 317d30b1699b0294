-- ===== src/Tokens/Monthly/Period.antt =====
-- A billing period begins at the last anchor that is not in the future.
use logit_be.Common.{
  ℕ, ◌+◌, ◌*◌, ◌≤◌, ◌<◌, ◌≡◌, refl, inl, inr, true, false, some, arith, Bool-cases,
}
use native.Mathlib.Decide.{dec_lt}
use native.Mathlib.Nat.{le_refl}
use logit_be.Clock.{DateTime, IsDateTime, before, prev_month, prev_year}
use logit_be.Clock.Order.{
  rank, InRadix, not_before_iff, before_iff, month_length-le, IsDateTime-InRadix,
}
use logit_be.Rows.Subscription.{Subscription}
use logit_be.Tokens.Monthly.{clamped_day, current_billing_period_start}

-- The instant at which the period of a month begins.
abbrev pub anchor : ℕ → ℕ → ℕ → DateTime
anchor day y m = record { year = y; month = m; day = clamped_day day y m; clock = 0 }

-- `x` is the last anchor up to `now`.
pub record IsLastAnchor (day : ℕ) (now x : DateTime) : Type 0 where
  pub reached : before now x ≡ false
  pub month_ge : 1 ≤ x.month
  pub month_le : x.month ≤ 12
  pub is_anchor : x ≡ anchor day x.year x.month
  pub last :
      (y m : ℕ)
      → 1 ≤ m
      → m ≤ 12
      → before now (anchor day y m) ≡ false
      → before x (anchor day y m) ≡ false

pub anchor-InRadix : (day y m : ℕ) → m ≤ 12 → InRadix (anchor day y m)
anchor-InRadix day y m h = record {
  month_le = h;
  day_le = omega (arith, month_length-le y m);
  clock_lt = omega arith;
}

pub clamped_day-le : (day y m : ℕ) → clamped_day day y m ≤ 31
clamped_day-le day y m = omega (arith, month_length-le y m)

rank-anchor_lt :
    (day y m y' m' : ℕ)
    → y * 13 + m < y' * 13 + m'
    → rank (anchor day y m) < rank (anchor day y' m') + 86400000000
rank-anchor_lt day y m y' m' h = omega (arith, clamped_day-le day y m)

-- Anchors are ordered as their months are.
pub anchor_mono :
    (day y m y' m' : ℕ)
    → m ≤ 12
    → m' ≤ 12
    → y * 13 + m ≤ y' * 13 + m'
    → rank (anchor day y m) ≤ rank (anchor day y' m')
anchor_mono day y m y' m' h h' le = elim (dec_lt (y * 13 + m) (y' * 13 + m')) [
  | yes lt ↦ omega (arith, clamped_day-le day y m)
  | no ge ↦
      let ey : y ≡ y' = omega arith in let em : m ≡ m' = omega arith in rw (ey, em) (le_refl _)
]

module _ (now : DateTime) (day : ℕ) (valid : IsDateTime now) where
  now-InRadix : InRadix now
  now-InRadix = IsDateTime-InRadix valid

  -- The month of an anchor that has come is not after this one.
  month_reached :
      (y m : ℕ)
      → m ≤ 12
      → before now (anchor day y m) ≡ false
      → (rank (anchor day y m) ≤ rank now) × (y * 13 + m ≤ now.year * 13 + now.month)
  month_reached y m h e =
      let le : rank (anchor day y m) ≤ rank now =
        (not_before_iff now-InRadix (anchor-InRadix day y m h)).0 e in
      (le, omega (arith, now-InRadix.day_le, now-InRadix.clock_lt))

  -- This month's anchor has come.
  this_month :
      before now (anchor day now.year now.month) ≡ false
      → IsLastAnchor day now (anchor day now.year now.month)
  this_month e = record {
    reached = e;
    month_ge = valid.month_ge;
    month_le = valid.month_le;
    is_anchor = refl;
    last = λ y m m1 m2 le.
        (not_before_iff (anchor-InRadix day _ _ valid.month_le) (anchor-InRadix day y m m2)).1
          (anchor_mono day y m _ _ m2 valid.month_le (month_reached y m m2 le).1);
  }

  prev_month-le : prev_month now.month ≤ 12
  prev_month-le = ground (arith, valid.month_le)

  prev_month_before :
      prev_year now.year now.month * 13 + prev_month now.month < now.year * 13 + now.month
  prev_month_before = ground (arith, valid.month_ge, valid.year_ge)

  -- No month lies between the previous one and this one.
  prev_month_adjacent :
      (y m : ℕ)
      → 1 ≤ m
      → m ≤ 12
      → y * 13 + m < now.year * 13 + now.month
      → y * 13 + m ≤ prev_year now.year now.month * 13 + prev_month now.month
  prev_month_adjacent y m h h' lt = ground (arith, valid.month_ge, valid.year_ge)

  now-lt-anchor :
      before now (anchor day now.year now.month) ≡ true
      → rank now < rank (anchor day now.year now.month)
  now-lt-anchor = (before_iff now-InRadix (anchor-InRadix day _ _ valid.month_le)).0

  -- A month whose anchor has come, where this month's has not, is an earlier one.
  month_earlier :
      (y m : ℕ)
      → m ≤ 12
      → before now (anchor day now.year now.month) ≡ true
      → before now (anchor day y m) ≡ false
      → y * 13 + m < now.year * 13 + now.month
  month_earlier y m h e le = elim (dec_lt (y * 13 + m) (now.year * 13 + now.month)) [
    | yes lt ↦ lt
    | no ge ↦
        let r : rank now < rank (anchor day now.year now.month) = now-lt-anchor e in
        let mono : rank (anchor day now.year now.month) ≤ rank (anchor day y m) =
          anchor_mono day _ _ y m valid.month_le h (omega arith) in
        absurd (omega (arith, (month_reached y m h le).0))
  ]

  -- It has not: the last one is the month before's.
  last_month :
      before now (anchor day now.year now.month) ≡ true
      → IsLastAnchor day now (anchor day (prev_year now.year now.month) (prev_month now.month))
  last_month e = record {
    reached = (not_before_iff now-InRadix (anchor-InRadix day _ _ prev_month-le)).1 (
        omega (
          arith,
          prev_month_before,
          clamped_day-le day (prev_year now.year now.month) (prev_month now.month),
        ));
    month_ge = ground (arith, valid.month_ge);
    month_le = prev_month-le;
    is_anchor = refl;
    last = λ y m m1 m2 le.
        (not_before_iff (anchor-InRadix day _ _ prev_month-le) (anchor-InRadix day y m m2)).1 (
          anchor_mono day y m _ _ m2 prev_month-le
            (prev_month_adjacent y m m1 m2 (month_earlier y m m2 e le)));
  }

-- `_current_billing_period_start` of an active subscription is the last anchor up to now.
pub current_billing_period_start-IsLastAnchor :
    (now : DateTime) (s : Subscription)
    → IsDateTime now
    → s.is_active ≡ true
    → IsLastAnchor s.started_at.day now (current_billing_period_start now (some s))
unfolding current_billing_period_start
current_billing_period_start-IsLastAnchor now s valid e =
    rw e (elim (Bool-cases (before now (anchor s.started_at.day now.year now.month))) [
      | inl p ↦ rw p (last_month now s.started_at.day valid p)
      | inr p ↦ rw p (this_month now s.started_at.day valid p)
    ])
