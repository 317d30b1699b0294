-- ===== src/Subscription/Expiry.antt =====
-- How long a counter of src/subscription/usage.py is kept: `_period_ttl`.
use logit_be.Common.{
  ℕ, ◌+◌, ◌-◌, ◌*◌, ◌/◌, lt→ltb, ◌≤◌, ◌<◌, min, max, ◌≡◌, refl, ap, ◌↔◌, sym, ◌∙◌, true, false,
  some, ◌==◌, ltb, ltb→lt, ltb→le, le→ltb, arith, inl, inr, Bool-cases,
}
use logit_be.Clock.{
  DateTime, at_midnight, before, month_length, days_before, day_micros, second_micros,
  seconds_until, next_month, next_year, prev_month, prev_year,
}
use logit_be.Subscription.Usage.{billing_period_key, next_period, period_ttl}

before_midnight : (t : DateTime) (n : ℕ) → before t (at_midnight t n) ≡ ltb t.day n
unfolding before
before_midnight t n = ground arith

next_prev_month : (m : ℕ) → 1 ≤ m → m ≤ 12 → next_month (prev_month m) ≡ m
next_prev_month m h k = elim (Bool-cases (ltb 1 m)) [
  | inl a ↦ rw a omega (arith, h, k, ltb→lt 1 m a)
  | inr a ↦ rw a omega (arith, h, ltb→le 1 m a)
]

next_prev_year : (y m : ℕ) → 1 ≤ y → 1 ≤ m → m ≤ 12 → next_year (prev_year y m) (prev_month m) ≡ y
next_prev_year y m p h k = ground (arith, p, h, k)

before_next :
    (t : DateTime) (d : ℕ)
    → 1 ≤ t.month
    → t.month ≤ 12
    → before t
        (record { year = next_year t.year t.month; month = next_month t.month; day = d; clock = 0 })
      ≡ true
unfolding before
before_next t d h k = elim (Bool-cases (t.month == 12)) [
  | inl a ↦ rw a ground (arith, h, k)
  | inr a ↦ rw a ground (arith, h, k)
]

earlier_iff :
    (d s l p : ℕ) → d < min s l → (ltb d (min (min s p) l) ≡ false) ↔ ((d < min s l) × (p ≤ d))
earlier_iff d s l p h = (
  λ f. (h, let g = ltb→le d (min (min s p) l) f in omega (arith, g, h)),
  λ q. le→ltb d (min (min s p) l) (omega (arith, q.1)),
)

-- The day of payment of the month is still to come, and the day is at least the length of the month before.
abbrev pub IsLeftOver : DateTime → DateTime → Type 0
IsLeftOver s t =
    (t.day < min s.day (month_length t.year t.month))
    × (month_length (prev_year t.year t.month) (prev_month t.month) ≤ t.day)

passed_iff :
    (s t : DateTime)
    → 1 ≤ t.year
    → 1 ≤ t.month
    → t.month ≤ 12
    → (before t (next_period (some s) t) ≡ false) ↔ IsLeftOver s t
unfolding billing_period_key
passed_iff s t p h k =
    let anchor = min s.day (month_length t.year t.month) in
    elim (Bool-cases (before t (at_midnight t anchor))) [
      | inr a ↦
          rw
            (
              a,
              before_next t
                  (min anchor (month_length (next_year t.year t.month) (next_month t.month))) h k,
            )
            (λ f. absurd (ground (arith, f)), λ q. absurd (omega (arith, q.0, not_past a)))
      | inl a ↦
          rw (a, next_prev_month t.month h k, next_prev_year t.year t.month p h k)
            (rw
              (before_midnight t (
                min (min s.day (month_length (prev_year t.year t.month) (prev_month t.month)))
                  (month_length t.year t.month)))
              (earlier_iff t.day s.day (month_length t.year t.month)
                (month_length (prev_year t.year t.month) (prev_month t.month)) (past a)))
    ]
  where
    past :
        before t (at_midnight t (min s.day (month_length t.year t.month))) ≡ true
        → t.day < min s.day (month_length t.year t.month)
    past a = ltb→lt _ _ (sym (before_midnight t _) ∙ a)

    not_past :
        before t (at_midnight t (min s.day (month_length t.year t.month))) ≡ false
        → min s.day (month_length t.year t.month) ≤ t.day
    not_past a = ltb→le _ _ (sym (before_midnight t _) ∙ a)

-- A day of the month that is not before the end, in the month of the end.
no_seconds :
    (t e : DateTime)
    → e.year ≡ t.year
    → e.month ≡ t.month
    → e.clock ≡ 0
    → e.day ≤ t.day
    → seconds_until t e ≡ 0
no_seconds t e y m c d = rw (y, m, c) (less (days_before t.year t.month) e.day t.day t.clock d)
  where
    less :
        (n a b c : ℕ)
        → a ≤ b
        → ((n + a) * day_micros + 0 - ((n + b) * day_micros + c)) / second_micros ≡ 0
    less n a b c h = omega (arith, h)

left_over-period_ttl :
    (s t : DateTime)
    → 1 ≤ t.year
    → 1 ≤ t.month
    → t.month ≤ 12
    → IsLeftOver s t
    → period_ttl (some s) t ≡ 1
unfolding period_ttl billing_period_key
left_over-period_ttl s t p h k q =
    let anchor = min s.day (month_length t.year t.month) in
    let a : before t (at_midnight t anchor) ≡ true =
      before_midnight t anchor ∙ lt→ltb t.day anchor q.0 in
    rw a (
      ap (λ (n : ℕ). max (n + 1) 1)
        (no_seconds t _ (next_prev_year t.year t.month p h k) (next_prev_month t.month h k) refl
          (omega (arith, q.1))))

-- For an active subscription that began at `s` and a `t` of a year from 1 on and a month from 1 to 12: the
-- end of the period that `_period_ttl` computes at `t` has passed exactly when the day of payment of the
-- month is still to come, so that the period goes on, and the day is at least the length of the month
-- before; a counter that is set at `t` is then kept for a second.
pub end_passed_iff :
    (s t : DateTime)
    → 1 ≤ t.year
    → 1 ≤ t.month
    → t.month ≤ 12
    → (before t (next_period (some s) t) ≡ false) ↔ (IsLeftOver s t × (period_ttl (some s) t ≡ 1))
end_passed_iff s t p h k = (
  λ f. let q = (passed_iff s t p h k).0 f in (q, left_over-period_ttl s t p h k q),
  λ q. (passed_iff s t p h k).1 q.0,
)
