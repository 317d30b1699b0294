-- ===== src/Subscription/Limits.antt =====
-- The limits of src/subscription/usage.py are exact: the uses of a billing period are counted until its end.
use logit_be.Common.{
  ℕ, suc, ◌+◌, ◌-◌, ◌*◌, ◌/◌, ◌≤◌, ◌<◌, max, ◌≡◌, refl, sym, ap, subst, true, Option, none, some,
  List, [], ◌∷◌, length, All, ==_self, ltb, lt→ltb, arith,
}
use logit_be.Clock.{DateTime, Date, micros, second_micros}
use logit_be.Rows.Subscription.{Subscription}
use logit_be.Subscription.Usage.{
  get_plan_limits, billing_period_key, UsageType, chat, draft, usage_eq, date_eq, period_after,
  next_period, period_ttl, Counter, Counters, number_at, bumped, limit_of, started_at, count, incr,
  check, increment,
}

-- Uses at the given instants, the latest first.
unfoldable pub uses : List DateTime → ℕ → Option Subscription → UsageType → Counters → Counters
uses [] u s k c = c
uses (t ∷ ts) u s k c = increment u s k t (uses ts u s k c)

-- An instant of the period of `now` that is not after it.
pub record IsEarlier (started : Option DateTime) (now t : DateTime) : Type 0 where
  pub same_period : billing_period_key started t ≡ billing_period_key started now
  pub not_after : micros t ≤ micros now

-- A counter of `n` uses that Redis still has at `now`.
abbrev Counts : DateTime → ℕ → Option Counter → Type 0
Counts now n none = n ≡ 0
Counts now n (some x) = (x.number ≡ n) × (micros now < x.kept_until)

date_eq_refl : (d : Date) → date_eq d d ≡ true
date_eq_refl d = rw (==_self d.year, ==_self d.month, ==_self d.day) refl

usage_eq_refl : (k : UsageType) → usage_eq k k ≡ true
usage_eq_refl chat = refl
usage_eq_refl draft = refl

-- The time to live reaches beyond the computed end of the period.
period_ttl_lem :
    (started : Option DateTime) (t : DateTime)
    → micros (next_period started t) < micros t + period_ttl started t * second_micros
unfolding period_ttl
period_ttl_lem started t = reaches (micros t) (micros (next_period started t))
  where
    reaches : (a b : ℕ) → b < a + max ((b - a) / second_micros + 1) 1 * second_micros
    reaches a b = omega arith

number_at-Counts :
    (now t : DateTime) (n : ℕ) (o : Option Counter)
    → micros t ≤ micros now
    → Counts now n o
    → number_at t o ≡ n
number_at-Counts now t n none h e = sym e
number_at-Counts now t n (some x) h e =
    rw (lt→ltb (micros t) x.kept_until (omega (arith, h, e.1))) e.0

-- One more use in the period.
bumped-Counts :
    (started : Option DateTime) (now t : DateTime) (n : ℕ) (o : Option Counter)
    → IsEarlier started now t
    → micros now < micros (next_period started now)
    → Counts now n o
    → Counts now (suc n) (some (bumped started t o))
bumped-Counts started now t n o w h e = (
  ap (λ (x : ℕ). suc x) (number_at-Counts now t n o w.not_after e),
  let end : micros (next_period started t) ≡ micros (next_period started now) =
        ap (λ (d : Date). micros (period_after d)) w.same_period in
      omega (arith, end, h, period_ttl_lem started t),
)

incr_lem :
    (u : ℕ) (started : Option DateTime) (k : UsageType) (t : DateTime) (c : Counters) (d : Date)
    → billing_period_key started t ≡ d
    → incr u started k t c u d k ≡ some (bumped started t (c u d k))
unfolding incr
incr_lem u started k t c d e = rw e rw (==_self u, date_eq_refl d, usage_eq_refl k) refl

-- A use at an instant of the period `d`.
increment_lem :
    (u : ℕ) (s : Option Subscription) (k : UsageType) (t : DateTime) (c : Counters) (d : Date)
    (limit : ℕ)
    → limit_of k (get_plan_limits s) ≡ some limit
    → billing_period_key (started_at s) t ≡ d
    → increment u s k t c u d k ≡ some (bumped (started_at s) t (c u d k))
unfolding increment
increment_lem u s k t c d limit h e = rw (increment, h) (incr_lem u (started_at s) k t c d e)

check_lem :
    (u : ℕ) (s : Option Subscription) (k : UsageType) (now : DateTime) (c : Counters) (limit n : ℕ)
    → limit_of k (get_plan_limits s) ≡ some limit
    → number_at now (c u (billing_period_key (started_at s) now) k) ≡ n
    → check u s k now c ≡ (ltb n limit, some (limit - n))
unfolding check count
check_lem u s k now c limit n h e = rw (check, h) rw (count, e) refl

module _ (u : ℕ) (s : Option Subscription) (k : UsageType) (now : DateTime) (limit : ℕ)
    (limited : limit_of k (get_plan_limits s) ≡ some limit)
    (running : micros now < micros (next_period (started_at s) now)) where
  uses-Counts :
      (ts : List DateTime) (c : Counters)
      → c u (billing_period_key (started_at s) now) k ≡ none
      → All (λ (t : DateTime). IsEarlier (started_at s) now t) ts
      → Counts now (length ts) (uses ts u s k c u (billing_period_key (started_at s) now) k)
  unfolding uses
  uses-Counts [] c z h = rw z refl
  uses-Counts (t ∷ ts) c z h =
      let d = billing_period_key (started_at s) now in
      subst (λ (o : Option Counter). Counts now (suc (length ts)) o)
        (sym (increment_lem u s k t (uses ts u s k c) d limit limited h.0.same_period))
        (bumped-Counts (started_at s) now t (length ts) (uses ts u s k c u d k) h.0 running
          (uses-Counts ts c z h.1))

  -- With a limit, in a period whose computed end is still to come, exactly as many uses are allowed as the
  -- limit says: after uses at any instants of the period, of which Redis had no counter before, one more is
  -- allowed when their number is below the limit, and the difference remains.
  pub limit_is_exact :
      (ts : List DateTime) (c : Counters)
      → c u (billing_period_key (started_at s) now) k ≡ none
      → All (λ (t : DateTime). IsEarlier (started_at s) now t) ts
      → check u s k now (uses ts u s k c) ≡ (ltb (length ts) limit, some (limit - length ts))
  limit_is_exact ts c z h = check_lem u s k now (uses ts u s k c) limit (length ts) limited (
      number_at-Counts now now (length ts)
        (uses ts u s k c u (billing_period_key (started_at s) now) k) (omega arith)
        (uses-Counts ts c z h))
