-- ===== src/Clock/Order.antt =====
-- The order of datetimes as an order of numbers, which arithmetic reads.
use logit_be.Common.{
  ℕ, ◌+◌, ◌*◌, ◌≤◌, ◌<◌, ◌≡◌, ◌↔◌, true, false, arith, ltb, ltb→lt, lt→ltb, ltb→le, le→ltb,
}
use logit_be.Clock.{DateTime, IsDateTime, before, month_length}

pub month_length-le : (y m : ℕ) → month_length y m ≤ 31
unfolding month_length
month_length-le y m = ground arith

pub month_length-ge : (y m : ℕ) → 28 ≤ month_length y m
unfolding month_length
month_length-ge y m = ground arith

-- A number that grows with the datetime: the fields in a mixed radix.
abbrev pub rank : DateTime → ℕ
rank d = ((d.year * 13 + d.month) * 32 + d.day) * 86400000000 + d.clock

-- What the order needs of a datetime.
pub record InRadix (d : DateTime) : Type 0 where
  pub month_le : d.month ≤ 12
  pub day_le : d.day ≤ 31
  pub clock_lt : d.clock < 86400000000

pub IsDateTime-InRadix : {d : DateTime} → IsDateTime d → InRadix d
IsDateTime-InRadix {d} h = record {
  month_le = h.month_le;
  day_le = omega (arith, h.day_le, month_length-le d.year d.month);
  clock_lt = h.clock_lt;
}

pub before-rank : (a b : DateTime) → InRadix a → InRadix b → before a b ≡ ltb (rank a) (rank b)
unfolding before
before-rank a b ha hb = ground arith

-- The two outcomes of a comparison, as orders of ranks.
module _ {a b : DateTime} (ha : InRadix a) (hb : InRadix b) where
  pub before_iff : (before a b ≡ true) ↔ (rank a < rank b)
  before_iff = rw (before-rank a b ha hb) (ltb→lt _ _, lt→ltb _ _)

  pub not_before_iff : (before a b ≡ false) ↔ (rank b ≤ rank a)
  not_before_iff = rw (before-rank a b ha hb) (ltb→le _ _, le→ltb _ _)

-- `a < b ≤ c`.
pub before_trans :
    {a b c : DateTime}
    → InRadix a
    → InRadix b
    → InRadix c
    → before a b ≡ true
    → before c b ≡ false
    → before a c ≡ true
before_trans {a} {b} {c} ha hb hc p q =
    (before_iff ha hc).1 (omega (arith, (before_iff ha hb).0 p, (not_before_iff hc hb).0 q))
