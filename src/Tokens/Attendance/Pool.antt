-- ===== src/Tokens/Attendance/Pool.antt =====
-- The attendance event never pays out more than its pool (src/tokens/service.py: `check_in`).
use logit_be.Common.{
  ℕ, ℤ, pos, ◌+ℤ◌, ◌-ℤ◌, ◌≤ℤ◌, int_laws, ◌≡◌, refl, Bool, true, false, Option, none, some, arith,
  if◌then◌else◌, Bool-cases, inl, inr, ltb_ℤ,
}
use logit_be.Clock.{DateTime, date}
use logit_be.World.{World}
use logit_be.World.Action.{ok}
use logit_be.Tokens.{credit}
use logit_be.Tokens.Attendance.{
  distributed, check_in, or_init_pool, max_zero, change_pool, try_key, init_pool_if_needed,
  take_tokens, record_check_in, pool_ran_out,
}

-- What was paid, committed or not, fits in the pool together with what Redis says is left and
-- `due`, which a check-in has taken and not yet paid.
pub record Covers (due : ℤ) (w : World) : Type 0 where
  pub paid : distributed w.db.token_transactions +ℤ due ≤ℤ pos 30000
  pub left :
      (n : ℤ)
      → w.redis.pool_remaining ≡ some n
      → (pos 0 ≤ℤ n) × (n +ℤ (distributed w.db.token_transactions +ℤ due) ≤ℤ pos 30000)
  pub committed : distributed w.committed.token_transactions ≤ℤ distributed w.db.token_transactions

abbrev pub IsFunded : World → Type 0
IsFunded = Covers (pos 0)

init_pool_if_needed-IsFunded : (w : World) → IsFunded w → IsFunded (init_pool_if_needed w).1
unfolding init_pool_if_needed
init_pool_if_needed-IsFunded w h = record {
  paid = grind (int_laws, h.paid);
  left = λ n e. grind (int_laws, h.paid, h.left n);
  committed = grind (int_laws, h.committed);
}

or_init_pool-some :
    (o : Option ℤ) (w : World)
    → w.redis.pool_remaining ≡ o
    → (n : ℤ) × (or_init_pool o w ≡ (ok n, (or_init_pool o w).1))
      × ((or_init_pool o w).1.redis.pool_remaining ≡ some n)
unfolding or_init_pool
or_init_pool-some (some c) w e = (c, refl, e)
or_init_pool-some none w e =
    (max_zero (pos 30000 -ℤ distributed w.db.token_transactions), ground arith, ground arith)

-- The pool counter is there afterwards, and the call returns.
pub init_pool_if_needed-some :
    (w : World)
    → (n : ℤ) × (init_pool_if_needed w ≡ (ok n, (init_pool_if_needed w).1))
      × ((init_pool_if_needed w).1.redis.pool_remaining ≡ some n)
unfolding init_pool_if_needed
init_pool_if_needed-some w = or_init_pool-some w.redis.pool_remaining w refl

record_check_in-IsFunded :
    (u : ℕ) (now : DateTime) (w : World) (n : ℤ)
    → w.redis.pool_remaining ≡ some n
    → Covers (pos 3) w
    → IsFunded (record_check_in u now w).1
unfolding record_check_in distributed credit
record_check_in-IsFunded u now w n e h = record {
  paid = grind (int_laws, h.paid, h.committed);
  left = λ m f. grind (int_laws, h.left n e, h.committed);
  committed = grind (int_laws, h.committed);
}

pool_ran_out-IsFunded :
    (u : ℕ) (now : DateTime) (w : World) (n : ℤ)
    → w.redis.pool_remaining ≡ some (n -ℤ pos 3)
    → IsFunded (record w { redis = record w.redis { pool_remaining = some n } })
    → IsFunded (pool_ran_out u now w).1
unfolding pool_ran_out
pool_ran_out-IsFunded u now w n e h = record {
  paid = h.paid;
  left = λ m f. grind (int_laws, h.left n refl);
  committed = h.committed;
}

-- What a change of the pool leaves.
abbrev pub with_pool : ℤ → World → World
with_pool n w = record w { redis = record w.redis { pool_remaining = some n } }

change_pool_lem :
    (f : ℤ → ℤ) (w : World) (n : ℤ)
    → w.redis.pool_remaining ≡ some n
    → change_pool f w ≡ (ok (f n), with_pool (f n) w)
unfolding change_pool
change_pool_lem f w n e = ground arith

-- Past the counter's start and the withdrawal, the pool decides.
pub take_tokens-step :
    (u : ℕ) (now : DateTime) (w : World) (n : ℤ)
    → init_pool_if_needed w ≡ (ok n, (init_pool_if_needed w).1)
    → (init_pool_if_needed w).1.redis.pool_remaining ≡ some n
    → take_tokens u now w
      ≡ (if ltb_ℤ (n -ℤ pos 3) (pos 0) then pool_ran_out u now else record_check_in u now)
          (with_pool (n -ℤ pos 3) (init_pool_if_needed w).1)
unfolding take_tokens
take_tokens-step u now w n e left = ground arith

module _ (u : ℕ) (now : DateTime) (w : World) (n : ℤ) (h : IsFunded w)
    (left : w.redis.pool_remaining ≡ some n) where
  settle-IsFunded :
      (b : Bool)
      → ltb_ℤ (n -ℤ pos 3) (pos 0) ≡ b
      → IsFunded
          ((if b then pool_ran_out u now else record_check_in u now) (with_pool (n -ℤ pos 3) w)).1
  settle-IsFunded true short =
      pool_ran_out-IsFunded u now (with_pool (n -ℤ pos 3) w) n refl (record {
        paid = h.paid;
        left = λ m f. ground (arith, h.left n left);
        committed = h.committed;
      })
  settle-IsFunded false enough =
      record_check_in-IsFunded u now (with_pool (n -ℤ pos 3) w) (n -ℤ pos 3) refl (record {
        paid = grind (int_laws, h.left n left);
        left = λ m f. grind (int_laws, h.left n left);
        committed = h.committed;
      })

take_tokens-IsFunded :
    (u : ℕ) (now : DateTime) (w : World) → IsFunded w → IsFunded (take_tokens u now w).1
take_tokens-IsFunded u now w h =
    let (n, e, left) = init_pool_if_needed-some w in
    rw (take_tokens-step u now w n e left) (
      settle-IsFunded u now (init_pool_if_needed w).1 n (init_pool_if_needed-IsFunded w h) left _
        refl)

try_key-IsFunded :
    (u : ℕ) (now : DateTime) (b : Bool) (w : World) → IsFunded w → IsFunded (try_key u now b w).1
unfolding try_key
try_key-IsFunded u now true w h = h
try_key-IsFunded u now false w h =
    take_tokens-IsFunded u now _ (record { paid = h.paid; left = h.left; committed = h.committed })

-- A check-in keeps the event funded, also one that fails or ends the event.
pub check_in-IsFunded :
    (u : ℕ) (now : DateTime) (w : World) → IsFunded w → IsFunded (check_in u now w).1
unfolding check_in
check_in-IsFunded u now w h = elim (Bool-cases w.redis.event_ended) [
  | inl e ↦ simp e h
  | inr e ↦ simp e (try_key-IsFunded u now (w.redis.checked_in u (date now)) w h)
]
