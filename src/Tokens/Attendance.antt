-- ===== src/Tokens/Attendance.antt =====
-- The daily check-in of src/tokens/service.py: `_init_pool_if_needed` and `check_in`. Redis answers
-- every command here; a failing one is an exception that the caller logs and drops.
pub mod Pool
pub mod Daily
pub mod Event
use logit_be.Common.{
  ℕ, ℤ, pos, ◌+ℤ◌, ◌-ℤ◌, ltb_ℤ, Bool, true, false, ◌&&◌, ◌||◌, ◌==◌, Option, none, some, List, [],
  ◌∷◌, if◌then◌else◌,
}
use logit_be.Clock.{DateTime, Date, date}
use logit_be.Rows.Token.{
  TokenTransaction, TokenTransactionType, attendance, AttendanceLog, attendance_tokens,
  attendance_event_total_pool,
}
use logit_be.World.{Redis, World}
use logit_be.World.Action.{
  Action, pure, raise, gets, execute, write, on_redis, try, fail_flush, ◌>>=◌, ◌>>◌,
}
use logit_be.Tokens.{credit}

pub data CheckIn : Type 0 where
  success event_ended already_checked_in : CheckIn

abbrev pub is_attendance : TokenTransactionType → Bool
is_attendance attendance = true
is_attendance _ = false

-- `coalesce(sum(amount), 0)` over the transactions of type `attendance`.
unfoldable pub distributed : List TokenTransaction → ℤ
distributed [] = pos 0
distributed (t ∷ ts) = (if is_attendance t.kind then t.amount else pos 0) +ℤ distributed ts

abbrev pub same_date : Date → Date → Bool
same_date a b = a.year == b.year && a.month == b.month && a.day == b.day

abbrev pub mark : ℕ → Date → Bool → (ℕ → Date → Bool) → ℕ → Date → Bool
mark u d b f v e = if v == u && same_date e d then b else f v e

-- `max(0, x)`
abbrev max_zero : ℤ → ℤ
max_zero x = if ltb_ℤ x (pos 0) then pos 0 else x

set_pool : ℤ → Action (Unit {0})
set_pool n = on_redis λ r. record r { pool_remaining = some n }

end_event : Action (Unit {0})
end_event = on_redis λ r. record r { event_ended = true }

or_init_pool : Option ℤ → Action ℤ
unfolding set_pool end_event
or_init_pool (some cached) = pure cached
or_init_pool none = do
  paid ← execute (λ d. distributed d.token_transactions)
  let remaining = max_zero (attendance_event_total_pool -ℤ paid)
  set_pool remaining
  if ltb_ℤ remaining attendance_tokens then end_event else pure tt
  pure remaining

unfoldable pub init_pool_if_needed : Action ℤ
unfolding or_init_pool
init_pool_if_needed = do cached ← gets (λ w. w.redis.pool_remaining); or_init_pool cached

-- What `INCRBY` and `DECRBY` read where the key is missing.
abbrev pub pool_of : Redis → ℤ
pool_of r = elim r.pool_remaining [ none ↦ pos 0 | some n ↦ n ]

-- `INCRBY` and `DECRBY` of the pool.
change_pool : (ℤ → ℤ) → Action ℤ
change_pool f = do
  n ← gets (λ w. f (pool_of w.redis))
  on_redis (λ r. record r { pool_remaining = some n })
  pure n

set_key : ℕ → Date → Bool → Action (Unit {0})
set_key u d b = on_redis λ r. record r { checked_in = mark u d b r.checked_in }

-- `uq_attendance_user_date`: the flush of a second row of a user and day fails.
abbrev pub has_log : ℕ → Date → List AttendanceLog → Bool
has_log u d [] = false
has_log u d (l ∷ ls) = l.user_id == u && same_date l.on d || has_log u d ls

add_log : ℕ → Date → Action (Unit {0})
add_log u d =
    write λ db. record db { attendance_logs = record { user_id = u; on = d } ∷ db.attendance_logs }

insert_log : ℕ → Date → Action (Unit {0})
unfolding add_log
insert_log u d = do
  taken ← execute (λ db. has_log u d db.attendance_logs)
  if taken then fail_flush else add_log u d

-- The transaction of a check-in, and what the handler undoes in Redis if it fails.
unfoldable pub record_check_in : ℕ → DateTime → Action (Bool × CheckIn)
unfolding insert_log change_pool set_key
record_check_in u now = do
  try (insert_log u (date now) >> credit u attendance_tokens attendance (some "출석 이벤트") now)
      (λ e. do change_pool (λ n. n +ℤ attendance_tokens); set_key u (date now) false; raise e)
  pure (true, success)

-- The pool is used up: it is restored, and the event ends.
unfoldable pub pool_ran_out : ℕ → DateTime → Action (Bool × CheckIn)
unfolding change_pool end_event set_key
pool_ran_out u now = do
  change_pool (λ n. n +ℤ attendance_tokens)
  end_event
  set_key u (date now) false
  pure (false, event_ended)

-- With the user's key taken: from the pool to the database.
unfoldable pub take_tokens : ℕ → DateTime → Action (Bool × CheckIn)
unfolding change_pool
take_tokens u now = do
  init_pool_if_needed
  new_remaining ← change_pool (λ n. n -ℤ attendance_tokens)
  if ltb_ℤ new_remaining (pos 0) then pool_ran_out u now else record_check_in u now

try_key : ℕ → DateTime → Bool → Action (Bool × CheckIn)
unfolding set_key
try_key u now true = pure (false, already_checked_in)
try_key u now false = do set_key u (date now) true; take_tokens u now

unfoldable pub check_in : ℕ → DateTime → Action (Bool × CheckIn)
unfolding try_key
check_in u now = do
  ended ← gets (λ w. w.redis.event_ended)
  if ended
      then pure (false, event_ended)
      else do taken ← gets (λ w. w.redis.checked_in u (date now)); try_key u now taken
