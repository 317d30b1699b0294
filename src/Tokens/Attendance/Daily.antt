-- ===== src/Tokens/Attendance/Daily.antt =====
-- A user is paid for attendance once a day (src/tokens/service.py: `check_in`).
use logit_be.Common.{
  ℕ, ℤ, pos, ◌≡◌, ◌∙◌, sym, subst, refl, Bool, true, false, List, [], ◌∷◌, arith, ◌==◌, ◌&&◌,
  if◌then◌else◌, Option, none, some, ltb_ℤ, ◌-ℤ◌,
}
use logit_be.Clock.{DateTime, date, Date}
use logit_be.World.{World}
use logit_be.World.Action.{ok}
use logit_be.Tokens.{credit}
use logit_be.Tokens.Attendance.Pool.{take_tokens-step, with_pool, init_pool_if_needed-some}
use logit_be.Tokens.Attendance.{
  or_init_pool, check_in, success, event_ended, already_checked_in, same_date, mark, try_key,
  take_tokens, init_pool_if_needed, pool_ran_out, record_check_in,
}

-- A check-in with the key of its day taken, or after the end, writes nothing, here or in Redis.
blocked_check_in :
    (u : ℕ) (now : DateTime) (w : World)
    → w.redis.checked_in u (date now) ≡ true
    → check_in u now w
      ≡ (ok (false, if w.redis.event_ended then event_ended else already_checked_in), w)
unfolding check_in
blocked_check_in u now w e = ground arith

-- Whether (v, e) is the key of a check-in of `u` on day `d`.
abbrev is_key : ℕ → Date → ℕ → Date → Bool
is_key u d v e = v == u && same_date e d

or_init_pool-keys :
    (o : Option ℤ) (w : World) → (or_init_pool o w).1.redis.checked_in ≡ w.redis.checked_in
unfolding or_init_pool
or_init_pool-keys none w = ground arith
or_init_pool-keys (some n) w = refl

init_pool_if_needed-keys :
    (w : World) → (init_pool_if_needed w).1.redis.checked_in ≡ w.redis.checked_in
unfolding init_pool_if_needed
init_pool_if_needed-keys w = or_init_pool-keys w.redis.pool_remaining w

module _ (u : ℕ) (now : DateTime) (w : World) where
  -- The keys of other users and days are left alone.
  abbrev KeepsOthers : World → Type 0
  KeepsOthers w' =
      (v : ℕ) (e : Date)
      → is_key u (date now) v e ≡ false
      → w'.redis.checked_in v e ≡ w.redis.checked_in v e

  pool_ran_out-others : KeepsOthers (pool_ran_out u now w).1
  unfolding pool_ran_out
  pool_ran_out-others v e h = ground arith

  record_check_in-others : KeepsOthers (record_check_in u now w).1
  unfolding record_check_in credit
  record_check_in-others v e h = ground arith

  -- A success is a check-in that kept its key.
  record_check_in-keeps :
      (record_check_in u now w).0 ≡ ok (true, success)
      → (record_check_in u now w).1.redis.checked_in ≡ w.redis.checked_in
  unfolding record_check_in credit
  record_check_in-keeps h = ground arith

  pool_ran_out-fails : (pool_ran_out u now w).0 ≡ ok (false, event_ended)
  unfolding pool_ran_out
  pool_ran_out-fails = ground arith

  settle-others :
      (b : Bool) → KeepsOthers ((if b then pool_ran_out u now else record_check_in u now) w).1
  settle-others true = pool_ran_out-others
  settle-others false = record_check_in-others

  settle-keeps :
      (b : Bool)
      → ((if b then pool_ran_out u now else record_check_in u now) w).0 ≡ ok (true, success)
      → ((if b then pool_ran_out u now else record_check_in u now) w).1.redis.checked_in
        ≡ w.redis.checked_in
  settle-keeps true e = cc pool_ran_out-fails
  settle-keeps false e = record_check_in-keeps e

module _ (u : ℕ) (now : DateTime) (w : World) where
  -- What a check-in that took its key comes to.
  left : ℤ
  left = (init_pool_if_needed-some w).0 -ℤ pos 3

  drawn : World
  drawn = with_pool left (init_pool_if_needed w).1

  step :
      take_tokens u now w
      ≡ (if ltb_ℤ left (pos 0) then pool_ran_out u now else record_check_in u now) drawn
  unfolding left drawn
  step = let s = init_pool_if_needed-some w in take_tokens-step u now w s.0 s.1 s.2

  drawn-keys : drawn.redis.checked_in ≡ w.redis.checked_in
  unfolding drawn
  drawn-keys = init_pool_if_needed-keys w

  take_tokens-others : KeepsOthers u now w (take_tokens u now w).1
  take_tokens-others v e h =
      rw (step, settle-others u now drawn (ltb_ℤ left (pos 0)) v e h, drawn-keys) refl

  take_tokens-keeps :
      (take_tokens u now w).0 ≡ ok (true, success)
      → (take_tokens u now w).1.redis.checked_in ≡ w.redis.checked_in
  take_tokens-keeps e =
      rw step (settle-keeps u now drawn (ltb_ℤ left (pos 0)) (rw step at e) ∙ drawn-keys)

same_date_refl : (d : Date) → same_date d d ≡ true
same_date_refl d = ground arith

same_date-eq : (d e : Date) → same_date d e ≡ true → d ≡ e
same_date-eq d e h = ground arith

abbrev keyed : ℕ → DateTime → World → World
keyed u now w = record w {
  redis = record w.redis { checked_in = mark u (date now) true w.redis.checked_in };
}

keyed_self :
    (u : ℕ) (now : DateTime) (w : World) → (keyed u now w).redis.checked_in u (date now) ≡ true
keyed_self u now w = ground arith

try_key-takes :
    (u : ℕ) (now : DateTime) (b : Bool) (w : World)
    → (try_key u now b w).0 ≡ ok (true, success)
    → (try_key u now b w).1.redis.checked_in u (date now) ≡ true
unfolding try_key
try_key-takes u now true w h = cc
try_key-takes u now false w h = rw (take_tokens-keeps u now (keyed u now w) h) (keyed_self u now w)

try_key-keeps :
    (u v : ℕ) (now : DateTime) (e : Date) (b : Bool) (w : World)
    → w.redis.checked_in u (date now) ≡ b
    → w.redis.checked_in v e ≡ true
    → (try_key u now b w).1.redis.checked_in v e ≡ true
unfolding try_key
try_key-keeps u v now e true w taken h = h
try_key-keeps u v now e false w taken h =
    let other : is_key u (date now) v e ≡ false = ground (arith, same_date-eq e (date now)) in
    take_tokens-others u now (keyed u now w) v e other ∙ ground arith

-- A success leaves the key of its user and day.
success_takes_key :
    (u : ℕ) (now : DateTime) (w : World)
    → (check_in u now w).0 ≡ ok (true, success)
    → (check_in u now w).1.redis.checked_in u (date now) ≡ true
unfolding check_in
success_takes_key u now w h =
    ground (arith, try_key-takes u now (w.redis.checked_in u (date now)) w)

-- No check-in gives up a key that was taken before it.
check_in_keeps_keys :
    (u v : ℕ) (now : DateTime) (e : Date) (w : World)
    → w.redis.checked_in v e ≡ true
    → (check_in u now w).1.redis.checked_in v e ≡ true
unfolding check_in
check_in_keeps_keys u v now e w h =
    ground (arith, try_key-keeps u v now e (w.redis.checked_in u (date now)) w refl h)

-- Check-ins of any users, one after the other.
pub visits : List (ℕ × DateTime) → World → World
visits [] w = w
visits ((u, t) ∷ rest) w = visits rest (check_in u t w).1

visits_keep_keys :
    (l : List (ℕ × DateTime)) (v : ℕ) (e : Date) (w : World)
    → w.redis.checked_in v e ≡ true
    → (visits l w).redis.checked_in v e ≡ true
unfolding visits
visits_keep_keys [] v e w h = h
visits_keep_keys ((u, t) ∷ rest) v e w h =
    visits_keep_keys rest v e (check_in u t w).1 (check_in_keeps_keys u v t e w h)

-- After a success, and whatever check-ins follow, another one of the same user on the same day pays
-- nothing and writes nothing: it answers that the user was there, or that the event is over.
pub once_a_day :
    (u : ℕ) (now later : DateTime) (l : List (ℕ × DateTime)) (w : World)
    → (check_in u now w).0 ≡ ok (true, success)
    → date later ≡ date now
    → let w' = visits l (check_in u now w).1 in
      check_in u later w'
      ≡ (ok (false, if w'.redis.event_ended then event_ended else already_checked_in), w')
once_a_day u now later l w h day =
    let key : (visits l (check_in u now w).1).redis.checked_in u (date now) ≡ true =
      visits_keep_keys l u (date now) _ (success_takes_key u now w h) in
    blocked_check_in u later _
      (subst (λ d. (visits l (check_in u now w).1).redis.checked_in u d ≡ true) (sym day) key)
