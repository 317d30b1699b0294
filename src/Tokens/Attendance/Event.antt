-- ===== src/Tokens/Attendance/Event.antt =====
-- The attendance event over many requests, each of them committed or rolled back.
use logit_be.Common.{ℕ, pos, ◌≤ℤ◌, int_laws, ◌≡◌, ◌≢◌, refl, false, List, [], ◌∷◌, arith, All}
use logit_be.Clock.{DateTime}
use logit_be.Rows.Token.{TokenTransactionType, attendance}
use logit_be.World.{World}
use logit_be.World.Action.{commit, rollback}
use logit_be.Tokens.{
  credit, credit_referral_inviter, claim_referral_notification, debit, grant_signup_bonus,
  claim_signup_bonus_notification,
}
use logit_be.Tokens.Monthly.{ensure_monthly_tokens}
use logit_be.Tokens.Books.{
  TokenOp, credit as crediting, debit as debiting, reward_inviter, claim_referral, claim_bonus,
  sign_up, monthly, after,
}
use logit_be.Tokens.Attendance.{distributed, check_in, is_attendance}
use logit_be.Tokens.Attendance.Pool.{IsFunded, check_in-IsFunded}

-- What a request does: a check-in, another operation of the token service, and its end.
pub data Event : Type 0 where
  checks_in : ℕ → DateTime → Event
  books : TokenOp → Event
  commits rolls_back : Event

-- Only `check_in` passes the type `attendance`.
abbrev pub IsOther : Event → Type 0
IsOther (books (crediting u x k s t)) = k ≢ attendance
IsOther (books (debiting u x k s t)) = k ≢ attendance
IsOther _ = Unit

pub occurs : Event → World → World
occurs (checks_in u t) w = (check_in u t w).1
occurs (books op) w = after op w
occurs commits w = (commit w).1
occurs rolls_back w = (rollback w).1

pub occur : List Event → World → World
occur [] w = w
occur (e ∷ es) w = occur es (occurs e w)

is_attendance-ne : (k : TokenTransactionType) → k ≢ attendance → is_attendance k ≡ false
is_attendance-ne attendance h = absurd (h refl)
is_attendance-ne _ h = refl

-- Other operations neither pay for attendance, nor touch Redis or what is committed.
record SamePool (w w' : World) : Type 0 where
  paid : distributed w'.db.token_transactions ≡ distributed w.db.token_transactions
  redis : w'.redis ≡ w.redis
  committed : w'.committed ≡ w.committed

after-SamePool : (op : TokenOp) (w : World) → IsOther (books op) → SamePool w (after op w)
unfolding after distributed credit credit_referral_inviter claim_referral_notification debit
    grant_signup_bonus claim_signup_bonus_notification ensure_monthly_tokens
after-SamePool (crediting u x k s t) w f = grind (int_laws, is_attendance-ne k f)
after-SamePool (debiting u x k s t) w f = grind (int_laws, is_attendance-ne k f)
after-SamePool (reward_inviter u x s t) w f = grind int_laws
after-SamePool (claim_referral u t) w f = grind int_laws
after-SamePool (claim_bonus u t) w f = grind int_laws
after-SamePool (sign_up u t) w f = grind int_laws
after-SamePool (monthly u s t l) w f = grind int_laws

SamePool-IsFunded : (w w' : World) → SamePool w w' → IsFunded w → IsFunded w'
SamePool-IsFunded w w' s h = record {
  paid = rw s.paid h.paid;
  left = λ n e. rw s.paid (h.left n (rw s.redis at e));
  committed = rw (s.paid, s.committed) h.committed;
}

occurs-IsFunded : (e : Event) (w : World) → IsOther e → IsFunded w → IsFunded (occurs e w)
unfolding occurs
occurs-IsFunded (checks_in u t) w f h = check_in-IsFunded u t w h
occurs-IsFunded (books op) w f h = SamePool-IsFunded w _ (after-SamePool op w f) h
occurs-IsFunded commits w f h = record { paid = h.paid; left = h.left; committed = omega arith }
occurs-IsFunded rolls_back w f h = record {
  paid = grind (int_laws, h.paid, h.committed);
  left = λ n e. grind (int_laws, h.left n e, h.committed);
  committed = omega arith;
}

occur-IsFunded : (es : List Event) (w : World) → All IsOther es → IsFunded w → IsFunded (occur es w)
unfolding occur
occur-IsFunded [] w f h = h
occur-IsFunded (e ∷ es) w f h = occur-IsFunded es (occurs e w) f.1 (occurs-IsFunded e w f.0 h)

-- From a funded world, whatever requests come and however they end, the event has paid out 30,000
-- tokens at most.
pub event_within_pool :
    (es : List Event) (w : World)
    → All IsOther es
    → IsFunded w
    → distributed (occur es w).db.token_transactions ≤ℤ pos 30000
event_within_pool es w f h = grind (int_laws, (occur-IsFunded es w f h).paid)
