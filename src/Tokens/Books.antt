-- ===== src/Tokens/Books.antt =====
-- The books after any sequence of the operations of src/tokens/service.py, failed ones included.
use logit_be.Common.{
  ℕ, ℤ, pos, ◌+ℤ◌, ◌≤ℤ◌, int_laws, Bool, Option, String, List, [], ◌∷◌, arith, All,
}
use logit_be.Clock.{DateTime}
use logit_be.Rows.Token.{TokenTransactionType}
use logit_be.Rows.Subscription.{Subscription}
use logit_be.World.{Db, World}
use logit_be.Tokens
use logit_be.Tokens.{
  credit_referral_inviter, claim_referral_notification, grant_signup_bonus,
  claim_signup_bonus_notification,
}
use logit_be.Tokens.Ledger.{
  balance_of, Posts, IsBalanced, IsSolvent, Posts-IsBalanced, Posts-IsSolvent,
}
use logit_be.Tokens.Effects.{
  token_of, bonus_due, charged, credit-Posts, credit_referral_inviter-Posts,
  claim_referral_notification-Posts, debit-Posts, grant_signup_bonus-Posts,
  claim_signup_bonus_notification-Posts,
}
use logit_be.Tokens.Monthly.{ensure_monthly_tokens, plan_key, plan_monthly_tokens}
use logit_be.Tokens.Monthly.Grants.{has_grant, monthly_amount, ensure_monthly_tokens-Posts}

-- A call of an operation of the token service, with the clock readings that it makes.
pub data TokenOp : Type 0 where
  credit debit : ℕ → ℤ → TokenTransactionType → Option String → DateTime → TokenOp
  reward_inviter : ℕ → ℤ → Option String → DateTime → TokenOp
  claim_referral claim_bonus sign_up : ℕ → DateTime → TokenOp
  monthly : ℕ → Option Subscription → DateTime → DateTime → TokenOp

-- The database after the call, whether it returned or raised.
unfoldable pub after : TokenOp → World → World
after (credit u x k s t) w = (Tokens.credit u x k s t w).1
after (debit u x k s t) w = (Tokens.debit u x k s t w).1
after (reward_inviter u x s t) w = (credit_referral_inviter u x s t w).1
after (claim_referral u t) w = (claim_referral_notification u t w).1
after (claim_bonus u t) w = (claim_signup_bonus_notification u t w).1
after (sign_up u t) w = (grant_signup_bonus u t w).1
after (monthly u s t l) w = (ensure_monthly_tokens u s t l w).1

unfoldable pub after_all : List TokenOp → World → World
after_all [] w = w
after_all (op ∷ ops) w = after_all ops (after op w)

-- Who is moved, and by how much.
abbrev user : TokenOp → ℕ
user (credit u x k s t) = u
user (debit u x k s t) = u
user (reward_inviter u x s t) = u
user (claim_referral u t) = u
user (claim_bonus u t) = u
user (sign_up u t) = u
user (monthly u s t l) = u

abbrev moved : TokenOp → Db → ℤ
moved (credit u x k s t) d = x
moved (debit u x k s t) d = charged (balance_of d u) x
moved (reward_inviter u x s t) d = x
moved (claim_referral u t) d = pos 0
moved (claim_bonus u t) d = pos 0
moved (sign_up u t) d = bonus_due (token_of d u t)
moved (monthly u s t l) d = monthly_amount (has_grant d u s t) (plan_monthly_tokens (plan_key s))

after-Posts : (op : TokenOp) (w : World) → Posts (user op) (moved op w.db) w.db (after op w).db
unfolding after
after-Posts (credit u x k s t) w = credit-Posts u t w x k s
after-Posts (debit u x k s t) w = debit-Posts u t w x k s
after-Posts (reward_inviter u x s t) w = credit_referral_inviter-Posts u t w x s
after-Posts (claim_referral u t) w = claim_referral_notification-Posts u t w
after-Posts (claim_bonus u t) w = claim_signup_bonus_notification-Posts u t w
after-Posts (sign_up u t) w = grant_signup_bonus-Posts u t w
after-Posts (monthly u s t l) w = ensure_monthly_tokens-Posts u s t l w

-- After any calls, every balance is still the sum of the amounts of its user's transactions.
pub after_all-IsBalanced :
    (ops : List TokenOp) (w : World) → IsBalanced w.db → IsBalanced (after_all ops w).db
unfolding after_all
after_all-IsBalanced [] w h = h
after_all-IsBalanced (op ∷ ops) w h =
    after_all-IsBalanced ops (after op w)
      (Posts-IsBalanced (user op) (moved op w.db) w.db _ (after-Posts op w) h)

-- No operation is asked to grant or charge a negative amount.
abbrev pub IsFair : TokenOp → Type 0
IsFair (credit u x k s t) = pos 0 ≤ℤ x
IsFair (debit u x k s t) = pos 0 ≤ℤ x
IsFair (reward_inviter u x s t) = pos 0 ≤ℤ x
IsFair _ = Unit

monthly_amount_nonneg : (b : Bool) (k : String) → pos 0 ≤ℤ monthly_amount b (plan_monthly_tokens k)
unfolding plan_monthly_tokens
monthly_amount_nonneg b k = ground arith

moved_keeps_solvent :
    (op : TokenOp) (d : Db)
    → IsFair op
    → pos 0 ≤ℤ balance_of d (user op)
    → pos 0 ≤ℤ balance_of d (user op) +ℤ moved op d
moved_keeps_solvent (credit u x k s t) d f h = omega int_laws
moved_keeps_solvent (debit u x k s t) d f h = grind int_laws
moved_keeps_solvent (reward_inviter u x s t) d f h = omega int_laws
moved_keeps_solvent (claim_referral u t) d f h = omega int_laws
moved_keeps_solvent (claim_bonus u t) d f h = omega int_laws
moved_keeps_solvent (sign_up u t) d f h = grind int_laws
moved_keeps_solvent (monthly u s t l) d f h =
    omega (int_laws, monthly_amount_nonneg (has_grant d u s t) (plan_key s))

-- Where no balance is negative at the start and the amounts of all credits, debits and rewards are zero or
-- more, no balance is negative after any sequence of the operations.
pub after_all-IsSolvent :
    (ops : List TokenOp) (w : World)
    → All IsFair ops
    → IsSolvent w.db
    → IsSolvent (after_all ops w).db
unfolding after_all
after_all-IsSolvent [] w f h = h
after_all-IsSolvent (op ∷ ops) w f h = after_all-IsSolvent ops (after op w) f.1 (
    Posts-IsSolvent (user op) (moved op w.db) w.db _ (after-Posts op w)
      (moved_keeps_solvent op w.db f.0 (h.at_user (user op))) h)
