-- ===== src/Tokens/Notices.antt =====
-- Rewards that a user was not there to see (src/tokens/service.py: `credit_referral_inviter`,
-- `claim_referral_notification`, `grant_signup_bonus`, `claim_signup_bonus_notification`).
use logit_be.Common.{
  ℕ, ◌+◌, ◌≤◌, ℤ, pos, ◌+ℤ◌, int_laws, ◌≡◌, ◌≢◌, refl, Bool, true, false, none, some, List, [], ◌∷◌,
  arith, ◌==◌, ◌&&◌, if◌then◌else◌, All, ==_self,
}
use logit_be.Rows.Token.{TokenTransaction, TokenTransactionType, signup_bonus}
use logit_be.Clock.{DateTime}
use logit_be.World.{Db, World}
use logit_be.World.Action.{Result, ok, raised}
use logit_be.Tokens.{
  credit, credit_referral_inviter, claim_referral_notification, debit, grant_signup_bonus,
  claim_signup_bonus_notification,
}
use logit_be.Tokens.Monthly.{ensure_monthly_tokens}
use logit_be.Tokens.Books.{
  TokenOp, credit as crediting, debit as debiting, reward_inviter, claim_referral, claim_bonus,
  sign_up, monthly, after, after_all,
}

-- The reward of a user that is not announced yet, and from how many invitations it comes.
abbrev pub pending : ℕ → Db → ℤ
pending v d = elim (d.user_tokens v) [ none ↦ pos 0 | some t ↦ t.unnotified_referral_amount ]

abbrev pub pending_count : ℕ → Db → ℕ
pending_count v d = elim (d.user_tokens v) [ none ↦ 0 | some t ↦ t.unnotified_referral_count ]

abbrev told_number : Result (ℤ × ℕ) → ℕ
told_number (ok (amount, count)) = count
told_number (raised e) = 0

abbrev told_amount : Result (ℤ × ℕ) → ℤ
told_amount (ok (amount, count)) = amount
told_amount (raised e) = pos 0

-- What a call announces to user `v`, and what it rewards `v` with.
abbrev pub told_by : ℕ → TokenOp → World → ℤ
told_by v (claim_referral u t) w =
    if u == v then told_amount (claim_referral_notification u t w).0 else pos 0
told_by v _ w = pos 0

abbrev pub number_told_by : ℕ → TokenOp → World → ℕ
number_told_by v (claim_referral u t) w =
    if u == v then told_number (claim_referral_notification u t w).0 else 0
number_told_by v _ w = 0

abbrev pub reward_of : ℕ → TokenOp → ℤ
reward_of v (reward_inviter u x s t) = if u == v then x else pos 0
reward_of v _ = pos 0

abbrev pub number_of : ℕ → TokenOp → ℕ
number_of v (reward_inviter u x s t) = if u == v then 1 else 0
number_of v _ = 0

pub told : ℕ → List TokenOp → World → ℤ
told v [] w = pos 0
told v (op ∷ ops) w = told_by v op w +ℤ told v ops (after op w)

pub rewarded : ℕ → List TokenOp → ℤ
rewarded v [] = pos 0
rewarded v (op ∷ ops) = reward_of v op +ℤ rewarded v ops

-- The same for the numbers of invitations.
pub number_told : ℕ → List TokenOp → World → ℕ
number_told v [] w = 0
number_told v (op ∷ ops) w = number_told_by v op w + number_told v ops (after op w)

pub number_rewarded : ℕ → List TokenOp → ℕ
number_rewarded v [] = 0
number_rewarded v (op ∷ ops) = number_of v op + number_rewarded v ops

after-pending :
    (v : ℕ) (op : TokenOp) (w : World)
    → pending v (after op w).db +ℤ told_by v op w ≡ pending v w.db +ℤ reward_of v op
unfolding after credit credit_referral_inviter claim_referral_notification debit grant_signup_bonus
    claim_signup_bonus_notification ensure_monthly_tokens
after-pending v (crediting u x k s t) w = grind int_laws
after-pending v (debiting u x k s t) w = grind int_laws
after-pending v (reward_inviter u x s t) w = grind int_laws
after-pending v (claim_referral u t) w = grind int_laws
after-pending v (claim_bonus u t) w = grind int_laws
after-pending v (sign_up u t) w = grind int_laws
after-pending v (monthly u s t l) w = grind int_laws

-- Two balances of rewards, one after the other.
carry :
    (first next last t1 t2 r1 r2 : ℤ)
    → next +ℤ t1 ≡ first +ℤ r1
    → last +ℤ t2 ≡ next +ℤ r2
    → last +ℤ (t1 +ℤ t2) ≡ first +ℤ (r1 +ℤ r2)
carry first next last t1 t2 r1 r2 p q = grind int_laws

amounts_told :
    (v : ℕ) (ops : List TokenOp) (w : World)
    → pending v (after_all ops w).db +ℤ told v ops w ≡ pending v w.db +ℤ rewarded v ops
unfolding told rewarded after_all
amounts_told v [] w = refl
amounts_told v (op ∷ ops) w =
    carry (pending v w.db) (pending v (after op w).db) (pending v (after_all ops (after op w)).db) _
      (told v ops (after op w)) _ (rewarded v ops) (after-pending v op w)
      (amounts_told v ops (after op w))

after-pending_count :
    (v : ℕ) (op : TokenOp) (w : World)
    → pending_count v (after op w).db + number_told_by v op w
      ≡ pending_count v w.db + number_of v op
unfolding after credit credit_referral_inviter claim_referral_notification debit grant_signup_bonus
    claim_signup_bonus_notification ensure_monthly_tokens
after-pending_count v (crediting u x k s t) w = ground arith
after-pending_count v (debiting u x k s t) w = ground arith
after-pending_count v (reward_inviter u x s t) w = ground arith
after-pending_count v (claim_referral u t) w = ground arith
after-pending_count v (claim_bonus u t) w = ground arith
after-pending_count v (sign_up u t) w = ground arith
after-pending_count v (monthly u s t l) w = ground arith

numbers_told :
    (v : ℕ) (ops : List TokenOp) (w : World)
    → pending_count v (after_all ops w).db + number_told v ops w
      ≡ pending_count v w.db + number_rewarded v ops
unfolding number_told number_rewarded after_all
numbers_told v [] w = omega arith
numbers_told v (op ∷ ops) w =
    omega (arith, after-pending_count v op w, numbers_told v ops (after op w))

-- A claim that announces all that is pending at `w`, and leaves nothing.
pub record TellsAll (v : ℕ) (t : DateTime) (w : World) : Type 0 where
  pub answer : (claim_referral_notification v t w).0 ≡ ok (pending v w.db, pending_count v w.db)
  pub amount_left : pending v (claim_referral_notification v t w).1.db ≡ pos 0
  pub number_left : pending_count v (claim_referral_notification v t w).1.db ≡ 0

claim-TellsAll : (v : ℕ) (t : DateTime) (w : World) → TellsAll v t w
unfolding claim_referral_notification
claim-TellsAll v t w = record {
  answer = ground (arith, ==_self v);
  amount_left = ground (arith, ==_self v);
  number_left = ground (arith, ==_self v);
}

-- However the calls interleave, each referral reward is announced once: what was announced and what
-- is still pending is what was pending at first and the rewards since, both in tokens and in the number of
-- invitations; and the next claim announces all that is pending, after which nothing is.
pub told_once :
    (v : ℕ) (ops : List TokenOp) (t : DateTime) (w : World)
    → (pending v (after_all ops w).db +ℤ told v ops w ≡ pending v w.db +ℤ rewarded v ops)
      × (pending_count v (after_all ops w).db + number_told v ops w
          ≡ pending_count v w.db + number_rewarded v ops)
      × TellsAll v t (after_all ops w)
told_once v ops t w =
    (amounts_told v ops w, numbers_told v ops w, claim-TellsAll v t (after_all ops w))

-- 1 for a transaction that is a sign-up bonus of user `v`.
abbrev is_bonus : TokenTransactionType → Bool
is_bonus signup_bonus = true
is_bonus _ = false

abbrev bonus_entry : ℕ → TokenTransaction → ℕ
bonus_entry v t = if t.user_id == v && is_bonus t.kind then 1 else 0

-- How many sign-up bonuses user `v` was paid.
unfoldable pub bonuses : ℕ → List TokenTransaction → ℕ
bonuses v [] = 0
bonuses v (t ∷ ts) = bonus_entry v t + bonuses v ts

abbrev bonus_flag : ℕ → Db → ℕ
bonus_flag v d = elim (d.user_tokens v) [
  | none ↦ 0
  | some t ↦ if t.signup_bonus_granted then 1 else 0
]

-- The callers of `credit` and `debit` do not pass the type of the bonus.
abbrev pub IsNoBonus : TokenOp → Type 0
IsNoBonus (crediting u x k s t) = k ≢ signup_bonus
IsNoBonus (debiting u x k s t) = k ≢ signup_bonus
IsNoBonus _ = Unit

-- Each user's flag tells whether the bonus was paid.
pub record BonusOnce (d : Db) : Type 0 where
  pub at_user : (v : ℕ) → bonuses v d.token_transactions ≡ bonus_flag v d

is_bonus-ne : (k : TokenTransactionType) → k ≢ signup_bonus → is_bonus k ≡ false
is_bonus-ne signup_bonus h = absurd (h refl)
is_bonus-ne _ h = refl

after-BonusOnce :
    (op : TokenOp) (w : World) → IsNoBonus op → BonusOnce w.db → BonusOnce (after op w).db
unfolding after bonuses credit credit_referral_inviter claim_referral_notification debit
    grant_signup_bonus claim_signup_bonus_notification ensure_monthly_tokens
after-BonusOnce (crediting u x k s t) w f h = record {
  at_user = λ v. ground (arith, h.at_user v, is_bonus-ne k f);
}
after-BonusOnce (debiting u x k s t) w f h = record {
  at_user = λ v. ground (arith, h.at_user v, is_bonus-ne k f);
}
after-BonusOnce (reward_inviter u x s t) w f h = record {
  at_user = λ v. ground (arith, h.at_user v);
}
after-BonusOnce (claim_referral u t) w f h = record { at_user = λ v. ground (arith, h.at_user v) }
after-BonusOnce (claim_bonus u t) w f h = record { at_user = λ v. ground (arith, h.at_user v) }
after-BonusOnce (sign_up u t) w f h = record { at_user = λ v. ground (arith, h.at_user v) }
after-BonusOnce (monthly u s t l) w f h = record { at_user = λ v. ground (arith, h.at_user v) }

-- The sign-up bonus is paid to a user once at most, whatever is called and how often.
pub bonus_paid_once :
    (ops : List TokenOp) (w : World) (v : ℕ)
    → All IsNoBonus ops
    → BonusOnce w.db
    → bonuses v (after_all ops w).db.token_transactions ≤ 1
unfolding after_all
bonus_paid_once [] w v f h = ground (arith, h.at_user v)
bonus_paid_once (op ∷ ops) w v f h =
    bonus_paid_once ops (after op w) v f.1 (after-BonusOnce op w f.0 h)
