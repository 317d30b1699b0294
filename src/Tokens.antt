-- ===== src/Tokens.antt =====
-- src/tokens/service.py: the balance of a user and the operations on it. `now` is the instant that
-- a call reads from the clock.
pub mod Ledger
pub mod Effects
pub mod Monthly
pub mod Books
pub mod Charges
pub mod Notices
pub mod Attendance
pub mod Balance
mod Tests
use logit_be.Common.{
  ℕ, ◌+◌, ℤ, pos, ◌+ℤ◌, ◌-ℤ◌, ltb_ℤ, eqb_ℤ, Bool, true, false, not, ◌||◌, ◌==◌, Option, none, some,
  String, ◌∷◌, str_eq, if◌then◌else◌,
}
use logit_be.Clock.{DateTime}
use logit_be.Rows.Token.{
  UserToken, TokenTransaction, TokenTransactionType, balance_init, signup_bonus, referral_inviter,
  chat_usage, draft_usage, chat_token_cost, draft_token_cost, signup_bonus_tokens,
}
use logit_be.World.{World, put}
use logit_be.World.Action.{
  Action, pure, raise, execute, write, raise_if, insufficient_tokens, ◌>>=◌, ◌>>◌,
}

-- `UserToken(user_id=user_id, balance=0)`
abbrev pub new_token : DateTime → UserToken
new_token now = record {
  balance = pos 0;
  last_monthly_grant_at = none;
  signup_bonus_granted = false;
  unnotified_signup_bonus_amount = pos 0;
  unnotified_referral_amount = pos 0;
  unnotified_referral_count = 0;
  updated_at = now;
}

-- A change of the ORM object of a user, as the session shows it.
abbrev pub save_token : ℕ → UserToken → Action (Unit {0})
save_token u t = write (λ d. record d { user_tokens = put u t d.user_tokens })

-- `_record_transaction`
unfoldable pub record_transaction : ℕ → ℤ → TokenTransactionType → Option String → Action (Unit {0})
record_transaction u amount kind description = write λ d. record d {
  token_transactions =
      record { user_id = u; amount = amount; kind = kind; description = description }
      ∷ d.token_transactions;
}

or_create : ℕ → DateTime → Option UserToken → Action UserToken
unfolding record_transaction
or_create u now (some token) = pure token
or_create u now none = do
  save_token u (new_token now)
  record_transaction u (pos 0) balance_init (some "토큰 계정 생성")
  pure (new_token now)

unfoldable pub get_or_create_balance : ℕ → DateTime → Action UserToken
unfolding or_create
get_or_create_balance u now = do token ← execute (λ d. d.user_tokens u); or_create u now token

pub get_balance : ℕ → Action ℤ
get_balance u = execute λ d. elim (d.user_tokens u) [ none ↦ pos 0 | some token ↦ token.balance ]

unfoldable pub credit : ℕ → ℤ → TokenTransactionType → Option String → DateTime → Action ℤ
unfolding get_or_create_balance record_transaction
credit u amount kind description now = do
  token ← get_or_create_balance u now
  save_token u (record token { balance = token.balance +ℤ amount; updated_at = now })
  record_transaction u amount kind description
  pure (token.balance +ℤ amount)

-- `description or "친구 초대 보상"`
abbrev or_default : Option String → String → String
or_default none d = d
or_default (some s) d = if str_eq s "" then d else s

unfoldable pub credit_referral_inviter : ℕ → ℤ → Option String → DateTime → Action ℤ
unfolding get_or_create_balance record_transaction
credit_referral_inviter u amount description now = do
  token ← get_or_create_balance u now
  save_token u (record token {
    balance = token.balance +ℤ amount;
    unnotified_referral_amount = token.unnotified_referral_amount +ℤ amount;
    unnotified_referral_count = token.unnotified_referral_count + 1;
    updated_at = now;
  })
  record_transaction u amount referral_inviter (some (or_default description "친구 초대 보상"))
  pure (token.balance +ℤ amount)

clear_referral : ℕ → UserToken → DateTime → Action (Unit {0})
clear_referral u token now =
    if not (eqb_ℤ token.unnotified_referral_amount (pos 0))
      || not (token.unnotified_referral_count == 0)
    then save_token u (record token {
      unnotified_referral_amount = pos 0;
      unnotified_referral_count = 0;
      updated_at = now;
    })
    else pure tt

unfoldable pub claim_referral_notification : ℕ → DateTime → Action (ℤ × ℕ)
unfolding get_or_create_balance clear_referral
claim_referral_notification u now = do
  token ← get_or_create_balance u now
  clear_referral u token now
  pure (token.unnotified_referral_amount, token.unnotified_referral_count)

unfoldable pub debit : ℕ → ℤ → TokenTransactionType → Option String → DateTime → Action ℤ
unfolding get_or_create_balance record_transaction
debit u amount kind description now = do
  token ← get_or_create_balance u now
  raise_if (ltb_ℤ token.balance amount) (insufficient_tokens token.balance amount)
  save_token u (record token { balance = token.balance -ℤ amount; updated_at = now })
  record_transaction u (pos 0 -ℤ amount) kind description
  pure (token.balance -ℤ amount)

grant_bonus : ℕ → UserToken → DateTime → Action (Bool × ℤ)
unfolding record_transaction
grant_bonus u token now = if token.signup_bonus_granted then pure (false, pos 0) else do
  save_token u (record token {
    balance = token.balance +ℤ signup_bonus_tokens;
    signup_bonus_granted = true;
    unnotified_signup_bonus_amount = signup_bonus_tokens;
    updated_at = now;
  })
  record_transaction u signup_bonus_tokens signup_bonus (some "신규 가입 보너스")
  pure (true, signup_bonus_tokens)

unfoldable pub grant_signup_bonus : ℕ → DateTime → Action (Bool × ℤ)
unfolding get_or_create_balance grant_bonus
grant_signup_bonus u now = do token ← get_or_create_balance u now; grant_bonus u token now

clear_bonus : ℕ → UserToken → DateTime → Action (Unit {0})
clear_bonus u token now =
    if not (eqb_ℤ token.unnotified_signup_bonus_amount (pos 0))
    then save_token u (record token { unnotified_signup_bonus_amount = pos 0; updated_at = now })
    else pure tt

unfoldable pub claim_signup_bonus_notification : ℕ → DateTime → Action ℤ
unfolding get_or_create_balance clear_bonus
claim_signup_bonus_notification u now = do
  token ← get_or_create_balance u now
  clear_bonus u token now
  pure token.unnotified_signup_bonus_amount

unfoldable pub debit_chat : ℕ → DateTime → Action ℤ
unfolding debit
debit_chat u now = debit u chat_token_cost chat_usage (some "채팅") now

unfoldable pub debit_draft : ℕ → DateTime → Action ℤ
unfolding debit
debit_draft u now = debit u draft_token_cost draft_usage (some "초안 생성") now
