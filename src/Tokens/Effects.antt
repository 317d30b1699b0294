-- ===== src/Tokens/Effects.antt =====
-- What each operation of src/tokens/service.py posts to the books.
use logit_be.Common.{ℕ, ℤ, pos, ◌-ℤ◌, ltb_ℤ, int_laws, Option, none, some, String, if◌then◌else◌}
use logit_be.Clock.{DateTime}
use logit_be.Rows.Token.{UserToken, TokenTransactionType, signup_bonus_tokens}
use logit_be.World.{Db, World}
use logit_be.Tokens.{
  new_token, get_or_create_balance, credit, credit_referral_inviter, claim_referral_notification,
  debit, grant_signup_bonus, claim_signup_bonus_notification,
}
use logit_be.Tokens.Ledger.{balance_of, posted, Posts}

-- The row that an operation on user `u` works with.
abbrev pub token_of : Db → ℕ → DateTime → UserToken
token_of d u now = elim (d.user_tokens u) [ none ↦ new_token now | some t ↦ t ]

abbrev pub bonus_due : UserToken → ℤ
bonus_due t = if t.signup_bonus_granted then pos 0 else signup_bonus_tokens

-- What a charge of `amount` takes from a balance: all of it or nothing.
abbrev pub charged : ℤ → ℤ → ℤ
charged balance amount = if ltb_ℤ balance amount then pos 0 else pos 0 -ℤ amount

module _ (u : ℕ) (now : DateTime) (w : World) where
  pub get_or_create_balance-Posts : Posts u (pos 0) w.db (get_or_create_balance u now w).1.db
  unfolding get_or_create_balance posted
  get_or_create_balance-Posts = grind int_laws

  pub credit-Posts :
      (amount : ℤ) (kind : TokenTransactionType) (why : Option String)
      → Posts u amount w.db (credit u amount kind why now w).1.db
  unfolding credit posted
  credit-Posts amount kind why = grind int_laws

  pub credit_referral_inviter-Posts :
      (amount : ℤ) (why : Option String)
      → Posts u amount w.db (credit_referral_inviter u amount why now w).1.db
  unfolding credit_referral_inviter posted
  credit_referral_inviter-Posts amount why = grind int_laws

  pub claim_referral_notification-Posts :
      Posts u (pos 0) w.db (claim_referral_notification u now w).1.db
  unfolding claim_referral_notification posted
  claim_referral_notification-Posts = grind int_laws

  pub debit-Posts :
      (amount : ℤ) (kind : TokenTransactionType) (why : Option String)
      → Posts u (charged (balance_of w.db u) amount) w.db (debit u amount kind why now w).1.db
  unfolding debit posted
  debit-Posts amount kind why = grind int_laws

  pub grant_signup_bonus-Posts :
      Posts u (bonus_due (token_of w.db u now)) w.db (grant_signup_bonus u now w).1.db
  unfolding grant_signup_bonus posted
  grant_signup_bonus-Posts = grind int_laws

  pub claim_signup_bonus_notification-Posts :
      Posts u (pos 0) w.db (claim_signup_bonus_notification u now w).1.db
  unfolding claim_signup_bonus_notification posted
  claim_signup_bonus_notification-Posts = grind int_laws
