-- ===== src/Rows/Token.antt =====
-- src/tokens/models.py and src/tokens/constants.py.
use logit_be.Common.{ℕ, ℤ, pos, Bool, Option, String}
use logit_be.Clock.{DateTime, Date}

pub data TokenTransactionType : Type 0 where
  balance_init monthly_grant signup_bonus attendance : TokenTransactionType
  referral_inviter referral_invitee : TokenTransactionType
  chat_usage draft_usage chat_refund admin_grant admin_reset : TokenTransactionType

-- A row of `user_tokens`; its key is the user.
pub record UserToken : Type 0 where
  pub balance : ℤ
  pub last_monthly_grant_at : Option DateTime
  pub signup_bonus_granted : Bool
  pub unnotified_signup_bonus_amount : ℤ
  pub unnotified_referral_amount : ℤ
  pub unnotified_referral_count : ℕ
  pub updated_at : DateTime

-- A positive amount is a grant, a negative one a charge.
pub record TokenTransaction : Type 0 where
  pub user_id : ℕ
  pub amount : ℤ
  pub kind : TokenTransactionType
  pub description : Option String

pub record AttendanceLog : Type 0 where
  pub user_id : ℕ
  pub on : Date

abbrev pub chat_token_cost : ℤ
chat_token_cost = pos 5

abbrev pub draft_token_cost : ℤ
draft_token_cost = pos 10

abbrev pub signup_bonus_tokens : ℤ
signup_bonus_tokens = pos 50

abbrev pub attendance_tokens : ℤ
attendance_tokens = pos 3

abbrev pub referral_tokens : ℤ
referral_tokens = pos 10

abbrev pub attendance_event_total_pool : ℤ
attendance_event_total_pool = pos 30000
