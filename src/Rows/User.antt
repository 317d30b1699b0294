-- ===== src/Rows/User.antt =====
-- src/users/models.py: the columns that the services read.
use logit_be.Common.{ℕ, Bool, true, false, Option, String}

pub data OAuthProvider : Type 0 where
  google apple : OAuthProvider

abbrev pub provider_eq : OAuthProvider → OAuthProvider → Bool
provider_eq google google = true
provider_eq apple apple = true
provider_eq _ _ = false

pub record User : Type 0 where
  pub id : ℕ
  pub email : String
  pub full_name : Option String
  pub is_active : Bool
  pub oauth_provider : Option OAuthProvider
  pub oauth_provider_id : Option String
  pub referral_code : Option String
  pub referred_by_user_id : Option ℕ
  pub refresh_token : Option String
