-- ===== src/Rows/Subscription.antt =====
-- src/subscription/models.py.
use logit_be.Common.{Bool, true, false, Option, String}
use logit_be.Clock.{DateTime}

pub data SubscriptionType : Type 0 where
  mcp logit : SubscriptionType

pub data SubscriptionPlan : Type 0 where
  basic lite pro : SubscriptionPlan

abbrev pub type_eq : SubscriptionType → SubscriptionType → Bool
type_eq mcp mcp = true
type_eq logit logit = true
type_eq _ _ = false

-- The unique key of a row is its user and its type.
pub record Subscription : Type 0 where
  pub is_active : Bool
  pub plan : SubscriptionPlan
  pub token : Option String
  pub is_auto_renew : Bool
  pub started_at : DateTime
  pub expires_at : Option DateTime

-- The `value` of an enum member.
abbrev pub type_value : SubscriptionType → String
type_value mcp = "mcp"
type_value logit = "logit"

abbrev pub plan_value : SubscriptionPlan → String
plan_value basic = "basic"
plan_value lite = "lite"
plan_value pro = "pro"
