-- ===== src/Rows/Payment.antt =====
-- src/payment/models.py and src/plans/models.py. The notes of an event and the text of PayApp's
-- answer are left out: operators read them, the services do not.
use logit_be.Common.{ℕ, ℤ, Bool, Option, String, List}
use logit_be.Clock.{DateTime}

pub record PaymentRecord : Type 0 where
  pub id : ℕ
  pub user_id : ℕ
  pub subscription_type : String
  pub plan : String
  pub amount : ℤ
  pub mul_no : Option String
  pub rebill_no : Option String
  pub pay_state : Option ℤ
  pub card_name : Option String
  pub card_number : Option String
  pub receipt_url : Option String
  pub subscription_started_at : Option DateTime
  pub subscription_expires_at : Option DateTime
  -- the form of the webhook, before `str`
  pub raw_webhook_data : Option (List (String × String))
  pub paid_at : Option DateTime

-- The `event_type` strings that the payment service writes.
pub data EventType : Type 0 where
  initiated cancel_payapp_fail cancel_payapp_ok cancelled : EventType
  deactivated activated refunded : EventType

pub record SubscriptionEvent : Type 0 where
  pub user_id : ℕ
  pub sub_type : String
  pub event_type : EventType
  pub plan : Option String
  pub rebill_no : Option String
  pub amount : Option ℤ

-- The columns of a plan that the payment service reads; its key is its id.
pub record Plan : Type 0 where
  pub name : String
  pub price : ℤ
  pub is_active : Bool
