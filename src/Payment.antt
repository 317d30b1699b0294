-- ===== src/Payment.antt =====
-- src/payment: the helpers of service.py, and what PayApp answers (payapp.py). The operations are in
-- the modules below.
pub mod Webhook
pub mod Manage
pub mod Forgery
pub mod Activation
pub mod Repeats
pub mod Secrets
pub mod Cancellation
pub mod Refund
pub mod Start
pub mod Tests
use logit_be.Common.{
  ℕ, ℤ, Bool, true, false, not, ◌&&◌, ◌==◌, Option, none, some, String, List, [], ◌∷◌, str_eq,
  if◌then◌else◌, where_rows, update_rows,
}
use logit_be.Config.{Config}
use logit_be.Text.{truthy, lookup}
use logit_be.Clock.{DateTime, before, add_days}
use logit_be.Rows.Subscription.{
  Subscription, SubscriptionType, SubscriptionPlan, mcp, logit, basic, lite, pro, type_value,
  plan_value,
}
use logit_be.Rows.Payment.{PaymentRecord, SubscriptionEvent, EventType}
use logit_be.World.{World, Db}
use logit_be.World.Action.{Action, pure, raise, execute, write, value_error, or_raise, ◌>>=◌, ◌>>◌}
use logit_be.Subscription.{save_subscription, create_mcp_token}

-- What a request to PayApp comes to: an exception, or the fields of the answer.
pub data Reply : Type 0 where
  failed : Reply
  answered : List (String × String) → Reply

-- `result.get("state") == "1"`
abbrev pub is_success : List (String × String) → Bool
is_success d = elim (lookup "state" d) [ none ↦ false | some s ↦ str_eq s "1" ]

-- `settings.PAYAPP_USERID and settings.PAYAPP_LINKKEY`
abbrev pub has_payapp : Config → Bool
has_payapp cfg = truthy cfg.payapp_userid && truthy cfg.payapp_linkkey

-- `SubscriptionType(text)` and `SubscriptionPlan(text)`
abbrev pub parse_type : String → Option SubscriptionType
parse_type s = if str_eq s "mcp" then some mcp else if str_eq s "logit" then some logit else none

abbrev pub parse_plan : String → Option SubscriptionPlan
parse_plan s =
    if str_eq s "basic"
    then some basic
    else if str_eq s "lite"
    then some lite
    else if str_eq s "pro"
    then some pro
    else none

-- `_log_event`
unfoldable pub log_event :
    ℕ → String → EventType → Option String → Option String → Option ℤ → Action (Unit {0})
log_event u kind event plan rebill amount = write λ d. record d {
  subscription_events =
      record {
        user_id = u;
        sub_type = kind;
        event_type = event;
        plan = plan;
        rebill_no = rebill;
        amount = amount;
      }
      ∷ d.subscription_events;
}

abbrev pub same_text : Option String → String → Bool
same_text none s = false
same_text (some r) s = str_eq r s

abbrev pub is_paid : PaymentRecord → Bool
is_paid r = elim r.paid_at [ none ↦ false | some t ↦ true ]

-- A change of the ORM object of a payment.
abbrev pub save_record : PaymentRecord → Action (Unit {0})
save_record r =
    write
      λ d. record d { payment_records = update_rows (λ x. x.id == r.id) (λ x. r) d.payment_records }

-- The paid records of a user and a type of subscription.
abbrev pub paid_for : ℕ → String → PaymentRecord → Bool
paid_for u kind r = r.user_id == u && str_eq r.subscription_type kind && is_paid r

abbrev paid_time : PaymentRecord → DateTime → Bool
paid_time r t = elim r.paid_at [ none ↦ false | some s ↦ before t s ]

abbrev paid_later : PaymentRecord → PaymentRecord → Bool
paid_later r q = elim q.paid_at [ none ↦ true | some t ↦ paid_time r t ]

-- `ORDER BY paid_at DESC`, earlier rows first where the instants are equal.
insert_paid : PaymentRecord → List PaymentRecord → List PaymentRecord
insert_paid r [] = r ∷ []
insert_paid r (q ∷ qs) =
    let rest = insert_paid r qs in if paid_later r q then r ∷ q ∷ qs else q ∷ rest

unfoldable pub latest_first : List PaymentRecord → List PaymentRecord
unfolding insert_paid
latest_first [] = []
latest_first (r ∷ rs) = insert_paid r (latest_first rs)

-- `LIMIT 1`
abbrev first_of : List PaymentRecord → Option PaymentRecord
first_of [] = none
first_of (r ∷ rs) = some r

-- The `rebill_no` of the last payment.
unfoldable pub last_rebill : ℕ → String → Db → Option String
last_rebill u kind d =
    elim (first_of (latest_first (where_rows (paid_for u kind) d.payment_records))) [
      | none ↦ none
      | some r ↦ r.rebill_no
    ]

-- The token of an activated or deactivated row: only MCP subscriptions have one.
abbrev pub drop_token : SubscriptionType → Option String → Option String
drop_token mcp t = none
drop_token logit t = t

abbrev pub deactivated_row : SubscriptionType → Subscription → Subscription
deactivated_row k s = record s {
  is_active = false;
  is_auto_renew = false;
  token = drop_token k s.token;
}

deactivate : ℕ → SubscriptionType → Option Subscription → Action (Unit {0})
deactivate u k none = pure tt
deactivate u k (some s) = save_subscription u k (deactivated_row k s)

-- `_deactivate_subscription`
unfoldable pub deactivate_subscription : ℕ → SubscriptionType → Action (Unit {0})
unfolding deactivate
deactivate_subscription u k = do s ← execute (λ d. d.subscriptions u k); deactivate u k s

-- The days of a paid period.
abbrev pub paid_days : ℕ
paid_days = 31

token_for :
    Config → ℕ → SubscriptionType → DateTime → DateTime → Option String → Action (Option String)
unfolding create_mcp_token
token_for cfg u logit expires now old = pure old
token_for cfg u mcp expires now old = do
  t ← create_mcp_token cfg u (some expires) now
  pure (some t)

abbrev old_token : Option Subscription → Option String
old_token none = none
old_token (some s) = s.token

-- The row of a subscription that was just paid.
abbrev pub paid_row : SubscriptionPlan → DateTime → Option String → Subscription
paid_row plan now token = record {
  is_active = true;
  plan = plan;
  token = token;
  is_auto_renew = true;
  started_at = now;
  expires_at = some (add_days paid_days now);
}

-- `_activate_subscription`
unfoldable pub activate_subscription : Config → PaymentRecord → DateTime → Action (Unit {0})
unfolding token_for
activate_subscription cfg r now = do
  k ← or_raise (parse_type r.subscription_type) value_error
  plan ← or_raise (parse_plan r.plan) value_error
  s ← execute (λ d. d.subscriptions r.user_id k)
  t ← token_for cfg r.user_id k (add_days paid_days now) now (old_token s)
  save_record (record r {
    subscription_started_at = some now;
    subscription_expires_at = some (add_days paid_days now);
  })
  save_subscription r.user_id k (paid_row plan now t)
