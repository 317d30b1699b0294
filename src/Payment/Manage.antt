-- ===== src/Payment/Manage.antt =====
-- What users and operators ask of the payments (src/payment/service.py: `get_payment_history`,
-- `initiate_payment`, `cancel_subscription`, `admin_deactivate_subscription`, `refund_payment`). Each
-- takes the reply of PayApp to the request that it may make.
use logit_be.Common.{
  ℕ, pos, eqb_ℤ, Bool, true, false, not, ◌&&◌, ◌||◌, ◌==◌, Option, none, some, String, List,
  if◌then◌else◌, where_rows, ◌≡◌, refl,
}
use logit_be.Config.{Config}
use logit_be.Text.{truthy, lookup}
use logit_be.Clock.{DateTime, before}
use logit_be.Rows.Subscription.{
  Subscription, SubscriptionType, SubscriptionPlan, logit, pro, type_value, plan_value,
}
use logit_be.Rows.Payment.{
  PaymentRecord, Plan, EventType, initiated, cancel_payapp_fail, cancel_payapp_ok, cancelled,
  deactivated, refunded,
}
use logit_be.World.{Db, cancel_rebill, cancel_payment, register_rebill}
use logit_be.World.Action.{
  Action, pure, raise, raise_if, execute, or_raise, commit, call_payapp, scalar_one_or_none,
  value_error, runtime_error, key_error, ◌>>=◌, ◌>>◌,
}
use logit_be.Subscription.{save_subscription, only_active}
use logit_be.Payment.{
  Reply, failed, answered, is_success, has_payapp, parse_type, log_event, is_paid, save_record,
  latest_first, last_rebill, deactivated_row,
}
use Prim.Native.String.{◌++◌ as str_append}

-- `get_payment_history`, whose items are the columns of the records.
unfoldable pub get_payment_history : ℕ → Action (List PaymentRecord)
get_payment_history u =
    execute λ d. latest_first (where_rows (λ r. r.user_id == u && is_paid r) d.payment_records)

-- `plan_key` of src/payment/plans.py.
unfoldable pub payment_plan_key : SubscriptionType → SubscriptionPlan → String
payment_plan_key k p = str_append (type_value k) (str_append ":" (plan_value p))

-- `expires_at is not None and expires_at > now`
abbrev pub is_unexpired : Option DateTime → DateTime → Bool
is_unexpired none now = false
is_unexpired (some e) now = before now e

abbrev pub is_endless : Option DateTime → Bool
is_endless none = true
is_endless (some e) = false

-- The subscriptions that refuse another payment.
abbrev pub renews : Subscription → DateTime → Bool
renews s now = s.is_auto_renew && (is_endless s.expires_at || is_unexpired s.expires_at now)

abbrev pub winds_down : Subscription → DateTime → Bool
winds_down s now = not s.is_auto_renew && is_unexpired s.expires_at now

abbrev pub blocks : Option Subscription → DateTime → Bool
blocks none now = false
blocks (some s) now = s.is_active && (renews s now || winds_down s now)

-- `Plan.id == key, Plan.is_active`
unfoldable pub sold_plan : String → Db → Option Plan
sold_plan key d = elim (d.plans key) [ none ↦ none | some p ↦ if p.is_active then some p else none ]

unfoldable pub cycle_day : Option Subscription → DateTime → Option ℕ
cycle_day none now = none
cycle_day (some s) now = elim s.expires_at [
  | none ↦ none
  | some e ↦ if before now e then some e.day else none
]

-- PayApp's reply, where the operation stops on a failure.
fields_of : Reply → Action (List (String × String))
fields_of failed = raise runtime_error
fields_of (answered d) = if is_success d then pure d else raise runtime_error

-- `initiate_payment`; it returns the pay url and the rebill number.
unfoldable pub initiate_payment :
    Config → ℕ → SubscriptionType → SubscriptionPlan → Reply → DateTime → Action (String × String)
unfolding fields_of
initiate_payment cfg u k plan reply now = do
  raise_if (not (has_payapp cfg)) runtime_error
  existing ← execute (λ d. only_active (d.subscriptions u k))
  raise_if (blocks existing now) value_error
  found ← execute (sold_plan (payment_plan_key k plan))
  p ← or_raise found value_error
  call_payapp (register_rebill u (payment_plan_key k plan) p.price (cycle_day existing now))
  d ← fields_of reply
  log_event u (type_value k) initiated (some (payment_plan_key k plan)) (lookup "rebill_no" d)
      (some p.price)
  commit
  url ← or_raise (lookup "payurl" d) key_error
  rebill ← or_raise (lookup "rebill_no" d) key_error
  pure (url, rebill)

abbrev pub plan_of : Subscription → Option String
plan_of s = some (plan_value s.plan)

-- A cancellation that PayApp refused, or did not answer.
give_up : ℕ → SubscriptionType → Subscription → String → Action (Unit {0})
give_up u k s rebill = do
  log_event u (type_value k) cancel_payapp_fail (plan_of s) (some rebill) none
  commit
  raise runtime_error

heed_reply : ℕ → SubscriptionType → Subscription → String → Reply → Action (Unit {0})
unfolding give_up
heed_reply u k s rebill failed = give_up u k s rebill
heed_reply u k s rebill (answered d) =
    if is_success d
    then log_event u (type_value k) cancel_payapp_ok (plan_of s) (some rebill) none
    else give_up u k s rebill

-- The request to PayApp: without a rebill number there is none.
stop_rebill : ℕ → SubscriptionType → Subscription → Option String → Reply → Action (Unit {0})
unfolding heed_reply
stop_rebill u k s none reply = raise runtime_error
stop_rebill u k s (some rebill) reply =
    if truthy (some rebill)
    then call_payapp (cancel_rebill rebill) >> heed_reply u k s rebill reply
    else raise runtime_error

-- `cancel_subscription`
unfoldable pub cancel_subscription : Config → ℕ → SubscriptionType → Reply → Action (Unit {0})
unfolding stop_rebill
cancel_subscription cfg u k reply = do
  found ← execute (λ d. only_active (d.subscriptions u k))
  s ← or_raise found value_error
  raise_if (not s.is_auto_renew) value_error
  rebill ← execute (last_rebill u (type_value k))
  if has_payapp cfg then stop_rebill u k s rebill reply else pure tt
  save_subscription u k (record s { is_auto_renew = false })
  log_event u (type_value k) cancelled (plan_of s) rebill none
  commit

-- The event of the reply in `admin_deactivate_subscription`, which goes on whatever the reply.
abbrev pub reply_event : Reply → EventType
reply_event failed = cancel_payapp_fail
reply_event (answered d) = if is_success d then cancel_payapp_ok else cancel_payapp_fail

try_stop_rebill : ℕ → SubscriptionType → Option String → Reply → Action (Unit {0})
try_stop_rebill u k none reply = pure tt
try_stop_rebill u k (some rebill) reply =
    if truthy (some rebill)
    then call_payapp (cancel_rebill rebill)
      >> log_event u (type_value k) (reply_event reply) none (some rebill) none
    else pure tt

-- `admin_deactivate_subscription`
unfoldable pub admin_deactivate_subscription :
    Config → ℕ → SubscriptionType → Reply → Action (Unit {0})
unfolding try_stop_rebill
admin_deactivate_subscription cfg u k reply = do
  found ← execute (λ d. d.subscriptions u k)
  s ← or_raise found value_error
  rebill ← execute (last_rebill u (type_value k))
  if has_payapp cfg then try_stop_rebill u k rebill reply else pure tt
  save_subscription u k (deactivated_row k s)
  log_event u (type_value k) deactivated (plan_of s) rebill none
  commit

abbrev pub is_complete : PaymentRecord → Bool
is_complete r = elim r.pay_state [ none ↦ false | some s ↦ eqb_ℤ s (pos 4) ]

-- A text that is there and not empty.
abbrev pub present : Option String → Option String
present none = none
present (some s) = if truthy (some s) then some s else none

-- What `refund_payment` does with the record that it found.
unfoldable pub refund_record : Config → Reply → PaymentRecord → Action (Unit {0})
unfolding fields_of
refund_record cfg reply r = do
  raise_if (not (is_complete r)) value_error
  mul ← or_raise (present r.mul_no) runtime_error
  raise_if (not (has_payapp cfg)) runtime_error
  call_payapp (cancel_payment mul)
  fields_of reply
  save_record (record r { pay_state = some (pos 9) })
  k ← or_raise (parse_type r.subscription_type) value_error
  log_event r.user_id (type_value k) refunded (some r.plan) r.rebill_no (some r.amount)
  commit

abbrev pub with_id : ℕ → Db → List PaymentRecord
with_id id d = where_rows (λ r. r.id == id) d.payment_records

abbrev pub refund_found : Config → Reply → List PaymentRecord → Action (Unit {0})
refund_found cfg reply rows = do
  found ← scalar_one_or_none rows
  r ← or_raise found value_error
  refund_record cfg reply r

-- `refund_payment`
unfoldable pub refund_payment : Config → ℕ → Reply → Action (Unit {0})
refund_payment cfg id reply = execute (with_id id) >>= refund_found cfg reply

key_test : payment_plan_key logit pro ≡ "logit:pro"
unfolding payment_plan_key
key_test = refl
