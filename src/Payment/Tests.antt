-- ===== src/Payment/Tests.antt =====
-- The payments on concrete requests.
use logit_be.Common.{pos, ◌≡◌, refl, true, ◌&&◌, none, some, [], ◌∷◌, ◌==◌, str_eq, if◌then◌else◌}
use logit_be.Config.{Config}
use logit_be.Text.{parse_int, parse_uuid, split_colon, is_ascii}
use logit_be.Clock.{DateTime, before, add_days, next_day, month_length, is_leap}
use logit_be.Rows.Subscription.{Subscription, logit, pro, type_eq}
use logit_be.Rows.Payment.{PaymentRecord, Plan}
use logit_be.World.{World, empty_db, fresh}
use logit_be.World.Action.{ok, raised, value_error}
use logit_be.Payment.{Reply, answered, activate_subscription, log_event}
use logit_be.Payment.Webhook.{
  Form, success, handle_webhook, handle_payment_complete, verify_webhook, compare_digest, dispatch,
  dispatch_state, records_of, complete_unless_paid, checked_payment, payer_of, pays, accept_payment,
  settle_payment,
}
use logit_be.Payment.Manage.{refund_payment, refund_record, initiate_payment}
use logit_be.Payment.Activation.{CheckedChange, activation_is_paid}
use logit_be.Payment.Repeats.{repeat_ignored}
use logit_be.Payment.Secrets.{AreClean, secrets_not_stored}
use logit_be.Payment.Refund.{refunded_once}
use logit_be.Payment.Start.{running_blocks}

abbrev cfg : Config
cfg = record {
  payapp_userid = some "logit";
  payapp_linkkey = some "key";
  payapp_linkval = some "val";
  mcp_jwt_secret = some "secret";
  mcp_token_expire_days = 365;
  encode_mcp = λ s u e. "token";
}

abbrev form : Form
form =
    ("userid", "logit")
    ∷ ("linkkey", "key")
    ∷ ("linkval", "val")
    ∷ ("rebill_no", "R1")
    ∷ ("mul_no", "M1")
    ∷ ("pay_state", "4")
    ∷ ("price", "14900")
    ∷ ("var1", "00000000-0000-0000-0000-000000000007")
    ∷ ("var2", "logit:pro")
    ∷ []

abbrev noon : DateTime
noon = record { year = 2026; month = 1; day = 15; clock = 43200000000 }

abbrev pro_row : Plan
pro_row = record { name = "Pro"; price = pos 14900; is_active = true }

abbrev before_payment : World
before_payment =
    fresh (record empty_db { plans = λ k. if str_eq k "logit:pro" then some pro_row else none })

abbrev paid : World
paid = (handle_webhook cfg form noon 1 before_payment).1

paid_test : (handle_webhook cfg form noon 1 before_payment).0 ≡ ok success
unfolding handle_webhook verify_webhook compare_digest is_ascii dispatch dispatch_state
    handle_payment_complete records_of complete_unless_paid checked_payment payer_of pays
    accept_payment settle_payment split_colon parse_int parse_uuid activate_subscription log_event
    add_days next_day month_length is_leap
paid_test = refl

activation_is_paid_example :
    CheckedChange cfg form noon before_payment.db 7 logit
      (before_payment.db.subscriptions 7 logit)
      (paid.db.subscriptions 7 logit)
activation_is_paid_example = activation_is_paid 7 logit cfg form noon 1 before_payment

first_completion :
    (handle_payment_complete cfg form "R1" (some "M1") noon 1 before_payment).0 ≡ ok success
unfolding handle_payment_complete records_of complete_unless_paid checked_payment payer_of pays
    accept_payment settle_payment split_colon parse_int parse_uuid activate_subscription log_event
    add_days next_day month_length is_leap
first_completion = refl

repeat_ignored_example :
    let w' = (handle_payment_complete cfg form "R1" (some "M1") noon 1 before_payment).1 in
    handle_payment_complete cfg form "R1" (some "M2") (record noon { month = 2 }) 2 w'
    ≡ (ok success, w')
unfolding records_of
repeat_ignored_example =
    repeat_ignored cfg form "R1" (some "M1") noon 1 before_payment tt cfg form (some "M2")
      (record noon { month = 2 }) 2 tt first_completion

secrets_not_stored_example : AreClean paid.db
secrets_not_stored_example = secrets_not_stored cfg form noon 1 before_payment tt

abbrev payment : PaymentRecord
payment = record {
  id = 1;
  user_id = 7;
  subscription_type = "logit";
  plan = "pro";
  amount = pos 14900;
  mul_no = some "M1";
  rebill_no = some "R1";
  pay_state = some (pos 4);
  card_name = none;
  card_number = none;
  receipt_url = none;
  subscription_started_at = some noon;
  subscription_expires_at = some (record noon { month = 2 });
  raw_webhook_data = none;
  paid_at = some noon;
}

abbrev running : Subscription
running = record {
  is_active = true;
  plan = pro;
  token = none;
  is_auto_renew = true;
  started_at = noon;
  expires_at = some (record noon { month = 2 });
}

abbrev subscribed : World
subscribed = fresh (record empty_db {
  subscriptions = λ u k. if u == 7 && type_eq k logit then some running else none;
  payment_records = payment ∷ [];
  plans = before_payment.db.plans;
})

abbrev confirmed : Reply
confirmed = answered (("state", "1") ∷ [])

first_refund : (refund_payment cfg 1 confirmed subscribed).0 ≡ ok tt
unfolding refund_payment refund_record log_event
first_refund = refl

refunded_once_example :
    let w' = (refund_payment cfg 1 confirmed subscribed).1 in
    refund_payment cfg 1 confirmed w' ≡ (raised value_error, w')
refunded_once_example = refunded_once cfg 1 confirmed subscribed cfg confirmed first_refund

running_blocks_example :
    initiate_payment cfg 7 logit pro confirmed noon subscribed ≡ (raised value_error, subscribed)
unfolding before
running_blocks_example = running_blocks cfg 7 logit pro confirmed noon subscribed refl refl
