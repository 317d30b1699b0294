-- ===== src/Payment/Webhook.antt =====
-- The webhook of PayApp (src/payment/service.py: `handle_webhook` and what it calls). The form is the
-- dict of its fields.
use logit_be.Common.{
  ℕ, ℤ, pos, eqb_ℤ, Bool, false, not, ◌&&◌, ◌||◌, Option, none, some, String, List, [], ◌∷◌, str_eq,
  if◌then◌else◌, where_rows,
}
use logit_be.Config.{Config}
use logit_be.Text.{truthy, get_or, lookup, parse_int, parse_uuid, split_colon, is_ascii}
use logit_be.Clock.{DateTime}
use logit_be.Rows.Subscription.{SubscriptionType, type_value}
use logit_be.Rows.Payment.{PaymentRecord, Plan, activated, deactivated}
use logit_be.World.{Db}
use logit_be.World.Action.{
  Action, pure, raise, execute, or_raise, write, commit, value_error, type_error,
  scalar_one_or_none, ◌>>=◌, ◌>>◌,
}
use logit_be.Payment.{
  has_payapp, parse_type, log_event, same_text, is_paid, save_record, activate_subscription,
  deactivate_subscription,
}

abbrev pub Form : Type 0
Form = List (String × String)

-- The text that the handler answers.
pub data Answer : Type 0 where
  success fail : Answer

-- `setting or ""`
abbrev pub setting_text : Option String → String
setting_text none = ""
setting_text (some s) = s

-- `secrets.compare_digest` of two texts.
unfoldable pub compare_digest : String → String → Action Bool
compare_digest a b = if is_ascii a && is_ascii b then pure (str_eq a b) else raise type_error

-- `_verify_webhook`
unfoldable pub verify_webhook : Config → Form → Action Bool
verify_webhook cfg form = do
  a ← compare_digest (get_or "userid" "" form) (setting_text cfg.payapp_userid)
  b ←
      if a
      then compare_digest (get_or "linkkey" "" form) (setting_text cfg.payapp_linkkey)
      else pure false
  if b
      then compare_digest (get_or "linkval" "" form) (setting_text cfg.payapp_linkval)
      else pure false

unfoldable pub is_credential : String → Bool
is_credential k = str_eq k "userid" || str_eq k "linkkey" || str_eq k "linkval"

-- The fields of the form that are stored.
abbrev pub without_credentials : Form → Form
without_credentials form = where_rows (λ kv. not (is_credential kv.0)) form

-- `select(PaymentRecord).where(PaymentRecord.rebill_no == rebill_no)`
unfoldable pub records_of : String → Db → List PaymentRecord
records_of rebill d = where_rows (λ r. same_text r.rebill_no rebill) d.payment_records

-- `int(text) != price`, and an empty or malformed price, are refused.
unfoldable pub pays : Form → Plan → Bool
pays form plan =
    elim (parse_int (get_or "price" "" form)) [ none ↦ false | some n ↦ eqb_ℤ n plan.price ]
    && truthy (some (get_or "price" "" form))

unfoldable pub payer_of : Form → Option ℕ
payer_of form = parse_uuid (get_or "var1" "" form)

-- The user and the plan of a form that is not refused.
unfoldable pub checked_payment : Form → Db → Option (ℕ × Plan)
checked_payment form d = elim (payer_of form) [
  | none ↦ none
  | some u ↦ elim (d.plans (get_or "var2" "" form)) [
    | none ↦ none
    | some plan ↦ if pays form plan then some (u, plan) else none
  ]
]

-- `a, b = text.split(":")`
abbrev pub pair_of : List String → Option (String × String)
pair_of (a ∷ b ∷ []) = some (a, b)
pair_of _ = none

abbrev pub paid_record :
    Form → String → Option String → DateTime → ℕ → ℕ → Plan → String × String → PaymentRecord
paid_record form rebill mul now new_id u plan (kind, name) = record {
  id = new_id;
  user_id = u;
  subscription_type = kind;
  plan = name;
  amount = plan.price;
  mul_no = mul;
  rebill_no = some rebill;
  pay_state = some (pos 4);
  card_name = lookup "card_name" form;
  card_number = lookup "card_num" form;
  receipt_url = lookup "csturl" form;
  subscription_started_at = none;
  subscription_expires_at = none;
  raw_webhook_data = some (without_credentials form);
  paid_at = some now;
}

abbrev pub add_record : PaymentRecord → Action (Unit {0})
add_record r = write λ d. record d { payment_records = r ∷ d.payment_records }

-- The record of a payment, the subscription that it pays for, and the event.
unfoldable pub settle_payment : Config → PaymentRecord → String → DateTime → ℤ → Action Answer
settle_payment cfg r rebill now price = do
  add_record r
  activate_subscription cfg r now
  k ← or_raise (parse_type r.subscription_type) value_error
  log_event r.user_id (type_value k) activated (some r.plan) (some rebill) (some price)
  commit
  pure success

-- What follows the checks of a completed payment.
unfoldable pub accept_payment :
    Config → Form → String → Option String → DateTime → ℕ → ℕ → Plan → Action Answer
accept_payment cfg form rebill mul now new_id u plan = do
  names ← or_raise (pair_of (split_colon (get_or "var2" "" form))) value_error
  settle_payment cfg (paid_record form rebill mul now new_id u plan names) rebill now plan.price

-- What was not refused is accepted.
abbrev pub accept_checked :
    Config → Form → String → Option String → DateTime → ℕ → Option (ℕ × Plan) → Action Answer
accept_checked cfg form rebill mul now new_id none = pure fail
accept_checked cfg form rebill mul now new_id (some (u, plan)) =
    accept_payment cfg form rebill mul now new_id u plan

unfoldable pub complete_unless_paid :
    Config → Form → String → Option String → DateTime → ℕ → Option PaymentRecord → Action Answer
complete_unless_paid cfg form rebill mul now new_id existing =
    if elim existing [ none ↦ false | some r ↦ is_paid r ]
    then pure success
    else (execute (checked_payment form) >>= λ checked. elim checked [
      | none ↦ pure fail
      | some (u, plan) ↦ accept_payment cfg form rebill mul now new_id u plan
    ])

-- `_handle_payment_complete`
unfoldable pub handle_payment_complete :
    Config → Form → String → Option String → DateTime → ℕ → Action Answer
unfolding complete_unless_paid
handle_payment_complete cfg form rebill mul now new_id = do
  rows ← execute (records_of rebill)
  existing ← scalar_one_or_none rows
  complete_unless_paid cfg form rebill mul now new_id existing

-- The user and the type that a cancellation is about, when no record names them.
unfoldable pub cancelled_by : Form → Option (ℕ × SubscriptionType)
cancelled_by form = elim (payer_of form) [
  | none ↦ none
  | some u ↦ elim (split_colon (get_or "var2" "" form)) [
    | [] ↦ none
    | a ∷ _ ↦ elim (parse_type a) [ none ↦ none | some k ↦ some (u, k) ]
  ]
]

-- `_deactivate_subscription`, the event, and the commit.
unfoldable pub close : ℕ → SubscriptionType → String → Action Answer
close u k rebill = do
  deactivate_subscription u k
  log_event u (type_value k) deactivated none (some rebill) none
  commit
  pure success

-- No record: the form names the subscription, or the webhook fails.
abbrev pub close_named : Option (ℕ × SubscriptionType) → String → Action Answer
close_named none rebill = pure fail
close_named (some (u, k)) rebill = close u k rebill

unfoldable pub cancel_record : Form → String → ℤ → Option PaymentRecord → Action Answer
cancel_record form rebill state none = close_named (cancelled_by form) rebill
cancel_record form rebill state (some r) = do
  save_record
      (record r { pay_state = some state; raw_webhook_data = some (without_credentials form) })
  k ← or_raise (parse_type r.subscription_type) value_error
  close r.user_id k rebill

-- `_handle_payment_cancel`
unfoldable pub handle_payment_cancel : Form → String → ℤ → Action Answer
unfolding cancel_record
handle_payment_cancel form rebill state = do
  rows ← execute (records_of rebill)
  r ← scalar_one_or_none rows
  cancel_record form rebill state r

abbrev pub is_cancel_state : ℤ → Bool
is_cancel_state s = eqb_ℤ s (pos 8) || eqb_ℤ s (pos 9) || eqb_ℤ s (pos 32) || eqb_ℤ s (pos 64)

-- What a verified webhook does, by its `pay_state`.
unfoldable pub dispatch_state : Config → Form → DateTime → ℕ → ℤ → Action Answer
dispatch_state cfg form now new_id state =
    if eqb_ℤ state (pos 4)
    then handle_payment_complete cfg form (get_or "rebill_no" "" form) (lookup "mul_no" form) now
        new_id
    else if is_cancel_state state
    then handle_payment_cancel form (get_or "rebill_no" "" form) state
    else pure success

unfoldable pub dispatch : Config → Form → DateTime → ℕ → Action Answer
dispatch cfg form now new_id =
    or_raise (parse_int (get_or "pay_state" "0" form)) value_error >>= λ state.
    dispatch_state cfg form now new_id state

-- `handle_webhook`, at instant `now` and with `new_id` for the id of a new record.
unfoldable pub handle_webhook : Config → Form → DateTime → ℕ → Action Answer
handle_webhook cfg form now new_id =
    if has_payapp cfg && truthy cfg.payapp_linkval
    then (verify_webhook cfg form >>= λ verified.
        if verified then dispatch cfg form now new_id else pure fail)
    else pure fail
