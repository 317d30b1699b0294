-- ===== src/Payment/Activation.antt =====
-- What the webhook does to the subscriptions (src/payment/service.py: `handle_webhook`,
-- `_activate_subscription`, `_deactivate_subscription`).
use logit_be.Common.{
  ℕ, ℤ, pos, ◌≡◌, ◌⊎◌, inl, inr, refl, sym, ap, ◌∙◌, Bool, true, false, Option, none, some, String,
  List, [], ◌∷◌, arith, eqb_ℤ, eqb_ℤ_iff,
}
use logit_be.Config.{Config}
use logit_be.Text.{lookup, get_or, parse_int, split_colon}
use logit_be.Clock.{DateTime, add_days}
use logit_be.Rows.Subscription.{Subscription, SubscriptionType, SubscriptionPlan}
use logit_be.Rows.Payment.{PaymentRecord, Plan}
use logit_be.World.{World, Db}
use logit_be.World.Action.{or_raise, scalar_one_or_none, value_error, ◌>>=◌}
use logit_be.Subscription.{create_mcp_token}
use logit_be.Payment.{
  parse_type, parse_plan, paid_days, log_event, activate_subscription, deactivate_subscription,
}
use logit_be.Payment.Webhook.{
  setting_text, Form, dispatch, dispatch_state, handle_webhook, handle_payment_complete,
  handle_payment_cancel, accept_payment, complete_unless_paid, add_record, paid_record, pair_of,
  checked_payment, payer_of, pays, cancel_record, records_of, settle_payment, cancelled_by, close,
  close_named, accept_checked,
}
use logit_be.Payment.Forgery.{verify_webhook_sound}

abbrev pub is_on : Option Subscription → Bool
is_on none = false
is_on (some s) = s.is_active

abbrev pub plan_of : Option Subscription → Option SubscriptionPlan
plan_of none = none
plan_of (some s) = some s.plan

abbrev pub runs_until : Option Subscription → Option DateTime
runs_until none = none
runs_until (some s) = s.expires_at

-- A subscription that a form pays for: the form is one of a completed payment of the price of what it
-- names, its user is that of the subscription, the subscription has the type and the plan that the form
-- names, and it is on and runs for the paid days.
pub record IsPaidBy (form : Form) (now : DateTime) (d : Db) (v : ℕ) (j : SubscriptionType)
    (s : Option Subscription) : Type 0 where
  pub plan : Plan
  pub payer : payer_of form ≡ some v
  pub known : d.plans (get_or "var2" "" form) ≡ some plan
  pub price : pays form plan ≡ true
  pub state : parse_int (get_or "pay_state" "0" form) ≡ some (pos 4)
  pub names : String × String
  pub named : pair_of (split_colon (get_or "var2" "" form)) ≡ some names
  pub of_type : parse_type names.0 ≡ some j
  pub of_plan : plan_of s ≡ parse_plan names.1
  pub active : is_on s ≡ true
  pub until : runs_until s ≡ some (add_days paid_days now)

-- What may become of the subscription of a user.
abbrev pub Change :
    Form → DateTime → Db → ℕ → SubscriptionType → Option Subscription → Option Subscription → Type 0
Change form now d v j s t = (t ≡ s) ⊎ ((is_on t ≡ false) ⊎ IsPaidBy form now d v j t)

-- The form has the three credentials of the settings.
abbrev pub HasCredentials : Config → Form → Type 0
HasCredentials cfg form =
    (get_or "userid" "" form ≡ setting_text cfg.payapp_userid)
    × (get_or "linkkey" "" form ≡ setting_text cfg.payapp_linkkey)
    × (get_or "linkval" "" form ≡ setting_text cfg.payapp_linkval)

-- The same of a form whose credentials are checked.
abbrev pub CheckedChange :
    Config
    → Form
    → DateTime
    → Db
    → ℕ
    → SubscriptionType
    → Option Subscription
    → Option Subscription
    → Type 0
CheckedChange cfg form now d v j s t =
    (t ≡ s) ⊎ (HasCredentials cfg form × ((is_on t ≡ false) ⊎ IsPaidBy form now d v j t))

checked_payment_sound :
    (form : Form) (d : Db) (u : ℕ) (plan : Plan)
    → checked_payment form d ≡ some (u, plan)
    → (payer_of form ≡ some u)
      × (d.plans (get_or "var2" "" form) ≡ some plan)
      × (pays form plan ≡ true)
unfolding checked_payment
checked_payment_sound form d u plan e = ground arith

module _ (v : ℕ) (j : SubscriptionType) where
  -- The subscription stays or is off.
  abbrev TurnsOff : Db → Db → Type 0
  TurnsOff a b =
      (b.plans ≡ a.plans)
      × ((b.subscriptions v j ≡ a.subscriptions v j) ⊎ (is_on (b.subscriptions v j) ≡ false))

  -- The subscription is on for the paid days, with a plan by its name.
  abbrev IsRunning : DateTime → String × String → Db → Type 0
  IsRunning now names b =
      (parse_type names.0 ≡ some j)
      × (plan_of (b.subscriptions v j) ≡ parse_plan names.1)
      × (is_on (b.subscriptions v j) ≡ true)
      × (runs_until (b.subscriptions v j) ≡ some (add_days paid_days now))

  -- The subscription stays, or is paid for by its user.
  abbrev Pays : DateTime → ℕ → String × String → Db → Db → Type 0
  Pays now u names a b =
      (b.plans ≡ a.plans)
      × ((b.subscriptions v j ≡ a.subscriptions v j) ⊎ ((v ≡ u) × IsRunning now names b))

  -- The same with the names of a form.
  abbrev PaysBy : Form → DateTime → ℕ → Db → Db → Type 0
  PaysBy form now u a b =
      (b.subscriptions v j ≡ a.subscriptions v j)
      ⊎ ((n : String × String) × (pair_of (split_colon (get_or "var2" "" form)) ≡ some n)
          × (v ≡ u)
          × IsRunning now n b)

  close-TurnsOff :
      (u : ℕ) (k : SubscriptionType) (rebill : String) (w : World)
      → TurnsOff w.db (close u k rebill w).1.db
  unfolding close deactivate_subscription log_event
  close-TurnsOff u k rebill w = ground arith

  activate-Pays :
      (cfg : Config) (r : PaymentRecord) (now : DateTime) (w : World)
      → Pays now r.user_id
          (r.subscription_type, r.plan)
          w.db
          (activate_subscription cfg r now w).1.db
  unfolding activate_subscription create_mcp_token
  activate-Pays cfg r now w = ground arith

  close_named-TurnsOff :
      (o : Option (ℕ × SubscriptionType)) (rebill : String) (w : World)
      → TurnsOff w.db (close_named o rebill w).1.db
  close_named-TurnsOff none rebill w = ground arith
  close_named-TurnsOff (some (u, k)) rebill w = close-TurnsOff u k rebill w

  close_typed-TurnsOff :
      (o : Option SubscriptionType) (u : ℕ) (rebill : String) (w : World)
      → TurnsOff w.db ((or_raise o value_error >>= λ k. close u k rebill) w).1.db
  close_typed-TurnsOff none u rebill w = ground arith
  close_typed-TurnsOff (some k) u rebill w = close-TurnsOff u k rebill w

  cancel_record-TurnsOff :
      (form : Form) (rebill : String) (state : ℤ) (r : Option PaymentRecord) (w : World)
      → TurnsOff w.db (cancel_record form rebill state r w).1.db
  unfolding cancel_record
  cancel_record-TurnsOff form rebill state none w =
      close_named-TurnsOff (cancelled_by form) rebill w
  cancel_record-TurnsOff form rebill state (some r) w =
      close_typed-TurnsOff (parse_type r.subscription_type) r.user_id rebill _

  cancel_found-TurnsOff :
      (form : Form) (rebill : String) (state : ℤ) (rows : List PaymentRecord) (w : World)
      → TurnsOff w.db ((scalar_one_or_none rows >>= λ r. cancel_record form rebill state r) w).1.db
  cancel_found-TurnsOff form rebill state [] w = cancel_record-TurnsOff form rebill state none w
  cancel_found-TurnsOff form rebill state (r ∷ []) w =
      cancel_record-TurnsOff form rebill state (some r) w
  cancel_found-TurnsOff form rebill state (r ∷ q ∷ rs) w = ground arith

  -- A cancellation turns a subscription off or leaves it.
  cancel-TurnsOff :
      (form : Form) (rebill : String) (state : ℤ) (w : World)
      → TurnsOff w.db (handle_payment_cancel form rebill state w).1.db
  unfolding handle_payment_cancel
  cancel-TurnsOff form rebill state w =
      cancel_found-TurnsOff form rebill state (records_of rebill w.db) w

  settle_payment-Pays :
      (cfg : Config) (r : PaymentRecord) (rebill : String) (now : DateTime) (price : ℤ) (w : World)
      → Pays now r.user_id
          (r.subscription_type, r.plan)
          w.db
          (settle_payment cfg r rebill now price w).1.db
  unfolding settle_payment log_event
  settle_payment-Pays cfg r rebill now price w =
      ground (arith, activate-Pays cfg r now (add_record r w).1)

  module _ (cfg : Config) (form : Form) (rebill : String) (mul : Option String) (now : DateTime)
      (id : ℕ) where
    accept_named-PaysBy :
        (u : ℕ) (plan : Plan) (names : Option (String × String)) (w : World)
        → pair_of (split_colon (get_or "var2" "" form)) ≡ names
        → PaysBy form now u w.db
            ((or_raise names value_error >>= λ n.
                settle_payment cfg
                  (paid_record form rebill mul now id u plan n)
                  rebill
                  now
                  plan.price)
              w).1.db
    accept_named-PaysBy u plan none w e = inl refl
    accept_named-PaysBy u plan (some n) w e =
        elim (settle_payment-Pays cfg (paid_record form rebill mul now id u plan n) rebill now
          plan.price w).1 [ inl same ↦ inl same | inr p ↦ inr (n, e, p.0, p.1) ]

    accept_payment-PaysBy :
        (u : ℕ) (plan : Plan) (w : World)
        → PaysBy form now u w.db (accept_payment cfg form rebill mul now id u plan w).1.db
    unfolding accept_payment
    accept_payment-PaysBy u plan w =
        accept_named-PaysBy u plan (pair_of (split_colon (get_or "var2" "" form))) w refl

    -- A form that was not refused turns on the subscription of its user.
    accept_checked-Change :
        (o : Option (ℕ × Plan)) (w : World)
        → checked_payment form w.db ≡ o
        → parse_int (get_or "pay_state" "0" form) ≡ some (pos 4)
        → Change form now w.db v j
            (w.db.subscriptions v j)
            ((accept_checked cfg form rebill mul now id o w).1.db.subscriptions v j)
    accept_checked-Change none w e h = inl refl
    accept_checked-Change (some (u, plan)) w e h =
        let (a, b, c) = checked_payment_sound form w.db u plan e in
        elim (accept_payment-PaysBy u plan w) [
          | inl same ↦ inl same
          | inr (n, named, p, running) ↦ inr (
              inr (record {
                plan = plan;
                payer = a ∙ ap some (sym p);
                known = b;
                price = c;
                state = h;
                names = n;
                named = named;
                of_type = running.0;
                of_plan = running.1;
                active = running.2;
                until = running.3;
              }))
        ]

    accept_found-Change :
        (rows : List PaymentRecord) (w : World)
        → parse_int (get_or "pay_state" "0" form) ≡ some (pos 4)
        → Change form now w.db v j (w.db.subscriptions v j) (
            ((scalar_one_or_none rows >>= complete_unless_paid cfg form rebill mul now id)
                w).1.db.subscriptions
              v j)
    unfolding complete_unless_paid
    accept_found-Change rows w h =
        let paid = accept_checked-Change (checked_payment form w.db) w refl h in
        ground (arith, paid)

  -- A completed payment.
  complete-Change :
      (cfg : Config) (form : Form) (rebill : String) (mul : Option String) (now : DateTime) (id : ℕ)
      (w : World)
      → parse_int (get_or "pay_state" "0" form) ≡ some (pos 4)
      → Change form now w.db v j
          (w.db.subscriptions v j)
          ((handle_payment_complete cfg form rebill mul now id w).1.db.subscriptions v j)
  unfolding handle_payment_complete
  complete-Change cfg form rebill mul now id w h =
      accept_found-Change cfg form rebill mul now id (records_of rebill w.db) w h

  -- What a webhook does once it is verified, by its state.
  dispatch_state-Change :
      (cfg : Config) (form : Form) (now : DateTime) (id : ℕ) (o : Option ℤ) (w : World)
      → parse_int (get_or "pay_state" "0" form) ≡ o
      → Change form now w.db v j
          (w.db.subscriptions v j)
          (((or_raise o value_error >>= dispatch_state cfg form now id) w).1.db.subscriptions v j)
  unfolding dispatch_state
  dispatch_state-Change cfg form now id none w e = inl refl
  dispatch_state-Change cfg form now id (some n) w e =
      let rebill = get_or "rebill_no" "" form in
      let paid = λ (h : eqb_ℤ n (pos 4) ≡ true).
        complete-Change cfg form rebill (lookup "mul_no" form) now id w
          (e ∙ ap some ((eqb_ℤ_iff n (pos 4)).0 h)) in
      ground (arith, paid, (cancel-TurnsOff form rebill n w).1)

  -- A webhook leaves the subscription of a user as it was, or has the three credentials of the settings and
  -- turns it off or reports a payment by that user of the price of the plan that it names, which turns on the
  -- subscription of the named type, with the named plan and 31 days from now.
  pub activation_is_paid :
      (cfg : Config) (form : Form) (now : DateTime) (id : ℕ) (w : World)
      → CheckedChange cfg form now w.db v j
          (w.db.subscriptions v j)
          ((handle_webhook cfg form now id w).1.db.subscriptions v j)
  unfolding handle_webhook dispatch
  activation_is_paid cfg form now id w = ground (
    arith,
    (verify_webhook_sound cfg form w).0,
    (verify_webhook_sound cfg form w).1,
    dispatch_state-Change cfg form now id (parse_int (get_or "pay_state" "0" form)) w refl,
  )
