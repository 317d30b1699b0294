-- ===== src/Payment/Secrets.antt =====
-- What is stored of the form of a webhook (src/payment/service.py: `raw_webhook_data`).
use logit_be.Common.{
  ℕ, ℤ, ◌≡◌, refl, ap, sym, ◌∙◌, subst, ◌⊎◌, inl, inr, Bool, true, false, Option, none, some,
  String, List, [], ◌∷◌, arith, str_eq, eq_iff, if◌then◌else◌, update_rows, All, ◌==◌,
}
use logit_be.Config.{Config}
use logit_be.Text.{lookup, get_or, parse_int, split_colon}
use logit_be.Clock.{DateTime}
use logit_be.Rows.Subscription.{SubscriptionType}
use logit_be.Rows.Payment.{PaymentRecord, Plan}
use logit_be.World.{World, Db}
use logit_be.World.Action.{or_raise, scalar_one_or_none, value_error, ◌>>=◌}
use logit_be.Subscription.{create_mcp_token}
use logit_be.Payment.{parse_type, log_event, activate_subscription, deactivate_subscription}
use logit_be.Payment.Repeats.{settled}
use logit_be.Payment.Forgery.{verify_webhook_sound}
use logit_be.Payment.Webhook.{
  Form, is_credential, without_credentials, settle_payment, close, close_named, cancel_record,
  cancelled_by, handle_payment_cancel, handle_payment_complete, complete_unless_paid,
  accept_checked, accept_payment, checked_payment, records_of, paid_record, pair_of, dispatch,
  dispatch_state, handle_webhook,
}

-- No credential is among the fields that are stored.
lookup-without_credentials :
    (k : String) (form : Form) → is_credential k ≡ true → lookup k (without_credentials form) ≡ none
lookup-without_credentials k [] h = refl
lookup-without_credentials k ((j, v) ∷ form) h =
    let ih = lookup-without_credentials k form h in
    let same = λ (e : str_eq j k ≡ true). ap is_credential ((eq_iff j k).0 e) ∙ h in
    ground (arith, ih, same, h)

abbrev stored : String → PaymentRecord → Option String
stored k r = elim r.raw_webhook_data [ none ↦ none | some form ↦ lookup k form ]

-- A record that stores none of the credentials.
pub record IsClean (r : PaymentRecord) : Type 0 where
  pub lacks : (k : String) → is_credential k ≡ true → stored k r ≡ none

abbrev pub AreClean : Db → Type 0
AreClean d = All IsClean d.payment_records

pick-IsClean :
    (c : Bool) (r s : PaymentRecord) → IsClean r → IsClean s → IsClean (if c then s else r)
pick-IsClean true r s h h' = h'
pick-IsClean false r s h h' = h

update-IsClean :
    (p : PaymentRecord → Bool) (s : PaymentRecord) (rs : List PaymentRecord)
    → IsClean s
    → All IsClean rs
    → All IsClean (update_rows p (λ x. s) rs)
update-IsClean p s [] h hs = tt
update-IsClean p s (r ∷ rs) h hs = (pick-IsClean (p r) r s hs.0 h, update-IsClean p s rs h hs.1)

-- The effect of a payment on the records, where it goes through and where it raises.
settle-rows :
    (cfg : Config) (r : PaymentRecord) (rebill : String) (now : DateTime) (price : ℤ) (w : World)
    → ((settle_payment cfg r rebill now price w).1.db.payment_records ≡ r ∷ w.db.payment_records)
      ⊎ ((settle_payment cfg r rebill now price w).1.db.payment_records
          ≡ update_rows (λ x. x.id == r.id) (λ x. settled r now) (r ∷ w.db.payment_records))
unfolding settle_payment activate_subscription log_event create_mcp_token
settle-rows cfg r rebill now price w = ground arith

rows-AreClean :
    (r s : PaymentRecord) (d e : Db)
    → IsClean r
    → IsClean s
    → (e.payment_records ≡ r ∷ d.payment_records)
      ⊎ (e.payment_records ≡ update_rows (λ x. x.id == r.id) (λ x. s) (r ∷ d.payment_records))
    → AreClean d
    → AreClean e
rows-AreClean r s d e hr hs (inl p) h = subst (All IsClean) (sym p) (hr, h)
rows-AreClean r s d e hr hs (inr p) h =
    subst (All IsClean) (sym p)
      (update-IsClean (λ x. x.id == r.id) s (r ∷ d.payment_records) hs (hr, h))

close-records :
    (u : ℕ) (k : SubscriptionType) (rebill : String) (w : World)
    → (close u k rebill w).1.db.payment_records ≡ w.db.payment_records
unfolding close deactivate_subscription log_event
close-records u k rebill w = ground arith

-- The cancellation of a payment on record, once the record is changed.
close_typed-records :
    (o : Option SubscriptionType) (u : ℕ) (rebill : String) (w : World)
    → ((or_raise o value_error >>= λ k. close u k rebill) w).1.db.payment_records
      ≡ w.db.payment_records
close_typed-records none u rebill w = refl
close_typed-records (some k) u rebill w = close-records u k rebill w

close_named-records :
    (o : Option (ℕ × SubscriptionType)) (rebill : String) (w : World)
    → (close_named o rebill w).1.db.payment_records ≡ w.db.payment_records
close_named-records none rebill w = refl
close_named-records (some (u, k)) rebill w = close-records u k rebill w

module _ (form : Form) where
  record_of-IsClean :
      (r : PaymentRecord) → r.raw_webhook_data ≡ some (without_credentials form) → IsClean r
  record_of-IsClean r e = record {
    lacks = λ k h.
        ap (λ x. elim x [ none ↦ none | some f ↦ lookup k f ]) e
        ∙ lookup-without_credentials k form h;
  }

  cancel_found-AreClean :
      (rebill : String) (state : ℤ) (rows : List PaymentRecord) (w : World)
      → AreClean w.db
      → AreClean ((scalar_one_or_none rows >>= λ r. cancel_record form rebill state r) w).1.db
  unfolding cancel_record
  cancel_found-AreClean rebill state [] w h =
      subst (All IsClean) (sym (close_named-records (cancelled_by form) rebill w)) h
  cancel_found-AreClean rebill state (r ∷ []) w h =
      let s = record r {
        pay_state = some state;
        raw_webhook_data = some (without_credentials form);
      } in
      subst (All IsClean)
        (sym (close_typed-records (parse_type r.subscription_type) r.user_id rebill _))
        (update-IsClean (λ x. x.id == r.id) s w.db.payment_records (record_of-IsClean s refl) h)
  cancel_found-AreClean rebill state (r ∷ q ∷ rs) w h = h

  cancel-AreClean :
      (rebill : String) (state : ℤ) (w : World)
      → AreClean w.db
      → AreClean (handle_payment_cancel form rebill state w).1.db
  unfolding handle_payment_cancel
  cancel-AreClean rebill state w h = cancel_found-AreClean rebill state (records_of rebill w.db) w h

  module _ (cfg : Config) (rebill : String) (mul : Option String) (now : DateTime) (id : ℕ)
      (w : World) (h : AreClean w.db) where
    accept_named-AreClean :
        (u : ℕ) (plan : Plan) (names : Option (String × String))
        → AreClean
            ((or_raise names value_error >>= λ n.
                settle_payment cfg
                  (paid_record form rebill mul now id u plan n)
                  rebill
                  now
                  plan.price)
              w).1.db
    accept_named-AreClean u plan none = h
    accept_named-AreClean u plan (some n) =
        let r = paid_record form rebill mul now id u plan n in
        rows-AreClean r (settled r now) w.db (settle_payment cfg r rebill now plan.price w).1.db
          (record_of-IsClean r refl) (record_of-IsClean (settled r now) refl)
          (settle-rows cfg r rebill now plan.price w) h

    accept_checked-AreClean :
        (o : Option (ℕ × Plan)) → AreClean (accept_checked cfg form rebill mul now id o w).1.db
    unfolding accept_payment
    accept_checked-AreClean none = h
    accept_checked-AreClean (some (u, plan)) =
        accept_named-AreClean u plan (pair_of (split_colon (get_or "var2" "" form)))

    found-AreClean :
        (rows : List PaymentRecord)
        → AreClean
            ((scalar_one_or_none rows >>= complete_unless_paid cfg form rebill mul now id) w).1.db
    unfolding complete_unless_paid
    found-AreClean rows =
        let checked = accept_checked-AreClean (checked_payment form w.db) in
        ground (arith, h, checked)

    complete-AreClean : AreClean (handle_payment_complete cfg form rebill mul now id w).1.db
    unfolding handle_payment_complete
    complete-AreClean = found-AreClean (records_of rebill w.db)

dispatch-AreClean :
    (cfg : Config) (form : Form) (now : DateTime) (id : ℕ) (o : Option ℤ) (w : World)
    → AreClean w.db
    → AreClean ((or_raise o value_error >>= dispatch_state cfg form now id) w).1.db
unfolding dispatch_state
dispatch-AreClean cfg form now id none w h = h
dispatch-AreClean cfg form now id (some n) w h =
    let rebill = get_or "rebill_no" "" form in
    let paid = complete-AreClean form cfg rebill (lookup "mul_no" form) now id w h in
    let ended = cancel-AreClean form rebill n w h in ground (arith, h, paid, ended)

-- A webhook stores none of the credentials that it came with: records without them stay without them,
-- and so is the one that it adds or changes, also where it raises half-way.
pub secrets_not_stored :
    (cfg : Config) (form : Form) (now : DateTime) (id : ℕ) (w : World)
    → AreClean w.db
    → AreClean (handle_webhook cfg form now id w).1.db
unfolding handle_webhook dispatch
secrets_not_stored cfg form now id w h =
    let rest = dispatch-AreClean cfg form now id (parse_int (get_or "pay_state" "0" form)) w h in
    ground (arith, h, rest, (verify_webhook_sound cfg form w).0)
