-- ===== src/Payment/Repeats.antt =====
-- Webhooks that name the same `rebill_no` (src/payment/service.py: `_handle_payment_complete`).
use logit_be.Common.{
  ℕ, ℤ, ◌≡◌, refl, sym, subst, true, false, Option, none, some, String, List, [], ◌∷◌, arith, ◌==◌,
  where_rows, update_rows, All, eq_refl, ==_self,
}
use logit_be.Config.{Config}
use logit_be.Text.{get_or, split_colon}
use logit_be.Clock.{DateTime, add_days}
use logit_be.Rows.Payment.{PaymentRecord, Plan}
use logit_be.World.{World, Db}
use logit_be.World.Action.{ok, or_raise, scalar_one_or_none, value_error, ◌>>=◌}
use logit_be.Subscription.{create_mcp_token}
use logit_be.Payment.{paid_days, log_event, activate_subscription, is_paid, same_text}
use logit_be.Payment.Webhook.{
  Form, success, handle_payment_complete, accept_payment, accept_checked, settle_payment,
  complete_unless_paid, checked_payment, records_of, paid_record, pair_of,
}

-- Every record of the rebill number is of a payment that was made.
abbrev pub ArePaid : String → Db → Type 0
ArePaid rebill d = All (λ r. is_paid r ≡ true) (records_of rebill d)

-- What `uuid4` gives: an id that no record has.
abbrev pub IsFreshId : ℕ → Db → Type 0
IsFreshId id d = All (λ (r : PaymentRecord). (r.id == id) ≡ false) d.payment_records

-- The record of a settled payment.
abbrev pub settled : PaymentRecord → DateTime → PaymentRecord
settled r now = record r {
  subscription_started_at = some now;
  subscription_expires_at = some (add_days paid_days now);
}

update-fresh :
    (id : ℕ) (f : PaymentRecord → PaymentRecord) (rs : List PaymentRecord)
    → All (λ (r : PaymentRecord). (r.id == id) ≡ false) rs
    → update_rows (λ r. r.id == id) f rs ≡ rs
update-fresh id f [] h = refl
update-fresh id f (r ∷ rs) h = grind (arith, update-fresh id f rs h.1)

settle-records :
    (cfg : Config) (r : PaymentRecord) (rebill : String) (now : DateTime) (price : ℤ) (w : World)
    → (settle_payment cfg r rebill now price w).0 ≡ ok success
    → (settle_payment cfg r rebill now price w).1.db.payment_records
      ≡ update_rows (λ x. x.id == r.id) (λ x. settled r now) (r ∷ w.db.payment_records)
unfolding settle_payment activate_subscription log_event create_mcp_token
settle-records cfg r rebill now price w h = ground arith

kept-only :
    (id : ℕ) (rebill : String) (r s : PaymentRecord) (rs all : List PaymentRecord)
    → all ≡ update_rows (λ x. x.id == r.id) (λ x. s) (r ∷ rs)
    → update_rows (λ x. x.id == r.id) (λ x. s) rs ≡ rs
    → where_rows (λ x. same_text x.rebill_no rebill) rs ≡ []
    → same_text s.rebill_no rebill ≡ true
    → where_rows (λ x. same_text x.rebill_no rebill) all ≡ s ∷ []
kept-only id rebill r s rs all e f g h = ground (arith, e, f, g, h, ==_self r.id)

-- One record has the rebill number, and its payment was made.
pub record IsPaidOnce (rebill : String) (d : Db) : Type 0 where
  pub row : PaymentRecord
  pub only : records_of rebill d ≡ row ∷ []
  pub paid : is_paid row ≡ true

complete_found-skips :
    (cfg : Config) (form : Form) (rebill : String) (mul : Option String) (now : DateTime) (id : ℕ)
    (rows : List PaymentRecord) (r : PaymentRecord) (w : World)
    → rows ≡ r ∷ []
    → is_paid r ≡ true
    → (scalar_one_or_none rows >>= complete_unless_paid cfg form rebill mul now id) w
      ≡ (ok success, w)
unfolding complete_unless_paid
complete_found-skips cfg form rebill mul now id rows r w e h = ground (arith, e, h)

-- A payment on record is not taken again.
complete-skips :
    (cfg : Config) (form : Form) (rebill : String) (mul : Option String) (now : DateTime) (id : ℕ)
    (w : World)
    → IsPaidOnce rebill w.db
    → handle_payment_complete cfg form rebill mul now id w ≡ (ok success, w)
unfolding handle_payment_complete
complete-skips cfg form rebill mul now id w h =
    complete_found-skips cfg form rebill mul now id (records_of rebill w.db) h.row w h.only h.paid

-- The first record of a rebill number.
module _ (cfg : Config) (form : Form) (rebill : String) (mul : Option String) (now : DateTime)
    (id : ℕ) (w : World) (fresh : IsFreshId id w.db) where
  settle-IsPaidOnce :
      (u : ℕ) (plan : Plan) (n : String × String)
      → let m =
          settle_payment cfg (paid_record form rebill mul now id u plan n) rebill now plan.price in
        records_of rebill w.db ≡ [] → (m w).0 ≡ ok success → IsPaidOnce rebill (m w).1.db
  unfolding records_of
  settle-IsPaidOnce u plan n none_yet h =
      let r = paid_record form rebill mul now id u plan n in
      let e = settle-records cfg r rebill now plan.price w h in
      let f = update-fresh id (λ x. settled r now) w.db.payment_records fresh in
      record {
        row = settled r now;
        only =
            kept-only id rebill r (settled r now) w.db.payment_records _ e f none_yet
              (eq_refl rebill);
        paid = refl;
      }

  accept-IsPaidOnce :
      (u : ℕ) (plan : Plan) (names : Option (String × String))
      → let m = or_raise names value_error >>= λ n.
          settle_payment cfg (paid_record form rebill mul now id u plan n) rebill now plan.price in
        records_of rebill w.db ≡ [] → (m w).0 ≡ ok success → IsPaidOnce rebill (m w).1.db
  accept-IsPaidOnce u plan none none_yet h = grind arith
  accept-IsPaidOnce u plan (some n) none_yet h = settle-IsPaidOnce u plan n none_yet h

  checked-IsPaidOnce :
      (o : Option (ℕ × Plan))
      → records_of rebill w.db ≡ []
      → (accept_checked cfg form rebill mul now id o w).0 ≡ ok success
      → IsPaidOnce rebill (accept_checked cfg form rebill mul now id o w).1.db
  unfolding accept_payment
  checked-IsPaidOnce none none_yet h = grind arith
  checked-IsPaidOnce (some (u, plan)) none_yet h =
      accept-IsPaidOnce u plan (pair_of (split_colon (get_or "var2" "" form))) none_yet h

  found-IsPaidOnce :
      (rows : List PaymentRecord)
      → let m = scalar_one_or_none rows >>= complete_unless_paid cfg form rebill mul now id in
        records_of rebill w.db ≡ rows
        → All (λ r. is_paid r ≡ true) rows
        → (m w).0 ≡ ok success
        → IsPaidOnce rebill (m w).1.db
  unfolding complete_unless_paid
  found-IsPaidOnce [] e paid h = checked-IsPaidOnce (checked_payment form w.db) e h
  found-IsPaidOnce (r ∷ []) e paid h =
      subst (λ x. IsPaidOnce rebill x.1.db)
        (sym (complete_found-skips cfg form rebill mul now id (r ∷ []) r w refl paid.0))
        (record { row = r; only = e; paid = paid.0 })
  found-IsPaidOnce (r ∷ q ∷ rs) e paid h = grind arith

  -- Where the records of a rebill number are of payments that were made, and the id of a new record is
  -- fresh: once a webhook of a completed payment was answered with success, the next one with the same
  -- number, whatever else it says, is answered with success and changes nothing.
  pub repeat_ignored :
      (cfg' : Config) (form' : Form) (mul' : Option String) (now' : DateTime) (id' : ℕ)
      → ArePaid rebill w.db
      → (handle_payment_complete cfg form rebill mul now id w).0 ≡ ok success
      → let w' = (handle_payment_complete cfg form rebill mul now id w).1 in
        handle_payment_complete cfg' form' rebill mul' now' id' w' ≡ (ok success, w')
  unfolding handle_payment_complete
  repeat_ignored cfg' form' mul' now' id' paid h =
      complete-skips cfg' form' rebill mul' now' id' _
        (found-IsPaidOnce (records_of rebill w.db) refl paid h)
