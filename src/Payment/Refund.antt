-- ===== src/Payment/Refund.antt =====
-- Refunds by an operator (src/payment/service.py: `refund_payment`).
use logit_be.Common.{
  ◌⊎◌, ℕ, pos, ◌≡◌, refl, subst, sym, Bool, true, false, some, List, [], ◌∷◌, arith, ◌==◌, ==_iff,
  ap, ◌∙◌, where_rows, update_rows,
}
use logit_be.Config.{Config}
use logit_be.Rows.Payment.{PaymentRecord}
use logit_be.World.{World}
use logit_be.World.Action.{ok, raised, value_error}
use logit_be.Payment.{Reply, failed, answered, is_success, log_event}
use logit_be.Payment.Manage.{refund_payment, refund_record, refund_found, with_id, is_complete}

abbrev pub confirms : Reply → Bool
confirms failed = false
confirms (answered d) = is_success d

-- The record of a refunded payment.
abbrev pub refunded_row : PaymentRecord → PaymentRecord
refunded_row r = record r { pay_state = some (pos 9) }

module _ (id : ℕ) (r s : PaymentRecord) where
  chosen-id :
      (rs : List PaymentRecord) → where_rows (λ x. x.id == id) rs ≡ r ∷ [] → (r.id == id) ≡ true
  chosen-id [] e = grind arith
  chosen-id (q ∷ rs) e = grind (arith, chosen-id rs)

  none-chosen :
      (rs : List PaymentRecord)
      → where_rows (λ x. x.id == id) rs ≡ []
      → where_rows (λ x. x.id == id) (update_rows (λ x. x.id == id) (λ x. s) rs) ≡ []
  none-chosen [] e = refl
  none-chosen (q ∷ rs) e = grind (arith, none-chosen rs)

  -- The one row of an id, replaced by another of that id.
  chosen-replaced :
      (rs : List PaymentRecord)
      → (s.id == id) ≡ true
      → where_rows (λ x. x.id == id) rs ≡ r ∷ []
      → where_rows (λ x. x.id == id) (update_rows (λ x. x.id == id) (λ x. s) rs) ≡ s ∷ []
  chosen-replaced [] h e = grind arith
  chosen-replaced (q ∷ rs) h e = grind (arith, none-chosen rs, chosen-replaced rs)

refund_record-marks :
    (cfg : Config) (reply : Reply) (r : PaymentRecord) (w : World)
    → (refund_record cfg reply r w).0 ≡ ok tt
    → (refund_record cfg reply r w).1.db.payment_records
      ≡ update_rows (λ x. x.id == r.id) (λ x. refunded_row r) w.db.payment_records
unfolding refund_record log_event
refund_record-marks cfg reply r w h = ground arith

-- A record that is not of a completed payment is not refunded, and PayApp is not asked.
refund_record-refuses :
    (cfg : Config) (reply : Reply) (r : PaymentRecord) (w : World)
    → is_complete r ≡ false
    → refund_record cfg reply r w ≡ (raised value_error, w)
unfolding refund_record
refund_record-refuses cfg reply r w h = ground (arith, h)

module _ (cfg : Config) (id : ℕ) (reply : Reply) (w : World) where
  -- What the next request finds.
  found-again :
      (r : PaymentRecord)
      → with_id id w.db ≡ r ∷ []
      → (refund_record cfg reply r w).0 ≡ ok tt
      → with_id id (refund_record cfg reply r w).1.db ≡ refunded_row r ∷ []
  found-again r e h =
      let p = chosen-id id r r w.db.payment_records e in
      let same : r.id ≡ id = (==_iff r.id id).0 p in
      ap (where_rows (λ (x : PaymentRecord). x.id == id)) (refund_record-marks cfg reply r w h)
      ∙ subst
          (λ n.
            where_rows (λ (x : PaymentRecord). x.id == id)
              (update_rows (λ x. x.id == n) (λ x. refunded_row r) w.db.payment_records)
            ≡ refunded_row r ∷ [])
          (sym same) (chosen-replaced id r (refunded_row r) w.db.payment_records p e)

  refund_found-once :
      (cfg' : Config) (reply' : Reply) (rows : List PaymentRecord)
      → with_id id w.db ≡ rows
      → (refund_found cfg reply rows w).0 ≡ ok tt
      → let w' = (refund_found cfg reply rows w).1 in
        refund_found cfg' reply' (with_id id w'.db) w' ≡ (raised value_error, w')
  refund_found-once cfg' reply' [] e h = grind arith
  refund_found-once cfg' reply' (r ∷ []) e h =
      subst
        (λ rows.
          refund_found cfg' reply' rows (refund_record cfg reply r w).1
          ≡ (raised value_error, (refund_record cfg reply r w).1))
        (sym (found-again r e h))
        (refund_record-refuses cfg' reply' (refunded_row r) (refund_record cfg reply r w).1 refl)
  refund_found-once cfg' reply' (r ∷ q ∷ rs) e h = grind arith

  -- A payment that was refunded cannot be refunded again: the second request is refused before PayApp
  -- is asked, and changes nothing.
  pub refunded_once :
      (cfg' : Config) (reply' : Reply)
      → (refund_payment cfg id reply w).0 ≡ ok tt
      → let w' = (refund_payment cfg id reply w).1 in
        refund_payment cfg' id reply' w' ≡ (raised value_error, w')
  unfolding refund_payment
  refunded_once cfg' reply' h = refund_found-once cfg' reply' (with_id id w.db) refl h

-- A refund, whether it goes through or not, leaves all subscriptions as they were; and the database
-- is as before, or PayApp has confirmed.
refund_keeps_access :
    (cfg : Config) (id : ℕ) (reply : Reply) (w : World)
    → let w' = (refund_payment cfg id reply w).1 in
      (w'.db.subscriptions ≡ w.db.subscriptions) × ((w'.db ≡ w.db) ⊎ (confirms reply ≡ true))
unfolding refund_payment refund_record log_event
refund_keeps_access cfg id reply w = (ground arith, ground arith)
