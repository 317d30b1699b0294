-- ===== src/Payment/Start.antt =====
-- Starting a subscription (src/payment/service.py: `initiate_payment`).
use logit_be.Common.{
  ℕ, ◌≡◌, ◌⊎◌, Bool, true, false, ◌&&◌, Option, none, some, String, List, ◌∷◌, arith,
}
use logit_be.Config.{Config}
use logit_be.Clock.{DateTime}
use logit_be.Rows.Subscription.{Subscription, SubscriptionType, SubscriptionPlan}
use logit_be.World.{World, PayAppCall, register_rebill}
use logit_be.Rows.Payment.{Plan}
use logit_be.World.Action.{raised, value_error}
use logit_be.Subscription.{only_active}
use logit_be.Payment.{Reply, log_event, has_payapp}
use logit_be.Payment.Manage.{
  initiate_payment, payment_plan_key, sold_plan, cycle_day, blocks, is_unexpired,
}

-- An active subscription that has not ended.
abbrev pub is_running : Option Subscription → DateTime → Bool
is_running none now = false
is_running (some s) now = s.is_active && is_unexpired s.expires_at now

-- What a request for a plan may have asked of PayApp: its registration with no cycle day, if the plan
-- is sold.
abbrev pub Asks : ℕ → String → Option Plan → List PayAppCall → List PayAppCall → Type 0
Asks u key none old new = new ≡ old
Asks u key (some p) old new = (new ≡ old) ⊎ (new ≡ register_rebill u key p.price none ∷ old)

cycle_day-none :
    (s : Option Subscription) (now : DateTime)
    → blocks (only_active s) now ≡ false
    → cycle_day (only_active s) now ≡ none
unfolding cycle_day
cycle_day-none s now h = ground arith

module _ (cfg : Config) (u : ℕ) (k : SubscriptionType) (plan : SubscriptionPlan) (reply : Reply)
    (now : DateTime) (w : World) where
  -- On a configured server a user with a running subscription of the type cannot pay for another one,
  -- whether it renews or was cancelled: the request is refused before PayApp is asked, and changes
  -- nothing.
  pub running_blocks :
      has_payapp cfg ≡ true
      → is_running (w.db.subscriptions u k) now ≡ true
      → initiate_payment cfg u k plan reply now w ≡ (raised value_error, w)
  unfolding initiate_payment
  running_blocks c h = ground (arith, c, h)

  -- PayApp is asked once at most, for the price of the plan and never with a cycle day; and no
  -- request touches the subscriptions or the payments.
  registers_without_day :
      let w' = (initiate_payment cfg u k plan reply now w).1 in
      Asks u (payment_plan_key k plan) (sold_plan (payment_plan_key k plan) w.db) w.calls w'.calls
      × (w'.db.subscriptions ≡ w.db.subscriptions)
      × (w'.db.payment_records ≡ w.db.payment_records)
  unfolding initiate_payment log_event
  registers_without_day =
      let no_day = cycle_day-none (w.db.subscriptions u k) now in
      (ground (arith, no_day), ground arith, ground arith)
