-- ===== src/Payment/Cancellation.antt =====
-- Ending a subscription (src/payment/service.py: `cancel_subscription`,
-- `admin_deactivate_subscription`).
use logit_be.Common.{
  ℕ, ◌≡◌, ◌↔◌, Bool, true, false, not, ◌&&◌, ◌||◌, Option, none, some, String, arith, ◌==◌,
  if◌then◌else◌,
}
use logit_be.Config.{Config}
use logit_be.Text.{truthy}
use logit_be.Rows.Subscription.{Subscription, SubscriptionType, type_eq, type_value}
use logit_be.World.{World}
use logit_be.World.Action.{ok}
use logit_be.Payment.{
  Reply, failed, answered, is_success, has_payapp, log_event, last_rebill, deactivated_row,
}
use logit_be.Payment.Manage.{cancel_subscription, admin_deactivate_subscription}

-- The reply that a cancellation needs, which is of PayApp where the server is configured for it.
abbrev pub stops : Config → Option String → Reply → Bool
stops cfg rebill reply =
    not (has_payapp cfg)
    || truthy rebill && (elim reply [ failed ↦ false | answered d ↦ is_success d ])

abbrev pub may_cancel : Option Subscription → Bool
may_cancel none = false
may_cancel (some s) = s.is_active && s.is_auto_renew

-- The row after a cancellation.
abbrev pub without_renewal : Option Subscription → Option Subscription
without_renewal none = none
without_renewal (some s) = some (record s { is_auto_renew = false })

module _ (cfg : Config) (u : ℕ) (k : SubscriptionType) (reply : Reply) (w : World) where
  -- A cancellation goes through for an active subscription that renews, when PayApp confirms that it
  -- stops the payments (or is not configured), and for no other.
  cancelled_iff : ((cancel_subscription cfg u k reply w).0 ≡ ok tt) ↔ (
      may_cancel (w.db.subscriptions u k) && stops cfg (last_rebill u (type_value k) w.db) reply
      ≡ true)
  unfolding cancel_subscription log_event
  cancelled_iff = ground arith

  -- The subscription then no longer renews, with its other columns as before; where the
  -- cancellation fails, it stays as it was, and so do all others in any case.
  cancel_keeps_access :
      (v : ℕ) (j : SubscriptionType)
      → let done =
          may_cancel (w.db.subscriptions u k)
          && stops cfg (last_rebill u (type_value k) w.db) reply in
        (cancel_subscription cfg u k reply w).1.db.subscriptions v j ≡ (
          if done && (v == u && type_eq j k)
          then without_renewal (w.db.subscriptions u k)
          else w.db.subscriptions v j)
  unfolding cancel_subscription log_event
  cancel_keeps_access v j = ground arith

  -- Whatever PayApp replies, the subscription that an operator deactivates is off at once, for the
  -- next requests also, and an MCP subscription loses its token.
  deactivated_at_once :
      (s : Subscription)
      → w.db.subscriptions u k ≡ some s
      → let (r, w') = admin_deactivate_subscription cfg u k reply w in
        (r ≡ ok tt)
        × (w'.committed.subscriptions u k ≡ some (deactivated_row k s))
        × (w'.db.subscriptions u k ≡ some (deactivated_row k s))
  unfolding admin_deactivate_subscription log_event
  deactivated_at_once s e = ground (arith, e)
