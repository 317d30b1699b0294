-- ===== src/Subscription/Access.antt =====
-- Who has access by a subscription (src/subscription/service.py).
use logit_be.Common.{◌≡◌, ◌↔◌, ℕ, Bool, true, false, not, ◌&&◌, Option, none, some, String, arith}
use logit_be.Config.{Config}
use logit_be.Clock.{DateTime}
use logit_be.Text.{truthy}
use logit_be.Rows.Subscription.{Subscription, SubscriptionType, mcp, basic}
use logit_be.World.{World}
use logit_be.World.Action.{ok}
use logit_be.Subscription.{
  get_active_subscription, get_subscription_by_type, get_or_create_mcp_token, is_expired,
  create_mcp_token,
}

module _ (u : ℕ) (k : SubscriptionType) (now : DateTime) (w : World) where
  -- The subscription that gives access is the row of the user and the type, if that is active and has
  -- not ended.
  access_iff :
      (s : Subscription)
      → (get_active_subscription u k now w ≡ (ok (some s), w)) ↔ (
          (w.db.subscriptions u k ≡ some s)
          × (s.is_active ≡ true)
          × (is_expired s.expires_at now ≡ false))
  unfolding get_active_subscription
  access_iff s = ground arith

  -- Reading a subscription turns off one that has ended, for the next requests also. Who has access
  -- does not change by that, and reading it again gives the same row and changes nothing.
  sync_settles :
      let w' = (get_subscription_by_type u k now w).1 in
      ((get_active_subscription u k now w').0 ≡ (get_active_subscription u k now w).0)
      × (get_subscription_by_type u k now w' ≡ ((get_subscription_by_type u k now w).0, w'))
  unfolding get_active_subscription get_subscription_by_type
  sync_settles = ground arith

abbrev pub may_use_mcp : Option Subscription → DateTime → Bool
may_use_mcp none now = false
may_use_mcp (some s) now =
    elim s.plan [ basic ↦ true | _ ↦ false ] && s.is_active && not (is_expired s.expires_at now)

module _ (cfg : Config) (u : ℕ) (now : DateTime) (w : World) where
  -- Without an active basic subscription to MCP that has not ended there is no token, and nothing
  -- changes.
  mcp_denied :
      may_use_mcp (w.db.subscriptions u mcp) now ≡ false
      → get_or_create_mcp_token cfg u now w ≡ (ok ("", true), w)
  unfolding get_or_create_mcp_token
  mcp_denied h = ground (arith, h)

  -- The token (not an empty text) that a user was given is given again, and nothing changes, at any
  -- instant at which the subscription that it was made for would still give access.
  token_is_kept :
      (t : String) (now' : DateTime)
      → truthy (some t) ≡ true
      → may_use_mcp (w.db.subscriptions u mcp) now' ≡ true
      → let (r, w') = get_or_create_mcp_token cfg u now w in
        r ≡ ok (t, false) → get_or_create_mcp_token cfg u now' w' ≡ (ok (t, false), w')
  unfolding get_or_create_mcp_token create_mcp_token
  token_is_kept t now' h m e = ground (arith, h, m, e)
