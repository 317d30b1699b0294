-- ===== src/Subscription.antt =====
-- src/subscription/service.py, and `create_mcp_token` of src/security.py. A query by the unique key
-- of the table finds one row at most.
pub mod Access
pub mod Usage
pub mod Expiry
pub mod Limits
pub mod Tests
use logit_be.Common.{
  ℕ, Bool, true, false, not, ◌&&◌, ◌||◌, Option, none, some, String, List, [], ◌∷◌, ◌++◌,
  if◌then◌else◌,
}
use logit_be.Config.{Config}
use logit_be.Text.{truthy}
use logit_be.Clock.{DateTime, before, add_days}
use logit_be.Rows.Subscription.{Subscription, SubscriptionType, SubscriptionPlan, mcp, logit, basic}
use logit_be.World.{World, put_subscription}
use logit_be.World.Action.{Action, pure, raise, execute, write, commit, value_error, ◌>>=◌, ◌>>◌}

-- `Subscription` row, changed or new.
abbrev pub save_subscription : ℕ → SubscriptionType → Subscription → Action (Unit {0})
save_subscription u k s =
    write (λ d. record d { subscriptions = put_subscription u k s d.subscriptions })

-- `expires_at is not None and expires_at < now`
abbrev pub is_expired : Option DateTime → DateTime → Bool
is_expired none now = false
is_expired (some e) now = before e now

-- `WHERE is_active = true`
abbrev pub only_active : Option Subscription → Option Subscription
only_active none = none
only_active (some s) = if s.is_active then some s else none

abbrev unless_expired : Option Subscription → DateTime → Option Subscription
unless_expired none now = none
unless_expired (some s) now = if is_expired s.expires_at now then none else some s

unfoldable pub get_active_subscription :
    ℕ → SubscriptionType → DateTime → Action (Option Subscription)
get_active_subscription u k now =
    execute λ d. unless_expired (only_active (d.subscriptions u k)) now

-- `sub.is_active and sub.expires_at is not None and sub.expires_at < now`
abbrev pub has_lapsed : Subscription → DateTime → Bool
has_lapsed s now = s.is_active && is_expired s.expires_at now

abbrev pub lapse : Subscription → DateTime → Subscription
lapse s now = if has_lapsed s now then record s { is_active = false } else s

sync : ℕ → SubscriptionType → DateTime → Option Subscription → Action (Option Subscription)
sync u k now none = pure none
sync u k now (some s) =
    if has_lapsed s now
    then save_subscription u k (lapse s now) >> commit >> pure (some (lapse s now))
    else pure (some s)

unfoldable pub get_subscription_by_type :
    ℕ → SubscriptionType → DateTime → Action (Option Subscription)
unfolding sync
get_subscription_by_type u k now = do s ← execute (λ d. d.subscriptions u k); sync u k now s

-- The rows of a user: one of each type at most.
abbrev rows_of : Option Subscription → Option Subscription → List (SubscriptionType × Subscription)
rows_of none none = []
rows_of (some s) none = (mcp, s) ∷ []
rows_of none (some t) = (logit, t) ∷ []
rows_of (some s) (some t) = (mcp, s) ∷ (logit, t) ∷ []

lapse_all : ℕ → DateTime → List (SubscriptionType × Subscription) → Action (Unit {0})
lapse_all u now [] = pure tt
lapse_all u now ((k, s) ∷ rest) =
    if has_lapsed s now
    then save_subscription u k (lapse s now) >> lapse_all u now rest
    else lapse_all u now rest

any_lapsed : DateTime → List (SubscriptionType × Subscription) → Bool
any_lapsed now [] = false
any_lapsed now ((k, s) ∷ rest) = has_lapsed s now || any_lapsed now rest

lapsed_rows : DateTime → List (SubscriptionType × Subscription) → List Subscription
lapsed_rows now [] = []
lapsed_rows now ((k, s) ∷ rest) = lapse s now ∷ lapsed_rows now rest

unfoldable pub get_all_subscriptions : ℕ → DateTime → Action (List Subscription)
unfolding lapse_all any_lapsed lapsed_rows
get_all_subscriptions u now = do
  subs ← execute (λ d. rows_of (d.subscriptions u mcp) (d.subscriptions u logit))
  lapse_all u now subs
  if any_lapsed now subs then commit else pure tt
  pure (lapsed_rows now subs)

-- `expires_at or (now + timedelta(days=MCP_TOKEN_EXPIRE_DAYS))`
abbrev expiry : Config → Option DateTime → DateTime → DateTime
expiry cfg none now = add_days cfg.mcp_token_expire_days now
expiry cfg (some e) now = e

-- `create_mcp_token`
unfoldable pub create_mcp_token : Config → ℕ → Option DateTime → DateTime → Action String
create_mcp_token cfg u expires now = elim cfg.mcp_jwt_secret [
  | none ↦ raise value_error
  | some secret ↦
      if truthy (some secret)
      then pure (cfg.encode_mcp secret u (expiry cfg expires now))
      else raise value_error
]

abbrev is_basic : SubscriptionPlan → Bool
is_basic basic = true
is_basic _ = false

issue_new : Config → ℕ → DateTime → Subscription → Action (String × Bool)
unfolding create_mcp_token
issue_new cfg u now s = do
  t ← create_mcp_token cfg u s.expires_at now
  save_subscription u mcp (record s { token = some t })
  commit
  pure (t, false)

-- The token of a paid subscription, made where there is none yet.
issue : Config → ℕ → DateTime → Subscription → Action (String × Bool)
unfolding issue_new
issue cfg u now s = elim s.token [
  | none ↦ issue_new cfg u now s
  | some t ↦ if truthy (some t) then pure (t, false) else issue_new cfg u now s
]

mcp_token_of : Config → ℕ → DateTime → Option Subscription → Action (String × Bool)
unfolding issue
mcp_token_of cfg u now none = pure ("", true)
mcp_token_of cfg u now (some s) =
    if not (is_basic s.plan) || not s.is_active || is_expired s.expires_at now
    then pure ("", true)
    else issue cfg u now s

unfoldable pub get_or_create_mcp_token : Config → ℕ → DateTime → Action (String × Bool)
unfolding mcp_token_of
get_or_create_mcp_token cfg u now = do
  s ← execute (λ d. d.subscriptions u mcp)
  mcp_token_of cfg u now s
