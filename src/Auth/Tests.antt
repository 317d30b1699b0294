-- ===== src/Auth/Tests.antt =====
-- Runs of the login on a small database, and its theorems at those inputs.
use logit_be.Common.{
  ℕ, Bool, ℕ, ◌+◌, ◌==◌, ◌≡◌, refl, Bool, true, false, none, some, String, [], ◌∷◌, str_eq,
  if◌then◌else◌, arith,
}
use logit_be.Clock.{DateTime, add_days, next_day, month_length}
use logit_be.Rows.User.{User, google, apple}
use logit_be.World.{World, fresh, empty_db}
use logit_be.World.Action.{ok, raised, http_error}
use logit_be.Auth.{
  Claims, Keys, Identity, whole_seconds, create_access_token, create_refresh_token,
  update_refresh_token, verify_token, login, refresh_with,
}
use logit_be.Auth.Sessions.{accounts, renew, log_out, withdraw, after, after_all, requests_refine}
use logit_be.Auth.Rotation.{HasFixedClaims, rotates, same_second}
use logit_be.Auth.Accounts.{login_of, Holds, login_again}

abbrev pub at_micro : ℕ → DateTime
at_micro n = record { year = 2025; month = 7; day = 15; clock = 32400000000 + n }

-- Refresh tokens of user 7, of two seconds.
abbrev claims_at : ℕ → Claims
claims_at n = record { exp = whole_seconds (add_days 14 (at_micro n)); sub = 7; type = "refresh" }

-- A signature scheme that knows one token, `first`, and gives every other the text `other`.
abbrev pub keys : Keys
keys = record {
  encode = λ c.
      if str_eq c.type "refresh"
      then (if c.exp.clock == 32400000000 then "first" else "second")
      else "access";
  decode = λ now t. if str_eq t "first" then some (claims_at 0) else none;
  refresh_token_expire_days = 14;
  access_token_expire_minutes = 30;
}

keys-HasFixedClaims : HasFixedClaims keys
keys-HasFixedClaims = record { same_claims = λ token a b c d p q. grind arith }

abbrev pub member : User
member = record {
  id = 7;
  email = "a@b.c";
  full_name = none;
  is_active = true;
  oauth_provider = some google;
  oauth_provider_id = some "g";
  referral_code = none;
  referred_by_user_id = none;
  refresh_token = some "first";
}

abbrev pub start : World
start = fresh record empty_db { users = member ∷ [] }

requests_refine_example :
    accounts
      (after_all keys
        (renew "first" (at_micro 1000000) ∷ withdraw 7 ∷ log_out "first" (at_micro 0) ∷ [])
        start).db
      7
    ≡ some record { is_active = false; session = some "" }
unfolding verify_token
requests_refine_example =
    requests_refine keys
      (renew "first" (at_micro 1000000) ∷ withdraw 7 ∷ log_out "first" (at_micro 0) ∷ []) start 7

rotates_example :
    let w' = after keys (renew "first" (at_micro 1000000)) start in
    refresh_with keys "first" (at_micro 2000000) w' ≡ (raised (http_error 401), w')
unfolding refresh_with verify_token update_refresh_token create_access_token create_refresh_token
    add_days next_day month_length
rotates_example =
    rotates keys "first" (at_micro 1000000) (at_micro 2000000) start ("access", "second")
      keys-HasFixedClaims refl refl

abbrev first_token : String
first_token = create_refresh_token keys 7 (at_micro 0)

same_second_example :
    ("first" ≡ create_refresh_token keys 7 (at_micro 0))
    × ((v : ℕ)
        → accounts
            (after keys (renew (create_refresh_token keys 7 (at_micro 0)) (at_micro 5)) start).db
            v
          ≡ accounts start.db v)
unfolding refresh_with verify_token update_refresh_token create_access_token create_refresh_token
    add_days next_day month_length
same_second_example =
    same_second keys 7 (at_micro 0) (at_micro 5) start ("access", "first") refl refl refl

abbrev by_google : Identity
by_google = record {
  provider = google;
  provider_id = "g2";
  email = "new@b.c";
  name = none;
  fresh_id = 9;
}

abbrev by_apple : Identity
by_apple = record {
  provider = apple;
  provider_id = "a2";
  email = "new@b.c";
  name = some "x";
  fresh_id = 10;
}

login_again_example :
    let w1 = (login keys by_google (at_micro 0) start).1 in
    let w2 = (login keys by_apple (at_micro 1) w1).1 in
    (u : ℕ) × (b : Bool) × ((login keys by_google (at_micro 0) start).0
      ≡ ok (login_of keys u b (at_micro 0)))
    × ((login keys by_apple (at_micro 1) w1).0 ≡ ok (login_of keys u false (at_micro 1)))
    × (w2.db.user_tokens ≡ w1.db.user_tokens)
    × (w2.db.token_transactions ≡ w1.db.token_transactions)
    × Holds "new@b.c" (create_refresh_token keys u (at_micro 1)) u w2.db
login_again_example = login_again keys by_google by_apple (at_micro 0) (at_micro 1) start refl
