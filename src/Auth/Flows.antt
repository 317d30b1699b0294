-- ===== src/Auth/Flows.antt =====
-- The four logins of src/auth/router.py, from what the provider answers to the account and its tokens,
-- and the start of a web login.
use logit_be.Common.{ℕ, Bool, not, ◌||◌, Option, none, some, String, str_eq, if◌then◌else◌}
use logit_be.Clock.{DateTime}
use logit_be.Text.{truthy}
use logit_be.Rows.User.{google, apple}
use logit_be.World.{Login}
use logit_be.World.Action.{Action, Result, ok, raised, raise, raise_if, http_error, ◌>>◌}
use logit_be.Auth.{Keys, Identity, login}
use logit_be.Auth.Web.{create_oauth_state, callback}
use logit_be.Auth.Jwks.{Reply, Cache}
use logit_be.Auth.Providers.{
  Profile, Jwt, Settings, Visit, Found, UserJson, and_then, text_of, can_sign, full_name_of,
  google_web_user, verify_google_id_token, verify_apple_id_token,
}

-- What a request draws: the id of a new account and `generate_random_nickname`.
pub record Draws : Type 0 where
  pub fresh_id : ℕ
  pub nickname : String

abbrev pub of_google : Draws → Found → Identity
of_google x f = record {
  provider = google;
  provider_id = f.provider_id;
  email = f.email;
  name = f.profile.name;
  fresh_id = x.fresh_id;
}

-- `full_name or generate_random_nickname()`
abbrev pub or_nickname : Draws → Option String → String
or_nickname x none = x.nickname
or_nickname x (some n) = if str_eq n "" then x.nickname else n

abbrev pub of_apple : Draws → Option String → Found → Identity
of_apple x full_name f = record {
  provider = apple;
  provider_id = f.provider_id;
  email = f.email;
  name = some (or_nickname x full_name);
  fresh_id = x.fresh_id;
}

-- The account and its tokens, if the provider vouches for a user.
abbrev pub signed_in : Keys → DateTime → Result Identity → Action Login
signed_in k now (raised e) = raise e
signed_in k now (ok i) = login k i now

abbrev pub identified : (Found → Identity) → Result Found → Result Identity
identified f (raised e) = raised e
identified f (ok u) = ok (f u)

abbrev pub answer_of : Result Identity → Option Identity
answer_of (raised e) = none
answer_of (ok i) = some i

-- The user of `google_callback`; a Google login has no nonce.
abbrev pub google_answer :
    Draws → Reply (Option String) → (String → Reply Profile) → Option String → Option Identity
google_answer x token_response user_response _ =
    answer_of (identified (of_google x) (google_web_user token_response user_response))

module _ {K : Type 0} (j : Jwt K) (s : Settings) (x : Draws) where
  -- The user of an id token, with the name for a new account, which is read after the token.
  abbrev pub with_names : Option UserJson → Found → Result Identity
  with_names user_json f =
      and_then (full_name_of user_json) (λ full_name. ok (of_apple x (some full_name) f))

  abbrev pub apple_token_user :
      Option UserJson → Visit K → Cache K → Option String → String → Result Identity
  apple_token_user user_json v c nonce token =
      and_then (verify_apple_id_token j s token nonce v c).0 (with_names user_json)

  -- `apple_oauth_flow` up to the account: the reply to the code, the id token, and then the name.
  unfoldable pub apple_web_user :
      Reply (Option String) → Option UserJson → Visit K → Cache K → Option String → Result Identity
  apple_web_user response user_json v c nonce =
      if can_sign s
      then and_then (text_of response) (apple_token_user user_json v c nonce)
      else raised (http_error 501)

module _ {K : Type 0} (j : Jwt K) (s : Settings) (k : Keys) (x : Draws) where
  -- `google_mobile_login`, with `google_mobile_auth_flow`
  unfoldable pub google_mobile_login : String → Visit K → Cache K → Action Login
  google_mobile_login token v c = do
    raise_if (not (truthy s.google_client_id)) (http_error 501)
    signed_in k v.now (identified (of_google x) (verify_google_id_token j s token v c).0)

  -- `apple_mobile_login`, with `apple_mobile_auth_flow`
  unfoldable pub apple_mobile_login : String → Option String → Visit K → Cache K → Action Login
  apple_mobile_login token full_name v c = do
    raise_if (not (truthy s.apple_client_id)) (http_error 501)
    signed_in k v.now
        (identified (of_apple x full_name) (verify_apple_id_token j s token none v c).0)

  -- `google_callback`, with `google_oauth_flow`: the reply to the code, and to an access token.
  unfoldable pub google_callback :
      String → Reply (Option String) → (String → Reply Profile) → String → DateTime → Action Bool
  google_callback state token_response user_response code now = do
    raise_if (not (truthy s.google_client_id) || not (truthy s.google_client_secret))
        (http_error 501)
    callback k state (google_answer x token_response user_response) code now

  -- `apple_callback`, with `apple_oauth_flow`
  unfoldable pub apple_callback :
      String → Reply (Option String) → Option UserJson → Visit K → Cache K → String → Action Bool
  apple_callback state response user_json v c code = do
    raise_if (not (truthy s.apple_client_id)) (http_error 501)
    callback k state (λ nonce. answer_of (apple_web_user j s x response user_json v c nonce)) code
        v.now

-- `google_login`, for a state that is drawn.
unfoldable pub google_login : Settings → String → Action (Unit {0})
google_login s state =
    raise_if (not (truthy s.google_client_id)) (http_error 501) >> create_oauth_state state none

-- `apple_login`, for a nonce and a state that are drawn.
unfoldable pub apple_login : Settings → String → String → Action (Unit {0})
apple_login s nonce state =
    raise_if (not (truthy s.apple_client_id)) (http_error 501)
    >> create_oauth_state state (some nonce)
