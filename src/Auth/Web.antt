-- ===== src/Auth/Web.antt =====
-- The web logins of src/auth/router.py: the state of a login, its callback, and the exchange of the code
-- that the callback hands out.
use logit_be.Common.{ℕ, Bool, true, false, not, Option, none, some, String, str_eq, if◌then◌else◌}
use logit_be.Clock.{DateTime}
use logit_be.Text.{truthy}
use logit_be.World.{Kept, value_of, Login}
use logit_be.World.Action.{
  Action, ok, raised, pure, raise_if, gets, or_raise, on_redis, http_error, ◌>>=◌, ◌>>◌,
}
use logit_be.Auth.{Keys, Identity, login}

abbrev set_state : String → Option (Kept String) → Action (Unit {0})
set_state state v =
    on_redis λ r. record r { oauth_states = λ s. if str_eq s state then v else r.oauth_states s }

-- The seconds for which Redis keeps a state and a code.
abbrev pub state_seconds : ℕ
state_seconds = 300

abbrev pub code_seconds : ℕ
code_seconds = 60

-- `_create_oauth_state`, for a state that is drawn; `nonce or "1"`.
unfoldable pub create_oauth_state : String → Option String → Action (Unit {0})
create_oauth_state state nonce = set_state state (
    some (record {
      value = elim nonce [ none ↦ "1" | some n ↦ if str_eq n "" then "1" else n ];
      seconds = state_seconds;
    }))

abbrev pub nonce_of : String → Option String
nonce_of v = if str_eq v "1" then none else some v

-- `_verify_oauth_state`: the value of a state is read and deleted at once.
unfoldable pub verify_oauth_state : String → Action (Option String)
verify_oauth_state state = do
  found ← gets (λ w. value_of (w.redis.oauth_states state))
  set_state state none
  raise_if (not (truthy found)) (http_error 400)
  v ← or_raise found (http_error 400)
  pure (nonce_of v)

-- `_store_temp_code_and_redirect`, for a code that is drawn.
unfoldable pub store_temp_code : String → Login → Action (Unit {0})
store_temp_code code result = on_redis λ r. record r {
  temp_codes = λ c.
      if str_eq c code
      then some (record { value = result; seconds = code_seconds })
      else r.temp_codes c;
}

-- `exchange_token`: the value of a code is read and deleted at once.
unfoldable pub exchange_token : String → Action Login
exchange_token code = do
  found ← gets (λ w. value_of (w.redis.temp_codes code))
  on_redis (λ r. record r { temp_codes = λ c. if str_eq c code then none else r.temp_codes c })
  or_raise found (http_error 400)

-- `try: m except Exception`
abbrev pub attempt : {A : Type 0} → Action A → Action (Option A)
attempt m w = let (r, w') = m w in (ok elim r [ ok a ↦ some a | raised e ↦ none ], w')

-- The part of a callback that may fail: `answer` is what the provider says for the nonce, if it does.
unfoldable pub callback_login :
    Keys → String → (Option String → Option Identity) → DateTime → Action Login
callback_login k state answer now = do
  nonce ← verify_oauth_state state
  i ← or_raise (answer nonce) (http_error 400)
  login k i now

-- `google_callback` and `apple_callback`, of a provider that is configured: whether the redirection has
-- a code, which is drawn, or an error.
unfoldable pub callback :
    Keys → String → (Option String → Option Identity) → String → DateTime → Action Bool
callback k state answer code now = do
  result ← attempt (callback_login k state answer now)
  elim result [ none ↦ pure false | some l ↦ store_temp_code code l >> pure true ]
