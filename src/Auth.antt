-- ===== src/Auth.antt =====
-- src/auth/service.py, src/auth/router.py, src/users/service.py and the tokens of src/security.py: log
-- in, the exchange of the code of a web login, renewal of tokens, log out, and withdrawal. What Google
-- and Apple say of a user is an argument, and so are PyJWT and the random ids and codes.
pub mod Sessions
pub mod Rotation
pub mod Accounts
pub mod Web
pub mod Users
pub mod Emails
pub mod Exchange
pub mod Jwks
pub mod Providers
pub mod Flows
pub mod KnownKeys
pub mod Vouched
pub mod Nonces
pub mod AppleWeb
pub mod Tests
pub mod ProviderTests
pub mod EmailTests
use logit_be.Common.{
  ℕ, ◌+◌, ◌*◌, ◌/◌, ◌%◌, ◌-◌, Bool, true, false, not, ◌&&◌, ◌==◌, Option, none, some, String, List,
  [], ◌∷◌, str_eq, where_rows, update_rows, first_row, if◌then◌else◌,
}
use logit_be.Clock.{DateTime, add_days, day_micros}
use logit_be.Rows.User.{User, OAuthProvider, provider_eq}
use logit_be.World.{Db, World, Login}
use logit_be.World.Action.{
  Action, Exception, Result, ok, raised, pure, raise, raise_if, execute, gets, write, commit,
  rollback, or_raise, on_redis, http_error, integrity_error, ◌>>=◌, ◌>>◌,
}
use logit_be.Text.{truthy}
use logit_be.Tokens.{grant_signup_bonus}

-- What a token says. `create_access_token` and `create_refresh_token` write it, `verify_token` reads it.
pub record Claims : Type 0 where
  pub exp : DateTime
  pub sub : ℕ
  pub type : String

-- `jwt.encode` and, at an instant, `jwt.decode` with the secret key, where `none` is an
-- `InvalidTokenError`; and two settings.
pub record Keys : Type 0 where
  pub encode : Claims → String
  pub decode : DateTime → String → Option Claims
  pub refresh_token_expire_days : ℕ
  pub access_token_expire_minutes : ℕ

-- `d + timedelta(minutes=m)`
abbrev add_minutes : ℕ → DateTime → DateTime
add_minutes m d =
    let t = d.clock + m * 60000000 in
    record (add_days (t / day_micros) d) { clock = t % day_micros }

-- The claim `exp` counts whole seconds.
abbrev pub whole_seconds : DateTime → DateTime
whole_seconds d = record d { clock = d.clock / 1000000 * 1000000 }

unfoldable pub create_access_token : Keys → ℕ → DateTime → String
create_access_token k u now = k.encode record {
  exp = whole_seconds (add_minutes k.access_token_expire_minutes now);
  sub = u;
  type = "access";
}

unfoldable pub create_refresh_token : Keys → ℕ → DateTime → String
create_refresh_token k u now = k.encode record {
  exp = whole_seconds (add_days k.refresh_token_expire_days now);
  sub = u;
  type = "refresh";
}

unfoldable pub verify_token : Keys → DateTime → String → String → Option ℕ
verify_token k now token token_type = elim (k.decode now token) [
  | none ↦ none
  | some c ↦ if str_eq c.type token_type then some c.sub else none
]

abbrev pub has_id : ℕ → User → Bool
has_id u x = x.id == u

-- `get_user_by_id`, `get_user_by_email` and `get_user_by_oauth`
abbrev pub get_user_by_id : ℕ → Db → Option User
get_user_by_id u d = first_row (has_id u) d.users

abbrev pub get_user_by_email : String → Db → Option User
get_user_by_email email d = first_row (λ x. str_eq x.email email) d.users

abbrev by_provider : OAuthProvider → String → User → Bool
by_provider p id x =
    elim x.oauth_provider [ none ↦ false | some q ↦ provider_eq q p ]
    && elim x.oauth_provider_id [ none ↦ false | some i ↦ str_eq i id ]

abbrev pub get_user_by_oauth : OAuthProvider → String → Db → Option User
get_user_by_oauth p id d = first_row (by_provider p id) d.users

-- A change of the row of a user.
abbrev pub save_user : ℕ → (User → User) → Action (Unit {0})
save_user u f = write (λ d. record d { users = update_rows (has_id u) f d.users })

unfoldable pub update_refresh_token : ℕ → String → Action (Unit {0})
update_refresh_token u token = save_user u (λ x. record x { refresh_token = some token }) >> commit

-- `delete_user`, of the user that the access token named.
unfoldable pub delete_user : ℕ → Action (Unit {0})
delete_user u = do
  x ← execute (get_user_by_id u)
  elim x [
    | none ↦ pure tt
    | some y ↦ save_user u (λ x. record x { is_active = false; refresh_token = none }) >> commit
  ]

-- `get_current_user`
unfoldable pub get_current_user : Keys → DateTime → String → Action User
get_current_user k now token = do
  u ← or_raise (verify_token k now token "access") (http_error 401)
  x ← execute (get_user_by_id u)
  user ← or_raise x (http_error 404)
  raise_if (not user.is_active) (http_error 400)
  pure user

-- What a provider says of the user, and the id for a new account.
pub record Identity : Type 0 where
  pub provider : OAuthProvider
  pub provider_id : String
  pub email : String
  pub name : Option String
  pub fresh_id : ℕ

abbrev pub new_user : Identity → User
new_user i = record {
  id = i.fresh_id;
  email = i.email;
  full_name = i.name;
  is_active = true;
  oauth_provider = some i.provider;
  oauth_provider_id = some i.provider_id;
  referral_code = none;
  referred_by_user_id = none;
  refresh_token = none;
}

abbrev pub is_some {ℓ} : {A : Type ℓ} → Option A → Bool
is_some none = false
is_some (some a) = true

-- `create_oauth_user`; emails are unique.
unfoldable pub create_oauth_user : Identity → Action User
create_oauth_user i = do
  taken ← execute (get_user_by_email i.email)
  raise_if (is_some taken) integrity_error
  write (λ d. record d { users = new_user i ∷ d.users })
  commit
  pure (new_user i)

-- After the `IntegrityError` of an account that was made meanwhile.
unfoldable pub after_conflict : Identity → Action (User × Bool)
after_conflict i = do
  rollback
  existing ← execute (get_user_by_oauth i.provider i.provider_id)
  elim existing [ none ↦ raise (http_error 400) | some u ↦ pure (u, false) ]

-- What the creation gave: the bonus of a new account, or the conflict.
unfoldable pub conclude_creation : Identity → DateTime → Option User → Action (User × Bool)
conclude_creation i now none = after_conflict i
conclude_creation i now (some u) = grant_signup_bonus u.id now >> pure (u, true)

abbrev pub caught : Result User → Option User
caught (ok u) = some u
caught (raised e) = none

-- `try: m except IntegrityError`, for an `m` that raises no other.
abbrev pub try_create : Action User → Action (Option User)
try_create m w = let (r, w') = m w in (ok (caught r), w')

-- From the account that was found for the email, if any.
unfoldable pub find_or_create : Identity → DateTime → Option User → Action (User × Bool)
find_or_create i now none = try_create (create_oauth_user i) >>= conclude_creation i now
find_or_create i now (some u) =
    if u.is_active
    then pure (u, false)
    else (save_user u.id (λ x. record x { is_active = true })
        >> commit
        >> pure ((record u { is_active = true }), false))

-- `_find_or_create_user`
unfoldable pub find_or_create_user : Identity → DateTime → Action (User × Bool)
find_or_create_user i now = execute (get_user_by_email i.email) >>= find_or_create i now

-- `_generate_tokens_for_user`
unfoldable pub generate_tokens_for_user : Keys → DateTime → User × Bool → Action Login
generate_tokens_for_user k now (u, is_new) =
    update_refresh_token u.id (create_refresh_token k u.id now)
    >> pure (record {
      is_new_user = is_new;
      access_token = create_access_token k u.id now;
      refresh_token = create_refresh_token k u.id now;
    })

-- The end of the four login flows, of a user that the provider vouches for.
unfoldable pub login : Keys → Identity → DateTime → Action Login
login k i now = find_or_create_user i now >>= generate_tokens_for_user k now

-- The token of a request: from the header if it has one, else from the cookie.
abbrev pub actual_token : Option String → Option String → Option String
actual_token none cookie = cookie
actual_token (some t) cookie = if str_eq t "" then cookie else some t

checked_user : Option User → String → Action User
checked_user none token = raise (http_error 404)
checked_user (some x) token =
    if not elim x.refresh_token [ none ↦ false | some t ↦ str_eq t token ]
    then raise (http_error 401)
    else if not x.is_active
    then raise (http_error 400)
    else pure x

-- `refresh_access_token` with a token: the new access token and the new refresh token.
unfoldable pub refresh_with : Keys → String → DateTime → Action (String × String)
unfolding checked_user
refresh_with k token now = do
  raise_if (str_eq token "") (http_error 401)
  u ← or_raise (verify_token k now token "refresh") (http_error 401)
  x ← execute (get_user_by_id u)
  user ← checked_user x token
  update_refresh_token user.id (create_refresh_token k user.id now)
  pure (create_access_token k user.id now, create_refresh_token k user.id now)

-- `refresh_access_token`
unfoldable pub refresh_access_token :
    Keys → Option String → Option String → DateTime → Action (String × String)
refresh_access_token k bearer cookie now = elim (actual_token bearer cookie) [
  | none ↦ raise (http_error 401)
  | some token ↦ refresh_with k token now
]

-- `logout` with a token.
unfoldable pub logout_with : Keys → String → DateTime → Action (Unit {0})
logout_with k token now =
    if str_eq token "" then pure tt else elim (verify_token k now token "refresh") [
      | none ↦ pure tt
      | some u ↦ execute (get_user_by_id u) >>= λ x. elim x [
        | none ↦ pure tt
        | some y ↦ update_refresh_token u ""
      ]
    ]

-- `logout`
unfoldable pub logout : Keys → Option String → Option String → DateTime → Action (Unit {0})
logout k bearer cookie now = elim (actual_token bearer cookie) [
  | none ↦ pure tt
  | some token ↦ logout_with k token now
]
