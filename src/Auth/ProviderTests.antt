-- ===== src/Auth/ProviderTests.antt =====
-- Runs of the logins of Google and Apple, and their theorems at those inputs.
use logit_be.Common.{
  Option, ℕ, ◌≡◌, refl, ap, subst, Bool, true, false, none, some, [], ◌∷◌, str_eq, if◌then◌else◌,
  arith, ◌==◌,
}
use logit_be.World.{elapse, World, Login}
use logit_be.World.Action.{ok}
use logit_be.Auth.{
  login, find_or_create_user, find_or_create, create_oauth_user, conclude_creation,
  generate_tokens_for_user, update_refresh_token, create_refresh_token,
}
use logit_be.Tokens.{grant_signup_bonus}
use logit_be.Auth.Accounts.{login_of, Holds}
use logit_be.Auth.Web.{
  callback, callback_login, verify_oauth_state, create_oauth_state, store_temp_code, exchange_token,
}
use logit_be.Auth.Jwks.{same_kid, KeySet, keys, answered, Cache, Attempt, find_jwks_key, get_jwks}
use logit_be.Auth.Providers.{
  Profile, Jwt, Settings, Visit, Found, names, google_audiences, google_issuers,
  verify_google_id_token, verify_apple_id_token,
}
use logit_be.Auth.Flows.{
  google_login, apple_web_user, Draws, google_mobile_login, apple_callback, apple_login,
}
use logit_be.Auth.Vouched.{IsVouched, Signs, by_google, mobile_login-IsVouched}
use logit_be.Auth.Nonces.{Others, IsDrawn, other_nonce_refused}
use logit_be.Auth.AppleWeb.{IsAccepted, apple_web_login}
use logit_be.Auth.Tests.{keys as signer, start, at_micro}

-- Two key sets, before and after a rotation; a key is a number.
abbrev old_set : KeySet ℕ
old_set = keys (record { kid = some "a"; key = some 1 } ∷ [])

abbrev new_set : KeySet ℕ
new_set = keys (record { kid = some "b"; key = some 2 } ∷ [])

abbrev cache : Cache ℕ
cache = record { held = some old_set; fetched_at = 5 }

-- A call of the key set at an instant, and its answer.
abbrev asked : ℕ → KeySet ℕ → Attempt ℕ
asked t set = record { now = t; reply = answered set }

abbrev profile : Profile
profile = record { subject = some "s1"; email = some "new@b.c"; nonce = some "n"; name = none }

-- A library that takes the token `t`, with key 2.
abbrev jwt : Jwt ℕ
jwt = record {
  header_kid = λ t. if str_eq t "t" then some (some "b") else none;
  decode = λ now key t auds issuers.
      if key == 2 then if str_eq t "t" then some profile else none else none;
}

abbrev settings : Settings
settings = record {
  google_client_id = some "g";
  google_client_secret = some "gs";
  google_ios_client_id = none;
  google_android_client_id = none;
  apple_client_id = some "ap";
  apple_bundle_id = some "";
  apple_team_id = some "team";
  apple_key_id = some "key";
  apple_private_key = some "pem";
}

abbrev visit : Visit ℕ
visit = record { first = asked 6 new_set; again = asked 7 new_set; now = at_micro 0 }

abbrev draws : Draws
draws = record { fresh_id = 9; nickname = "Lucky Fox" }

abbrev mobile : Login
mobile = login_of signer 9 true (at_micro 0)

abbrev after_mobile : World
after_mobile = (google_mobile_login jwt settings signer draws "t" visit cache start).1

google_login_runs :
    google_mobile_login jwt settings signer draws "t" visit cache start ≡ (ok mobile, after_mobile)
unfolding google_mobile_login verify_google_id_token find_jwks_key get_jwks login
    find_or_create_user find_or_create create_oauth_user conclude_creation generate_tokens_for_user
    update_refresh_token grant_signup_bonus
google_login_runs = refl

mobile_login-IsVouched_example :
    (f : Found) × IsVouched jwt "t" (google_audiences settings) google_issuers visit cache f
    × Signs signer (at_micro 0) f.email mobile after_mobile
mobile_login-IsVouched_example =
    mobile_login-IsVouched jwt settings signer "t" visit cache start mobile after_mobile
      (google_audiences settings) google_issuers (by_google draws google_login_runs)

either_way :
    (a b : Bool) (p : Profile)
    → (if a then if b then some profile else none else none) ≡ some p
    → same_kid p.nonce (some "m") ≡ false
either_way false b p d = absurd (ground arith)
either_way true false p d = absurd (ground arith)
either_way true true p d =
    subst (λ (q : Profile). same_kid q.nonce (some "m") ≡ false)
      (ap (λ (o : Option Profile). elim o [ none ↦ profile | some q ↦ q ]) d) refl

-- No token has the nonce `m`.
other_profile : Others jwt settings (answered (some "t")) visit "m"
other_profile token e key p d = either_way (key == 2) (str_eq token "t") p d

n-IsDrawn : IsDrawn "n"
n-IsDrawn = record { not_empty = refl; not_mark = refl }

m-IsDrawn : IsDrawn "m"
m-IsDrawn = record { not_empty = refl; not_mark = refl }

t-IsAccepted :
    IsAccepted jwt settings
      (answered (some "t"))
      (some (names (some "A") none))
      visit
      cache
      "n"
      "new@b.c"
unfolding find_jwks_key get_jwks
t-IsAccepted = record {
  signs = refl;
  token = "t";
  has_token = refl;
  replied = refl;
  kid = some "b";
  key = 2;
  header = refl;
  key_found = refl;
  profile = profile;
  decodes = refl;
  same_nonce = refl;
  subject = "s1";
  has_subject = refl;
  of_subject = refl;
  has_email = refl;
  of_email = refl;
  full_name = "A";
  name_read = refl;
}

other_nonce_refused_example :
    let w1 = elapse 30 (apple_login settings "m" "st" start).1 in
    let r =
      apple_callback jwt settings signer draws "st" (answered (some "t")) none visit cache "c" w1 in
    (r.0 ≡ ok false) × (r.1.db ≡ start.db) × (r.1.redis.oauth_states "st" ≡ none)
other_nonce_refused_example =
    other_nonce_refused jwt settings signer draws "m" "st" "c" (answered (some "t")) none visit
      cache 30 start refl m-IsDrawn other_profile

apple_web_login_example :
    let json = some (names (some "A") none) in
    let w1 = elapse 299 (apple_login settings "n" "st" start).1 in
    let r =
      apple_callback jwt settings signer draws "st" (answered (some "t")) json visit cache "c" w1 in
    let again =
      apple_callback jwt settings signer draws "st"
        (answered (some "t"))
        json
        visit
        cache
        "d"
        (elapse 5 r.1) in
    (u : ℕ) × (b : Bool) × (r.0 ≡ ok true)
    × ((exchange_token "c" (elapse 59 r.1)).0 ≡ ok (login_of signer u b (at_micro 0)))
    × Holds "new@b.c" (create_refresh_token signer u (at_micro 0)) u r.1.db
    × (again.0 ≡ ok false)
    × (again.1.db ≡ r.1.db)
apple_web_login_example =
    apple_web_login jwt settings signer draws (answered (some "t")) (some (names (some "A") none))
      visit cache "n" "new@b.c" "st" "c" start draws (answered (some "t"))
      (some (names (some "A") none)) visit cache "d" 299 59 5 n-IsDrawn t-IsAccepted (omega arith)
      (omega arith)

-- A state of Google is taken by the callback of Apple, and the nonce of the token is not looked at.
google_state :
    (apple_callback jwt settings signer draws "st"
      (answered (some "t"))
      none
      visit
      cache
      "c"
      (google_login settings "st" start).1).0
    ≡ ok true
unfolding google_login apple_callback callback callback_login verify_oauth_state create_oauth_state
    apple_web_user verify_apple_id_token find_jwks_key get_jwks login find_or_create_user
    find_or_create create_oauth_user conclude_creation generate_tokens_for_user update_refresh_token
    grant_signup_bonus store_temp_code
google_state = refl
