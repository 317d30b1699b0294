-- ===== src/Auth/Providers.antt =====
-- What Google and Apple say of a user: the flows of src/auth/service.py up to `_find_or_create_user`.
-- PyJWT and the replies of the providers are arguments.
use Prim.Native.String.{◌++◌ as str_append}
use logit_be.Common.{
  Bool, not, ◌&&◌, Option, none, some, String, List, [], ◌∷◌, str_eq, if◌then◌else◌,
}
use logit_be.Clock.{DateTime}
use logit_be.Text.{truthy}
use logit_be.World.Action.{Exception, Result, ok, raised, http_error, external}
use logit_be.Auth.Jwks.{Reply, answered, refused, failed, Cache, Attempt, same_kid, find_jwks_key}

-- The fields of a decoded id token, or of Google's answer on a user, whose subject is its `id`.
pub record Profile : Type 0 where
  pub subject : Option String
  pub email : Option String
  pub nonce : Option String
  pub name : Option String

-- `jwt.get_unverified_header` for the field `kid`, and `jwt.decode` at an instant with a key, a token,
-- the audiences and the issuers that are allowed; `none` is a `PyJWTError`.
pub record Jwt (K : Type 0) : Type 0 where
  pub header_kid : String → Option (Option String)
  pub decode : DateTime → K → String → List String → List String → Option Profile

-- `settings`
pub record Settings : Type 0 where
  pub google_client_id : Option String
  pub google_client_secret : Option String
  pub google_ios_client_id : Option String
  pub google_android_client_id : Option String
  pub apple_client_id : Option String
  pub apple_bundle_id : Option String
  pub apple_team_id : Option String
  pub apple_key_id : Option String
  pub apple_private_key : Option String

-- `[aud for aud in [...] if aud]`
abbrev pub audiences : List (Option String) → List String
audiences [] = []
audiences (none ∷ rest) = audiences rest
audiences (some a ∷ rest) =
    let others = audiences rest in if str_eq a "" then others else a ∷ others

abbrev pub google_audiences : Settings → List String
google_audiences s =
    audiences (s.google_client_id ∷ s.google_ios_client_id ∷ s.google_android_client_id ∷ [])

abbrev pub apple_audiences : Settings → List String
apple_audiences s = audiences (s.apple_client_id ∷ s.apple_bundle_id ∷ [])

abbrev pub google_issuers : List String
google_issuers = "https://accounts.google.com" ∷ "accounts.google.com" ∷ []

abbrev pub apple_issuers : List String
apple_issuers = "https://appleid.apple.com" ∷ []

abbrev pub and_then : {A B : Type 0} → Result A → (A → Result B) → Result B
and_then (raised e) f = raised e
and_then (ok a) f = f a

abbrev pub or_401 : {A : Type 0} → Option A → Result A
or_401 none = raised (http_error 401)
or_401 (some a) = ok a

-- The subject and the email, if Python takes both for true.
abbrev pub named : Exception → Option String → Option String → Result (String × String)
named e (some s) (some m) =
    if str_eq s "" then raised e else if str_eq m "" then raised e else ok (s, m)
named e _ _ = raised e

-- `if nonce and decoded.get("nonce") != nonce`
abbrev pub nonce_refused : Option String → Profile → Bool
nonce_refused nonce p = truthy nonce && not (same_kid p.nonce nonce)

-- The two attempts that a search for a key may make, and the instant of the decoding.
pub record Visit (K : Type 0) : Type 0 where
  pub first : Attempt K
  pub again : Attempt K
  pub now : DateTime

-- What a flow finds of a user: its subject, its email, and the profile.
pub record Found : Type 0 where
  pub provider_id : String
  pub email : String
  pub profile : Profile

abbrev pub found_in : Profile → String × String → Result Found
found_in p (s, m) = ok record { provider_id = s; email = m; profile = p }

abbrev pub checked : Exception → Profile → Result Found
checked e p = and_then (named e p.subject p.email) (found_in p)

-- The checks after the nonce's.
abbrev pub checked_nonce : Option String → Profile → Result Found
checked_nonce nonce p =
    if nonce_refused nonce p then raised (http_error 401) else checked (http_error 401) p

abbrev pub with_key :
    {K : Type 0} → (K → Result Found) → Result K × Cache K → Result Found × Cache K
with_key f (r, c) = (and_then r f, c)

abbrev pub with_header :
    {K : Type 0}
    → (K → Result Found)
    → Visit K
    → Cache K
    → Option (Option String)
    → Result Found × Cache K
with_header f v c none = (raised (http_error 401), c)
with_header f v c (some kid) = with_key f (find_jwks_key kid v.first v.again c)

module _ {K : Type 0} (j : Jwt K) (s : Settings) where
  abbrev pub google_claims : DateTime → String → K → Result Found
  google_claims now token key =
      and_then (or_401 (j.decode now key token (google_audiences s) google_issuers))
        (checked (http_error 401))

  -- `_verify_google_id_token`
  unfoldable pub verify_google_id_token : String → Visit K → Cache K → Result Found × Cache K
  verify_google_id_token token v c =
      with_header (google_claims v.now token) v c (j.header_kid token)

  abbrev pub apple_claims : DateTime → String → Option String → K → Result Found
  apple_claims now token nonce key =
      and_then (or_401 (j.decode now key token (apple_audiences s) apple_issuers))
        (checked_nonce nonce)

  -- `_verify_apple_id_token`
  unfoldable pub verify_apple_id_token :
      String → Option String → Visit K → Cache K → Result Found × Cache K
  verify_apple_id_token token nonce v c =
      with_header (apple_claims v.now token nonce) v c (j.header_kid token)

-- A text of a reply that has the status 200 and is not empty, else `OAuthError`.
abbrev pub text_of : Reply (Option String) → Result String
text_of (answered (some t)) = if str_eq t "" then raised (http_error 400) else ok t
text_of (answered none) = raised (http_error 400)
text_of refused = raised (http_error 400)
text_of failed = raised external

abbrev pub profile_of : Reply Profile → Result Found
profile_of (answered p) = checked (http_error 400) p
profile_of refused = raised (http_error 400)
profile_of failed = raised external

-- `google_oauth_flow` up to the account: the reply to the code, and the reply to an access token.
unfoldable pub google_web_user : Reply (Option String) → (String → Reply Profile) → Result Found
google_web_user token_response user_response =
    and_then (text_of token_response) λ access_token. profile_of (user_response access_token)

-- The four settings without which `generate_apple_client_secret` refuses.
abbrev pub can_sign : Settings → Bool
can_sign s =
    truthy s.apple_client_id
    && truthy s.apple_team_id
    && truthy s.apple_key_id
    && truthy s.apple_private_key

abbrev pub verified_token :
    {K : Type 0}
    → (String → Result Found × Cache K)
    → Cache K
    → Result String
    → Result Found × Cache K
verified_token f c (raised e) = (raised e, c)
verified_token f c (ok token) = f token

-- What `json.loads` makes of Apple's form field `user`: no JSON, JSON of another shape, or the two names.
pub data UserJson : Type 0 where
  not_json misshapen : UserJson
  names : Option String → Option String → UserJson

abbrev joined : Option String → Option String → String
joined (some a) (some b) =
    if str_eq a "" then b else if str_eq b "" then a else str_append a (str_append " " b)
joined (some a) none = a
joined none (some b) = b
joined none none = ""

abbrev pub full_name_of : Option UserJson → Result String
full_name_of none = ok ""
full_name_of (some not_json) = ok ""
full_name_of (some misshapen) = raised external
full_name_of (some (names a b)) = ok (joined a b)
