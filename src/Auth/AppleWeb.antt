-- ===== src/Auth/AppleWeb.antt =====
-- A web login with Apple, from `apple_login` through `apple_callback` to the exchange of the code
-- (src/auth/router.py and src/auth/service.py).
use logit_be.Common.{
  ℕ, ◌<◌, ◌-◌, ◌≡◌, refl, ap, Bool, true, false, Option, some, String, arith, str_eq, eq_refl,
}
use logit_be.World.{World, elapse}
use logit_be.World.Action.{ok}
use logit_be.Text.{truthy}
use logit_be.Auth.{Keys, Identity, create_refresh_token}
use logit_be.Auth.Accounts.{login_of, Holds}
use logit_be.Auth.Web.{state_seconds, code_seconds, nonce_of, callback, exchange_token}
use logit_be.Auth.Exchange.{web_login}
use logit_be.Auth.Jwks.{Reply, answered, Cache, find_jwks_key}
use logit_be.Auth.Providers.{
  Profile, Jwt, Settings, Visit, Found, UserJson, checked_nonce, apple_audiences, apple_issuers,
  verify_apple_id_token, can_sign, full_name_of,
}
use logit_be.Auth.Flows.{Draws, of_apple, answer_of, apple_web_user, apple_callback, apple_login}
use logit_be.Auth.Nonces.{IsDrawn, issued, issued_state, started, called}

module _ {K : Type 0} (j : Jwt K) (s : Settings) where
  -- What the code and the id token of a login come to: the settings sign, Apple answers a token, a published
  -- key checks it, and it has the nonce, a subject and an email.
  pub record IsAccepted (response : Reply (Option String)) (user_json : Option UserJson)
      (v : Visit K) (c : Cache K) (nonce email : String) : Type 0 where
    pub signs : can_sign s ≡ true
    pub token : String
    pub has_token : str_eq token "" ≡ false
    pub replied : response ≡ answered (some token)
    pub kid : Option String
    pub key : K
    pub header : j.header_kid token ≡ some kid
    pub key_found : (find_jwks_key kid v.first v.again c).0 ≡ ok key
    pub profile : Profile
    pub decodes : j.decode v.now key token (apple_audiences s) apple_issuers ≡ some profile
    pub same_nonce : profile.nonce ≡ some nonce
    pub subject : String
    pub has_subject : str_eq subject "" ≡ false
    pub of_subject : profile.subject ≡ some subject
    pub has_email : str_eq email "" ≡ false
    pub of_email : profile.email ≡ some email
    pub full_name : String
    pub name_read : full_name_of user_json ≡ ok full_name

  module _ (x : Draws) (response : Reply (Option String)) (user_json : Option UserJson)
      (v : Visit K) (c : Cache K) (nonce email : String) (drawn : IsDrawn nonce)
      (h : IsAccepted response user_json v c nonce email) where
    abbrev user : Found
    user = record { provider_id = h.subject; email = email; profile = h.profile }

    claims_of : checked_nonce (some nonce) h.profile ≡ ok user
    claims_of =
        rw
          (
            h.same_nonce,
            h.of_subject,
            h.of_email,
            eq_refl nonce,
            drawn.not_empty,
            h.has_subject,
            h.has_email,
          )
          refl

    verified_user : (verify_apple_id_token j s h.token (some nonce) v c).0 ≡ ok user
    unfolding verify_apple_id_token
    verified_user = rw (h.header) rw (h.key_found, h.decodes) claims_of

    accepted_user :
        apple_web_user j s x response user_json v c (some nonce)
        ≡ ok (of_apple x (some h.full_name) user)
    unfolding apple_web_user
    accepted_user = rw (h.signs, h.replied, h.has_token, verified_user, h.name_read) refl

  -- After `apple_login` with a nonce, a callback within 300 seconds with its state and an accepted id token
  -- with this nonce hands out a code, which is exchanged within 60 seconds for tokens of the active user of
  -- the token's email, who holds that refresh token; and the same state again, at any time, ends with the
  -- error, whatever comes with it, and changes nothing in the database.
  pub apple_web_login :
      (k : Keys) (x : Draws) (response : Reply (Option String)) (user_json : Option UserJson)
      (v : Visit K) (c : Cache K) (nonce email state code : String) (w : World) (x' : Draws)
      (response' : Reply (Option String)) (user_json' : Option UserJson) (v' : Visit K)
      (c' : Cache K) (code' : String) (n m l : ℕ)
      → IsDrawn nonce
      → IsAccepted response user_json v c nonce email
      → n < state_seconds
      → m < code_seconds
      → let w1 = elapse n (apple_login s nonce state w).1 in
        let r = apple_callback j s k x state response user_json v c code w1 in
        let again = apple_callback j s k x' state response' user_json' v' c' code' (elapse l r.1) in
        (u : ℕ) × (b : Bool) × (r.0 ≡ ok true)
        × ((exchange_token code (elapse m r.1)).0 ≡ ok (login_of k u b v.now))
        × Holds email (create_refresh_token k u v.now) u r.1.db
        × (again.0 ≡ ok false)
        × (again.1.db ≡ r.1.db)
  apple_web_login k x response user_json v c nonce email state code w x' response' user_json' v' c'
        code' n m l drawn h soon exchanged =
      let set : truthy s.apple_client_id ≡ true = ground arith in
      let answer : Option String → Option Identity =
        λ m. answer_of (apple_web_user j s x response user_json v c m) in
      let answer' : Option String → Option Identity =
        λ m. answer_of (apple_web_user j s x' response' user_json' v' c' m) in
      let w1 = elapse n (issued state nonce w) in
      let i = of_apple x (some h.full_name) (user x response user_json v c nonce email drawn h) in
      let answered_i : answer (nonce_of nonce) ≡ some i =
        rw drawn.not_mark
          (ap answer_of (accepted_user x response user_json v c nonce email drawn h)) in
      rw
        (
          started s nonce state w set drawn.not_empty,
          called j s k x state code response user_json v c w1 set,
          called j s k x' state code' response' user_json' v' c'
              (elapse l (callback k state answer code v.now w1).1) set,
        )
        (web_login k state (record { value = nonce; seconds = state_seconds - n }) code answer v.now
          w1 i answer' code' v'.now m l (issued_state state nonce n w soon) drawn.not_empty
          answered_i exchanged)
