-- ===== src/Auth/Nonces.antt =====
-- The nonce of a web login with Apple, from `apple_login` through `apple_callback` to the exchange of the
-- code (src/auth/router.py and src/auth/service.py).
use logit_be.Common.{
  ℕ, ◌<◌, ◌-◌, ltb, lt→ltb, ltb→lt, inl, inr, Bool-cases, ◌≡◌, refl, ap, ◌∙◌, Bool, true, false,
  Option, none, some, String, arith, if◌then◌else◌, str_eq, eq_refl,
}
use logit_be.Clock.{DateTime}
use logit_be.World.{World, Login, Kept, elapse}
use logit_be.World.Action.{
  Result, ok, raised, http_error, Action, or_raise, pure, ◌>>=◌, ◌>>◌, >>=-of_ok,
}
use logit_be.Text.{truthy}
use logit_be.Auth.{Keys, Identity, login}
use logit_be.Auth.Web.{
  state_seconds, nonce_of, verify_oauth_state, create_oauth_state, callback_login, callback,
  attempt, store_temp_code,
}
use logit_be.Auth.Exchange.{cleared, verified, unverified}
use logit_be.Auth.Jwks.{Reply, answered, refused, failed, Cache, same_kid}
use logit_be.Auth.Providers.{
  Profile, Jwt, Settings, Visit, Found, UserJson, and_then, checked_nonce, apple_audiences,
  apple_issuers, apple_claims, verify_apple_id_token, text_of, can_sign,
}
use logit_be.Auth.Vouched.{decoded, with_header-IsChecked}
use logit_be.Auth.Flows.{
  Draws, answer_of, apple_web_user, apple_callback, apple_login, with_names, apple_token_user,
}

inverted :
    {A B : Type 0} (r : Result A) (f : A → Result B) (b : B)
    → and_then r f ≡ ok b
    → (a : A) × (r ≡ ok a) × (f a ≡ ok b)
inverted (raised x) f b e = absurd (ground arith)
inverted (ok a) f b e = (a, refl, e)

text_of_lem : (r : Reply (Option String)) (t : String) → text_of r ≡ ok t → r ≡ answered (some t)
text_of_lem (answered none) t e = absurd (ground arith)
text_of_lem (answered (some u)) t e = ground arith
text_of_lem refused t e = absurd (ground arith)
text_of_lem failed t e = absurd (ground arith)

signed :
    (b : Bool) (r : Result Identity) (i : Identity)
    → (if b then r else raised (http_error 501)) ≡ ok i
    → r ≡ ok i
signed true r i e = e
signed false r i e = absurd (ground arith)

answer_of_lem : (r : Result Identity) (i : Identity) → answer_of r ≡ some i → r ≡ ok i
answer_of_lem (raised x) i e = absurd (ground arith)
answer_of_lem (ok a) i e = ground arith

-- A state that Redis has, of a user that the provider does not vouch for.
unanswered :
    (k : Keys) (state : String) (v : Kept String) (code : String)
    (answer : Option String → Option Identity) (now : DateTime) (w : World)
    → w.redis.oauth_states state ≡ some v
    → str_eq v.value "" ≡ false
    → answer (nonce_of v.value) ≡ none
    → callback k state answer code now w ≡ (ok false, cleared state w)
unfolding callback callback_login
unanswered k state v code answer now w e h a =
    let inside : callback_login k state answer now w ≡ (raised (http_error 400), cleared state w) =
      >>=-of_ok (verify_oauth_state state)
        (λ nonce. or_raise (answer nonce) (http_error 400) >>= λ i. login k i now) w
        (verified state v w e h)
      ∙ ap
          (λ (o : Option Identity).
            (or_raise o (http_error 400) >>= λ i. login k i now) (cleared state w))
          a in
    let redirect : Option Login → Action Bool =
      λ o. elim o [ none ↦ pure false | some x ↦ store_temp_code code x >> pure true ] in
    >>=-of_ok (attempt (callback_login k state answer now)) redirect w (
      ap
        (λ (r : Result Login × World).
          (ok (elim r.0 as (λ _. Option Login) [ ok x ↦ some x | raised y ↦ none ]), r.1))
        inside)

-- A nonce that `apple_login` draws: it is neither empty nor the mark of a login without one.
pub record IsDrawn (nonce : String) : Type 0 where
  pub not_empty : str_eq nonce "" ≡ false
  pub not_mark : str_eq nonce "1" ≡ false

-- Redis has a state with a nonce.
abbrev pub issued : String → String → World → World
issued state nonce w =
    let r = w.redis in
    record w {
      redis = record r {
        oauth_states = λ k.
            if str_eq k state
            then some (record { value = nonce; seconds = state_seconds })
            else r.oauth_states k;
      };
    }

pub issued_state :
    (state nonce : String) (n : ℕ) (w : World)
    → n < state_seconds
    → (elapse n (issued state nonce w)).redis.oauth_states state
      ≡ some (record { value = nonce; seconds = state_seconds - n })
issued_state state nonce n w h = rw (eq_refl state) rw (lt→ltb n state_seconds h) refl

-- After five minutes it is gone.
expired_state :
    (state nonce : String) (n : ℕ) (w : World)
    → ltb n state_seconds ≡ false
    → (elapse n (issued state nonce w)).redis.oauth_states state ≡ none
expired_state state nonce n w h = rw (eq_refl state) rw h refl

pub started :
    (s : Settings) (nonce state : String) (w : World)
    → truthy s.apple_client_id ≡ true
    → str_eq nonce "" ≡ false
    → apple_login s nonce state w ≡ (ok tt, issued state nonce w)
unfolding apple_login create_oauth_state
started s nonce state w set a = rw (set, a) refl

module _ {K : Type 0} (j : Jwt K) (s : Settings) where
  -- No token of the reply has the nonce.
  abbrev pub Others : Reply (Option String) → Visit K → String → Type 0
  Others response v nonce =
      (token : String)
      → response ≡ answered (some token)
      → (key : K) (p : Profile)
      → j.decode v.now key token (apple_audiences s) apple_issuers ≡ some p
      → same_kid p.nonce (some nonce) ≡ false

  refused_nonce :
      (nonce : String) (p : Profile) (f : Found)
      → str_eq nonce "" ≡ false
      → same_kid p.nonce (some nonce) ≡ false
      → checked_nonce (some nonce) p ≡ ok f
      → ⊥
  refused_nonce nonce p f a b e = ground arith

  verified_user :
      (token nonce : String) (v : Visit K) (c : Cache K) (f : Found)
      → str_eq nonce "" ≡ false
      → ((key : K) (p : Profile)
          → j.decode v.now key token (apple_audiences s) apple_issuers ≡ some p
          → same_kid p.nonce (some nonce) ≡ false)
      → (verify_apple_id_token j s token (some nonce) v c).0 ≡ ok f
      → ⊥
  unfolding verify_apple_id_token
  verified_user token nonce v c f a others e =
      let h =
        with_header-IsChecked (apple_claims j s v.now token (some nonce)) v c (j.header_kid token) f
          e in
      let d =
        decoded (j.decode v.now h.key token (apple_audiences s) apple_issuers)
          (checked_nonce (some nonce)) f h.claims in
      refused_nonce nonce d.0 f a (others h.key d.0 d.1) d.2

  no_user :
      (x : Draws) (response : Reply (Option String)) (user_json : Option UserJson) (v : Visit K)
      (c : Cache K) (nonce : String) (i : Identity)
      → str_eq nonce "" ≡ false
      → Others response v nonce
      → apple_web_user j s x response user_json v c (some nonce) ≡ ok i
      → ⊥
  unfolding apple_web_user
  no_user x response user_json v c nonce i a others e =
      let exchange = apple_token_user j s x user_json v c (some nonce) in
      let p =
        inverted (text_of response) exchange i
          (signed (can_sign s) (and_then (text_of response) exchange) i e) in
      let q =
        inverted (verify_apple_id_token j s p.0 (some nonce) v c).0 (with_names j s x user_json) i
          p.2 in
      verified_user p.0 nonce v c q.0 a (others p.0 (text_of_lem response p.0 p.1)) q.1

  pub called :
      (k : Keys) (x : Draws) (state code : String) (response : Reply (Option String))
      (user_json : Option UserJson) (v : Visit K) (c : Cache K) (w : World)
      → truthy s.apple_client_id ≡ true
      → apple_callback j s k x state response user_json v c code w
        ≡ callback k state
            (λ n. answer_of (apple_web_user j s x response user_json v c n))
            code
            v.now
            w
  unfolding apple_callback
  called k x state code response user_json v c w set = rw set refl

  nobody :
      (x : Draws) (response : Reply (Option String)) (user_json : Option UserJson) (v : Visit K)
      (c : Cache K) (nonce : String) (r : Option Identity)
      → str_eq nonce "" ≡ false
      → Others response v nonce
      → answer_of (apple_web_user j s x response user_json v c (some nonce)) ≡ r
      → r ≡ none
  nobody x response user_json v c nonce none a others e = refl
  nobody x response user_json v c nonce (some i) a others e = absurd (
      no_user x response user_json v c nonce i a others
        (answer_of_lem (apple_web_user j s x response user_json v c (some nonce)) i e))

  -- After `apple_login` with a nonce, a callback with its state, at any time, whose id token, as far as `jwt.decode` accepts
  -- it, has another nonce ends with the error, changes nothing in the database, and the state is used up.
  pub other_nonce_refused :
      (k : Keys) (x : Draws) (nonce state code : String) (response : Reply (Option String))
      (user_json : Option UserJson) (v : Visit K) (c : Cache K) (n : ℕ) (w : World)
      → truthy s.apple_client_id ≡ true
      → IsDrawn nonce
      → Others response v nonce
      → let w1 = elapse n (apple_login s nonce state w).1 in
        let r = apple_callback j s k x state response user_json v c code w1 in
        (r.0 ≡ ok false) × (r.1.db ≡ w.db) × (r.1.redis.oauth_states state ≡ none)
  other_nonce_refused k x nonce state code response user_json v c n w set drawn others =
      let answer : Option String → Option Identity =
        λ m. answer_of (apple_web_user j s x response user_json v c m) in
      let none_there : answer (nonce_of nonce) ≡ none =
        rw drawn.not_mark (
          nobody x response user_json v c nonce (answer (some nonce)) drawn.not_empty others
            refl) in
      let w1 = elapse n (issued state nonce w) in
      let error : callback k state answer code v.now w1 ≡ (ok false, cleared state w1) =
        elim (Bool-cases (ltb n state_seconds)) [
          | inl a ↦
              unanswered k state (record { value = nonce; seconds = state_seconds - n }) code answer
                v.now w1 (issued_state state nonce n w (ltb→lt n state_seconds a)) drawn.not_empty
                none_there
          | inr a ↦ unverified k state answer code v.now w1 (expired_state state nonce n w a)
        ] in
      rw
        (
          started s nonce state w set drawn.not_empty,
          called k x state code response user_json v c w1 set,
          error,
        )
        (refl, refl, rw (eq_refl state) refl)
