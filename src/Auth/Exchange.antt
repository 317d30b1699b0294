-- ===== src/Auth/Exchange.antt =====
-- The code of a web login (`_store_temp_code_and_redirect` and `exchange_token` of src/auth/router.py).
use logit_be.Common.{
  false, true, Bool, Option, ℕ, ◌<◌, lt→ltb, ◌≡◌, refl, none, some, String, ap, sym, subst, ◌∙◌,
  str_eq, if◌then◌else◌, arith, eq_refl,
}
use logit_be.World.{Db, Redis, World, Login, Kept, left_after, elapse}
use logit_be.World.Action.{
  Action, Result, ok, raised, pure, or_raise, http_error, ◌>>=◌, ◌>>◌, >>=-of_ok,
}
use logit_be.Clock.{DateTime}
use logit_be.Auth.{Keys, Identity, create_refresh_token, login}
use logit_be.Auth.Accounts.{login_of, Holds, login-Holds, login_redis}
use logit_be.Auth.Web.{
  code_seconds, nonce_of, attempt, verify_oauth_state, callback, callback_login, store_temp_code,
  exchange_token,
}

-- The state of a login is taken out of Redis.
abbrev pub cleared : String → World → World
cleared state w =
    let r = w.redis in
    record w {
      redis = record r { oauth_states = λ s. if str_eq s state then none else r.oauth_states s };
    }

pub verified :
    (state : String) (v : Kept String) (w : World)
    → w.redis.oauth_states state ≡ some v
    → str_eq v.value "" ≡ false
    → verify_oauth_state state w ≡ (ok (nonce_of v.value), cleared state w)
unfolding verify_oauth_state
verified state v w e h = ground arith

pub unverified :
    (k : Keys) (state : String) (answer : Option String → Option Identity) (code : String)
    (now : DateTime) (w : World)
    → w.redis.oauth_states state ≡ none
    → callback k state answer code now w ≡ (ok false, cleared state w)
unfolding callback callback_login verify_oauth_state
unverified k state answer code now w e = ground arith

stored_ok :
    (code : String) (l : Login) (w : World)
    → (store_temp_code code l >> pure true) w ≡ (ok true, (store_temp_code code l w).1)
unfolding store_temp_code
stored_ok code l w = refl

-- From the state on.
runs :
    (k : Keys) (state : String) (v : Kept String) (code : String)
    (answer : Option String → Option Identity) (now : DateTime) (w : World) (i : Identity)
    (l : Login)
    → w.redis.oauth_states state ≡ some v
    → str_eq v.value "" ≡ false
    → answer (nonce_of v.value) ≡ some i
    → (login k i now (cleared state w)).0 ≡ ok l
    → callback k state answer code now w
      ≡ (ok true, (store_temp_code code l (login k i now (cleared state w)).1).1)
unfolding callback callback_login
runs k state v code answer now w i l e h a logged =
    let w0 = cleared state w in
    let w2 = (login k i now w0).1 in
    let identified : Option String → Action Login =
      λ nonce. or_raise (answer nonce) (http_error 400) >>= λ j. login k j now in
    let inside : callback_login k state answer now w ≡ (ok l, w2) =
      >>=-of_ok (verify_oauth_state state) identified w (verified state v w e h)
      ∙ >>=-of_ok (or_raise (answer (nonce_of v.value)) (http_error 400)) (λ j. login k j now) w0
          (ap (λ (o : Option Identity). or_raise o (http_error 400) w0) a)
      ∙ ap (λ (r : Result Login). (r, w2)) logged in
    let redirect : Option Login → Action Bool =
      λ o. elim o [ none ↦ pure false | some x ↦ store_temp_code code x >> pure true ] in
    >>=-of_ok (attempt (callback_login k state answer now)) redirect w (
      ap
        (λ (r : Result Login × World).
          (ok (elim r.0 as (λ _. Option Login) [ ok x ↦ some x | raised y ↦ none ]), r.1))
        inside)
    ∙ stored_ok code l w2

-- An exchange of a code that was stored less than a minute ago answers the result of its login.
exchange-store :
    (code : String) (l : Login) (n : ℕ) (w : World)
    → n < code_seconds
    → (exchange_token code (elapse n (store_temp_code code l w).1)).0 ≡ ok l
unfolding store_temp_code exchange_token
exchange-store code l n w h = rw (eq_refl code) rw (lt→ltb n code_seconds h) refl

-- A code is stored beside the states and the database.
gone_state :
    (code state : String) (l : Login) (w0 w2 : World)
    → w2.redis ≡ w0.redis
    → w0.redis.oauth_states state ≡ none
    → (store_temp_code code l w2).1.redis.oauth_states state ≡ none
unfolding store_temp_code
gone_state code state l w0 w2 same e = ap (λ (r : Redis). r.oauth_states state) same ∙ e

stored_db : (code : String) (l : Login) (w : World) → (store_temp_code code l w).1.db ≡ w.db
unfolding store_temp_code
stored_db code l w = refl

-- A callback with a state that Redis has, of a user that the provider vouches for: the code that it
-- hands out is exchanged within a minute for tokens of the user of the email, who holds that refresh
-- token; and the same state again, at any time, ends with the error, whatever comes with it, and
-- changes nothing in the database.
pub web_login :
    (k : Keys) (state : String) (v : Kept String) (code : String)
    (answer : Option String → Option Identity) (now : DateTime) (w : World) (i : Identity)
    (answer' : Option String → Option Identity) (code' : String) (later : DateTime) (m n : ℕ)
    → w.redis.oauth_states state ≡ some v
    → str_eq v.value "" ≡ false
    → answer (nonce_of v.value) ≡ some i
    → m < code_seconds
    → let w1 = (callback k state answer code now w).1 in
      (u : ℕ) × (b : Bool) × ((callback k state answer code now w).0 ≡ ok true)
      × ((exchange_token code (elapse m w1)).0 ≡ ok (login_of k u b now))
      × Holds i.email (create_refresh_token k u now) u w1.db
      × ((callback k state answer' code' later (elapse n w1)).0 ≡ ok false)
      × ((callback k state answer' code' later (elapse n w1)).1.db ≡ w1.db)
web_login k state v code answer now w i answer' code' later m n e h a in_time =
    let w0 = cleared state w in
    let p = login-Holds k i now w0 in
    let l = login_of k p.0 p.1 now in
    let w2 = (login k i now w0).1 in
    let w1 = (store_temp_code code l w2).1 in
    let run = runs k state v code answer now w i l e h a p.2 in
    let gone : w1.redis.oauth_states state ≡ none =
      gone_state code state l w0 w2 (login_redis k i now w0) (rw (eq_refl state) refl) in
    let again =
      unverified k state answer' code' later (elapse n w1)
        (ap (λ (o : Option (Kept String)). left_after n o) gone) in
    rw run (
      p.0,
      p.1,
      refl,
      exchange-store code l m w2 in_time,
      subst (λ (d : Db). Holds i.email (create_refresh_token k p.0 now) p.0 d)
          (sym (stored_db code l w2)) p.3,
      rw again refl,
      rw again refl,
    )
