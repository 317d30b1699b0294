-- ===== src/Auth/Vouched.antt =====
-- A mobile login of src/auth/router.py lets in only whom the provider vouches for.
use logit_be.Common.{
  ℕ, ◌≡◌, refl, ap, ◌∙◌, sym, subst, Bool, true, false, not, Option, none, some, String, List,
  arith, Bool-cases, inl, inr, str_eq,
}
use logit_be.Clock.{DateTime}
use logit_be.World.{Db, World, Login}
use logit_be.World.Action.{Action, raise_if, ◌>>◌, Result, ok, raised, http_error, Exception}
use logit_be.Text.{truthy}
use logit_be.Auth.{Keys, Identity, create_refresh_token, login}
use logit_be.Auth.Accounts.{login_of, Holds, login-Holds}
use logit_be.Auth.Jwks.{Cache, find_jwks_key}
use logit_be.Auth.KnownKeys.{IsKnown, find_jwks_key-IsKnown}
use logit_be.Auth.Providers.{
  Profile, Jwt, Settings, Visit, Found, and_then, or_401, named, found_in, checked, with_key,
  with_header, google_audiences, apple_audiences, google_issuers, apple_issuers, google_claims,
  apple_claims, verify_google_id_token, verify_apple_id_token,
}
use logit_be.Auth.Flows.{
  Draws, of_google, of_apple, signed_in, identified, google_mobile_login, apple_mobile_login,
}

-- The user of a profile that has a subject and an email.
record IsNamed (p : Profile) (f : Found) : Type 0 where
  profile : f.profile ≡ p
  subject : p.subject ≡ some f.provider_id
  email : p.email ≡ some f.email
  not_empty : str_eq f.email "" ≡ false

named-IsNamed :
    (e : Exception) (p : Profile) (f : Found) (s m : Option String)
    → p.subject ≡ s
    → p.email ≡ m
    → and_then (named e s m) (found_in p) ≡ ok f
    → IsNamed p f
named-IsNamed e p f none m hs hm h = absurd (ground arith)
named-IsNamed e p f (some s) none hs hm h = absurd (ground arith)
named-IsNamed e p f (some s) (some m) hs hm h = elim (Bool-cases (str_eq s "")) [
  | inl a ↦ absurd (ground arith)
  | inr a ↦ elim (Bool-cases (str_eq m "")) [
    | inl b ↦ absurd (ground arith)
    | inr b ↦
        let q : record { provider_id = s; email = m; profile = p } ≡ f = ground arith in
        subst (IsNamed p) q record { profile = refl; subject = hs; email = hm; not_empty = b }
  ]
]

pub decoded :
    (o : Option Profile) (g : Profile → Result Found) (f : Found)
    → and_then (or_401 o) g ≡ ok f
    → (p : Profile) × (o ≡ some p) × (g p ≡ ok f)
decoded none g f e = absurd (ground arith)
decoded (some p) g f e = (p, refl, e)

signed_in_lem :
    (k : Keys) (now : DateTime) (g : Found → Identity) (r : Result Found) (w w' : World) (l : Login)
    → signed_in k now (identified g r) w ≡ (ok l, w')
    → (f : Found) × (r ≡ ok f) × (login k (g f) now w ≡ (ok l, w'))
signed_in_lem k now g (raised e) w w' l h = absurd (ground arith)
signed_in_lem k now g (ok f) w w' l h = (f, refl, h)

-- The tokens of a login are those of the active user of the email, who holds the refresh token.
pub record Signs (k : Keys) (now : DateTime) (email : String) (l : Login) (w' : World)
    : Type 0 where
  pub user : ℕ
  pub is_new : Bool
  pub answer : l ≡ login_of k user is_new now
  pub holds : Holds email (create_refresh_token k user now) user w'.db

ok_lem : (l l2 : Login) → ◌≡◌ {A = Result Login} (ok l) (ok l2) → l ≡ l2
ok_lem l l2 e = ground arith

login-Signs :
    (k : Keys) (i : Identity) (now : DateTime) (w w' : World) (l : Login)
    → login k i now w ≡ (ok l, w')
    → Signs k now i.email l w'
login-Signs k i now w w' l e =
    let p = login-Holds k i now w in
    record {
      user = p.0;
      is_new = p.1;
      answer =
          ok_lem l (login_of k p.0 p.1 now) (sym (ap (λ (r : Result Login × World). r.0) e) ∙ p.2);
      holds =
          subst (λ (d : Db). Holds i.email (create_refresh_token k p.0 now) p.0 d)
            (ap (λ (r : Result Login × World). r.1.db) e) p.3;
    }

-- A guard that was passed.
past_guard :
    (refuse : Bool) (e : Exception) (m : Action Login) (w w' : World) (l : Login)
    → (raise_if refuse e >> m) w ≡ (ok l, w')
    → m w ≡ (ok l, w')
past_guard true e m w w' l h = absurd (ground arith)
past_guard false e m w w' l h = h

module _ {K : Type 0} where
  -- A key that the provider published under the id in the token's header checks the token.
  pub record IsVouched (j : Jwt K) (token : String) (audiences issuers : List String) (v : Visit K)
      (c : Cache K) (f : Found) : Type 0 where
    pub kid : Option String
    pub key : K
    pub header : j.header_kid token ≡ some kid
    pub known : IsKnown kid c v.first v.again key
    pub accepted : j.decode v.now key token audiences issuers ≡ some f.profile
    pub subject : f.profile.subject ≡ some f.provider_id
    pub email : f.profile.email ≡ some f.email

  pub record IsChecked (h : Option (Option String)) (F : K → Result Found) (v : Visit K)
      (c : Cache K) (f : Found) : Type 0 where
    pub kid : Option String
    pub key : K
    pub header : h ≡ some kid
    pub known : IsKnown kid c v.first v.again key
    pub claims : F key ≡ ok f

  with_key_lem :
      (F : K → Result Found) (r : Result K) (c : Cache K) (f : Found)
      → (with_key F (r, c)).0 ≡ ok f
      → (key : K) × (r ≡ ok key) × (F key ≡ ok f)
  with_key_lem F (raised e) c f h = absurd (ground arith)
  with_key_lem F (ok key) c f h = (key, refl, h)

  pub with_header-IsChecked :
      (F : K → Result Found) (v : Visit K) (c : Cache K) (h : Option (Option String)) (f : Found)
      → (with_header F v c h).0 ≡ ok f
      → IsChecked h F v c f
  with_header-IsChecked F v c none f e = absurd (ground arith)
  with_header-IsChecked F v c (some kid) f e =
      let r = find_jwks_key kid v.first v.again c in
      let p = with_key_lem F r.0 r.1 f e in
      record {
        kid = kid;
        key = p.0;
        header = refl;
        known = find_jwks_key-IsKnown c v.first v.again kid p.0 p.1;
        claims = p.2;
      }

  -- Claims that were checked, of a token.
  vouched :
      (j : Jwt K) (token : String) (auds issuers : List String) (v : Visit K) (c : Cache K)
      (f : Found)
      → IsChecked
          (j.header_kid token)
          (λ key.
            and_then (or_401 (j.decode v.now key token auds issuers)) (checked (http_error 401)))
          v
          c
          f
      → IsVouched j token auds issuers v c f
  vouched j token auds issuers v c f h =
      let d =
        decoded (j.decode v.now h.key token auds issuers) (checked (http_error 401)) f h.claims in
      let p = d.0 in
      let n = named-IsNamed (http_error 401) p f p.subject p.email refl refl d.2 in
      record {
        kid = h.kid;
        key = h.key;
        header = h.header;
        known = h.known;
        accepted = rw n.profile d.1;
        subject = rw n.profile n.subject;
        email = rw n.profile n.email;
      }

  -- A login that succeeds, with the audiences and the issuers that it allows.
  pub data MobileLogin (j : Jwt K) (s : Settings) (k : Keys) (token : String) (v : Visit K)
      (c : Cache K) (w : World) (l : Login) (w' : World) : List String → List String → Type 0 where
    by_google :
        (x : Draws)
        → google_mobile_login j s k x token v c w ≡ (ok l, w')
        → MobileLogin j s k token v c w l w' (google_audiences s) google_issuers
    by_apple :
        (x : Draws) (full_name : Option String)
        → apple_mobile_login j s k x token full_name v c w ≡ (ok l, w')
        → MobileLogin j s k token v c w l w' (apple_audiences s) apple_issuers

  google_user :
      (j : Jwt K) (s : Settings) (token : String) (v : Visit K) (c : Cache K) (f : Found)
      → (verify_google_id_token j s token v c).0 ≡ ok f
      → IsVouched j token (google_audiences s) google_issuers v c f
  unfolding verify_google_id_token
  google_user j s token v c f e =
      vouched j token (google_audiences s) google_issuers v c f
        (with_header-IsChecked (google_claims j s v.now token) v c (j.header_kid token) f e)

  apple_user :
      (j : Jwt K) (s : Settings) (token : String) (v : Visit K) (c : Cache K) (f : Found)
      → (verify_apple_id_token j s token none v c).0 ≡ ok f
      → IsVouched j token (apple_audiences s) apple_issuers v c f
  unfolding verify_apple_id_token
  apple_user j s token v c f e =
      vouched j token (apple_audiences s) apple_issuers v c f
        (with_header-IsChecked (apple_claims j s v.now token none) v c (j.header_kid token) f e)

  -- Where a mobile login succeeds, `jwt.decode` accepted its token for our audiences and issuers with a key
  -- that the provider published under the id in the token's header, and the tokens that it answers are those
  -- of the active user of the email in the token, who holds the refresh token.
  pub mobile_login-IsVouched :
      (j : Jwt K) (s : Settings) (k : Keys) (token : String) (v : Visit K) (c : Cache K) (w : World)
      (l : Login) (w' : World) (audiences issuers : List String)
      → MobileLogin j s k token v c w l w' audiences issuers
      → (f : Found) × IsVouched j token audiences issuers v c f × Signs k v.now f.email l w'
  unfolding google_mobile_login apple_mobile_login
  mobile_login-IsVouched j s k token v c w l w' auds issuers (by_google x e) =
      let p = signed_in_lem k v.now (of_google x) (verify_google_id_token j s token v c).0 w w' l (
        past_guard (not (truthy s.google_client_id)) (http_error 501)
          (signed_in k v.now (identified (of_google x) (verify_google_id_token j s token v c).0)) w
          w' l e) in
      (p.0, google_user j s token v c p.0 p.1, login-Signs k (of_google x p.0) v.now w w' l p.2)
  mobile_login-IsVouched j s k token v c w l w' auds issuers (by_apple x n e) =
      let p =
        signed_in_lem k v.now (of_apple x n) (verify_apple_id_token j s token none v c).0 w w' l (
          past_guard (not (truthy s.apple_client_id)) (http_error 501)
            (signed_in k v.now
              (identified (of_apple x n) (verify_apple_id_token j s token none v c).0))
            w w' l e) in
      (p.0, apple_user j s token v c p.0 p.1, login-Signs k (of_apple x n p.0) v.now w w' l p.2)
