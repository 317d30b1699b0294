-- ===== src/Auth/Rotation.antt =====
-- The rotation of refresh tokens (`refresh_access_token` of src/auth/router.py).
use logit_be.Common.{
  ℕ, ◌≡◌, sym, ap, ◌∙◌, true, false, none, some, String, str_eq, arith, eq_iff, inl, inr,
  Option-cases,
}
use logit_be.Clock.{DateTime, add_days}
use logit_be.Rows.User.{User}
use logit_be.World.{World}
use logit_be.World.Action.{ok, raised, http_error}
use logit_be.Auth.{
  Claims, Keys, whole_seconds, create_refresh_token, verify_token, get_user_by_id, refresh_with,
}
use logit_be.Auth.Sessions.{accounts, accepts, renew, after, means, request-means, first_row-id}

-- PyJWT: only the expiry makes what a token is decoded to depend on the instant.
pub record HasFixedClaims (k : Keys) : Type 0 where
  pub same_claims :
      (token : String) (a b : DateTime) (c d : Claims)
      → k.decode a token ≡ some c
      → k.decode b token ≡ some d
      → c ≡ d

-- What `create_refresh_token` says.
abbrev pub refresh_claims : Keys → ℕ → DateTime → Claims
refresh_claims k u issued = record {
  exp = whole_seconds (add_days k.refresh_token_expire_days issued);
  sub = u;
  type = "refresh";
}

-- A renewal that went through: an active user holds the token, and is given a new one.
record Renewed (k : Keys) (token : String) (now : DateTime) (w : World) (new : String)
    : Type 0 where
  u : ℕ
  written : str_eq token "" ≡ false
  names : verify_token k now token "refresh" ≡ some u
  held : accepts (accounts w.db u) token ≡ true
  replaced : new ≡ create_refresh_token k u now

renewed :
    (k : Keys) (token : String) (now : DateTime) (w : World) (r : String × String)
    → (refresh_with k token now w).0 ≡ ok r
    → Renewed k token now w r.1
unfolding refresh_with
renewed k token now w r h = elim (Option-cases (verify_token k now token "refresh")) [
  | inl e ↦ absurd (grind arith)
  | inr (u, e) ↦ elim (Option-cases (get_user_by_id u w.db)) [
    | inl f ↦ absurd (grind arith)
    | inr (x, f) ↦
        let p = first_row-id u w.db.users x f in
        record {
          u = u;
          written = grind arith;
          names = e;
          held = grind arith;
          replaced = grind arith;
        }
  ]
]

-- The account is left with the new token.
replaced_session :
    (k : Keys) (token : String) (now : DateTime) (w : World) (new : String)
    (p : Renewed k token now w new)
    → accounts (after k (renew token now) w).db p.u
      ≡ some record { is_active = true; session = some new }
replaced_session k token now w new p =
    let u = p.u in
    let held = p.held in
    let names = p.names in
    let written = p.written in
    let replaced = p.replaced in request-means k (renew token now) w p.u ∙ ground arith

same_name :
    (k : Keys) (token : String) (a b : DateTime) (u v : ℕ)
    → HasFixedClaims k
    → verify_token k a token "refresh" ≡ some u
    → verify_token k b token "refresh" ≡ some v
    → u ≡ v
unfolding verify_token
same_name k token a b u v jwt p q = grind (arith, jwt.same_claims token a b)

-- A refresh that the account does not hold.
refused :
    (k : Keys) (token : String) (now : DateTime) (w : World) (x : User)
    → verify_token k now token "refresh" ≡ some x.id
    → get_user_by_id x.id w.db ≡ some x
    → accepts (accounts w.db x.id) token ≡ false
    → x.is_active ≡ true
    → refresh_with k token now w ≡ (raised (http_error 401), w)
unfolding refresh_with
refused k token now w x e f g active = grind arith

unnamed :
    (k : Keys) (token : String) (now : DateTime) (w : World)
    → verify_token k now token "refresh" ≡ none
    → refresh_with k token now w ≡ (raised (http_error 401), w)
unfolding refresh_with
unnamed k token now w e = ground arith

-- A user whose account holds another token.
refused_at :
    (k : Keys) (token other : String) (now : DateTime) (w : World) (u : ℕ)
    → verify_token k now token "refresh" ≡ some u
    → accounts w.db u ≡ some record { is_active = true; session = some other }
    → str_eq other token ≡ false
    → refresh_with k token now w ≡ (raised (http_error 401), w)
refused_at k token other now w u e f g = elim (Option-cases (get_user_by_id u w.db)) [
  | inl h ↦ absurd (grind arith)
  | inr (x, h) ↦
      let p = first_row-id u w.db.users x h in
      let q = ap (λ (n : ℕ). get_user_by_id n w.db) p ∙ h in
      refused k token now w x (e ∙ ap some (sym p)) q (grind arith) (grind arith)
]

-- After a renewal that went through and gave another refresh token, the old one is refused with 401 at
-- any time, without a change.
pub rotates :
    (k : Keys) (token : String) (now later : DateTime) (w : World) (r : String × String)
    → HasFixedClaims k
    → (refresh_with k token now w).0 ≡ ok r
    → str_eq r.1 token ≡ false
    → let w' = after k (renew token now) w in
      refresh_with k token later w' ≡ (raised (http_error 401), w')
rotates k token now later w r jwt h other =
    let w' = after k (renew token now) w in
    let p = renewed k token now w r h in
    elim (Option-cases (verify_token k later token "refresh")) [
      | inl e ↦ unnamed k token later w' e
      | inr (v, e) ↦
          refused_at k token r.1 later w' p.u
            (e ∙ ap some (same_name k token later now v p.u jwt e p.names))
            (replaced_session k token now w r.1 p) other
    ]

same_token :
    (k : Keys) (u v : ℕ) (issued now : DateTime)
    → k.decode now (create_refresh_token k u issued) ≡ some (refresh_claims k u issued)
    → (refresh_claims k u issued).exp ≡ (refresh_claims k u now).exp
    → verify_token k now (create_refresh_token k u issued) "refresh" ≡ some v
    → create_refresh_token k u issued ≡ create_refresh_token k v now
unfolding verify_token create_refresh_token
same_token k u v issued now genuine second names = grind arith

unmoved :
    (k : Keys) (token : String) (now : DateTime) (w : World) (v : ℕ) (new : String)
    (p : Renewed k token now w new)
    → token ≡ create_refresh_token k p.u now
    → means k (renew token now) (accounts w.db) v ≡ accounts w.db v
unmoved k token now w v new p same =
    let u = p.u in
    let held = p.held in
    let names = p.names in
    let written = p.written in grind (arith, λ (t : String). (eq_iff t token).0)

-- A renewal in the second in which its token was issued, and decoded to what it was made of, gives the
-- same token again, and leaves every account as it was: the token is not used up.
pub same_second :
    (k : Keys) (u : ℕ) (issued now : DateTime) (w : World) (r : String × String)
    → k.decode now (create_refresh_token k u issued) ≡ some (refresh_claims k u issued)
    → (refresh_claims k u issued).exp ≡ (refresh_claims k u now).exp
    → (refresh_with k (create_refresh_token k u issued) now w).0 ≡ ok r
    → (r.1 ≡ create_refresh_token k u issued)
      × ((v : ℕ)
          → accounts (after k (renew (create_refresh_token k u issued) now) w).db v
            ≡ accounts w.db v)
same_second k u issued now w r genuine second h =
    let token = create_refresh_token k u issued in
    let p = renewed k token now w r h in
    let same = same_token k u p.u issued now genuine second p.names in
    (
      p.replaced ∙ sym same,
      λ v. request-means k (renew token now) w v ∙ unmoved k token now w v r.1 p same,
    )
