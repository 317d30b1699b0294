-- ===== src/Auth/Sessions.antt =====
-- What renewal, log out and withdrawal make of the users' sessions, and the rotation of refresh tokens.
use logit_be.Common.{
  ℕ, ◌≡◌, refl, sym, ap, ◌∙◌, Bool, false, ◌&&◌, ◌==◌, Option, none, some, String, List, [], ◌∷◌,
  str_eq, update_rows, first_row, if◌then◌else◌, arith, inl, inr, Option-cases,
}
use logit_be.Clock.{DateTime}
use logit_be.Rows.User.{User}
use logit_be.World.{Db, World}
use logit_be.Auth.{
  Keys, create_refresh_token, verify_token, has_id, get_user_by_id, update_refresh_token,
  delete_user, refresh_with, logout_with,
}

-- An account: whether it is active, and the refresh token that renews its session.
pub record Account : Type 0 where
  pub is_active : Bool
  pub session : Option String

abbrev pub account_of : Option User → Option Account
account_of none = none
account_of (some x) = some record { is_active = x.is_active; session = x.refresh_token }

abbrev pub accounts : Db → ℕ → Option Account
accounts d u = account_of (get_user_by_id u d)

-- The requests that carry a refresh token, and the withdrawal of a user.
pub data Request : Type 0 where
  renew log_out : String → DateTime → Request
  withdraw : ℕ → Request

unfoldable pub after : Keys → Request → World → World
unfolding refresh_with logout_with delete_user
after k (renew token now) w = (refresh_with k token now w).1
after k (log_out token now) w = (logout_with k token now w).1
after k (withdraw u) w = (delete_user u w).1

-- What each means for the accounts. A token names its user if it is genuine and has not expired.
abbrev pub named : Keys → String → DateTime → Option ℕ
named k token now = if str_eq token "" then none else verify_token k now token "refresh"

abbrev pub accepts : Option Account → String → Bool
accepts none token = false
accepts (some a) token = a.is_active && elim a.session [ none ↦ false | some t ↦ str_eq t token ]

abbrev pub with_session : Option String → Option Account → Option Account
with_session t none = none
with_session t (some a) = some record a { session = t }

abbrev pub withdrawn : Option Account → Option Account
withdrawn none = none
withdrawn (some a) = some record { is_active = false; session = none }

abbrev pub means : Keys → Request → (ℕ → Option Account) → ℕ → Option Account
means k (renew token now) s v = elim (named k token now) [
  | none ↦ s v
  | some u ↦
      if v == u && accepts (s u) token
      then with_session (some (create_refresh_token k u now)) (s v)
      else s v
]
means k (log_out token now) s v = elim (named k token now) [
  | none ↦ s v
  | some u ↦ if v == u then with_session (some "") (s v) else s v
]
means k (withdraw u) s v = if v == u then withdrawn (s v) else s v

abbrev pub mapped : (User → User) → Option User → Option User
mapped f none = none
mapped f (some x) = some (f x)

pub first_row-update :
    (f : User → User) (u v : ℕ) (xs : List User)
    → ((x : User) → (f x).id ≡ x.id)
    → first_row (has_id v) (update_rows (has_id u) f xs)
      ≡ (if v == u then mapped f (first_row (has_id v) xs) else first_row (has_id v) xs)
first_row-update f u v [] keeps = ground arith
first_row-update f u v (x ∷ xs) keeps = grind (arith, keeps x, first_row-update f u v xs keeps)

pub first_row-id : (u : ℕ) (xs : List User) (x : User) → first_row (has_id u) xs ≡ some x → x.id ≡ u
first_row-id u [] x h = grind arith
first_row-id u (y ∷ ys) x h = grind (arith, first_row-id u ys x, h)

-- One change of the row of user `u`, as the accounts show it.
pub changed :
    (f : User → User) (d : Db) (u v : ℕ)
    → ((x : User) → (f x).id ≡ x.id)
    → accounts (record d { users = update_rows (has_id u) f d.users }) v
      ≡ (if v == u then account_of (mapped f (get_user_by_id v d)) else accounts d v)
changed f d u v keeps = rw (first_row-update f u v d.users keeps) (ground arith)

renew_named :
    (k : Keys) (token : String) (now : DateTime) (w : World) (v : ℕ) (x : User)
    → verify_token k now token "refresh" ≡ some x.id
    → get_user_by_id x.id w.db ≡ some x
    → accounts (after k (renew token now) w).db v ≡ means k (renew token now) (accounts w.db) v
unfolding after refresh_with update_refresh_token
renew_named k token now w v x e f =
    let new = some (create_refresh_token k x.id now) in
    ground (arith, changed (λ y. record y { refresh_token = new }) w.db x.id v (λ y. refl))

pub request-means :
    (k : Keys) (r : Request) (w : World) (v : ℕ)
    → accounts (after k r w).db v ≡ means k r (accounts w.db) v
unfolding after refresh_with logout_with delete_user update_refresh_token
request-means k (withdraw u) w v = ground (
  arith,
  changed (λ x. record x { is_active = false; refresh_token = none }) w.db u v (λ x. refl),
)
request-means k (log_out token now) w v = elim (Option-cases (verify_token k now token "refresh")) [
  | inl e ↦ ground arith
  | inr (u, e) ↦
      ground (arith, changed (λ x. record x { refresh_token = some "" }) w.db u v (λ x. refl))
]
request-means k (renew token now) w v = elim (Option-cases (verify_token k now token "refresh")) [
  | inl e ↦ ground arith
  | inr (u, e) ↦ elim (Option-cases (get_user_by_id u w.db)) [
    | inl f ↦ ground arith
    | inr (x, f) ↦
        let p = first_row-id u w.db.users x f in
        renew_named k token now w v x (e ∙ ap some (sym p))
          (ap (λ (n : ℕ). get_user_by_id n w.db) p ∙ f)
  ]
]

abbrev pub after_all : Keys → List Request → World → World
after_all k [] w = w
after_all k (r ∷ rs) w = after_all k rs (after k r w)

abbrev pub means_all : Keys → List Request → (ℕ → Option Account) → ℕ → Option Account
means_all k [] s = s
means_all k (r ∷ rs) s = means_all k rs (means k r s)

-- Through any sequence of renewals, log outs and withdrawals the accounts of the users table change as
-- the requests mean: a renewal with the refresh token that an active account holds replaces it, any
-- other renewal changes nothing, a log out with any unexpired refresh token of a user empties what the
-- account holds, and a withdrawal makes the account inactive and takes its token.
pub requests_refine :
    (k : Keys) (rs : List Request) (w : World) (v : ℕ)
    → accounts (after_all k rs w).db v ≡ means_all k rs (accounts w.db) v
requests_refine k [] w v = refl
requests_refine k (r ∷ rs) w v =
    requests_refine k rs (after k r w) v
    ∙ ap (λ (s : ℕ → Option Account). means_all k rs s v) (λ i u. request-means k r w u i)
