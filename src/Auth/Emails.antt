-- ===== src/Auth/Emails.antt =====
-- What a change of the email does to the logins of a user (src/users/service.py, src/auth/service.py).
use logit_be.Common.{
  ℕ, ◌≡◌, refl, ap, ◌∙◌, sym, subst, Bool, true, false, Option, none, some, String, List, [], ◌∷◌,
  str_eq, update_rows, first_row, arith, eq_refl, inl, inr, Bool-cases,
}
use logit_be.Clock.{DateTime}
use logit_be.Rows.User.{User}
use logit_be.Rows.Token.{signup_bonus_tokens}
use logit_be.World.{World, Login}
use logit_be.World.Action.{Result, ok, raise_if, integrity_error, commit, pure, ◌>>◌, >>=-of_ok}
use logit_be.Tokens.Ledger.{balance_of}
use logit_be.Auth.{
  save_user, Keys, Identity, has_id, is_some, get_user_by_email, get_user_by_id, login,
}
use logit_be.Auth.Sessions.{mapped}
use logit_be.Auth.Accounts.{login_of, known, new_account}
use logit_be.Auth.Users.{UserUpdate, has_other, taken_by_other, changed, check_email, update_user}

no_other :
    (p : User → Bool) (x : User) (xs : List User)
    → is_some (first_row p (x ∷ xs)) ≡ false
    → (p x ≡ false) × (is_some (first_row p xs) ≡ false)
no_other p x xs h = elim (Bool-cases (p x)) [
  | inl e ↦ absurd (ground arith)
  | inr e ↦ (e, ground arith)
]

-- The user of an email that was given to one user.
given_email :
    (u : ℕ) (e : String) (f : User → User) (xs : List User)
    → ((y : User) → str_eq (f y).email e ≡ true)
    → is_some (first_row (has_other u e) xs) ≡ false
    → first_row (λ y. str_eq y.email e) (update_rows (has_id u) f xs)
      ≡ mapped f (first_row (has_id u) xs)
given_email u e f [] sets h = refl
given_email u e f (x ∷ xs) sets h =
    let t = no_other (has_other u e) x xs h in
    elim (Bool-cases (has_id u x)) [
      | inl a ↦ rw (a, sets x) refl
      | inr a ↦
          let b : str_eq x.email e ≡ false = ground arith in
          rw (a, b) (given_email u e f xs sets t.1)
    ]

-- An email that was taken from one user.
left_email :
    (u : ℕ) (e : String) (f : User → User) (xs : List User)
    → ((y : User) → str_eq (f y).email e ≡ false)
    → is_some (first_row (has_other u e) xs) ≡ false
    → first_row (λ y. str_eq y.email e) (update_rows (has_id u) f xs) ≡ none
left_email u e f [] sets h = refl
left_email u e f (x ∷ xs) sets h =
    let t = no_other (has_other u e) x xs h in
    elim (Bool-cases (has_id u x)) [
      | inl a ↦ rw (a, sets x) (left_email u e f xs sets t.1)
      | inr a ↦
          let b : str_eq x.email e ≡ false = ground arith in
          rw (a, b) (left_email u e f xs sets t.1)
    ]

-- A change of the email, and of the name.
abbrev pub new_email : String → Option (Option String) → UserUpdate
new_email e n = record { email = some (some e); full_name = n }

abbrev saved : User → UserUpdate → World → World
saved x c w =
    let d = record w.db { users = update_rows (has_id x.id) (changed c) w.db.users } in
    record w { db = d; committed = d }

update_user_lem :
    (x : User) (e : String) (n : Option (Option String)) (y : User) (w w1 : World)
    → update_user x (new_email e n) w ≡ (ok y, w1)
    → (taken_by_other x.id e w.db ≡ false) × (saved x (new_email e n) w ≡ w1)
unfolding update_user check_email
update_user_lem x e n y w w1 h = elim (Bool-cases (taken_by_other x.id e w.db)) [
  | inl t ↦ absurd (ground arith)
  | inr t ↦
      let runs : update_user x (new_email e n) w
          ≡ (ok (changed (new_email e n) x), saved x (new_email e n) w) =
        >>=-of_ok (check_email x.id (some (some e)))
          (λ _.
            save_user x.id (changed (new_email e n)) >> commit >> pure (changed (new_email e n) x))
          w (ap (λ (b : Bool). raise_if b integrity_error w) t) in
      (t, ap (λ (r : Result User × World). r.1) (sym runs ∙ h))
]

-- After an accepted change of the email of an active user, where no other user had the old one, a login with
-- the new email, of whomever a provider vouches for, is of this user; and a login with the old email, of the
-- same identity as before as well, makes another account and pays the sign-up bonus to it.
pub email_change_splits :
    (x : User) (e : String) (n : Option (Option String)) (y : User) (w w1 : World) (k : Keys)
    (by_new by_old : Identity) (now : DateTime)
    → get_user_by_id x.id w.db ≡ some x
    → x.is_active ≡ true
    → taken_by_other x.id x.email w.db ≡ false
    → update_user x (new_email e n) w ≡ (ok y, w1)
    → str_eq e x.email ≡ false
    → by_new.email ≡ e
    → by_old.email ≡ x.email
    → w.db.user_tokens by_old.fresh_id ≡ none
    → ((login k by_new now w1).0 ≡ ok (login_of k x.id false now))
      × ((login k by_old now w1).0 ≡ ok (login_of k by_old.fresh_id true now))
      × (balance_of (login k by_old now w1).1.db by_old.fresh_id ≡ signup_bonus_tokens)
email_change_splits x e n y w w1 k by_new by_old now has active only h differs same_new same_old
      fresh =
    let u = update_user_lem x e n y w w1 h in
    let w2 = saved x (new_email e n) w in
    let f = changed (new_email e n) in
    let mine : get_user_by_email by_new.email w2.db ≡ some (f x) =
      rw same_new (given_email x.id e f w.db.users (λ z. eq_refl e) u.0 ∙ ap (mapped f) has) in
    let gone : get_user_by_email by_old.email w2.db ≡ none =
      rw same_old (left_email x.id x.email f w.db.users (λ z. differs) only) in
    let enters = known k by_new now w2 (f x) mine active in
    let made = new_account k by_old now w2 gone fresh in
    subst
      (λ (v : World).
        ((login k by_new now v).0 ≡ ok (login_of k x.id false now))
        × ((login k by_old now v).0 ≡ ok (login_of k by_old.fresh_id true now))
        × (balance_of (login k by_old now v).1.db by_old.fresh_id ≡ signup_bonus_tokens))
      u.1 (ap (λ (r : Result Login × World). r.0) enters, made.0, made.1)
