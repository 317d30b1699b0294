-- ===== src/Auth/Accounts.antt =====
-- One account per email: what a second login finds (`_find_or_create_user`, `_generate_tokens_for_user`).
use logit_be.Common.{
  ℤ, pos, ◌+ℤ◌, ℕ, ◌≡◌, refl, ap, ◌∙◌, Bool, true, false, Option, none, some, String, List, [], ◌∷◌,
  str_eq, update_rows, first_row, if◌then◌else◌, arith, ==_self, eq_refl, inl, inr, Bool-cases,
  Option-cases,
}
use logit_be.Clock.{DateTime}
use logit_be.Rows.User.{User}
use logit_be.World.{Db, World, Login}
use logit_be.World.Action.{Result, ok, execute, >>=-of_ok}
use logit_be.Tokens.{new_token, grant_signup_bonus}
use logit_be.Tokens.Effects.{bonus_due, grant_signup_bonus-Posts}
use logit_be.Tokens.Ledger.{balance_of}
use logit_be.Rows.Token.{UserToken, signup_bonus_tokens}
use logit_be.Auth.{
  Keys, Identity, new_user, create_access_token, create_refresh_token, has_id, get_user_by_email,
  update_refresh_token, create_oauth_user, conclude_creation, find_or_create, find_or_create_user,
  generate_tokens_for_user, login,
}
use logit_be.Auth.Sessions.{mapped}

-- The first user that passes, after a change that keeps what is tested.
first_row-update_rows :
    (p q : User → Bool) (f : User → User) (xs : List User)
    → ((x : User) → p (f x) ≡ p x)
    → first_row p (update_rows q f xs) ≡ mapped (λ x. if q x then f x else x) (first_row p xs)
first_row-update_rows p q f [] keeps = refl
first_row-update_rows p q f (x ∷ xs) keeps = elim (Bool-cases (q x)) [
  | inl e ↦ elim (Bool-cases (p x)) [
    | inl h ↦ rw (e, keeps x, h) rw e refl
    | inr h ↦ rw (e, keeps x, h) (first_row-update_rows p q f xs keeps)
  ]
  | inr e ↦ elim (Bool-cases (p x)) [
    | inl h ↦ rw (e, h) rw e refl
    | inr h ↦ rw (e, h) (first_row-update_rows p q f xs keeps)
  ]
]

-- What `update_refresh_token` leaves, of a user of an email.
tokens_given :
    (email token : String) (u : ℕ) (w : World) (x : User)
    → get_user_by_email email w.db ≡ some x
    → x.id ≡ u
    → get_user_by_email email (update_refresh_token u token w).1.db
      ≡ some record x { refresh_token = some token }
unfolding update_refresh_token
tokens_given email token u w x e same =
    let f : User → User = λ y. record y { refresh_token = some token } in
    first_row-update_rows (λ y. str_eq y.email email) (has_id u) f w.db.users (λ y. refl)
    ∙ grind (arith, ==_self u)

-- The user that `find_or_create_user` answers is the active one of the email.
record Found (email : String) (u : User) (d : Db) : Type 0 where
  row : User
  in_table : get_user_by_email email d ≡ some row
  same_id : row.id ≡ u.id
  active : row.is_active ≡ true

find_existing :
    (i : Identity) (now : DateTime) (w : World) (x : User)
    → get_user_by_email i.email w.db ≡ some x
    → Found i.email x (find_or_create i now (some x) w).1.db
unfolding find_or_create
find_existing i now w x e = elim (Bool-cases x.is_active) [
  | inl h ↦ rw h record { row = x; in_table = e; same_id = refl; active = h }
  | inr h ↦ rw h record {
    row = record x { is_active = true };
    in_table =
        first_row-update_rows (λ y. str_eq y.email i.email) (has_id x.id)
          (λ y. record y { is_active = true }) w.db.users (λ y. refl)
        ∙ grind (arith, ==_self x.id);
    same_id = refl;
    active = refl;
  }
]

-- A world in which the user of an identity was found or made.
record Entry (i : Identity) (now : DateTime) (w : World) : Type 0 where
  user : User
  is_new : Bool
  world : World
  runs : find_or_create_user i now w ≡ (ok (user, is_new), world)
  found : Found i.email user world.db
  redis : world.redis ≡ w.redis

existing-Entry :
    (i : Identity) (now : DateTime) (w : World) (x : User)
    → get_user_by_email i.email w.db ≡ some x
    → Entry i now w
unfolding find_or_create_user find_or_create
existing-Entry i now w x e =
    let found = find_existing i now w x e in
    let start =
      >>=-of_ok (execute (get_user_by_email i.email)) (find_or_create i now) w
        (ap (λ (o : Option User). (ok o, w)) e) in
    let w1 = (find_or_create i now (some x) w).1 in
    elim (Bool-cases x.is_active) [
      | inl h ↦ record {
        user = x;
        is_new = false;
        world = w1;
        runs = start ∙ rw h refl;
        found = found;
        redis = rw h refl;
      }
      | inr h ↦ record {
        user = record x { is_active = true };
        is_new = false;
        world = w1;
        runs = start ∙ rw h refl;
        found = record {
          row = found.row;
          in_table = found.in_table;
          same_id = found.same_id;
          active = found.active;
        };
        redis = rw h refl;
      }
    ]

-- The world of a new account, before its bonus.
abbrev made : Identity → World → World
made i w =
    let d = record w.db { users = new_user i ∷ w.db.users } in record w { db = d; committed = d }

new-Entry :
    (i : Identity) (now : DateTime) (w : World)
    → get_user_by_email i.email w.db ≡ none
    → Entry i now w
unfolding find_or_create_user find_or_create create_oauth_user conclude_creation grant_signup_bonus
new-Entry i now w e =
    let w1 = (grant_signup_bonus i.fresh_id now (made i w)).1 in
    let users : w1.db.users ≡ new_user i ∷ w.db.users =
      ap (λ (d : Db). d.users) (grant_signup_bonus-Posts i.fresh_id now (made i w)).frame in
    record {
      user = new_user i;
      is_new = true;
      world = w1;
      runs = ground arith;
      redis = ground arith;
      found = record {
        row = new_user i;
        in_table = rw users rw (eq_refl i.email) refl;
        same_id = refl;
        active = refl;
      };
    }

entry : (i : Identity) (now : DateTime) (w : World) → Entry i now w
entry i now w = elim (Option-cases (get_user_by_email i.email w.db)) [
  | inl e ↦ new-Entry i now w e
  | inr (x, e) ↦ existing-Entry i now w x e
]

-- What a login answers to a user.
abbrev pub login_of : Keys → ℕ → Bool → DateTime → Login
login_of k u is_new now = record {
  is_new_user = is_new;
  access_token = create_access_token k u now;
  refresh_token = create_refresh_token k u now;
}

-- An active user of the email, who holds the refresh token.
pub record Holds (email token : String) (u : ℕ) (d : Db) : Type 0 where
  pub row : User
  pub in_table : get_user_by_email email d ≡ some row
  pub is_user : row.id ≡ u
  pub active : row.is_active ≡ true
  pub holds : row.refresh_token ≡ some token

-- A login answers tokens of the one active user of the email, who holds the refresh token then.
pub login-Holds :
    (k : Keys) (i : Identity) (now : DateTime) (w : World)
    → (u : ℕ) × (b : Bool) × ((login k i now w).0 ≡ ok (login_of k u b now))
      × Holds i.email (create_refresh_token k u now) u (login k i now w).1.db
unfolding login generate_tokens_for_user update_refresh_token
login-Holds k i now w =
    let p = entry i now w in
    let u = p.user.id in
    let token = create_refresh_token k u now in
    let runs = >>=-of_ok (find_or_create_user i now) (generate_tokens_for_user k now) w p.runs in
    let given = tokens_given i.email token u p.world p.found.row p.found.in_table p.found.same_id in
    (
      u,
      p.is_new,
      rw runs refl,
      record {
        row = record p.found.row { refresh_token = some token };
        in_table = rw runs given;
        is_user = p.found.same_id;
        active = p.found.active;
        holds = refl;
      },
    )

pub known :
    (k : Keys) (j : Identity) (later : DateTime) (w : World) (x : User)
    → get_user_by_email j.email w.db ≡ some x
    → x.is_active ≡ true
    → login k j later w ≡ (
      ok (login_of k x.id false later),
      (update_refresh_token x.id (create_refresh_token k x.id later) w).1,
    )
unfolding login find_or_create_user find_or_create generate_tokens_for_user update_refresh_token
known k j later w x e active = ground arith

-- The balance after a bonus, of the row of a user.
abbrev first_balance : Option UserToken → DateTime → ℤ
first_balance o now =
    elim o [ none ↦ pos 0 | some t ↦ t.balance ]
    +ℤ bonus_due (elim o [ none ↦ new_token now | some t ↦ t ])

-- A login with an email that nobody has makes an account, with the balance of its bonus.
pub new_account :
    (k : Keys) (i : Identity) (now : DateTime) (w : World)
    → get_user_by_email i.email w.db ≡ none
    → w.db.user_tokens i.fresh_id ≡ none
    → ((login k i now w).0 ≡ ok (login_of k i.fresh_id true now))
      × (balance_of (login k i now w).1.db i.fresh_id ≡ signup_bonus_tokens)
unfolding login generate_tokens_for_user update_refresh_token new-Entry ◌+ℤ◌
new_account k i now w e f =
    let p = new-Entry i now w e in
    let runs = >>=-of_ok (find_or_create_user i now) (generate_tokens_for_user k now) w p.runs in
    let paid = (grant_signup_bonus-Posts i.fresh_id now (made i w)).balance in
    (rw runs refl, rw runs (paid ∙ ap (λ (o : Option UserToken). first_balance o now) f))

-- After a login, a login with the same email, through either provider, is of the same user and not of a
-- new one, gives out no tokens of the token economy, and the account holds its refresh token.
pub login_again :
    (k : Keys) (i j : Identity) (now later : DateTime) (w : World)
    → j.email ≡ i.email
    → let w1 = (login k i now w).1 in
      let w2 = (login k j later w1).1 in
      (u : ℕ) × (b : Bool) × ((login k i now w).0 ≡ ok (login_of k u b now))
      × ((login k j later w1).0 ≡ ok (login_of k u false later))
      × (w2.db.user_tokens ≡ w1.db.user_tokens)
      × (w2.db.token_transactions ≡ w1.db.token_transactions)
      × Holds j.email (create_refresh_token k u later) u w2.db
unfolding update_refresh_token
login_again k i j now later w same =
    let w1 = (login k i now w).1 in
    let first = login-Holds k i now w in
    let h = first.3 in
    let again = known k j later w1 h.row (rw same h.in_table) h.active in
    (
      first.0,
      first.1,
      first.2,
      rw again rw h.is_user refl,
      rw again refl,
      rw again refl,
      rw again rw h.is_user record {
        row = record h.row { refresh_token = some (create_refresh_token k first.0 later) };
        in_table =
            tokens_given j.email (create_refresh_token k first.0 later) first.0 w1 h.row
              (rw same h.in_table) h.is_user;
        is_user = h.is_user;
        active = h.active;
        holds = refl;
      },
    )

-- A login leaves Redis as it is.
pub login_redis :
    (k : Keys) (i : Identity) (now : DateTime) (w : World) → (login k i now w).1.redis ≡ w.redis
unfolding login generate_tokens_for_user update_refresh_token
login_redis k i now w =
    let p = entry i now w in
    ap (λ (r : Result Login × World). r.1.redis)
      (>>=-of_ok (find_or_create_user i now) (generate_tokens_for_user k now) w p.runs)
    ∙ p.redis
