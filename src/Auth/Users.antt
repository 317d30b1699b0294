-- ===== src/Auth/Users.antt =====
-- `create_user` and `update_user` of src/users/service.py, and `update_current_user` of
-- src/users/router.py. The phone of a user is left out.
use logit_be.Common.{ℕ, Bool, not, ◌&&◌, Option, none, some, String, ◌∷◌, str_eq, first_row}
use logit_be.Clock.{DateTime}
use logit_be.Rows.User.{User}
use logit_be.World.{Db}
use logit_be.World.Action.{
  Action, pure, raise, raise_if, execute, write, commit, integrity_error, ◌>>=◌, ◌>>◌,
}
use logit_be.Auth.{Keys, has_id, is_some, get_user_by_email, get_current_user, save_user}

pub record UserCreate : Type 0 where
  pub email : String
  pub full_name : Option String
  pub is_active : Bool

-- `model_dump(exclude_unset=True)`: the fields that the request set, which may be null.
pub record UserUpdate : Type 0 where
  pub email : Option (Option String)
  pub full_name : Option (Option String)

abbrev created : ℕ → UserCreate → User
created id u = record {
  id = id;
  email = u.email;
  full_name = u.full_name;
  is_active = u.is_active;
  oauth_provider = none;
  oauth_provider_id = none;
  referral_code = none;
  referred_by_user_id = none;
  refresh_token = none;
}

-- `create_user`, for an id that is drawn; emails are unique.
unfoldable pub create_user : ℕ → UserCreate → Action User
create_user id u = do
  taken ← execute (get_user_by_email u.email)
  raise_if (is_some taken) integrity_error
  write (λ d. record d { users = created id u ∷ d.users })
  commit
  pure (created id u)

-- Whether another user has the email.
abbrev pub has_other : ℕ → String → User → Bool
has_other u email x = str_eq x.email email && not (has_id u x)

abbrev pub taken_by_other : ℕ → String → Db → Bool
taken_by_other u email d = is_some (first_row (has_other u email) d.users)

-- `setattr` of a field that was set; an email of null never reaches the database.
abbrev pub set_email : Option (Option String) → String → String
set_email none old = old
set_email (some none) old = old
set_email (some (some e)) old = e

abbrev pub set_name : Option (Option String) → Option String → Option String
set_name none old = old
set_name (some n) old = n

abbrev pub changed : UserUpdate → User → User
changed c x = record x {
  email = set_email c.email x.email;
  full_name = set_name c.full_name x.full_name;
}

-- What the database refuses: an email of null, and one of another user.
unfoldable pub check_email : ℕ → Option (Option String) → Action (Unit {0})
check_email u none = pure tt
check_email u (some none) = raise integrity_error
check_email u (some (some e)) = execute (taken_by_other u e) >>= λ t. raise_if t integrity_error

-- `update_user`
unfoldable pub update_user : User → UserUpdate → Action User
update_user x c = do
  check_email x.id c.email
  save_user x.id (changed c)
  commit
  pure (changed c x)

-- `update_current_user`
unfoldable pub update_current_user : Keys → DateTime → String → UserUpdate → Action User
update_current_user k now token c = get_current_user k now token >>= λ x. update_user x c
