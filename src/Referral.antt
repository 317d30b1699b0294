-- ===== src/Referral.antt =====
-- Invitations (src/users/referral.py, and the two endpoints of src/users/router.py that call it). The
-- code that a user enters is taken after `upper()` and `strip()`; `draw i` is the code of the i-th
-- call of `_generate_code`.
pub mod Once
pub mod Tests
use logit_be.Common.{
  ℕ, zero, suc, ◌==◌, Bool, true, false, not, ◌&&◌, Option, none, some, String, List, [], ◌∷◌,
  length, where_rows, update_rows, str_eq, if◌then◌else◌,
}
use logit_be.Text.{truthy}
use logit_be.Clock.{DateTime}
use logit_be.Rows.Token.{referral_tokens, referral_invitee}
use logit_be.Rows.User.{User}
use logit_be.World.{Db}
use logit_be.World.Action.{
  Action, pure, raise, execute, write, commit, rollback, try, scalar_one_or_none, runtime_error,
  http_error, ◌>>=◌, ◌>>◌,
}
use logit_be.Tokens.{credit, credit_referral_inviter}

-- `select(User).where(User.referral_code == code)`
unfoldable pub users_with_code : String → Db → List User
users_with_code code d =
    where_rows (λ u. elim u.referral_code [ none ↦ false | some c ↦ str_eq c code ]) d.users

-- What `apply_referral_code` answers.
pub data Outcome : Type 0 where
  referred_by : ℕ → Outcome
  already_referred invalid_code self_referral : Outcome

abbrev pub is_none : Option ℕ → Bool
is_none none = true
is_none (some n) = false

-- `User.id == id, User.referred_by_user_id.is_(None)`
abbrev pub is_unclaimed : ℕ → User → Bool
is_unclaimed id u = u.id == id && is_none u.referred_by_user_id

-- The claim of an invitation, with the number of rows that it changed.
unfoldable pub claim : ℕ → ℕ → Action ℕ
claim id inviter = do
  n ← execute (λ d. length (where_rows (is_unclaimed id) d.users))
  write (λ d. record d {
    users =
        update_rows (is_unclaimed id) (λ u. record u { referred_by_user_id = some inviter })
          d.users;
  })
  pure n

-- The rewards of both sides.
unfoldable pub reward : ℕ → ℕ → DateTime → Action Outcome
reward id inviter now = do
  credit_referral_inviter inviter referral_tokens none now
  credit id referral_tokens referral_invitee (some "초대 코드 입력 보상") now
  pure (referred_by inviter)

-- The claim decides: of two requests one changes a row.
claim_and_reward : ℕ → ℕ → DateTime → Action Outcome
claim_and_reward id inviter now = do
  n ← claim id inviter
  if n == 0 then pure already_referred else reward id inviter now

unfoldable pub apply_found : User → DateTime → Option User → Action Outcome
unfolding claim_and_reward
apply_found invitee now none = pure invalid_code
apply_found invitee now (some inviter) =
    if inviter.id == invitee.id
    then pure self_referral
    else try (claim_and_reward invitee.id inviter.id now) (λ e. rollback >> raise e)

-- `apply_referral_code`, where `invitee` is the user as the request read it, perhaps a while ago.
unfoldable pub apply_referral_code : User → String → DateTime → Action Outcome
unfolding apply_found
apply_referral_code invitee code now =
    if not (is_none invitee.referred_by_user_id) then pure already_referred else (do
      rows ← execute (users_with_code code)
      inviter ← scalar_one_or_none rows
      apply_found invitee now inviter)

-- `apply_referral` of the router: what did not succeed is rolled back.
conclude : Outcome → Action (Unit {0})
conclude (referred_by v) = commit
conclude already_referred = rollback >> raise (http_error 409)
conclude invalid_code = rollback >> raise (http_error 404)
conclude self_referral = rollback >> raise (http_error 400)

unfoldable pub apply_referral : User → String → DateTime → Action (Unit {0})
unfolding conclude
apply_referral user code now = apply_referral_code user code now >>= conclude

-- Up to `n` draws of a code that no user has.
try_codes : ℕ → (ℕ → String) → User → Action String
try_codes zero draw user = raise runtime_error
try_codes (suc n) draw user =
    let more = try_codes n (λ i. draw (suc i)) user in
    do
      rows ← execute (users_with_code (draw 0))
      found ← scalar_one_or_none rows
      elim found [
        | none ↦
            write (λ d. record d {
              users =
                  update_rows (λ u. u.id == user.id)
                    (λ u. record u { referral_code = some (draw 0) }) d.users;
            })
            >> pure (draw 0)
        | some other ↦ more
      ]

unfoldable pub get_or_create_referral_code : (ℕ → String) → User → Action String
unfolding try_codes
get_or_create_referral_code draw user = elim user.referral_code [
  | none ↦ try_codes 10 draw user
  | some code ↦ if truthy (some code) then pure code else try_codes 10 draw user
]

-- The code of a user, and how many came by it.
unfoldable pub get_referral_stats : (ℕ → String) → User → Action (String × ℕ)
get_referral_stats draw user = do
  code ← get_or_create_referral_code draw user
  n ← execute (λ d. length (
      where_rows (λ u. elim u.referred_by_user_id [ none ↦ false | some v ↦ v == user.id ])
        d.users))
  pure (code, n)
