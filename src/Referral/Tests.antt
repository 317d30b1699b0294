-- ===== src/Referral/Tests.antt =====
-- Invitations on a concrete pair of users.
use logit_be.Common.{String, ◌==◌, if◌then◌else◌, ℕ, ◌≡◌, ◌≢◌, refl, true, none, some, [], ◌∷◌}
use logit_be.Clock.{DateTime}
use logit_be.Rows.User.{User}
use logit_be.World.{World, empty_db, fresh}
use logit_be.World.Action.{ok, raised, http_error}
use logit_be.Tokens.{credit, credit_referral_inviter}
use logit_be.Referral.{
  referred_by, claim, reward, users_with_code, apply_found, apply_referral_code, apply_referral,
  get_or_create_referral_code,
}
use logit_be.Referral.Once.{referred_once, PaysBoth}

abbrev inviter : User
inviter = record {
  id = 3;
  email = "a@logit";
  full_name = none;
  is_active = true;
  oauth_provider = none;
  oauth_provider_id = none;
  referral_code = some "LOGIT-ABCD1234";
  referred_by_user_id = none;
  refresh_token = none;
}

abbrev invitee : User
invitee = record inviter { id = 7; email = "b@logit"; referral_code = none }

abbrev start : World
start = fresh (record empty_db { users = inviter ∷ invitee ∷ [] })

abbrev noon : DateTime
noon = record { year = 2026; month = 1; day = 15; clock = 43200000000 }

first_invitation : (apply_referral_code invitee "LOGIT-ABCD1234" noon start).0 ≡ ok (referred_by 3)
unfolding apply_referral_code apply_found users_with_code claim reward credit
    credit_referral_inviter
first_invitation = refl

own_code : (apply_referral inviter "LOGIT-ABCD1234" noon start).0 ≡ raised (http_error 400)
unfolding apply_referral apply_referral_code apply_found users_with_code
own_code = refl

-- The code of another user comes first.
abbrev draws : ℕ → String
draws i = if i == 0 then "LOGIT-ABCD1234" else "LOGIT-NEW00000"

taken_code : (get_or_create_referral_code draws invitee start).0 ≡ ok "LOGIT-NEW00000"
unfolding get_or_create_referral_code users_with_code
taken_code = refl

referred_once_example :
    let w' = (apply_referral_code invitee "LOGIT-ABCD1234" noon start).1 in
    PaysBoth 3 7 start.db w'.db
    × ((x : ℕ) → (apply_referral_code invitee "LOGIT-ABCD1234" noon w').0 ≢ ok (referred_by x))
    × ((apply_referral_code invitee "LOGIT-ABCD1234" noon w').1.db.user_tokens ≡ w'.db.user_tokens)
referred_once_example =
    referred_once invitee invitee "LOGIT-ABCD1234" "LOGIT-ABCD1234" noon noon 3 start refl
      first_invitation
