-- ===== src/Referral/Once.antt =====
-- An invitation counts once (src/users/referral.py: `apply_referral_code`).
use logit_be.Common.{
  ℕ, ◌+ℤ◌, int_laws, ◌==◌, ==_iff, ◌≡◌, ◌≢◌, refl, sym, subst, false, Option, none, some, String,
  List, [], ◌∷◌, where_rows, update_rows, arith,
}
use logit_be.Clock.{DateTime}
use logit_be.Rows.Token.{referral_tokens, referral_invitee}
use logit_be.Rows.User.{User}
use logit_be.World.{World, Db}
use logit_be.World.Action.{ok, scalar_one_or_none, ◌>>=◌}
use logit_be.Tokens.{credit, credit_referral_inviter}
use logit_be.Tokens.Ledger.{balance_of}
use logit_be.Tokens.Effects.{credit-Posts, credit_referral_inviter-Posts}
use logit_be.Referral.{
  referred_by, is_unclaimed, claim, reward, users_with_code, apply_found, apply_referral_code,
}

-- No row of the user is open for an invitation.
abbrev pub IsClaimed : ℕ → Db → Type 0
IsClaimed id d = where_rows (is_unclaimed id) d.users ≡ []

update-IsClaimed :
    (id inviter : ℕ) (us : List User)
    → where_rows
        (is_unclaimed id)
        (update_rows (is_unclaimed id) (λ u. record u { referred_by_user_id = some inviter }) us)
      ≡ []
update-IsClaimed id inviter [] = refl
update-IsClaimed id inviter (u ∷ us) = ground (arith, update-IsClaimed id inviter us)

reward-users :
    (id inviter : ℕ) (now : DateTime) (w : World)
    → (reward id inviter now w).1.db.users ≡ w.db.users
unfolding reward credit credit_referral_inviter
reward-users id inviter now w = ground arith

-- The claim comes first, so an invitation that succeeds leaves no row open.
found-IsClaimed :
    (invitee : User) (now : DateTime) (o : Option User) (v : ℕ) (w : World)
    → (apply_found invitee now o w).0 ≡ ok (referred_by v)
    → IsClaimed invitee.id (apply_found invitee now o w).1.db
unfolding apply_found claim
found-IsClaimed invitee now none v w h = grind arith
found-IsClaimed invitee now (some inviter) v w h =
    let kept = reward-users invitee.id inviter.id now (claim invitee.id inviter.id w).1 in
    let closed = update-IsClaimed invitee.id inviter.id w.db.users in
    ground (arith, h, kept, closed)

-- With no row open the request fails, and moves no tokens.
found-fails :
    (invitee : User) (now : DateTime) (o : Option User) (w : World)
    → IsClaimed invitee.id w.db
    → ((v : ℕ) → (apply_found invitee now o w).0 ≢ ok (referred_by v))
      × ((apply_found invitee now o w).1.db.user_tokens ≡ w.db.user_tokens)
unfolding apply_found claim
found-fails invitee now none w h = (λ v e. grind arith, refl)
found-fails invitee now (some inviter) w h = (λ v e. ground (arith, h, e), ground (arith, h))

-- The same for the rows that a code finds.
rows-IsClaimed :
    (invitee : User) (now : DateTime) (rows : List User) (v : ℕ) (w : World)
    → ((scalar_one_or_none rows >>= apply_found invitee now) w).0 ≡ ok (referred_by v)
    → IsClaimed invitee.id ((scalar_one_or_none rows >>= apply_found invitee now) w).1.db
rows-IsClaimed invitee now [] v w h = found-IsClaimed invitee now none v w h
rows-IsClaimed invitee now (u ∷ []) v w h = found-IsClaimed invitee now (some u) v w h
rows-IsClaimed invitee now (u ∷ q ∷ us) v w h = grind arith

rows-fail :
    (invitee : User) (now : DateTime) (rows : List User) (w : World)
    → IsClaimed invitee.id w.db
    → ((v : ℕ) → ((scalar_one_or_none rows >>= apply_found invitee now) w).0 ≢ ok (referred_by v))
      × (((scalar_one_or_none rows >>= apply_found invitee now) w).1.db.user_tokens
          ≡ w.db.user_tokens)
rows-fail invitee now [] w h = found-fails invitee now none w h
rows-fail invitee now (u ∷ []) w h = found-fails invitee now (some u) w h
rows-fail invitee now (u ∷ q ∷ us) w h = (λ v e. grind arith, refl)

module _ (code : String) (now : DateTime) where
  apply-IsClaimed :
      (invitee : User) (v : ℕ) (w : World)
      → (apply_referral_code invitee code now w).0 ≡ ok (referred_by v)
      → IsClaimed invitee.id (apply_referral_code invitee code now w).1.db
  unfolding apply_referral_code
  apply-IsClaimed invitee v w h =
      let found = rows-IsClaimed invitee now (users_with_code code w.db) v w in
      ground (arith, h, found)

  apply-fails :
      (invitee : User) (w : World)
      → IsClaimed invitee.id w.db
      → ((v : ℕ) → (apply_referral_code invitee code now w).0 ≢ ok (referred_by v))
        × ((apply_referral_code invitee code now w).1.db.user_tokens ≡ w.db.user_tokens)
  unfolding apply_referral_code
  apply-fails invitee w h =
      let (fails, same) = rows-fail invitee now (users_with_code code w.db) w h in
      (λ v e. ground (arith, e, fails v), ground (arith, same))

-- What an invitation does to the balances: 10 for each side, which are two users, and nothing for others.
abbrev pub PaysBoth : ℕ → ℕ → Db → Db → Type 0
PaysBoth inviter id a b =
    (inviter ≢ id)
    × (balance_of b inviter ≡ balance_of a inviter +ℤ referral_tokens)
    × (balance_of b id ≡ balance_of a id +ℤ referral_tokens)
    × ((u : ℕ) → inviter ≢ u → id ≢ u → b.user_tokens u ≡ a.user_tokens u)

reward_answers :
    (id inviter : ℕ) (now : DateTime) (w : World)
    → (reward id inviter now w).0 ≡ ok (referred_by inviter)
unfolding reward credit credit_referral_inviter
reward_answers id inviter now w = ground arith

reward-PaysBoth :
    (id inviter : ℕ) (now : DateTime) (w : World)
    → inviter ≢ id
    → PaysBoth inviter id w.db (reward id inviter now w).1.db
unfolding reward credit credit_referral_inviter
reward-PaysBoth id inviter now w h =
    let w1 = (credit_referral_inviter inviter referral_tokens none now w).1 in
    let p = credit_referral_inviter-Posts inviter now w referral_tokens none in
    let q = credit-Posts id now w1 referral_tokens referral_invitee (some "초대 코드 입력 보상") in
    (h, grind int_laws, grind int_laws, λ u a b. grind arith)

-- A success is that of the rewards.
found_iff :
    (invitee inviter : User) (now : DateTime) (v : ℕ) (w : World)
    → let w' = (claim invitee.id inviter.id w).1 in
      (apply_found invitee now (some inviter) w).0 ≡ ok (referred_by v)
      → ((inviter.id == invitee.id) ≡ false)
        × (v ≡ inviter.id)
        × ((apply_found invitee now (some inviter) w).1 ≡ (reward invitee.id inviter.id now w').1)
unfolding apply_found claim
found_iff invitee inviter now v w h =
    let answer = reward_answers invitee.id inviter.id now (claim invitee.id inviter.id w).1 in
    ground (arith, h, answer)

found-PaysBoth :
    (invitee : User) (now : DateTime) (o : Option User) (v : ℕ) (w : World)
    → (apply_found invitee now o w).0 ≡ ok (referred_by v)
    → PaysBoth v invitee.id w.db (apply_found invitee now o w).1.db
unfolding apply_found claim
found-PaysBoth invitee now none v w h = grind arith
found-PaysBoth invitee now (some inviter) v w h =
    let (differ, same, after) = found_iff invitee inviter now v w h in
    let w' = (claim invitee.id inviter.id w).1 in
    let ne : inviter.id ≢ invitee.id =
      λ e. grind (arith, ==_iff inviter.id invitee.id, e, differ) in
    subst (λ n. PaysBoth n invitee.id w.db (apply_found invitee now (some inviter) w).1.db)
      (sym same)
      (subst (λ x. PaysBoth inviter.id invitee.id w.db x.db) (sym after)
        (reward-PaysBoth invitee.id inviter.id now w' ne))

rows-PaysBoth :
    (invitee : User) (now : DateTime) (rows : List User) (v : ℕ) (w : World)
    → ((scalar_one_or_none rows >>= apply_found invitee now) w).0 ≡ ok (referred_by v)
    → PaysBoth v invitee.id w.db ((scalar_one_or_none rows >>= apply_found invitee now) w).1.db
rows-PaysBoth invitee now [] v w h = found-PaysBoth invitee now none v w h
rows-PaysBoth invitee now (u ∷ []) v w h = found-PaysBoth invitee now (some u) v w h
rows-PaysBoth invitee now (u ∷ q ∷ us) v w h = grind arith

paid-PaysBoth :
    (invitee : User) (code : String) (now : DateTime) (v : ℕ) (w : World)
    → (apply_referral_code invitee code now w).0 ≡ ok (referred_by v)
    → PaysBoth v invitee.id w.db (apply_referral_code invitee code now w).1.db
unfolding apply_referral_code
paid-PaysBoth invitee code now v w h =
    let found = rows-PaysBoth invitee now (users_with_code code w.db) v w in
    ground (arith, h, found)

-- An invitation that succeeds pays 10 tokens to the inviter and 10 to the invited user, who are not the
-- same, and changes no other balance; and after it no request of that user succeeds, whatever the code and
-- however old the copy of the user that the request holds, and it moves no tokens.
pub referred_once :
    (invitee again : User) (code code' : String) (now now' : DateTime) (v : ℕ) (w : World)
    → again.id ≡ invitee.id
    → (apply_referral_code invitee code now w).0 ≡ ok (referred_by v)
    → let w' = (apply_referral_code invitee code now w).1 in
      PaysBoth v invitee.id w.db w'.db
      × ((x : ℕ) → (apply_referral_code again code' now' w').0 ≢ ok (referred_by x))
      × ((apply_referral_code again code' now' w').1.db.user_tokens ≡ w'.db.user_tokens)
referred_once invitee again code code' now now' v w same h =
    let w' = (apply_referral_code invitee code now w).1 in
    let later =
      apply-fails code' now' again w'
        (subst (λ n. IsClaimed n w'.db) (sym same) (apply-IsClaimed code now invitee v w h)) in
    (paid-PaysBoth invitee code now v w h, later.0, later.1)
