-- ===== src/World/Action.antt =====
-- A service function as an action: it returns or raises, and what it wrote before a raise stays.
use logit_be.Common.{
  ℕ, ℤ, Bool, true, false, Option, none, some, List, [], ◌∷◌, ◌≡◌, if◌then◌else◌, ap, ◌≡◌,
}
use logit_be.World.{Db, Redis, World, PayAppCall}

-- The exceptions that the services raise. Messages are left out; `external` is whatever a library
-- or a remote service raises.
pub data Exception : Type 0 where
  value_error runtime_error key_error type_error multiple_results integrity_error : Exception
  pending_rollback external : Exception
  insufficient_tokens : ℤ → ℤ → Exception
  http_error : ℕ → Exception

pub data Result {ℓ} (A : Type ℓ) : Type ℓ where
  ok : A → Result A
  raised : Exception → Result A

abbrev pub Action : Type 0 → Type 0
Action A = World → Result A × World

module _ {A : Type 0} where
  abbrev pub pure : A → Action A
  pure a w = (ok a, w)

  abbrev pub raise : Exception → Action A
  raise e w = (raised e, w)

  abbrev pub gets : (World → A) → Action A
  gets f w = (ok (f w), w)

  -- A query of the session.
  abbrev pub execute : (Db → A) → Action A
  execute f w = (ok (f w.db), w)

  abbrev pub or_raise : Option A → Exception → Action A
  or_raise none e = raise e
  or_raise (some a) _ = pure a

infixl 5 ◌>>=◌ ◌>>◌
abbrev pub ◌>>=◌ : {A B : Type 0} → Action A → (A → Action B) → Action B
◌>>=◌ m f w = let (r, w') = m w in elim r [ ok a ↦ f a w' | raised e ↦ raise e w' ]

abbrev pub ◌>>◌ : {A B : Type 0} → Action A → Action B → Action B
m >> k = m >>= λ _. k

-- `try: m except Exception as e: handler`
abbrev pub try : {A : Type 0} → Action A → (Exception → Action A) → Action A
try m handler w = let (r, w') = m w in elim r [ ok a ↦ (ok a, w') | raised e ↦ handler e w' ]

abbrev pub raise_if : Bool → Exception → Action (Unit {0})
raise_if c e w = (if c then raised e else ok tt, w)

-- `session.add` of a new or changed row.
abbrev pub write : (Db → Db) → Action (Unit {0})
write f w = (ok tt, record w { db = f w.db })

abbrev pub commit : Action (Unit {0})
commit w = (ok tt, record w { committed = w.db })

abbrev pub rollback : Action (Unit {0})
rollback w = (ok tt, record w { db = w.committed; session_failed = false })

-- A flush that violates a constraint: SQLAlchemy rolls the transaction back, and until the program calls
-- `rollback` itself each further statement of the session raises PendingRollbackError.
abbrev pub fail_flush : {A : Type 0} → Action A
fail_flush w = (raised integrity_error, record w { db = w.committed; session_failed = true })

-- The first statement after a point where a flush may have failed.
abbrev pub use_session : Action (Unit {0})
use_session w = (if w.session_failed then raised pending_rollback else ok tt, w)

-- `Result.scalar_one_or_none`
abbrev pub scalar_one_or_none : {A : Type 0} → List A → Action (Option A)
scalar_one_or_none [] = pure none
scalar_one_or_none (x ∷ []) = pure (some x)
scalar_one_or_none (x ∷ y ∷ r) = raise multiple_results

-- A Redis command that returns nothing of use.
abbrev pub on_redis : (Redis → Redis) → Action (Unit {0})
on_redis f w = (ok tt, record w { redis = f w.redis })

abbrev pub call_payapp : PayAppCall → Action (Unit {0})
call_payapp c w = (ok tt, record w { calls = c ∷ w.calls })

-- A step that returns hands its value and its world to the rest.
pub >>=-of_ok :
    {A B : Type 0} (m : Action A) (f : A → Action B) (w : World) {a : A} {w' : World}
    → m w ≡ (ok a, w')
    → (m >>= f) w ≡ f a w'
>>=-of_ok m f w e =
    ap (λ (p : Result _ × World). elim p.0 [ ok a ↦ f a p.1 | raised x ↦ (raised x, p.1) ]) e

-- A step that raises ends the action.
pub >>=-of_raised :
    {A B : Type 0} (m : Action A) (f : A → Action B) (w : World) {x : Exception} {w' : World}
    → m w ≡ (raised x, w')
    → (m >>= f) w ≡ (raised x, w')
>>=-of_raised m f w e =
    ap (λ (p : Result _ × World). elim p.0 [ ok a ↦ f a p.1 | raised y ↦ (raised y, p.1) ]) e
