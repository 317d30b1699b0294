-- ===== src/Tokens/Charges.antt =====
-- Charging a balance (src/tokens/service.py: `debit`, `debit_chat`, `debit_draft`).
use logit_be.Common.{
  ℕ, ℤ, pos, ◌+ℤ◌, ◌-ℤ◌, ltb_ℤ, int_laws, ◌≡◌, subst, Option, String, arith, if◌then◌else◌,
}
use logit_be.Clock.{DateTime}
use logit_be.Rows.Token.{TokenTransactionType, chat_token_cost, draft_token_cost}
use logit_be.World.{World}
use logit_be.World.Action.{Result, ok, raised, insufficient_tokens}
use logit_be.Tokens.{credit, debit, debit_chat, debit_draft}
use logit_be.Tokens.Ledger.{balance_of, Posts, Posts-trans}
use logit_be.Tokens.Effects.{charged, credit-Posts, debit-Posts}

-- What a charge of `cost` answers at a balance.
abbrev pub Charge : ℤ → ℤ → Result ℤ
Charge balance cost =
    if ltb_ℤ balance cost then raised (insufficient_tokens balance cost) else ok (balance -ℤ cost)

module _ (u : ℕ) (now : DateTime) (w : World) where
  pub debit-result :
      (cost : ℤ) (kind : TokenTransactionType) (why : Option String)
      → (debit u cost kind why now w).0 ≡ Charge (balance_of w.db u) cost
  unfolding debit
  debit-result cost kind why = ground arith

  -- A chat costs 5 and a draft 10: from less than that nothing is taken, and the exception tells the
  -- balance; otherwise the balance falls by the cost, with a transaction of that amount.
  usage_costs :
      ((debit_chat u now w).0 ≡ Charge (balance_of w.db u) (pos 5))
      × Posts u (charged (balance_of w.db u) (pos 5)) w.db (debit_chat u now w).1.db
      × ((debit_draft u now w).0 ≡ Charge (balance_of w.db u) (pos 10))
      × Posts u (charged (balance_of w.db u) (pos 10)) w.db (debit_draft u now w).1.db
  unfolding debit_chat debit_draft
  usage_costs = (
    debit-result chat_token_cost _ _,
    debit-Posts u now w chat_token_cost _ _,
    debit-result draft_token_cost _ _,
    debit-Posts u now w draft_token_cost _ _,
  )

paid_in_full :
    (balance cost left : ℤ) → Charge balance cost ≡ ok left → charged balance cost +ℤ cost ≡ pos 0
paid_in_full balance cost left h = grind int_laws

-- A charge that went through and a refund of the same amount leave the balance as it was.
refund_restores :
    (u : ℕ) (cost left : ℤ) (k k' : TokenTransactionType) (why why' : Option String)
    (t t' : DateTime) (w : World)
    → (debit u cost k why t w).0 ≡ ok left
    → let w' = (credit u cost k' why' t' (debit u cost k why t w).1).1 in Posts u (pos 0) w.db w'.db
refund_restores u cost left k k' why why' t t' w paid =
    let w1 = (debit u cost k why t w).1 in
    let sums : charged (balance_of w.db u) cost +ℤ cost ≡ pos 0 =
      paid_in_full (balance_of w.db u) cost left (rw debit-result at paid) in
    subst (λ m. Posts u m w.db (credit u cost k' why' t' w1).1.db) sums
      (Posts-trans u _ cost w.db w1.db _ (debit-Posts u t w cost k why)
        (credit-Posts u t' w1 cost k' why'))
