-- ===== src/Tokens/Ledger.antt =====
-- What a token operation does to the books: the balances of `user_tokens` and the amounts of
-- `token_transactions` (src/tokens/models.py).
use logit_be.Common.{
  ℕ, ℤ, pos, ◌+ℤ◌, ◌≤ℤ◌, int_laws, ◌≡◌, ◌≢◌, refl, none, some, List, [], ◌∷◌, ◌==◌, if◌then◌else◌,
}
use logit_be.Rows.Token.{TokenTransaction}
use logit_be.World.{Db}

-- A user with no row has the balance 0.
abbrev pub balance_of : Db → ℕ → ℤ
balance_of d u = elim (d.user_tokens u) [ none ↦ pos 0 | some t ↦ t.balance ]

-- What a transaction means for user `u`.
abbrev pub share : ℕ → TokenTransaction → ℤ
share u t = if t.user_id == u then t.amount else pos 0

-- The sum of the amounts of the transactions of user `u`.
unfoldable pub posted : ℕ → List TokenTransaction → ℤ
posted u [] = pos 0
posted u (t ∷ ts) = share u t +ℤ posted u ts

-- Between `a` and `b` user `u` was moved `amount`, with a transaction to show for it, and nobody
-- else and no other table was touched.
pub record Posts (u : ℕ) (amount : ℤ) (a b : Db) : Type 0 where
  pub balance : balance_of b u ≡ balance_of a u +ℤ amount
  pub history :
      (v : ℕ)
      → posted v b.token_transactions
        ≡ (if u == v then amount else pos 0) +ℤ posted v a.token_transactions
  pub others : (v : ℕ) → u ≢ v → b.user_tokens v ≡ a.user_tokens v
  pub frame :
      record b { user_tokens = a.user_tokens; token_transactions = a.token_transactions } ≡ a

-- Every balance is the sum of its transactions.
pub record IsBalanced (d : Db) : Type 0 where
  pub at_user : (u : ℕ) → balance_of d u ≡ posted u d.token_transactions

-- No balance is negative.
pub record IsSolvent (d : Db) : Type 0 where
  pub at_user : (u : ℕ) → pos 0 ≤ℤ balance_of d u

pub Posts-IsBalanced :
    (u : ℕ) (amount : ℤ) (a b : Db) → Posts u amount a b → IsBalanced a → IsBalanced b
Posts-IsBalanced u amount a b p h = record {
  at_user = λ v. grind (int_laws, p.balance, p.history v, p.others v, h.at_user v, h.at_user u);
}

pub Posts-IsSolvent :
    (u : ℕ) (amount : ℤ) (a b : Db)
    → Posts u amount a b
    → pos 0 ≤ℤ balance_of a u +ℤ amount
    → IsSolvent a
    → IsSolvent b
Posts-IsSolvent u amount a b p h s = record {
  at_user = λ v. grind (int_laws, p.balance, p.others v, s.at_user v, s.at_user u);
}

-- One posting after another of the same user.
pub Posts-trans :
    (u : ℕ) (m n : ℤ) (a b c : Db) → Posts u m a b → Posts u n b c → Posts u (m +ℤ n) a c
Posts-trans u m n a b c p q = record {
  balance = grind (int_laws, p.balance, q.balance);
  history = λ v. grind (int_laws, p.history v, q.history v);
  others = λ v e. grind (int_laws, p.others v e, q.others v e);
  frame = rw (← p.frame, ← q.frame) refl;
}
