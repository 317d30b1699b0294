-- ===== src/Chats/Cost.antt =====
-- What a message costs: the charge of `send_chat_stream` and what it pays back.
use text.Mathlib.TextLemmas.{nil-append}
use logit_be.Common.{
  ℕ, ℤ, pos, negsuc, ◌+ℤ◌, ◌-ℤ◌, ltb_ℤ, ◌≡◌, refl, ap, ◌∙◌, subst, Bool, true, false, Option, some,
  String, List, [], ◌∷◌, ◌++◌, where_rows, ◌==◌, if◌then◌else◌, arith, inl, inr, Option-cases,
  Bool-cases,
}
use logit_be.Clock.{DateTime}
use logit_be.Rows.Token.{draft_token_cost, chat_refund, draft_usage}
use logit_be.Rows.Project.{Project, Question}
use logit_be.Rows.Chat.{Chat}
use logit_be.World.{Db, World}
use logit_be.World.Action.{Result, ok, raise, ◌>>=◌, ◌>>◌, >>=-of_ok}
use logit_be.Tokens.{credit, debit}
use logit_be.Tokens.Ledger.{balance_of, Posts, Posts-trans}
use logit_be.Tokens.Effects.{credit-Posts, debit-Posts}
use logit_be.Chats.Relay.{
  relay_pings, relay_quiet, relay_done, relay_error, relay-returns, try-returns,
}
use logit_be.Chats.Stream.{
  Calls, is_quiet, spoken, generate_ai_response_stream, stream-Parts, ends, said,
}
use logit_be.Chats.{
  Chunk, ping, error, content, done, SseEvent, Turn, charged, user_row, assistant_row,
  create_user_chat, get_question_by_id, refund_prededuction, relay, prededuct, answer,
  send_chat_stream,
}

-- The checks that `send_chat_stream` makes of the question, passed.
pub record IsOpen (t : Turn) (id : ℕ) (q : Question) (d : Db) : Type 0 where
  pub project : Project
  pub found : get_question_by_id id d ≡ some q
  pub own : (q.user_id == t.user_id) ≡ true
  pub in_project : where_rows (λ (p : Project). p.id == q.project_id) d.projects ≡ project ∷ []

-- `rows` were added to the chats, the newest first, and the user was moved `amount`.
abbrev pub Wrote : ℕ → ℤ → List Chat → Db → Db → Type 0
Wrote u amount rows a b = Posts u amount (record a { chats = rows ++ a.chats }) b

Posts-add_chat :
    (u : ℕ) (m : ℤ) (a b : Db) (c : Chat)
    → Posts u m a b
    → Posts u m (record a { chats = c ∷ a.chats }) (record b { chats = c ∷ b.chats })
Posts-add_chat u m a b c p = record {
  balance = p.balance;
  history = p.history;
  others = p.others;
  frame =
      ap (λ (d : Db). record d { chats = c ∷ b.chats }) p.frame
      ∙ ap (λ (cs : List Chat). record a { chats = c ∷ cs }) (ap (λ (d : Db). d.chats) p.frame);
}

open_question :
    (t : Turn) (id : ℕ) (q : Question) (text : String) (cs : List Chunk) (fails : Bool)
    (now : DateTime) (w : World)
    → IsOpen t id q w.db
    → send_chat_stream t id text cs fails now w
      ≡ (prededuct t now >>= λ c. answer t q text cs fails now c) w
unfolding send_chat_stream
open_question t id q text cs fails now w h = ground arith

-- The world after the charge.
abbrev paid : Turn → DateTime → World → World
paid t now w =
    let w1 = (debit t.user_id draft_token_cost draft_usage (some "선차감 (채팅/초안)") now w).1 in
    record w1 { committed = w1.db }

prededuct_pays :
    (t : Turn) (now : DateTime) (w : World)
    → t.is_test_user ≡ false
    → ltb_ℤ (balance_of w.db t.user_id) (pos 10) ≡ false
    → prededuct t now w ≡ (ok (charged (some (balance_of w.db t.user_id -ℤ pos 10))), paid t now w)
unfolding prededuct debit
prededuct_pays t now w live enough = ground arith

-- The world before the answer: the charge and the message of the user are committed.
abbrev asked : Turn → Question → String → DateTime → World → World
asked t q text now w =
    let w1 = paid t now w in
    let d = record w1.db { chats = user_row t q text ∷ w1.db.chats } in
    record w1 { db = d; committed = d }

streamed :
    (t : Turn) (id : ℕ) (q : Question) (text : String) (cs : List Chunk) (now : DateTime)
    (w : World)
    → t.is_test_user ≡ false
    → ltb_ℤ (balance_of w.db t.user_id) (pos 10) ≡ false
    → IsOpen t id q w.db
    → (send_chat_stream t id text cs false now w).1
      ≡ (relay t q
          (some (balance_of w.db t.user_id -ℤ pos 10))
          now
          false
          cs
          1
          ""
          (asked t q text now w)).1
unfolding answer create_user_chat
streamed t id q text cs now w live enough h =
    let pre = some (balance_of w.db t.user_id -ℤ pos 10) in
    ap (λ (r : Result (List SseEvent) × World). r.1)
      (open_question t id q text cs false now w h
        ∙ >>=-of_ok (prededuct t now) (λ c. answer t q text cs false now c) w
            (prededuct_pays t now w live enough))
    ∙ try-returns (relay t q pre now false cs 1 "") (λ e. refund_prededuction t now >> raise e)
        (asked t q text now w) (relay-returns t q pre now cs 1 "" (asked t q text now w))

-- What is kept of the charge, and the rows that are written, by the end of the stream.
abbrev pub price : Chunk → ℤ
price (done is_draft) = if is_draft then pos 10 else pos 5
price _ = pos 0

abbrev pub rows_of : Turn → Question → String → String → Chunk → List Chat
rows_of t q text said (done b) = assistant_row t q 1 said b ∷ user_row t q text ∷ []
rows_of t q text said _ = user_row t q text ∷ []

abbrev pub IsEnd : Chunk → Type 0
IsEnd (done b) = Unit
IsEnd error = Unit
IsEnd _ = ⊥

-- The user paid `cost`, the rows were added to the chats, and all of it is committed.
abbrev pub Settled : ℕ → ℤ → List Chat → World → World → Type 0
Settled u cost rows w v = Wrote u (pos 0 -ℤ cost) rows w.db v.db × (v.committed ≡ v.db)

module _ (t : Turn) (q : Question) (text : String) (now : DateTime) (w : World)
    (live : t.is_test_user ≡ false)
    (enough : ltb_ℤ (balance_of w.db t.user_id) (pos 10) ≡ false) where
  asked-Wrote :
      Wrote t.user_id (pos 0 -ℤ pos 10) (user_row t q text ∷ []) w.db (asked t q text now w).db
  asked-Wrote =
      let b = (paid t now w).db in
      Posts-add_chat t.user_id (pos 0 -ℤ pos 10) w.db b (user_row t q text) (
        subst (λ (m : ℤ). Posts t.user_id m w.db b)
          (ap (λ (c : Bool). if c then pos 0 else pos 0 -ℤ pos 10) enough)
          (debit-Posts t.user_id now w (pos 10) draft_usage (some "선차감 (채팅/초안)")))

  paid_back :
      (m total : ℤ) (why : Option String)
      → (pos 0 -ℤ pos 10) +ℤ m ≡ total
      → Wrote t.user_id total
          (user_row t q text ∷ [])
          w.db
          (credit t.user_id m chat_refund why now (asked t q text now w)).1.db
  paid_back m total why e =
      let w2 = asked t q text now w in
      let a = record w.db { chats = user_row t q text ∷ w.db.chats } in
      let c = (credit t.user_id m chat_refund why now w2).1.db in
      subst (λ (n : ℤ). Posts t.user_id n a c) e
        (Posts-trans t.user_id (pos 0 -ℤ pos 10) m a w2.db c asked-Wrote
          (credit-Posts t.user_id now w2 m chat_refund why))

  ended :
      (pre : Option ℤ) (said : String) (e : Chunk) (after : List Chunk)
      → IsEnd e
      → is_quiet after ≡ true
      → Settled t.user_id
          (price e)
          (rows_of t q text said e)
          w
          (relay t q pre now false (e ∷ after) 1 said (asked t q text now w)).1
  unfolding ◌+ℤ◌ ◌-ℤ◌
  ended pre said error after _ h =
      let w2 = asked t q text now w in
      rw (relay_error t q pre now after 1 said w2 live h) (paid_back (pos 10) (pos 0) _ refl, refl)
  ended pre said (done true) after _ h =
      let w2 = asked t q text now w in
      rw (relay_done t q pre now after 1 said true w2 live h)
        (Posts-add_chat t.user_id _ _ _ (assistant_row t q 1 said true) asked-Wrote, refl)
  ended pre said (done false) after _ h =
      let w2 = asked t q text now w in
      rw (relay_done t q pre now after 1 said false w2 live h) (
        Posts-add_chat t.user_id _ _ _ (assistant_row t q 1 said false)
            (paid_back (pos 5) (negsuc 4) _ refl),
        refl,
      )
  ended pre said ping after b h = absurd b
  ended pre said (content c) after b h = absurd b

ends-IsEnd : (m : Calls) → IsEnd (ends m)
ends-IsEnd m = elim (Option-cases m.classification) [
  | inl e ↦ rw e tt
  | inr (c, e) ↦ rw e elim (Bool-cases c.is_new_draft) [
    | inl d ↦ rw d (elim (Option-cases m.draft) [ inl f ↦ rw f tt | inr (s, f) ↦ rw f tt ])
    | inr d ↦ rw d (elim (Bool-cases m.breaks) [ inl f ↦ rw f tt | inr f ↦ rw f tt ])
  ]
]

-- A user that is not a test user, has 10 tokens, and writes to an open question of theirs, pays 10 for
-- a draft, 5 for another answer and nothing when the model fails, whatever the pings; the message and,
-- unless it fails, the whole text of the model are saved as one row each, nothing else changes in the
-- database, and it is all committed.
pub message_price :
    (t : Turn) (id : ℕ) (q : Question) (text : String) (now : DateTime) (w : World) (m : Calls)
    (waits : List ℕ)
    → t.is_test_user ≡ false
    → ltb_ℤ (balance_of w.db t.user_id) (pos 10) ≡ false
    → IsOpen t id q w.db
    → Settled t.user_id
        (price (ends m))
        (rows_of t q text (said m) (ends m))
        w
        (send_chat_stream t id text (generate_ai_response_stream m waits) false now w).1
message_price t id q text now w m waits live enough h =
    let p = stream-Parts m waits in
    let pre = some (balance_of w.db t.user_id -ℤ pos 10) in
    let w2 = asked t q text now w in
    rw (streamed t id q text (generate_ai_response_stream m waits) now w live enough h) rw p.split
      rw (relay_quiet t q pre now p.before (ends m ∷ p.after) 1 "" w2 p.before_quiet) rw
      (nil-append (spoken p.before)) rw p.text_said
      (ended t q text now w live enough pre (said m) (ends m) p.after (ends-IsEnd m) p.after_quiet)

-- A client of such a user that leaves before the end of the stream has paid 10 tokens, the price of a
-- draft, and no answer is saved.
pub left_early :
    (t : Turn) (id : ℕ) (q : Question) (text : String) (now : DateTime) (w : World)
    (cs : List Chunk)
    → t.is_test_user ≡ false
    → ltb_ℤ (balance_of w.db t.user_id) (pos 10) ≡ false
    → IsOpen t id q w.db
    → is_quiet cs ≡ true
    → Settled t.user_id
        (pos 10)
        (user_row t q text ∷ [])
        w
        (send_chat_stream t id text cs false now w).1
left_early t id q text now w cs live enough h quiet =
    let pre = some (balance_of w.db t.user_id -ℤ pos 10) in
    let w2 = asked t q text now w in
    rw (streamed t id q text cs now w live enough h) rw (relay_pings t q pre now cs 1 "" w2 quiet)
      (asked-Wrote t q text now w live enough, refl)
