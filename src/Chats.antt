-- ===== src/Chats.antt =====
-- src/chats/service.py: a message of a user, its charge and the answer that is streamed back, and the
-- check of src/chats/router.py before it. The stream of src/chats/llm_service.py is an argument:
-- the chunks until it ends, raises, or the client leaves.
pub mod Stream
pub mod Relay
pub mod Cost
pub mod History
pub mod Pages
pub mod Sorted
pub mod Materials
pub mod Prompt
pub mod Own
pub mod MaterialTests
pub mod Tests
use Prim.Native.String.{◌++◌ as str_append}
use logit_be.Common.{
  ℕ, ◌+◌, ℤ, pos, ◌-ℤ◌, ltb_ℤ, Bool, true, false, not, ◌==◌, Option, none, some, String, List, [],
  ◌∷◌, where_rows, first_row, if◌then◌else◌, ◌&&◌,
}
use logit_be.Clock.{DateTime}
use logit_be.Rows.Token.{UserToken, chat_token_cost, draft_token_cost, draft_usage, chat_refund}
use logit_be.Rows.Project.{Project, Question, is_live}
use logit_be.Rows.Subscription.{logit}
use logit_be.Rows.Chat.{Chat, ChatRole, user, assistant}
use logit_be.World.{Db}
use logit_be.World.Action.{
  Action, Exception, pure, raise, raise_if, execute, write, commit, try, scalar_one_or_none,
  insufficient_tokens, external, http_error, ◌>>=◌, ◌>>◌,
}
use logit_be.Tokens.{credit, debit}
use logit_be.Tokens.Monthly.{ensure_monthly_tokens}
use logit_be.Subscription.{get_active_subscription}

-- What `generate_ai_response_stream` yields.
pub data Chunk : Type 0 where
  ping error : Chunk
  content : String → Chunk
  done : Bool → Chunk

-- What the client receives: a `done` event has the id of the answer, whether it is a draft, the
-- balance, and the tokens that were used, where the code gives them.
pub data SseEvent : Type 0 where
  ping error not_found forbidden no_project : SseEvent
  content : String → SseEvent
  done : Option ℕ → Bool → Option ℤ → Option ℤ → SseEvent

-- Id and instant of a new row.
pub record Stamp : Type 0 where
  pub id : ℕ
  pub at : DateTime

-- A message of a user to a question of theirs. `stamps n` is for the n-th row that is made.
pub record Turn : Type 0 where
  pub user_id : ℕ
  pub is_test_user : Bool
  pub experience_ids : Option (List String)
  pub stamps : ℕ → Stamp

abbrev pub add_chat : Chat → Action (Unit {0})
add_chat c = write (λ d. record d { chats = c ∷ d.chats }) >> commit

abbrev pub user_row : Turn → Question → String → Chat
user_row t q text = record {
  id = (t.stamps 0).id;
  project_id = q.project_id;
  question_id = q.id;
  user_id = q.user_id;
  role = user;
  content = text;
  experience_ids = t.experience_ids;
  is_draft = false;
  created_at = (t.stamps 0).at;
}

abbrev pub assistant_row : Turn → Question → ℕ → String → Bool → Chat
assistant_row t q n text is_draft = record {
  id = (t.stamps n).id;
  project_id = q.project_id;
  question_id = q.id;
  user_id = q.user_id;
  role = assistant;
  content = text;
  experience_ids = t.experience_ids;
  is_draft = is_draft;
  created_at = (t.stamps n).at;
}

-- `create_user_chat`
unfoldable pub create_user_chat : Turn → Question → String → Action (Unit {0})
create_user_chat t q text = add_chat (user_row t q text)

-- `create_assistant_chat`
unfoldable pub create_assistant_chat : Turn → Question → ℕ → String → Bool → Action (Unit {0})
create_assistant_chat t q n text is_draft = add_chat (assistant_row t q n text is_draft)

-- `get_question_by_id`
unfoldable pub get_question_by_id : ℕ → Db → Option Question
get_question_by_id id d = first_row (λ q. q.id == id && is_live q.deleted_at) d.questions

-- `_refund_prededuction`; what its credit raises is swallowed.
unfoldable pub refund_prededuction : Turn → DateTime → Action (Unit {0})
refund_prededuction t now =
    if t.is_test_user
    then pure tt
    else try (credit t.user_id draft_token_cost chat_refund (some "AI 오류 전액 환불") now >> commit)
        (λ e. pure tt)

abbrev pub actual_cost : Bool → ℤ
actual_cost is_draft = if is_draft then draft_token_cost else chat_token_cost

-- The balance after a `done`: the difference to what was charged is paid back.
unfoldable pub settle_cost : Turn → Option ℤ → Bool → DateTime → Action (Option ℤ)
settle_cost t prededucted is_draft now =
    if t.is_test_user
    then pure none
    else if ltb_ℤ (pos 0) (draft_token_cost -ℤ actual_cost is_draft)
    then (credit t.user_id (draft_token_cost -ℤ actual_cost is_draft) chat_refund
          (some "채팅 비용 조정 (선차감 차액 환불)") now
        >>= λ balance. pure (some balance))
    else pure prededucted

-- What the service does at a `done`.
unfoldable pub finish : Turn → Question → Option ℤ → ℕ → String → Bool → DateTime → Action SseEvent
finish t q prededucted n text is_draft now = do
  balance ← settle_cost t prededucted is_draft now
  create_assistant_chat t q n text is_draft
  pure (
      done (some (t.stamps n).id) is_draft balance
        (some (if t.is_test_user then pos 0 else actual_cost is_draft)))

abbrev emit : SseEvent → Action (List SseEvent) → Action (List SseEvent)
emit e m = m >>= λ es. pure (e ∷ es)

-- The loop over the chunks, with the answer so far; `fails` tells whether the stream ends by raising.
unfoldable pub relay :
    Turn → Question → Option ℤ → DateTime → Bool → List Chunk → ℕ → String → Action (List SseEvent)
relay t q pre now fails [] n text = if fails then raise external else pure []
relay t q pre now fails (ping ∷ cs) n text = emit ping (relay t q pre now fails cs n text)
relay t q pre now fails (content c ∷ cs) n text =
    emit (content c) (relay t q pre now fails cs n (str_append text c))
relay t q pre now fails (done b ∷ cs) n text =
    finish t q pre n text b now >>= λ e. emit e (relay t q pre now fails cs (n + 1) text)
relay t q pre now fails (error ∷ cs) n text =
    refund_prededuction t now >> emit error (relay t q pre now fails cs n text)

-- The charge before the answer.
pub data Charge : Type 0 where
  charged : Option ℤ → Charge
  short : ℤ → Charge

abbrev short_of : Exception → Action Charge
short_of (insufficient_tokens balance cost) = pure (short balance)
short_of e = raise e

unfoldable pub prededuct : Turn → DateTime → Action Charge
prededuct t now =
    if t.is_test_user
    then pure (charged none)
    else try
        (debit t.user_id draft_token_cost draft_usage (some "선차감 (채팅/초안)") now >>= λ balance.
          commit >> pure (charged (some balance)))
        short_of

-- From the charge on.
unfoldable pub answer :
    Turn → Question → String → List Chunk → Bool → DateTime → Charge → Action (List SseEvent)
answer t q text cs fails now (short balance) = pure (done none false (some balance) none ∷ [])
answer t q text cs fails now (charged pre) = do
  create_user_chat t q text
  try (relay t q pre now fails cs 1 "") (λ e. refund_prededuction t now >> raise e)

abbrev pub with_project :
    Turn
    → Question
    → String
    → List Chunk
    → Bool
    → DateTime
    → Option Project
    → Action (List SseEvent)
with_project t q text cs fails now none = pure (no_project ∷ [])
with_project t q text cs fails now (some p) =
    prededuct t now >>= λ c. answer t q text cs fails now c

abbrev pub with_question :
    Turn → String → List Chunk → Bool → DateTime → Option Question → Action (List SseEvent)
with_question t text cs fails now none = pure (not_found ∷ [])
with_question t text cs fails now (some q) =
    if not (q.user_id == t.user_id) then pure (forbidden ∷ []) else do
      rows ← execute (λ d. where_rows (λ (p : Project). p.id == q.project_id) d.projects)
      p ← scalar_one_or_none rows
      with_project t q text cs fails now p

-- `send_chat_stream`
unfoldable pub send_chat_stream :
    Turn → ℕ → String → List Chunk → Bool → DateTime → Action (List SseEvent)
send_chat_stream t question_id text cs fails now = do
  q ← execute (get_question_by_id question_id)
  with_question t text cs fails now q

-- The balance of the row that `ensure_monthly_tokens` leaves in the session.
abbrev pub current_balance : ℕ → Db → ℤ
current_balance u d = elim (d.user_tokens u) [ none ↦ pos 0 | some token ↦ token.balance ]

-- `send_chat` of the router: too few tokens are refused with 429 before the stream begins.
unfoldable pub send_chat :
    Turn → ℕ → String → List Chunk → Bool → DateTime → DateTime → Action (List SseEvent)
send_chat t question_id text cs fails now later =
    if t.is_test_user then send_chat_stream t question_id text cs fails later else do
      s ← get_active_subscription t.user_id logit now
      ensure_monthly_tokens t.user_id s now later
      commit
      balance ← execute (current_balance t.user_id)
      raise_if (ltb_ℤ balance draft_token_cost) (http_error 429)
      send_chat_stream t question_id text cs fails later
