-- ===== src/Chats/History.antt =====
-- `get_chat_history_response` of src/chats/service.py: the messages of a question, page by page from the
-- newest. A cursor is the id of the oldest message seen; a text that is no id is no cursor.
use logit_be.Common.{
  ℕ, suc, ltb, Bool, true, false, not, ◌&&◌, ◌||◌, ◌==◌, Option, none, some, String, List, [], ◌∷◌,
  length, where_rows, first_row, take, if◌then◌else◌,
}
use mathlib.Core.List.{reverse}
use logit_be.Clock.{DateTime, before}
use logit_be.Rows.Project.{Project, Question}
use logit_be.Rows.Chat.{Chat}
use logit_be.World.{Db}
use logit_be.World.Action.{Action, pure, raise, execute, scalar_one_or_none, http_error, ◌>>=◌}

-- `ORDER BY created_at DESC`
abbrev pub insert : Chat → List Chat → List Chat
insert c [] = c ∷ []
insert c (x ∷ xs) = if before c.created_at x.created_at then x ∷ insert c xs else c ∷ x ∷ xs

abbrev pub newest_first : List Chat → List Chat
newest_first [] = []
newest_first (c ∷ cs) = insert c (newest_first cs)

abbrev pub same_instant : DateTime → DateTime → Bool
same_instant a b = not (before a b) && not (before b a)

-- What is older than the cursor.
abbrev pub older : Chat → Chat → Bool
older c x =
    before x.created_at c.created_at || same_instant x.created_at c.created_at && ltb x.id c.id

abbrev pub of_question : ℕ → Db → List Chat
of_question q d = where_rows (λ (c : Chat). c.question_id == q) d.chats

abbrev pub get_chat : ℕ → Db → Option Chat
get_chat i d = first_row (λ (c : Chat). c.id == i) d.chats

abbrev pub after_cursor : Option Chat → List Chat → List Chat
after_cursor none cs = cs
after_cursor (some c) cs = where_rows (older c) cs

abbrev pub at_cursor : Option ℕ → Db → Option Chat
at_cursor none d = none
at_cursor (some i) d = get_chat i d

-- Whether a list of ids is true, and the ids of the newest message that has some.
abbrev latest_ids : List Chat → List String
latest_ids [] = []
latest_ids (c ∷ cs) = elim c.experience_ids [
  | none ↦ latest_ids cs
  | some [] ↦ latest_ids cs
  | some (e ∷ es) ↦ e ∷ es
]

-- A page, the oldest message first.
pub record Page : Type 0 where
  pub chats : List Chat
  pub experience_ids : List String
  pub next_cursor : Option ℕ
  pub has_more : Bool

abbrev cursor_of : Bool → List Chat → Option ℕ
cursor_of false cs = none
cursor_of true [] = none
cursor_of true (c ∷ cs) = some c.id

-- From the first `size + 1` rows of the query.
abbrev pub page_of : ℕ → List Chat → Page
page_of size rows =
    let has_more = ltb size (length rows) in
    let shown = reverse (if has_more then take size rows else rows) in
    record {
      chats = shown;
      experience_ids = latest_ids (reverse shown);
      next_cursor = cursor_of has_more shown;
      has_more = has_more;
    }

unfoldable pub get_page : ℕ → Option ℕ → ℕ → Db → Page
get_page q cursor size d =
    page_of size
      (take (suc size) (newest_first (after_cursor (at_cursor cursor d) (of_question q d))))

abbrev pub with_project : ℕ → Option ℕ → ℕ → Option Project → Action (Option Page)
with_project q cursor size none = pure none
with_project q cursor size (some p) = execute (λ d. some (get_page q cursor size d))

abbrev pub with_question : ℕ → Option ℕ → ℕ → Option Question → Action (Option Page)
with_question u cursor size none = pure none
with_question u cursor size (some q) = if not (q.user_id == u) then raise (http_error 403) else do
  rows ← execute (λ d. where_rows (λ (p : Project). p.id == q.project_id) d.projects)
  p ← scalar_one_or_none rows
  with_project q.id cursor size p

unfoldable pub get_chat_history_response : ℕ → ℕ → Option ℕ → ℕ → Action (Option Page)
get_chat_history_response question_id u cursor size = do
  rows ← execute (λ d. where_rows (λ (q : Question). q.id == question_id) d.questions)
  q ← scalar_one_or_none rows
  with_question u cursor size q
