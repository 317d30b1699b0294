-- ===== src/Projects.antt =====
-- src/projects/service.py and src/questions/service.py, with the endpoints of the two routers that call
-- them: projects of users and the questions in them. A primary key that is taken is an integrity error.
pub mod Questions
pub mod Removal
pub mod Lists
pub mod Last
pub mod Tests
use logit_be.Common.{
  ℕ, zero, suc, ◌+◌, ltb, leb, max, Bool, true, false, not, ◌&&◌, ◌==◌, Option, none, some, String,
  List, [], ◌∷◌, length, where_rows, update_rows, first_row, if◌then◌else◌,
}
use logit_be.Clock.{DateTime, Date}
use logit_be.Rows.Project.{Project, Question, is_live}
use logit_be.World.{Db, World}
use logit_be.World.Action.{
  Action, Exception, pure, raise, raise_if, execute, write, commit, scalar_one_or_none, or_raise,
  http_error, integrity_error, ◌>>=◌, ◌>>◌,
}

pub record QuestionCreate : Type 0 where
  pub question : String
  pub max_length : Option ℕ

-- `model_dump(exclude_unset=True)`: the fields that the request set, which may be null.
pub record QuestionUpdate : Type 0 where
  pub question : Option (Option String)
  pub max_length : Option (Option ℕ)
  pub answer : Option (Option String)

pub record ProjectCreate : Type 0 where
  pub company : String
  pub job_position : String
  pub recruit_notice : String
  pub company_talent : Option String
  pub due_date : Option Date
  pub questions : List QuestionCreate

-- A project of a user that is not deleted, and a question of such a one.
abbrev pub owns : ℕ → ℕ → Project → Bool
owns p u x = x.id == p && (x.user_id == u && is_live x.deleted_at)

abbrev pub in_project : ℕ → ℕ → Question → Bool
in_project p u x = x.project_id == p && (x.user_id == u && is_live x.deleted_at)

abbrev pub live_questions : ℕ → ℕ → Db → List Question
live_questions p u d = where_rows (in_project p u) d.questions

abbrev pub has_id : ℕ → Question → Bool
has_id i x = x.id == i

abbrev pub has_project_id : ℕ → Project → Bool
has_project_id i x = x.id == i

-- `SELECT max(order)`
abbrev pub max_order : List Question → ℕ
max_order [] = 0
max_order (q ∷ qs) = max q.order (max_order qs)

-- `get_next_order`
unfoldable pub get_next_order : ℕ → ℕ → Db → ℕ
get_next_order p u d = max_order (live_questions p u d) + 1

abbrev pub is_some {ℓ} : {A : Type ℓ} → Option A → Bool
is_some none = false
is_some (some a) = true

-- `session.add` of a new question.
unfoldable pub add_question : Question → Action (Unit {0})
add_question q = do
  taken ← execute (λ d. first_row (has_id q.id) d.questions)
  raise_if (is_some taken) integrity_error
  write (λ d. record d { questions = q ∷ d.questions })

abbrev pub new_question : ℕ → ℕ → ℕ → QuestionCreate → ℕ → DateTime → Question
new_question p u id c order now = record {
  id = id;
  project_id = p;
  user_id = u;
  question = c.question;
  max_length = c.max_length;
  order = order;
  answer = none;
  is_completed = false;
  created_at = now;
  updated_at = now;
  deleted_at = none;
}

-- The loop over the questions of a request; `ids n` is the id of the n-th row that is made.
unfoldable pub add_questions :
    ℕ → ℕ → (ℕ → ℕ) → List QuestionCreate → ℕ → ℕ → DateTime → Action (Unit {0})
add_questions p u ids [] n order now = pure tt
add_questions p u ids (c ∷ cs) n order now =
    add_question (new_question p u (ids n) c order now)
    >> add_questions p u ids cs (n + 1) (order + 1) now

abbrev pub require_project : ℕ → ℕ → Action (Unit {0})
require_project p u = do
  x ← execute (λ d. first_row (owns p u) d.projects)
  raise_if (not (is_some x)) (http_error 404)

-- `create_question`
unfoldable pub create_question : ℕ → ℕ → ℕ → QuestionCreate → DateTime → Action (Unit {0})
create_question p u id c now = do
  require_project p u
  order ← execute (get_next_order p u)
  add_question (new_question p u id c order now)
  commit

-- `create_questions_bulk`
unfoldable pub create_questions_bulk :
    ℕ → ℕ → (ℕ → ℕ) → List QuestionCreate → DateTime → Action (Unit {0})
create_questions_bulk p u ids cs now = do
  require_project p u
  order ← execute (get_next_order p u)
  add_questions p u ids cs 0 order now
  commit

-- `get_question`, and the 404 of the endpoints.
unfoldable pub get_question : ℕ → ℕ → ℕ → Action Question
get_question i p u = do
  rows ← execute (λ d. where_rows (λ x. has_id i x && in_project p u x) d.questions)
  q ← scalar_one_or_none rows
  or_raise q (http_error 404)

abbrev pub save_question : ℕ → (Question → Question) → Action (Unit {0})
save_question i f =
    write (λ d. record d { questions = update_rows (has_id i) f d.questions }) >> commit

abbrev or_keep {ℓ} : {A : Type ℓ} → Option A → A → A
or_keep none a = a
or_keep (some b) a = b

-- A question is not null.
abbrev pub is_null {ℓ} : {A : Type ℓ} → Option (Option A) → Bool
is_null none = false
is_null (some none) = true
is_null (some (some a)) = false

abbrev new_text : Option (Option String) → String → String
new_text (some (some s)) t = s
new_text _ t = t

abbrev pub updated : QuestionUpdate → DateTime → Question → Question
updated x now q = record q {
  question = new_text x.question q.question;
  max_length = or_keep x.max_length q.max_length;
  answer = or_keep x.answer q.answer;
  updated_at = now;
}

-- `update_question`
unfoldable pub update_question : ℕ → ℕ → ℕ → QuestionUpdate → DateTime → Action (Unit {0})
update_question i p u x now = do
  q ← get_question i p u
  raise_if (is_null x.question) integrity_error
  save_question q.id (updated x now)

-- `toggle_question_complete`
unfoldable pub toggle_question_complete : ℕ → ℕ → ℕ → DateTime → Action (Unit {0})
toggle_question_complete i p u now = do
  q ← get_question i p u
  save_question q.id (λ x. record x { is_completed = not x.is_completed; updated_at = now })

-- `delete_question`: the last question of a project stays.
unfoldable pub delete_question : ℕ → ℕ → ℕ → DateTime → Action (Unit {0})
delete_question i p u now = do
  q ← get_question i p u
  active_count ← execute (λ d. length (live_questions q.project_id q.user_id d))
  raise_if (leb active_count 1) (http_error 400)
  save_question q.id (λ x. record x { deleted_at = some now })

abbrev pub new_project : ℕ → ℕ → ProjectCreate → DateTime → Project
new_project p u c now = record {
  id = p;
  user_id = u;
  company = c.company;
  job_position = c.job_position;
  recruit_notice = c.recruit_notice;
  company_talent = c.company_talent;
  due_date = c.due_date;
  created_at = now;
  updated_at = now;
  deleted_at = none;
}

-- `create_project`
unfoldable pub create_project : ℕ → ℕ → (ℕ → ℕ) → ProjectCreate → DateTime → Action (Unit {0})
create_project p u ids c now = do
  taken ← execute (λ d. first_row (has_project_id p) d.projects)
  raise_if (is_some taken) integrity_error
  write (λ d. record d { projects = new_project p u c now ∷ d.projects })
  add_questions p u ids c.questions 0 1 now
  commit

abbrev pub save_project : ℕ → (Project → Project) → Action (Unit {0})
save_project p f =
    write (λ d. record d { projects = update_rows (has_project_id p) f d.projects }) >> commit

-- `get_project`, which notes the visit, and the 404 of the endpoints.
unfoldable pub get_project : ℕ → ℕ → DateTime → Action Project
get_project p u now = do
  rows ← execute (λ d. where_rows (owns p u) d.projects)
  found ← scalar_one_or_none rows
  x ← or_raise found (http_error 404)
  save_project x.id (λ y. record y { updated_at = now })
  pure x

-- `update_project`, for the change that the request asks for.
unfoldable pub update_project : ℕ → ℕ → (Project → Project) → DateTime → Action (Unit {0})
update_project p u f now = do
  x ← get_project p u now
  save_project x.id (λ y. record (f y) { updated_at = now })

-- `delete_project`
unfoldable pub delete_project : ℕ → ℕ → DateTime → Action (Unit {0})
delete_project p u now = do
  x ← get_project p u now
  save_project x.id (λ y. record y { deleted_at = some now })
