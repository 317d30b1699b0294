-- ===== src/Projects/Lists.antt =====
-- The lists of src/projects/service.py and src/questions/service.py. What `ORDER BY` leaves open is an
-- order of the rows as they are stored.
use logit_be.Common.{
  ℕ, ◌≤◌, ◌≡◌, refl, ltb, Bool, ◌&&◌, ◌==◌, Option, none, some, String, List, [], ◌∷◌, length,
  where_rows, take, drop, map, if◌then◌else◌, arith, Bool-cases, inl, inr,
}
use logit_be.Clock.{DateTime, Date, before}
use logit_be.Rows.Project.{Project, Question, is_live}
use logit_be.World.{Db}
use logit_be.World.Action.{Action, execute}
use logit_be.Projects.{in_project, live_questions}

-- `ORDER BY "order"`
abbrev pub insert_question : Question → List Question → List Question
insert_question q [] = q ∷ []
insert_question q (x ∷ xs) = if ltb x.order q.order then x ∷ insert_question q xs else q ∷ x ∷ xs

abbrev pub by_order : List Question → List Question
by_order [] = []
by_order (q ∷ qs) = insert_question q (by_order qs)

-- `get_questions`
unfoldable pub get_questions : ℕ → ℕ → Action (List Question)
get_questions p u = execute (λ d. by_order (live_questions p u d))

-- The live questions of a project, of any user.
abbrev pub of_project : ℕ → Question → Bool
of_project p x = x.project_id == p && is_live x.deleted_at

abbrev pub questions_of : ℕ → Db → List Question
questions_of p d = where_rows (of_project p) d.questions

abbrev first_id : List Question → Option ℕ
first_id [] = none
first_id (q ∷ qs) = some q.id

-- A row of the list.
pub record ProjectRow : Type 0 where
  pub id : ℕ
  pub company : String
  pub job_position : String
  pub due_date : Option Date
  pub updated_at : DateTime
  pub question_id : Option ℕ
  pub total_questions : ℕ
  pub completed_questions : ℕ

unfoldable pub row_of : Db → Project → ProjectRow
row_of d x = record {
  id = x.id;
  company = x.company;
  job_position = x.job_position;
  due_date = x.due_date;
  updated_at = x.updated_at;
  question_id = first_id (by_order (questions_of x.id d));
  total_questions = length (questions_of x.id d);
  completed_questions =
      length (where_rows (λ (q : Question). of_project x.id q && q.is_completed) d.questions);
}

-- `ORDER BY updated_at DESC`
abbrev insert_recent : Project → List Project → List Project
insert_recent p [] = p ∷ []
insert_recent p (x ∷ xs) =
    if before p.updated_at x.updated_at then x ∷ insert_recent p xs else p ∷ x ∷ xs

abbrev recent_first : List Project → List Project
recent_first [] = []
recent_first (p ∷ ps) = insert_recent p (recent_first ps)

abbrev projects_of : ℕ → Db → List Project
projects_of u d = where_rows (λ (x : Project). x.user_id == u && is_live x.deleted_at) d.projects

-- `get_projects`
unfoldable pub get_projects : ℕ → ℕ → ℕ → Action (List ProjectRow)
unfolding row_of
get_projects u skip limit =
    execute λ d. map (row_of d) (take limit (drop skip (recent_first (projects_of u d))))

inserted_nonempty :
    (q : Question) (qs : List Question) → (i : ℕ) × (first_id (insert_question q qs) ≡ some i)
inserted_nonempty q [] = (q.id, refl)
inserted_nonempty q (x ∷ xs) = elim (Bool-cases (ltb x.order q.order)) [
  | inl e ↦ (x.id, rw e refl)
  | inr e ↦ (q.id, rw e refl)
]

sorted_nonempty : (qs : List Question) → 1 ≤ length qs → (i : ℕ) × (first_id (by_order qs) ≡ some i)
sorted_nonempty [] h = absurd (omega (arith, h))
sorted_nonempty (q ∷ qs) h = inserted_nonempty q (by_order qs)

all_users :
    (p u : ℕ) (qs : List Question)
    → length (where_rows (in_project p u) qs) ≤ length (where_rows (of_project p) qs)
all_users p u [] = omega arith
all_users p u (q ∷ qs) = grind (arith, all_users p u qs)

some_done :
    (p : ℕ) (qs : List Question)
    → length (where_rows (λ (q : Question). of_project p q && q.is_completed) qs)
      ≤ length (where_rows (of_project p) qs)
some_done p [] = omega arith
some_done p (q ∷ qs) = grind (arith, some_done p qs)

-- What the list shows of a project with a live question of its user.
pub record Shows (r : ProjectRow) : Type 0 where
  pub question : ℕ
  pub first : r.question_id ≡ some question
  pub counted : 1 ≤ r.total_questions
  pub completed : r.completed_questions ≤ r.total_questions

pub row_of-Shows :
    (d : Db) (x : Project) (u : ℕ) → 1 ≤ length (live_questions x.id u d) → Shows (row_of d x)
unfolding row_of
row_of-Shows d x u h =
    let counted : 1 ≤ length (questions_of x.id d) =
      omega (arith, h, all_users x.id u d.questions) in
    let first = sorted_nonempty (questions_of x.id d) counted in
    record {
      question = first.0;
      first = first.1;
      counted = counted;
      completed = some_done x.id d.questions;
    }
