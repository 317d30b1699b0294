-- ===== src/Projects/Last.antt =====
-- A project does not lose its last question.
use logit_be.Common.{
  ℕ, ◌≤◌, ◌≡◌, refl, sym, subst, Option, some, List, [], ◌∷◌, where_rows, update_rows,
}
use logit_be.Clock.{DateTime}
use logit_be.Rows.Project.{Project}
use logit_be.World.{Db, World}
use logit_be.World.Action.{Action, scalar_one_or_none, pure, or_raise, http_error, ◌>>=◌, ◌>>◌}
use logit_be.Projects.{
  QuestionCreate, QuestionUpdate, ProjectCreate, owns, has_project_id, save_project,
  create_question, create_questions_bulk, update_question, toggle_question_complete,
  delete_question, create_project, get_project, update_project, delete_project,
}
use logit_be.Projects.Lists.{row_of, Shows, row_of-Shows}
use logit_be.Projects.Questions.{
  IsKeyed, live_count, Keeps, Safe, Keeps-refl, Keeps-trans, then_Safe, create_question-Safe,
  create_questions_bulk-Safe, create_project-Safe, same_questions,
}
use logit_be.Projects.Removal.{
  update_question-Safe, toggle_question_complete-Safe, delete_question-Safe,
}

save_project-Safe :
    (d : Db) (p : ℕ) (f : Project → Project) (w : World) → Safe d w → Safe d (save_project p f w).1
save_project-Safe d p f w h =
    let e : Db = record w.db { projects = update_rows (has_project_id p) f w.db.projects } in
    let k = Keeps-trans d w.db e h.session (same_questions w.db e refl) in
    record { session = k; stored = k }

get_project-Safe :
    (d : Db) (p u : ℕ) (now : DateTime) (w : World) → Safe d w → Safe d (get_project p u now w).1
unfolding get_project
get_project-Safe d p u now w h = go (where_rows (owns p u) w.db.projects)
  where
    visited : Option Project → Action Project
    visited o = or_raise o (http_error 404) >>= λ x.
        save_project x.id (λ y. record y { updated_at = now }) >> pure x

    go : (rows : List Project) → Safe d ((scalar_one_or_none rows >>= visited) w).1
    go [] = h
    go (x ∷ []) = save_project-Safe d x.id (λ y. record y { updated_at = now }) w h
    go (x ∷ y ∷ r) = h

update_project-Safe :
    (d : Db) (p u : ℕ) (f : Project → Project) (now : DateTime) (w : World)
    → Safe d w
    → Safe d (update_project p u f now w).1
unfolding update_project
update_project-Safe d p u f now w h =
    let g : Project → Project = λ y. record (f y) { updated_at = now } in
    let h1 = get_project-Safe d p u now w h in
    then_Safe d (get_project p u now) (λ x. save_project x.id g) w h1
      (λ x _. save_project-Safe d x.id g (get_project p u now w).1 h1)

delete_project-Safe :
    (d : Db) (p u : ℕ) (now : DateTime) (w : World) → Safe d w → Safe d (delete_project p u now w).1
unfolding delete_project
delete_project-Safe d p u now w h =
    let g : Project → Project = λ y. record y { deleted_at = some now } in
    let h1 = get_project-Safe d p u now w h in
    then_Safe d (get_project p u now) (λ x. save_project x.id g) w h1
      (λ x _. save_project-Safe d x.id g (get_project p u now w).1 h1)

-- A request of a user on projects and their questions; what is made has the ids that are given.
pub data Request : Type 0 where
  add : ℕ → ℕ → ℕ → QuestionCreate → DateTime → Request
  add_bulk : ℕ → ℕ → (ℕ → ℕ) → List QuestionCreate → DateTime → Request
  edit : ℕ → ℕ → ℕ → QuestionUpdate → DateTime → Request
  toggle remove : ℕ → ℕ → ℕ → DateTime → Request
  start : ℕ → ℕ → (ℕ → ℕ) → ProjectCreate → DateTime → Request
  visit discard : ℕ → ℕ → DateTime → Request
  amend : ℕ → ℕ → (Project → Project) → DateTime → Request

abbrev pub handle : Request → World → World
handle (add p u id c now) w = (create_question p u id c now w).1
handle (add_bulk p u ids cs now) w = (create_questions_bulk p u ids cs now w).1
handle (edit i p u x now) w = (update_question i p u x now w).1
handle (toggle i p u now) w = (toggle_question_complete i p u now w).1
handle (remove i p u now) w = (delete_question i p u now w).1
handle (start p u ids c now) w = (create_project p u ids c now w).1
handle (visit p u now) w = (get_project p u now w).1
handle (discard p u now) w = (delete_project p u now w).1
handle (amend p u f now) w = (update_project p u f now w).1

-- The next request has a new session, which shows what was committed.
abbrev pub serve : List Request → World → World
serve [] w = w
serve (r ∷ rs) w = let v = handle r w in serve rs (record v { db = v.committed })

handle-Safe : (d : Db) (r : Request) (w : World) → Safe d w → Safe d (handle r w)
handle-Safe d (add p u id c now) w h = create_question-Safe d p u id c now w h
handle-Safe d (add_bulk p u ids cs now) w h = create_questions_bulk-Safe d p u ids cs now w h
handle-Safe d (edit i p u x now) w h = update_question-Safe d i p u x now w h
handle-Safe d (toggle i p u now) w h = toggle_question_complete-Safe d i p u now w h
handle-Safe d (remove i p u now) w h = delete_question-Safe d i p u now w h
handle-Safe d (start p u ids c now) w h = create_project-Safe d p u ids c now w h
handle-Safe d (visit p u now) w h = get_project-Safe d p u now w h
handle-Safe d (discard p u now) w h = delete_project-Safe d p u now w h
handle-Safe d (amend p u f now) w h = update_project-Safe d p u f now w h

serve-Safe : (d : Db) (rs : List Request) (w : World) → Safe d w → Safe d (serve rs w)
serve-Safe d [] w h = h
serve-Safe d (r ∷ rs) w h =
    let v = handle-Safe d r w h in
    serve-Safe d rs _ record { session = v.stored; stored = v.stored }

-- Through any sequence of requests of any users, refused ones included, the ids of the questions stay a
-- key of their table, and a project of a user that has a live question at the start, all of the world
-- being committed then, has one at the end; its row of the list of projects then shows the id of a question,
-- at least one question, and no more completed ones than questions.
pub keeps_a_question :
    (rs : List Request) (w : World) (x : Project) (u : ℕ)
    → w.committed ≡ w.db
    → IsKeyed w.db
    → 1 ≤ live_count x.id u w.db
    → IsKeyed (serve rs w).db
      × (1 ≤ live_count x.id u (serve rs w).db)
      × Shows (row_of (serve rs w).db x)
keeps_a_question rs w x u clean key n =
    let k = Keeps-refl w.db in
    let h =
      serve-Safe w.db rs w
        record { session = k; stored = subst (λ (e : Db). Keeps w.db e) (sym clean) k } in
    let live = h.session.live x.id u key n in
    (h.session.key key, live, row_of-Shows (serve rs w).db x u live)
