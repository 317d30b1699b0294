-- ===== src/Projects/Questions.antt =====
-- What a request on projects and questions keeps of the questions, and the requests that make some.
use logit_be.Common.{
  ℕ, ◌+◌, ◌≤◌, ◌≡◌, refl, ap, Bool, ◌==◌, none, List, [], ◌∷◌, length, where_rows, update_rows,
  first_row, arith, inl, inr, ◌⊎◌, subst, Option-cases, ==_iff,
}
use logit_be.Clock.{DateTime}
use logit_be.Rows.Project.{Question}
use logit_be.World.{Db, World}
use logit_be.World.Action.{
  Action, Result, Exception, ok, raised, commit, execute, raise_if, write, integrity_error, ◌>>=◌,
  ◌>>◌, >>=-of_ok, >>=-of_raised,
}
use logit_be.Projects.{
  QuestionCreate, ProjectCreate, in_project, live_questions, has_id, add_question, add_questions,
  new_question, get_next_order, create_question, create_questions_bulk, save_question,
  require_project, is_some, new_project, has_project_id, create_project,
}

-- Ids are a primary key.
pub record IsKeyed (d : Db) : Type 0 where
  pub at_id : (i : ℕ) → length (where_rows (has_id i) d.questions) ≤ 1

abbrev pub live_count : ℕ → ℕ → Db → ℕ
live_count p u d = length (live_questions p u d)

-- Between `a` and `b` the key is kept, and no project that had a question was left with none.
pub record Keeps (a b : Db) : Type 0 where
  pub key : IsKeyed a → IsKeyed b
  pub live : (p u : ℕ) → IsKeyed a → 1 ≤ live_count p u a → 1 ≤ live_count p u b

-- A change of the rows that pass `q` takes each of them from a count at most once.
pub count_update :
    (p q : Question → Bool) (f : Question → Question) (xs : List Question)
    → length (where_rows p xs)
      ≤ length (where_rows p (update_rows q f xs)) + length (where_rows q xs)
count_update p q f [] = omega arith
count_update p q f (x ∷ xs) = ground (arith, count_update p q f xs)

-- A change that keeps what is tested keeps the count.
pub count_same :
    (p q : Question → Bool) (f : Question → Question) (xs : List Question)
    → ((x : Question) → p (f x) ≡ p x)
    → length (where_rows p (update_rows q f xs)) ≡ length (where_rows p xs)
count_same p q f [] keeps = refl
count_same p q f (x ∷ xs) keeps = ground (arith, keeps x, count_same p q f xs keeps)

untaken :
    (i : ℕ) (xs : List Question)
    → first_row (has_id i) xs ≡ none
    → length (where_rows (has_id i) xs) ≡ 0
untaken i [] h = refl
untaken i (x ∷ xs) h = grind (arith, untaken i xs)

add_question-Keeps : (q : Question) (w : World) → Keeps w.db (add_question q w).1.db
unfolding add_question
add_question-Keeps q w = elim (Option-cases (first_row (has_id q.id) w.db.questions)) [
  | inl e ↦ rw e record {
    key = λ h. record {
      at_id = λ i. grind (arith, h.at_id i, untaken i w.db.questions, ==_iff q.id i);
    };
    live = λ p u h n. ground arith;
  }
  | inr (x, e) ↦ rw e record { key = λ h. h; live = λ p u h n. n }
]

pub Keeps-refl : (d : Db) → Keeps d d
Keeps-refl d = record { key = λ h. h; live = λ p u h n. n }

pub Keeps-trans : (a b c : Db) → Keeps a b → Keeps b c → Keeps a c
Keeps-trans a b c f g = record {
  key = λ h. g.key (f.key h);
  live = λ p u h n. g.live p u (f.key h) (f.live p u h n);
}

-- What a request left, committed or not, is kept from the start of it.
pub record Safe (d : Db) (w : World) : Type 0 where
  pub session : Keeps d w.db
  pub stored : Keeps d w.committed

pub Result-cases :
    {A : Type 0} (r : Result A) → ((a : A) × (r ≡ ok a)) ⊎ ((x : Exception) × (r ≡ raised x))
Result-cases (ok a) = inl (a, refl)
Result-cases (raised x) = inr (x, refl)

add_question-Safe : (d : Db) (q : Question) (w : World) → Safe d w → Safe d (add_question q w).1
unfolding add_question
add_question-Safe d q w h = record {
  session = Keeps-trans d w.db (add_question q w).1.db h.session (add_question-Keeps q w);
  stored = subst (λ (c : Db). Keeps d c) (ground arith) h.stored;
}

-- A step after a step: the second is run where the first returns.
pub then_Safe :
    {A B : Type 0} (d : Db) (m : Action A) (f : A → Action B) (w : World)
    → Safe d (m w).1
    → ((a : A) → (m w).0 ≡ ok a → Safe d (f a (m w).1).1)
    → Safe d ((m >>= f) w).1
then_Safe d m f w h k = elim (Result-cases (m w).0) [
  | inl (a, e) ↦ rw (>>=-of_ok m f w (ap (λ (r : Result _). (r, (m w).1)) e)) (k a e)
  | inr (x, e) ↦ rw (>>=-of_raised m f w (ap (λ (r : Result _). (r, (m w).1)) e)) h
]

commit-Safe : (d : Db) (w : World) → Safe d w → Safe d (commit w).1
commit-Safe d w h = record { session = h.session; stored = h.session }

add_questions-Safe :
    (d : Db) (p u : ℕ) (ids : ℕ → ℕ) (cs : List QuestionCreate) (n order : ℕ) (now : DateTime)
    (w : World)
    → Safe d w
    → Safe d (add_questions p u ids cs n order now w).1
unfolding add_questions
add_questions-Safe d p u ids [] n order now w h = h
add_questions-Safe d p u ids (c ∷ cs) n order now w h =
    let q = new_question p u (ids n) c order now in
    let h1 = add_question-Safe d q w h in
    then_Safe d (add_question q) (λ _. add_questions p u ids cs (n + 1) (order + 1) now) w h1
      (λ _ _. add_questions-Safe d p u ids cs (n + 1) (order + 1) now (add_question q w).1 h1)

pub create_question-Safe :
    (d : Db) (p u id : ℕ) (c : QuestionCreate) (now : DateTime) (w : World)
    → Safe d w
    → Safe d (create_question p u id c now w).1
unfolding create_question
create_question-Safe d p u id c now w h =
    let add : ℕ → Action (Unit {0}) =
      λ order. add_question (new_question p u id c order now) >> commit in
    let q = new_question p u id c (get_next_order p u w.db) now in
    let h1 = add_question-Safe d q w h in
    then_Safe d (require_project p u) (λ _. execute (get_next_order p u) >>= add) w h
      (λ _ _.
        then_Safe d (add_question q) (λ _. commit) w h1
          (λ _ _. commit-Safe d (add_question q w).1 h1))

pub create_questions_bulk-Safe :
    (d : Db) (p u : ℕ) (ids : ℕ → ℕ) (cs : List QuestionCreate) (now : DateTime) (w : World)
    → Safe d w
    → Safe d (create_questions_bulk p u ids cs now w).1
unfolding create_questions_bulk
create_questions_bulk-Safe d p u ids cs now w h =
    let add : ℕ → Action (Unit {0}) = λ order. add_questions p u ids cs 0 order now >> commit in
    let m = add_questions p u ids cs 0 (get_next_order p u w.db) now in
    let h1 = add_questions-Safe d p u ids cs 0 (get_next_order p u w.db) now w h in
    then_Safe d (require_project p u) (λ _. execute (get_next_order p u) >>= add) w h
      (λ _ _. then_Safe d m (λ _. commit) w h1 (λ _ _. commit-Safe d (m w).1 h1))

-- The questions are not what a request on projects changes.
pub same_questions : (a b : Db) → b.questions ≡ a.questions → Keeps a b
same_questions a b e = record {
  key = λ h. record { at_id = λ i. rw e (h.at_id i) };
  live = λ p u h n. rw e n;
}

with_db-Safe : (d e : Db) (w : World) → Safe d w → Keeps w.db e → Safe d (record w { db = e })
with_db-Safe d e w h k = record { session = Keeps-trans d w.db e h.session k; stored = h.stored }

pub create_project-Safe :
    (d : Db) (p u : ℕ) (ids : ℕ → ℕ) (c : ProjectCreate) (now : DateTime) (w : World)
    → Safe d w
    → Safe d (create_project p u ids c now w).1
unfolding create_project
create_project-Safe d p u ids c now w h =
    let e : Db = record w.db { projects = new_project p u c now ∷ w.db.projects } in
    let w1 : World = record w { db = e } in
    let m = add_questions p u ids c.questions 0 1 now in
    let add : Action (Unit {0}) =
      write (λ (x : Db). record x { projects = new_project p u c now ∷ x.projects })
      >> m
      >> commit in
    let h1 =
      add_questions-Safe d p u ids c.questions 0 1 now w1
        (with_db-Safe d e w h (same_questions w.db e refl)) in
    then_Safe d
      (λ v. raise_if (is_some (first_row (has_project_id p) v.db.projects)) integrity_error v)
      (λ _. add) w h (λ _ _. then_Safe d m (λ _. commit) w1 h1 (λ _ _. commit-Safe d (m w1).1 h1))

pub save_question-Safe :
    (d : Db) (i : ℕ) (f : Question → Question) (w : World)
    → Safe d w
    → Keeps w.db (record w.db { questions = update_rows (has_id i) f w.db.questions })
    → Safe d (save_question i f w).1
save_question-Safe d i f w h k =
    let e = Keeps-trans d w.db _ h.session k in record { session = e; stored = e }

-- A change that keeps the id, the project, the user and the deletion of a question.
pub change_Keeps :
    (d : Db) (i : ℕ) (f : Question → Question)
    → ((x : Question) → (f x).id ≡ x.id)
    → ((p u : ℕ) (x : Question) → in_project p u (f x) ≡ in_project p u x)
    → Keeps d (record d { questions = update_rows (has_id i) f d.questions })
change_Keeps d i f ids places = record {
  key = λ h. record {
    at_id = λ j.
        rw (count_same (has_id j) (has_id i) f d.questions (λ x. ap (λ (n : ℕ). n == j) (ids x)))
          (h.at_id j);
  };
  live = λ p u h n. rw (count_same (in_project p u) (has_id i) f d.questions (places p u)) n;
}
