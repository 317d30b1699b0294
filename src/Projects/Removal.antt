-- ===== src/Projects/Removal.antt =====
-- The requests on one question: a change keeps it, a deletion leaves another.
use logit_be.Common.{
  ℕ, suc, ◌+◌, ◌≤◌, leb, ◌≡◌, refl, sym, ap, ◌∙◌, subst, Bool, true, false, not, ◌&&◌, some, List,
  [], ◌∷◌, length, where_rows, update_rows, arith, inl, inr, ◌⊎◌, Bool-cases, ==_iff,
}
use logit_be.Clock.{DateTime}
use logit_be.Rows.Project.{Question}
use logit_be.World.{Db, World}
use logit_be.World.Action.{
  Action, Result, Exception, ok, raised, execute, raise_if, http_error, multiple_results,
  integrity_error, ◌>>=◌, ◌>>◌, >>=-of_ok, >>=-of_raised,
}
use logit_be.Projects.{
  QuestionUpdate, in_project, has_id, is_null, save_question, get_question, update_question,
  toggle_question_complete, delete_question, updated,
}
use logit_be.Projects.Questions.{
  live_count, Keeps, Safe, save_question-Safe, change_Keeps, count_update, count_same,
}

abbrev the_question : ℕ → ℕ → ℕ → Question → Bool
the_question i p u x = has_id i x && in_project p u x

-- `get_question` reads: it raises, or answers the one row there is.
got :
    (i p u : ℕ) (w : World)
    → ((x : Exception) × (get_question i p u w ≡ (raised x, w)))
      ⊎ ((q : Question) × (get_question i p u w ≡ (ok q, w))
          × (where_rows (the_question i p u) w.db.questions ≡ q ∷ []))
unfolding get_question
got i p u w = go (where_rows (the_question i p u) w.db.questions) refl
  where
    go :
        (rows : List Question)
        → where_rows (the_question i p u) w.db.questions ≡ rows
        → ((x : Exception) × (get_question i p u w ≡ (raised x, w)))
          ⊎ ((q : Question) × (get_question i p u w ≡ (ok q, w))
              × (where_rows (the_question i p u) w.db.questions ≡ q ∷ []))
    go [] e = inl (http_error 404, ground arith)
    go (q ∷ []) e = inr (q, ground arith, e)
    go (q ∷ r ∷ rs) e = inl (multiple_results, ground arith)

leb→lt : (a b : ℕ) → leb a b ≡ false → suc b ≤ a
leb→lt a b h = ground arith

-- A request on a question is refused, or goes on with the one row there is.
on_question :
    (d : Db) (i p u : ℕ) (k : Question → Action (Unit {0})) (w : World)
    → Safe d w
    → ((q : Question) → where_rows (the_question i p u) w.db.questions ≡ q ∷ [] → Safe d (k q w).1)
    → Safe d ((get_question i p u >>= k) w).1
on_question d i p u k w h next = elim (got i p u w) [
  | inl (e, g) ↦
      subst (λ (r : Result (Unit {0}) × World). Safe d r.1)
        (sym (>>=-of_raised (get_question i p u) k w g)) h
  | inr (q, g, there) ↦
      subst (λ (r : Result (Unit {0}) × World). Safe d r.1)
        (sym (>>=-of_ok (get_question i p u) k w g)) (next q there)
]

-- A step that may refuse.
if_allowed :
    (d : Db) (c : Bool) (x : Exception) (k : Action (Unit {0})) (w : World)
    → Safe d w
    → (c ≡ false → Safe d (k w).1)
    → Safe d ((raise_if c x >> k) w).1
if_allowed d true x k w h next = h
if_allowed d false x k w h next = next refl

pub update_question-Safe :
    (d : Db) (i p u : ℕ) (x : QuestionUpdate) (now : DateTime) (w : World)
    → Safe d w
    → Safe d (update_question i p u x now w).1
unfolding update_question
update_question-Safe d i p u x now w h =
    let f = updated x now in
    let k : Question → Action (Unit {0}) =
      λ q. raise_if (is_null x.question) integrity_error >> save_question q.id f in
    on_question d i p u k w h λ q _.
      if_allowed d (is_null x.question) integrity_error (save_question q.id f) w h
        λ _. save_question-Safe d q.id f w h (change_Keeps w.db q.id f (λ y. refl) (λ a b y. refl))

pub toggle_question_complete-Safe :
    (d : Db) (i p u : ℕ) (now : DateTime) (w : World)
    → Safe d w
    → Safe d (toggle_question_complete i p u now w).1
unfolding toggle_question_complete
toggle_question_complete-Safe d i p u now w h =
    let f : Question → Question =
      λ x. record x { is_completed = not x.is_completed; updated_at = now } in
    on_question d i p u (λ q. save_question q.id f) w h
      λ q _. save_question-Safe d q.id f w h (change_Keeps w.db q.id f (λ y. refl) (λ a b y. refl))

where_and :
    (p q : Question → Bool) (xs : List Question)
    → where_rows (λ x. p x && q x) xs ≡ where_rows q (where_rows p xs)
where_and p q [] = refl
where_and p q (x ∷ xs) = ground (arith, where_and p q xs)

-- The one row of an id that is a question of the project.
alone :
    (p : Question → Bool) (q : Question) (ys : List Question)
    → length ys ≤ 1
    → where_rows p ys ≡ q ∷ []
    → (ys ≡ q ∷ []) × (p q ≡ true)
alone p q [] h e = grind arith
alone p q (y ∷ []) h e = grind arith
alone p q (y ∷ z ∷ zs) h e = grind arith

-- A change takes no more of a count than the changed rows that are in it.
count_within :
    (p q : Question → Bool) (f : Question → Question) (xs : List Question)
    → length (where_rows p xs)
      ≤ length (where_rows p (update_rows q f xs)) + length (where_rows p (where_rows q xs))
count_within p q f [] = omega arith
count_within p q f (x ∷ xs) = ground (arith, count_within p q f xs)

passes :
    (p : Question → Bool) (q : Question) (xs : List Question)
    → where_rows p xs ≡ q ∷ []
    → p q ≡ true
passes p q [] e = grind arith
passes p q (x ∷ xs) e = elim (Bool-cases (p x)) [
  | inl h ↦ grind arith
  | inr h ↦ passes p q xs (grind arith)
]

-- Another project than the one of the question that is deleted, or a question that is not alone in it.
delete_live :
    (d : Db) (i a b : ℕ) (now : DateTime) (q : Question)
    → where_rows (has_id i) d.questions ≡ q ∷ []
    → leb (live_count q.project_id q.user_id d) 1 ≡ false
    → 1 ≤ live_count a b d
    → 1
      ≤ live_count a b (record d {
        questions =
            update_rows
              (has_id i)
              (λ (x : Question). record x { deleted_at = some now })
              d.questions;
      })
delete_live d i a b now q e many n =
    let f : Question → Question = λ x. record x { deleted_at = some now } in
    elim (Bool-cases (in_project a b q)) [
      | inl h ↦
          let p1 : q.project_id ≡ a = grind arith in
          let p2 : q.user_id ≡ b = grind arith in
          let many' : leb (live_count a b d) 1 ≡ false =
            subst (λ (z : ℕ). leb (live_count z b d) 1 ≡ false) p1
              (subst (λ (z : ℕ). leb (live_count q.project_id z d) 1 ≡ false) p2 many) in
          let one : length (where_rows (has_id i) d.questions) ≡ 1 =
            ap (λ (ys : List Question). length ys) e in
          omega (
            arith,
            leb→lt (live_count a b d) 1 many',
            one,
            count_update (in_project a b) (has_id i) f d.questions,
          )
      | inr h ↦
          let none_there : length (where_rows (in_project a b) (where_rows (has_id i) d.questions))
              ≡ 0 =
            rw e rw h refl in
          omega (arith, none_there, n, count_within (in_project a b) (has_id i) f d.questions)
    ]

-- A deletion where another question stays.
delete_Keeps :
    (d : Db) (i p u : ℕ) (now : DateTime) (q : Question)
    → where_rows (the_question i p u) d.questions ≡ q ∷ []
    → leb (live_count q.project_id q.user_id d) 1 ≡ false
    → Keeps d (record d {
      questions =
          update_rows
            (has_id q.id)
            (λ (x : Question). record x { deleted_at = some now })
            d.questions;
    })
delete_Keeps d i p u now q e many =
    let f : Question → Question = λ x. record x { deleted_at = some now } in
    let rows = sym (where_and (has_id i) (in_project p u) d.questions) ∙ e in
    record {
      key = λ h. record {
        at_id = λ j. rw (count_same (has_id j) (has_id q.id) f d.questions (λ x. refl)) (h.at_id j);
      };
      live = λ a b h n.
          let k = alone (in_project p u) q (where_rows (has_id i) d.questions) (h.at_id i) rows in
          let same : i ≡ q.id = sym ((==_iff q.id i).0 (passes (has_id i) q d.questions k.0)) in
          delete_live d q.id a b now q
            (subst (λ (j : ℕ). where_rows (has_id j) d.questions ≡ q ∷ []) same k.0) many n;
    }

pub delete_question-Safe :
    (d : Db) (i p u : ℕ) (now : DateTime) (w : World)
    → Safe d w
    → Safe d (delete_question i p u now w).1
unfolding delete_question
delete_question-Safe d i p u now w h =
    let f : Question → Question = λ x. record x { deleted_at = some now } in
    let k : Question → Action (Unit {0}) = λ q.
      execute (λ e. live_count q.project_id q.user_id e) >>= λ n.
      raise_if (leb n 1) (http_error 400) >> save_question q.id f in
    on_question d i p u k w h λ q there.
      if_allowed d (leb (live_count q.project_id q.user_id w.db) 1) (http_error 400)
        (save_question q.id f) w h
        λ many. save_question-Safe d q.id f w h (delete_Keeps w.db i p u now q there many)
