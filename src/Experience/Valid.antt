-- ===== src/Experience/Valid.antt =====
-- What is stored stays readable.
use logit_be.Common.{
  ◌≡◌, ◌⊎◌, refl, sym, ap, ◌∙◌, subst, true, false, Option, none, some, String, List, [], ◌∷◌,
  str_eq, All, arith, inl, inr, Bool-cases, eq_iff,
}
use logit_be.Clock.{DateTime}
use logit_be.World.Action.{Result, ok, raised}
use logit_be.Experience.{
  ExperienceFormatType, Field, situation, task, action, result, problem, solution, insight, content,
  format_eq, format_of, Experience, ExperienceUpdate, is_set, or_keep, all_fields, cleared,
  model_copy,
}
use logit_be.Experience as Change
use logit_be.Experience.Tags.{generate_tags_and_category}
use logit_be.Experience.Client.{QdrantClient, OpenAi, bind_ok, or_503}
use logit_be.Experience.Store.{
  ExperienceCreate, is_valid, embedded, upserted, created, create_experience, store_update,
  update_as, update_read, update_experience, delete_read, delete_experience, get_experience,
  content_changed, with_labels, read_owned,
}
use logit_be.Experience.Laws.{IsQdrant, Request, create, update, delete, run, run_all}
use logit_be.Experience.Lifecycle.{embedded_same, created_from}
use logit_be.Experience.Clean.{
  is_clean, is_clean_request, update_valid, relabelled_valid, from_payload-valid,
}

module _ {C V S : Type 0} (q : QdrantClient C V S) (stored : C → String → Option Experience)
    (newest : C → String → List Experience) (laws : IsQdrant q stored newest) where
  -- Everything that is stored passes the validation of a read.
  abbrev pub AllValid : C → Type 0
  AllValid c = (id : String) (e : Experience) → stored c id ≡ some e → is_valid e ≡ true

  -- The points after a write of one id, which may not have been made.
  AllValid-write :
      (id : String) (o : Option Experience) (c c' : C)
      → ((e : Experience) → o ≡ some e → is_valid e ≡ true)
      → ((stored c' id ≡ stored c id) ⊎ (stored c' id ≡ o))
      → ((j : String) → str_eq id j ≡ false → stored c' j ≡ stored c j)
      → AllValid c
      → AllValid c'
  AllValid-write id o c c' v here else a j e s = elim (Bool-cases (str_eq id j)) [
    | inr other ↦ a j e (sym (else j other) ∙ s)
    | inl same ↦
        let at_id : stored c' id ≡ some e =
          ap (λ (k : String). stored c' k) ((eq_iff id j).0 same) ∙ s in
        elim here [ inl old ↦ a id e (sym old ∙ at_id) | inr new ↦ v e (sym new ∙ at_id) ]
  ]

  some_valid :
      (e : Experience) → is_valid e ≡ true → (y : Experience) → some e ≡ some y → is_valid y ≡ true
  some_valid e v y h =
      subst (λ (o : Option Experience). elim o [ none ↦ Unit | some x ↦ is_valid x ≡ true ]) h v

  AllValid-upserted :
      (id : String) (r : Result (Experience × V)) (c : C)
      → ((p : Experience × V) → r ≡ ok p → is_valid p.0 ≡ true)
      → AllValid c
      → AllValid (upserted q id r c).1
  AllValid-upserted id (raised x) c v a = a
  AllValid-upserted id (ok (e, x)) c v a =
      AllValid-write id (some e) c (q.upsert id x e c).1 (some_valid e (v (e, x) refl))
        (laws.upsert_here id x e c) (λ j. laws.upsert_else id j x e c) a

  created_valid :
      (ai : OpenAi V) (u : String) (body : ExperienceCreate) (id : String) (now : DateTime)
      (p : Experience × V)
      → created q ai u body id now ≡ ok p
      → is_valid p.0 ≡ true
  created_valid ai u body id now p h = (created_from q stored newest laws ai u body id now p h).2

  AllValid-store_update :
      (ai : OpenAi V) (id : String) (old : ExperienceFormatType) (u : ExperienceUpdate)
      (r : Result Experience) (c : C)
      → ((e : Experience) → r ≡ ok e → is_valid e ≡ true)
      → AllValid c
      → AllValid (store_update q ai id old u r c).1
  unfolding store_update
  AllValid-store_update ai id old u (raised x) c v a = a
  AllValid-store_update ai id old u (ok e) c v a = elim (Bool-cases (content_changed old u)) [
    | inl again ↦
        let labelled = with_labels q e (generate_tags_and_category ai.completions e) in
        rw again (
          AllValid-upserted id (embedded q ai labelled) c
            (λ p h.
              subst (λ (y : Experience). is_valid y ≡ true)
                (sym (embedded_same q stored newest laws ai labelled p h))
                (relabelled_valid e labelled.tags labelled.category (v e refl)))
            a)
    | inr same ↦ rw same (
        AllValid-write id (some e) c (q.set_payload id e c).1 (some_valid e (v e refl))
          (laws.set_payload_here id e c) (λ j. laws.set_payload_else id j e c) a)
  ]

  AllValid-update_as :
      (ai : OpenAi V) (id : String) (u : ExperienceUpdate) (now : DateTime)
      (f : Option ExperienceFormatType) (e : Experience) (c : C)
      → is_clean u ≡ true
      → is_valid e ≡ true
      → AllValid c
      → AllValid (update_as q ai id u now f e c).1
  AllValid-update_as ai id u now none e c k v a = a
  AllValid-update_as ai id u now (some old) e c k v a =
      AllValid-store_update ai id old u (Change.update_experience old e u now) c
        (λ e' h. update_valid old e e' u now v k h) a

  AllValid-update_read :
      (ai : OpenAi V) (id : String) (u : ExperienceUpdate) (now : DateTime) (r : Result Experience)
      (c : C)
      → is_clean u ≡ true
      → ((e : Experience) → r ≡ ok e → is_valid e ≡ true)
      → AllValid c
      → AllValid (update_read q ai id u now r c).1
  AllValid-update_read ai id u now (raised x) c k v a = a
  AllValid-update_read ai id u now (ok e) c k v a =
      AllValid-update_as ai id u now e.format_type e c k (v e refl) a

  -- What was read is valid.
  read_valid :
      (id u : String) (c : C) (e : Experience) → get_experience q id u c ≡ ok e → is_valid e ≡ true
  unfolding get_experience
  read_valid id u c e h =
      let p = bind_ok (or_503 (q.retrieve id c)) (read_owned q u) e h in owned p.0 p.2
    where
      owned : (es : List Experience) → read_owned q u es ≡ ok e → is_valid e ≡ true
      owned [] r = absurd (ground arith)
      owned (x ∷ xs) r = elim (Bool-cases (str_eq x.user_id u)) [
        | inl own ↦ (from_payload-valid x e (rw own at r)).1
        | inr other ↦ absurd (grind arith)
      ]

  AllValid-delete_read :
      (id : String) (r : Result Experience) (c : C) → AllValid c → AllValid (delete_read q id r c).1
  AllValid-delete_read id (raised x) c a = a
  AllValid-delete_read id (ok e) c a =
      AllValid-write id none c (q.delete id c).1 (λ y h. absurd (ground arith))
        (laws.delete_here id c) (λ j. laws.delete_else id j c) a

  AllValid-run :
      (ai : OpenAi V) (r : Request) (c : C)
      → is_clean_request r ≡ true
      → AllValid c
      → AllValid (run q ai r c)
  unfolding create_experience update_experience delete_experience
  AllValid-run ai (create u body id now) c k a =
      AllValid-upserted id (created q ai u body id now) c (created_valid ai u body id now) a
  AllValid-run ai (update u id body now) c k a =
      AllValid-update_read ai id body now (get_experience q id u c) c k (read_valid id u c) a
  AllValid-run ai (delete u id) c k a = AllValid-delete_read id (get_experience q id u c) c a

  -- Through any sequence of requests, of any users and with any answers of OpenAI and Qdrant, everything
  -- that is stored passes the validation of a read, where no update sets a required value to null and
  -- the updates passed the bounds of their schema.
  pub stays_valid :
      (rs : List (OpenAi V × Request)) (c : C)
      → All (λ (p : OpenAi V × Request). is_clean_request p.1 ≡ true) rs
      → AllValid c
      → AllValid (run_all q rs c)
  stays_valid [] c k a = a
  stays_valid ((ai, r) ∷ rs) c k a = stays_valid rs (run q ai r c) k.1 (AllValid-run ai r c k.0 a)
