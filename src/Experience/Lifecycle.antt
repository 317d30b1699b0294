-- ===== src/Experience/Lifecycle.antt =====
-- What is read after a write.
use logit_be.Common.{
  ◌≡◌, refl, sym, ap, ◌∙◌, subst, true, Option, none, some, String, List, [], ◌∷◌, str_eq, arith,
  eq_refl,
}
use logit_be.Clock.{DateTime}
use logit_be.World.Action.{Result, ok, raised, http_error}
use logit_be.Experience.{Experience}
use logit_be.Experience.Client.{
  Reply, answered, unexpected_response, failed, QdrantClient, OpenAi, or_503, ◌>>=◌, bind_ok,
  ok_inj, generate_embedding,
}
use logit_be.Experience.Category.{creative_problem_solving}
use logit_be.Experience.Tags.{generate_tags_and_category, combine_text_for_embedding}
use logit_be.Experience.Store.{
  ExperienceCreate, is_valid, from_payload, new_experience, get_experience, written, upserted,
  embedded, created, create_experience, delete_read, delete_experience,
}
use logit_be.Experience.Clean.{from_payload-valid}
use logit_be.Experience.Laws.{IsQdrant, as_list}

pub valid_payload : (e : Experience) → is_valid e ≡ true → from_payload e ≡ ok e
unfolding from_payload
valid_payload e h = rw h refl

module _ {C V S : Type 0} (q : QdrantClient C V S) (stored : C → String → Option Experience)
    (newest : C → String → List Experience) (laws : IsQdrant q stored newest) where
  pub read_stored :
      (id u : String) (e : Experience) (c : C) (es : List Experience)
      → stored c id ≡ some e
      → str_eq e.user_id u ≡ true
      → q.retrieve id c ≡ answered es
      → get_experience q id u c ≡ from_payload e
  unfolding get_experience
  read_stored id u e c es s o r =
      let one : es ≡ e ∷ [] = laws.retrieve id c es r ∙ ap (λ x. as_list x) s in rw (r, one, o) refl

  read_missing :
      (id u : String) (c : C) (es : List Experience)
      → stored c id ≡ none
      → q.retrieve id c ≡ answered es
      → get_experience q id u c ≡ raised (http_error 404)
  unfolding get_experience
  read_missing id u c es s r =
      let no : es ≡ [] = laws.retrieve id c es r ∙ ap (λ x. as_list x) s in rw (r, no) refl

  pub written_ok :
      (e e' : Experience) (r : Reply (Unit {0})) (c c' : C)
      → written q e (r, c) ≡ (ok e', c')
      → (r ≡ answered tt) × (e ≡ e') × (c ≡ c')
  written_ok e e' (answered t) c c' h = (
    refl,
    ok_inj (ap (λ (p : Result Experience × C). p.0) h),
    ap (λ (p : Result Experience × C). p.1) h,
  )
  written_ok e e' unexpected_response c c' h =
      absurd (let x = ap (λ (p : Result Experience × C). p.0) h in ground arith)
  written_ok e e' failed c c' h =
      absurd (let x = ap (λ (p : Result Experience × C). p.0) h in ground arith)

  pub upserted_ok :
      (id : String) (r : Result (Experience × V)) (c c' : C) (e : Experience)
      → upserted q id r c ≡ (ok e, c')
      → (v : V) × (r ≡ ok (e, v)) × (stored c' id ≡ some e)
  upserted_ok id (raised x) c c' e h =
      absurd (let y = ap (λ (p : Result Experience × C). p.0) h in ground arith)
  upserted_ok id (ok (e₀, v)) c c' e h =
      let w = written_ok e₀ e (q.upsert id v e₀ c).0 (q.upsert id v e₀ c).1 c' h in
      (
        v,
        ap (λ (y : Experience). ok (y, v)) w.1,
        subst (λ (d : C). stored d id ≡ some e) w.2
            (laws.upsert id v e₀ c w.0 ∙ ap (λ y. some y) w.1),
      )

  pub embedded_same :
      (ai : OpenAi V) (e : Experience) (p : Experience × V) → embedded q ai e ≡ ok p → p.0 ≡ e
  unfolding embedded
  embedded_same ai e p h =
      let v =
        bind_ok (generate_embedding (ai.embeddings (combine_text_for_embedding e))) (λ v. ok (e, v))
          p h in
      sym (ap (λ (y : Experience × V). y.0) (ok_inj v.2))

  -- What a creation embeds: the request with the labels of the answer of OpenAI.
  pub created_from :
      (ai : OpenAi V) (u : String) (body : ExperienceCreate) (id : String) (now : DateTime)
      (p : Experience × V)
      → created q ai u body id now ≡ ok p
      → (temp : Experience) × (p.0
          ≡ new_experience id u body (generate_tags_and_category ai.completions temp) now)
        × (is_valid p.0 ≡ true)
  unfolding created
  created_from ai u body id now p h =
      let labelled : Experience → Experience =
        λ e. new_experience id u body (generate_tags_and_category ai.completions e) now in
      let t =
        bind_ok (from_payload (new_experience id u body ("", creative_problem_solving) now))
          (λ e. from_payload (labelled e) >>= embedded q ai) p h in
      let f = bind_ok (from_payload (labelled t.0)) (embedded q ai) p t.2 in
      let v = from_payload-valid (labelled t.0) f.0 f.1 in
      let same = embedded_same ai f.0 p f.2 in
      (t.0, same ∙ v.0, subst (λ (e : Experience). is_valid e ≡ true) (sym same) v.1)

  deleted_ok :
      (id : String) (r : Result Experience) (c c' : C)
      → delete_read q id r c ≡ (ok tt, c')
      → stored c' id ≡ none
  deleted_ok id (raised x) c c' h =
      absurd (let y = ap (λ (p : Result (Unit {0}) × C). p.0) h in ground arith)
  deleted_ok id (ok e) c c' h =
      let p = done (q.delete id c).0 (q.delete id c).1 h in
      subst (λ (d : C). stored d id ≡ none) p.1 (laws.delete id c p.0)
    where
      done :
          (r : Reply (Unit {0})) (d : C)
          → Path (Result (Unit {0}) × C) (or_503 r, d) (ok tt, c')
          → (r ≡ answered tt) × (d ≡ c')
      done (answered t) d k = (refl, ap (λ (p : Result (Unit {0}) × C). p.1) k)
      done unexpected_response d k =
          absurd (let y = ap (λ (p : Result (Unit {0}) × C). p.0) k in ground arith)
      done failed d k = absurd (let y = ap (λ (p : Result (Unit {0}) × C). p.0) k in ground arith)

  -- An experience that was created is read back as it was answered, with the owner and all values of
  -- the request, until it is deleted; then a read answers 404. The reads are answered by Qdrant.
  pub created_then_deleted :
      (ai : OpenAi V) (u : String) (body : ExperienceCreate) (id : String) (now : DateTime)
      (c c₁ c₂ : C) (e : Experience) (es fs : List Experience)
      → create_experience q ai u body id now c ≡ (ok e, c₁)
      → q.retrieve id c₁ ≡ answered es
      → delete_experience q id u c₁ ≡ (ok tt, c₂)
      → q.retrieve id c₂ ≡ answered fs
      → (e ≡ new_experience id u body (e.tags, e.category) now)
        × (get_experience q id u c₁ ≡ ok e)
        × (get_experience q id u c₂ ≡ raised (http_error 404))
  unfolding create_experience delete_experience
  created_then_deleted ai u body id now c c₁ c₂ e es fs h r d r' =
      let p = upserted_ok id (created q ai u body id now) c c₁ e h in
      let f = created_from ai u body id now (e, p.0) p.1 in
      let own : str_eq e.user_id u ≡ true =
        subst (λ (v : String). str_eq v u ≡ true) (sym (ap (λ (y : Experience). y.user_id) f.1))
          (eq_refl u) in
      (
        subst (λ (y : Experience). y ≡ new_experience id u body (y.tags, y.category) now) (sym f.1)
            refl,
        read_stored id u e c₁ es p.2 own r ∙ valid_payload e f.2,
        read_missing id u c₂ fs (deleted_ok id (get_experience q id u c₁) c₁ c₂ d) r',
      )
