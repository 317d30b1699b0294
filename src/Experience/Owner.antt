-- ===== src/Experience/Owner.antt =====
-- An experience is changed by its owner only.
use logit_be.Common.{
  ◌≡◌, refl, sym, ap, ◌∙◌, subst, Bool, true, false, not, ◌&&◌, Option, none, some, String, List,
  [], ◌∷◌, str_eq, All, arith, inl, inr, Bool-cases, eq_iff,
}
use logit_be.Clock.{DateTime}
use logit_be.World.Action.{Exception, Result, ok, raised, http_error}
use logit_be.Experience.{ExperienceFormatType, Experience, ExperienceUpdate}
use logit_be.Experience as Change
use logit_be.Experience.Client.{
  Reply, answered, unexpected_response, failed, QdrantClient, OpenAi, or_503, ◌>>=◌,
}
use logit_be.Experience.Store.{
  read_owned, get_experience, upserted, created, create_experience, store_update, update_as,
  update_read, update_experience, delete_read, delete_experience, content_changed,
}
use logit_be.Experience.Laws.{IsQdrant, Request, create, update, delete, as_list, run, run_all}

-- A request of another user that does not create this id.
abbrev pub is_foreign : String → String → Request → Bool
is_foreign u k (create v body id now) = not (str_eq u v) && not (str_eq id k)
is_foreign u k (update v id body now) = not (str_eq u v)
is_foreign u k (delete v id) = not (str_eq u v)

module _ {C V S : Type 0} (q : QdrantClient C V S) (stored : C → String → Option Experience)
    (newest : C → String → List Experience) (laws : IsQdrant q stored newest) where
  upserted_else :
      (id k : String) (r : Result (Experience × V)) (c : C)
      → str_eq id k ≡ false
      → stored (upserted q id r c).1 k ≡ stored c k
  upserted_else id k (raised x) c h = refl
  upserted_else id k (ok (e, v)) c h = laws.upsert_else id k v e c h

  store_update_else :
      (ai : OpenAi V) (id k : String) (old : ExperienceFormatType) (u : ExperienceUpdate)
      (r : Result Experience) (c : C)
      → str_eq id k ≡ false
      → stored (store_update q ai id old u r c).1 k ≡ stored c k
  unfolding store_update
  store_update_else ai id k old u (raised x) c h = refl
  store_update_else ai id k old u (ok e) c h = elim (Bool-cases (content_changed old u)) [
    | inl a ↦ rw a (upserted_else id k _ c h)
    | inr a ↦ rw a (laws.set_payload_else id k e c h)
  ]

  update_as_else :
      (ai : OpenAi V) (id k : String) (u : ExperienceUpdate) (now : DateTime)
      (f : Option ExperienceFormatType) (e : Experience) (c : C)
      → str_eq id k ≡ false
      → stored (update_as q ai id u now f e c).1 k ≡ stored c k
  update_as_else ai id k u now none e c h = refl
  update_as_else ai id k u now (some old) e c h =
      store_update_else ai id k old u (Change.update_experience old e u now) c h

  update_read_else :
      (ai : OpenAi V) (id k : String) (u : ExperienceUpdate) (now : DateTime)
      (r : Result Experience) (c : C)
      → str_eq id k ≡ false
      → stored (update_read q ai id u now r c).1 k ≡ stored c k
  update_read_else ai id k u now (raised x) c h = refl
  update_read_else ai id k u now (ok e) c h = update_as_else ai id k u now e.format_type e c h

  -- What a request reads of an experience of another user.
  read_refused :
      (v : String) (e : Experience) (r : Reply (List Experience))
      → ((es : List Experience) → r ≡ answered es → es ≡ e ∷ [])
      → str_eq e.user_id v ≡ false
      → (x : Exception) × (or_503 r >>= read_owned q v ≡ raised x)
  read_refused v e (answered es) h n = (http_error 404, rw (h es refl, n) refl)
  read_refused v e unexpected_response h n = (http_error 503, refl)
  read_refused v e failed h n = (http_error 500, refl)

  refused :
      (v k : String) (e : Experience) (c : C)
      → stored c k ≡ some e
      → str_eq e.user_id v ≡ false
      → (x : Exception) × (get_experience q k v c ≡ raised x)
  unfolding get_experience
  refused v k e c s n =
      read_refused v e (q.retrieve k c)
        (λ es a. laws.retrieve k c es a ∙ ap (λ (o : Option Experience). as_list o) s) n

  -- A request on another id, or one that is refused, keeps the point.
  update_foreign :
      (ai : OpenAi V) (v id k : String) (e : Experience) (u : ExperienceUpdate) (now : DateTime)
      (c : C)
      → stored c k ≡ some e
      → str_eq e.user_id v ≡ false
      → stored (update_experience q ai id v u now c).1 k ≡ some e
  unfolding update_experience
  update_foreign ai v id k e u now c s n = elim (Bool-cases (str_eq id k)) [
    | inr other ↦ update_read_else ai id k u now (get_experience q id v c) c other ∙ s
    | inl same ↦
        subst
          (λ (j : String).
            stored (update_read q ai j u now (get_experience q j v c) c).1 k ≡ some e)
          (sym ((eq_iff id k).0 same)) (rw ((refused v k e c s n).1) s)
  ]

  delete_read_else :
      (id k : String) (r : Result Experience) (c : C)
      → str_eq id k ≡ false
      → stored (delete_read q id r c).1 k ≡ stored c k
  delete_read_else id k (raised x) c h = refl
  delete_read_else id k (ok e) c h = laws.delete_else id k c h

  delete_foreign :
      (v id k : String) (e : Experience) (c : C)
      → stored c k ≡ some e
      → str_eq e.user_id v ≡ false
      → stored (delete_experience q id v c).1 k ≡ some e
  unfolding delete_experience
  delete_foreign v id k e c s n = elim (Bool-cases (str_eq id k)) [
    | inr other ↦ delete_read_else id k (get_experience q id v c) c other ∙ s
    | inl same ↦
        subst (λ (j : String). stored (delete_read q j (get_experience q j v c) c).1 k ≡ some e)
          (sym ((eq_iff id k).0 same)) (rw ((refused v k e c s n).1) s)
  ]

  run_else :
      (ai : OpenAi V) (r : Request) (k : String) (e : Experience) (c : C)
      → is_foreign e.user_id k r ≡ true
      → stored c k ≡ some e
      → stored (run q ai r c) k ≡ some e
  unfolding create_experience
  run_else ai (create v body id now) k e c f s =
      upserted_else id k (created q ai v body id now) c (ground arith) ∙ s
  run_else ai (update v id body now) k e c f s =
      update_foreign ai v id k e body now c s (ground arith)
  run_else ai (delete v id) k e c f s = delete_foreign v id k e c s (ground arith)

  -- An experience stays as it was through any sequence of requests of other users, whatever OpenAI
  -- answers and also where calls of Qdrant fail, where no request creates its id.
  pub others_untouched :
      (k : String) (e : Experience) (rs : List (OpenAi V × Request)) (c : C)
      → stored c k ≡ some e
      → All (λ (p : OpenAi V × Request). is_foreign e.user_id k p.1 ≡ true) rs
      → stored (run_all q rs c) k ≡ some e
  others_untouched k e [] c s f = s
  others_untouched k e ((ai, r) ∷ rs) c s f =
      others_untouched k e rs (run q ai r c) (run_else ai r k e c f.0 s) f.1
