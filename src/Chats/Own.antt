-- ===== src/Chats/Own.antt =====
-- A language model is given the user's own experiences (`get_experiences_by_ids` of
-- src/chats/llm_service.py).
use logit_be.Common.{
  ◌≡◌, refl, ap, ◌∙◌, true, Option, some, String, List, [], ◌∷◌, map, All, str_eq,
}
use logit_be.World.Action.{Result, ok, raised}
use logit_be.Experience.{Experience}
use logit_be.Experience.Client.{QdrantClient, OpenAi, answered}
use logit_be.Experience.Store.{is_valid, get_experience}
use logit_be.Experience.Laws.{IsQdrant, Request, run_all}
use logit_be.Experience.Owner.{is_foreign, others_untouched}
use logit_be.Experience.Lifecycle.{read_stored, valid_payload}
use logit_be.Experience.Blocked.{read_own}
use logit_be.Chats.Materials.{kept, get_experiences_by_ids, load_experiences}

module _ {C V S : Type 0} (q : QdrantClient C V S) (stored : C → String → Option Experience)
    (newest : C → String → List Experience) (laws : IsQdrant q stored newest) where
  -- An experience of the user that can be read under its id, and is not created again.
  pub record IsChosen (u : String) (rs : List (OpenAi V × Request)) (c : C)
      (p : String × Experience) : Type 0 where
    pub here : stored c p.0 ≡ some p.1
    pub own : str_eq p.1.user_id u ≡ true
    pub valid : is_valid p.1 ≡ true
    pub foreign : All (λ (r : OpenAi V × Request). is_foreign p.1.user_id p.0 r.1 ≡ true) rs

  kept_own :
      (u id : String) (c : C) (r : Result Experience) (es : List Experience)
      → get_experience q id u c ≡ r
      → All (λ (e : Experience). str_eq e.user_id u ≡ true) es
      → All (λ (e : Experience). str_eq e.user_id u ≡ true) (kept r es)
  kept_own u id c (raised x) es h a = a
  kept_own u id c (ok e) es h a = (read_own q stored newest laws id u c e h, a)

  owned_each :
      (u : String) (ids : List String) (c : C)
      → All (λ (e : Experience). str_eq e.user_id u ≡ true) (get_experiences_by_ids q ids u c)
  unfolding get_experiences_by_ids
  owned_each u [] c = tt
  owned_each u (id ∷ ids) c =
      kept_own u id c (get_experience q id u c) (get_experiences_by_ids q ids u c) refl
        (owned_each u ids c)

  chosen_each :
      (u : String) (ps : List (String × Experience)) (rs : List (OpenAi V × Request)) (c : C)
      → All (IsChosen u rs c) ps
      → ((id : String) → (es : List Experience) × (q.retrieve id (run_all q rs c) ≡ answered es))
      → get_experiences_by_ids q (map (λ p. p.0) ps) u (run_all q rs c) ≡ map (λ p. p.1) ps
  unfolding get_experiences_by_ids
  chosen_each u [] rs c h a = refl
  chosen_each u (p ∷ ps) rs c (h, hs) a =
      let d = run_all q rs c in
      let read : get_experience q p.0 u d ≡ ok p.1 =
        read_stored q stored newest laws p.0 u p.1 d (a p.0).0
          (others_untouched q stored newest laws p.0 p.1 rs c h.here h.foreign) h.own (a p.0).1
        ∙ valid_payload p.1 h.valid in
      rw read (ap (λ (es : List Experience). p.1 ∷ es) (chosen_each u ps rs c hs a))

  -- Whatever ids a request selects and whatever Qdrant answers, the language model is given experiences of the
  -- user only. Of a selection of readable experiences of the user, after any sequence of requests of other
  -- users that create none of its ids, and where Qdrant answers then, it is given all, unchanged and in order.
  pub own_materials :
      (u : String) (ids : List String) (ps : List (String × Experience))
      (rs : List (OpenAi V × Request)) (c c' : C)
      → All (IsChosen u rs c) ps
      → ((id : String) → (es : List Experience) × (q.retrieve id (run_all q rs c) ≡ answered es))
      → All (λ (e : Experience). str_eq e.user_id u ≡ true) (load_experiences q (some ids) u c')
        × (load_experiences q (some (map (λ p. p.0) ps)) u (run_all q rs c) ≡ map (λ p. p.1) ps)
  unfolding load_experiences
  own_materials u ids ps rs c c' h a = (owned_each u ids c', chosen_each u ps rs c h a)
