-- ===== src/Experience/Laws.antt =====
-- What src/experience/service.py relies on of Qdrant: a point is found by its id with the payload last
-- written, a write of one id leaves the points of others, and the points of a user are counted and listed
-- in one order, the newest first. A write that is not answered may have been made.
use logit_be.Common.{
  ℕ, false, ◌≡◌, ◌⊎◌, Option, none, some, String, List, [], ◌∷◌, str_eq, length, take, All,
}
use logit_be.Clock.{DateTime}
use logit_be.Experience.{Experience, ExperienceUpdate}
use logit_be.Experience.Client.{QdrantClient, OpenAi, answered}
use logit_be.Experience.Store.{
  ExperienceCreate, create_experience, update_experience, delete_experience,
}

abbrev pub as_list {ℓ} : {A : Type ℓ} → Option A → List A
as_list none = []
as_list (some a) = a ∷ []

-- `stored` is the payload of a point, `newest` the order of a user's points, by collection.
pub record IsQdrant {C V S : Type 0} (q : QdrantClient C V S)
    (stored : C → String → Option Experience) (newest : C → String → List Experience) : Type 1 where
  pub retrieve :
      (id : String) (c : C) (es : List Experience)
      → q.retrieve id c ≡ answered es
      → es ≡ as_list (stored c id)
  pub count : (u : String) (c : C) (n : ℕ) → q.count u c ≡ answered n → n ≡ length (newest c u)
  pub scroll_newest :
      (u : String) (n : ℕ) (c : C) (es : List Experience)
      → q.scroll_newest u n c ≡ answered es
      → es ≡ take n (newest c u)
  pub newest_stored :
      (P : Experience → Type 0) (u : String) (c : C)
      → ((id : String) (e : Experience) → stored c id ≡ some e → P e)
      → All P (newest c u)
  pub stored_newest :
      (P : Experience → Type 0) (id : String) (c : C) (e : Experience)
      → stored c id ≡ some e
      → All P (newest c e.user_id)
      → P e
  pub upsert :
      (id : String) (v : V) (e : Experience) (c : C)
      → (q.upsert id v e c).0 ≡ answered tt
      → stored (q.upsert id v e c).1 id ≡ some e
  pub upsert_here :
      (id : String) (v : V) (e : Experience) (c : C)
      → (stored (q.upsert id v e c).1 id ≡ stored c id) ⊎ (stored (q.upsert id v e c).1 id ≡ some e)
  pub upsert_else :
      (id j : String) (v : V) (e : Experience) (c : C)
      → str_eq id j ≡ false
      → stored (q.upsert id v e c).1 j ≡ stored c j
  pub set_payload :
      (id : String) (e : Experience) (c : C)
      → (q.set_payload id e c).0 ≡ answered tt
      → stored (q.set_payload id e c).1 id ≡ some e
  pub set_payload_here :
      (id : String) (e : Experience) (c : C)
      → (stored (q.set_payload id e c).1 id ≡ stored c id)
        ⊎ (stored (q.set_payload id e c).1 id ≡ some e)
  pub set_payload_else :
      (id j : String) (e : Experience) (c : C)
      → str_eq id j ≡ false
      → stored (q.set_payload id e c).1 j ≡ stored c j
  pub delete :
      (id : String) (c : C) → (q.delete id c).0 ≡ answered tt → stored (q.delete id c).1 id ≡ none
  pub delete_here :
      (id : String) (c : C)
      → (stored (q.delete id c).1 id ≡ stored c id) ⊎ (stored (q.delete id c).1 id ≡ none)
  pub delete_else :
      (id j : String) (c : C) → str_eq id j ≡ false → stored (q.delete id c).1 j ≡ stored c j

-- A request of a user, with the id of a new experience.
pub data Request : Type 0 where
  create : String → ExperienceCreate → String → DateTime → Request
  update : String → String → ExperienceUpdate → DateTime → Request
  delete : String → String → Request

module _ {C V S : Type 0} (q : QdrantClient C V S) where
  abbrev pub run : OpenAi V → Request → C → C
  run ai (create u body id now) c = (create_experience q ai u body id now c).1
  run ai (update u id body now) c = (update_experience q ai id u body now c).1
  run ai (delete u id) c = (delete_experience q id u c).1

  -- Any sequence of requests, each with what OpenAI answers it.
  abbrev pub run_all : List (OpenAi V × Request) → C → C
  run_all [] c = c
  run_all ((ai, r) ∷ rs) c = run_all rs (run ai r c)
