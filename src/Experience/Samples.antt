-- ===== src/Experience/Samples.antt =====
-- Requests on a collection with room for one point, and the theorems at them.
use logit_be.Common.{
  ℕ, ◌≡◌, refl, subst, true, Option, none, some, String, List, [], ◌∷◌, length, take, drop, arith,
  inl, inr, Bool-cases, str_eq,
}
use logit_be.World.Action.{ok, raised, http_error, value_error}
use logit_be.Experience.Category.{intern, technical_proficiency}
use logit_be.Experience.{
  Experience, ExperienceUpdate, format_of, star, content, free, situation, model_copy, cleared,
}
use logit_be.Experience as Change
use logit_be.Experience.Tags.{
  generate_tags_and_category, tags_prompt, content_of, read_answer, read_lines, read_line,
  combine_text_for_embedding,
}
use logit_be.Experience.Client.{OpenAi, embedding, generate_embedding}
use logit_be.Experience.Store.{
  ExperienceCreate, is_valid, from_payload, new_experience, get_experience, embedded, created,
  create_experience, store_update, content_changed, update_experience, delete_experience,
  list_experiences,
}
use logit_be.Experience.Laws.{Request, create, update, delete, run_all}
use logit_be.Experience.Owner.{others_untouched}
use logit_be.Experience.Valid.{stays_valid}
use logit_be.Experience.Listing.{list_is_page}
use logit_be.Experience.Lifecycle.{created_then_deleted}
use logit_be.Experience.Blocked.{null_title_blocks}
use logit_be.Experience.Memory.{slot, owned_by, memory, memory_laws}
use logit_be.Experience.Tests.{noon, story, stored, to_free}

abbrev ai : OpenAi ℕ
ai = record {
  embeddings = λ text. embedding 7;
  completions = λ prompt. some "태그: 백엔드, 요리, DB설계\n카테고리: 기술적 전문성";
}

abbrev body : ExperienceCreate
body = record {
  title = "Chatbot";
  start_date = record { year = 2024; month = 6; day = 1 };
  end_date = none;
  experience_type = intern;
  format_type = star;
  fields = story;
}

abbrev made : Experience
made = new_experience "e1" "u1" body ("백엔드, DB설계", technical_proficiency) noon

abbrev pub attempts : List (OpenAi ℕ × Request)
attempts =
    (ai, update "u2" "e1" to_free noon)
    ∷ (ai, create "u2" body "e2" noon)
    ∷ (ai, delete "u2" "e1")
    ∷ []

others_untouched_example : slot (run_all memory attempts (some stored)) "e1" ≡ some stored
others_untouched_example =
    others_untouched memory slot owned_by memory_laws "e1" stored attempts (some stored) refl
      (refl, (refl, (refl, tt)))

abbrev changes : List (OpenAi ℕ × Request)
changes = (ai, create "u1" body "e1" noon) ∷ (ai, update "u1" "e1" to_free noon) ∷ []

nothing : (id : String) (e : Experience) → slot none id ≡ some e → is_valid e ≡ true
nothing id e h = elim (Bool-cases (str_eq "e1" id)) [
  | inl a ↦ absurd (grind arith)
  | inr a ↦ absurd (grind arith)
]

abbrev final : Experience
final = record (model_copy made to_free (cleared star to_free.fields) noon) {
  tags = "백엔드, DB설계";
  category = technical_proficiency;
}

stays_valid_example : is_valid final ≡ true
unfolding create_experience created update_experience store_update content_changed embedded
    from_payload is_valid get_experience generate_tags_and_category read_answer read_lines read_line
    tags_prompt content_of combine_text_for_embedding generate_embedding Change.update_experience
    Change.update_to Change.fields_allowed Change.fields_complete format_of Change.format_eq
stays_valid_example =
    stays_valid memory slot owned_by memory_laws changes none (refl, (refl, tt)) nothing "e1" final
      refl

created_then_deleted_example :
    (made ≡ new_experience "e1" "u1" body (made.tags, made.category) noon)
    × (get_experience memory "e1" "u1" (some made) ≡ ok made)
    × (get_experience memory "e1" "u1" none ≡ raised (http_error 404))
unfolding create_experience delete_experience created embedded from_payload is_valid get_experience
    generate_tags_and_category read_answer read_lines read_line tags_prompt content_of
    combine_text_for_embedding generate_embedding
created_then_deleted_example =
    created_then_deleted memory slot owned_by memory_laws ai "u1" body "e1" noon none (some made)
      none made (made ∷ []) [] refl refl refl refl

only : (id : String) (e : Experience) → slot (some made) id ≡ some e → is_valid e ≡ true
unfolding is_valid
only id e h = elim (Bool-cases (str_eq "e1" id)) [
  | inl a ↦
      subst (λ (o : Option Experience). elim o [ none ↦ Unit | some x ↦ is_valid x ≡ true ])
        (rw a at h) refl
  | inr a ↦ absurd (grind arith)
]

list_is_page_example :
    list_experiences memory "u1" 10 0 (some made)
    ≡ ok (take 10 (drop 0 (owned_by (some made) "u1")), length (owned_by (some made) "u1"))
list_is_page_example =
    list_is_page memory slot owned_by memory_laws "u1" 10 0 1 (some made) (made ∷ []) only refl refl

abbrev no_title : ExperienceUpdate
no_title = record {
  title = some none;
  start_date = none;
  end_date = none;
  experience_type = none;
  format_type = none;
  fields = λ x. none;
}

abbrev untitled : Experience
untitled = record (model_copy stored no_title (λ x. none) noon) {
  tags = "백엔드, DB설계";
  category = technical_proficiency;
}

null_title_blocks_example :
    (get_experience memory "e1" "u1" (some untitled) ≡ raised value_error)
    × (delete_experience memory "e1" "u1" (some untitled) ≡ (raised value_error, some untitled))
    × (update_experience memory ai "e1" "u1" to_free noon (some untitled)
        ≡ (raised value_error, some untitled))
    × (list_experiences memory "u1" 100 0 (some untitled) ≡ raised (http_error 500))
unfolding update_experience store_update content_changed embedded from_payload is_valid
    get_experience generate_tags_and_category read_answer read_lines read_line tags_prompt
    content_of combine_text_for_embedding generate_embedding Change.update_experience
    Change.update_to Change.fields_allowed Change.fields_complete format_of Change.format_eq
null_title_blocks_example =
    null_title_blocks memory slot owned_by memory_laws ai ai "e1" "u1" no_title to_free noon noon
      (some stored) (some untitled) untitled (untitled ∷ []) (untitled ∷ []) 100 1 refl refl refl
      refl (omega arith) refl
