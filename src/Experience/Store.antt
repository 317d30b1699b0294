-- ===== src/Experience/Store.antt =====
-- The requests of src/experience/service.py on the experiences in Qdrant. The id of a new experience and
-- the instant are arguments. What a request logs of its use of OpenAI is left out.
use logit_be.Common.{
  ℕ, ◌+◌, min, leb, Bool, true, false, not, ◌&&◌, ◌||◌, Option, none, some, String, List, [], ◌∷◌,
  str_eq, length, take, drop, if◌then◌else◌,
}
use logit_be.Clock.{DateTime, Date}
use logit_be.World.Action.{Result, ok, raised, http_error, value_error, type_error}
use logit_be.Text.{codes}
use logit_be.Experience.Category.{ExperienceType, ExperienceCategory, creative_problem_solving}
use logit_be.Experience.{
  ExperienceFormatType, Field, format_of, format_eq, Experience, ExperienceUpdate, is_set, has_text,
  all_fields, new_format,
}
use logit_be.Experience as Change
use logit_be.Experience.Tags.{generate_tags_and_category, combine_text_for_embedding}
use logit_be.Experience.Client.{Reply, QdrantClient, OpenAi, ◌>>=◌, or_503, generate_embedding}

pub record ExperienceCreate : Type 0 where
  pub title : String
  pub start_date : Date
  pub end_date : Option Date
  pub experience_type : ExperienceType
  pub format_type : ExperienceFormatType
  pub fields : Field → Option String

-- Between 1 and 200 characters.
abbrev pub title_fits : String → Bool
title_fits s = not (str_eq s "") && leb (length (codes s)) 200

abbrev pub required_title : Option String → Bool
required_title none = false
required_title (some s) = title_fits s

-- Absent, or no empty text.
abbrev pub optional_text : Option String → Bool
optional_text none = true
optional_text (some s) = not (str_eq s "")

-- Whether `Experience(**payload)` passes; it raises a `ValidationError`, a `ValueError`, otherwise.
unfoldable pub is_valid : Experience → Bool
is_valid e =
    required_title e.title
    && is_set e.start_date
    && is_set e.experience_type
    && is_set e.format_type
    && all_fields (λ x. optional_text (e.fields x))

unfoldable pub from_payload : Experience → Result Experience
from_payload e = if is_valid e then ok e else raised value_error

abbrev pub new_experience :
    String → String → ExperienceCreate → String × ExperienceCategory → DateTime → Experience
new_experience id user_id body (tags, category) now = record {
  id = id;
  user_id = user_id;
  title = some body.title;
  start_date = some body.start_date;
  end_date = body.end_date;
  experience_type = some body.experience_type;
  format_type = some body.format_type;
  fields = body.fields;
  category = category;
  tags = tags;
  created_at = now;
  updated_at = now;
}

-- The fields that an experience of this format is embedded with.
abbrev sets_content : ExperienceFormatType → ExperienceUpdate → Bool
sets_content f u =
    is_set u.title || not (all_fields (λ x. not (format_eq (format_of x) f && is_set (u.fields x))))

-- Whether the embedding is made again.
unfoldable pub content_changed : ExperienceFormatType → ExperienceUpdate → Bool
content_changed old u = elim (new_format u) [ none ↦ sets_content old u | some f ↦ true ]

module _ {C V S : Type 0} (q : QdrantClient C V S) where
  abbrev pub read_owned : String → List Experience → Result Experience
  read_owned user_id [] = raised (http_error 404)
  read_owned user_id (e ∷ es) =
      if not (str_eq e.user_id user_id) then raised (http_error 404) else from_payload e

  unfoldable pub get_experience : String → String → C → Result Experience
  get_experience id user_id c = or_503 (q.retrieve id c) >>= read_owned user_id

  -- The answer of a request that has written an experience.
  abbrev pub written : Experience → Reply (Unit {0}) × C → Result Experience × C
  written e (r, c) = (or_503 r >>= λ _. ok e, c)

  -- An experience with its tags, its category and its embedding.
  unfoldable pub embedded : OpenAi V → Experience → Result (Experience × V)
  embedded ai e =
      generate_embedding (ai.embeddings (combine_text_for_embedding e)) >>= λ v. ok (e, v)

  abbrev pub upserted : String → Result (Experience × V) → C → Result Experience × C
  upserted id (raised x) c = (raised x, c)
  upserted id (ok (e, v)) c = written e (q.upsert id v e c)

  unfoldable pub created :
      OpenAi V → String → ExperienceCreate → String → DateTime → Result (Experience × V)
  unfolding embedded
  created ai user_id body id now =
      from_payload (new_experience id user_id body ("", creative_problem_solving) now) >>= λ temp.
      from_payload
        (new_experience id user_id body (generate_tags_and_category ai.completions temp) now)
      >>= embedded ai

  unfoldable pub create_experience :
      OpenAi V → String → ExperienceCreate → String → DateTime → C → Result Experience × C
  create_experience ai user_id body id now c = upserted id (created ai user_id body id now) c

  abbrev pub with_labels : Experience → String × ExperienceCategory → Experience
  with_labels e (tags, category) = record e { tags = tags; category = category }

  -- The end of an update, from the changed copy.
  unfoldable pub store_update :
      OpenAi V
      → String
      → ExperienceFormatType
      → ExperienceUpdate
      → Result Experience
      → C
      → Result Experience × C
  store_update ai id old u (raised x) c = (raised x, c)
  store_update ai id old u (ok e) c =
      let again =
        upserted id (embedded ai (with_labels e (generate_tags_and_category ai.completions e))) c in
      if content_changed old u then again else written e (q.set_payload id e c)

  -- An experience that passed validation has a format.
  abbrev pub update_as :
      OpenAi V
      → String
      → ExperienceUpdate
      → DateTime
      → Option ExperienceFormatType
      → Experience
      → C
      → Result Experience × C
  update_as ai id u now none e c = (raised type_error, c)
  update_as ai id u now (some old) e c =
      store_update ai id old u (Change.update_experience old e u now) c

  abbrev pub update_read :
      OpenAi V
      → String
      → ExperienceUpdate
      → DateTime
      → Result Experience
      → C
      → Result Experience × C
  update_read ai id u now (raised x) c = (raised x, c)
  update_read ai id u now (ok e) c = update_as ai id u now e.format_type e c

  unfoldable pub update_experience :
      OpenAi V → String → String → ExperienceUpdate → DateTime → C → Result Experience × C
  update_experience ai id user_id u now c = update_read ai id u now (get_experience id user_id c) c

  abbrev pub delete_read : String → Result Experience → C → Result (Unit {0}) × C
  delete_read id (raised x) c = (raised x, c)
  delete_read id (ok e) c = let (r, c') = q.delete id c in (or_503 r, c')

  unfoldable pub delete_experience : String → String → C → Result (Unit {0}) × C
  delete_experience id user_id c = delete_read id (get_experience id user_id c) c

  -- The payloads of a list of points, where `except Exception` answers an invalid one.
  abbrev pub payloads : List Experience → Result (List Experience)
  payloads [] = ok []
  payloads (e ∷ es) =
      if is_valid e then (payloads es >>= λ rest. ok (e ∷ rest)) else raised (http_error 500)

  -- `xs[offset:offset + limit]`
  abbrev pub slice : ℕ → ℕ → List Experience → List Experience
  slice offset limit xs = drop offset (take (offset + limit) xs)

  abbrev pub list_page : String → ℕ → ℕ → C → ℕ → Result (List Experience × ℕ)
  list_page user_id limit offset c total =
      if leb total offset
      then ok ([], total)
      else (or_503 (q.scroll_newest user_id (min (limit + offset) total) c) >>= payloads >>= λ all.
          ok (slice offset limit all, total))

  unfoldable pub list_experiences : String → ℕ → ℕ → C → Result (List Experience × ℕ)
  list_experiences user_id limit offset c =
      or_503 (q.count user_id c) >>= list_page user_id limit offset c

  -- The conversion of the answer is outside the `try`.
  abbrev pub scored_payloads : List (Experience × S) → Result (List (Experience × S))
  scored_payloads [] = ok []
  scored_payloads ((e, s) ∷ es) =
      from_payload e >>= λ e'. scored_payloads es >>= λ rest. ok ((e', s) ∷ rest)

  unfoldable pub search_experiences :
      OpenAi V → String → String → ℕ → C → Result (List (Experience × S))
  search_experiences ai user_id query limit c = generate_embedding (ai.embeddings query) >>= λ v.
      or_503 (q.query_points user_id v limit c) >>= scored_payloads
