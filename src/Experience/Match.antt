-- ===== src/Experience/Match.antt =====
-- `get_experiences_with_question_similarity` of src/experience/service.py. The three embeddings are asked
-- for at once; the model asks one after the other, which makes a difference where two of them fail.
use Prim.Native.String.{◌++◌ as str_append}
use logit_be.Common.{
  ℕ, ◌==◌, ◌&&◌, Option, none, some, String, List, [], ◌∷◌, map, where_rows, if◌then◌else◌,
}
use logit_be.Rows.Project.{Project, Question, is_live}
use logit_be.World.{Db}
use logit_be.World.Action.{Result, ok, raised, http_error, value_error, multiple_results}
use logit_be.Text.{parse_uuid}
use logit_be.Text.Words.{join}
use logit_be.Experience.Category.{value, available_tags, available_categories}
use logit_be.Experience.{Experience}
use logit_be.Experience.Tags.{extract_tags_from_question, extract_category_from_question}
use logit_be.Experience.Client.{QdrantClient, OpenAi, ◌>>=◌, or_503, generate_embedding}
use logit_be.Experience.Store.{scored_payloads}
use logit_be.Experience.Score.{
  Floats, tag_matching_score, category_matching_score, content_quality, final_score,
}

abbrev text : List String → String
text = join ""

-- The project as the prompts show it.
abbrev pub project_info : Project → String
project_info p =
    text ("회사: " ∷ p.company ∷ "\n직무: " ∷ p.job_position ∷ "\n채용공고: " ∷ p.recruit_notice ∷ [])

unfoldable pub question_tags_prompt : String → String → String
question_tags_prompt question info = join "\n" (
    "다음 문항과 프로젝트 정보를 분석하여 이 문항에 답하기 위해 필요한 역량/경험 태그를 선택해주세요."
    ∷ ""
    ∷ str_append "문항: " question
    ∷ ""
    ∷ "프로젝트 정보:"
    ∷ info
    ∷ ""
    ∷ "선택 가능한 태그:"
    ∷ join ", " available_tags
    ∷ ""
    ∷ "요구사항:"
    ∷ "1. 이 문항에 답하기 위해 필요한 역량/경험 태그를 2개 선택"
    ∷ "2. 선택한 태그를 쉼표로 구분하여 반환"
    ∷ "3. 태그 이름만 정확히 반환 (추가 설명 없이)"
    ∷ "4. 예시: \"백엔드, DB설계, 트러블슈팅, API연동\""
    ∷ ""
    ∷ "선택한 태그:"
    ∷ [])

unfoldable pub question_category_prompt : String → String → String
question_category_prompt question info = join "\n" (
    "다음 문항과 프로젝트 정보를 분석하여 이 문항에서 주로 평가하려는 역량 카테고리를 1개 선택해주세요."
    ∷ ""
    ∷ str_append "문항: " question
    ∷ ""
    ∷ "프로젝트 정보:"
    ∷ info
    ∷ ""
    ∷ "선택 가능한 카테고리:"
    ∷ join ", " available_categories
    ∷ ""
    ∷ "요구사항:"
    ∷ "1. 이 문항에서 가장 중요하게 평가하려는 역량 카테고리를 1개만 선택"
    ∷ "2. 카테고리 이름만 정확히 반환 (추가 설명 없이)"
    ∷ "3. 예시: \"기술적 전문성\""
    ∷ ""
    ∷ "선택한 카테고리:"
    ∷ [])

-- `scalar_one_or_none`, and the 404 where there is no row.
abbrev pub one_or_404 : {A : Type 0} → List A → Result A
one_or_404 [] = raised (http_error 404)
one_or_404 (x ∷ []) = ok x
one_or_404 (x ∷ y ∷ r) = raised multiple_results

abbrev pub uuid_of : String → Result ℕ
uuid_of s = elim (parse_uuid s) [ none ↦ raised value_error | some n ↦ ok n ]

abbrev pub own_question : ℕ → ℕ → Db → Result Question
own_question u id d = one_or_404 (
    where_rows (λ (x : Question). x.id == id && (x.user_id == u && is_live x.deleted_at))
      d.questions)

abbrev pub own_project : ℕ → ℕ → Db → Result Project
own_project u id d = one_or_404 (
    where_rows (λ (x : Project). x.id == id && (x.user_id == u && is_live x.deleted_at)) d.projects)

module _ {C S : Type 0} (num : Floats S) (q : QdrantClient C (List S) S)
    (ai : OpenAi (List S)) where
  -- The weighted sum of three vectors, which must be of one length.
  abbrev pub weighted : List S → List S → List S → Result (List S)
  weighted [] [] [] = ok []
  weighted (x ∷ xs) (y ∷ ys) (z ∷ zs) =
      let w =
        num.plus (num.plus (num.times x (num.ratio 60 100)) (num.times y (num.ratio 25 100)))
          (num.times z (num.ratio 15 100)) in
      weighted xs ys zs >>= λ ws. ok (w ∷ ws)
  weighted xs ys zs = raised value_error

  abbrev sum_squares : S → List S → S
  sum_squares acc [] = acc
  sum_squares acc (x ∷ xs) = sum_squares (num.plus acc (num.square x)) xs

  abbrev pub normalized : List S → List S
  normalized xs =
      let norm = num.root (sum_squares (num.ratio 0 1) xs) in
      if num.less (num.ratio 0 1) norm then map (λ x. num.divide x norm) xs else xs

  abbrev pub embedding_of : String → String → Result (List S)
  embedding_of label s = generate_embedding (ai.embeddings (str_append label s))

  unfoldable pub query_embedding : Question → Project → Result (List S)
  query_embedding question project = embedding_of "문항: " question.question >>= λ x.
      embedding_of "직무: " project.job_position >>= λ y.
      embedding_of "회사: " project.company >>= λ z. weighted x y z >>= λ w. ok (normalized w)

  -- The score of a point, from the tags and the category of the question.
  abbrev pub rescored : List String → Option String → Experience × S → Experience × S
  rescored tags category (e, base) = (
    e,
    final_score num base (tag_matching_score e.tags tags)
        (category_matching_score (value e.category) category) (content_quality e),
  )

  -- `sort(key=lambda x: x[1], reverse=True)`, which keeps the order of equal scores.
  abbrev pub insert_scored : Experience × S → List (Experience × S) → List (Experience × S)
  insert_scored x [] = x ∷ []
  insert_scored x (y ∷ ys) =
      let rest = insert_scored x ys in if num.less x.1 y.1 then y ∷ rest else x ∷ y ∷ ys

  abbrev pub best_first : List (Experience × S) → List (Experience × S)
  best_first [] = []
  best_first (x ∷ xs) = insert_scored x (best_first xs)

  abbrev pub ranked :
      List String → Option String → List (Experience × S) → Result (List (Experience × S))
  ranked tags category points =
      scored_payloads q points >>= λ es. ok (best_first (map (rescored tags category) es))

  -- The search for an owned question of an owned project.
  abbrev pub matched : String → C → Question → Project → Result (List (Experience × S))
  matched user_id c question project = query_embedding question project >>= λ v.
      or_503 (q.query_points user_id v 10000 c)
      >>= ranked
          (extract_tags_from_question
            (ai.completions (question_tags_prompt question.question (project_info project))))
          (extract_category_from_question
            (ai.completions (question_category_prompt question.question (project_info project))))

  unfoldable pub get_experiences_with_question_similarity :
      Db → String → ℕ → C → Result (List (Experience × S))
  get_experiences_with_question_similarity d user_id question_id c = uuid_of user_id >>= λ u.
      own_question u question_id d >>= λ question.
      own_project u question.project_id d >>= λ project. matched user_id c question project
