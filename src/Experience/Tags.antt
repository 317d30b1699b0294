-- ===== src/Experience/Tags.antt =====
-- What src/experience/service.py asks a language model about an experience or a question, and what it
-- makes of the answer. The model is an argument, `none` where the call raises or answers no text: all
-- exceptions are caught.
use Prim.Native.String.{◌++◌ as str_append}
use logit_be.Common.{
  ltb, Option, none, some, String, List, [], ◌∷◌, ◌++◌, map, length, where_rows, take,
  if◌then◌else◌,
}
use logit_be.Text.Words.{strip, split, join, after_prefix}
use logit_be.Experience.Category.{
  ExperienceCategory, creative_problem_solving, available_categories, category_of, available_tags,
  in_words,
}
use logit_be.Experience.{
  ExperienceFormatType, star, psi, free, Field, situation, task, action, result, problem, solution,
  insight, content, Experience, has_text,
}

-- An optional text in an f-string.
abbrev shown : Option String → String
shown none = "None"
shown (some s) = s

abbrev lines : List String → String
lines = join "\n"

abbrev labelled : String → Option String → String
labelled label o = str_append label (shown o)

-- The content that a prompt shows, by the format.
unfoldable pub content_of : Experience → String
content_of e =
    let title = labelled "제목: " e.title in
    elim e.format_type [
      | some star ↦ lines (
          title
          ∷ labelled "상황: " (e.fields situation)
          ∷ labelled "과제: " (e.fields task)
          ∷ labelled "행동: " (e.fields action)
          ∷ labelled "결과: " (e.fields result)
          ∷ [])
      | some psi ↦ lines (
          title
          ∷ labelled "문제: " (e.fields problem)
          ∷ labelled "해결책: " (e.fields solution)
          ∷ labelled "인사이트: " (e.fields insight)
          ∷ [])
      | some free ↦ lines (title ∷ labelled "내용: " (e.fields content) ∷ [])
      | none ↦ title
    ]

unfoldable pub tags_prompt : Experience → String
unfolding content_of
tags_prompt e = lines (
    "다음 경험 내용을 분석하여 태그와 카테고리를 선택해주세요."
    ∷ ""
    ∷ "경험 내용:"
    ∷ content_of e
    ∷ ""
    ∷ "선택 가능한 태그:"
    ∷ join ", " available_tags
    ∷ ""
    ∷ "선택 가능한 카테고리:"
    ∷ join ", " available_categories
    ∷ ""
    ∷ "요구사항:"
    ∷ "1. 경험 내용과 가장 관련성 높은 태그를 1~3개 선택"
    ∷ "2. 경험 내용에서 가장 핵심적인 역량 카테고리를 1개 선택"
    ∷ "3. 반드시 아래 형식으로만 반환 (추가 설명 없이):"
    ∷ "태그: 태그1, 태그2, 태그3"
    ∷ "카테고리: 카테고리명"
    ∷ [])

-- The tags of a list that are known.
abbrev pub valid_tags : String → List String
valid_tags raw = where_rows (λ t. in_words t available_tags) (map strip (split b',' raw))

abbrev pub Labels : Type 0
Labels = String × ExperienceCategory

abbrev pub fallback : Labels
fallback = ("문제해결", creative_problem_solving)

abbrev pub chosen_tags : String → List String → String
chosen_tags old [] = old
chosen_tags old (t ∷ ts) = join ", " (take 3 (t ∷ ts))

abbrev pub chosen_category : ExperienceCategory → Option ExperienceCategory → ExperienceCategory
chosen_category old none = old
chosen_category old (some c) = c

-- One line of the answer, from what follows either label.
abbrev pub labelled_line : Labels → Option String → Option String → Labels
labelled_line (tags, category) (some raw) c = (chosen_tags tags (valid_tags (strip raw)), category)
labelled_line (tags, category) none (some raw) =
    (tags, chosen_category category (category_of (strip raw)))
labelled_line l none none = l

unfoldable pub read_line : Labels → String → Labels
read_line l line =
    let text = strip line in labelled_line l (after_prefix "태그:" text) (after_prefix "카테고리:" text)

unfoldable pub read_lines : Labels → List String → Labels
unfolding read_line
read_lines l [] = l
read_lines l (line ∷ rest) = read_lines (read_line l line) rest

unfoldable pub read_answer : Option String → Labels
unfolding read_lines
read_answer none = fallback
read_answer (some answer) = read_lines fallback (split b'\n' (strip answer))

unfoldable pub generate_tags_and_category : (String → Option String) → Experience → Labels
unfolding tags_prompt
generate_tags_and_category model e = read_answer (model (tags_prompt e))

-- `_extract_tags_from_question` and `_extract_category_from_question`, from the answer of the model.
unfoldable pub extract_tags_from_question : Option String → List String
extract_tags_from_question none = []
extract_tags_from_question (some answer) =
    let tags = valid_tags (strip answer) in if ltb 5 (length tags) then take 5 tags else tags

unfoldable pub extract_category_from_question : Option String → Option String
extract_category_from_question none = none
extract_category_from_question (some answer) =
    let category = strip answer in
    if in_words category available_categories then some category else none

-- A text that is given, under its label.
abbrev part : String → Option String → List String
part label none = []
part label (some s) = if has_text (some s) then str_append label s ∷ [] else []

abbrev parts : List (String × Field) → Experience → List String
parts [] e = []
parts ((label, x) ∷ xs) e = part label (e.fields x) ++ parts xs e

abbrev labels_of : Option ExperienceFormatType → List (String × Field)
labels_of (some star) =
    ("상황: ", situation) ∷ ("과제: ", task) ∷ ("행동: ", action) ∷ ("결과: ", result) ∷ []
labels_of (some psi) = ("문제: ", problem) ∷ ("해결책: ", solution) ∷ ("인사이트: ", insight) ∷ []
labels_of (some free) = ("내용: ", content) ∷ []
labels_of none = []

unfoldable pub combine_text_for_embedding : Experience → String
combine_text_for_embedding e = lines (labelled "제목: " e.title ∷ parts (labels_of e.format_type) e)
