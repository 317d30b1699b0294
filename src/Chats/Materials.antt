-- ===== src/Chats/Materials.antt =====
-- The experiences that src/chats/llm_service.py gives to a language model, and the texts that it makes of
-- them. An Enum in an f-string is written with its name, as Python 3.11 of the Dockerfile does.
use Prim.Native.String.{◌++◌ as str_append}
use logit_be.Common.{
  Bool, true, false, Option, none, some, String, List, [], ◌∷◌, ◌++◌, map, if◌then◌else◌,
}
use logit_be.World.Action.{Result, ok, raised}
use logit_be.Text.Words.{join}
use logit_be.Experience.Category.{
  ExperienceType, part_time, intern, full_time, freelance, volunteer, prize, group_activity,
  research, military, other, ExperienceCategory, customer_value_oriented, technical_proficiency,
  collaborative_communication, leadership_initiative, logical_analytics, creative_problem_solving,
  flexibility, responsibility,
}
use logit_be.Experience.{
  star, psi, free, Field, situation, task, action, result, problem, solution, insight, content,
  Experience, has_text,
}
use logit_be.Experience.Client.{QdrantClient}
use logit_be.Experience.Store.{get_experience}

abbrev type_shown : ExperienceType → String
type_shown part_time = "ExperienceType.PART_TIME"
type_shown intern = "ExperienceType.INTERN"
type_shown full_time = "ExperienceType.FULL_TIME"
type_shown freelance = "ExperienceType.FREELANCE"
type_shown volunteer = "ExperienceType.VOLUNTEER"
type_shown prize = "ExperienceType.PRIZE"
type_shown group_activity = "ExperienceType.GROUP_ACTIVITY"
type_shown research = "ExperienceType.RESEARCH"
type_shown military = "ExperienceType.MILITARY"
type_shown other = "ExperienceType.OTHER"

abbrev category_shown : ExperienceCategory → String
category_shown customer_value_oriented = "ExperienceCategory.CUSTOMER_VALUE_ORIENTED"
category_shown technical_proficiency = "ExperienceCategory.TECHNICAL_PROFICIENCY"
category_shown collaborative_communication = "ExperienceCategory.COLLABORATIVE_COMMUNICATION"
category_shown leadership_initiative = "ExperienceCategory.LEADERSHIP_INITIATIVE"
category_shown logical_analytics = "ExperienceCategory.LOGICAL_ANALYTICS"
category_shown creative_problem_solving = "ExperienceCategory.CREATIVE_PROBLEM_SOLVING"
category_shown flexibility = "ExperienceCategory.FLEXIBILITY"
category_shown responsibility = "ExperienceCategory.RESPONSIBILITY"

-- An optional value in an f-string.
abbrev shown : Option String → String
shown none = "None"
shown (some s) = s

abbrev shown_type : Option ExperienceType → String
shown_type none = "None"
shown_type (some t) = type_shown t

-- `if text: lines.append(f"{label}{text}")`
abbrev line_of : String → Option String → List String
line_of label none = []
line_of label (some s) = if has_text (some s) then str_append label s ∷ [] else []

-- The lines of the fields of a format, each with its label; what is neither STAR nor PSI is free.
abbrev field_lines : (Field → String) → Experience → List String
field_lines label e =
    let line : Field → List String = λ x. line_of (label x) (e.fields x) in
    elim e.format_type [
      | some star ↦ line situation ++ line task ++ line action ++ line result
      | some psi ↦ line problem ++ line solution ++ line insight
      | some free ↦ line content
      | none ↦ line content
    ]

abbrev role_label : Field → String
role_label situation = "- 상황(S): "
role_label task = "- 과제(T): "
role_label action = "- 행동(A): "
role_label result = "- 결과(R): "
role_label problem = "- 문제(P): "
role_label solution = "- 해결(S): "
role_label insight = "- 인사이트(I): "
role_label content = "- 경험 내용 (자유 형식, 핵심 사실을 직접 추출하세요): "

abbrev plain_label : Field → String
plain_label situation = "- 상황: "
plain_label task = "- 과제: "
plain_label action = "- 행동: "
plain_label result = "- 결과: "
plain_label problem = "- 문제: "
plain_label solution = "- 해결: "
plain_label insight = "- 인사이트: "
plain_label content = "- 내용: "

abbrev role_tag : Bool → String
role_tag true = "[주 경험 - 상세 서술]"
role_tag false = "[보조 경험 - 간략 언급]"

abbrev joined_text : List String → String
joined_text = join ""

-- `_format_experience_with_role`, of a score as it is written.
unfoldable pub format_experience_with_role : Experience → Bool → String → String
format_experience_with_role e is_primary score = join "\n" (
    joined_text ("### " ∷ shown e.title ∷ " " ∷ role_tag is_primary ∷ " (적합도: " ∷ score ∷ ")" ∷ [])
    ∷ str_append "- 유형: " (shown_type e.experience_type)
    ∷ str_append "- 카테고리: " (category_shown e.category)
    ∷ field_lines role_label e)

-- The experiences after the second.
abbrev others_of : List Experience → List String
others_of = map (λ (e : Experience). format_experience_with_role e false "0.40")

abbrev after_first : List Experience → List String
after_first [] = []
after_first (e ∷ es) = format_experience_with_role e false "0.70" ∷ others_of es

-- `_format_experiences_with_roles`: the first is the primary one.
unfoldable pub format_experiences_with_roles : List Experience → String
format_experiences_with_roles [] = "선택된 경험이 없습니다."
format_experiences_with_roles (e ∷ es) =
    join "\n\n" (format_experience_with_role e true "1.00" ∷ after_first es)

abbrev plain_part : Experience → String
plain_part e = join "\n" (str_append "### " (shown e.title) ∷ field_lines plain_label e)

-- `_format_experiences_plain`
unfoldable pub format_experiences_plain : List Experience → String
format_experiences_plain [] = "경험 없음"
format_experiences_plain (e ∷ es) = join "\n\n" (map plain_part (e ∷ es))

-- An experience that was read; one that raises is left out.
abbrev pub kept : Result Experience → List Experience → List Experience
kept (raised x) es = es
kept (ok e) es = e ∷ es

module _ {C V S : Type 0} (q : QdrantClient C V S) where
  -- `get_experiences_by_ids`
  unfoldable pub get_experiences_by_ids : List String → String → C → List Experience
  get_experiences_by_ids [] user_id c = []
  get_experiences_by_ids (id ∷ ids) user_id c =
      kept (get_experience q id user_id c) (get_experiences_by_ids ids user_id c)

  -- `_load_experiences`
  unfoldable pub load_experiences : Option (List String) → String → C → List Experience
  load_experiences none user_id c = []
  load_experiences (some ids) user_id c = get_experiences_by_ids ids user_id c

-- `experiences_text` of a conversation.
unfoldable pub conversation_experiences : List Experience → String
conversation_experiences [] = "선택된 경험이 없습니다."
conversation_experiences (e ∷ es) = format_experiences_plain (e ∷ es)
