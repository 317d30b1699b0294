-- ===== src/Experience/Category.antt =====
-- The types, the categories and the tags of src/experience/models.py.
use logit_be.Common.{
  Bool, true, false, ◌||◌, Option, none, some, String, List, [], ◌∷◌, str_eq, map,
}

pub data ExperienceType : Type 0 where
  part_time intern full_time freelance volunteer prize : ExperienceType
  group_activity research military other : ExperienceType

abbrev pub type_value : ExperienceType → String
type_value part_time = "아르바이트"
type_value intern = "인턴"
type_value full_time = "정규직"
type_value freelance = "계약직"
type_value volunteer = "봉사 활동"
type_value prize = "수상경력"
type_value group_activity = "동아리 활동"
type_value research = "연구 활동"
type_value military = "군복무"
type_value other = "개인 활동"

pub data ExperienceCategory : Type 0 where
  customer_value_oriented technical_proficiency collaborative_communication : ExperienceCategory
  leadership_initiative logical_analytics creative_problem_solving : ExperienceCategory
  flexibility responsibility : ExperienceCategory

abbrev pub value : ExperienceCategory → String
value customer_value_oriented = "고객 가치 지향"
value technical_proficiency = "기술적 전문성"
value collaborative_communication = "협력적 소통"
value leadership_initiative = "주도적 실행력"
value logical_analytics = "논리적 분석력"
value creative_problem_solving = "창의적 문제해결"
value flexibility = "유연한 적응력"
value responsibility = "끈기있는 책임감"

abbrev categories : List ExperienceCategory
categories =
    customer_value_oriented ∷ technical_proficiency ∷ collaborative_communication
    ∷ leadership_initiative ∷ logical_analytics ∷ creative_problem_solving ∷ flexibility
    ∷ responsibility ∷ []

abbrev pub available_categories : List String
available_categories = map value categories

-- `ExperienceCategory(text)`, `none` for a text that is none of the values.
abbrev find_category : String → List ExperienceCategory → Option ExperienceCategory
find_category s [] = none
find_category s (c ∷ cs) =
    let rest = find_category s cs in elim (str_eq (value c) s) [ true ↦ some c | false ↦ rest ]

abbrev pub category_of : String → Option ExperienceCategory
category_of s = find_category s categories

abbrev pub available_tags : List String
available_tags =
    "문서작성" ∷ "일정관리" ∷ "요구사항정의" ∷ "프로세스개선" ∷ "데이터분석" ∷ "커뮤니케이션" ∷ "리서치" ∷ "문제해결" ∷ "협업도구" ∷ "프론트엔드"
    ∷ "백엔드" ∷ "앱개발" ∷ "인프라/클라우드" ∷ "DB설계" ∷ "트러블슈팅" ∷ "API연동" ∷ "AI/LLM" ∷ "코드리뷰" ∷ "시스템아키텍처"
    ∷ "UX/UI" ∷ "브랜딩" ∷ "그래픽디자인" ∷ "프로토타이핑" ∷ "디자인시스템" ∷ "영상편집" ∷ "모션그래픽" ∷ "3D모델링" ∷ "사용자테스트"
    ∷ "서비스기획" ∷ "PM/PO" ∷ "사업개발" ∷ "전략기획" ∷ "시장분석" ∷ "지표설정" ∷ "밴치마킹" ∷ "수익모델설계" ∷ "콘텐츠제작"
    ∷ "퍼포먼스마케팅" ∷ "SNS운영" ∷ "광고집행" ∷ "검색최적화" ∷ "CRM" ∷ "B2B/B2C영업" ∷ "제안서작성" ∷ "고객응대" ∷ "서비스운영"
    ∷ "QA/테스트" ∷ "인사/채용" ∷ "조직문화" ∷ "재무/회계" ∷ "이벤트기획" ∷ []

-- `x in words`
abbrev pub in_words : String → List String → Bool
in_words x [] = false
in_words x (w ∷ ws) = str_eq w x || in_words x ws
