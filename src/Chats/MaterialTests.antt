-- ===== src/Chats/MaterialTests.antt =====
-- The texts of an experience for a language model, and the theorem on the experiences at one input.
use logit_be.Common.{◌≡◌, refl, some, true, [], ◌∷◌, All, str_eq}
use logit_be.Experience.{Experience}
use logit_be.Experience.Store.{is_valid}
use logit_be.Experience.Laws.{as_list, run_all}
use logit_be.Experience.Memory.{slot, owned_by, memory, memory_laws}
use logit_be.Experience.Samples.{attempts}
use logit_be.Experience.Tests.{stored}
use logit_be.Chats.Materials.{
  format_experience_with_role, format_experiences_with_roles, conversation_experiences,
  load_experiences,
}
use logit_be.Chats.Prompt.{human, aget_messages, conversation_messages}
use logit_be.Chats.{create_user_chat}
use logit_be.Chats.Tests.{start, turn, question}
use logit_be.Chats.Own.{IsChosen, own_materials}

draft_text :
    format_experiences_with_roles (stored ∷ [])
    ≡ "### Chatbot [주 경험 - 상세 서술] (적합도: 1.00)\n- 유형: ExperienceType.INTERN\n- 카테고리: ExperienceCategory.TECHNICAL_PROFICIENCY\n- 상황(S): s\n- 과제(T): t\n- 행동(A): a\n- 결과(R): r"
unfolding format_experience_with_role format_experiences_with_roles
draft_text = refl

no_experiences : conversation_experiences [] ≡ "선택된 경험이 없습니다."
unfolding conversation_experiences
no_experiences = refl

-- The message is in the history that is loaded for it.
asked_twice :
    conversation_messages 2 "Hi" (create_user_chat turn question "Hi" start).1.db
    ≡ human "Hi" ∷ human "Hi" ∷ []
unfolding conversation_messages aget_messages create_user_chat
asked_twice = refl

stored-IsChosen :
    IsChosen memory slot owned_by memory_laws "u1" attempts (some stored) ("e1", stored)
unfolding is_valid
stored-IsChosen = record {
  here = refl;
  own = refl;
  valid = refl;
  foreign = (refl, (refl, (refl, tt)));
}

own_materials_example :
    All
      (λ (e : Experience). str_eq e.user_id "u1" ≡ true)
      (load_experiences memory (some ("e1" ∷ "e9" ∷ [])) "u1" (some stored))
    × (load_experiences memory (some ("e1" ∷ [])) "u1" (run_all memory attempts (some stored))
        ≡ stored ∷ [])
own_materials_example =
    own_materials memory slot owned_by memory_laws "u1" ("e1" ∷ "e9" ∷ []) (("e1", stored) ∷ [])
      attempts (some stored) (some stored) (stored-IsChosen, tt)
      λ id. (as_list (slot (run_all memory attempts (some stored)) id), refl)
