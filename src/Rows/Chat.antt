-- ===== src/Rows/Chat.antt =====
-- src/chats/models.py.
use logit_be.Common.{ℕ, Bool, Option, String, List}
use logit_be.Clock.{DateTime}

pub data ChatRole : Type 0 where
  user assistant : ChatRole

pub record Chat : Type 0 where
  pub id : ℕ
  pub project_id : ℕ
  pub question_id : ℕ
  pub user_id : ℕ
  pub role : ChatRole
  pub content : String
  pub experience_ids : Option (List String)
  pub is_draft : Bool
  pub created_at : DateTime
