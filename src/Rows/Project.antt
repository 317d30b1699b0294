-- ===== src/Rows/Project.antt =====
-- src/projects/models.py and src/questions/models.py.
use logit_be.Common.{ℕ, Bool, true, false, Option, none, some, String}
use logit_be.Clock.{DateTime, Date}

pub record Project : Type 0 where
  pub id : ℕ
  pub user_id : ℕ
  pub company : String
  pub job_position : String
  pub recruit_notice : String
  pub company_talent : Option String
  pub due_date : Option Date
  pub created_at : DateTime
  pub updated_at : DateTime
  pub deleted_at : Option DateTime

pub record Question : Type 0 where
  pub id : ℕ
  pub project_id : ℕ
  pub user_id : ℕ
  pub question : String
  pub max_length : Option ℕ
  pub order : ℕ
  pub answer : Option String
  pub is_completed : Bool
  pub created_at : DateTime
  pub updated_at : DateTime
  pub deleted_at : Option DateTime

-- `deleted_at.is_(None)`
abbrev pub is_live : Option DateTime → Bool
is_live none = true
is_live (some t) = false
