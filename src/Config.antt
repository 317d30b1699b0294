-- ===== src/Config.antt =====
-- src/config.py: the settings that the services read, and PyJWT's `jwt.encode`, which is not part of
-- the repository: `encode_mcp secret subject expiry` is the token of `create_mcp_token`.
use logit_be.Common.{ℕ, Option, String}
use logit_be.Clock.{DateTime}

pub record Config : Type 0 where
  pub payapp_userid : Option String
  pub payapp_linkkey : Option String
  pub payapp_linkval : Option String
  pub mcp_jwt_secret : Option String
  pub mcp_token_expire_days : ℕ
  pub encode_mcp : String → ℕ → DateTime → String
