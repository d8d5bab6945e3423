-- ===== src/Domain/Account.antt =====
-- internal/domain/models.go: a connected social account.
use goloom.Prelude.{ℕ, String, Option}

pub data AccountAuthType : Type 0 where
  oauth_token app_password : AccountAuthType

pub record SocialAccount : Type 0 where
  pub id : String
  pub team_id : String
  pub name : String
  pub provider : String
  pub auth_type : AccountAuthType
  pub provider_instance_id : String
  pub instance_url : String
  pub username : String
  pub remote_account_id : String
  pub avatar_url : String
  pub access_token_ciphertext : String
  pub refresh_token_ciphertext : String
  pub max_chars_override : Option ℕ
  pub access_token_expires_at : Option ℕ
  pub account_metrics_synced_at : Option ℕ
  pub post_engagement_synced_at : Option ℕ
  pub created_at : ℕ
