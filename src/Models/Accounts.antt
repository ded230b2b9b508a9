-- ===== src/Models/Accounts.antt =====
-- src/app/models/{user,refresh_token,password_reset_token,api_key,sso_config}.py
use makoto_lite_llm.Base.{ℕ, String, Bool, Option, List}
use makoto_lite_llm.Base.Int.{ℤ}
use makoto_lite_llm.Json.{Json}

pub record User (F : Type 0) : Type 0 where
  pub id : ℕ
  pub email : String
  pub password_hash : Option String
  pub name : Option String
  pub role : String
  pub max_budget : Option F
  pub spend : F
  pub budget_id : Option ℕ
  pub sso_provider : Option String
  pub sso_subject : Option String
  pub is_blocked : Bool
  pub failed_login_attempts : ℕ
  pub lockout_until : Option ℕ
  pub metadata_json : Option Json

pub record RefreshToken : Type 0 where
  pub id : ℕ
  pub token_hash : String
  pub user_id : ℕ
  pub expires_at : ℕ
  pub is_revoked : Bool
  pub replaced_by : Option ℕ
  pub ip_address : Option String
  pub user_agent : Option String

pub record PasswordResetToken : Type 0 where
  pub id : ℕ
  pub token_hash : String
  pub user_id : ℕ
  pub expires_at : ℕ
  pub is_used : Bool

pub record ApiKey (F : Type 0) : Type 0 where
  pub id : ℕ
  pub api_key_hash : String
  pub key_prefix : String
  pub key_alias : Option String
  pub user_id : ℕ
  pub team_id : Option ℕ
  pub org_id : Option ℕ
  pub project_id : Option ℕ
  pub allowed_models : Option (List String)
  pub max_budget : Option F
  pub soft_budget : Option F
  pub spend : F
  pub budget_id : Option ℕ
  pub tpm_limit : Option ℤ
  pub rpm_limit : Option ℤ
  pub max_parallel_requests : Option ℤ
  pub budget_reset_period : Option String
  pub expires_at : Option ℕ
  pub auto_rotate : Bool
  pub rotation_interval_days : Option ℤ
  pub last_rotated_at : Option ℕ
  pub previous_key_hash : Option String
  pub grace_period_expires_at : Option ℕ
  pub is_blocked : Bool
  pub metadata_json : Option Json

pub record SsoConfig : Type 0 where
  pub id : ℕ
  pub org_id : ℕ
  pub provider : String
  pub client_id : String
  pub client_secret_encrypted : String
  pub issuer_url : String
  pub allowed_domains : Option (List String)
  pub group_to_team_mapping : Option (List (String × String))
  pub auto_create_user : Bool
  pub default_role : String
  pub is_active : Bool
