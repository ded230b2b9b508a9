-- ===== src/Config.antt =====
-- src/app/config.py: the settings that the modelled code reads.
use makoto_lite_llm.Base.{ℕ, ◌*◌, String, Option}

pub record Settings : Type 0 where
  pub access_token_expire_minutes : ℕ
  pub refresh_token_expire_days : ℕ
  pub max_login_attempts : ℕ
  pub lockout_duration_minutes : ℕ
  pub base_url : String
  pub sso_dashboard_redirect_url : String
  pub encryption_key : String
  pub openai_api_key : Option String
  pub anthropic_api_key : Option String

-- `timedelta`, in microseconds
abbrev pub minutes : ℕ → ℕ
minutes n = n * 60000000

abbrev pub hours : ℕ → ℕ
hours n = n * 3600000000

abbrev pub days : ℕ → ℕ
days n = n * 86400000000
