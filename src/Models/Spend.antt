-- ===== src/Models/Spend.antt =====
-- src/app/models/spend.py
use makoto_lite_llm.Base.{ℕ, String, Bool, Option}

pub record SpendLog (F : Type 0) : Type 0 where
  pub request_id : String
  pub api_key_hash : String
  pub user_id : Option ℕ
  pub team_id : Option ℕ
  pub org_id : Option ℕ
  pub project_id : Option ℕ
  pub model : String
  pub provider : String
  pub input_tokens : ℕ
  pub output_tokens : ℕ
  pub spend : F
  pub cache_hit : Bool
  pub status : String
  pub response_time_ms : ℕ

-- `DailyKeySpend`, `DailyUserSpend`, `DailyTeamSpend` and `DailyOrgSpend`, which differ in the type
-- of the column that names the spender.
pub record DailySpend (F K : Type 0) : Type 0 where
  pub spender : K
  pub model : String
  pub date : ℕ
  pub total_spend : F
  pub total_input_tokens : ℕ
  pub total_output_tokens : ℕ
  pub request_count : ℕ
