-- ===== src/Models/Tenancy.antt =====
-- src/app/models/{organization,team,project,membership,budget}.py
use makoto_lite_llm.Base.{ℕ, String, Bool, Option, List}
use makoto_lite_llm.Base.Int.{ℤ}
use makoto_lite_llm.Json.{Json}

pub record Organization (F : Type 0) : Type 0 where
  pub id : ℕ
  pub name : String
  pub slug : String
  pub max_budget : Option F
  pub soft_budget : Option F
  pub budget_id : Option ℕ
  pub tpm_limit : Option ℤ
  pub rpm_limit : Option ℤ
  pub allowed_models : Option (List String)
  pub is_blocked : Bool
  pub metadata_json : Option Json

pub record Team (F : Type 0) : Type 0 where
  pub id : ℕ
  pub name : String
  pub org_id : Option ℕ
  pub allowed_models : Option (List String)
  pub max_budget : Option F
  pub soft_budget : Option F
  pub budget_id : Option ℕ
  pub tpm_limit : Option ℤ
  pub rpm_limit : Option ℤ
  pub max_parallel_requests : Option ℤ
  pub budget_reset_period : Option String
  pub is_blocked : Bool
  pub metadata_json : Option Json

pub record Project : Type 0 where
  pub id : ℕ
  pub name : String
  pub team_id : ℕ
  pub allowed_models : Option (List String)
  pub metadata_json : Option Json

pub record OrgMembership (F : Type 0) : Type 0 where
  pub id : ℕ
  pub user_id : ℕ
  pub org_id : ℕ
  pub role : String
  pub max_budget : Option F

pub record TeamMembership (F : Type 0) : Type 0 where
  pub id : ℕ
  pub user_id : ℕ
  pub team_id : ℕ
  pub role : String
  pub max_budget : Option F

pub record Budget (F : Type 0) : Type 0 where
  pub id : ℕ
  pub name : String
  pub max_budget : Option F
  pub soft_budget : Option F
  pub tpm_limit : Option ℤ
  pub rpm_limit : Option ℤ
  pub max_parallel_requests : Option ℤ
  pub budget_reset_period : Option String
