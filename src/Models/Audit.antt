-- ===== src/Models/Audit.antt =====
-- src/app/models/audit.py, but for the error log, which nothing writes.
use makoto_lite_llm.Base.{ℕ, String, Option}
use makoto_lite_llm.Json.{Json}

pub record AuditLog : Type 0 where
  pub id : ℕ
  pub actor_id : ℕ
  pub actor_type : String
  pub action : String
  pub resource_type : String
  pub resource_id : String
  pub before_value : Option Json
  pub after_value : Option Json
  pub ip_address : String
  pub user_agent : String

pub record DeletedUser : Type 0 where
  pub id : ℕ
  pub original_id : ℕ
  pub email : String
  pub deleted_by : ℕ
  pub reason : Option String
  pub snapshot : Option Json

pub record DeletedTeam : Type 0 where
  pub id : ℕ
  pub original_id : ℕ
  pub name : String
  pub deleted_by : ℕ
  pub snapshot : Option Json

pub record DeletedKey : Type 0 where
  pub id : ℕ
  pub original_id : ℕ
  pub key_prefix : String
  pub deleted_by : ℕ
  pub snapshot : Option Json
