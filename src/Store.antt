-- ===== src/Store.antt =====
-- The database as the services see it: the tables as lists of their rows, and a session with the
-- state of its open transaction beside the committed one. A query is a filter by its `where` clause;
-- an assignment to a field of a loaded row is an update of the row with its id; the unique
-- constraints are those that src/app/models declares. Foreign keys are not enforced, and `flush`
-- and `commit` raise nothing but `IntegrityError` for a unique constraint.
pub mod Queries
use makoto_lite_llm.Base.{
  ℕ, String, Bool, true, false, Option, none, some, List, [], ◌∷◌, ◌++◌, Outcome, ok, err, Action,
  keep, any, if◌then◌else◌,
}
use makoto_lite_llm.Failure.{Failure, integrity_error, no_result_found, multiple_results_found}
use makoto_lite_llm.Models.{
  User, RefreshToken, PasswordResetToken, ApiKey, SsoConfig, Organization, Team, Project,
  OrgMembership, TeamMembership, Budget, SpendLog, DailySpend, AuditLog, DeletedUser, DeletedTeam,
  DeletedKey,
}

pub record Db (F : Type 0) : Type 0 where
  pub users : List (User F)
  pub refresh_tokens : List RefreshToken
  pub password_reset_tokens : List PasswordResetToken
  pub api_keys : List (ApiKey F)
  pub sso_configs : List SsoConfig
  pub organizations : List (Organization F)
  pub teams : List (Team F)
  pub projects : List Project
  pub org_memberships : List (OrgMembership F)
  pub team_memberships : List (TeamMembership F)
  pub budgets : List (Budget F)
  pub spend_logs : List (SpendLog F)
  pub daily_key_spend : List (DailySpend F String)
  pub daily_user_spend : List (DailySpend F ℕ)
  pub daily_team_spend : List (DailySpend F ℕ)
  pub daily_org_spend : List (DailySpend F ℕ)
  pub audit_log : List AuditLog
  pub deleted_users : List DeletedUser
  pub deleted_teams : List DeletedTeam
  pub deleted_keys : List DeletedKey

abbrev pub empty_db : (F : Type 0) → Db F
empty_db F = record {
  users = [];
  refresh_tokens = [];
  password_reset_tokens = [];
  api_keys = [];
  sso_configs = [];
  organizations = [];
  teams = [];
  projects = [];
  org_memberships = [];
  team_memberships = [];
  budgets = [];
  spend_logs = [];
  daily_key_spend = [];
  daily_user_spend = [];
  daily_team_spend = [];
  daily_org_spend = [];
  audit_log = [];
  deleted_users = [];
  deleted_teams = [];
  deleted_keys = [];
}

pub record Session (F : Type 0) : Type 0 where
  pub current : Db F
  pub committed : Db F

-- A request starts a session with nothing pending.
abbrev pub open_session : {F : Type 0} → Db F → Session F
open_session db = record { current = db; committed = db }

-- a service: it works on the session, and returns or raises
abbrev pub Service : Type 0 → Type 0 → Type 0
Service F A = Action (Session F) Failure A

-- `result.scalar_one_or_none()`
abbrev pub scalar_one_or_none : {R : Type 0} → List R → Outcome Failure (Option R)
scalar_one_or_none [] = ok none
scalar_one_or_none (r ∷ []) = ok (some r)
scalar_one_or_none (r ∷ r' ∷ rows) = err multiple_results_found

-- `result.scalar_one()`
abbrev pub scalar_one : {R : Type 0} → List R → Outcome Failure R
scalar_one [] = err no_result_found
scalar_one (r ∷ []) = ok r
scalar_one (r ∷ r' ∷ rows) = err multiple_results_found

module _ {F : Type 0} where
  -- `db.execute(select(…).where(…))`, then one row or none
  abbrev pub select_one_or_none : {R : Type 0} → (Db F → List R) → (R → Bool) → Service F (Option R)
  select_one_or_none table test s = (scalar_one_or_none (keep test (table s.current)), s)

  abbrev pub select_one : {R : Type 0} → (Db F → List R) → (R → Bool) → Service F R
  select_one table test s = (scalar_one (keep test (table s.current)), s)

  -- a change within the transaction
  abbrev pub write : (Db F → Db F) → Service F Unit
  write change s = (ok tt, record s { current = change s.current })

  -- `db.add(…)` and `flush` (or the flush of a `commit`): the row of a taken unique value is refused
  abbrev pub insert_unique : (Db F → Bool) → (Db F → Db F) → Service F Unit
  insert_unique taken change s =
      if taken s.current
      then (err integrity_error, s)
      else (ok tt, record s { current = change s.current })

  abbrev pub commit : Service F Unit
  commit s = (ok tt, record s { committed = s.current })

  abbrev pub rollback : Service F Unit
  rollback s = (ok tt, record s { current = s.committed })

  abbrev pub handle_integrity : {A : Type 0} → Outcome Failure A → Service F A → Service F A
  handle_integrity (err integrity_error) handler s = handler s
  handle_integrity r handler s = (r, s)

  -- `try: … except IntegrityError: …`
  abbrev pub except_integrity : {A : Type 0} → Service F A → Service F A → Service F A
  except_integrity m handler s = let (r, s') = m s in handle_integrity r handler s'
