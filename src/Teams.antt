-- ===== src/Teams.antt =====
-- src/app/services/team_service.py: teams, their members and the cascade of a deletion. The ids of new
-- rows are arguments.
pub mod Members
pub mod Cascade
use makoto_lite_llm.Base.{
  ℕ, String, Bool, true, false, ◌&&◌, not, Option, none, some, List, [], ◌∷◌, ◌++◌, any, keep,
  map_where, override, ◌==◌, nat_eq, pure, raise, ◌>>=◌, ◌>>◌,
}
use makoto_lite_llm.Base.Int.{ℤ}
use makoto_lite_llm.Json.{Json}
use makoto_lite_llm.Failure.{duplicate_error}
use makoto_lite_llm.Models.{ApiKey, Team, TeamMembership}
use makoto_lite_llm.Store.{
  Db, Service, select_one_or_none, write, insert_unique, commit, rollback, except_integrity,
}

-- the arguments of `create_team`
pub record TeamRequest (F : Type 0) : Type 0 where
  pub name : String
  pub org_id : Option ℕ
  pub allowed_models : Option (List String)
  pub max_budget : Option F
  pub tpm_limit : Option ℤ
  pub rpm_limit : Option ℤ
  pub metadata : Option Json

-- the arguments of `update_team`
pub record TeamUpdate (F : Type 0) : Type 0 where
  pub name : Option String
  pub allowed_models : Option (List String)
  pub max_budget : Option F
  pub tpm_limit : Option ℤ
  pub rpm_limit : Option ℤ
  pub metadata_json : Option Json

-- a nullable column is the id; a comparison with NULL is not true
abbrev pub is_id : Option ℕ → ℕ → Bool
is_id none id = false
is_id (some i) id = i == id

module _ {F : Type 0} where
  unfoldable pub create_team : ℕ → TeamRequest F → Service F (Team F)
  create_team row_id r = do
    let team : Team F = record {
      id = row_id;
      name = r.name;
      org_id = r.org_id;
      allowed_models = r.allowed_models;
      max_budget = r.max_budget;
      soft_budget = none;
      budget_id = none;
      tpm_limit = r.tpm_limit;
      rpm_limit = r.rpm_limit;
      max_parallel_requests = none;
      budget_reset_period = none;
      is_blocked = false;
      metadata_json = r.metadata;
    }
    write (λ db. record db { teams = db.teams ++ team ∷ [] })
    commit
    pure team

  unfoldable pub get_team : ℕ → Service F (Option (Team F))
  get_team team_id = select_one_or_none (λ db. db.teams) (λ t. t.id == team_id)

  abbrev change_found : (Team F → Team F) → Option (Team F) → Service F (Option (Team F))
  change_found f none = pure none
  change_found f (some team) = do
    write (λ db. record db { teams = map_where (λ t. t.id == team.id) f db.teams })
    commit
    pure (some (f team))

  abbrev apply_update : TeamUpdate F → Team F → Team F
  apply_update u team = record team {
    name = elim u.name [ none ↦ team.name | some v ↦ v ];
    allowed_models = override u.allowed_models team.allowed_models;
    max_budget = override u.max_budget team.max_budget;
    tpm_limit = override u.tpm_limit team.tpm_limit;
    rpm_limit = override u.rpm_limit team.rpm_limit;
    metadata_json = override u.metadata_json team.metadata_json;
  }

  unfoldable pub update_team : ℕ → TeamUpdate F → Service F (Option (Team F))
  unfolding get_team
  update_team team_id u = do team ← get_team team_id; change_found (apply_update u) team

  unfoldable pub block_team : ℕ → Bool → Service F (Option (Team F))
  unfolding get_team
  block_team team_id blocked = do
    team ← get_team team_id
    change_found (λ t. record t { is_blocked = blocked }) team

  -- the keys, the projects, the memberships and the team itself, in one transaction
  abbrev pub cascade : ℕ → Db F → Db F
  cascade team_id db = record db {
    api_keys = keep (λ k. not (is_id k.team_id team_id)) db.api_keys;
    projects = keep (λ p. not (p.team_id == team_id)) db.projects;
    team_memberships = keep (λ m. not (m.team_id == team_id)) db.team_memberships;
    teams = keep (λ t. not (t.id == team_id)) db.teams;
  }

  abbrev delete_found : ℕ → Option (Team F) → Service F Bool
  delete_found team_id none = pure false
  delete_found team_id (some team) = do write (cascade team_id); commit; pure true

  unfoldable pub delete_team : ℕ → Service F Bool
  unfolding get_team
  delete_team team_id = do team ← get_team team_id; delete_found team_id team

  -- the constraint `uq_user_team`, and the `where` clause of the member operations
  abbrev pub is_member : ℕ → ℕ → TeamMembership F → Bool
  is_member team_id user_id m = m.team_id == team_id && m.user_id == user_id

  -- `db.add` and `flush`
  abbrev pub insert_member : TeamMembership F → Service F Unit
  insert_member m =
      insert_unique (λ db. any (is_member m.team_id m.user_id) db.team_memberships)
        (λ db. record db { team_memberships = db.team_memberships ++ m ∷ [] })

  abbrev pub new_member : ℕ → ℕ → ℕ → String → TeamMembership F
  new_member row_id team_id user_id role = record {
    id = row_id;
    user_id = user_id;
    team_id = team_id;
    role = role;
    max_budget = none;
  }

  unfoldable pub add_member : ℕ → ℕ → ℕ → String → Service F (TeamMembership F)
  add_member row_id team_id user_id role = do
    let member = new_member row_id team_id user_id role
    except_integrity (insert_member member)
        (do rollback; raise (duplicate_error "User is already a member of this team"))
    commit
    pure member

  abbrev find_member : ℕ → ℕ → Service F (Option (TeamMembership F))
  find_member team_id user_id =
      select_one_or_none (λ db. db.team_memberships) (is_member team_id user_id)

  abbrev change_role : String → Option (TeamMembership F) → Service F (Option (TeamMembership F))
  change_role role none = pure none
  change_role role (some member) = do
    let change : TeamMembership F → TeamMembership F = λ m. record m { role = role }
    write (λ db. record db {
      team_memberships = map_where (λ m. m.id == member.id) change db.team_memberships;
    })
    commit
    pure (some (change member))

  unfoldable pub update_member : ℕ → ℕ → String → Service F (Option (TeamMembership F))
  update_member team_id user_id role = do
    member ← find_member team_id user_id
    change_role role member

  abbrev remove_found : Option (TeamMembership F) → Service F Bool
  remove_found none = pure false
  remove_found (some member) = do
    write (λ db. record db {
      team_memberships = keep (λ m. not (m.id == member.id)) db.team_memberships;
    })
    commit
    pure true

  unfoldable pub remove_member : ℕ → ℕ → Service F Bool
  remove_member team_id user_id = do member ← find_member team_id user_id; remove_found member
