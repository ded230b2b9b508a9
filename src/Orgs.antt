-- ===== src/Orgs.antt =====
-- src/app/services/org_service.py: organizations, their members and the cascade of a deletion. The ids
-- of new rows are arguments.
pub mod Cascade
use makoto_lite_llm.Base.{
  ℕ, String, Bool, true, false, ◌&&◌, not, Option, none, some, List, [], ◌∷◌, ◌++◌, any, keep, map,
  map_where, override, ◌==◌, string_eq, nat_eq, pure, raise, ◌>>=◌, ◌>>◌,
}
use makoto_lite_llm.Json.{Json}
use makoto_lite_llm.Failure.{duplicate_error}
use makoto_lite_llm.Models.{ApiKey, Team, Organization, OrgMembership}
use makoto_lite_llm.Store.{
  Db, Service, select_one_or_none, write, insert_unique, commit, rollback, except_integrity,
}
use makoto_lite_llm.Teams.{is_id}

-- the arguments of `create_org`
pub record OrgRequest (F : Type 0) : Type 0 where
  pub name : String
  pub slug : String
  pub max_budget : Option F
  pub metadata : Option Json

-- the arguments of `update_org`
pub record OrgUpdate (F : Type 0) : Type 0 where
  pub name : Option String
  pub max_budget : Option F
  pub metadata_json : Option Json

-- `column.in_(ids)`, on a column and on a nullable column
abbrev pub in_ids : ℕ → List ℕ → Bool
in_ids id ids = any (λ i. i == id) ids

abbrev pub is_in : Option ℕ → List ℕ → Bool
is_in none ids = false
is_in (some id) ids = in_ids id ids

module _ {F : Type 0} where
  abbrev pub new_org : ℕ → OrgRequest F → Organization F
  new_org row_id r = record {
    id = row_id;
    name = r.name;
    slug = r.slug;
    max_budget = r.max_budget;
    soft_budget = none;
    budget_id = none;
    tpm_limit = none;
    rpm_limit = none;
    allowed_models = none;
    is_blocked = false;
    metadata_json = r.metadata;
  }

  -- the slug is unique
  unfoldable pub create_org : ℕ → OrgRequest F → Service F (Organization F)
  create_org row_id r = do
    let org = new_org row_id r
    except_integrity
        (insert_unique (λ db. any (λ o. o.slug == r.slug) db.organizations)
          (λ db. record db { organizations = db.organizations ++ org ∷ [] }))
        (do rollback; raise (duplicate_error "Slug already exists"))
    commit
    pure org

  unfoldable pub get_org : ℕ → Service F (Option (Organization F))
  get_org org_id = select_one_or_none (λ db. db.organizations) (λ o. o.id == org_id)

  abbrev pub apply_update : OrgUpdate F → Organization F → Organization F
  apply_update u org = record org {
    name = elim u.name [ none ↦ org.name | some v ↦ v ];
    max_budget = override u.max_budget org.max_budget;
    metadata_json = override u.metadata_json org.metadata_json;
  }

  abbrev change_found :
      (Organization F → Organization F)
      → Option (Organization F)
      → Service F (Option (Organization F))
  change_found f none = pure none
  change_found f (some org) = do
    write (λ db. record db { organizations = map_where (λ o. o.id == org.id) f db.organizations })
    commit
    pure (some (f org))

  unfoldable pub update_org : ℕ → OrgUpdate F → Service F (Option (Organization F))
  unfolding get_org
  update_org org_id u = do org ← get_org org_id; change_found (apply_update u) org

  -- `select(Team.id).where(Team.org_id == org_id)`
  abbrev pub team_ids_of : ℕ → Db F → List ℕ
  team_ids_of org_id db = map (λ t. t.id) (keep (λ t. is_id t.org_id org_id) db.teams)

  -- what goes with the teams; without a team nothing is deleted here
  abbrev pub delete_teams : List ℕ → Db F → Db F
  delete_teams [] db = db
  delete_teams (id ∷ rest) db =
      let ids = id ∷ rest in
      record db {
        api_keys = keep (λ k. not (is_in k.team_id ids)) db.api_keys;
        projects = keep (λ p. not (in_ids p.team_id ids)) db.projects;
        team_memberships = keep (λ m. not (in_ids m.team_id ids)) db.team_memberships;
        teams = keep (λ t. not (in_ids t.id ids)) db.teams;
      }

  -- what goes with the organization, and the organization
  abbrev pub delete_rows : ℕ → Db F → Db F
  delete_rows org_id db = record db {
    api_keys = keep (λ k. not (is_id k.org_id org_id)) db.api_keys;
    org_memberships = keep (λ m. not (m.org_id == org_id)) db.org_memberships;
    organizations = keep (λ o. not (o.id == org_id)) db.organizations;
  }

  abbrev pub delete_found : ℕ → Option (Organization F) → Service F Bool
  delete_found org_id none = pure false
  delete_found org_id (some org) = do
    write (λ db. delete_rows org_id (delete_teams (team_ids_of org_id db) db))
    commit
    pure true

  unfoldable pub delete_org : ℕ → Service F Bool
  unfolding get_org
  delete_org org_id = do org ← get_org org_id; delete_found org_id org

  -- the constraint `uq_user_org`, and the `where` clause of the member operations
  abbrev pub is_member : ℕ → ℕ → OrgMembership F → Bool
  is_member org_id user_id m = m.org_id == org_id && m.user_id == user_id

  unfoldable pub add_member : ℕ → ℕ → ℕ → String → Service F (OrgMembership F)
  add_member row_id org_id user_id role = do
    let member : OrgMembership F = record {
      id = row_id;
      user_id = user_id;
      org_id = org_id;
      role = role;
      max_budget = none;
    }
    except_integrity
        (insert_unique (λ db. any (is_member org_id user_id) db.org_memberships)
          (λ db. record db { org_memberships = db.org_memberships ++ member ∷ [] }))
        (do rollback; raise (duplicate_error "User is already a member of this organization"))
    commit
    pure member

  abbrev find_member : ℕ → ℕ → Service F (Option (OrgMembership F))
  find_member org_id user_id =
      select_one_or_none (λ db. db.org_memberships) (is_member org_id user_id)

  abbrev change_role : String → Option (OrgMembership F) → Service F (Option (OrgMembership F))
  change_role role none = pure none
  change_role role (some member) = do
    let change : OrgMembership F → OrgMembership F = λ m. record m { role = role }
    write (λ db. record db {
      org_memberships = map_where (λ m. m.id == member.id) change db.org_memberships;
    })
    commit
    pure (some (change member))

  unfoldable pub update_member : ℕ → ℕ → String → Service F (Option (OrgMembership F))
  update_member org_id user_id role = do
    member ← find_member org_id user_id
    change_role role member

  abbrev remove_found : Option (OrgMembership F) → Service F Bool
  remove_found none = pure false
  remove_found (some member) = do
    write (λ db. record db {
      org_memberships = keep (λ m. not (m.id == member.id)) db.org_memberships;
    })
    commit
    pure true

  unfoldable pub remove_member : ℕ → ℕ → Service F Bool
  remove_member org_id user_id = do member ← find_member org_id user_id; remove_found member
