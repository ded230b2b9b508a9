-- ===== src/Sso.antt =====
-- src/app/services/sso_service.py: the configuration of an organization, the single-use state of a
-- login, and the user and memberships that a login provisions. Ids of new rows are arguments, and
-- `encrypt` (src/app/auth/crypto.py, in Secrets) is an argument.
pub mod Provision
pub mod Groups
pub mod Added
pub mod Authorize
use makoto_lite_llm.Base.{
  ℕ, String, Bool, true, false, ◌&&◌, ◌||◌, not, Option, none, some, List, [], ◌∷◌, ◌++◌, ok, err,
  any, keep, length, map_where, or_raise, ◌==◌, nat_eq, string_eq, ltb, pure, raise, gets, ◌>>=◌,
  ◌>>◌, if◌then◌else◌,
}
use makoto_lite_llm.Base.Text.{is_empty}
use makoto_lite_llm.Cache.{TtlCache}
use makoto_lite_llm.Failure.{duplicate_error, value_error}
use makoto_lite_llm.Models.{User, SsoConfig, OrgMembership, TeamMembership}
use makoto_lite_llm.Store.{
  Db, Service, select_one_or_none, select_one, write, insert_unique, commit, rollback,
  except_integrity,
}
use makoto_lite_llm.Teams.{insert_member, new_member}

-- what is stored for a state: the verifier of PKCE and the organization
pub record LoginState : Type 0 where
  pub verifier : String
  pub org_id : ℕ

-- the arguments of `create_sso_config`
pub record SsoRequest : Type 0 where
  pub org_id : ℕ
  pub provider : String
  pub client_id : String
  pub client_secret : String
  pub issuer_url : String
  pub allowed_domains : Option (List String)
  pub group_to_team_mapping : Option (List (String × String))
  pub auto_create_user : Bool
  pub default_role : String

-- the arguments of `provision_sso_user`
pub record Claimed : Type 0 where
  pub email : String
  pub name : Option String
  pub sso_provider : String
  pub sso_subject : String
  pub org_id : ℕ
  pub default_role : String

-- `_state_store[state] = …`, and `pop(state, None)`, at a time
module _ (states : TtlCache String LoginState) where
  unfoldable pub store_state : ℕ → String → LoginState → states.Store → states.Store
  store_state now state content store = states.put now state content store

  unfoldable pub validate_and_consume_state :
      ℕ → String → states.Store → Option LoginState × states.Store
  validate_and_consume_state now state store =
      (states.get now state store, states.remove state store)

-- `not text`, for a text that may be `None`
abbrev pub no_text : Option String → Bool
no_text none = true
no_text (some t) = is_empty t

-- `mapping.get(name)`
abbrev pub find_text : List (String × String) → String → Option String
find_text [] name = none
find_text ((k, v) ∷ mapping) name = if k == name then some v else find_text mapping name

abbrev pub sso_row : (String → String) → ℕ → SsoRequest → SsoConfig
sso_row encrypt row_id r = record {
  id = row_id;
  org_id = r.org_id;
  provider = r.provider;
  client_id = r.client_id;
  client_secret_encrypted = encrypt r.client_secret;
  issuer_url = r.issuer_url;
  allowed_domains = r.allowed_domains;
  group_to_team_mapping = r.group_to_team_mapping;
  auto_create_user = r.auto_create_user;
  default_role = r.default_role;
  is_active = true;
}

module _ {F : Type 0} where
  unfoldable pub create_sso_config : (String → String) → ℕ → SsoRequest → Service F SsoConfig
  create_sso_config encrypt row_id r = do
    let config = sso_row encrypt row_id r
    except_integrity
        (insert_unique (λ db. any (λ c. c.org_id == config.org_id) db.sso_configs)
          (λ db. record db { sso_configs = db.sso_configs ++ config ∷ [] }))
        (do rollback; raise (duplicate_error "SSO config already exists for this organization"))
    commit
    pure config

  unfoldable pub get_sso_config : ℕ → Service F (Option SsoConfig)
  get_sso_config org_id = select_one_or_none (λ db. db.sso_configs) (λ c. c.org_id == org_id)

  unfoldable pub delete_sso_config : ℕ → Service F Bool
  delete_sso_config org_id = do
    count ← gets (λ s. length (keep (λ c. c.org_id == org_id) s.current.sso_configs))
    write (λ db. record db { sso_configs = keep (λ c. not (c.org_id == org_id)) db.sso_configs })
    commit
    pure (ltb 0 count)

  -- a new user, with the defaults of the model; the argument is its `0.0`
  abbrev pub new_user : F → ℕ → Claimed → User F
  new_user nothing user_id c = record {
    id = user_id;
    email = c.email;
    password_hash = none;
    name = c.name;
    role = c.default_role;
    max_budget = none;
    spend = nothing;
    budget_id = none;
    sso_provider = some c.sso_provider;
    sso_subject = some c.sso_subject;
    is_blocked = false;
    failed_login_attempts = 0;
    lockout_until = none;
    metadata_json = none;
  }

  abbrev pub link_user : Claimed → User F → User F
  link_user c user = record user {
    sso_provider = some c.sso_provider;
    sso_subject = some c.sso_subject;
    name = if not (no_text c.name) && no_text user.name then c.name else user.name;
  }

  -- the user that was found, changed, or else a new one
  abbrev find_or_create : F → ℕ → Claimed → Option (User F) → Service F (User F)
  find_or_create nothing user_id c none = do
    insert_unique (λ db. any (λ u. u.email == c.email) db.users)
        (λ db. record db { users = db.users ++ new_user nothing user_id c ∷ [] })
    pure (new_user nothing user_id c)
  find_or_create nothing user_id c (some user) = do
    write (λ db. record db { users = map_where (λ u. u.id == user.id) (link_user c) db.users })
    pure (link_user c user)

  abbrev pub new_org_member : ℕ → ℕ → Claimed → OrgMembership F
  new_org_member row_id user_id c = record {
    id = row_id;
    user_id = user_id;
    org_id = c.org_id;
    role = c.default_role;
    max_budget = none;
  }

  -- the constraint `uq_user_org`
  abbrev pub in_org : ℕ → ℕ → OrgMembership F → Bool
  in_org user_id org_id m = m.user_id == user_id && m.org_id == org_id

  abbrev join_org : ℕ → Claimed → User F → Service F (User F)
  join_org row_id c user =
      except_integrity
        (do
          insert_unique (λ db. any (in_org user.id c.org_id) db.org_memberships)
              (λ db. record db {
                org_memberships = db.org_memberships ++ new_org_member row_id user.id c ∷ [];
              })
          pure user)
        (do rollback; select_one (λ db. db.users) (λ u. u.email == c.email))

  unfoldable pub provision_sso_user : F → ℕ → ℕ → Claimed → Service F (User F)
  provision_sso_user nothing user_id row_id c = do
    found ← select_one_or_none (λ db. db.users) (λ u. u.email == c.email)
    user ← find_or_create nothing user_id c found
    member ← join_org row_id c user
    commit
    pure member

  module _ (parse_uuid : String → Option ℕ) where
    abbrev pub join_team : ℕ → ℕ → Option String → Service F Unit
    join_team user_id row_id none = pure tt
    join_team user_id row_id (some team_id_str) = do
      team_id ← or_raise (parse_uuid team_id_str) value_error
      except_integrity (insert_member (new_member row_id team_id user_id "member")) rollback

    -- the loop; each group has the id that its row would get
    unfoldable pub map_each : ℕ → List (String × String) → List (String × ℕ) → Service F Unit
    map_each user_id mapping [] = pure tt
    map_each user_id mapping ((group_name, row_id) ∷ groups) = do
      join_team user_id row_id (find_text mapping group_name)
      map_each user_id mapping groups

    -- `None` and an empty mapping or list are one case
    unfoldable pub map_groups_to_teams :
        ℕ → List (String × ℕ) → List (String × String) → Service F Unit
    unfolding map_each
    map_groups_to_teams user_id [] mapping = pure tt
    map_groups_to_teams user_id (g ∷ groups) [] = pure tt
    map_groups_to_teams user_id (g ∷ groups) (p ∷ mapping) = do
      map_each user_id (p ∷ mapping) (g ∷ groups)
      commit
