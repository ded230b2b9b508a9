-- ===== src/Users.antt =====
-- src/app/services/user_service.py: users. The ids of new rows are arguments.
pub mod Blocking
pub mod Creation
pub mod Unique
use makoto_lite_llm.Base.{
  ℕ, String, Bool, true, false, not, Option, none, some, List, [], ◌∷◌, ◌++◌, any, keep, map_where,
  override, ◌==◌, string_eq, nat_eq, pure, raise, ◌>>=◌, ◌>>◌, if◌then◌else◌,
}
use makoto_lite_llm.Base.Text.{is_empty}
use makoto_lite_llm.Float.{Float}
use makoto_lite_llm.Json.{Json}
use makoto_lite_llm.Jwt.{Crypto}
use makoto_lite_llm.Failure.{duplicate_error}
use makoto_lite_llm.Models.{User}
use makoto_lite_llm.Store.{
  Db, Service, select_one_or_none, write, insert_unique, commit, rollback, except_integrity,
}

-- the arguments of `create_user`
pub record UserRequest (F : Type 0) : Type 0 where
  pub email : String
  pub password : Option String
  pub name : Option String
  pub role : String
  pub max_budget : Option F
  pub metadata : Option Json

-- the arguments of `update_user_profile`
pub record ProfileUpdate : Type 0 where
  pub name : Option String
  pub role : Option String
  pub metadata_json : Option Json

-- `hash_password(password) if password else None`
abbrev pub hash_if_given : Crypto → Option String → Option String
hash_if_given crypto none = none
hash_if_given crypto (some password) =
    if is_empty password then none else some (crypto.hash_password password)

module _ (float : Float) (crypto : Crypto) where
  open float use {Carrier}

  abbrev pub user_row : ℕ → UserRequest Carrier → User Carrier
  user_row row_id r = record {
    id = row_id;
    email = r.email;
    password_hash = hash_if_given crypto r.password;
    name = r.name;
    role = r.role;
    max_budget = r.max_budget;
    spend = float.zero;
    budget_id = none;
    sso_provider = none;
    sso_subject = none;
    is_blocked = false;
    failed_login_attempts = 0;
    lockout_until = none;
    metadata_json = r.metadata;
  }

  -- the email is unique
  unfoldable pub create_user : ℕ → UserRequest Carrier → Service Carrier (User Carrier)
  create_user row_id r = do
    let user = user_row row_id r
    except_integrity
        (insert_unique (λ db. any (λ u. u.email == r.email) db.users)
          (λ db. record db { users = db.users ++ user ∷ [] }))
        (do rollback; raise (duplicate_error "Email already exists"))
    commit
    pure user

module _ {F : Type 0} where
  unfoldable pub get_user : ℕ → Service F (Option (User F))
  get_user user_id = select_one_or_none (λ db. db.users) (λ u. u.id == user_id)

  abbrev pub change_found : (User F → User F) → Option (User F) → Service F (Option (User F))
  change_found f none = pure none
  change_found f (some user) = do
    write (λ db. record db { users = map_where (λ u. u.id == user.id) f db.users })
    commit
    pure (some (f user))

  abbrev pub apply_profile : ProfileUpdate → User F → User F
  apply_profile p user = record user {
    name = override p.name user.name;
    role = elim p.role [ none ↦ user.role | some v ↦ v ];
    metadata_json = override p.metadata_json user.metadata_json;
  }

  unfoldable pub update_user_profile : ℕ → ProfileUpdate → Service F (Option (User F))
  unfolding get_user
  update_user_profile user_id p = do user ← get_user user_id; change_found (apply_profile p) user

  unfoldable pub update_user_budget : ℕ → Option F → Service F (Option (User F))
  unfolding get_user
  update_user_budget user_id max_budget = do
    user ← get_user user_id
    change_found (λ u. record u { max_budget = override max_budget u.max_budget }) user

  unfoldable pub block_user : ℕ → Bool → Service F (Option (User F))
  unfolding get_user
  block_user user_id blocked = do
    user ← get_user user_id
    change_found (λ u. record u { is_blocked = blocked }) user

  abbrev pub delete_found : Option (User F) → Service F Bool
  delete_found none = pure false
  delete_found (some user) = do
    write (λ db. record db { users = keep (λ u. not (u.id == user.id)) db.users })
    commit
    pure true

  unfoldable pub delete_user : ℕ → Service F Bool
  unfolding get_user
  delete_user user_id = do user ← get_user user_id; delete_found user
