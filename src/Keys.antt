-- ===== src/Keys.antt =====
-- src/app/services/key_service.py: the operations on API keys. The fresh key of `generate_api_key`,
-- the new row's id and the time are arguments.
pub mod Rotation
pub mod Blocking
use makoto_lite_llm.Base.{
  ℕ, zero, suc, ◌+◌, ◌-◌, String, Bool, true, false, Option, none, some, List, [], ◌∷◌, ◌++◌, ok,
  any, length, keep, map_where, override, or_else, is_some, not, ◌&&◌, ◌||◌, ◌==◌, nat_eq,
  string_eq, pure, gets, ◌>>=◌, ◌>>◌, if◌then◌else◌,
}
use makoto_lite_llm.Base.Text.{first_chars}
use makoto_lite_llm.Base.Int.{ℤ}
use makoto_lite_llm.Json.{Json}
use makoto_lite_llm.Config.{hours}
use makoto_lite_llm.Jwt.{Crypto}
use makoto_lite_llm.Models.{ApiKey}
use makoto_lite_llm.Store.{Db, Session, Service, select_one_or_none, write, insert_unique, commit}
use makoto_lite_llm.Dependencies.{KeyCache, AuthState, Auth, on_session, invalidate_api_key_cache}

-- `get_key_prefix` of src/app/auth/api_key_auth.py
abbrev pub get_key_prefix : String → String
get_key_prefix key = first_chars 11 key

-- the arguments of `generate_key` that become columns
pub record KeyRequest (F : Type 0) : Type 0 where
  pub user_id : ℕ
  pub key_alias : Option String
  pub team_id : Option ℕ
  pub org_id : Option ℕ
  pub allowed_models : Option (List String)
  pub max_budget : Option F
  pub tpm_limit : Option ℤ
  pub rpm_limit : Option ℤ
  pub max_parallel_requests : Option ℤ
  pub expires_at : Option ℕ
  pub metadata : Option Json

-- the arguments of `update_key` that may be `None`
pub record KeyUpdate (F : Type 0) : Type 0 where
  pub key_alias : Option String
  pub allowed_models : Option (List String)
  pub max_budget : Option F
  pub tpm_limit : Option ℤ
  pub rpm_limit : Option ℤ
  pub metadata_json : Option Json

module _ {F : Type 0} where
  abbrev pub update_row : ℕ → (ApiKey F → ApiKey F) → Db F → Db F
  update_row id f db = record db { api_keys = map_where (λ k. k.id == id) f db.api_keys }

  unfoldable pub get_key : ℕ → Service F (Option (ApiKey F))
  get_key key_id = select_one_or_none (λ db. db.api_keys) (λ k. k.id == key_id)

  -- `get_key`, and on its row the given change of fields and a commit
  abbrev change_found : (ApiKey F → ApiKey F) → Option (ApiKey F) → Service F (Option (ApiKey F))
  change_found f none = pure none
  change_found f (some key) = do write (update_row key.id f); commit; pure (some (f key))

  abbrev change_key : ℕ → (ApiKey F → ApiKey F) → Service F (Option (ApiKey F))
  change_key key_id f = do key ← get_key key_id; change_found f key

  abbrev apply_update : KeyUpdate F → ApiKey F → ApiKey F
  apply_update u key = record key {
    key_alias = override u.key_alias key.key_alias;
    allowed_models = override u.allowed_models key.allowed_models;
    max_budget = override u.max_budget key.max_budget;
    tpm_limit = override u.tpm_limit key.tpm_limit;
    rpm_limit = override u.rpm_limit key.rpm_limit;
    metadata_json = override u.metadata_json key.metadata_json;
  }

  unfoldable pub update_key : ℕ → KeyUpdate F → Service F (Option (ApiKey F))
  unfolding get_key
  update_key key_id u = change_key key_id (apply_update u)

  unfoldable pub reactivate_key : ℕ → Service F (Option (ApiKey F))
  unfolding get_key
  reactivate_key key_id =
      change_key key_id (λ key. record key { expires_at = none; is_blocked = false })

  -- the argument is `0.0`
  unfoldable pub reset_spend : F → ℕ → Service F (Option (ApiKey F))
  unfolding get_key
  reset_spend nothing key_id = change_key key_id (λ key. record key { spend = nothing })

  abbrev is_listed : List ℕ → ApiKey F → Bool
  is_listed key_ids k = any (λ id. id == k.id) key_ids

  unfoldable pub bulk_update_keys : List ℕ → Option (List String) → Option F → Service F ℕ
  bulk_update_keys key_ids allowed_models max_budget =
      if not (is_some allowed_models || is_some max_budget) then pure 0 else (do
        count ← gets (λ s. length (keep (is_listed key_ids) s.current.api_keys))
        write (λ db. record db {
          api_keys =
              map_where (is_listed key_ids)
                (λ key. record key {
                  allowed_models = override allowed_models key.allowed_models;
                  max_budget = override max_budget key.max_budget;
                })
                db.api_keys;
        })
        commit
        pure count)

  abbrev delete_found : Option (ApiKey F) → Service F Bool
  delete_found none = pure false
  delete_found (some key) = do
    write (λ db. record db { api_keys = keep (λ k. not (k.id == key.id)) db.api_keys })
    commit
    pure true

  unfoldable pub delete_key : ℕ → Service F Bool
  unfolding get_key
  delete_key key_id = do key ← get_key key_id; delete_found key

  module _ (crypto : Crypto) where
    abbrev pub new_key : F → ℕ → String → KeyRequest F → ApiKey F
    new_key nothing row_id raw_key r = record {
      id = row_id;
      api_key_hash = crypto.sha256_hex raw_key;
      key_prefix = get_key_prefix raw_key;
      key_alias = r.key_alias;
      user_id = r.user_id;
      team_id = r.team_id;
      org_id = r.org_id;
      project_id = none;
      allowed_models = r.allowed_models;
      max_budget = r.max_budget;
      soft_budget = none;
      spend = nothing;
      budget_id = none;
      tpm_limit = r.tpm_limit;
      rpm_limit = r.rpm_limit;
      max_parallel_requests = r.max_parallel_requests;
      budget_reset_period = none;
      expires_at = r.expires_at;
      auto_rotate = false;
      rotation_interval_days = none;
      last_rotated_at = none;
      previous_key_hash = none;
      grace_period_expires_at = none;
      is_blocked = false;
      metadata_json = r.metadata;
    }

    -- the columns that are not given have the defaults of the model, `spend` the given `0.0`
    unfoldable pub generate_key : F → ℕ → String → KeyRequest F → Service F (String × ApiKey F)
    generate_key nothing row_id raw_key r = do
      let key = new_key nothing row_id raw_key r
      insert_unique (λ db. any (λ k. k.api_key_hash == key.api_key_hash) db.api_keys)
          (λ db. record db { api_keys = db.api_keys ++ key ∷ [] })
      commit
      pure (raw_key, key)

    module _ (cache : KeyCache F) where
      abbrev pub rotate_row : ℕ → ℕ → String → ApiKey F → ApiKey F
      rotate_row now grace_period_hours raw_key key = record key {
        previous_key_hash = some key.api_key_hash;
        grace_period_expires_at = some (now + hours grace_period_hours);
        api_key_hash = crypto.sha256_hex raw_key;
        key_prefix = get_key_prefix raw_key;
        last_rotated_at = some now;
      }

      -- the update is refused if another row has the new hash
      abbrev save_rotation : ℕ → ℕ → String → ApiKey F → Service F (Option (String × ApiKey F))
      save_rotation now grace_period_hours raw_key key = do
        insert_unique
            (λ db.
              any (λ k. not (k.id == key.id) && k.api_key_hash == crypto.sha256_hex raw_key)
                db.api_keys)
            (update_row key.id (rotate_row now grace_period_hours raw_key))
        commit
        pure (some (raw_key, rotate_row now grace_period_hours raw_key key))

      abbrev rotate_found :
          ℕ → ℕ → String → Option (ApiKey F) → Auth crypto cache (Option (String × ApiKey F))
      rotate_found now grace_period_hours raw_key none = pure none
      rotate_found now grace_period_hours raw_key (some key) = do
        invalidate_api_key_cache crypto cache key.api_key_hash
        on_session crypto cache (save_rotation now grace_period_hours raw_key key)

      -- the clock is read once
      unfoldable pub rotate_key :
          ℕ → String → ℕ → ℕ → Auth crypto cache (Option (String × ApiKey F))
      unfolding get_key invalidate_api_key_cache
      rotate_key now raw_key key_id grace_period_hours = do
        key ← on_session crypto cache (get_key key_id)
        rotate_found now grace_period_hours raw_key key

      abbrev block_found : Bool → Option (ApiKey F) → Auth crypto cache (Option (ApiKey F))
      block_found blocked none = pure none
      block_found blocked (some key) = do
        let change = λ (k : ApiKey F). record k { is_blocked = blocked }
        on_session crypto cache (do write (update_row key.id change); commit)
        invalidate_api_key_cache crypto cache key.api_key_hash
        pure (some (change key))

      unfoldable pub block_key : ℕ → Bool → Auth crypto cache (Option (ApiKey F))
      unfolding get_key invalidate_api_key_cache
      block_key key_id blocked = do
        key ← on_session crypto cache (get_key key_id)
        block_found blocked key
