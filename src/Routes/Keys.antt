-- ===== src/Routes/Keys.antt =====
-- src/app/routes/key_routes.py, but for the listing.
use makoto_lite_llm.Base.{ℕ, String, Bool, Option, List, [], ◌∷◌, pure, ◌>>=◌, ◌>>◌}
use makoto_lite_llm.Dependencies.{KeyCache, Auth, on_session}
use makoto_lite_llm.Jwt.{Crypto}
use makoto_lite_llm.Keys.{
  KeyRequest, KeyUpdate, get_key, update_key, rotate_key, block_key, reactivate_key, reset_spend,
  bulk_update_keys, delete_key, generate_key,
}
use makoto_lite_llm.Models.{ApiKey}
use makoto_lite_llm.Routes.{Caller, as_user, as_role, or_missing, unless_missing}

module _ {F : Type 0} (crypto : Crypto) (cache : KeyCache F) where
  abbrev admin : {A : Type 0} → Caller → Auth crypto cache A → Auth crypto cache A
  unfolding as_role
  admin = as_role crypto cache ("proxy_admin" ∷ [])

  abbrev one_key : Option (ApiKey F) → Auth crypto cache (ApiKey F)
  one_key = or_missing crypto cache "Key not found"

  -- the key is the caller's; the rest of the row is as the body says
  unfoldable pub generate :
      F → ℕ → String → Caller → KeyRequest F → Auth crypto cache (String × ApiKey F)
  unfolding as_user generate_key
  generate nothing row_id raw_key caller body = as_user crypto cache caller (λ current_user.
      on_session crypto cache
        (generate_key crypto nothing row_id raw_key (record body { user_id = current_user.id })))

  unfoldable pub get_one : Caller → ℕ → Auth crypto cache (ApiKey F)
  unfolding as_user get_key
  get_one caller key_id =
      as_user crypto cache caller
        (λ _. do key ← on_session crypto cache (get_key key_id); one_key key)

  unfoldable pub update : Caller → ℕ → KeyUpdate F → Auth crypto cache (ApiKey F)
  unfolding admin update_key
  update caller key_id body =
      admin caller (do key ← on_session crypto cache (update_key key_id body); one_key key)

  unfoldable pub rotate : String → Caller → ℕ → ℕ → Auth crypto cache (String × ApiKey F)
  unfolding admin rotate_key
  rotate raw_key caller key_id grace_period_hours = admin caller (do
    result ← rotate_key crypto cache caller.0 raw_key key_id grace_period_hours
    or_missing crypto cache "Key not found" result)

  unfoldable pub block : Caller → ℕ → Bool → Auth crypto cache (ApiKey F)
  unfolding admin block_key
  block caller key_id blocked =
      admin caller (do key ← block_key crypto cache key_id blocked; one_key key)

  unfoldable pub reactivate : Caller → ℕ → Auth crypto cache (ApiKey F)
  unfolding admin reactivate_key
  reactivate caller key_id =
      admin caller (do key ← on_session crypto cache (reactivate_key key_id); one_key key)

  unfoldable pub reset_key_spend : F → Caller → ℕ → Auth crypto cache (ApiKey F)
  unfolding admin reset_spend
  reset_key_spend nothing caller key_id =
      admin caller (do key ← on_session crypto cache (reset_spend nothing key_id); one_key key)

  unfoldable pub bulk_update :
      Caller → List ℕ → Option (List String) → Option F → Auth crypto cache Unit
  unfolding admin bulk_update_keys
  bulk_update caller key_ids allowed_models max_budget =
      admin caller
        (do on_session crypto cache (bulk_update_keys key_ids allowed_models max_budget); pure tt)

  unfoldable pub delete : Caller → ℕ → Auth crypto cache Unit
  unfolding admin delete_key
  delete caller key_id = admin caller (do
    success ← on_session crypto cache (delete_key key_id)
    unless_missing crypto cache "Key not found" success)
