-- ===== src/Keys/Blocking.antt =====
-- Keys that are blocked or deleted, and the cache of the authentication.
use makoto_lite_llm.Base.{
  ℕ, String, ◌≡◌, true, false, Option, some, [], ◌∷◌, ok, err, keep, map_where, ◌==◌, nat_eq,
  string_eq, arith, eq_refl,
}
use makoto_lite_llm.Jwt.{Crypto}
use makoto_lite_llm.Models.{User, ApiKey}
use makoto_lite_llm.Failure.{http_error}
use makoto_lite_llm.Store.{scalar_one_or_none}
use makoto_lite_llm.Store.Queries.{keep-map_where_only, keep-keep-not}
use makoto_lite_llm.Dependencies.{
  KeyCache, AuthState, key_matches, authenticate_api_key, on_session, check_key, is_before,
}
use makoto_lite_llm.Keys.{block_key, delete_key}
use makoto_lite_llm.Keys.Rotation.{IsOwnHash}

module _ {F : Type 0} (crypto : Crypto) (cache : KeyCache F) where
  abbrev block : ApiKey F → ApiKey F
  block k = record k { is_blocked = true }

  -- the state after `block_key`
  abbrev blocked_state : ApiKey F → AuthState cache → AuthState cache
  blocked_state key s =
      let db = record s.session.current {
        api_keys = map_where (λ k. k.id == key.id) block s.session.current.api_keys;
      } in
      record {
        session = record { current = db; committed = db };
        key_cache = cache.remove key.api_key_hash s.key_cache;
      }

  block_key-found :
      (s : AuthState cache) (key : ApiKey F)
      → keep (λ k. k.id == key.id) s.session.current.api_keys ≡ key ∷ []
      → block_key crypto cache key.id true s ≡ (ok (some (block key)), blocked_state key s)
  unfolding block_key
  block_key-found s key found = rw found

  -- If the id is of one row, no other row answers to its hash, and its owner is found by a query, then after
  -- `block_key` the secret of its current hash is refused with 401 at any time, although the key was cached under this
  -- hash.
  pub block_key-locks_out :
      (at : ℕ) (raw_key : String) (s : AuthState cache) (key : ApiKey F) (owner : Option (User F))
      → keep (λ k. k.id == key.id) s.session.current.api_keys ≡ key ∷ []
      → crypto.sha256_hex raw_key ≡ key.api_key_hash
      → IsOwnHash crypto cache key.api_key_hash key.id s.session.current.api_keys
      → scalar_one_or_none (keep (λ u. u.id == key.user_id) s.session.current.users) ≡ ok owner
      → (authenticate_api_key crypto cache at raw_key (block_key crypto cache key.id true s).1).0
        ≡ err (http_error 401 "API key is blocked")
  unfolding authenticate_api_key check_key
  block_key-locks_out at raw_key s key owner found hash own load =
      let only =
        keep-map_where_only (key_matches key.api_key_hash at) (λ k. k.id == key.id) block key
          s.session.current.api_keys found (own at) in
      rw (
        block_key-found s key found,
        hash,
        cache.get-remove_self at key.api_key_hash s.key_cache,
        only,
        eq_refl key.api_key_hash,
        load,
      )

  -- If the id is of one row and the cache holds the key with its owner, neither blocked and the key not
  -- expired, then after `delete_key` the row is gone from the committed database, and the key still
  -- authenticates its owner.
  pub delete_key-keeps_cached :
      (at : ℕ) (raw_key : String) (s : AuthState cache) (key : ApiKey F) (user : User F)
      → keep (λ k. k.id == key.id) s.session.current.api_keys ≡ key ∷ []
      → cache.get at (crypto.sha256_hex raw_key) s.key_cache ≡ some (key, some user)
      → key.is_blocked ≡ false
      → is_before key.expires_at at ≡ false
      → user.is_blocked ≡ false
      → let after = (on_session crypto cache (delete_key key.id) s).1 in
        (keep (λ k. k.id == key.id) after.session.committed.api_keys ≡ [])
        × ((authenticate_api_key crypto cache at raw_key after).0 ≡ ok user)
  unfolding delete_key authenticate_api_key check_key
  delete_key-keeps_cached at raw_key s key user found cached open_key unexpired open_user =
      rw found
        (keep-keep-not (λ k. k.id == key.id) s.session.current.api_keys, rw cached (ground arith))
