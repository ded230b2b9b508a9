-- ===== src/Dependencies/ApiKeys.antt =====
-- Authentication by an API key, with and without the cache.
use makoto_lite_llm.Base.{
  ℕ, ◌+◌, ◌<◌, ◌≤◌, String, ◌≡◌, ◌↔◌, false, none, some, [], ◌∷◌, ok, err, keep, ◌==◌, nat_eq,
  arith,
}
use makoto_lite_llm.Jwt.{Crypto}
use makoto_lite_llm.Models.{User, ApiKey}
use makoto_lite_llm.Failure.{http_error}
use makoto_lite_llm.Store.{Session}
use makoto_lite_llm.Dependencies.{
  KeyCache, AuthState, key_matches, authenticate_api_key, check_key, is_before,
}

-- nothing is wrong with the key and its owner
abbrev pub IsGood : {F : Type 0} → ℕ → ApiKey F → User F → Type 0
IsGood now key user =
    (key.is_blocked ≡ false) × (is_before key.expires_at now ≡ false) × (user.is_blocked ≡ false)

pub check_key_iff :
    {F : Type 0} (now : ℕ) (key : ApiKey F) (user u : User F)
    → (check_key now key (some user) ≡ ok u) ↔ (IsGood now key user × (u ≡ user))
unfolding check_key
check_key_iff now key user u = (λ h. ground arith, λ h. ground arith)

module _ {F : Type 0} (crypto : Crypto) (cache : KeyCache F) where
  -- If the cache has no entry for the hash of the key, exactly one row answers to it, and its owner is one
  -- row, then the authentication returns a user exactly when the key is not blocked, has not expired and
  -- its owner is not blocked, and the user is that owner.
  pub authenticate_api_key_iff :
      (now : ℕ) (raw_key : String) (s : AuthState cache) (key : ApiKey F) (user u : User F)
      → cache.get now (crypto.sha256_hex raw_key) s.key_cache ≡ none
      → keep (key_matches (crypto.sha256_hex raw_key) now) s.session.current.api_keys ≡ key ∷ []
      → keep (λ o. o.id == key.user_id) s.session.current.users ≡ user ∷ []
      → ((authenticate_api_key crypto cache now raw_key s).0 ≡ ok u)
        ↔ (IsGood now key user × (u ≡ user))
  unfolding authenticate_api_key
  authenticate_api_key_iff now raw_key s key user u fresh found owner =
      rw (fresh, found, owner) (check_key_iff now key user u)

  -- If the cache has no entry for the hash of the key and no row answers to it, then the authentication
  -- raises 401 and leaves session and cache alone.
  pub authenticate_api_key-unknown :
      (now : ℕ) (raw_key : String) (s : AuthState cache)
      → cache.get now (crypto.sha256_hex raw_key) s.key_cache ≡ none
      → keep (key_matches (crypto.sha256_hex raw_key) now) s.session.current.api_keys ≡ []
      → authenticate_api_key crypto cache now raw_key s
        ≡ (err (http_error 401 "Invalid API key"), s)
  unfolding authenticate_api_key
  authenticate_api_key-unknown now raw_key s fresh found = rw (fresh, found)

  -- If the cache has no entry for the hash of the key, exactly one row answers to it, and its owner is one
  -- row, then a second authentication before the entry's time is over decides on the key and the owner that
  -- the first one found, at its own time, whatever the database holds by then.
  pub authenticate_api_key-cached :
      (now later : ℕ) (raw_key : String) (s : AuthState cache) (key : ApiKey F) (user : User F)
      (other : Session F)
      → cache.get now (crypto.sha256_hex raw_key) s.key_cache ≡ none
      → keep (key_matches (crypto.sha256_hex raw_key) now) s.session.current.api_keys ≡ key ∷ []
      → keep (λ o. o.id == key.user_id) s.session.current.users ≡ user ∷ []
      → now ≤ later
      → later < now + cache.ttl
      → let after = (authenticate_api_key crypto cache now raw_key s).1 in
        (authenticate_api_key crypto cache later raw_key (record after { session = other })).0
        ≡ check_key later key (some user)
  unfolding authenticate_api_key
  authenticate_api_key-cached now later raw_key s key user other fresh found owner order soon = rw (
    fresh,
    found,
    owner,
    cache.get-put_self now later (crypto.sha256_hex raw_key) (key, some user) s.key_cache order
        soon,
  )
