-- ===== src/Dependencies.antt =====
-- src/app/auth/dependencies.py: who makes a request. A key is looked up by its current hash, or by
-- its previous one within the grace period, through a cache of five seconds.
pub mod ApiKeys
pub mod Bearer
pub mod ModelAccess
use text.Mathlib.Text.{starts_with}
use makoto_lite_llm.Base.{
  ℕ, String, Bool, true, false, ◌&&◌, ◌||◌, not, Option, none, some, List, Outcome, ok, err, Action,
  any, ◌==◌, nat_eq, string_eq, ltb, pure, raise, gets, modify, raise_if, lift, ◌>>=◌, ◌>>◌,
  if◌then◌else◌,
}
use makoto_lite_llm.Base.Text.{behind}
use makoto_lite_llm.Failure.{Failure, http_error}
use makoto_lite_llm.Jwt.{Crypto, Claims, decode_token}
use makoto_lite_llm.Models.{User, ApiKey, Team, Organization}
use makoto_lite_llm.Permission.{resolve_model_access}
use makoto_lite_llm.Cache.{TtlCache}
use makoto_lite_llm.Store.{Db, Session, Service, select_one_or_none}

-- what the cache holds for a key's hash
abbrev pub KeyCache : Type 0 → Type 1
KeyCache F = TtlCache String (ApiKey F × Option (User F))

-- the comparisons of the queries with a nullable column; a comparison with NULL is not true
abbrev pub is_text : Option String → String → Bool
is_text none t = false
is_text (some h) t = h == t

-- `t > now`
abbrev pub is_after : Option ℕ → ℕ → Bool
is_after none now = false
is_after (some t) now = ltb now t

-- `t and t < now`
abbrev pub is_before : Option ℕ → ℕ → Bool
is_before none now = false
is_before (some t) now = ltb t now

-- the `where` clause of `_lookup_api_key`
abbrev pub key_matches : {F : Type 0} → String → ℕ → ApiKey F → Bool
key_matches key_hash now k =
    k.api_key_hash == key_hash
    || (is_text k.previous_key_hash key_hash && is_after k.grace_period_expires_at now)

-- `_lookup_api_key`
unfoldable pub lookup_api_key : {F : Type 0} → ℕ → String → Service F (Option (ApiKey F))
lookup_api_key now key_hash = select_one_or_none (λ db. db.api_keys) (key_matches key_hash now)

-- `user is None or user.is_blocked`
abbrev check_owner : {F : Type 0} → Option (User F) → Outcome Failure (User F)
check_owner none = err (http_error 401 "Key owner not found or blocked")
check_owner (some user) =
    if user.is_blocked then err (http_error 401 "Key owner not found or blocked") else ok user

-- the checks of a key and its owner, in their order
unfoldable pub check_key : {F : Type 0} → ℕ → ApiKey F → Option (User F) → Outcome Failure (User F)
check_key now api_key user =
    if api_key.is_blocked
    then err (http_error 401 "API key is blocked")
    else if is_before api_key.expires_at now
    then err (http_error 401 "API key has expired")
    else check_owner user

-- `user.role not in roles`
unfoldable pub require_role : {F : Type 0} → List String → User F → Outcome Failure (User F)
require_role roles user =
    if any (λ role. role == user.role) roles
    then ok user
    else err (http_error 403 "Insufficient permissions")

-- the text behind `Bearer `, or nothing for a missing or other header
unfoldable pub bearer_token : Option String → Option String
bearer_token none = none
bearer_token (some auth_header) =
    if starts_with auth_header "Bearer " then some (behind b' ' auth_header) else none

-- the session of a request and the process-wide `_api_key_cache`
pub record AuthState {F : Type 0} (cache : KeyCache F) : Type 0 where
  pub session : Session F
  pub key_cache : cache.Store

module _ {F : Type 0} (crypto : Crypto) (cache : KeyCache F) where
  abbrev pub Auth : Type 0 → Type 0
  Auth A = Action (AuthState cache) Failure A

  abbrev pub on_session : {A : Type 0} → Service F A → Auth A
  on_session m s = let (r, session) = m s.session in (r, record s { session = session })

  unfoldable pub invalidate_api_key_cache : String → Auth Unit
  invalidate_api_key_cache key_hash s =
      (ok tt, record s { key_cache = cache.remove key_hash s.key_cache })

  abbrev remember : ℕ → String → ApiKey F → Option (User F) → Auth Unit
  remember now key_hash api_key user s =
      (ok tt, record s { key_cache = cache.put now key_hash (api_key, user) s.key_cache })

  abbrev load_owner : ℕ → String → Option (ApiKey F) → Auth (ApiKey F × Option (User F))
  load_owner now key_hash none = raise (http_error 401 "Invalid API key")
  load_owner now key_hash (some api_key) = do
    user ← on_session (select_one_or_none (λ db. db.users) (λ u. u.id == api_key.user_id))
    remember now key_hash api_key user
    pure (api_key, user)

  -- the cached pair, or the one that is loaded and then cached
  abbrev cached_or_loaded :
      ℕ → String → Option (ApiKey F × Option (User F)) → Auth (ApiKey F × Option (User F))
  cached_or_loaded now key_hash (some pair) = pure pair
  cached_or_loaded now key_hash none = do
    api_key ← on_session (lookup_api_key now key_hash)
    load_owner now key_hash api_key

  abbrev check_pair : ℕ → ApiKey F × Option (User F) → Auth (User F)
  check_pair now (api_key, user) s = (check_key now api_key user, s)

  -- `_authenticate_api_key`; the clock is read once
  unfoldable pub authenticate_api_key : ℕ → String → Auth (User F)
  unfolding lookup_api_key
  authenticate_api_key now raw_key = do
    let key_hash = crypto.sha256_hex raw_key
    cached ← gets (λ s. cache.get now key_hash s.key_cache)
    pair ← cached_or_loaded now key_hash cached
    check_pair now pair

  abbrev check_user : Option (User F) → Outcome Failure (User F)
  check_user none = err (http_error 401 "User not found or blocked")
  check_user (some user) =
      if user.is_blocked then err (http_error 401 "User not found or blocked") else ok user

  abbrev authenticate_jwt : Option Claims → Auth (User F)
  authenticate_jwt none = raise (http_error 401 "Invalid or expired token")
  authenticate_jwt (some payload) = do
    raise_if (not (payload.ttype == "access")) (http_error 401 "Invalid or expired token")
    user ← on_session (select_one_or_none (λ db. db.users) (λ u. u.id == payload.sub))
    lift (check_user user)

  abbrev authenticate_token : ℕ → Option String → Auth (User F)
  authenticate_token now none = raise (http_error 401 "Missing or invalid authorization header")
  authenticate_token now (some token) =
      if starts_with token "sk-"
      then authenticate_api_key now token
      else authenticate_jwt (decode_token crypto now token)

  -- the argument is the header Authorization
  unfoldable pub get_current_user : ℕ → Option String → Auth (User F)
  unfolding bearer_token decode_token
  get_current_user now auth_header = authenticate_token now (bearer_token auth_header)

  abbrev api_key_of : Option (ApiKey F × Option (User F)) → ℕ → String → Auth (Option (ApiKey F))
  api_key_of (some (api_key, _)) now key_hash = pure (some api_key)
  api_key_of none now key_hash = on_session (lookup_api_key now key_hash)

  abbrev key_of_token : ℕ → Option String → Auth (Option (ApiKey F))
  key_of_token now none = pure none
  key_of_token now (some token) = if not (starts_with token "sk-") then pure none else (do
    let key_hash = crypto.sha256_hex token
    cached ← gets (λ s. cache.get now key_hash s.key_cache)
    api_key_of cached now key_hash)

  -- a lookup that is not in the cache is not put there
  unfoldable pub get_current_api_key : ℕ → Option String → Auth (Option (ApiKey F))
  unfolding bearer_token lookup_api_key
  get_current_api_key now auth_header = key_of_token now (bearer_token auth_header)
