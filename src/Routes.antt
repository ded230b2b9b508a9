-- ===== src/Routes.antt =====
-- The routes of src/app/routes that manage keys, teams, organizations, users and budgets: who may call
-- them, and how they answer what a service returns. The responses are the services' rows.
pub mod Keys
pub mod Tenants
pub mod Roles
pub mod Login
pub mod Sso
pub mod Listings
pub mod Callback
pub mod Escalation
use makoto_lite_llm.Base.{
  ℕ, String, Bool, true, false, Option, none, some, List, [], ◌∷◌, Outcome, ok, err, lift, pure,
  raise, ◌>>=◌, ◌>>◌,
}
use makoto_lite_llm.Dependencies.{KeyCache, AuthState, Auth, get_current_user, require_role}
use makoto_lite_llm.Failure.{Failure, http_error, duplicate_error}
use makoto_lite_llm.Jwt.{Crypto}
use makoto_lite_llm.Models.{User}

-- what the dependencies of a route read: the time and the header Authorization
abbrev pub Caller : Type 0
Caller = ℕ × Option String

-- `except DuplicateError as e: raise HTTPException(status_code=409, detail=e.detail)`
abbrev pub conflict : {A : Type 0} → Outcome Failure A → Outcome Failure A
conflict (err (duplicate_error detail)) = err (http_error 409 detail)
conflict r = r

module _ {F : Type 0} (crypto : Crypto) (cache : KeyCache F) where
  -- `Depends(get_current_user)`
  unfoldable pub as_user :
      {A : Type 0} → Caller → (User F → Auth crypto cache A) → Auth crypto cache A
  unfolding get_current_user
  as_user (now, auth_header) route = get_current_user crypto cache now auth_header >>= route

  -- `Depends(require_role(…))`
  unfoldable pub as_role :
      {A : Type 0} → List String → Caller → Auth crypto cache A → Auth crypto cache A
  unfolding get_current_user require_role
  as_role roles (now, auth_header) route = do
    user ← get_current_user crypto cache now auth_header
    lift (require_role roles user)
    route

  -- `if … is None: raise HTTPException(status_code=404, …)`
  abbrev pub or_missing : {A : Type 0} → String → Option A → Auth crypto cache A
  or_missing detail none = raise (http_error 404 detail)
  or_missing detail (some a) = pure a

  -- `if not success: …`
  abbrev pub unless_missing : String → Bool → Auth crypto cache Unit
  unless_missing detail false = raise (http_error 404 detail)
  unless_missing detail true = pure tt

  abbrev pub or_conflict : {A : Type 0} → Auth crypto cache A → Auth crypto cache A
  or_conflict m s = let (r, s') = m s in (conflict r, s')
