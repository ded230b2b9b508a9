-- ===== src/Routes/Roles.antt =====
-- The calls of the management routes that change the database, but for the generation of a key: who may
-- make them.
use makoto_lite_llm.Base.{
  ℕ, String, ◌≡◌, refl, Bool, false, Option, List, ok, err, any, ◌==◌, string_eq, pure, ◌>>◌,
}
use makoto_lite_llm.Budgets.{BudgetUpdate}
use makoto_lite_llm.Dependencies.{KeyCache, AuthState, Auth, get_current_user, require_role}
use makoto_lite_llm.Float.{Float}
use makoto_lite_llm.Failure.{http_error}
use makoto_lite_llm.Jwt.{Crypto}
use makoto_lite_llm.Keys.{KeyUpdate}
use makoto_lite_llm.Models.{User, Budget}
use makoto_lite_llm.Orgs.{OrgRequest, OrgUpdate}
use makoto_lite_llm.Routes.{Caller, as_role}
use makoto_lite_llm.Routes.Keys as Keys
use makoto_lite_llm.Routes.Tenants.{
  admins, org_admins, team_admins, team_create, team_update, team_delete, team_block,
  team_member_add, team_member_update, team_member_remove, org_create, org_update, org_delete,
  org_member_add, org_member_update, org_member_remove, user_update_profile, user_update_budget,
  user_block, user_delete, user_create, budget_create, budget_update, budget_delete,
}
use makoto_lite_llm.Teams.{TeamRequest, TeamUpdate}
use makoto_lite_llm.Users.{UserRequest, ProfileUpdate}

-- a request of a route, named for the service that the route calls, with what it carries
pub data Call (F : Type 0) : Type 0 where
  call_update_key : ℕ → KeyUpdate F → Call F
  call_rotate_key : String → ℕ → ℕ → Call F
  call_block_key : ℕ → Bool → Call F
  call_reactivate_key : ℕ → Call F
  call_reset_spend : F → ℕ → Call F
  call_bulk_update_keys : List ℕ → Option (List String) → Option F → Call F
  call_delete_key : ℕ → Call F
  call_create_team : ℕ → TeamRequest F → Call F
  call_update_team : ℕ → TeamUpdate F → Call F
  call_delete_team : ℕ → Call F
  call_block_team : ℕ → Bool → Call F
  call_add_team_member : ℕ → ℕ → ℕ → String → Call F
  call_update_team_member : ℕ → ℕ → String → Call F
  call_remove_team_member : ℕ → ℕ → Call F
  call_create_org : ℕ → OrgRequest F → Call F
  call_update_org : ℕ → OrgUpdate F → Call F
  call_delete_org : ℕ → Call F
  call_add_org_member : ℕ → ℕ → ℕ → String → Call F
  call_update_org_member : ℕ → ℕ → String → Call F
  call_remove_org_member : ℕ → ℕ → Call F
  call_update_user_profile : ℕ → ProfileUpdate → Call F
  call_update_user_budget : ℕ → Option F → Call F
  call_block_user : ℕ → Bool → Call F
  call_delete_user : ℕ → Call F
  call_create_user : ℕ → UserRequest F → Call F
  call_create_budget : Budget F → Call F
  call_update_budget : ℕ → BudgetUpdate F → Call F
  call_delete_budget : ℕ → Call F

module _ {F : Type 0} where
  -- the roles of `require_role` at the route
  abbrev pub roles_of : Call F → List String
  roles_of (call_update_key a b) = admins
  roles_of (call_rotate_key a b d) = admins
  roles_of (call_block_key a b) = admins
  roles_of (call_reactivate_key a) = admins
  roles_of (call_reset_spend a b) = admins
  roles_of (call_bulk_update_keys a b d) = admins
  roles_of (call_delete_key a) = admins
  roles_of (call_create_team a b) = org_admins
  roles_of (call_update_team a b) = team_admins
  roles_of (call_delete_team a) = org_admins
  roles_of (call_block_team a b) = org_admins
  roles_of (call_add_team_member a b d e) = team_admins
  roles_of (call_update_team_member a b d) = team_admins
  roles_of (call_remove_team_member a b) = team_admins
  roles_of (call_create_org a b) = admins
  roles_of (call_update_org a b) = admins
  roles_of (call_delete_org a) = admins
  roles_of (call_add_org_member a b d e) = admins
  roles_of (call_update_org_member a b d) = admins
  roles_of (call_remove_org_member a b) = admins
  roles_of (call_update_user_profile a b) = admins
  roles_of (call_update_user_budget a b) = admins
  roles_of (call_block_user a b) = admins
  roles_of (call_delete_user a) = admins
  roles_of (call_create_user a b) = admins
  roles_of (call_create_budget a) = admins
  roles_of (call_update_budget a b) = admins
  roles_of (call_delete_budget a) = admins

module _ (float : Float) (crypto : Crypto) (cache : KeyCache float.Carrier) where
  open float use {Carrier}

  abbrev answer : {A : Type 0} → Auth crypto cache A → Auth crypto cache Unit
  answer m = do m; pure tt

  -- the route of a call, without the body of its answer
  unfoldable pub serve : Caller → Call Carrier → Auth crypto cache Unit
  unfolding Keys.update Keys.rotate Keys.block Keys.reactivate Keys.reset_key_spend Keys.bulk_update
      Keys.delete team_create team_update team_delete team_block team_member_add team_member_update
      team_member_remove org_create org_update org_delete org_member_add org_member_update
      org_member_remove user_update_profile user_update_budget user_block user_delete user_create
      budget_create budget_update budget_delete
  serve caller (call_update_key a b) = answer (Keys.update crypto cache caller a b)
  serve caller (call_rotate_key a b d) = answer (Keys.rotate crypto cache a caller b d)
  serve caller (call_block_key a b) = answer (Keys.block crypto cache caller a b)
  serve caller (call_reactivate_key a) = answer (Keys.reactivate crypto cache caller a)
  serve caller (call_reset_spend a b) = answer (Keys.reset_key_spend crypto cache a caller b)
  serve caller (call_bulk_update_keys a b d) = answer (Keys.bulk_update crypto cache caller a b d)
  serve caller (call_delete_key a) = answer (Keys.delete crypto cache caller a)
  serve caller (call_create_team a b) = answer (team_create crypto cache a caller b)
  serve caller (call_update_team a b) = answer (team_update crypto cache caller a b)
  serve caller (call_delete_team a) = answer (team_delete crypto cache caller a)
  serve caller (call_block_team a b) = answer (team_block crypto cache caller a b)
  serve caller (call_add_team_member a b d e) = answer (team_member_add crypto cache a caller b d e)
  serve caller (call_update_team_member a b d) =
      answer (team_member_update crypto cache caller a b d)
  serve caller (call_remove_team_member a b) = answer (team_member_remove crypto cache caller a b)
  serve caller (call_create_org a b) = answer (org_create crypto cache a caller b)
  serve caller (call_update_org a b) = answer (org_update crypto cache caller a b)
  serve caller (call_delete_org a) = answer (org_delete crypto cache caller a)
  serve caller (call_add_org_member a b d e) = answer (org_member_add crypto cache a caller b d e)
  serve caller (call_update_org_member a b d) = answer (org_member_update crypto cache caller a b d)
  serve caller (call_remove_org_member a b) = answer (org_member_remove crypto cache caller a b)
  serve caller (call_update_user_profile a b) = answer (user_update_profile crypto cache caller a b)
  serve caller (call_update_user_budget a b) = answer (user_update_budget crypto cache caller a b)
  serve caller (call_block_user a b) = answer (user_block crypto cache caller a b)
  serve caller (call_delete_user a) = answer (user_delete crypto cache caller a)
  serve caller (call_create_user a b) = answer (user_create float crypto cache a caller b)
  serve caller (call_create_budget a) = answer (budget_create crypto cache caller a)
  serve caller (call_update_budget a b) = answer (budget_update crypto cache caller a b)
  serve caller (call_delete_budget a) = answer (budget_delete crypto cache caller a)

  as_role-forbidden :
      {A : Type 0} (roles : List String) (caller : Caller) (route : Auth crypto cache A)
      (s s' : AuthState cache) (user : User Carrier)
      → get_current_user crypto cache caller.0 caller.1 s ≡ (ok user, s')
      → any (λ role. role == user.role) roles ≡ false
      → answer (as_role crypto cache roles caller route) s
        ≡ (err (http_error 403 "Insufficient permissions"), s')
  unfolding as_role require_role
  as_role-forbidden roles (now, header) route s s' user authenticated other =
      rw (authenticated, other) refl

  -- A call of a management route by a user whose role is not one of the route's is answered with 403, and
  -- the tables and the cache are as the authentication left them.
  pub serve_forbidden :
      (call : Call Carrier) (caller : Caller) (s s' : AuthState cache) (user : User Carrier)
      → get_current_user crypto cache caller.0 caller.1 s ≡ (ok user, s')
      → any (λ role. role == user.role) (roles_of call) ≡ false
      → serve caller call s ≡ (err (http_error 403 "Insufficient permissions"), s')
  unfolding serve
  serve_forbidden (call_update_key a b) caller s s' user h other =
      as_role-forbidden admins caller _ s s' user h other
  serve_forbidden (call_rotate_key a b d) caller s s' user h other =
      as_role-forbidden admins caller _ s s' user h other
  serve_forbidden (call_block_key a b) caller s s' user h other =
      as_role-forbidden admins caller _ s s' user h other
  serve_forbidden (call_reactivate_key a) caller s s' user h other =
      as_role-forbidden admins caller _ s s' user h other
  serve_forbidden (call_reset_spend a b) caller s s' user h other =
      as_role-forbidden admins caller _ s s' user h other
  serve_forbidden (call_bulk_update_keys a b d) caller s s' user h other =
      as_role-forbidden admins caller _ s s' user h other
  serve_forbidden (call_delete_key a) caller s s' user h other =
      as_role-forbidden admins caller _ s s' user h other
  serve_forbidden (call_create_team a b) caller s s' user h other =
      as_role-forbidden org_admins caller _ s s' user h other
  serve_forbidden (call_update_team a b) caller s s' user h other =
      as_role-forbidden team_admins caller _ s s' user h other
  serve_forbidden (call_delete_team a) caller s s' user h other =
      as_role-forbidden org_admins caller _ s s' user h other
  serve_forbidden (call_block_team a b) caller s s' user h other =
      as_role-forbidden org_admins caller _ s s' user h other
  serve_forbidden (call_add_team_member a b d e) caller s s' user h other =
      as_role-forbidden team_admins caller _ s s' user h other
  serve_forbidden (call_update_team_member a b d) caller s s' user h other =
      as_role-forbidden team_admins caller _ s s' user h other
  serve_forbidden (call_remove_team_member a b) caller s s' user h other =
      as_role-forbidden team_admins caller _ s s' user h other
  serve_forbidden (call_create_org a b) caller s s' user h other =
      as_role-forbidden admins caller _ s s' user h other
  serve_forbidden (call_update_org a b) caller s s' user h other =
      as_role-forbidden admins caller _ s s' user h other
  serve_forbidden (call_delete_org a) caller s s' user h other =
      as_role-forbidden admins caller _ s s' user h other
  serve_forbidden (call_add_org_member a b d e) caller s s' user h other =
      as_role-forbidden admins caller _ s s' user h other
  serve_forbidden (call_update_org_member a b d) caller s s' user h other =
      as_role-forbidden admins caller _ s s' user h other
  serve_forbidden (call_remove_org_member a b) caller s s' user h other =
      as_role-forbidden admins caller _ s s' user h other
  serve_forbidden (call_update_user_profile a b) caller s s' user h other =
      as_role-forbidden admins caller _ s s' user h other
  serve_forbidden (call_update_user_budget a b) caller s s' user h other =
      as_role-forbidden admins caller _ s s' user h other
  serve_forbidden (call_block_user a b) caller s s' user h other =
      as_role-forbidden admins caller _ s s' user h other
  serve_forbidden (call_delete_user a) caller s s' user h other =
      as_role-forbidden admins caller _ s s' user h other
  serve_forbidden (call_create_user a b) caller s s' user h other =
      as_role-forbidden admins caller _ s s' user h other
  serve_forbidden (call_create_budget a) caller s s' user h other =
      as_role-forbidden admins caller _ s s' user h other
  serve_forbidden (call_update_budget a b) caller s s' user h other =
      as_role-forbidden admins caller _ s s' user h other
  serve_forbidden (call_delete_budget a) caller s s' user h other =
      as_role-forbidden admins caller _ s s' user h other
