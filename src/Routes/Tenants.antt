-- ===== src/Routes/Tenants.antt =====
-- src/app/routes/{team,org,user,budget}_routes.py, but for the listings.
use makoto_lite_llm.Base.{ℕ, String, Bool, Option, List, [], ◌∷◌, pure, ◌>>=◌, ◌>>◌}
use makoto_lite_llm.Budgets.{BudgetUpdate, create_budget, update_budget, delete_budget}
use makoto_lite_llm.Dependencies.{KeyCache, Auth, on_session}
use makoto_lite_llm.Float.{Float}
use makoto_lite_llm.Jwt.{Crypto}
use makoto_lite_llm.Models.{User, Team, Organization, Budget}
use makoto_lite_llm.Orgs as Orgs
use makoto_lite_llm.Routes.{Caller, as_user, as_role, or_missing, unless_missing, or_conflict}
use makoto_lite_llm.Teams as Teams
use makoto_lite_llm.Users.{
  UserRequest, ProfileUpdate, create_user, get_user, update_user_profile, update_user_budget,
  block_user, delete_user,
}

abbrev pub admins : List String
admins = "proxy_admin" ∷ []

abbrev pub org_admins : List String
org_admins = "proxy_admin" ∷ "org_admin" ∷ []

abbrev pub team_admins : List String
team_admins = "proxy_admin" ∷ "org_admin" ∷ "team_admin" ∷ []

module _ {F : Type 0} (crypto : Crypto) (cache : KeyCache F) where
  -- team_routes.py
  unfoldable pub team_create : ℕ → Caller → Teams.TeamRequest F → Auth crypto cache (Team F)
  unfolding as_role Teams.create_team
  team_create row_id caller body =
      as_role crypto cache org_admins caller
        (on_session crypto cache (Teams.create_team row_id body))

  unfoldable pub team_get : Caller → ℕ → Auth crypto cache (Team F)
  unfolding as_user Teams.get_team
  team_get caller team_id = as_user crypto cache caller (λ _. do
    team ← on_session crypto cache (Teams.get_team team_id)
    or_missing crypto cache "Team not found" team)

  unfoldable pub team_update : Caller → ℕ → Teams.TeamUpdate F → Auth crypto cache (Team F)
  unfolding as_role Teams.update_team
  team_update caller team_id body = as_role crypto cache team_admins caller (do
    team ← on_session crypto cache (Teams.update_team team_id body)
    or_missing crypto cache "Team not found" team)

  unfoldable pub team_delete : Caller → ℕ → Auth crypto cache Unit
  unfolding as_role Teams.delete_team
  team_delete caller team_id = as_role crypto cache org_admins caller (do
    success ← on_session crypto cache (Teams.delete_team team_id)
    unless_missing crypto cache "Team not found" success)

  unfoldable pub team_block : Caller → ℕ → Bool → Auth crypto cache (Team F)
  unfolding as_role Teams.block_team
  team_block caller team_id blocked = as_role crypto cache org_admins caller (do
    team ← on_session crypto cache (Teams.block_team team_id blocked)
    or_missing crypto cache "Team not found" team)

  unfoldable pub team_member_add : ℕ → Caller → ℕ → ℕ → String → Auth crypto cache Unit
  unfolding as_role Teams.add_member
  team_member_add row_id caller team_id user_id role = as_role crypto cache team_admins caller (do
    or_conflict crypto cache
        (on_session crypto cache (Teams.add_member row_id team_id user_id role))
    pure tt)

  unfoldable pub team_member_update : Caller → ℕ → ℕ → String → Auth crypto cache Unit
  unfolding as_role Teams.update_member
  team_member_update caller team_id user_id role = as_role crypto cache team_admins caller (do
    membership ← on_session crypto cache (Teams.update_member team_id user_id role)
    or_missing crypto cache "Membership not found" membership
    pure tt)

  unfoldable pub team_member_remove : Caller → ℕ → ℕ → Auth crypto cache Unit
  unfolding as_role Teams.remove_member
  team_member_remove caller team_id user_id = as_role crypto cache team_admins caller (do
    success ← on_session crypto cache (Teams.remove_member team_id user_id)
    unless_missing crypto cache "Membership not found" success)

  -- org_routes.py
  unfoldable pub org_create : ℕ → Caller → Orgs.OrgRequest F → Auth crypto cache (Organization F)
  unfolding as_role Orgs.create_org
  org_create row_id caller body =
      as_role crypto cache admins caller
        (or_conflict crypto cache (on_session crypto cache (Orgs.create_org row_id body)))

  unfoldable pub org_get : Caller → ℕ → Auth crypto cache (Organization F)
  unfolding as_user Orgs.get_org
  org_get caller org_id = as_user crypto cache caller (λ _. do
    org ← on_session crypto cache (Orgs.get_org org_id)
    or_missing crypto cache "Organization not found" org)

  unfoldable pub org_update : Caller → ℕ → Orgs.OrgUpdate F → Auth crypto cache (Organization F)
  unfolding as_role Orgs.update_org
  org_update caller org_id body = as_role crypto cache admins caller (do
    org ← on_session crypto cache (Orgs.update_org org_id body)
    or_missing crypto cache "Organization not found" org)

  unfoldable pub org_delete : Caller → ℕ → Auth crypto cache Unit
  unfolding as_role Orgs.delete_org
  org_delete caller org_id = as_role crypto cache admins caller (do
    success ← on_session crypto cache (Orgs.delete_org org_id)
    unless_missing crypto cache "Organization not found" success)

  unfoldable pub org_member_add : ℕ → Caller → ℕ → ℕ → String → Auth crypto cache Unit
  unfolding as_role Orgs.add_member
  org_member_add row_id caller org_id user_id role = as_role crypto cache admins caller (do
    or_conflict crypto cache (on_session crypto cache (Orgs.add_member row_id org_id user_id role))
    pure tt)

  unfoldable pub org_member_update : Caller → ℕ → ℕ → String → Auth crypto cache Unit
  unfolding as_role Orgs.update_member
  org_member_update caller org_id user_id role = as_role crypto cache admins caller (do
    membership ← on_session crypto cache (Orgs.update_member org_id user_id role)
    or_missing crypto cache "Membership not found" membership
    pure tt)

  unfoldable pub org_member_remove : Caller → ℕ → ℕ → Auth crypto cache Unit
  unfolding as_role Orgs.remove_member
  org_member_remove caller org_id user_id = as_role crypto cache admins caller (do
    success ← on_session crypto cache (Orgs.remove_member org_id user_id)
    unless_missing crypto cache "Membership not found" success)

  -- user_routes.py
  unfoldable pub user_get : Caller → ℕ → Auth crypto cache (User F)
  unfolding as_user get_user
  user_get caller user_id = as_user crypto cache caller (λ _. do
    user ← on_session crypto cache (get_user user_id)
    or_missing crypto cache "User not found" user)

  unfoldable pub user_update_profile : Caller → ℕ → ProfileUpdate → Auth crypto cache (User F)
  unfolding as_role update_user_profile
  user_update_profile caller user_id body = as_role crypto cache admins caller (do
    user ← on_session crypto cache (update_user_profile user_id body)
    or_missing crypto cache "User not found" user)

  unfoldable pub user_update_budget : Caller → ℕ → Option F → Auth crypto cache (User F)
  unfolding as_role update_user_budget
  user_update_budget caller user_id max_budget = as_role crypto cache admins caller (do
    user ← on_session crypto cache (update_user_budget user_id max_budget)
    or_missing crypto cache "User not found" user)

  unfoldable pub user_block : Caller → ℕ → Bool → Auth crypto cache (User F)
  unfolding as_role block_user
  user_block caller user_id blocked = as_role crypto cache admins caller (do
    user ← on_session crypto cache (block_user user_id blocked)
    or_missing crypto cache "User not found" user)

  unfoldable pub user_delete : Caller → ℕ → Auth crypto cache Unit
  unfolding as_role delete_user
  user_delete caller user_id = as_role crypto cache admins caller (do
    success ← on_session crypto cache (delete_user user_id)
    unless_missing crypto cache "User not found" success)

  -- budget_routes.py
  unfoldable pub budget_create : Caller → Budget F → Auth crypto cache (Budget F)
  unfolding as_role create_budget
  budget_create caller budget =
      as_role crypto cache admins caller (on_session crypto cache (create_budget budget))

  unfoldable pub budget_update : Caller → ℕ → BudgetUpdate F → Auth crypto cache (Budget F)
  unfolding as_role update_budget
  budget_update caller budget_id body = as_role crypto cache admins caller (do
    budget ← on_session crypto cache (update_budget budget_id body)
    or_missing crypto cache "Budget not found" budget)

  unfoldable pub budget_delete : Caller → ℕ → Auth crypto cache Unit
  unfolding as_role delete_budget
  budget_delete caller budget_id = as_role crypto cache admins caller (do
    success ← on_session crypto cache (delete_budget budget_id)
    unless_missing crypto cache "Budget not found" success)

module _ (float : Float) (crypto : Crypto) (cache : KeyCache float.Carrier) where
  open float use {Carrier}

  unfoldable pub user_create : ℕ → Caller → UserRequest Carrier → Auth crypto cache (User Carrier)
  unfolding as_role create_user
  user_create row_id caller body =
      as_role crypto cache admins caller
        (or_conflict crypto cache (on_session crypto cache (create_user float crypto row_id body)))
