-- ===== src/Routes/Listings.antt =====
-- src/app/routes/{key,team,org,user,budget}_routes.py: the listings. The responses are the rows of the services.
use makoto_lite_llm.Base.{ℕ, Option, List}
use makoto_lite_llm.Base.Int.{ℤ}
use makoto_lite_llm.Dependencies.{KeyCache, Auth, on_session}
use makoto_lite_llm.Jwt.{Crypto}
use makoto_lite_llm.Listing.{Clock, list_keys, list_teams, list_orgs, list_users, list_budgets}
use makoto_lite_llm.Models.{ApiKey, Team, Organization, User, Budget}
use makoto_lite_llm.Routes.{Caller, as_user, as_role}
use makoto_lite_llm.Routes.Tenants.{admins}

module _ {F : Type 0} (crypto : Crypto) (cache : KeyCache F) (clock : Clock) where
  unfoldable pub key_list :
      Caller → Option ℕ → Option ℕ → Option ℕ → ℤ → ℤ → Auth crypto cache (List (ApiKey F))
  unfolding as_user list_keys
  key_list caller user_id team_id org_id page page_size =
      as_user crypto cache caller
        (λ _. on_session crypto cache (list_keys clock user_id team_id org_id page page_size))

  unfoldable pub team_list : Caller → Option ℕ → ℤ → ℤ → Auth crypto cache (List (Team F))
  unfolding as_user list_teams
  team_list caller org_id page page_size =
      as_user crypto cache caller
        (λ _. on_session crypto cache (list_teams clock org_id page page_size))

  unfoldable pub org_list : Caller → ℤ → ℤ → Auth crypto cache (List (Organization F))
  unfolding as_role list_orgs
  org_list caller page page_size =
      as_role crypto cache admins caller (on_session crypto cache (list_orgs clock page page_size))

  unfoldable pub user_list : Caller → ℤ → ℤ → Auth crypto cache (List (User F))
  unfolding as_role list_users
  user_list caller page page_size =
      as_role crypto cache admins caller (on_session crypto cache (list_users clock page page_size))

  unfoldable pub budget_list : Caller → ℤ → ℤ → Auth crypto cache (List (Budget F))
  unfolding as_role list_budgets
  budget_list caller page page_size =
      as_role crypto cache admins caller
        (on_session crypto cache (list_budgets clock page page_size))
