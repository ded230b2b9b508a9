-- ===== src/Tests/Manage.antt =====
-- Organizations, users and the management routes, on concrete inputs.
use Prim.Native.String.{◌++◌ as cat}
use mathlib.Core.List.{Perm}
use makoto_lite_llm.Auth as Auth
use makoto_lite_llm.Auth.{new_pair, reset_attempts}
use makoto_lite_llm.Base.{
  ℕ, String, ◌≡◌, refl, true, false, none, some, List, [], ◌∷◌, ok, err, keep, ◌==◌, nat_eq,
  string_eq, arith,
}
use makoto_lite_llm.Base.Text.{behind}
use makoto_lite_llm.Dependencies.{
  AuthState, authenticate_api_key, check_key, get_current_user, on_session,
}
use makoto_lite_llm.Failure.{http_error}
use makoto_lite_llm.Jwt.{create_access_token, create_refresh_token}
use makoto_lite_llm.Base.Int.{pos}
use makoto_lite_llm.Listing.{Clock, list_keys}
use makoto_lite_llm.Listing.Pages.{first_pages, IsNewestFirst, list_keys-pages}
use makoto_lite_llm.Models.{ApiKey, Organization}
use makoto_lite_llm.Orgs.{delete_org}
use makoto_lite_llm.Orgs.Cascade.{teams_of, is_of, is_of_any, delete_org-cascade}
use makoto_lite_llm.Proxy.Chat.{guard_chain}
use makoto_lite_llm.Routes.Escalation.{unrestricted, generate-unrestricted}
use makoto_lite_llm.Routes.Keys.{generate}
use makoto_lite_llm.Routes.Login.{login}
use makoto_lite_llm.Routes.Login.Access.{login-access}
use makoto_lite_llm.Routes.Roles.{call_delete_org, serve, serve_forbidden}
use makoto_lite_llm.Store.{Session, open_session}
use makoto_lite_llm.Teams.{is_id}
use makoto_lite_llm.Tests.Chat.{library, world, draw, hello, state}
use makoto_lite_llm.Tests.Codec.{plain_crypto, encode_plain}
use makoto_lite_llm.Tests.Values.{ann, ann_key, at_office, office, blue, key_cache, settings, whole}
use makoto_lite_llm.Users.Unique.Reach.{blocked as is_now_blocked}
use makoto_lite_llm.Users.{create_user, UserRequest, block_user}
use makoto_lite_llm.Users.Blocking.{blocked, block_user-locks_out}

abbrev acme : Organization ℕ
acme = record {
  id = 50;
  name = "acme";
  slug = "acme";
  max_budget = none;
  soft_budget = none;
  budget_id = none;
  tpm_limit = none;
  rpm_limit = none;
  allowed_models = none;
  is_blocked = false;
  metadata_json = none;
}

-- the office with an organization that has the team
abbrev company : Session ℕ
company =
    open_session
      (record office { organizations = acme ∷ []; teams = record blue { org_id = some 50 } ∷ [] })

delete_org-cascade_example :
    let (result, after) = delete_org 50 company in
    let db = after.committed in
    (result ≡ ok true)
    × (keep (λ o. o.id == 50) db.organizations ≡ [])
    × (keep (λ m. m.org_id == 50) db.org_memberships ≡ [])
    × (keep (λ k. is_id k.org_id 50) db.api_keys ≡ [])
    × (keep (λ t. is_id t.org_id 50) db.teams ≡ [])
    × (keep (λ k. is_of_any (teams_of 50 company.current) k.team_id) db.api_keys ≡ [])
    × (keep (λ p. is_of (teams_of 50 company.current) p.team_id) db.projects ≡ [])
    × (keep (λ m. is_of (teams_of 50 company.current) m.team_id) db.team_memberships ≡ [])
delete_org-cascade_example = delete_org-cascade 50 company acme refl

abbrev at_desk : AuthState key_cache
at_desk = record { session = at_office; key_cache = [] }

block_user-locks_out_example :
    let token = create_access_token plain_crypto settings 100 1 "member" in
    let (result, after) = on_session plain_crypto key_cache (block_user 1 true) at_desk in
    (result ≡ ok (some (blocked plain_crypto settings key_cache ann)))
    × (keep (λ u. u.id == 1) after.session.committed.users
        ≡ blocked plain_crypto settings key_cache ann ∷ [])
    × ((get_current_user plain_crypto key_cache 100 (some (cat "Bearer " token)) after).0
        ≡ err (http_error 401 "User not found or blocked"))
unfolding create_access_token encode_plain
block_user-locks_out_example =
    block_user-locks_out plain_crypto settings key_cache 100 100 ann "member" at_desk refl
      (omega arith) (omega arith) refl

abbrev bob : UserRequest ℕ
bob = record {
  email = "bob@x";
  password = some "pw";
  name = none;
  role = "member";
  max_budget = none;
  metadata = none;
}

generate-unrestricted_example :
    let (result, after) =
      generate plain_crypto key_cache 0 9 "sk-new"
        (100, some "Bearer sk-1")
        (unrestricted 8)
        at_desk in
    (key : ApiKey ℕ) × (result ≡ ok ("sk-new", key))
    × (key.user_id ≡ 1)
    × (after.session.committed.api_keys ≡ ann_key ∷ key ∷ [])
    × ((guard_chain whole plain_crypto library key_cache world draw hello ann (some key) state).0
        ≡ ok tt)
unfolding get_current_user behind authenticate_api_key check_key
generate-unrestricted_example =
    generate-unrestricted whole plain_crypto library key_cache world 9 8 "sk-new"
      (100, some "Bearer sk-1") at_desk
      (get_current_user plain_crypto key_cache 100 (some "Bearer sk-1") at_desk).1 ann draw hello
      state refl refl

serve_forbidden_example :
    serve whole plain_crypto key_cache (100, some "Bearer sk-1") (call_delete_org 50) at_desk ≡ (
      err (http_error 403 "Insufficient permissions"),
      (get_current_user plain_crypto key_cache 100 (some "Bearer sk-1") at_desk).1,
    )
unfolding get_current_user behind authenticate_api_key check_key
serve_forbidden_example =
    serve_forbidden whole plain_crypto key_cache (call_delete_org 50) (100, some "Bearer sk-1")
      at_desk (get_current_user plain_crypto key_cache 100 (some "Bearer sk-1") at_desk).1 ann refl
      refl

abbrev at_login : Auth.Draw
at_login = record { now = 100; jti = 2; row_id = 30 }

login-access_example :
    let (result, after) =
      on_session plain_crypto key_cache
        (login plain_crypto settings 100 100 at_login "ann@x" "pw")
        at_desk in
    (result ≡ ok (new_pair plain_crypto settings at_login ann))
    × (get_current_user plain_crypto key_cache 100
          (some (cat "Bearer " (new_pair plain_crypto settings at_login ann).access_token))
          after
        ≡ (ok (reset_attempts plain_crypto settings ann), after))
unfolding create_access_token create_refresh_token encode_plain
login-access_example =
    login-access plain_crypto settings key_cache 100 100 100 at_login "pw" "pw" at_desk ann refl
      refl refl refl refl refl refl refl (omega arith) (omega arith)

abbrev clock : Clock
clock = record { created_at = λ id. id; place = λ page id. 0 }

list_keys-pages_example :
    (rows : List (ApiKey ℕ)) × (first_pages
        (λ page. list_keys clock (some 1) none none (pos page) (pos 1))
        2
        at_office
      ≡ (ok rows, at_office))
    × Perm rows (ann_key ∷ [])
    × IsNewestFirst (λ k. clock.created_at k.id) rows
list_keys-pages_example =
    list_keys-pages clock (some 1) none none 1 2 at_office (tt, tt) (omega arith)

-- bob is created, and ann blocked
abbrev two_calls : Session ℕ
two_calls = (block_user 1 true (create_user whole plain_crypto 2 bob at_office).1).1
