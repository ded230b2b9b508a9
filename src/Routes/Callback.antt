-- ===== src/Routes/Callback.antt =====
-- src/app/routes/sso_routes.py: `authorize` and `callback`, over the services of SSO, the client of the identity
-- provider and the issue of tokens. What a handler draws is an argument; the answer is the URL of the redirect.
pub mod Claims
pub mod Once
pub mod Outsider
pub mod Stored
pub mod Admission
pub mod Requests
use Prim.Native.String.{◌++◌ as cat}
use makoto_lite_llm.Auth as Auth
use makoto_lite_llm.Auth.{TokenPair, create_tokens}
use makoto_lite_llm.Base.{
  ℕ, suc, String, Option, none, some, List, [], ◌∷◌, Outcome, ok, err, pure, lift, modify, ◌>>=◌,
  ◌>>◌,
}
use makoto_lite_llm.Base.Outcomes.{need}
use makoto_lite_llm.Cache.{TtlCache}
use makoto_lite_llm.Config.{Settings}
use makoto_lite_llm.Failure.{Failure, http_error, uncaught}
use makoto_lite_llm.Json.{Json, Fields, get}
use makoto_lite_llm.Jwt.{Crypto}
use makoto_lite_llm.Models.{User, SsoConfig}
use makoto_lite_llm.Oidc.{Network, value_at, exchange_code, fetch_userinfo}
use makoto_lite_llm.Routes.Callback.Claims.{fields_of, identify, groups_of}
use makoto_lite_llm.Secrets.{Cipher, decrypt}
use makoto_lite_llm.Sso.{
  LoginState, Claimed, validate_and_consume_state, get_sso_config, provision_sso_user,
  map_groups_to_teams,
}
use makoto_lite_llm.Sso.Authorize.{
  Web, SsoState, Flow, on_database, on_connection, open_client, build_authorize_url,
}

-- the id that each row of a membership in a team would get, by the position of its group
abbrev pub with_ids : (ℕ → ℕ) → ℕ → List String → List (String × ℕ)
with_ids row_id n [] = []
with_ids row_id n (group ∷ groups) = (group, row_id n) ∷ with_ids row_id (suc n) groups

-- what the callback draws: the time at which it reads the state, the ids of the new rows, and those of the tokens
pub record CallbackDraw : Type 0 where
  pub now : ℕ
  pub user_id : ℕ
  pub member_id : ℕ
  pub group_ids : ℕ → ℕ
  pub tokens : Auth.Draw

abbrev pub callback_url_of : Settings → String
callback_url_of settings = cat settings.base_url "/sso/callback"

-- what the handlers have from outside: the parser of UUIDs, the cipher, and the zero of floats
pub record Outside (F : Type 0) : Type 1 where
  pub web : Web
  pub network : Network
  pub parse_uuid : String → Option ℕ
  pub cipher : Cipher
  pub nothing : F

abbrev pub or_400 : Option LoginState → Outcome Failure LoginState
or_400 none = err (http_error 400 "Invalid or expired state parameter")
or_400 (some login) = ok login

abbrev pub config_or_404 : Option SsoConfig → Outcome Failure SsoConfig
config_or_404 none = err (http_error 404 "SSO config not found")
config_or_404 (some config) = ok config

abbrev pub url_or_404 : Option (String × String) → Outcome Failure String
url_or_404 none = err (http_error 404 "SSO config not found for this organization")
url_or_404 (some (url, state)) = ok url

abbrev pub redirect_url : Settings → TokenPair → String
redirect_url settings pair =
    cat settings.sso_dashboard_redirect_url
      (cat "?access_token=" (cat pair.access_token (cat "&refresh_token=" pair.refresh_token)))

module _ {F : Type 0} (crypto : Crypto) (settings : Settings) (states : TtlCache String LoginState)
    (o : Outside F) where
  unfoldable pub authorize : ℕ → String → String → ℕ → Flow F states String
  unfolding build_authorize_url
  authorize now state verifier org_id = do
    result ←
        build_authorize_url F states o.web o.network now state verifier org_id
          (callback_url_of settings)
    lift (url_or_404 result)

  -- step 1
  unfoldable pub take_state : ℕ → String → Flow F states (Option LoginState)
  unfolding validate_and_consume_state
  take_state now state s =
      let (content, logins) = validate_and_consume_state states now state s.logins in
      (ok content, record s { logins = logins })

  -- step 4, to the claims
  abbrev pub ask_claims : Json → Flow F states Fields
  ask_claims tokens = do
    access_token ← lift (value_at "access_token" tokens)
    claims ← on_connection F states (fetch_userinfo o.network o.web.show access_token)
    lift (fields_of claims)

  -- step 3, and the claims
  unfoldable pub exchange : SsoConfig → String → String → Flow F states Fields
  unfolding exchange_code fetch_userinfo decrypt
  exchange config verifier code = do
    client_secret ←
        lift
          (need uncaught (decrypt o.cipher settings.encryption_key config.client_secret_encrypted))
    open_client F states config.issuer_url
    tokens ← on_connection F states (
        exchange_code o.network o.web.show code (callback_url_of settings) config.client_id
          client_secret (some verifier))
    ask_claims tokens

  -- step 7; a rollback in it expires the user, who is read as before here
  abbrev pub join_groups :
      (ℕ → ℕ) → User F → Fields → Option (List (String × String)) → Flow F states Unit
  join_groups row_id user claims none = pure tt
  join_groups row_id user claims (some []) = pure tt
  join_groups row_id user claims (some (p ∷ mapping)) = do
    groups ← lift (groups_of (get "groups" claims))
    on_database F states
        (map_groups_to_teams o.parse_uuid user.id (with_ids row_id 0 groups) (p ∷ mapping))

  -- steps 8 and 9
  unfoldable pub issue : Auth.Draw → User F → Flow F states String
  unfolding create_tokens
  issue draw user = do
    pair ← on_database F states (create_tokens crypto settings draw user none none)
    pure (redirect_url settings pair)

  -- step 6
  abbrev pub provision : CallbackDraw → Claimed → Flow F states (User F)
  provision draw claimed =
      on_database F states (provision_sso_user o.nothing draw.user_id draw.member_id claimed)

  -- steps 4 to 9, from the claims
  unfoldable pub log_in : CallbackDraw → SsoConfig → Fields → Flow F states String
  unfolding identify provision_sso_user map_groups_to_teams issue
  log_in draw config claims = do
    claimed ← lift (identify config claims)
    user ← provision draw claimed
    join_groups draw.group_ids user claims config.group_to_team_mapping
    issue draw.tokens user

  -- a state that is stored always has its organization
  unfoldable pub callback : CallbackDraw → String → String → Flow F states String
  unfolding take_state get_sso_config exchange log_in
  callback draw code state = do
    state_data ← take_state draw.now state
    login ← lift (or_400 state_data)
    found ← on_database F states (get_sso_config login.org_id)
    config ← lift (config_or_404 found)
    claims ← exchange config login.verifier code
    log_in draw config claims
