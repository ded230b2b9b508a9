-- ===== src/Lib.antt =====
-- makoto-lite-llm is a proxy in front of LLM providers, with users, organizations, teams, API keys,
-- rate limits and the accounting of spend. This library models its services in src/app.
--
-- The parts, and the files that model them:
--   Permission     src/app/services/permission_service.py: resolve_model_access and the patterns
--   RateLimiter    src/app/services/rate_limiter.py: SlidingWindowRateLimiter, its windows as a list
--   Models, Json   src/app/models: the rows of the tables as records
--   Store          the session of SQLAlchemy: the tables with the pending changes beside the committed
--                  ones; Store.Queries has the lemmas on queries after updates
--   Failure        src/app/exceptions.py, HTTPException and the errors of the database layer
--   Config, Jwt    src/app/config.py, src/app/auth/jwt_handler.py, src/app/auth/password.py
--   Auth           src/app/services/auth_service.py: authenticate_user, create_tokens, refresh_tokens,
--                  revoke_refresh_token, revoke_all_user_tokens and the password reset
--   Cache          cachetools.TTLCache, an interface with what its documentation says
--   Dependencies   src/app/auth/dependencies.py: who makes a request, by JWT or by API key,
--                  and require_model_access (in Dependencies.ModelAccess)
--   Keys           src/app/services/key_service.py: generation, update, rotation, blocking, deletion
--   Spend, Float   src/app/services/spend_service.py: log_spend and the four daily tables
--   Teams          src/app/services/team_service.py: teams, members and the cascade of a deletion
--   Orgs, Users, Budgets
--                  src/app/services/org_service.py, user_service.py and budget_service.py
--   Routes         src/app/routes/{key,team,org,user,budget,auth,sso}_routes.py: who may call the
--                  services, and how their results are answered; Routes.Callback has authorize and
--                  callback, from the state of a login to the tokens, over Sso, Oidc, Secrets and Auth
--   Listing        list_keys, list_teams, list_orgs, list_users and list_budgets of these services
--   Sso            src/app/services/sso_service.py: configurations, states, provision_sso_user and
--                  map_groups_to_teams; Sso.Authorize has build_authorize_url
--   Oidc           src/app/services/oidc_client.py: the requests to an identity provider
--   Secrets        src/app/auth/crypto.py: encrypt and decrypt
--   Application    src/app/main.py: openai_shape_error_handler
--   Audit          src/app/services/audit_service.py: log_action and log_deletion
--   Sdk            src/app/sdk/exceptions.py and resolver.py: the errors, and resolve_provider;
--                  Sdk.Types, Sdk.Openai, Sdk.Anthropic, Sdk.Cost, Sdk.Completion and Sdk.Stream:
--                  types.py, the two providers, cost.py, main.py (acompletion) and the streams of
--                  http_client.py; Sdk.Pool: its clients, with concurrent calls; Sdk.Access has the
--                  raising reads of a JSON value
--   Guard          src/app/services/proxy_guard.py: the checks before a call of a provider, over
--                  RateLimiter and Permission
--   Proxy          src/app/routes/proxy_routes.py: POST /v1/chat/completions over Dependencies, Guard,
--                  Sdk and Spend; Proxy.Chat has the handler and the generator of a stream's events;
--                  Proxy.Booked says what the row of a request should have
--   Base           shared types, tests, lists and strings; Base.Raising is the monad of the services
--   Tests          concrete parameters and rows, and the theorems applied to them
-- The services are state passing: a service takes a session and returns a result or an error beside the
-- session that it leaves, so that a change before a raise stays pending until a rollback. Key service and
-- dependencies share the cache of API keys (AuthState).
--
-- Correspondence: functions and fields have the names of the source. A date or time is a natural number,
-- in microseconds, a UUID is a number, and what a call draws (the time, ids, random texts) is an argument.
-- The rate limiter reads its clock as an integer, since it subtracts. Floats are a parameter without laws.
-- No recursion needs fuel: every loop of the modelled code is over a list. A stream is the list of what
-- it yields with its ending, and a client leaves at the yield of a number. The requests sent upstream are
-- a list in the state of the endpoint.
--
-- Parameters for code outside the repository: Crypto (SHA-256, bcrypt, PyJWT), TtlCache (cachetools),
-- Cipher (AES-GCM, base64, UTF-8), Float, the parser of UUIDs, Library (the json module, str, lower and
-- strip), Web (urlencode and the digest of PKCE), Network (what httpx answers to the requests to an
-- identity provider) and World (the settings, the prices, what httpx answers and pydantic's text of a
-- chunk). Their laws are fields of the records, and the modules of Tests give instances. The times at
-- which the database created the rows, and the order that it gives to rows of one time for each page, are
-- a parameter of the listings (Clock).
--
-- Not modelled: the classes of schemas that only declare fields, migrations, the list of
-- routers. Values of another type than the code expects are refused where pydantic would
-- convert them, and a claim of another type raises. Foreign keys are not enforced, `flush` and `commit`
-- raise nothing but IntegrityError, sessions run one after another, and no await is interrupted. A row that
-- a rollback has expired is read as before, also by `create_tokens` in the callback, where an async session
-- would refuse to load it. Headers that the client gives as a list of pairs are refused (Sdk.Openai).
pub mod Base
pub mod Permission
pub mod RateLimiter
pub mod Json
pub mod Models
pub mod Failure
pub mod Store
pub mod Config
pub mod Jwt
pub mod Auth
pub mod Cache
pub mod Dependencies
pub mod Keys
pub mod Float
pub mod Spend
pub mod Teams
pub mod Orgs
pub mod Users
pub mod Budgets
pub mod Sso
pub mod Oidc
pub mod Secrets
pub mod Listing
pub mod Sdk
pub mod Guard
pub mod Proxy
pub mod Routes
pub mod Application
pub mod Audit
pub mod Tests
