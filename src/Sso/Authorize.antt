-- ===== src/Sso/Authorize.antt =====
-- src/app/services/sso_service.py: the start of a login at the identity provider. The state of a login is the
-- session, the store of states, and the connection to the provider.
use Prim.Native.String.{◌++◌ as cat}
use makoto_lite_llm.Base.{
  ℕ, String, Option, none, some, List, [], ◌∷◌, Action, pure, lift, modify, ◌>>=◌, ◌>>◌,
}
use makoto_lite_llm.Base.Text.{rstrip}
use makoto_lite_llm.Cache.{TtlCache}
use makoto_lite_llm.Failure.{Failure}
use makoto_lite_llm.Json.{Json}
use makoto_lite_llm.Models.{SsoConfig}
use makoto_lite_llm.Oidc.{Network, Connection, new_client, value_at, discover}
use makoto_lite_llm.Sso.{LoginState, get_sso_config, store_state}
use makoto_lite_llm.Store.{Session, Service}

-- `urlencode`, `urlsafe_b64encode(sha256(…).digest())` with its padding, and `str` of a JSON value
pub record Web : Type 0 where
  pub urlencode : List (String × String) → String
  pub urlsafe_sha256 : String → String
  pub show : Json → String

-- the challenge of `generate_pkce_pair`; the verifier is drawn
abbrev pub challenge_of : Web → String → String
challenge_of web verifier = rstrip b'=' (web.urlsafe_sha256 verifier)

abbrev pub authorize_params : Web → SsoConfig → String → String → String → List (String × String)
authorize_params web config callback_url state verifier =
    ("client_id", config.client_id)
    ∷ ("redirect_uri", callback_url)
    ∷ ("response_type", "code")
    ∷ ("scope", "openid email profile")
    ∷ ("state", state)
    ∷ ("code_challenge", challenge_of web verifier)
    ∷ ("code_challenge_method", "S256")
    ∷ []

pub record SsoState (F : Type 0) (states : TtlCache String LoginState) : Type 0 where
  pub session : Session F
  pub logins : states.Store
  pub connection : Connection

module _ (F : Type 0) (states : TtlCache String LoginState) where
  abbrev pub Flow : Type 0 → Type 0
  Flow A = Action (SsoState F states) Failure A

  abbrev pub on_database : {A : Type 0} → Service F A → Flow A
  on_database m s = let (r, session) = m s.session in (r, record s { session = session })

  abbrev pub on_connection : {A : Type 0} → Action Connection Failure A → Flow A
  on_connection m s =
      let (r, connection) = m s.connection in (r, record s { connection = connection })

  -- `OIDCClient(issuer_url=…)`
  abbrev pub open_client : String → Flow Unit
  open_client issuer_url =
      modify (λ s. record s { connection = record s.connection { client = new_client issuer_url } })

  module _ (web : Web) (network : Network) where
    -- the endpoint may be any JSON value, which the f-string shows
    abbrev pub authorize_found :
        ℕ → String → String → String → ℕ → Option SsoConfig → Flow (Option (String × String))
    authorize_found now state verifier callback_url org_id none = pure none
    authorize_found now state verifier callback_url org_id (some config) = do
      modify (λ s. record s {
        logins =
            store_state states now state (record { verifier = verifier; org_id = org_id }) s.logins;
      })
      open_client config.issuer_url
      discovery ← on_connection (discover network web.show)
      endpoint ← lift (value_at "authorization_endpoint" discovery)
      pure (
          some (
            cat (web.show endpoint)
                (cat "?" (web.urlencode (authorize_params web config callback_url state verifier))),
            state,
          ))

    unfoldable pub build_authorize_url :
        ℕ → String → String → ℕ → String → Flow (Option (String × String))
    unfolding get_sso_config discover store_state
    build_authorize_url now state verifier org_id callback_url = do
      config ← on_database (get_sso_config org_id)
      authorize_found now state verifier callback_url org_id config
