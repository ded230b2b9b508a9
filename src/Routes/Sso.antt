-- ===== src/Routes/Sso.antt =====
-- src/app/routes/sso_routes.py and src/app/schemas/wire_out/sso.py: the routes of the configuration, and its
-- response, which masks the secret. The nonce of the encryption is an argument; `created_at` is left out.
use makoto_lite_llm.Base.{ℕ, String, Bool, Option, List, pure, ◌>>=◌}
use makoto_lite_llm.Config.{Settings}
use makoto_lite_llm.Dependencies.{KeyCache, Auth, on_session}
use makoto_lite_llm.Jwt.{Crypto}
use makoto_lite_llm.Models.{SsoConfig}
use makoto_lite_llm.Routes.{Caller, as_role, or_missing, unless_missing, or_conflict}
use makoto_lite_llm.Routes.Tenants.{admins}
use makoto_lite_llm.Secrets.{Cipher, encrypt}
use makoto_lite_llm.Sso.{SsoRequest, create_sso_config, get_sso_config, delete_sso_config}

pub record SsoConfigResponse : Type 0 where
  pub id : ℕ
  pub org_id : ℕ
  pub provider : String
  pub client_id : String
  pub client_secret : String
  pub issuer_url : String
  pub allowed_domains : Option (List String)
  pub group_to_team_mapping : Option (List (String × String))
  pub auto_create_user : Bool
  pub default_role : String
  pub is_active : Bool

abbrev pub mask_secret : SsoConfig → SsoConfigResponse
mask_secret config = record {
  id = config.id;
  org_id = config.org_id;
  provider = config.provider;
  client_id = config.client_id;
  client_secret = "***";
  issuer_url = config.issuer_url;
  allowed_domains = config.allowed_domains;
  group_to_team_mapping = config.group_to_team_mapping;
  auto_create_user = config.auto_create_user;
  default_role = config.default_role;
  is_active = config.is_active;
}

module _ {F : Type 0} (crypto : Crypto) (cache : KeyCache F) where
  unfoldable pub sso_create :
      (cipher : Cipher)
      → Settings
      → List cipher.Byte
      → ℕ
      → Caller
      → SsoRequest
      → Auth crypto cache SsoConfigResponse
  unfolding as_role create_sso_config encrypt
  sso_create cipher settings nonce row_id caller body = as_role crypto cache admins caller (do
    config ← or_conflict crypto cache (
        on_session crypto cache
          (create_sso_config (encrypt cipher settings.encryption_key nonce) row_id body))
    pure (mask_secret config))

  unfoldable pub sso_get : Caller → ℕ → Auth crypto cache SsoConfigResponse
  unfolding as_role get_sso_config
  sso_get caller org_id = as_role crypto cache admins caller (do
    found ← on_session crypto cache (get_sso_config org_id)
    config ← or_missing crypto cache "SSO config not found" found
    pure (mask_secret config))

  unfoldable pub sso_delete : Caller → ℕ → Auth crypto cache Unit
  unfolding as_role delete_sso_config
  sso_delete caller org_id = as_role crypto cache admins caller (do
    deleted ← on_session crypto cache (delete_sso_config org_id)
    unless_missing crypto cache "SSO config not found" deleted)
