-- ===== src/Dependencies/ModelAccess.antt =====
-- `require_model_access` of src/app/auth/dependencies.py: the allowlists behind the key of a request.
use Prim.Native.String.{◌++◌}
use package.text.Mathlib.Text.{starts_with}
use makoto_lite_llm.Base.{
  ℕ, String, ◌≡◌, ◌↔◌, refl, true, false, not, Option, none, some, List, [], ◌∷◌, ok, ◌==◌, nat_eq,
  string_eq, pure, raise, ◌>>=◌, keep, if◌then◌else◌, Bool-cases, inl, inr,
}
use makoto_lite_llm.Base.Text.{has_char, behind}
use makoto_lite_llm.Failure.{http_error}
use makoto_lite_llm.Jwt.{Crypto}
use makoto_lite_llm.Models.{User, ApiKey}
use makoto_lite_llm.Permission.{resolve_model_access}
use makoto_lite_llm.Permission.Chain.{Allows, resolve_model_access_iff}
use makoto_lite_llm.Store.{Session, Service, select_one_or_none}
use makoto_lite_llm.Dependencies.{lookup_api_key, key_matches}

-- `auth_header.split(" ", 1)[1] if " " in auth_header else ""`
abbrev pub token_of : String → String
token_of auth_header = if has_char b' ' auth_header then behind b' ' auth_header else ""

module _ {F : Type 0} where
  -- the allowlist of a row, if there are an id and a row for it
  abbrev pub models_of_team : Option ℕ → Service F (Option (List String))
  models_of_team none = pure none
  models_of_team (some id) = do
    team ← select_one_or_none (λ db. db.teams) (λ t. t.id == id)
    pure (elim team [ none ↦ none | some t ↦ t.allowed_models ])

  abbrev pub models_of_org : Option ℕ → Service F (Option (List String))
  models_of_org none = pure none
  models_of_org (some id) = do
    org ← select_one_or_none (λ db. db.organizations) (λ o. o.id == id)
    pure (elim org [ none ↦ none | some o ↦ o.allowed_models ])

  abbrev decide_access :
      String
      → User F
      → Option (List String)
      → Option (List String)
      → Option (List String)
      → Service F (User F)
  decide_access model_name user key_models team_models org_models =
      if resolve_model_access model_name key_models team_models org_models
      then pure user
      else raise (http_error 403 ("Model '" ++ model_name ++ "' is not allowed for this key"))

  abbrev check_lists : String → User F → Option (ApiKey F) → Service F (User F)
  check_lists model_name user none = decide_access model_name user none none none
  check_lists model_name user (some api_key) = do
    team_models ← models_of_team api_key.team_id
    org_models ← models_of_org api_key.org_id
    decide_access model_name user api_key.allowed_models team_models org_models

  -- `model_name` is the path parameter, and `auth_header` the header or the empty text
  unfoldable pub require_model_access :
      Crypto → ℕ → Option String → String → User F → Service F (User F)
  unfolding lookup_api_key
  require_model_access crypto now none auth_header user = pure user
  require_model_access crypto now (some model_name) auth_header user =
      if user.role == "proxy_admin"
      then pure user
      else if not (starts_with (token_of auth_header) "sk-")
      then pure user
      else (do
        api_key ← lookup_api_key now (crypto.sha256_hex (token_of auth_header))
        check_lists model_name user api_key)

  decide_access_iff :
      (model_name : String) (user : User F) (k t o : Option (List String)) (s : Session F)
      → ((decide_access model_name user k t o s).0 ≡ ok user) ↔ Allows k t o model_name
  decide_access_iff model_name user k t o s =
      let allowed = resolve_model_access_iff model_name k t o in
      elim (Bool-cases (resolve_model_access model_name k t o)) [
        | inl free ↦ rw free (λ h. allowed.0 free, λ h. refl)
        | inr over ↦ rw over (λ h. cc h, λ h. cc (over, allowed.1 h))
      ]

  -- If the user is no proxy_admin, the header holds a token that starts with `sk-`, exactly one row
  -- answers to its hash, and the team and the organization of that row are found by queries that raise
  -- nothing, then access to a model is given exactly when the allowlists of the key, the team and the
  -- organization allow it.
  pub require_model_access_iff :
      (crypto : Crypto) (now : ℕ) (model_name auth_header : String) (user : User F) (s : Session F)
      (key : ApiKey F) (team_models org_models : Option (List String))
      → (user.role == "proxy_admin") ≡ false
      → starts_with (token_of auth_header) "sk-" ≡ true
      → keep (key_matches (crypto.sha256_hex (token_of auth_header)) now) s.current.api_keys
        ≡ key ∷ []
      → models_of_team key.team_id s ≡ (ok team_models, s)
      → models_of_org key.org_id s ≡ (ok org_models, s)
      → ((require_model_access crypto now (some model_name) auth_header user s).0 ≡ ok user)
        ↔ Allows key.allowed_models team_models org_models model_name
  unfolding require_model_access
  require_model_access_iff crypto now model_name auth_header user s key team_models org_models plain
        is_key found team org =
      rw (plain, is_key, found, team, org)
        (decide_access_iff model_name user key.allowed_models team_models org_models s)
