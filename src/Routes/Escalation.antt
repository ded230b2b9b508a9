-- ===== src/Routes/Escalation.antt =====
-- The key that any user may make, before the guards of the proxy.
use makoto_lite_llm.Base.{
  ℕ, String, ◌≡◌, refl, false, none, some, [], ◌∷◌, ◌++◌, ok, any, ◌==◌, string_eq, Bool-cases, inl,
  inr,
}
use makoto_lite_llm.Dependencies.{KeyCache, AuthState, get_current_user}
use makoto_lite_llm.Float.{Float}
use makoto_lite_llm.Guard.{enforce_model_access, check_rate_limit, check_budget}
use makoto_lite_llm.Jwt.{Crypto}
use makoto_lite_llm.Keys.{KeyRequest, new_key, generate_key}
use makoto_lite_llm.Models.{User, ApiKey}
use makoto_lite_llm.Permission.{resolve_model_access, model_is_allowed}
use makoto_lite_llm.Proxy.{ChatRequest, Draw, ProxyState}
use makoto_lite_llm.Proxy.Chat.{
  World, guard_chain, check_guards, check_access, check_limits, check_day,
}
use makoto_lite_llm.Routes.{Caller, as_user}
use makoto_lite_llm.Routes.Keys.{generate}
use makoto_lite_llm.Sdk.Access.{Library}

-- a body that names no team, no organization and no restriction
abbrev pub unrestricted : {F : Type 0} → ℕ → KeyRequest F
unrestricted user_id = record {
  user_id = user_id;
  key_alias = none;
  team_id = none;
  org_id = none;
  allowed_models = none;
  max_budget = none;
  tpm_limit = none;
  rpm_limit = none;
  max_parallel_requests = none;
  expires_at = none;
  metadata = none;
}

module _ (float : Float) (crypto : Crypto) (library : Library) (cache : KeyCache float.Carrier)
    (world : World float.Carrier) where
  open float use {Carrier}

  free_passes :
      (row_id : ℕ) (raw_key : String) (user : User Carrier) (draw : Draw) (request : ChatRequest)
      (state : ProxyState cache)
      → let key = new_key crypto float.zero row_id raw_key (unrestricted user.id) in
        (guard_chain float crypto library cache world draw request user (some key) state).0 ≡ ok tt
  unfolding guard_chain check_guards check_access check_limits check_day enforce_model_access
      check_rate_limit check_budget resolve_model_access model_is_allowed
  free_passes row_id raw_key user draw request state =
      elim (Bool-cases (user.role == "proxy_admin")) [
        | inl admin ↦ rw admin refl
        | inr other ↦ rw other refl
      ]

  -- A caller who authenticates, with whatever role and by a token or by a key with whatever restrictions, makes
  -- a key of their own with a body that names no restriction: the key is committed, if its hash is new, and it
  -- passes the guards of the proxy for any request at any time.
  pub generate-unrestricted :
      (row_id other : ℕ) (raw_key : String) (caller : Caller) (s s' : AuthState cache)
      (user : User Carrier) (draw : Draw) (request : ChatRequest) (state : ProxyState cache)
      → get_current_user crypto cache caller.0 caller.1 s ≡ (ok user, s')
      → any (λ k. k.api_key_hash == crypto.sha256_hex raw_key) s'.session.current.api_keys ≡ false
      → let (result, after) =
          generate crypto cache float.zero row_id raw_key caller (unrestricted other) s in
        (key : ApiKey Carrier) × (result ≡ ok (raw_key, key))
        × (key.user_id ≡ user.id)
        × (after.session.committed.api_keys ≡ s'.session.current.api_keys ++ key ∷ [])
        × ((guard_chain float crypto library cache world draw request user (some key) state).0
            ≡ ok tt)
  unfolding generate as_user generate_key
  generate-unrestricted row_id other raw_key (now, header) s s' user draw request state
        authenticated fresh =
      rw (authenticated, fresh)
        (
          new_key crypto float.zero row_id raw_key (unrestricted user.id),
          refl,
          refl,
          refl,
          free_passes row_id raw_key user draw request state,
        )
