-- ===== src/Proxy/Admission.antt =====
-- What an answered request has passed.
use Prim.Native.String.{◌++◌ as cat}
use makoto_lite_llm.Base.{
  ℕ, String, ◌≡◌, refl, ap, ◌∙◌, sym, Bool, true, false, Option, none, some, List, Outcome, ok, err,
  bind-ok, if◌then◌else◌, ◌>>◌, ◌==◌, string_eq,
}
use makoto_lite_llm.Base.Text.{count_chars}
use makoto_lite_llm.Dependencies.{KeyCache}
use makoto_lite_llm.Failure.{Failure}
use makoto_lite_llm.Float.{Float}
use makoto_lite_llm.Guard.{
  enforce_model_access, check_budget, check_max, spent_on, estimate_input_tokens,
}
use makoto_lite_llm.Guard.Limits.{Fits, check_rate_limit_iff}
use makoto_lite_llm.Jwt.{Crypto}
use makoto_lite_llm.Models.{User, ApiKey, Team, Organization}
use makoto_lite_llm.Permission.{resolve_model_access}
use makoto_lite_llm.Proxy.{ChatRequest, Draw, ProxyState, team_of, org_of}
use makoto_lite_llm.Proxy.Chat.{
  World, Answer, guard_chain, check_access, check_limits, check_day, check_guards, chat_completions,
  dispatch, messages_json,
}
use makoto_lite_llm.Sdk.Access.{Library}
use makoto_lite_llm.Store.{Db}

-- the allowlists of the optional rows
abbrev pub models_in_team : {F : Type 0} → Option (Team F) → Option (List String)
models_in_team none = none
models_in_team (some t) = t.allowed_models

abbrev pub models_in_org : {F : Type 0} → Option (Organization F) → Option (List String)
models_in_org none = none
models_in_org (some o) = o.allowed_models

abbrev pub Within : (float : Float) → float.Carrier → Option float.Carrier → Type 0
Within float spent none = Unit
Within float spent (some limit) = float.le limit spent ≡ false

-- no budget, or one that is above what the key has spent on the day
abbrev pub WithinBudget : (float : Float) → ℕ → ApiKey float.Carrier → Db float.Carrier → Type 0
WithinBudget float today key db =
    Within float (spent_on float today key.api_key_hash db) key.max_budget

passed_then :
    (b : Bool) (f : Failure)
    → ◌≡◌ {A = Outcome Failure (Unit {0})} (if b then ok tt else err f) (ok tt)
    → b ≡ true
passed_then true f h = refl
passed_then false f h = cc h

passed_else :
    (b : Bool) (f : Failure)
    → ◌≡◌ {A = Outcome Failure (Unit {0})} (if b then err f else ok tt) (ok tt)
    → b ≡ false
passed_else true f h = cc h
passed_else false f h = refl

enforce_model_access-ok :
    {F : Type 0} (model : String) (key : ApiKey F) (team : Option (Team F))
    (org : Option (Organization F))
    → enforce_model_access model (some key) team org ≡ ok tt
    → resolve_model_access model key.allowed_models (models_in_team team) (models_in_org org) ≡ true
unfolding enforce_model_access
enforce_model_access-ok model key none none h = passed_then _ _ h
enforce_model_access-ok model key none (some o) h = passed_then _ _ h
enforce_model_access-ok model key (some t) none h = passed_then _ _ h
enforce_model_access-ok model key (some t) (some o) h = passed_then _ _ h

module _ (float : Float) (crypto : Crypto) (library : Library) (cache : KeyCache float.Carrier)
    (world : World float.Carrier) where
  open float use {Carrier}

  check_max-ok :
      (spent : Carrier) (limit : Option Carrier)
      → check_max float limit spent ≡ ok tt
      → Within float spent limit
  check_max-ok spent none h = tt
  check_max-ok spent (some l) h = passed_else _ _ h

  module _ (draw : Draw) (request : ChatRequest) (key : ApiKey Carrier) (s : ProxyState cache) where
    -- the model is allowed, both limits have room, and the budget is not reached
    abbrev pub Admitted : Type 0
    Admitted =
        let db = s.auth.session.current in
        (resolve_model_access request.model key.allowed_models
            (models_in_team (team_of cache (some key) db))
            (models_in_org (org_of cache (some key) db))
          ≡ true)
        × Fits draw.rpm_time (cat "rpm:" key.api_key_hash) key.rpm_limit 1 s.windows
        × Fits draw.tpm_time (cat "tpm:" key.api_key_hash) key.tpm_limit
            (estimate_input_tokens (
              count_chars (library.dumps (messages_json float crypto library cache world request))))
            s.windows
        × WithinBudget float draw.budget_day key db

    check_guards-Admitted :
        (check_guards float crypto library cache world draw request key s).0 ≡ ok tt → Admitted
    unfolding check_guards check_access check_limits check_day check_budget
    check_guards-Admitted h =
        let access = check_access float crypto library cache world request key in
        let limits = check_limits float crypto library cache world draw request key in
        let day = check_day float crypto library cache world draw key in
        let db = s.auth.session.current in
        let (u, allowed, rest) = bind-ok access (λ _. limits >> day) s h in
        let (v, fits, rest') = bind-ok limits (λ _. day) s (ap (λ r. r.0) (sym rest) ∙ h) in
        let in_limits =
          (check_rate_limit_iff draw.rpm_time draw.tpm_time key
              (estimate_input_tokens (
                count_chars
                  (library.dumps (messages_json float crypto library cache world request))))
              s.windows).0
            fits in
        (
          enforce_model_access-ok request.model key (team_of cache (some key) db)
              (org_of cache (some key) db) allowed,
          in_limits.0,
          in_limits.1,
          check_max-ok (spent_on float draw.budget_day key.api_key_hash db) key.max_budget
              (ap (λ r. r.0) (sym rest') ∙ (ap (λ r. r.0) (sym rest) ∙ h)),
        )

  -- An answered request of a key whose owner is no administrator has passed the guards: the allowlists of the
  -- key, its team and its organization allow the model, both limits of the key had room for the request, and
  -- the key had not reached its budget of the day.
  pub chat_completions-Admitted :
      (draw : Draw) (request : ChatRequest) (user : User Carrier) (key : ApiKey Carrier)
      (s : ProxyState cache) (answer : Answer Carrier)
      → (user.role == "proxy_admin") ≡ false
      → (chat_completions float crypto library cache world draw request user (some key) s).0
        ≡ ok answer
      → Admitted draw request key s
  unfolding chat_completions guard_chain
  chat_completions-Admitted draw request user key s answer other answered =
      let guards = guard_chain float crypto library cache world draw request user (some key) in
      let (u, passed, _) =
        bind-ok guards (λ _. dispatch float crypto library cache world draw request user (some key))
          s answered in
      check_guards-Admitted draw request key s (rw other at passed)
