-- ===== src/Proxy/Statuses.antt =====
-- The statuses with which `chat_completions` fails.
use mathlib.Core.Path.{subst}
use makoto_lite_llm.Base.{
  ℕ, ◌≤◌, String, ◌≡◌, refl, Bool, true, false, Option, none, some, Outcome, ok, err, ◌>>◌, arith,
  Bool-cases, inl, inr, lift, pure, ◌==◌, string_eq, if◌then◌else◌,
}
use makoto_lite_llm.Base.Int.{ℤ}
use makoto_lite_llm.Base.Text.{count_chars}
use makoto_lite_llm.Config.{Settings}
use makoto_lite_llm.Dependencies.{KeyCache}
use makoto_lite_llm.Failure.{Failure, Detail, http}
use makoto_lite_llm.Float.{Float}
use makoto_lite_llm.Guard.{
  enforce_model_access, check_budget, check_max, spent_on, estimate_input_tokens,
  resolve_provider_api_key, key_or_raise,
}
use makoto_lite_llm.Guard.Limits.{IsLimitError, check_rate_limit_refused}
use makoto_lite_llm.Jwt.{Crypto}
use makoto_lite_llm.Models.{User, ApiKey, Team, Organization}
use makoto_lite_llm.Proxy.{
  ChatRequest, Draw, ProxyState, team_of, org_of, on_requests, on_db, provider_part, or_failure,
  without_nulls,
}
use makoto_lite_llm.Proxy.Chat.{
  World, whole, streaming, check_access, check_limits, check_day, check_guards, guard_chain,
  complete, prepare, dispatch, chat_completions, messages_json, response_row,
}
use makoto_lite_llm.Proxy.Failures.{IsError, Fails, Fails-bind, or_failure-Fails, log_spend-Fails}
use makoto_lite_llm.Sdk.Access.{Library}
use makoto_lite_llm.Sdk.Completion.{acompletion, build_request}
use makoto_lite_llm.Spend.{log_spend}

unless_http :
    (b : Bool) (status : ℕ) (detail : Detail)
    → 400 ≤ status
    → status ≤ 504
    → Fails {A = Unit} (if b then ok tt else err (http status detail none))
unless_http true status detail low high = tt
unless_http false status detail low high = (low, high)

when_http :
    (b : Bool) (status : ℕ) (detail : Detail)
    → 400 ≤ status
    → status ≤ 504
    → Fails {A = Unit} (if b then err (http status detail none) else ok tt)
when_http true status detail low high = (low, high)
when_http false status detail low high = tt

access-Fails :
    {F : Type 0} (model : String) (key : ApiKey F) (team : Option (Team F))
    (org : Option (Organization F))
    → Fails (enforce_model_access model (some key) team org)
unfolding enforce_model_access
access-Fails model key team org = unless_http _ 403 _ (omega arith) (omega arith)

key_or_raise-Fails : (provider : String) (key : Option String) → Fails (key_or_raise provider key)
key_or_raise-Fails provider none = (omega arith, omega arith)
key_or_raise-Fails provider (some key) = tt

resolve_provider_api_key-Fails :
    (provider : String) (settings : Settings) → Fails (resolve_provider_api_key provider settings)
unfolding resolve_provider_api_key
resolve_provider_api_key-Fails provider settings = elim (Bool-cases (provider == "openai")) [
  | inl e ↦ rw e (key_or_raise-Fails provider settings.openai_api_key)
  | inr e ↦ elim (Bool-cases (provider == "anthropic")) [
    | inl e' ↦ rw (e, e') (key_or_raise-Fails provider settings.anthropic_api_key)
    | inr e' ↦ rw (e, e') (omega arith, omega arith)
  ]
]

IsLimitError-IsError : (f : Failure) → IsLimitError f → IsError f
IsLimitError-IsError f (message, wait, e, positive) = rw e (omega arith, omega arith)

Fails-from :
    {A : Type 0} (r : Outcome Failure A) → ((f : Failure) → r ≡ err f → IsError f) → Fails r
Fails-from (ok a) h = tt
Fails-from (err f) h = h f refl

failure_of : {A : Type 0} {f g : Failure} → ◌≡◌ {A = Outcome Failure A} (err f) (err g) → f ≡ g
failure_of h = cc

module _ (float : Float) (crypto : Crypto) (library : Library) (cache : KeyCache float.Carrier)
    (world : World float.Carrier) where
  open float use {Carrier}

  check_max-Fails : (limit : Option Carrier) (spent : Carrier) → Fails (check_max float limit spent)
  check_max-Fails none spent = tt
  check_max-Fails (some l) spent = when_http _ 429 _ (omega arith) (omega arith)

  check_guards-Fails :
      (draw : Draw) (request : ChatRequest) (key : ApiKey Carrier) (s : ProxyState cache)
      → Fails (check_guards float crypto library cache world draw request key s).0
  unfolding check_guards check_access check_limits check_day check_budget
  check_guards-Fails draw request key =
      let limits = check_limits float crypto library cache world draw request key in
      let day = check_day float crypto library cache world draw key in
      Fails-bind (check_access float crypto library cache world request key) (λ _. limits >> day)
        (λ s.
          access-Fails request.model key (team_of cache (some key) s.auth.session.current)
            (org_of cache (some key) s.auth.session.current))
        (λ _.
          Fails-bind limits (λ _. day)
            (λ s. Fails-from _ (λ f e. IsLimitError-IsError f (
              check_rate_limit_refused draw.rpm_time draw.tpm_time key
                (estimate_input_tokens (
                  count_chars
                    (library.dumps (messages_json float crypto library cache world request))))
                s.windows f e)))
            (λ _ s.
              check_max-Fails key.max_budget
                (spent_on float draw.budget_day key.api_key_hash s.auth.session.current)))

  guard_chain-Fails :
      (draw : Draw) (request : ChatRequest) (user : User Carrier) (key : Option (ApiKey Carrier))
      (s : ProxyState cache)
      → Fails (guard_chain float crypto library cache world draw request user key s).0
  unfolding guard_chain
  guard_chain-Fails draw request user none s = tt
  guard_chain-Fails draw request user (some key) s =
      elim (Bool-cases (user.role == "proxy_admin")) [
        | inl admin ↦ rw admin tt
        | inr other ↦ rw other (check_guards-Fails draw request key s)
      ]

  complete-Fails :
      (draw : Draw) (request : ChatRequest) (user : User Carrier) (key : Option (ApiKey Carrier))
      (upstream_key : String) (s : ProxyState cache)
      → Fails (complete float crypto library cache world draw request user key upstream_key s).0
  unfolding complete
  complete-Fails draw request user key upstream_key =
      let row = response_row float crypto library cache world draw request user key in
      Fails-bind
        (on_requests cache (
          acompletion float library world.environment world.prices world.send draw.fresh_id
            draw.created upstream_key request.model request.messages
            (without_nulls request.others)))
        (λ response.
          on_db cache (log_spend float draw.log_day (row response)) >> pure (whole response))
        (λ s. or_failure-Fails _)
        (λ response.
          Fails-bind (on_db cache (log_spend float draw.log_day (row response)))
            (λ _. pure (whole response))
            (λ s. log_spend-Fails float draw.log_day (row response) s.auth.session) (λ _ s. tt))

  prepare-Fails :
      (request : ChatRequest) (upstream_key : String) (s : ProxyState cache)
      → Fails (prepare float crypto library cache world request upstream_key s).0
  unfolding prepare
  prepare-Fails request upstream_key =
      let built =
        build_request world.environment true upstream_key request.model request.messages
          (without_nulls request.others) in
      Fails-bind (lift (or_failure built)) (λ wrapper. pure (streaming wrapper))
        (λ s. or_failure-Fails built) (λ _ s. tt)

  dispatch-Fails :
      (draw : Draw) (request : ChatRequest) (user : User Carrier) (key : Option (ApiKey Carrier))
      (s : ProxyState cache)
      → Fails (dispatch float crypto library cache world draw request user key s).0
  unfolding dispatch response_row
  dispatch-Fails draw request user key =
      Fails-bind (lift (resolve_provider_api_key (provider_part request.model) world.settings))
        (λ upstream_key.
          if request.stream
          then prepare float crypto library cache world request upstream_key
          else complete float crypto library cache world draw request user key upstream_key)
        (λ s. resolve_provider_api_key-Fails (provider_part request.model) world.settings)
        (λ upstream_key s. elim (Bool-cases request.stream) [
          | inl e ↦ rw e (prepare-Fails request upstream_key s)
          | inr e ↦ rw e (complete-Fails draw request user key upstream_key s)
        ])

  Fails-http :
      {A : Type 0} (r : Outcome Failure A) (status : ℕ) (detail : Detail) (wait : Option ℤ)
      → Fails r
      → r ≡ err (http status detail wait)
      → (400 ≤ status) × (status ≤ 504)
  Fails-http (ok a) status detail wait h e = cc e
  Fails-http (err f) status detail wait h e = subst IsError (failure_of e) h

  -- A call that fails with a status, for whatever reason and whatever the upstream has answered, fails with a
  -- status from 400 to 504.
  pub chat_completions_statuses :
      (draw : Draw) (request : ChatRequest) (user : User Carrier) (key : Option (ApiKey Carrier))
      (s : ProxyState cache) (status : ℕ) (detail : Detail) (wait : Option ℤ)
      → (chat_completions float crypto library cache world draw request user key s).0
        ≡ err (http status detail wait)
      → (400 ≤ status) × (status ≤ 504)
  unfolding chat_completions
  chat_completions_statuses draw request user key s status detail wait failed =
      Fails-http _ status detail wait
        (Fails-bind (guard_chain float crypto library cache world draw request user key)
          (λ _. dispatch float crypto library cache world draw request user key)
          (guard_chain-Fails draw request user key) (λ _. dispatch-Fails draw request user key) s)
        failed
