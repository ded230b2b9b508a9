-- ===== src/Proxy/Redirect.antt =====
-- Which of a client's own fields decide where the proxy sends its key.
use makoto_lite_llm.Base.{
  String, ◌≡◌, refl, sym, ap, ◌∙◌, inl, inr, false, Option, none, some, List, [], ◌∷◌, ◌++◌, ok,
  ◌==◌, string_eq, any, Bool-cases, arith, bind-ok, keeps_bind, keeps_continue, pure,
}
use makoto_lite_llm.Base.Outcomes.{Outcome-cases, ok_injective}
use makoto_lite_llm.Base.Text.{is_empty, rstrip, has_char, before}
use makoto_lite_llm.Dependencies.{KeyCache}
use makoto_lite_llm.Float.{Float}
use makoto_lite_llm.Guard.{resolve_provider_api_key}
use makoto_lite_llm.Json.{Json, str, Fields, end, field, get, is_null}
use makoto_lite_llm.Jwt.{Crypto}
use makoto_lite_llm.Models.{User, ApiKey}
use makoto_lite_llm.Proxy.{
  ChatRequest, Draw, ProxyState, provider_part, without_nulls, or_failure, on_db,
}
use makoto_lite_llm.Proxy.Chat.{
  World, Answer, whole, guard_chain, complete, dispatch, chat_completions, response_row,
}
use makoto_lite_llm.Proxy.Accounting.{outside-guard_chain}
use makoto_lite_llm.Sdk.{Resolved, resolve_provider}
use makoto_lite_llm.Sdk.Access.{Library}
use makoto_lite_llm.Sdk.Completion.{
  Request, registry, provider_of, build_request, acompletion, finish, decode_reply,
}
use makoto_lite_llm.Sdk.Completion.Redirect.{HasKey, build_request_redirected}
use makoto_lite_llm.Spend.{log_spend}

some_injective : {v w : Json} → ◌≡◌ {A = Option Json} (some v) (some w) → v ≡ w
some_injective h = cc

get-without_nulls :
    (k : String) (d : Fields) {v : Json}
    → is_null v ≡ false
    → get k d ≡ some v
    → get k (without_nulls d) ≡ some v
unfolding without_nulls
get-without_nulls k end given h = h
get-without_nulls k (field j w d) given h = elim (Bool-cases (j == k)) [
  | inl same ↦ let e = some_injective (rw same at h) in rw (ap is_null e, given, same, e) refl
  | inr other ↦ ground (arith, other, get-without_nulls k d given)
]

get-without_nulls-none : (k : String) (d : Fields) → get k d ≡ none → get k (without_nulls d) ≡ none
unfolding without_nulls
get-without_nulls-none k end h = h
get-without_nulls-none k (field j w d) h = ground (arith, get-without_nulls-none k d)

resolve_provider_name :
    (names : List String) (names_text model : String) (resolved : Resolved)
    → resolve_provider names names_text model ≡ ok resolved
    → resolved.provider_name ≡ provider_part model
unfolding resolve_provider
resolve_provider_name names names_text model resolved h = elim (Bool-cases (has_char b'/' model)) [
  | inr bare ↦ cc (rw bare at h)
  | inl both ↦ elim (Bool-cases (any (λ name. name == before b'/' model) names)) [
    | inr unknown ↦ cc (rw (both, unknown) at h)
    | inl known ↦ rw both (ap (λ r. r.provider_name) (sym (ok_injective (rw (both, known) at h))))
  ]
]

module _ (float : Float) (crypto : Crypto) (library : Library) (cache : KeyCache float.Carrier)
    (world : World float.Carrier) (draw : Draw) (request : ChatRequest) (user : User float.Carrier)
    (key : Option (ApiKey float.Carrier)) where
  open float use {Carrier}

  complete-sends :
      (upstream_key : String) (s : ProxyState cache) (answer : Answer Carrier)
      → (complete float crypto library cache world draw request user key upstream_key s).0
        ≡ ok answer
      → (built : Resolved × Request) × (build_request world.environment false upstream_key
            request.model request.messages
            (without_nulls request.others)
          ≡ ok built)
        × ((complete float crypto library cache world draw request user key upstream_key
              s).1.requests
            ≡ s.requests ++ built.1 ∷ [])
  unfolding complete acompletion
  complete-sends upstream_key s answer h =
      elim (Outcome-cases (
        build_request world.environment false upstream_key request.model request.messages
          (without_nulls request.others))) [
            | inl (e, failed) ↦ cc (rw failed at h)
            | inr (built, e) ↦ (
              built,
              e,
              rw e (
                  keeps_continue (λ s. s.requests)
                    (or_failure (
                      finish float library world.prices draw.fresh_id draw.created built.0
                        (decode_reply float library (world.send built.1))))
                    (record s { requests = s.requests ++ built.1 ∷ [] }) _
                    (λ response s.
                      keeps_bind (λ s. s.requests)
                        (on_db cache (
                          log_spend float draw.log_day (
                            response_row float crypto library cache world draw request user key
                              response)))
                        (λ _. pure (whole response)) (λ s. refl) (λ _ s. refl) s)),
            )
          ]

  dispatch_plain :
      (upstream_key : String) (s : ProxyState cache)
      → request.stream ≡ false
      → resolve_provider_api_key (provider_part request.model) world.settings ≡ ok upstream_key
      → dispatch float crypto library cache world draw request user key s
        ≡ complete float crypto library cache world draw request user key upstream_key s
  unfolding dispatch response_row
  dispatch_plain upstream_key s plain configured = rw (configured, plain) refl

  chat_completions-sends :
      (s : ProxyState cache) (answer : Answer Carrier) (upstream_key : String)
      → request.stream ≡ false
      → resolve_provider_api_key (provider_part request.model) world.settings ≡ ok upstream_key
      → (chat_completions float crypto library cache world draw request user key s).0 ≡ ok answer
      → (built : Resolved × Request) × (build_request world.environment false upstream_key
            request.model request.messages
            (without_nulls request.others)
          ≡ ok built)
        × ((chat_completions float crypto library cache world draw request user key s).1.requests
            ≡ s.requests ++ built.1 ∷ [])
  unfolding chat_completions
  chat_completions-sends s answer upstream_key plain configured h =
      let guards = guard_chain float crypto library cache world draw request user key in
      let kept =
        ap (λ o. o.1)
          (outside-guard_chain float crypto library cache world draw request user key s) in
      let (u, _, then_dispatched) =
        bind-ok guards (λ _. dispatch float crypto library cache world draw request user key) s h in
      let plainly = dispatch_plain upstream_key (guards s).1 plain configured in
      let completed = ap (λ r. r.0) (sym plainly ∙ sym then_dispatched) ∙ h in
      let (built, e, sent) = complete-sends upstream_key (guards s).1 answer completed in
      (
        built,
        e,
        ap (λ r. r.1.requests) (then_dispatched ∙ plainly)
            ∙ sent
            ∙ ap (λ rs. rs ++ built.1 ∷ []) kept,
      )

  -- If a client's request without `stream` has a text under the extra field "api_base" and no field
  -- "extra_headers", and it is answered, then the one request that was sent upstream went to the base of the
  -- client's choice, with the proxy's own key of the provider in its headers.
  pub chat_completions_redirected :
      (s : ProxyState cache) (answer : Answer Carrier) (upstream_key t : String)
      → request.stream ≡ false
      → resolve_provider_api_key (provider_part request.model) world.settings ≡ ok upstream_key
      → is_empty upstream_key ≡ false
      → is_empty t ≡ false
      → get "api_base" request.others ≡ some (str t)
      → get "extra_headers" request.others ≡ none
      → (chat_completions float crypto library cache world draw request user key s).0 ≡ ok answer
      → (sent : Request) × ((chat_completions float crypto library cache world draw request user key
            s).1.requests
          ≡ s.requests ++ sent ∷ [])
        × (sent.base ≡ rstrip b'/' t)
        × HasKey (provider_of (provider_part request.model)) upstream_key sent.headers
  chat_completions_redirected s answer upstream_key t plain configured has_key given base no_extra
        h =
      let (built, e, sent) = chat_completions-sends s answer upstream_key plain configured h in
      let (found, to_base, with_key) =
        build_request_redirected world.environment false request.messages
          (without_nulls request.others) upstream_key request.model t built has_key given
          (get-without_nulls "api_base" request.others refl base)
          (get-without_nulls-none "extra_headers" request.others no_extra) e in
      let name =
        resolve_provider_name registry "['anthropic', 'openai']" request.model built.0 found in
      (built.1, sent, to_base, rw (← name) with_key)
