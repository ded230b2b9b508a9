-- ===== src/Proxy/Accounting.antt =====
-- What a call of the endpoint leaves in the tables of the spend, on every path.
use makoto_lite_llm.Base.{
  String, ◌≡◌, refl, ap, ◌∙◌, ◌⊎◌, inl, inr, false, Option, none, some, List, [], ◌∷◌, ◌++◌,
  Outcome, ok, err, any, ◌==◌, string_eq, Bool-cases, Option-cases, keeps_bind, ◌>>◌,
}
use makoto_lite_llm.Base.Outcomes.{Outcome-cases}
use makoto_lite_llm.Dependencies.{KeyCache, AuthState}
use makoto_lite_llm.Failure.{Failure}
use makoto_lite_llm.Float.{Float}
use makoto_lite_llm.Guard.{check_budget, resolve_provider_api_key}
use makoto_lite_llm.Jwt.{Crypto}
use makoto_lite_llm.Models.{User, ApiKey, SpendLog}
use makoto_lite_llm.Proxy.{
  ChatRequest, Draw, provider_part, ProxyState, spend_row, without_nulls, to_failure,
}
use makoto_lite_llm.Proxy.Booked.{IsRowOf, spend_row-IsRowOf}
use makoto_lite_llm.Proxy.Chat.{
  World, Answer, whole, guard_chain, complete, dispatch, chat_completions, check_access,
  check_limits, check_day, check_guards, response_row,
}
use makoto_lite_llm.Sdk.Access.{Library}
use makoto_lite_llm.Sdk.Completion.{Request, acompletion}
use makoto_lite_llm.Sdk.Types.{ModelResponse}
use makoto_lite_llm.Spend.Ledger.{History, IsLedger, log_spend-IsLedger}

module _ (float : Float) (crypto : Crypto) (library : Library) (cache : KeyCache float.Carrier)
    (world : World float.Carrier) where
  open float use {Carrier}

  -- what the guards do not touch
  abbrev pub outside : ProxyState cache → AuthState cache × List Request
  outside s = (s.auth, s.requests)

  outside-check_guards :
      (draw : Draw) (request : ChatRequest) (key : ApiKey Carrier) (s : ProxyState cache)
      → outside (check_guards float crypto library cache world draw request key s).1 ≡ outside s
  unfolding check_guards check_access check_limits check_day check_budget
  outside-check_guards draw request key =
      let limits = check_limits float crypto library cache world draw request key in
      let day = check_day float crypto library cache world draw key in
      keeps_bind outside (check_access float crypto library cache world request key)
        (λ _. limits >> day) (λ s. refl)
        (λ _. keeps_bind outside limits (λ _. day) (λ s. refl) (λ _ s. refl))

  pub outside-guard_chain :
      (draw : Draw) (request : ChatRequest) (user : User Carrier) (key : Option (ApiKey Carrier))
      (s : ProxyState cache)
      → outside (guard_chain float crypto library cache world draw request user key s).1 ≡ outside s
  unfolding guard_chain check_guards
  outside-guard_chain draw request user none s = refl
  outside-guard_chain draw request user (some key) s =
      elim (Bool-cases (user.role == "proxy_admin")) [
        | inl admin ↦ rw admin refl
        | inr other ↦ rw other (outside-check_guards draw request key s)
      ]

  module _ (draw : Draw) (request : ChatRequest) (user : User Carrier)
      (key : Option (ApiKey Carrier)) (h : History float) where
    abbrev pub cost_in : ModelResponse Carrier → Option Carrier
    cost_in response = elim response.usage [ none ↦ none | some u ↦ u.cost ]

    -- The call has failed and left the session as it was, or it has returned a response, and the ledger has
    -- one row more, which books this response.
    abbrev pub Settled :
        ProxyState cache → Outcome Failure (Answer Carrier) × ProxyState cache → Type 0
    Settled s (r, s') =
        ((f : Failure) × (r ≡ err f) × (s'.auth.session ≡ s.auth.session))
        ⊎ ((response : ModelResponse Carrier) × (row : SpendLog Carrier) × (r ≡ ok (whole response))
            × IsRowOf float draw request user key response.usage (cost_in response) "completed" row
            × IsLedger float s'.auth.session (h ++ (draw.log_day, row) ∷ []))

    -- the row of a response without a usage has the same form
    response_row-IsRowOf :
        (response : ModelResponse Carrier)
        → IsRowOf float draw request user key response.usage
            (cost_in response)
            "completed"
            (response_row float crypto library cache world draw request user key response)
    unfolding response_row
    response_row-IsRowOf response = elim (Option-cases response.usage) [
      | inl e ↦ rw e (spend_row-IsRowOf float draw request user key none none "completed")
      | inr (u, e) ↦
          rw e (spend_row-IsRowOf float draw request user key (some u) u.cost "completed")
    ]

    complete-Settled :
        (upstream_key : String) (s : ProxyState cache)
        → IsLedger float s.auth.session h
        → any (λ l. l.request_id == draw.request_id) s.auth.session.current.spend_logs ≡ false
        → Settled s (complete float crypto library cache world draw request user key upstream_key s)
    unfolding complete response_row spend_row
    complete-Settled upstream_key s ledger fresh =
        let called =
          acompletion float library world.environment world.prices world.send draw.fresh_id
            draw.created upstream_key request.model request.messages (without_nulls request.others)
            s.requests in
        elim (Outcome-cases called.0) [
          | inl (fault, e) ↦ inl (to_failure fault, rw e refl, rw e refl)
          | inr (response, e) ↦
              let log =
                response_row float crypto library cache world draw request user key response in
              let (logged, ledger') =
                log_spend-IsLedger float draw.log_day log s.auth.session h ledger fresh in
              inr (
                response,
                log,
                rw (e, logged) refl,
                response_row-IsRowOf response,
                rw (e, logged) ledger',
              )
        ]

    dispatch-Settled :
        (s : ProxyState cache)
        → request.stream ≡ false
        → IsLedger float s.auth.session h
        → any (λ l. l.request_id == draw.request_id) s.auth.session.current.spend_logs ≡ false
        → Settled s (dispatch float crypto library cache world draw request user key s)
    unfolding dispatch response_row
    dispatch-Settled s plain ledger fresh =
        elim (Outcome-cases
          (resolve_provider_api_key (provider_part request.model) world.settings)) [
            | inl (f, e) ↦ inl (f, rw e refl, rw e refl)
            | inr (upstream_key, e) ↦ simp (e, plain) (complete-Settled upstream_key s ledger fresh)
          ]

    -- If the log and the daily tables agree on a history and the id of the request is new, a call without
    -- `stream` has one of two ends: it fails and the session is as it was, or it returns a response, and log
    -- and tables agree, all of it committed, on the history with one more row: it has the id, the user, the key, the model
    -- and the status "completed", and the tokens and the cost of the response, or 0 if it has none.
    pub chat_completions-IsLedger :
        (s : ProxyState cache)
        → request.stream ≡ false
        → IsLedger float s.auth.session h
        → any (λ l. l.request_id == draw.request_id) s.auth.session.current.spend_logs ≡ false
        → let (r, s') = chat_completions float crypto library cache world draw request user key s in
          ((f : Failure) × (r ≡ err f) × (s'.auth.session ≡ s.auth.session))
          ⊎ ((response : ModelResponse Carrier) × (row : SpendLog Carrier) × (r
                ≡ ok (whole response))
              × IsRowOf float draw request user key response.usage
                  (cost_in response)
                  "completed"
                  row
              × IsLedger float s'.auth.session (h ++ (draw.log_day, row) ∷ []))
    unfolding chat_completions
    chat_completions-IsLedger s plain ledger fresh =
        let (passed, s') = guard_chain float crypto library cache world draw request user key s in
        let same : s'.auth.session ≡ s.auth.session =
          ap (λ o. o.0.session) (outside-guard_chain draw request user key s) in
        elim (Outcome-cases passed) [
          | inl (f, e) ↦ inl (f, rw e refl, rw e same)
          | inr (u, e) ↦
              let computed : chat_completions float crypto library cache world draw request user key
                    s
                  ≡ dispatch float crypto library cache world draw request user key s' =
                rw e refl in
              elim (dispatch-Settled s' plain (rw same ledger) (rw same fresh)) [
                | inl (f, failed, kept) ↦ inl (
                  f,
                  ap (λ o. o.0) computed ∙ failed,
                  ap (λ o. o.1.auth.session) computed ∙ kept ∙ same,
                )
                | inr (response, row, returned, booked, ledger') ↦
                    inr (
                      response,
                      row,
                      ap (λ o. o.0) computed ∙ returned,
                      booked,
                      rw computed ledger',
                    )
              ]
        ]

  module _ (draw : Draw) (request : ChatRequest) (user : User Carrier)
      (key : Option (ApiKey Carrier)) where
    -- A request that the guards refuse is answered with their error, sends nothing upstream, and leaves the
    -- session and the cache as they were.
    pub chat_completions-refused :
        (s : ProxyState cache) (f : Failure)
        → (guard_chain float crypto library cache world draw request user key s).0 ≡ err f
        → let (r, s') = chat_completions float crypto library cache world draw request user key s in
          (r ≡ err f) × (s'.requests ≡ s.requests) × (s'.auth ≡ s.auth)
    unfolding chat_completions
    chat_completions-refused s f refused =
        let outside_same = outside-guard_chain draw request user key s in
        rw refused (refl, ap (λ o. o.1) outside_same, ap (λ o. o.0) outside_same)
