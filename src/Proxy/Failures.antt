-- ===== src/Proxy/Failures.antt =====
-- The statuses of the endpoint's failures.
use makoto_lite_llm.Base.{
  ℕ, ◌≤◌, String, Bool, Option, none, some, List, [], ◌∷◌, Outcome, ok, err, Action, continue,
  ◌>>=◌, ◌>>◌, arith, Bool-cases, inl, inr, keep, any, ◌++◌, Comparable, pure, ◌==◌, string_eq,
  nat_eq,
}
use makoto_lite_llm.Failure.{Failure, http}
use makoto_lite_llm.Float.{Float}
use makoto_lite_llm.Guard.{map_sdk_error}
use makoto_lite_llm.Models.{SpendLog, DailySpend}
use makoto_lite_llm.Proxy.{to_failure, or_failure}
use makoto_lite_llm.Sdk.{
  ErrorClass, authentication, rate_limit, bad_request, not_found, content_policy, context_window,
  internal_server, timeout, service_unavailable, unknown_provider, lite_llm,
}
use makoto_lite_llm.Sdk.Access.{Fault, sdk_error, other_error}
use makoto_lite_llm.Spend.{
  Charge, is_row, upsert_found, upsert, upsert_daily_key, upsert_daily_user, upsert_daily_team,
  upsert_daily_org, log_spend, charge_of, when_given, save,
}
use makoto_lite_llm.Store.{Db, Session, Service, scalar_one_or_none, insert_unique, commit}

-- a status of an error, if the failure has a status
abbrev pub IsError : Failure → Type 0
IsError (http status detail wait) = (400 ≤ status) × (status ≤ 504)
IsError _ = Unit

abbrev pub Fails : {A : Type 0} → Outcome Failure A → Type 0
Fails (ok a) = Unit
Fails (err f) = IsError f

Fails-continue :
    {S A B : Type 0} (r : Outcome Failure A) (s : S) (f : A → Action S Failure B)
    → Fails r
    → ((a : A) (s : S) → Fails (f a s).0)
    → Fails (continue r s f).0
Fails-continue (ok a) s f h k = k a s
Fails-continue (err e) s f h k = h

pub Fails-bind :
    {S A B : Type 0} (m : Action S Failure A) (f : A → Action S Failure B)
    → ((s : S) → Fails (m s).0)
    → ((a : A) (s : S) → Fails (f a s).0)
    → (s : S) → Fails ((m >>= f) s).0
Fails-bind m f h k s = Fails-continue (m s).0 (m s).1 f (h s) k

-- the status of every class of the SDK's errors
sdk_status :
    (c : ErrorClass) (n : ℕ) (message : String)
    → let status = (map_sdk_error (record { class = c; status_code = n; message = message })).0 in
      (400 ≤ status) × (status ≤ 504)
unfolding map_sdk_error
sdk_status authentication n message = (omega arith, omega arith)
sdk_status rate_limit n message = (omega arith, omega arith)
sdk_status bad_request n message = (omega arith, omega arith)
sdk_status not_found n message = (omega arith, omega arith)
sdk_status content_policy n message = (omega arith, omega arith)
sdk_status context_window n message = (omega arith, omega arith)
sdk_status internal_server n message = (omega arith, omega arith)
sdk_status timeout n message = (omega arith, omega arith)
sdk_status service_unavailable n message = (omega arith, omega arith)
sdk_status unknown_provider n message = (omega arith, omega arith)
sdk_status lite_llm n message = (omega arith, omega arith)

to_failure-IsError : (fault : Fault) → IsError (to_failure fault)
unfolding to_failure map_sdk_error
to_failure-IsError (sdk_error e) = sdk_status e.class e.status_code e.message
to_failure-IsError other_error = tt

pub or_failure-Fails : {A : Type 0} (r : Outcome Fault A) → Fails (or_failure r)
unfolding to_failure
or_failure-Fails (ok a) = tt
or_failure-Fails (err fault) = to_failure-IsError fault

module _ (float : Float) where
  open float use {Carrier}

  upsert-Fails :
      {K : Type 0} ⦃e : Comparable K⦄ (c : Charge Carrier K) (rows : List (DailySpend Carrier K))
      → Fails (upsert float c rows)
  unfolding upsert
  upsert-Fails c rows =
      elim (keep (is_row float c.spender c.model c.today) rows)
        as (λ found. Fails (upsert_found float c rows (scalar_one_or_none found))) [
          | [] ↦ tt
          | r ∷ [] ↦ tt
          | r ∷ r' ∷ more ↦ tt
        ]

  save-Fails :
      {K : Type 0} (put : List (DailySpend Carrier K) → Db Carrier → Db Carrier)
      (r : Outcome Failure (List (DailySpend Carrier K))) (s : Session Carrier)
      → Fails r
      → Fails (save float put r s).0
  save-Fails put (ok rows) s h = tt
  save-Fails put (err f) s h = h

  insert_unique-Fails :
      (taken : Db Carrier → Bool) (change : Db Carrier → Db Carrier) (s : Session Carrier)
      → Fails (insert_unique taken change s).0
  insert_unique-Fails taken change s = elim (Bool-cases (taken s.current)) [
    | inl e ↦ rw e tt
    | inr e ↦ rw e tt
  ]

  when_given-Fails :
      (o : Option ℕ) (f : ℕ → Service Carrier Unit)
      → ((id : ℕ) (s : Session Carrier) → Fails (f id s).0)
      → (s : Session Carrier) → Fails (when_given float o f s).0
  when_given-Fails none f h s = tt
  when_given-Fails (some id) f h s = h id s

  module _ (today : ℕ) (log : SpendLog Carrier) where
    abbrev by_user : Service Carrier Unit
    by_user = when_given float log.user_id (λ id. upsert_daily_user float (charge_of today log id))

    abbrev by_team : Service Carrier Unit
    by_team = when_given float log.team_id (λ id. upsert_daily_team float (charge_of today log id))

    abbrev by_org : Service Carrier Unit
    by_org = when_given float log.org_id (λ id. upsert_daily_org float (charge_of today log id))

    by_user-Fails : (s : Session Carrier) → Fails (by_user s).0
    unfolding upsert_daily_user
    by_user-Fails = when_given-Fails log.user_id _ (λ id s.
        save-Fails _ _ s (upsert-Fails (charge_of today log id) s.current.daily_user_spend))

    by_team-Fails : (s : Session Carrier) → Fails (by_team s).0
    unfolding upsert_daily_team
    by_team-Fails = when_given-Fails log.team_id _ (λ id s.
        save-Fails _ _ s (upsert-Fails (charge_of today log id) s.current.daily_team_spend))

    by_org-Fails : (s : Session Carrier) → Fails (by_org s).0
    unfolding upsert_daily_org
    by_org-Fails =
        when_given-Fails log.org_id _ (λ id s.
          save-Fails _ _ s (upsert-Fails (charge_of today log id) s.current.daily_org_spend))

    by_key-Fails :
        (s : Session Carrier)
        → Fails (upsert_daily_key float (charge_of today log log.api_key_hash) s).0
    unfolding upsert_daily_key
    by_key-Fails s =
        save-Fails _ _ s
          (upsert-Fails (charge_of today log log.api_key_hash) s.current.daily_key_spend)

    pub log_spend-Fails : (s : Session Carrier) → Fails (log_spend float today log s).0
    unfolding log_spend
    log_spend-Fails =
        let saved : Service Carrier (SpendLog Carrier) = commit >> pure log in
        let orgs = by_org >> saved in
        let teams = by_team >> orgs in
        let users = by_user >> teams in
        let keys = upsert_daily_key float (charge_of today log log.api_key_hash) >> users in
        let taken : Db Carrier → Bool =
          λ db. any (λ l. l.request_id == log.request_id) db.spend_logs in
        let change : Db Carrier → Db Carrier =
          λ db. record db { spend_logs = db.spend_logs ++ log ∷ [] } in
        Fails-bind (insert_unique taken change) (λ _. keys) (insert_unique-Fails taken change)
          (λ _.
            Fails-bind (upsert_daily_key float (charge_of today log log.api_key_hash)) (λ _. users)
              by_key-Fails
              (λ _.
                Fails-bind by_user (λ _. teams) by_user-Fails
                  (λ _.
                    Fails-bind by_team (λ _. orgs) by_team-Fails
                      (λ _. Fails-bind by_org (λ _. saved) by_org-Fails (λ _ s. tt)))))
