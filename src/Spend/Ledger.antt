-- ===== src/Spend/Ledger.antt =====
-- The whole log of requests against the daily tables.
use mathlib.Core.List.{append-nil, append_assoc, map-append}
use makoto_lite_llm.Base.{
  ℕ, String, ◌≡◌, refl, sym, ap, ◌∙◌, true, false, Option, none, some, List, [], ◌∷◌, ◌++◌, ok, err,
  any, map, ◌==◌, nat_eq, string_eq,
}
use makoto_lite_llm.Failure.{integrity_error}
use makoto_lite_llm.Float.{Float}
use makoto_lite_llm.Models.{SpendLog, DailySpend}
use makoto_lite_llm.Store.{Session, empty_db, open_session}
use makoto_lite_llm.Spend.{
  Charge, charge_of, upsert_daily_key, upsert_daily_user, upsert_daily_team, upsert_daily_org,
  when_given, log_spend,
}
use makoto_lite_llm.Spend.Aggregate.{Agrees, summary, upsert-Agrees}

module _ (float : Float) where
  open float use {Carrier}

  -- the requests in order, each with its day
  abbrev pub History : Type 0
  History = List (ℕ × SpendLog Carrier)

  -- what a request adds to the sums of a spender
  abbrev pub share_of : {K : Type 0} → ℕ × SpendLog Carrier → K → Charge Carrier K
  share_of (day, log) spender = record {
    spender = spender;
    model = log.model;
    today = day;
    spend = log.spend;
    input_tokens = log.input_tokens;
    output_tokens = log.output_tokens;
  }

  -- the charge of a request to an entity that it may have
  abbrev pub charge_if : ℕ × SpendLog Carrier → Option ℕ → List (Charge Carrier ℕ)
  charge_if entry none = []
  charge_if entry (some id) = share_of entry id ∷ []

  abbrev pub key_charges : History → List (Charge Carrier String)
  key_charges [] = []
  key_charges (entry ∷ h) = share_of entry entry.1.api_key_hash ∷ key_charges h

  -- the charges to the users, the teams or the organizations of the requests
  abbrev pub charges_by : (SpendLog Carrier → Option ℕ) → History → List (Charge Carrier ℕ)
  charges_by f [] = []
  charges_by f (entry ∷ h) = charge_if entry (f entry.1) ++ charges_by f h

  key_charges-append :
      (h : History) (entry : ℕ × SpendLog Carrier)
      → key_charges (h ++ entry ∷ []) ≡ key_charges h ++ share_of entry entry.1.api_key_hash ∷ []
  key_charges-append [] entry = refl
  key_charges-append (x ∷ h) entry =
      ap (λ r. share_of x x.1.api_key_hash ∷ r) (key_charges-append h entry)

  charges_by-append :
      (f : SpendLog Carrier → Option ℕ) (h : History) (entry : ℕ × SpendLog Carrier)
      → charges_by f (h ++ entry ∷ []) ≡ charges_by f h ++ charge_if entry (f entry.1)
  charges_by-append f [] entry = append-nil (charge_if entry (f entry.1))
  charges_by-append f (x ∷ h) entry =
      ap (λ r. charge_if x (f x.1) ++ r) (charges_by-append f h entry)
      ∙ sym (append_assoc (charge_if x (f x.1)) (charges_by f h) (charge_if entry (f entry.1)))

  -- The log holds the requests, every daily table agrees with its charges, and all is committed.
  pub record IsLedger (s : Session Carrier) (h : History) : Type 0 where
    pub logs : s.current.spend_logs ≡ map (λ entry. entry.1) h
    pub keys : Agrees float s.current.daily_key_spend (key_charges h)
    pub users : Agrees float s.current.daily_user_spend (charges_by (λ l. l.user_id) h)
    pub teams : Agrees float s.current.daily_team_spend (charges_by (λ l. l.team_id) h)
    pub orgs : Agrees float s.current.daily_org_spend (charges_by (λ l. l.org_id) h)
    pub saved : s.committed ≡ s.current

  module _ (today : ℕ) (log : SpendLog Carrier) (s : Session Carrier) where
    key_step :
        (cs : List (Charge Carrier String))
        → Agrees float s.current.daily_key_spend cs
        → let c = charge_of today log log.api_key_hash in
          (rows : List (DailySpend Carrier String)) × (upsert_daily_key float c s
            ≡ (ok tt, record s { current = record s.current { daily_key_spend = rows } }))
          × Agrees float rows (cs ++ c ∷ [])
    unfolding upsert_daily_key
    key_step cs h =
        let (rows, e, agrees) =
          upsert-Agrees float (charge_of today log log.api_key_hash) s.current.daily_key_spend cs
            h in
        (rows, rw e, agrees)

    user_step :
        (o : Option ℕ) (cs : List (Charge Carrier ℕ))
        → Agrees float s.current.daily_user_spend cs
        → (rows : List (DailySpend Carrier ℕ)) × (when_given float o
              (λ id. upsert_daily_user float (charge_of today log id))
              s
            ≡ (ok tt, record s { current = record s.current { daily_user_spend = rows } }))
          × Agrees float rows (cs ++ charge_if (today, log) o)
    unfolding upsert_daily_user
    user_step none cs h = (s.current.daily_user_spend, refl, rw append-nil h)
    user_step (some id) cs h =
        let (rows, e, agrees) =
          upsert-Agrees float (charge_of today log id) s.current.daily_user_spend cs h in
        (rows, rw e, agrees)

    team_step :
        (o : Option ℕ) (cs : List (Charge Carrier ℕ))
        → Agrees float s.current.daily_team_spend cs
        → (rows : List (DailySpend Carrier ℕ)) × (when_given float o
              (λ id. upsert_daily_team float (charge_of today log id))
              s
            ≡ (ok tt, record s { current = record s.current { daily_team_spend = rows } }))
          × Agrees float rows (cs ++ charge_if (today, log) o)
    unfolding upsert_daily_team
    team_step none cs h = (s.current.daily_team_spend, refl, rw append-nil h)
    team_step (some id) cs h =
        let (rows, e, agrees) =
          upsert-Agrees float (charge_of today log id) s.current.daily_team_spend cs h in
        (rows, rw e, agrees)

    org_step :
        (o : Option ℕ) (cs : List (Charge Carrier ℕ))
        → Agrees float s.current.daily_org_spend cs
        → (rows : List (DailySpend Carrier ℕ)) × (when_given float o
              (λ id. upsert_daily_org float (charge_of today log id))
              s
            ≡ (ok tt, record s { current = record s.current { daily_org_spend = rows } }))
          × Agrees float rows (cs ++ charge_if (today, log) o)
    unfolding upsert_daily_org
    org_step none cs h = (s.current.daily_org_spend, refl, rw append-nil h)
    org_step (some id) cs h =
        let (rows, e, agrees) =
          upsert-Agrees float (charge_of today log id) s.current.daily_org_spend cs h in
        (rows, rw e, agrees)

  -- If the log and the four daily tables agree on a history, and the id of the request is new, then
  -- `log_spend` returns the row, and log and tables agree on the history with the request at its end, all of
  -- it committed.
  pub log_spend-IsLedger :
      (today : ℕ) (log : SpendLog Carrier) (s : Session Carrier) (h : History)
      → IsLedger s h
      → any (λ l. l.request_id == log.request_id) s.current.spend_logs ≡ false
      → let (result, s') = log_spend float today log s in
        (result ≡ ok log) × IsLedger s' (h ++ (today, log) ∷ [])
  unfolding log_spend
  log_spend-IsLedger today log s h ledger fresh =
      let logged = record s {
        current = record s.current { spend_logs = s.current.spend_logs ++ log ∷ [] };
      } in
      let (ks, ek, ak) = key_step today log logged (key_charges h) ledger.keys in
      let s1 = record logged { current = record logged.current { daily_key_spend = ks } } in
      let (us, eu, au) =
        user_step today log s1 log.user_id (charges_by (λ l. l.user_id) h) ledger.users in
      let s2 = record s1 { current = record s1.current { daily_user_spend = us } } in
      let (ts, et, at) =
        team_step today log s2 log.team_id (charges_by (λ l. l.team_id) h) ledger.teams in
      let s3 = record s2 { current = record s2.current { daily_team_spend = ts } } in
      let (os, eo, ao) =
        org_step today log s3 log.org_id (charges_by (λ l. l.org_id) h) ledger.orgs in
      rw (fresh, ek, eu, et, eo)
        (
          refl,
          record {
            logs =
                ap (λ r. r ++ log ∷ []) ledger.logs
                ∙ sym (map-append (λ entry. entry.1) h ((today, log) ∷ []));
            keys = rw key_charges-append ak;
            users = rw (charges_by-append (λ l. l.user_id)) au;
            teams = rw (charges_by-append (λ l. l.team_id)) at;
            orgs = rw (charges_by-append (λ l. l.org_id)) ao;
            saved = refl;
          },
        )

  -- no request id repeats one that was logged before
  abbrev pub IsFresh : History → History → Type 0
  IsFresh earlier [] = Unit
  IsFresh earlier (entry ∷ h) =
      (any (λ l. l.request_id == entry.1.request_id) (map (λ x. x.1) earlier) ≡ false)
      × IsFresh (earlier ++ entry ∷ []) h

  -- the requests, one after the other
  unfoldable pub log_all : History → Session Carrier → Session Carrier
  log_all [] s = s
  log_all (entry ∷ h) s = log_all h (log_spend float entry.0 entry.1 s).1

  log_all_from :
      (earlier h : History) (s : Session Carrier)
      → IsLedger s earlier
      → IsFresh earlier h
      → IsLedger (log_all h s) (earlier ++ h)
  unfolding log_all
  log_all_from earlier [] s ledger fresh = rw append-nil ledger
  log_all_from earlier (entry ∷ h) s ledger (new, fresh) =
      let (_, ledger') =
        log_spend-IsLedger entry.0 entry.1 s earlier ledger
          (ap (λ r. any (λ l. l.request_id == entry.1.request_id) r) ledger.logs ∙ new) in
      rw (← append_assoc earlier (entry ∷ []) h)
        (log_all_from (earlier ++ entry ∷ []) h (log_spend float entry.0 entry.1 s).1 ledger' fresh)

  -- From an empty database, after any history of requests with different ids, the log holds the requests;
  -- each of the four daily tables has one row for a key, user, team or organization, a model and a day with a request,
  -- with the sums of the spend and the tokens of these requests and their number, and no other row; and all is committed.
  pub log_all-IsLedger :
      (h : History) → IsFresh [] h → IsLedger (log_all h (open_session (empty_db Carrier))) h
  unfolding summary
  log_all-IsLedger h fresh =
      log_all_from [] h (open_session (empty_db Carrier))
        (record {
          logs = refl;
          keys = λ k m d. refl;
          users = λ k m d. refl;
          teams = λ k m d. refl;
          orgs = λ k m d. refl;
          saved = refl;
        })
        fresh

  -- A request whose id was logged before raises `IntegrityError` and is charged nowhere.
  pub log_spend-repeated :
      (today : ℕ) (log : SpendLog Carrier) (s : Session Carrier)
      → any (λ l. l.request_id == log.request_id) s.current.spend_logs ≡ true
      → log_spend float today log s ≡ (err integrity_error, s)
  unfolding log_spend
  log_spend-repeated today log s taken = rw taken
