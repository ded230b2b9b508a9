-- ===== src/Spend.antt =====
-- src/app/services/spend_service.py: one row for each request, and the daily sums by key, user, team
-- and organization.
pub mod Aggregate
pub mod Ledger
use makoto_lite_llm.Base.{
  ℕ, ◌+◌, String, Bool, ◌&&◌, Option, none, some, List, [], ◌∷◌, ◌++◌, Outcome, ok, err, Comparable,
  ◌==◌, nat_eq, string_eq, any, keep, map_where, pure, ◌>>=◌, ◌>>◌,
}
use makoto_lite_llm.Failure.{Failure, multiple_results_found}
use makoto_lite_llm.Float.{Float}
use makoto_lite_llm.Models.{SpendLog, DailySpend}
use makoto_lite_llm.Store.{Db, Session, Service, insert_unique, commit, scalar_one_or_none}

-- what an upsert is given: who spends, on which model and day, and how much
pub record Charge (F K : Type 0) : Type 0 where
  pub spender : K
  pub model : String
  pub today : ℕ
  pub spend : F
  pub input_tokens : ℕ
  pub output_tokens : ℕ

-- the charge of a request, by what the request is booked on
abbrev pub charge_of : {F K : Type 0} → ℕ → SpendLog F → K → Charge F K
charge_of today log spender = record {
  spender = spender;
  model = log.model;
  today = today;
  spend = log.spend;
  input_tokens = log.input_tokens;
  output_tokens = log.output_tokens;
}

module _ (float : Float) {K : Type 0} ⦃e : Comparable K⦄ where
  open float use {Carrier}

  -- the `where` clause: the row of the spender, the model and the day
  abbrev pub is_row : K → String → ℕ → DailySpend Carrier K → Bool
  is_row spender model today row = row.spender == spender && row.model == model && row.date == today

  abbrev pub first_row : Charge Carrier K → DailySpend Carrier K
  first_row c = record {
    spender = c.spender;
    model = c.model;
    date = c.today;
    total_spend = c.spend;
    total_input_tokens = c.input_tokens;
    total_output_tokens = c.output_tokens;
    request_count = 1;
  }

  abbrev pub add_charge : DailySpend Carrier K → Charge Carrier K → DailySpend Carrier K
  add_charge row c = record row {
    total_spend = float.add row.total_spend c.spend;
    total_input_tokens = row.total_input_tokens + c.input_tokens;
    total_output_tokens = row.total_output_tokens + c.output_tokens;
    request_count = row.request_count + 1;
  }

  abbrev pub upsert_found :
      Charge Carrier K
      → List (DailySpend Carrier K)
      → Outcome Failure (Option (DailySpend Carrier K))
      → Outcome Failure (List (DailySpend Carrier K))
  upsert_found c rows (err f) = err f
  upsert_found c rows (ok none) = ok (rows ++ first_row c ∷ [])
  upsert_found c rows (ok (some row)) =
      ok (map_where (is_row c.spender c.model c.today) (λ r. add_charge r c) rows)

  -- The body that the four `_upsert_daily_…` have in common, on the table of each.
  unfoldable pub upsert :
      Charge Carrier K → List (DailySpend Carrier K) → Outcome Failure (List (DailySpend Carrier K))
  upsert c rows =
      upsert_found c rows (scalar_one_or_none (keep (is_row c.spender c.model c.today) rows))

module _ (float : Float) where
  open float use {Carrier}

  -- the tables' writes, for an upsert that has raised nothing
  abbrev pub save :
      {K : Type 0}
      → (List (DailySpend Carrier K) → Db Carrier → Db Carrier)
      → Outcome Failure (List (DailySpend Carrier K))
      → Service Carrier Unit
  save put (err f) s = (err f, s)
  save put (ok rows) s = (ok tt, record s { current = put rows s.current })

  unfoldable pub upsert_daily_key : Charge Carrier String → Service Carrier Unit
  upsert_daily_key c s =
      save (λ rows db. record db { daily_key_spend = rows })
        (upsert float c s.current.daily_key_spend) s

  unfoldable pub upsert_daily_user : Charge Carrier ℕ → Service Carrier Unit
  upsert_daily_user c s =
      save (λ rows db. record db { daily_user_spend = rows })
        (upsert float c s.current.daily_user_spend) s

  unfoldable pub upsert_daily_team : Charge Carrier ℕ → Service Carrier Unit
  upsert_daily_team c s =
      save (λ rows db. record db { daily_team_spend = rows })
        (upsert float c s.current.daily_team_spend) s

  unfoldable pub upsert_daily_org : Charge Carrier ℕ → Service Carrier Unit
  upsert_daily_org c s =
      save (λ rows db. record db { daily_org_spend = rows })
        (upsert float c s.current.daily_org_spend) s

  -- `if user_id: …`
  abbrev pub when_given : Option ℕ → (ℕ → Service Carrier Unit) → Service Carrier Unit
  when_given none f = pure tt
  when_given (some id) f = f id

  -- The arguments are the fields of the row. The first query flushes the row that was added.
  unfoldable pub log_spend : ℕ → SpendLog Carrier → Service Carrier (SpendLog Carrier)
  unfolding upsert_daily_key upsert_daily_user upsert_daily_team upsert_daily_org
  log_spend today log = do
    insert_unique (λ db. any (λ l. l.request_id == log.request_id) db.spend_logs)
        (λ db. record db { spend_logs = db.spend_logs ++ log ∷ [] })
    upsert_daily_key (charge_of today log log.api_key_hash)
    when_given log.user_id (λ id. upsert_daily_user (charge_of today log id))
    when_given log.team_id (λ id. upsert_daily_team (charge_of today log id))
    when_given log.org_id (λ id. upsert_daily_org (charge_of today log id))
    commit
    pure log
