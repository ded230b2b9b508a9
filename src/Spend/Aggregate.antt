-- ===== src/Spend/Aggregate.antt =====
-- The upsert of a daily table against the list of its charges.
use mathlib.Core.Path.{subst₃}
use mathlib.Core.List.{foldl, foldl-append, append-nil, map-append}
use makoto_lite_llm.Base.{
  ℕ, String, ◌≡◌, refl, sym, ap, ap₂, ◌∙◌, Bool, true, false, ◌&&◌, List, [], ◌∷◌, ◌++◌, ok, keep,
  map, length, length-append, ◌+◌, suc, map_where, keep-append, Comparable, ◌==◌, nat_eq, string_eq,
  eq_iff, eq_refl, arith, Bool-cases, inl, inr,
}
use makoto_lite_llm.Float.{Float}
use makoto_lite_llm.Models.{DailySpend}
use makoto_lite_llm.Store.Queries.{keep-map_where, keep-map_where_out, keep-head}
use makoto_lite_llm.Spend.{Charge, is_row, first_row, add_charge, upsert}

unfoldable pub total : List ℕ → ℕ
total [] = 0
total (n ∷ ns) = n + total ns

plus_zero : (n : ℕ) → n + 0 ≡ n
plus_zero n = omega arith

suc_plus : (n : ℕ) → suc (n + 1) ≡ suc n + 1
suc_plus n = omega arith

plus_assoc : (a b c : ℕ) → a + (b + c) ≡ a + b + c
plus_assoc a b c = omega arith

module _ {C : Type 0} where
  total_appended :
      (f : C → ℕ) (cs : List C) (c : C) → total (map f (cs ++ c ∷ [])) ≡ total (map f cs) + f c
  unfolding total
  total_appended f [] c = omega arith
  total_appended f (d ∷ cs) c = rw (total_appended f cs c) (omega arith)

module _ (float : Float) {K : Type 0} ⦃e : Comparable K⦄ where
  open float use {Carrier}

  -- the charges of a spender for a model on a day
  abbrev pub is_charge : K → String → ℕ → Charge Carrier K → Bool
  is_charge spender model today c = c.spender == spender && c.model == model && c.today == today

  -- The row that the charges of one spender, model and day add up to, if there is any: floats are added from
  -- the first charge to the last.
  unfoldable pub summary : List (Charge Carrier K) → List (DailySpend Carrier K)
  unfolding total
  summary [] = []
  summary (c ∷ charges) =
      record {
        spender = c.spender;
        model = c.model;
        date = c.today;
        total_spend = foldl float.add c.spend (map (λ d. d.spend) charges);
        total_input_tokens = total (map (λ d. d.input_tokens) (c ∷ charges));
        total_output_tokens = total (map (λ d. d.output_tokens) (c ∷ charges));
        request_count = length (c ∷ charges);
      }
      ∷ []

  -- Every row of the table is the summary of its charges, and no charge is without its row.
  abbrev pub Agrees : List (DailySpend Carrier K) → List (Charge Carrier K) → Type 0
  Agrees rows charges =
      (spender : K) (model : String) (today : ℕ)
      → keep (is_row float spender model today) rows
        ≡ summary (keep (is_charge spender model today) charges)

  -- one more charge, on the rows of its spender, model and day
  abbrev bump : Charge Carrier K → List (DailySpend Carrier K) → List (DailySpend Carrier K)
  bump c [] = first_row float c ∷ []
  bump c (row ∷ rows) = add_charge float row c ∷ []

  summary-bump :
      (c : Charge Carrier K) (charges : List (Charge Carrier K))
      → summary (charges ++ c ∷ []) ≡ bump c (summary charges)
  unfolding summary total
  summary-bump c [] = rw (plus_zero c.input_tokens, plus_zero c.output_tokens) refl
  summary-bump c (d ∷ charges) =
      rw
        (
          map-append (λ d. d.spend) charges (c ∷ []),
          foldl-append float.add d.spend (map (λ d. d.spend) charges) (c.spend ∷ []),
          total_appended (λ d. d.input_tokens) charges c,
          total_appended (λ d. d.output_tokens) charges c,
          length-append charges (c ∷ []),
          suc_plus (length charges),
          plus_assoc d.input_tokens (total (map (λ d. d.input_tokens) charges)) c.input_tokens,
          plus_assoc d.output_tokens (total (map (λ d. d.output_tokens) charges)) c.output_tokens,
        )
        refl

  -- the table after an upsert that found these rows
  abbrev upserted :
      Charge Carrier K
      → List (DailySpend Carrier K)
      → List (DailySpend Carrier K)
      → List (DailySpend Carrier K)
  upserted c rows [] = rows ++ first_row float c ∷ []
  upserted c rows (row ∷ found) =
      map_where (is_row float c.spender c.model c.today) (λ r. add_charge float r c) rows

  upsert-found :
      (c : Charge Carrier K) (rows : List (DailySpend Carrier K))
      (charges : List (Charge Carrier K))
      → keep (is_row float c.spender c.model c.today) rows ≡ summary charges
      → upsert float c rows ≡ ok (upserted c rows (summary charges))
  unfolding upsert summary
  upsert-found c rows [] found = rw found
  upsert-found c rows (d ∷ charges) found = rw found

  is_charge_self : (c : Charge Carrier K) → is_charge c.spender c.model c.today c ≡ true
  is_charge_self c = ground (arith, (e.equals_iff c.spender c.spender).1 refl, eq_refl c.model)

  is_charge-eq :
      (spender : K) (model : String) (today : ℕ) (c : Charge Carrier K)
      → is_charge spender model today c ≡ true
      → (c.spender ≡ spender) × (c.model ≡ model) × (c.today ≡ today)
  is_charge-eq spender model today c h = (
    (e.equals_iff c.spender spender).0 (ground arith),
    (eq_iff c.model model).0 (ground arith),
    ground arith,
  )

  -- the rows of the charge's own key
  upserted_own :
      (c : Charge Carrier K) (rows : List (DailySpend Carrier K))
      (charges : List (Charge Carrier K))
      → keep (is_row float c.spender c.model c.today) rows ≡ summary charges
      → keep (is_row float c.spender c.model c.today) (upserted c rows (summary charges))
        ≡ bump c (summary charges)
  unfolding summary
  upserted_own c rows [] found = rw (keep-append, found, is_charge_self c)
  upserted_own c rows (d ∷ charges) found =
      let own = is_row float c.spender c.model c.today in
      keep-map_where own own (λ r. add_charge float r c) (λ r. refl) rows
      ∙ rw (found, keep-head own rows [] _ found)

  row_as_charge :
      (spender : K) (model : String) (today : ℕ) (c : Charge Carrier K) (r : DailySpend Carrier K)
      → is_row float c.spender c.model c.today r ≡ true
      → is_row float spender model today r ≡ is_charge spender model today c
  row_as_charge spender model today c r h =
      let same_spender : r.spender ≡ c.spender =
        (e.equals_iff r.spender c.spender).0 (ground arith) in
      let same_model : r.model ≡ c.model = (eq_iff r.model c.model).0 (ground arith) in
      let same_day : r.date ≡ c.today = ground arith in
      ap₂ (λ x y. x && y)
        (ap₂ (λ x y. x && y) (ap (λ x. x == spender) same_spender)
          (ap (λ x. x == model) same_model))
        (ap (λ x. x == today) same_day)

  -- the rows of another key
  upserted_other :
      (spender : K) (model : String) (today : ℕ) (c : Charge Carrier K)
      (rows found : List (DailySpend Carrier K))
      → is_charge spender model today c ≡ false
      → keep (is_row float spender model today) (upserted c rows found)
        ≡ keep (is_row float spender model today) rows
  upserted_other spender model today c rows [] other = rw (keep-append, other, append-nil)
  upserted_other spender model today c rows (row ∷ found) other =
      keep-map_where_out (is_row float spender model today) (is_row float c.spender c.model c.today)
        (λ r. add_charge float r c) (λ r h. row_as_charge spender model today c r h ∙ other)
        (λ r h. row_as_charge spender model today c r h ∙ other) rows

  -- If a daily table agrees with a list of charges, then an upsert raises nothing, and the new table agrees
  -- with the list with its charge at the end.
  pub upsert-Agrees :
      (c : Charge Carrier K) (rows : List (DailySpend Carrier K))
      (charges : List (Charge Carrier K))
      → Agrees rows charges
      → (rows' : List (DailySpend Carrier K)) × (upsert float c rows ≡ ok rows')
        × Agrees rows' (charges ++ c ∷ [])
  upsert-Agrees c rows charges h =
      let own = keep (is_charge c.spender c.model c.today) charges in
      (
        upserted c rows (summary own),
        upsert-found c rows own (h c.spender c.model c.today),
        λ spender model today. elim (Bool-cases (is_charge spender model today c)) [
          | inl same ↦
              let (same_spender, same_model, same_day) = is_charge-eq spender model today c same in
              subst₃
                (λ x y z.
                  keep (is_row float x y z) (upserted c rows (summary own))
                  ≡ summary (keep (is_charge x y z) (charges ++ c ∷ [])))
                same_spender same_model same_day
                (upserted_own c rows own (h c.spender c.model c.today)
                  ∙ sym (rw (keep-append, is_charge_self c) (summary-bump c own)))
          | inr other ↦
              upserted_other spender model today c rows (summary own) other
              ∙ h spender model today
              ∙ rw (keep-append, other, append-nil)
        ],
      )
