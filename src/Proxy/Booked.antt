-- ===== src/Proxy/Booked.antt =====
-- What the arguments of `log_spend` in src/app/routes/proxy_routes.py should say, apart from the code.
use makoto_lite_llm.Base.{String, ◌≡◌, refl, false, Option, none, some, if◌then◌else◌}
use makoto_lite_llm.Float.{Float}
use makoto_lite_llm.Models.{User, ApiKey, SpendLog}
use makoto_lite_llm.Proxy.{ChatRequest, Draw, provider_part, bare_part, spend_row}
use makoto_lite_llm.Sdk.Cost.{cost_or_zero}
use makoto_lite_llm.Sdk.Types.{Usage}

module _ (float : Float) where
  open float use {Carrier}

  -- the row names the key of the request, its team and its organization
  abbrev pub IsBookedOn : Option (ApiKey Carrier) → SpendLog Carrier → Type 0
  IsBookedOn none row = (row.api_key_hash ≡ "") × (row.team_id ≡ none) × (row.org_id ≡ none)
  IsBookedOn (some key) row =
      (row.api_key_hash ≡ key.api_key_hash)
      × (row.team_id ≡ key.team_id)
      × (row.org_id ≡ key.org_id)

  abbrev pub HasTokens : Option (Usage Carrier) → SpendLog Carrier → Type 0
  HasTokens none row = (row.input_tokens ≡ 0) × (row.output_tokens ≡ 0)
  HasTokens (some u) row =
      (row.input_tokens ≡ u.prompt_tokens) × (row.output_tokens ≡ u.completion_tokens)

  abbrev pub HasCost : Option Carrier → SpendLog Carrier → Type 0
  HasCost none row = row.spend ≡ float.zero
  HasCost (some cost) row = row.spend ≡ (if float.is_zero cost then float.zero else cost)

  -- every column of the row of a request
  pub record IsRowOf (draw : Draw) (request : ChatRequest) (user : User Carrier)
      (key : Option (ApiKey Carrier)) (usage : Option (Usage Carrier)) (cost : Option Carrier)
      (status : String) (row : SpendLog Carrier) : Type 0 where
    pub identified : row.request_id ≡ draw.request_id
    pub of_user : row.user_id ≡ some user.id
    pub booked : IsBookedOn key row
    pub without_project : row.project_id ≡ none
    pub of_model : row.model ≡ bare_part request.model
    pub of_provider : row.provider ≡ provider_part request.model
    pub counted : HasTokens usage row
    pub charged : HasCost cost row
    pub not_cached : row.cache_hit ≡ false
    pub ended : row.status ≡ status
    pub timed : row.response_time_ms ≡ draw.elapsed_ms

  pub spend_row-IsRowOf :
      (draw : Draw) (request : ChatRequest) (user : User Carrier) (key : Option (ApiKey Carrier))
      (usage : Option (Usage Carrier)) (cost : Option Carrier) (status : String)
      → IsRowOf draw request user key usage cost status
          (spend_row draw request user key usage (cost_or_zero float cost) status)
  unfolding spend_row
  spend_row-IsRowOf draw request user key usage cost status = record {
    identified = refl;
    of_user = refl;
    booked = on_key key;
    without_project = refl;
    of_model = refl;
    of_provider = refl;
    counted = tokens usage;
    charged = costs cost;
    not_cached = refl;
    ended = refl;
    timed = refl;
  }
    where
      on_key :
          (key : Option (ApiKey Carrier))
          → IsBookedOn key (spend_row draw request user key usage (cost_or_zero float cost) status)
      on_key none = (refl, refl, refl)
      on_key (some k) = (refl, refl, refl)

      tokens :
          (usage : Option (Usage Carrier))
          → HasTokens usage (spend_row draw request user key usage (cost_or_zero float cost) status)
      tokens none = (refl, refl)
      tokens (some u) = (refl, refl)

      costs :
          (cost : Option Carrier)
          → HasCost cost (spend_row draw request user key usage (cost_or_zero float cost) status)
      costs none = refl
      costs (some c) = refl
