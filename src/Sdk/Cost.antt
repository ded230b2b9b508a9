-- ===== src/Sdk/Cost.antt =====
-- src/app/sdk/cost.py: the cost of a usage by the table of prices, model_prices.json.
use makoto_lite_llm.Base.{
  String, Bool, Option, none, some, List, [], ◌∷◌, ◌==◌, string_eq, or_else, if◌then◌else◌,
}
use makoto_lite_llm.Float.{Float}
use makoto_lite_llm.Sdk.Types.{Usage}

-- an entry of the table: is it the empty dict, and the two prices, if it has them
pub record Price (F : Type 0) : Type 0 where
  pub is_empty : Bool
  pub input_cost_per_token : Option F
  pub output_cost_per_token : Option F

module _ (float : Float) where
  open float use {Carrier}

  -- `_load().get(model)`
  abbrev pub find_price : List (String × Price Carrier) → String → Option (Price Carrier)
  find_price [] model = none
  find_price ((name, price) ∷ prices) model =
      if name == model then some price else find_price prices model

  abbrev price_usage : Option (Price Carrier) → Usage Carrier → Option Carrier
  price_usage none usage = none
  price_usage (some info) usage =
      if info.is_empty
      then none
      else some (
          float.add (float.scale usage.prompt_tokens (or_else info.input_cost_per_token float.zero))
            (float.scale usage.completion_tokens (or_else info.output_cost_per_token float.zero)))

  unfoldable pub calculate_cost :
      List (String × Price Carrier) → String → Usage Carrier → Option Carrier
  calculate_cost prices model usage = price_usage (find_price prices model) usage

  -- `cost or 0.0`
  abbrev pub cost_or_zero : Option Carrier → Carrier
  cost_or_zero none = float.zero
  cost_or_zero (some c) = if float.is_zero c then float.zero else c
