-- ===== src/Float.antt =====
-- Python's floats, of which the program computes with few operations: the type and the operations
-- are a parameter, and nothing is assumed of them.
use makoto_lite_llm.Base.{ℕ, String, Bool, List}

pub record Float : Type 1 where
  pub Carrier : Type 0
  -- `0.0`
  pub zero : Carrier
  pub add : Carrier → Carrier → Carrier
  -- an `int` times a float
  pub scale : ℕ → Carrier → Carrier
  -- the built-in `sum`
  pub sum : List Carrier → Carrier
  -- `a <= b`
  pub le : Carrier → Carrier → Bool
  -- `a == 0.0`, which `or` tests
  pub is_zero : Carrier → Bool
  -- `f"{a}"` and `f"{a:.4f}"`
  pub show : Carrier → String
  pub show_fixed : Carrier → String
