-- ===== src/Sdk/Types.antt =====
-- src/app/sdk/types.py: what the SDK returns, whole and in chunks. `F` is the type of floats.
use makoto_lite_llm.Base.{ℕ, String, Option, List}

pub record FunctionCall : Type 0 where
  pub name : String
  pub arguments : String

pub record ToolCall : Type 0 where
  pub id : String
  pub type : String
  pub function : FunctionCall

pub record Message : Type 0 where
  pub role : String
  pub content : Option String
  pub tool_calls : Option (List ToolCall)
  pub tool_call_id : Option String

-- Counts are natural numbers.
pub record Usage (F : Type 0) : Type 0 where
  pub prompt_tokens : ℕ
  pub completion_tokens : ℕ
  pub total_tokens : ℕ
  pub cost : Option F

pub record Choice : Type 0 where
  pub index : ℕ
  pub message : Message
  pub finish_reason : Option String

-- The field `object` is a constant.
pub record ModelResponse (F : Type 0) : Type 0 where
  pub id : String
  pub created : ℕ
  pub model : String
  pub choices : List Choice
  pub usage : Option (Usage F)

pub record Delta : Type 0 where
  pub role : Option String
  pub content : Option String
  pub tool_calls : Option (List ToolCall)

pub record StreamChoice : Type 0 where
  pub index : ℕ
  pub delta : Delta
  pub finish_reason : Option String

pub record ModelResponseStream (F : Type 0) : Type 0 where
  pub id : String
  pub created : ℕ
  pub model : String
  pub choices : List StreamChoice
  pub usage : Option (Usage F)
