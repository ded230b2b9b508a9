-- ===== src/Failure.antt =====
-- What the program raises: src/app/exceptions.py, FastAPI's `HTTPException`, and the errors of the
-- database layer that the services catch or let through.
use makoto_lite_llm.Base.{ℕ, String, Option, none}
use makoto_lite_llm.Base.Int.{ℤ}

-- the OpenAI-shaped error object, `{"error": {"message", "type", "code"}}`
pub record ErrorBody : Type 0 where
  pub message : String
  pub etype : String
  pub code : Option String

pub data Detail : Type 0 where
  text : String → Detail
  body : ErrorBody → Detail

pub data Failure : Type 0 where
  -- status, detail and the header Retry-After
  http : ℕ → Detail → Option ℤ → Failure
  duplicate_error : String → Failure
  -- any other exception is `uncaught`
  integrity_error no_result_found multiple_results_found value_error uncaught : Failure

-- `HTTPException(status_code=…, detail="…")`
abbrev pub http_error : ℕ → String → Failure
http_error status message = http status (text message) none
