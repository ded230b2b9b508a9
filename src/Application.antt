-- ===== src/Application.antt =====
-- src/app/main.py: the handler of `HTTPException`. FastAPI's own handler, for paths outside `/v1/`, is a
-- parameter; all other exceptions are Starlette's.
pub mod Envelope
use package.text.Mathlib.Text.{starts_with}
use makoto_lite_llm.Base.{ℕ, String, Option, none, some, is_some, if◌then◌else◌}
use makoto_lite_llm.Base.Int.{ℤ}
use makoto_lite_llm.Failure.{Detail, text, body, ErrorBody}
use makoto_lite_llm.Json.{Json, null, str, obj, Fields, end, field, get}

-- the header Retry-After is the only one that the program sets
pub record Response : Type 0 where
  pub status : ℕ
  pub content : Json
  pub retry_after : Option ℤ

abbrev pub text_or_null : Option String → Json
text_or_null none = null
text_or_null (some t) = str t

-- what the program gives as `detail`
abbrev pub detail_json : Detail → Json
detail_json (text t) = str t
detail_json (body b) = obj (
    field "error"
      (obj (
        field "message" (str b.message)
          (field "type" (str b.etype) (field "code" (text_or_null b.code) end))))
      end)

abbrev pub api_error : String → Json
api_error message = obj (
    field "error"
      (obj (field "message" (str message) (field "type" (str "api_error") (field "code" null end))))
      end)

-- the three shapes of a detail; `show` is `str`
abbrev pub envelope : (Json → String) → Json → Json
envelope show (obj d) = if is_some (get "error" d) then obj d else obj (field "error" (obj d) end)
envelope show (str t) = api_error t
envelope show detail = api_error (show detail)

unfoldable pub openai_shape_error_handler :
    (ℕ → Json → Option ℤ → Response) → (Json → String) → String → ℕ → Json → Option ℤ → Response
openai_shape_error_handler default show path status detail retry_after =
    if starts_with path "/v1/"
    then record { status = status; content = envelope show detail; retry_after = retry_after }
    else default status detail retry_after
