-- ===== src/Application/Envelope.antt =====
-- What a client of the proxy gets for an error.
use package.text.Mathlib.Text.{starts_with}
use makoto_lite_llm.Application.{Response, detail_json, text_or_null, openai_shape_error_handler}
use makoto_lite_llm.Base.{ℕ, String, ◌≡◌, refl, true, Option, none, some}
use makoto_lite_llm.Base.Int.{ℤ}
use makoto_lite_llm.Failure.{Detail, ErrorBody, text, body}
use makoto_lite_llm.Json.{Json, str, obj, Fields, get}

-- the error that a detail stands for
abbrev pub error_of : Detail → ErrorBody
error_of (text t) = record { message = t; etype = "api_error"; code = none }
error_of (body b) = b

-- an object with the three parts of an error under `error`
abbrev pub IsEnvelope : ErrorBody → Json → Type 0
IsEnvelope e content =
    (outer error : Fields) × (content ≡ obj outer)
    × (get "error" outer ≡ some (obj error))
    × (get "message" error ≡ some (str e.message))
    × (get "type" error ≡ some (str e.etype))
    × (get "code" error ≡ some (text_or_null e.code))

-- Under `/v1/` every HTTPException of the program is answered with its status, its Retry-After, and the OpenAI shape: an
-- object `error` with the message, the type and the code of its detail, where a plain text is the message of an
-- `api_error` without a code.
pub openai_shape_error_handler-IsEnvelope :
    (default : ℕ → Json → Option ℤ → Response) (show : Json → String) (path : String) (status : ℕ)
    (detail : Detail) (retry_after : Option ℤ)
    → starts_with path "/v1/" ≡ true
    → let response =
        openai_shape_error_handler default show path status (detail_json detail) retry_after in
      (response.status ≡ status)
      × (response.retry_after ≡ retry_after)
      × IsEnvelope (error_of detail) response.content
unfolding openai_shape_error_handler
openai_shape_error_handler-IsEnvelope default show path status (text t) retry_after api =
    rw api (refl, refl, (_, _, refl, refl, refl, refl, refl))
openai_shape_error_handler-IsEnvelope default show path status (body b) retry_after api =
    rw api (refl, refl, (_, _, refl, refl, refl, refl, refl))
