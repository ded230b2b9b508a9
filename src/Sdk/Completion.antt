-- ===== src/Sdk/Completion.antt =====
-- src/app/sdk/main.py: `acompletion`, over the providers. What the HTTP client answers to a request is a
-- parameter: a status and the text of a body, or an exception of the library.
pub mod Redirect
use Prim.Native.String.{◌++◌ as cat}
use makoto_lite_llm.Base.{
  ℕ, String, Bool, true, false, Option, none, some, List, [], ◌∷◌, ◌++◌, Outcome, ok, err, Action,
  leb, ◌==◌, string_eq, is_some, or_else, if◌then◌else◌,
}
use makoto_lite_llm.Base.Outcomes.{◌>>=◌}
use makoto_lite_llm.Base.Text.{is_empty}
use makoto_lite_llm.Float.{Float}
use makoto_lite_llm.Json.{Json, null, boolean, str, obj, Fields, end, field, get, put, delete}
use makoto_lite_llm.Sdk.{SdkError, authentication, Resolved, resolve_provider}
use makoto_lite_llm.Sdk.Access.{Fault, sdk_error, other_error, Library, as_fields}
use makoto_lite_llm.Sdk.Anthropic as Anthropic
use makoto_lite_llm.Sdk.Anthropic.Responses as Responses
use makoto_lite_llm.Sdk.Cost.{Price, calculate_cost}
use makoto_lite_llm.Sdk.Openai as Openai
use makoto_lite_llm.Sdk.Types.{Usage, ModelResponse, ModelResponseStream}

-- the classes of the registry
pub data Provider : Type 0 where
  openai anthropic : Provider

-- the class for a name that `resolve_provider` has found
abbrev pub provider_of : String → Provider
provider_of name = if name == "anthropic" then anthropic else openai

-- the environment variables that the SDK reads
pub record Environment : Type 0 where
  pub openai_api_key : Option String
  pub openai_api_base : Option String
  pub anthropic_api_base : Option String

-- what is sent upstream
pub record Request : Type 0 where
  pub base : String
  pub api_key : String
  pub path : String
  pub headers : Fields
  pub body : Fields
  pub timeout : Json

module _ (library : Library) where
  abbrev pub get_error_class : Provider → ℕ → Fields → Outcome Fault SdkError
  get_error_class openai status body = Openai.get_error_class library status body
  get_error_class anthropic status body = Responses.get_error_class library status body

  -- `provider.transform_response`, with what it draws
  abbrev pub transform_response :
      {F : Type 0} → Provider → String → ℕ → Fields → String → Outcome Fault (ModelResponse F)
  transform_response openai fresh_id now raw model =
      Openai.transform_response fresh_id now raw model
  transform_response anthropic fresh_id now raw model =
      Responses.transform_response library now raw model

abbrev pub transform_stream_chunk :
    {F : Type 0}
    → Provider
    → String
    → ℕ
    → String
    → Fields
    → Outcome Fault (Option (ModelResponseStream F))
transform_stream_chunk openai fresh_id now model chunk = Openai.transform_stream_chunk chunk model
transform_stream_chunk anthropic fresh_id now model chunk =
    Responses.transform_stream_chunk fresh_id now model chunk

abbrev pub transform_request : Provider → String → List Fields → Fields → Outcome Fault Fields
transform_request openai model messages params = ok (Openai.transform_request model messages params)
transform_request anthropic model messages params =
    Anthropic.transform_request model messages params

abbrev pub get_headers : Provider → String → Json → Outcome Fault Fields
get_headers openai api_key extra_headers = Openai.get_headers api_key extra_headers
get_headers anthropic api_key extra_headers = Anthropic.get_headers api_key extra_headers

abbrev pub get_api_base : Environment → Provider → Json → Outcome Fault String
get_api_base environment openai api_base = Openai.get_api_base environment.openai_api_base api_base
get_api_base environment anthropic api_base =
    Anthropic.get_api_base environment.anthropic_api_base api_base

abbrev pub completions_path : Provider → String
completions_path openai = "/chat/completions"
completions_path anthropic = "/messages"

-- the value of a keyword argument, or its default `None`
abbrev pub argument : String → Fields → Json
argument k kwargs = or_else (get k kwargs) null

-- the keyword arguments that have a name of their own
unfoldable pub without_named : Fields → Fields
unfolding delete
without_named kwargs = delete "temperature" (
    delete "top_p" (
      delete "max_tokens" (
        delete "tools" (
          delete "tool_choice" (
            delete "stop" (
              delete "user"
                (delete "timeout" (delete "api_base" (delete "extra_headers" kwargs)))))))))

-- `params`
abbrev pub params_of : Bool → Fields → Fields
params_of stream kwargs = field "temperature" (argument "temperature" kwargs) (
    field "top_p" (argument "top_p" kwargs) (
      field "max_tokens" (argument "max_tokens" kwargs) (
        field "stream" (boolean stream) (
          field "tools" (argument "tools" kwargs) (
            field "tool_choice" (argument "tool_choice" kwargs) (
              field "stop" (argument "stop" kwargs)
                (field "user" (argument "user" kwargs) (without_named kwargs))))))))

-- `api_key or os.environ.get("OPENAI_API_KEY")`
abbrev pub resolve_key : Environment → String → Outcome Fault String
resolve_key environment api_key =
    if is_empty api_key
    then elim environment.openai_api_key [
      | none ↦ err no_key
      | some t ↦ if is_empty t then err no_key else ok t
    ]
    else ok api_key
  where
    no_key : Fault
    no_key = sdk_error (record {
      class = authentication;
      status_code = 401;
      message = "No api_key passed and OPENAI_API_KEY env var is not set";
    })

abbrev pub registry : List String
registry = "anthropic" ∷ "openai" ∷ []

abbrev as_fault : {A : Type 0} → Outcome SdkError A → Outcome Fault A
as_fault (ok a) = ok a
as_fault (err e) = err (sdk_error e)

-- A keyword that the call passes itself, once more among the others, is a `TypeError`.
abbrev pub passes_twice : Fields → Bool
passes_twice kwargs = is_some (get "api_key" kwargs)

-- `timeout: float = 600.0`
abbrev default_timeout : Json
default_timeout = Json.float "600.0"

-- the request of a resolved model, with the key
unfoldable pub prepare_request :
    Environment
    → Bool
    → Resolved
    → String
    → List Fields
    → Fields
    → Outcome Fault (Resolved × Request)
unfolding without_named
prepare_request environment stream resolved key messages kwargs = do
  let provider = provider_of resolved.provider_name
  body ← transform_request provider resolved.bare_model messages (params_of stream kwargs)
  headers ← get_headers provider key (argument "extra_headers" kwargs)
  base ← get_api_base environment provider (argument "api_base" kwargs)
  ok (
    resolved,
    record {
      base = base;
      api_key = key;
      path = completions_path provider;
      headers = headers;
      body = body;
      timeout = or_else (get "timeout" kwargs) default_timeout;
    },
  )

-- the part of `acompletion` before the request is sent
unfoldable pub build_request :
    Environment → Bool → String → String → List Fields → Fields → Outcome Fault (Resolved × Request)
unfolding resolve_provider prepare_request
build_request environment stream api_key model messages kwargs =
    if passes_twice kwargs then err other_error else (do
      resolved ← as_fault (resolve_provider registry "['anthropic', 'openai']" model)
      key ← resolve_key environment api_key
      prepare_request environment stream resolved key messages kwargs)

module _ (float : Float) (library : Library) where
  open float use {Carrier}

  -- `response.usage.cost = calculate_cost(…)`
  abbrev pub with_cost :
      List (String × Price Carrier) → Resolved → ModelResponse Carrier → ModelResponse Carrier
  with_cost prices resolved response = elim response.usage [
    | none ↦ response
    | some usage ↦ record response {
      usage = some (record usage {
        cost =
            calculate_cost float prices (cat resolved.provider_name (cat "/" resolved.bare_model))
              usage;
      });
    }
  ]

  abbrev raise : {A : Type 0} → SdkError → Outcome Fault A
  raise e = err (sdk_error e)

  -- what becomes of a body that has come with a status
  abbrev finish_reply :
      List (String × Price Carrier)
      → String
      → ℕ
      → Resolved
      → ℕ
      → Fields
      → Outcome Fault (ModelResponse Carrier)
  finish_reply prices fresh_id now resolved status raw =
      let provider = provider_of resolved.provider_name in
      if leb 400 status then get_error_class library provider status raw >>= raise else (do
        response ← transform_response library provider fresh_id now raw resolved.bare_model
        ok (with_cost prices resolved response))

  -- what becomes of the answer to a request without `stream`
  abbrev pub finish :
      List (String × Price Carrier)
      → String
      → ℕ
      → Resolved
      → Outcome Fault (ℕ × Json)
      → Outcome Fault (ModelResponse Carrier)
  finish prices fresh_id now resolved answer = do
    reply ← answer
    let provider = provider_of resolved.provider_name
    raw ← as_fields reply.1
    finish_reply prices fresh_id now resolved reply.0 raw

  -- `LLMHttpClient.post`, on what httpx answers: a body that is no JSON is wrapped
  abbrev pub decode_reply : Outcome Fault (ℕ × String) → Outcome Fault (ℕ × Json)
  decode_reply answer = do
    reply ← answer
    ok (
      reply.0,
      or_else (library.loads reply.1)
          (obj (field "error" (obj (field "message" (str reply.1) end)) end)),
    )

  -- `acompletion` without `stream`; `send` is httpx, and the state holds the requests that were sent
  unfoldable pub acompletion :
      Environment
      → List (String × Price Carrier)
      → (Request → Outcome Fault (ℕ × String))
      → String
      → ℕ
      → String
      → String
      → List Fields
      → Fields
      → Action (List Request) Fault (ModelResponse Carrier)
  unfolding build_request
  acompletion environment prices send fresh_id now api_key model messages kwargs requests =
      complete (build_request environment false api_key model messages kwargs)
    where
      complete :
          Outcome Fault (Resolved × Request) → Outcome Fault (ModelResponse Carrier) × List Request
      complete (err fault) = (err fault, requests)
      complete (ok (resolved, request)) = (
        finish prices fresh_id now resolved (decode_reply (send request)),
        requests ++ request ∷ [],
      )
