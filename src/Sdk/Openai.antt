-- ===== src/Sdk/Openai.antt =====
-- src/app/sdk/providers/openai.py: requests, responses, chunks and errors of OpenAI. Fresh ids and the
-- time are arguments, and environment variables too.
pub mod Request
use Prim.Native.String.{◌++◌}
use makoto_lite_llm.Base.{
  ℕ, String, Bool, true, false, ◌&&◌, not, Option, none, some, List, [], ◌∷◌, map, Outcome, ok, err,
  any, leb, ltb, ◌==◌, string_eq, nat_eq, if◌then◌else◌,
}
use makoto_lite_llm.Base.Outcomes.{◌>>=◌, for_each, need}
use makoto_lite_llm.Base.Text.{is_empty, rstrip}
use makoto_lite_llm.Json.{
  Json, str, arr, obj, Items, nil, Fields, end, field, get, put, update, to_list, from_list,
  is_truthy, is_null,
}
use makoto_lite_llm.Sdk.{
  ErrorClass, SdkError, authentication, rate_limit, bad_request, not_found, content_policy,
  context_window, internal_server, timeout, service_unavailable, lite_llm,
}
use makoto_lite_llm.Sdk.Access.{
  Fault, sdk_error, other_error, Library, as_str, as_count, as_fields, as_items, optional_str,
  str_or, str_at, count_at, fields_at, fields_or_empty, items_or_empty,
}
use makoto_lite_llm.Sdk.Types.{
  FunctionCall, ToolCall, Message, Usage, Choice, ModelResponse, Delta, StreamChoice,
  ModelResponseStream,
}

-- `_FORWARDED_PARAMS`
abbrev pub forwarded_params : List String
forwarded_params =
    "temperature" ∷ "top_p" ∷ "max_tokens" ∷ "stream" ∷ "stop" ∷ "user" ∷ "tools" ∷ "tool_choice"
    ∷ "n" ∷ "seed" ∷ "logprobs" ∷ "top_logprobs" ∷ "response_format" ∷ "presence_penalty"
    ∷ "frequency_penalty" ∷ "logit_bias" ∷ "stream_options" ∷ []

abbrev pub is_listed : String → List String → Bool
is_listed k names = any (λ name. name == k) names

-- the environment's text, or else the provider's own base
abbrev pub base_or_default : Option String → String → String
base_or_default none default = default
base_or_default (some t) default = if is_empty t then default else t

-- `api_base or os.environ.get(…) or DEFAULT_API_BASE`; what is no text has no `rstrip`
abbrev pub choose_base : Json → Option String → String → Outcome Fault String
choose_base (str t) env default = ok (if is_empty t then base_or_default env default else t)
choose_base v env default =
    if is_truthy v then err other_error else ok (base_or_default env default)

unfoldable pub get_api_base : Option String → Json → Outcome Fault String
get_api_base env api_base = do
  base ← choose_base api_base env "https://api.openai.com/v1"
  ok (rstrip b'/' base)

-- `if extra_headers: headers.update(extra_headers)`; a list of pairs, which `update` takes too, is refused here
abbrev pub with_extra : Fields → Json → Outcome Fault Fields
with_extra headers extra_headers =
    if is_truthy extra_headers
    then (do extra ← as_fields extra_headers; ok (update headers extra))
    else ok headers

unfoldable pub get_headers : String → Json → Outcome Fault Fields
get_headers api_key extra_headers =
    with_extra
      (field "Authorization" (str ("Bearer " ++ api_key))
        (field "Content-Type" (str "application/json") end))
      extra_headers

-- the loop over the parameters
unfoldable pub forward : List String → Fields → Fields → Fields
forward names body end = body
forward names body (field k v params) =
    forward names (if is_listed k names && not (is_null v) then put k v body else body) params

unfoldable pub transform_request : String → List Fields → Fields → Fields
unfolding forward
transform_request model messages params =
    forward forwarded_params
      (field "model" (str model) (field "messages" (arr (from_list (map obj messages))) end)) params

-- `[…] or None`
abbrev pub or_none : {A : Type 0} → List A → Option (List A)
or_none [] = none
or_none (x ∷ xs) = some (x ∷ xs)

abbrev pub tool_call_of : Json → Outcome Fault ToolCall
tool_call_of tc = do
  call ← as_fields tc
  id ← str_at "id" call
  kind ← str_at "type" call
  function ← fields_at "function" call
  name ← str_at "name" function
  arguments ← str_at "arguments" function
  ok (record { id = id; type = kind; function = record { name = name; arguments = arguments } })

abbrev pub choice_of : Json → Outcome Fault Choice
choice_of c = do
  choice ← as_fields c
  index ← count_at "index" choice
  message ← fields_at "message" choice
  role ← str_at "role" message
  content ← optional_str (get "content" message)
  calls ← items_or_empty "tool_calls" message
  tool_calls ← for_each tool_call_of (to_list calls)
  finish_reason ← optional_str (get "finish_reason" choice)
  ok (record {
    index = index;
    message = record {
      role = role;
      content = content;
      tool_calls = or_none tool_calls;
      tool_call_id = none;
    };
    finish_reason = finish_reason;
  })

abbrev pub usage_of : {F : Type 0} → Json → Outcome Fault (Usage F)
usage_of v = do
  u ← as_fields v
  prompt_tokens ← count_at "prompt_tokens" u
  completion_tokens ← count_at "completion_tokens" u
  total_tokens ← count_at "total_tokens" u
  ok (record {
    prompt_tokens = prompt_tokens;
    completion_tokens = completion_tokens;
    total_tokens = total_tokens;
    cost = none;
  })

-- `if raw.get("usage"): …`
abbrev pub usage_if : {F : Type 0} → Option Json → Outcome Fault (Option (Usage F))
usage_if none = ok none
usage_if (some v) = if is_truthy v then (do u ← usage_of v; ok (some u)) else ok none

-- `raw.get("id") or …` and `raw.get("created") or …`
abbrev str_unless : Option Json → String → Outcome Fault String
str_unless none default = ok default
str_unless (some v) default = if is_truthy v then as_str v else ok default

abbrev count_unless : Option Json → ℕ → Outcome Fault ℕ
count_unless none default = ok default
count_unless (some v) default = if is_truthy v then as_count v else ok default

unfoldable pub transform_response :
    {F : Type 0} → String → ℕ → Fields → String → Outcome Fault (ModelResponse F)
transform_response fresh_id now raw model = do
  cs ← need other_error (get "choices" raw)
  items ← as_items cs
  choices ← for_each choice_of (to_list items)
  usage ← usage_if (get "usage" raw)
  id ← str_unless (get "id" raw) fresh_id
  created ← count_unless (get "created" raw) now
  name ← str_or model "model" raw
  ok (record { id = id; created = created; model = name; choices = choices; usage = usage })

abbrev pub delta_call_of : Json → Outcome Fault ToolCall
delta_call_of tc = do
  call ← as_fields tc
  id ← str_or "" "id" call
  kind ← str_or "function" "type" call
  function ← fields_at "function" call
  name ← str_or "" "name" function
  arguments ← str_or "" "arguments" function
  ok (record { id = id; type = kind; function = record { name = name; arguments = arguments } })

abbrev pub stream_choice_of : Json → Outcome Fault StreamChoice
stream_choice_of c = do
  choice ← as_fields c
  index ← count_at "index" choice
  delta ← fields_at "delta" choice
  role ← optional_str (get "role" delta)
  content ← optional_str (get "content" delta)
  calls ← items_or_empty "tool_calls" delta
  tool_calls ← for_each delta_call_of (to_list calls)
  finish_reason ← optional_str (get "finish_reason" choice)
  ok (record {
    index = index;
    delta = record { role = role; content = content; tool_calls = or_none tool_calls };
    finish_reason = finish_reason;
  })

abbrev chunk_of :
    {F : Type 0} → Option Json → Fields → String → Outcome Fault (Option (ModelResponseStream F))
chunk_of none chunk model = ok none
chunk_of (some cs) chunk model = do
  items ← as_items cs
  choices ← for_each stream_choice_of (to_list items)
  usage ← usage_if (get "usage" chunk)
  id ← str_at "id" chunk
  created ← count_at "created" chunk
  name ← str_or model "model" chunk
  ok (some (record { id = id; created = created; model = name; choices = choices; usage = usage }))

-- An empty chunk has no choices.
unfoldable pub transform_stream_chunk :
    {F : Type 0} → Fields → String → Outcome Fault (Option (ModelResponseStream F))
transform_stream_chunk chunk model = chunk_of (get "choices" chunk) chunk model

-- `(body.get("error") or {}).get("message", str(body))`; a message that is no text is shown as one
abbrev pub message_of : Library → Fields → Fields → String
message_of library body error = elim (get "message" error) [
  | none ↦ library.show (obj body)
  | some v ↦ elim v [ str t ↦ t | w ↦ library.show w ]
]

abbrev pub is_str : String → Option Json → Bool
is_str t none = false
is_str t (some (str s)) = s == t
is_str t (some _) = false

-- the chain of tests on the status, and for a 400 on the code
abbrev pub classify : ℕ → Option Json → ErrorClass
classify status_code code =
    if status_code == 401
    then authentication
    else if status_code == 404
    then not_found
    else if status_code == 408
    then timeout
    else if status_code == 429
    then rate_limit
    else if status_code == 400
    then (if is_str "context_length_exceeded" code
        then context_window
        else if is_str "content_filter" code
        then content_policy
        else bad_request)
    else if status_code == 503
    then service_unavailable
    else if leb 500 status_code && ltb status_code 600
    then internal_server
    else lite_llm

unfoldable pub get_error_class : Library → ℕ → Fields → Outcome Fault SdkError
get_error_class library status_code body = do
  error ← fields_or_empty "error" body
  ok (record {
    class = classify status_code (get "code" error);
    status_code = status_code;
    message = message_of library body error;
  })
