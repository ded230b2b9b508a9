-- ===== src/Sdk/Anthropic.antt =====
-- src/app/sdk/providers/anthropic.py: the translation between OpenAI's shapes and Anthropic's. Fresh ids
-- and the time are arguments, and the environment too.
pub mod Request
pub mod Responses
use Prim.Native.String.{◌++◌ as cat}
use package.text.Mathlib.Text.{find?}
use makoto_lite_llm.Base.{
  ℕ, ◌+◌, String, Bool, true, false, ◌&&◌, ◌||◌, not, Option, none, some, List, [], ◌∷◌, ◌++◌, map,
  Outcome, ok, err, any, leb, ltb, is_some, ◌==◌, string_eq, nat_eq, if◌then◌else◌,
}
use makoto_lite_llm.Base.Int.{pos}
use makoto_lite_llm.Base.Outcomes.{◌>>=◌, for_each, need}
use makoto_lite_llm.Base.Text.{is_empty, rstrip}
use makoto_lite_llm.Json.{
  Json, null, str, int, arr, obj, Items, nil, cons, Fields, end, field, get, put, update, delete,
  to_list, from_list, is_truthy, is_null,
}
use makoto_lite_llm.Sdk.{
  ErrorClass, SdkError, authentication, rate_limit, bad_request, not_found, context_window,
  internal_server, timeout, service_unavailable, lite_llm,
}
use makoto_lite_llm.Sdk.Access.{
  Fault, other_error, Library, as_str, as_fields, as_items, optional_str, str_or, str_at,
  count_or_zero, fields_at, fields_or_empty,
}
use makoto_lite_llm.Sdk.Openai.{is_listed, is_str, choose_base, with_extra, or_none}
use makoto_lite_llm.Sdk.Types.{
  FunctionCall, ToolCall, Message, Usage, Choice, ModelResponse, Delta, StreamChoice,
  ModelResponseStream,
}

-- `_FORWARDED_PARAMS`
abbrev pub forwarded_params : List String
forwarded_params =
    "temperature" ∷ "top_p" ∷ "top_k" ∷ "max_tokens" ∷ "stream" ∷ "stop_sequences" ∷ "tools"
    ∷ "tool_choice" ∷ "metadata" ∷ "service_tier" ∷ []

-- `_STOP_REASON_MAP.get(reason, reason)`
abbrev pub map_stop_reason : String → String
map_stop_reason reason =
    if reason == "end_turn"
    then "stop"
    else if reason == "max_tokens"
    then "length"
    else if reason == "tool_use"
    then "tool_calls"
    else if reason == "stop_sequence"
    then "stop"
    else reason

abbrev translate_tool : Json → Outcome Fault Json
translate_tool t = do
  tool ← as_fields t
  function ← fields_at "function" tool
  name ← need other_error (get "name" function)
  parameters ← need other_error (get "parameters" function)
  ok (
      obj (
        field "name" name (
          field "description" (elim (get "description" function) [ none ↦ str "" | some v ↦ v ])
            (field "input_schema" parameters end))))

unfoldable pub translate_tools : Json → Outcome Fault Json
translate_tools openai_tools = do
  tools ← as_items openai_tools
  translated ← for_each translate_tool (to_list tools)
  ok (arr (from_list translated))

-- an OpenAI-shaped choice of a function, and any other dict as it is
abbrev translate_choice_of : Fields → Option Json → Outcome Fault (Option Json)
translate_choice_of value none = ok (some (obj value))
translate_choice_of value (some f) = do
  function ← as_fields f
  name ← need other_error (get "name" function)
  ok (some (obj (field "type" (str "tool") (field "name" name end))))

-- `none` omits the choice
unfoldable pub translate_tool_choice : Json → Outcome Fault (Option Json)
translate_tool_choice (str t) =
    if t == "auto"
    then ok (some (obj (field "type" (str "auto") end)))
    else if t == "none"
    then ok none
    else ok (some (str t))
translate_tool_choice (obj value) = translate_choice_of value (get "function" value)
translate_tool_choice value = ok (some value)

-- the texts of the system messages so far, and the other messages, in order
abbrev pub Parts : Type 0
Parts = List String × List Fields

abbrev pub is_system : Fields → Bool
is_system m = is_str "system" (get "role" m)

-- the content of a system message, if it is a text
abbrev pub text_content : Option Json → List String
text_content (some (str t)) = t ∷ []
text_content _ = []

-- the loop, with what it has collected
unfoldable pub walk : Parts → List Fields → Parts
walk parts [] = parts
walk (system_parts, remaining) (m ∷ messages) =
    walk
      (if is_system m
        then (system_parts ++ text_content (get "content" m), remaining)
        else (system_parts, remaining ++ m ∷ []))
      messages

-- `"\n\n".join(parts)`
unfoldable pub join : List String → String
join [] = ""
join (t ∷ []) = t
join (t ∷ u ∷ parts) = cat t (cat "\n\n" (join (u ∷ parts)))

unfoldable pub join_if_any : List String → Option String
unfolding join
join_if_any [] = none
join_if_any (t ∷ parts) = some (join (t ∷ parts))

unfoldable pub extract_system_messages : List Fields → Option String × List Fields
unfolding walk join_if_any
extract_system_messages messages =
    let (system_parts, remaining) = walk ([], []) messages in (join_if_any system_parts, remaining)

-- `[v] if isinstance(v, str) else list(v)`
abbrev keys : Fields → Items
keys end = nil
keys (field k v d) = cons (str k) (keys d)

abbrev pub stop_sequences : Json → Outcome Fault Json
stop_sequences (str t) = ok (arr (cons (str t) nil))
stop_sequences (arr xs) = ok (arr xs)
stop_sequences (obj d) = ok (arr (keys d))
stop_sequences _ = err other_error

unfoldable pub put_if : Option Json → Fields → Fields
unfolding put
put_if none allowlisted = allowlisted
put_if (some choice) allowlisted = put "tool_choice" choice allowlisted

-- one parameter of the loop
abbrev pub translate_param : Fields → String → Json → Outcome Fault Fields
unfolding put put_if translate_tools translate_tool_choice
translate_param allowlisted k v =
    if is_null v
    then ok allowlisted
    else if k == "stop"
    then (do seqs ← stop_sequences v; ok (put "stop_sequences" seqs allowlisted))
    else if k == "tools"
    then (do tools ← translate_tools v; ok (put "tools" tools allowlisted))
    else if k == "tool_choice"
    then (do choice ← translate_tool_choice v; ok (put_if choice allowlisted))
    else if is_listed k forwarded_params
    then ok (put k v allowlisted)
    else ok allowlisted

unfoldable pub allowlist : Fields → Fields → Outcome Fault Fields
unfolding translate_param
allowlist allowlisted end = ok allowlisted
allowlist allowlisted (field k v params) =
    translate_param allowlisted k v >>= λ allowlisted'. allowlist allowlisted' params

-- `allowlisted.pop("max_tokens", None) or DEFAULT_MAX_TOKENS`
abbrev pub max_tokens_of : Option Json → Json
max_tokens_of none = int (pos 4096)
max_tokens_of (some v) = if is_truthy v then v else int (pos 4096)

unfoldable pub put_system : Option String → Fields → Fields
unfolding put
put_system none body = body
put_system (some t) body = if is_empty t then body else put "system" (str t) body

unfoldable pub transform_request : String → List Fields → Fields → Outcome Fault Fields
unfolding extract_system_messages allowlist put_system put update delete
transform_request model messages params = do
  let (system_text, filtered_messages) = extract_system_messages messages
  allowlisted ← allowlist end params
  ok (
      update
        (put "max_tokens" (max_tokens_of (get "max_tokens" allowlisted)) (
          put_system system_text (
            field "model" (str model)
              (field "messages" (arr (from_list (map obj filtered_messages))) end))))
        (delete "max_tokens" allowlisted))

unfoldable pub get_api_base : Option String → Json → Outcome Fault String
get_api_base env api_base = do
  base ← choose_base api_base env "https://api.anthropic.com/v1"
  ok (rstrip b'/' base)

unfoldable pub get_headers : String → Json → Outcome Fault Fields
get_headers api_key extra_headers =
    with_extra
      (field "x-api-key" (str api_key) (
        field "anthropic-version" (str "2023-06-01")
          (field "content-type" (str "application/json") end)))
      extra_headers
