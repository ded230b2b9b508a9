-- ===== src/Sdk/Anthropic/Responses.antt =====
-- Responses, chunks and errors of Anthropic, in OpenAI's shape.
use Prim.Native.String.{◌++◌ as cat}
use package.text.Mathlib.Text.{find?}
use makoto_lite_llm.Base.{
  ℕ, ◌+◌, String, Bool, ◌&&◌, ◌||◌, Option, none, some, List, [], ◌∷◌, ◌++◌, Outcome, ok, leb, ltb,
  is_some, ◌==◌, string_eq, nat_eq, if◌then◌else◌,
}
use makoto_lite_llm.Base.Outcomes.{◌>>=◌}
use makoto_lite_llm.Json.{Json, obj, Items, nil, cons, Fields, end, get}
use makoto_lite_llm.Sdk.{
  ErrorClass, SdkError, authentication, rate_limit, bad_request, not_found, context_window,
  internal_server, timeout, service_unavailable, lite_llm,
}
use makoto_lite_llm.Sdk.Access.{
  Fault, Library, as_fields, as_items, optional_str, str_or, str_at, count_or_zero, fields_or_empty,
}
use makoto_lite_llm.Sdk.Openai.{is_str, or_none}
use makoto_lite_llm.Sdk.Types.{ToolCall, Usage, ModelResponse, Delta, ModelResponseStream}
use makoto_lite_llm.Sdk.Anthropic.{map_stop_reason}

-- the texts and the tool calls of the blocks so far
abbrev pub Collected : Type 0
Collected = List String × List ToolCall

-- `"".join(text_parts) if text_parts else None`
unfoldable pub concat : List String → String
concat [] = ""
concat (t ∷ parts) = cat t (concat parts)

abbrev content_of : List String → Option String
unfolding concat
content_of [] = none
content_of (t ∷ parts) = some (concat (t ∷ parts))

abbrev content_items : Option Json → Outcome Fault Items
content_items none = ok nil
content_items (some v) = as_items v

abbrev finish_reason_of : Option Json → Outcome Fault (Option String)
finish_reason_of v = do
  reason ← optional_str v
  ok (elim reason [ none ↦ none | some r ↦ some (map_stop_reason r) ])

abbrev pub usage_of : {F : Type 0} → Fields → Outcome Fault (Usage F)
usage_of d = do
  u ← fields_or_empty "usage" d
  prompt_tokens ← count_or_zero "input_tokens" u
  completion_tokens ← count_or_zero "output_tokens" u
  ok (record {
    prompt_tokens = prompt_tokens;
    completion_tokens = completion_tokens;
    total_tokens = prompt_tokens + completion_tokens;
    cost = none;
  })

module _ (library : Library) where
  abbrev tool_use : Fields → Outcome Fault ToolCall
  tool_use block = do
    id ← str_at "id" block
    name ← str_at "name" block
    let input : Json = elim (get "input" block) [ none ↦ obj end | some v ↦ v ]
    ok (record {
      id = id;
      type = "function";
      function = record { name = name; arguments = library.dumps input };
    })

  abbrev add_block : Collected → Fields → Outcome Fault Collected
  add_block (text_parts, tool_calls) block =
      if is_str "text" (get "type" block)
      then (do t ← str_or "" "text" block; ok (text_parts ++ t ∷ [], tool_calls))
      else if is_str "tool_use" (get "type" block)
      then (do call ← tool_use block; ok (text_parts, tool_calls ++ call ∷ []))
      else ok (text_parts, tool_calls)

  -- the loop over `raw["content"]`
  unfoldable pub collect : Collected → Items → Outcome Fault Collected
  collect parts nil = ok parts
  collect parts (cons x blocks) =
      (do block ← as_fields x; add_block parts block) >>= λ parts'. collect parts' blocks

  unfoldable pub transform_response :
      {F : Type 0} → ℕ → Fields → String → Outcome Fault (ModelResponse F)
  unfolding collect content_of
  transform_response now raw model = do
    items ← content_items (get "content" raw)
    parts ← collect ([], []) items
    finish_reason ← finish_reason_of (get "stop_reason" raw)
    usage ← usage_of raw
    id ← str_at "id" raw
    name ← str_or model "model" raw
    ok (record {
      id = id;
      created = now;
      model = name;
      choices =
          record {
            index = 0;
            message = record {
              role = "assistant";
              content = content_of parts.0;
              tool_calls = or_none parts.1;
              tool_call_id = none;
            };
            finish_reason = finish_reason;
          }
          ∷ [];
      usage = some usage;
    })

abbrev no_delta : Delta
no_delta = record { role = none; content = none; tool_calls = none }

-- `_build_stream_chunk`; the id is `chatcmpl-` and fresh digits
abbrev pub build_stream_chunk :
    {F : Type 0}
    → String
    → ℕ
    → String
    → Delta
    → Option String
    → Option (Usage F)
    → ModelResponseStream F
build_stream_chunk fresh_id now model delta finish_reason usage = record {
  id = fresh_id;
  created = now;
  model = model;
  choices = record { index = 0; delta = delta; finish_reason = finish_reason } ∷ [];
  usage = usage;
}

module _ {F : Type 0} (fresh_id : String) (now : ℕ) (model : String) where
  abbrev block_delta : Fields → Outcome Fault (Option (ModelResponseStream F))
  block_delta delta_obj =
      if is_str "text_delta" (get "type" delta_obj)
      then (do
        t ← str_or "" "text" delta_obj
        ok (
            some (
              build_stream_chunk fresh_id now model (record no_delta { content = some t }) none
                none)))
      else if is_str "input_json_delta" (get "type" delta_obj)
      then (do
        part ← str_or "" "partial_json" delta_obj
        let call : ToolCall = record {
          id = "";
          type = "function";
          function = record { name = ""; arguments = part };
        }
        ok (
            some (
              build_stream_chunk fresh_id now model
                (record no_delta { tool_calls = some (call ∷ []) }) none none)))
      else ok none

  abbrev message_delta : Fields → Outcome Fault (Option (ModelResponseStream F))
  message_delta chunk = do
    delta_obj ← fields_or_empty "delta" chunk
    finish_reason ← finish_reason_of (get "stop_reason" delta_obj)
    usage ← usage_of chunk
    ok (some (build_stream_chunk fresh_id now model no_delta finish_reason (some usage)))

  unfoldable pub transform_stream_chunk : Fields → Outcome Fault (Option (ModelResponseStream F))
  transform_stream_chunk chunk =
      if is_str "content_block_delta" (get "type" chunk)
      then (do delta_obj ← fields_or_empty "delta" chunk; block_delta delta_obj)
      else if is_str "message_delta" (get "type" chunk)
      then message_delta chunk
      else ok none

module _ (library : Library) where
  -- `"context" in msg_lower or "max_tokens" in msg_lower`
  abbrev pub is_about_length : String → Bool
  is_about_length msg =
      is_some (find? (library.lower msg) "context")
      || is_some (find? (library.lower msg) "max_tokens")

  abbrev pub classify : ℕ → String → ErrorClass
  classify status_code msg =
      if status_code == 401
      then authentication
      else if status_code == 403
      then authentication
      else if status_code == 404
      then not_found
      else if status_code == 408
      then timeout
      else if status_code == 429
      then rate_limit
      else if status_code == 400
      then (if is_about_length msg then context_window else bad_request)
      else if status_code == 503
      then service_unavailable
      else if leb 500 status_code && ltb status_code 600
      then internal_server
      else lite_llm

  -- a message that is no text has no `lower`
  unfoldable pub get_error_class : ℕ → Fields → Outcome Fault SdkError
  get_error_class status_code body = do
    error ← fields_or_empty "error" body
    msg ← str_or (library.show (obj body)) "message" error
    ok (record { class = classify status_code msg; status_code = status_code; message = msg })
