-- ===== src/Tests/Chat.antt =====
-- The endpoint of the proxy and the SDK, on concrete inputs.
use makoto_lite_llm.Base.{
  ℕ, ◌≤◌, ◌≡◌, refl, ◌⊎◌, false, none, some, [], ◌∷◌, ok, err, ◌==◌, string_eq, if◌then◌else◌,
}
use makoto_lite_llm.Base.Int.{pos}
use makoto_lite_llm.Base.Text.{rstrip, has_char, before, behind}
use makoto_lite_llm.Failure.{Failure, http_error, text}
use makoto_lite_llm.Json.{null, str, int, arr, obj, nil, Fields, end, from_list, field, get}
use makoto_lite_llm.Models.{ApiKey, SpendLog}
use makoto_lite_llm.Proxy.{ChatRequest, Draw, ProxyState}
use makoto_lite_llm.Proxy.Chat.{
  World, whole as whole_answer, guard_chain, chat_completions, response_row, stream_row,
  sse_generator, tally, until_closed,
}
use makoto_lite_llm.Proxy.Accounting.{cost_in, chat_completions-IsLedger, chat_completions-refused}
use makoto_lite_llm.Proxy.Booked.{IsRowOf}
use makoto_lite_llm.Proxy.Admission.{Admitted, chat_completions-Admitted}
use makoto_lite_llm.Proxy.Redirect.{chat_completions_redirected}
use makoto_lite_llm.Proxy.Streaming.{chunks_of, sse_generator-IsLedger, stream_row-tally}
use makoto_lite_llm.Permission.{resolve_model_access, model_is_allowed}
use makoto_lite_llm.RateLimiter.{check_rate_limit}
use makoto_lite_llm.Sdk.Cost.{calculate_cost}
use makoto_lite_llm.Sdk.Openai.{get_headers, get_api_base, transform_response}
use makoto_lite_llm.Sdk.Anthropic as Anthropic
use makoto_lite_llm.Sdk.Anthropic.{join}
use makoto_lite_llm.Sdk.Anthropic.Request.{extract_system_messages_split, transform_request_owns}
use makoto_lite_llm.Sdk.Openai as Openai
use makoto_lite_llm.Sdk.Openai.Request.{transform_request_forwards}
use makoto_lite_llm.Spend.{upsert}
use makoto_lite_llm.Sdk.{Resolved}
use makoto_lite_llm.Sdk.Access.{Library}
use makoto_lite_llm.Sdk.Completion.{Request, openai}
use makoto_lite_llm.Sdk.Completion.Redirect.{HasKey}
use makoto_lite_llm.Proxy.Statuses.{chat_completions_statuses}
use makoto_lite_llm.Sdk.Stream.{finished, parse_lines}
use makoto_lite_llm.Sdk.Stream.Parsing.{parse_lines-event_lines}
use makoto_lite_llm.Sdk.Types.{Usage, ModelResponse, ModelResponseStream}
use makoto_lite_llm.Spend.Ledger.{IsLedger, log_all, log_all-IsLedger}
use makoto_lite_llm.Store.{empty_db, open_session}
use makoto_lite_llm.Tests.Codec.{plain_crypto}
use makoto_lite_llm.Tests.Values.{ann, ann_key, key_cache, settings, whole}

-- a response with a usage and no choices
abbrev reply : Fields
reply = field "choices" (arr nil) (
    field "usage"
      (obj (
        field "prompt_tokens" (int (pos 3))
          (field "completion_tokens" (int (pos 4)) (field "total_tokens" (int (pos 7)) end))))
      end)

abbrev pub library : Library
library = record {
  dumps = λ v. "[]";
  loads = λ t. if t == "reply" then some (obj reply) else none;
  show = λ v. "";
  lower = λ t. t;
  strip = λ t. t;
}

abbrev pub world : World ℕ
world = record {
  settings = record settings { openai_api_key = some "up" };
  environment = record { openai_api_key = none; openai_api_base = none; anthropic_api_base = none };
  prices = [];
  send = λ r. ok (200, "reply");
  open_stream = λ r. record {
    status_code = 200;
    content = "";
    lines = "data: reply" ∷ [];
    ending = finished;
  };
  dump_chunk = λ c. "";
}

abbrev pub draw : Draw
draw = record {
  request_id = "r1";
  rpm_time = pos 100;
  tpm_time = pos 100;
  budget_day = 5;
  log_day = 5;
  fresh_id = "c1";
  created = 9;
  elapsed_ms = 2;
}

abbrev pub hello : ChatRequest
hello = record { model = "openai/m"; messages = []; stream = false; others = end }

abbrev pub state : ProxyState key_cache
state = record {
  auth = record { session = open_session (empty_db ℕ); key_cache = [] };
  windows = [];
  requests = [];
}

empty-IsLedger : IsLedger whole (open_session (empty_db ℕ)) []
unfolding log_all
empty-IsLedger = log_all-IsLedger whole [] tt

chat_completions-IsLedger_example :
    let (r, s') =
      chat_completions whole plain_crypto library key_cache world draw hello ann none state in
    ((f : Failure) × (r ≡ err f) × (s'.auth.session ≡ open_session (empty_db ℕ)))
    ⊎ ((response : ModelResponse ℕ) × (row : SpendLog ℕ) × (r ≡ ok (whole_answer response))
        × IsRowOf whole draw hello ann none response.usage
            (cost_in whole plain_crypto library key_cache world draw hello ann none [] response)
            "completed"
            row
        × IsLedger whole s'.auth.session ((5, row) ∷ []))
chat_completions-IsLedger_example =
    chat_completions-IsLedger whole plain_crypto library key_cache world draw hello ann none []
      state refl empty-IsLedger refl

abbrev response : ModelResponse ℕ
response = record {
  id = "c1";
  created = 9;
  model = "m";
  choices = [];
  usage = some (record { prompt_tokens = 3; completion_tokens = 4; total_tokens = 7; cost = none });
}

-- a key without access to any model, and one with limits and a budget
abbrev useless : ApiKey ℕ
useless = record ann_key { allowed_models = some [] }

abbrev limited : ApiKey ℕ
limited = record ann_key {
  rpm_limit = some (pos 1);
  tpm_limit = some (pos 10);
  max_budget = some 5;
}

chat_completions-refused_example :
    let (r, s') =
      chat_completions whole plain_crypto library key_cache world draw hello ann
        (some useless)
        state in
    (r ≡ err (http_error 403 "Model 'openai/m' is not allowed for this key"))
    × (s'.requests ≡ [])
    × (s'.auth ≡ state.auth)
unfolding guard_chain resolve_model_access model_is_allowed
chat_completions-refused_example =
    chat_completions-refused whole plain_crypto library key_cache world draw hello ann
      (some useless) state (http_error 403 "Model 'openai/m' is not allowed for this key") refl

chat_completions-Admitted_example :
    Admitted whole plain_crypto library key_cache world draw hello limited state
unfolding chat_completions resolve_model_access model_is_allowed check_rate_limit has_char before
    get_headers get_api_base transform_response upsert response_row behind calculate_cost
chat_completions-Admitted_example =
    chat_completions-Admitted whole plain_crypto library key_cache world draw hello ann limited
      state (whole_answer response) refl refl

-- a body with a base of the client's
abbrev redirecting : ChatRequest
redirecting = record hello { others = field "api_base" (str "https://mine/") end }

chat_completions_redirected_example :
    (sent : Request) × ((chat_completions whole plain_crypto library key_cache world draw
        redirecting ann none state).1.requests
      ≡ sent ∷ [])
    × (sent.base ≡ "https://mine")
    × HasKey openai "up" sent.headers
unfolding chat_completions has_char before get_headers get_api_base transform_response upsert
    response_row behind calculate_cost rstrip
chat_completions_redirected_example =
    chat_completions_redirected whole plain_crypto library key_cache world draw redirecting ann none
      state (whole_answer response) "up" "https://mine/" refl refl refl refl refl refl refl

abbrev wrapper : Resolved × Request
wrapper = (
  record { provider_name = "openai"; bare_model = "m" },
  record { base = ""; api_key = ""; path = ""; headers = end; body = end; timeout = null },
)

sse_generator-IsLedger_example :
    let s' =
      (sse_generator whole plain_crypto library key_cache world draw hello ann none wrapper
        (some 0)
        state).1 in
    let seen =
      tally
        (none, none)
        (until_closed
          (some 0)
          (chunks_of whole plain_crypto library key_cache world draw wrapper).0) in
    (s'.requests ≡ wrapper.1 ∷ [])
    × IsLedger whole s'.auth.session
        ((5, stream_row whole plain_crypto library key_cache world draw hello ann none seen) ∷ [])
sse_generator-IsLedger_example =
    sse_generator-IsLedger whole plain_crypto library key_cache world draw hello ann none wrapper
      (some 0) state [] empty-IsLedger refl

abbrev counted : Usage ℕ
counted = record { prompt_tokens = 3; completion_tokens = 4; total_tokens = 7; cost = none }

abbrev chunk : ModelResponseStream ℕ
chunk = record {
  id = "c";
  created = 1;
  model = "m";
  choices =
      record {
        index = 0;
        delta = record { role = none; content = some "x"; tool_calls = none };
        finish_reason = some "";
      }
      ∷ [];
  usage = some counted;
}

stream_row-tally_example :
    IsRowOf whole draw hello ann none
      (some counted)
      (calculate_cost whole world.prices "openai/m" counted)
      "partial"
      (stream_row whole plain_crypto library key_cache world draw hello ann none
        (tally (none, none) (chunk ∷ [])))
stream_row-tally_example =
    stream_row-tally whole plain_crypto library key_cache world draw hello ann none (chunk ∷ [])

-- parameters with one that is not known
abbrev params : Fields
params = field "top_p" (int (pos 1)) (field "secret" (str "x") (field "stop" (str "END") end))

transform_request_forwards_example : get "secret" (Openai.transform_request "m" [] params) ≡ none
transform_request_forwards_example =
    transform_request_forwards "m" [] params "secret" (refl, (refl, (refl, tt)))

abbrev system_message : Fields
system_message = field "role" (str "system") (field "content" (str "be brief") end)

abbrev user_message : Fields
user_message = field "role" (str "user") (field "content" (str "hi") end)

extract_system_messages_split_example :
    Anthropic.extract_system_messages (user_message ∷ system_message ∷ [])
    ≡ (some "be brief", user_message ∷ [])
unfolding join Anthropic.join_if_any
extract_system_messages_split_example =
    extract_system_messages_split (user_message ∷ system_message ∷ [])

abbrev anthropic_body : Fields
anthropic_body = field "model" (str "m") (
    field "messages" (arr (from_list (obj user_message ∷ []))) (
      field "system" (str "be brief") (
        field "max_tokens" (int (pos 4096)) (
          field "top_p" (int (pos 1))
            (field "stop_sequences" (arr (from_list (str "END" ∷ []))) end)))))

transform_request_owns_example : get "secret" anthropic_body ≡ none
unfolding Anthropic.transform_request join
transform_request_owns_example =
    transform_request_owns "m" (user_message ∷ system_message ∷ []) params "secret"
      {body = anthropic_body} refl refl

chat_completions_statuses_example : (400 ≤ 403) × (403 ≤ 504)
unfolding chat_completions guard_chain resolve_model_access model_is_allowed
chat_completions_statuses_example =
    chat_completions_statuses whole plain_crypto library key_cache world draw hello ann
      (some useless) state 403 (text "Model 'openai/m' is not allowed for this key") none refl

-- a library that writes and reads the one object
abbrev echo : Library
echo = record library { dumps = λ v. "{}"; loads = λ t. if t == "{}" then some (obj end) else none }

parse_lines-event_lines_example :
    parse_lines echo ("data: {}" ∷ "" ∷ "data: [DONE]" ∷ "data: {}" ∷ []) finished
    ≡ (obj end ∷ [], finished)
parse_lines-event_lines_example =
    parse_lines-event_lines echo (obj end ∷ []) ("data: {}" ∷ []) finished ((refl, refl, refl), tt)
      refl
