-- ===== src/Proxy/Chat.antt =====
-- `chat_completions` itself: the guards, the call, the row; and the generator of a stream's events.
use Prim.Native.String.{◌++◌ as cat}
use makoto_lite_llm.Base.{
  ℕ, suc, String, true, Option, none, some, List, [], ◌∷◌, ◌++◌, map, length, take, Outcome, ok,
  err, ltb, pure, lift, ◌>>=◌, ◌>>◌, ◌==◌, string_eq, if◌then◌else◌,
}
use makoto_lite_llm.Base.Text.{count_chars, is_empty}
use makoto_lite_llm.Config.{Settings}
use makoto_lite_llm.Dependencies.{KeyCache, get_current_user, get_current_api_key}
use makoto_lite_llm.Failure.{Failure, ErrorBody, uncaught}
use makoto_lite_llm.Float.{Float}
use makoto_lite_llm.Guard.{
  map_sdk_error, enforce_model_access, estimate_input_tokens, check_rate_limit, check_budget,
  resolve_provider_api_key,
}
use makoto_lite_llm.Json.{Json, null, str, arr, obj, end, field, from_list}
use makoto_lite_llm.Jwt.{Crypto}
use makoto_lite_llm.Models.{User, ApiKey, SpendLog}
use makoto_lite_llm.Proxy.{
  ChatRequest, Draw, provider_part, without_nulls, or_failure, ProxyState, Proxy, on_auth, on_db,
  on_windows, on_requests, team_of, org_of, spend_row,
}
use makoto_lite_llm.Sdk.{Resolved}
use makoto_lite_llm.Sdk.Access.{Fault, sdk_error, other_error, Library}
use makoto_lite_llm.Sdk.Completion.{Environment, Request, provider_of, build_request, acompletion}
use makoto_lite_llm.Sdk.Cost.{Price, calculate_cost, cost_or_zero}
use makoto_lite_llm.Sdk.Stream.{Ending, finished, failed, StreamReply, read_stream}
use makoto_lite_llm.Sdk.Types.{Usage, ModelResponse, StreamChoice, ModelResponseStream}
use makoto_lite_llm.Spend.{log_spend}

-- What the handler reads of its surroundings: the settings, the environment, the table of prices, what
-- httpx answers to a request without and with `stream`, and pydantic's text of a chunk.
pub record World (F : Type 0) : Type 0 where
  pub settings : Settings
  pub environment : Environment
  pub prices : List (String × Price F)
  pub send : Request → Outcome Fault (ℕ × String)
  pub open_stream : Request → StreamReply
  pub dump_chunk : ModelResponseStream F → String

-- a response, or a stream that is not yet opened
pub data Answer (F : Type 0) : Type 0 where
  whole : ModelResponse F → Answer F
  streaming : Resolved × Request → Answer F

-- what the generator remembers of the chunks: the last usage and the last reason to finish
abbrev pub Tally : Type 0 → Type 0
Tally F = Option (Usage F) × Option String

abbrev pub first_reason : List StreamChoice → Option String → Option String
first_reason [] old = old
first_reason (c ∷ cs) old = elim c.finish_reason [
  | none ↦ old
  | some t ↦ if is_empty t then old else some t
]

abbrev pub last_given : {A : Type 0} → Option A → Option A → Option A
last_given none old = old
last_given (some u) old = some u

unfoldable pub tally : {F : Type 0} → Tally F → List (ModelResponseStream F) → Tally F
tally seen [] = seen
tally (usage, reason) (c ∷ cs) = tally (last_given c.usage usage, first_reason c.choices reason) cs

abbrev pub status_of : Option String → String
status_of none = "partial"
status_of (some t) = "completed"

-- `f"data: {…}\n\n"`
abbrev pub event : String → String
event t = cat "data: " (cat t "\n\n")

abbrev error_json : ErrorBody → Json
error_json b = obj (
    field "error"
      (obj (
        field "message" (str b.message) (
          field "type" (str b.etype)
            (field "code" (elim b.code [ none ↦ null | some t ↦ str t ]) end))))
      end)

-- The events behind the chunks.
abbrev pub closing_events : Library → Ending → List String
unfolding map_sdk_error
closing_events library finished = event "[DONE]" ∷ []
closing_events library (failed (sdk_error e)) =
    event (library.dumps (error_json (map_sdk_error e).1)) ∷ event "[DONE]" ∷ []
closing_events library (failed other_error) = []

-- What is yielded until the client leaves: at the yield with this number, or never.
abbrev pub until_closed : {A : Type 0} → Option ℕ → List A → List A
until_closed none xs = xs
until_closed (some n) xs = take (suc n) xs

-- does the exception that ends the chunks reach the caller
abbrev escaping : Option ℕ → ℕ → Ending → Outcome Failure Unit
escaping (some n) yields (failed other_error) = if ltb n yields then ok tt else err uncaught
escaping none yields (failed other_error) = err uncaught
escaping closed yields _ = ok tt

module _ (float : Float) (crypto : Crypto) (library : Library) (cache : KeyCache float.Carrier)
    (world : World float.Carrier) where
  open float use {Carrier}

  abbrev pub messages_json : ChatRequest → Json
  messages_json request = arr (from_list (map obj request.messages))

  -- the guards of a key that is not an administrator's
  unfoldable pub check_access : ChatRequest → ApiKey Carrier → Proxy cache Unit
  unfolding enforce_model_access
  check_access request key s =
      let db = s.auth.session.current in
      (
        enforce_model_access request.model (some key) (team_of cache (some key) db)
            (org_of cache (some key) db),
        s,
      )

  unfoldable pub check_limits : Draw → ChatRequest → ApiKey Carrier → Proxy cache Unit
  unfolding check_rate_limit estimate_input_tokens count_chars
  check_limits draw request key = on_windows cache (
      check_rate_limit draw.rpm_time draw.tpm_time key
        (estimate_input_tokens (count_chars (library.dumps (messages_json request)))))

  unfoldable pub check_day : Draw → ApiKey Carrier → Proxy cache Unit
  unfolding check_budget
  check_day draw key = on_db cache (check_budget float draw.budget_day key)

  unfoldable pub check_guards : Draw → ChatRequest → ApiKey Carrier → Proxy cache Unit
  unfolding check_access check_limits check_day
  check_guards draw request key = do
    check_access request key
    check_limits draw request key
    check_day draw key

  unfoldable pub guard_chain :
      Draw → ChatRequest → User Carrier → Option (ApiKey Carrier) → Proxy cache Unit
  unfolding check_guards
  guard_chain draw request user none = pure tt
  guard_chain draw request user (some key) =
      if user.role == "proxy_admin" then pure tt else check_guards draw request key

  abbrev cost_of : Option (Usage Carrier) → Option Carrier
  cost_of none = none
  cost_of (some u) = u.cost

  -- the row of a response
  unfoldable pub response_row :
      Draw
      → ChatRequest
      → User Carrier
      → Option (ApiKey Carrier)
      → ModelResponse Carrier
      → SpendLog Carrier
  unfolding spend_row
  response_row draw request user key response =
      spend_row draw request user key response.usage (cost_or_zero float (cost_of response.usage))
        "completed"

  -- the call without `stream`, and its row
  unfoldable pub complete :
      Draw
      → ChatRequest
      → User Carrier
      → Option (ApiKey Carrier)
      → String
      → Proxy cache (Answer Carrier)
  unfolding acompletion log_spend without_nulls
  complete draw request user key upstream_key = do
    response ← on_requests cache (
        acompletion float library world.environment world.prices world.send draw.fresh_id
          draw.created upstream_key request.model request.messages (without_nulls request.others))
    on_db cache (log_spend float draw.log_day (response_row draw request user key response))
    pure (whole response)

  -- a stream is only prepared here
  unfoldable pub prepare : ChatRequest → String → Proxy cache (Answer Carrier)
  unfolding build_request without_nulls
  prepare request upstream_key = do
    wrapper ← lift (
        or_failure (
          build_request world.environment true upstream_key request.model request.messages
            (without_nulls request.others)))
    pure (streaming wrapper)

  -- what comes behind the guards
  unfoldable pub dispatch :
      Draw → ChatRequest → User Carrier → Option (ApiKey Carrier) → Proxy cache (Answer Carrier)
  unfolding complete prepare resolve_provider_api_key
  dispatch draw request user key = do
    upstream_key ← lift (resolve_provider_api_key (provider_part request.model) world.settings)
    if request.stream
        then prepare request upstream_key
        else complete draw request user key upstream_key

  unfoldable pub chat_completions :
      Draw → ChatRequest → User Carrier → Option (ApiKey Carrier) → Proxy cache (Answer Carrier)
  unfolding guard_chain dispatch
  chat_completions draw request user key = do
    guard_chain draw request user key
    dispatch draw request user key

  -- the endpoint behind its dependencies
  unfoldable pub post_chat_completions :
      ℕ → Draw → Option String → ChatRequest → Proxy cache (Answer Carrier)
  unfolding chat_completions get_current_user get_current_api_key
  post_chat_completions now draw auth_header request = do
    user ← on_auth cache (get_current_user crypto cache now auth_header)
    key ← on_auth cache (get_current_api_key crypto cache now auth_header)
    chat_completions draw request user key

  -- the row of a stream
  unfoldable pub stream_row :
      Draw → ChatRequest → User Carrier → Option (ApiKey Carrier) → Tally Carrier → SpendLog Carrier
  unfolding spend_row calculate_cost
  stream_row draw request user key (usage, reason) =
      spend_row draw request user key usage
        (cost_or_zero float
          (elim usage [ none ↦ none | some u ↦ calculate_cost float world.prices request.model u ]))
        (status_of reason)

  -- `_sse_generator`, from its first step: the events, and what is raised at the end
  unfoldable pub sse_generator :
      Draw
      → ChatRequest
      → User Carrier
      → Option (ApiKey Carrier)
      → Resolved × Request
      → Option ℕ
      → ProxyState cache
      → (List String × Outcome Failure Unit) × ProxyState cache
  unfolding read_stream tally log_spend
  sse_generator draw request user key (resolved, upstream) closed s =
      let (chunks, ending) =
        read_stream library draw.fresh_id draw.created (provider_of resolved.provider_name)
          resolved.bare_model (world.open_stream upstream) in
      let log =
        stream_row draw request user key (tally (none, none) (until_closed closed chunks)) in
      let (logged, s') =
        (on_db cache (log_spend float draw.log_day log) >>= λ _.
        lift (escaping closed (length chunks) ending))
          (record s { requests = s.requests ++ upstream ∷ [] }) in
      (
        (
          until_closed closed
              (map (λ c. event (world.dump_chunk c)) chunks ++ closing_events library ending),
          logged,
        ),
        s',
      )
