-- ===== src/Proxy.antt =====
-- src/app/routes/proxy_routes.py: `POST /v1/chat/completions`, from the header Authorization to the row
-- of the spend log. The state is the session with the cache of keys, the windows of the limiter, and
-- the requests that were sent upstream. What httpx answers to a request is a parameter; what the handler
-- draws (ids, times, days) is an argument.
pub mod Booked
pub mod Chat
pub mod Accounting
pub mod Streaming
pub mod Admission
pub mod Redirect
pub mod Failures
pub mod Statuses
use Prim.Native.String.{◌++◌ as cat}
use makoto_lite_llm.Base.{
  ℕ, String, Bool, true, false, not, ◌&&◌, Option, none, some, List, [], ◌∷◌, ◌++◌, map, Outcome,
  ok, err, Action, keep, pure, raise, lift, ◌>>=◌, ◌>>◌, ◌==◌, nat_eq, string_eq, if◌then◌else◌,
}
use makoto_lite_llm.Base.Int.{ℤ}
use makoto_lite_llm.Base.Text.{has_char, before, behind, count_chars, is_empty}
use makoto_lite_llm.Config.{Settings}
use makoto_lite_llm.Dependencies.{KeyCache, AuthState, get_current_user, get_current_api_key}
use makoto_lite_llm.Failure.{Failure, ErrorBody, body, http, uncaught}
use makoto_lite_llm.Float.{Float}
use makoto_lite_llm.Guard.{
  map_sdk_error, enforce_model_access, estimate_input_tokens, check_rate_limit, check_budget,
  resolve_provider_api_key,
}
use makoto_lite_llm.Json.{Json, null, str, arr, obj, Fields, end, field, from_list, is_null}
use makoto_lite_llm.Jwt.{Crypto}
use makoto_lite_llm.Models.{User, ApiKey, Team, Organization, SpendLog}
use makoto_lite_llm.RateLimiter.{Windows}
use makoto_lite_llm.Sdk.{SdkError, Resolved}
use makoto_lite_llm.Sdk.Access.{Fault, sdk_error, other_error, Library}
use makoto_lite_llm.Sdk.Completion.{Environment, Request, provider_of, build_request, acompletion}
use makoto_lite_llm.Sdk.Cost.{Price, calculate_cost, cost_or_zero}
use makoto_lite_llm.Sdk.Stream.{Ending, finished, failed, StreamReply, Iterator, read_stream}
use makoto_lite_llm.Sdk.Types.{Usage, ModelResponse, StreamChoice, ModelResponseStream}
use makoto_lite_llm.Spend.{log_spend}
use makoto_lite_llm.Store.{Db, Session, Service}

-- `ChatCompletionRequest`: the messages and `others`, which is every other field, known or extra, as
-- `model_dump` gives them.
pub record ChatRequest : Type 0 where
  pub model : String
  pub messages : List Fields
  pub stream : Bool
  pub others : Fields

-- what the handler draws, and the days and times at which the parts of it read the clock
pub record Draw : Type 0 where
  pub request_id : String
  pub rpm_time : ℤ
  pub tpm_time : ℤ
  pub budget_day : ℕ
  pub log_day : ℕ
  pub fresh_id : String
  pub created : ℕ
  pub elapsed_ms : ℕ

-- the provider's part of a model's name, and the rest
abbrev pub provider_part : String → String
provider_part model = if has_char b'/' model then before b'/' model else ""

abbrev pub bare_part : String → String
bare_part model = if has_char b'/' model then behind b'/' model else model

-- `exclude_none=True`
unfoldable pub without_nulls : Fields → Fields
without_nulls end = end
without_nulls (field k v d) = if is_null v then without_nulls d else field k v (without_nulls d)

-- `raise HTTPException(status_code=status, detail=error_body)`
unfoldable pub to_failure : Fault → Failure
unfolding map_sdk_error
to_failure (sdk_error e) =
    let (status, error_body) = map_sdk_error e in http status (body error_body) none
to_failure other_error = uncaught

abbrev pub or_failure : {A : Type 0} → Outcome Fault A → Outcome Failure A
or_failure (ok a) = ok a
or_failure (err fault) = err (to_failure fault)

-- `db.get(…)`, by the primary key
abbrev pub get_row : {R : Type 0} → List R → Option R
get_row [] = none
get_row (r ∷ rows) = some r

pub record ProxyState {F : Type 0} (cache : KeyCache F) : Type 0 where
  pub auth : AuthState cache
  pub windows : Windows
  pub requests : List Request

module _ {F : Type 0} (cache : KeyCache F) where
  abbrev pub Proxy : Type 0 → Type 0
  Proxy A = Action (ProxyState cache) Failure A

  abbrev pub on_auth : {A : Type 0} → Action (AuthState cache) Failure A → Proxy A
  on_auth m s = let (r, auth) = m s.auth in (r, record s { auth = auth })

  abbrev pub on_db : {A : Type 0} → Service F A → Proxy A
  on_db m s =
      let (r, session) = m s.auth.session in
      (r, record s { auth = record s.auth { session = session } })

  abbrev pub on_windows : {A : Type 0} → Action Windows Failure A → Proxy A
  on_windows m s = let (r, windows) = m s.windows in (r, record s { windows = windows })

  abbrev pub on_requests : {A : Type 0} → Action (List Request) Fault A → Proxy A
  on_requests m s =
      let (r, requests) = m s.requests in (or_failure r, record s { requests = requests })

  abbrev pub team_of : Option (ApiKey F) → Db F → Option (Team F)
  team_of none db = none
  team_of (some k) db = elim k.team_id [
    | none ↦ none
    | some id ↦ get_row (keep (λ t. t.id == id) db.teams)
  ]

  abbrev pub org_of : Option (ApiKey F) → Db F → Option (Organization F)
  org_of none db = none
  org_of (some k) db = elim k.org_id [
    | none ↦ none
    | some id ↦ get_row (keep (λ o. o.id == id) db.organizations)
  ]

-- the optional key's columns
abbrev pub hash_of : {F : Type 0} → Option (ApiKey F) → String
hash_of none = ""
hash_of (some k) = k.api_key_hash

abbrev pub key_team : {F : Type 0} → Option (ApiKey F) → Option ℕ
key_team none = none
key_team (some k) = k.team_id

abbrev pub key_org : {F : Type 0} → Option (ApiKey F) → Option ℕ
key_org none = none
key_org (some k) = k.org_id

module _ {F : Type 0} where
  abbrev pub prompt_of : Option (Usage F) → ℕ
  prompt_of none = 0
  prompt_of (some u) = u.prompt_tokens

  abbrev pub completion_of : Option (Usage F) → ℕ
  completion_of none = 0
  completion_of (some u) = u.completion_tokens

  -- the row that `log_spend` is called with; a project is not passed
  unfoldable pub spend_row :
      Draw → ChatRequest → User F → Option (ApiKey F) → Option (Usage F) → F → String → SpendLog F
  spend_row draw request user api_key usage spend status = record {
    request_id = draw.request_id;
    api_key_hash = hash_of api_key;
    user_id = some user.id;
    team_id = key_team api_key;
    org_id = key_org api_key;
    project_id = none;
    model = bare_part request.model;
    provider = provider_part request.model;
    input_tokens = prompt_of usage;
    output_tokens = completion_of usage;
    spend = spend;
    cache_hit = false;
    status = status;
    response_time_ms = draw.elapsed_ms;
  }
