-- ===== src/Guard.antt =====
-- src/app/services/proxy_guard.py: what stands before a call of a provider. The limiter counts
-- microseconds here, so that its window of 60 seconds is 60000000; the length of the messages' JSON
-- text, which the library writes, is an argument.
pub mod Limits
use Prim.Native.String.{◌++◌}
use makoto_lite_llm.Base.{
  ℕ, ◌+◌, ◌/◌, String, Bool, true, false, ◌&&◌, Option, none, some, List, [], ◌∷◌, Outcome, ok, err,
  Action, keep, map, leb, ◌==◌, string_eq, nat_eq, pure, raise, raise_if, lift, ◌>>=◌, ◌>>◌,
  if◌then◌else◌, not,
}
use makoto_lite_llm.Base.Int.{ℤ, pos, negsuc}
use makoto_lite_llm.Config.{Settings}
use makoto_lite_llm.Failure.{Failure, ErrorBody, text, http, http_error}
use makoto_lite_llm.Float.{Float}
use makoto_lite_llm.Models.{ApiKey, Team, Organization, DailySpend}
use makoto_lite_llm.Permission.{resolve_model_access}
use makoto_lite_llm.RateLimiter as Limiter
use makoto_lite_llm.Sdk.{
  ErrorClass, SdkError, authentication, rate_limit, bad_request, not_found, content_policy,
  context_window, internal_server, timeout, service_unavailable, unknown_provider, lite_llm,
}
use makoto_lite_llm.Store.{Db, Service}

-- the status, the type and the code
abbrev classify : ErrorClass → ℕ × String × String
classify authentication = (401, "invalid_request_error", "invalid_api_key")
classify rate_limit = (429, "rate_limit_error", "rate_limit_exceeded")
classify bad_request = (400, "invalid_request_error", "bad_request")
classify not_found = (404, "invalid_request_error", "model_not_found")
classify context_window = (400, "invalid_request_error", "context_length_exceeded")
classify content_policy = (400, "invalid_request_error", "content_filter")
classify internal_server = (502, "api_error", "upstream_error")
classify service_unavailable = (503, "api_error", "service_unavailable")
classify timeout = (504, "api_error", "timeout")
classify unknown_provider = (400, "invalid_request_error", "model_not_found")
classify lite_llm = (500, "api_error", "unknown_error")

unfoldable pub map_sdk_error : SdkError → ℕ × ErrorBody
map_sdk_error exc =
    let (status, etype, code) = classify exc.class in
    (status, record { message = exc.message; etype = etype; code = some code })

abbrev not_configured : String → Failure
not_configured provider_name =
    http_error 503 ("Provider '" ++ provider_name ++ "' is not configured on this proxy")

abbrev pub key_or_raise : String → Option String → Outcome Failure String
key_or_raise provider_name none = err (not_configured provider_name)
key_or_raise provider_name (some key) = ok key

unfoldable pub resolve_provider_api_key : String → Settings → Outcome Failure String
resolve_provider_api_key provider_name settings =
    if provider_name == "openai"
    then key_or_raise provider_name settings.openai_api_key
    else if provider_name == "anthropic"
    then key_or_raise provider_name settings.anthropic_api_key
    else err (not_configured provider_name)

-- the argument is `len(serialized)`
unfoldable pub estimate_input_tokens : ℕ → ℕ
estimate_input_tokens serialized_length =
    let tokens = serialized_length / 4 in if leb 1 tokens then tokens else 1

-- `int(retry_after) + 1`, in seconds; a wait is not negative
abbrev pub retry_header : ℤ → ℤ
retry_header (pos n) = pos (n / 1000000 + 1)
retry_header (negsuc n) = pos 1

-- what follows a check of the limiter
abbrev admit : String → Limiter.RateLimitResult → Outcome Failure Unit
admit message result =
    if result.allowed
    then ok tt
    else err (http 429 (text message) (some (retry_header result.retry_after)))

-- one of the two limits, at the time at which the limiter reads the clock
abbrev enforce_limit : ℤ → String → String → Option ℤ → ℕ → Action Limiter.Windows Failure Unit
enforce_limit now message key none increment windows = (ok tt, windows)
enforce_limit now message key (some limit) increment windows =
    let (result, windows') =
      Limiter.check_rate_limit now key limit (pos 60000000) increment windows in
    (admit message result, windows')

module _ {F : Type 0} where
  unfoldable pub enforce_model_access :
      String → Option (ApiKey F) → Option (Team F) → Option (Organization F) → Outcome Failure Unit
  enforce_model_access model api_key team org =
      let key_models : Option (List String) = elim api_key [
        | none ↦ none
        | some k ↦ k.allowed_models
      ] in
      let team_models : Option (List String) = elim team [
        | none ↦ none
        | some t ↦ t.allowed_models
      ] in
      let org_models : Option (List String) = elim org [
        | none ↦ none
        | some o ↦ o.allowed_models
      ] in
      if resolve_model_access model key_models team_models org_models
      then ok tt
      else err (http_error 403 ("Model '" ++ model ++ "' is not allowed for this key"))

  unfoldable pub check_rate_limit : ℤ → ℤ → ApiKey F → ℕ → Action Limiter.Windows Failure Unit
  check_rate_limit now now' api_key estimated_tokens = do
    enforce_limit now "Rate limit exceeded (RPM)" ("rpm:" ++ api_key.api_key_hash) api_key.rpm_limit
        1
    enforce_limit now' "Rate limit exceeded (TPM)" ("tpm:" ++ api_key.api_key_hash)
        api_key.tpm_limit estimated_tokens

module _ (float : Float) where
  open float use {Carrier}

  -- `sum(rows) if rows else 0.0`
  abbrev sum_or_zero : List Carrier → Carrier
  sum_or_zero [] = float.zero
  sum_or_zero (x ∷ xs) = float.sum (x ∷ xs)

  -- over the rows of the key on the day
  abbrev pub spent_on : ℕ → String → Db Carrier → Carrier
  spent_on today key_hash db = sum_or_zero (
      map (λ row. row.total_spend)
        (keep (λ row. row.spender == key_hash && row.date == today) db.daily_key_spend))

  abbrev pub check_max : Option Carrier → Carrier → Outcome Failure Unit
  check_max none spent_today = ok tt
  check_max (some max_budget) spent_today =
      if float.le max_budget spent_today
      then err (
          http_error 429 (
            "Daily budget exceeded: $"
            ++ float.show_fixed spent_today
            ++ " / $"
            ++ float.show max_budget))
      else ok tt

  unfoldable pub check_budget : ℕ → ApiKey Carrier → Service Carrier Unit
  check_budget today api_key s =
      (check_max api_key.max_budget (spent_on today api_key.api_key_hash s.current), s)
