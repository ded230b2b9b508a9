-- ===== src/Sdk.antt =====
-- src/app/sdk/exceptions.py and src/app/sdk/resolver.py: the errors of the SDK, and the provider that a
-- model's name starts with. The registry is the list of the names of its providers.
pub mod Pool
pub mod Resolver
pub mod Types
pub mod Access
pub mod Openai
pub mod Anthropic
pub mod Cost
pub mod Completion
pub mod Stream
use Prim.Native.String.{◌++◌}
use makoto_lite_llm.Base.{
  ℕ, String, Bool, true, List, Outcome, ok, err, any, ◌==◌, string_eq, if◌then◌else◌,
}
use makoto_lite_llm.Base.Text.{has_char, before, behind}

-- the classes, `LiteLLMError` itself as `lite_llm`
pub data ErrorClass : Type 0 where
  authentication rate_limit bad_request not_found content_policy context_window internal_server
        timeout service_unavailable unknown_provider lite_llm :
      ErrorClass

pub record SdkError : Type 0 where
  pub class : ErrorClass
  pub status_code : ℕ
  pub message : String

-- the name of the provider, and the model's name without it
pub record Resolved : Type 0 where
  pub provider_name : String
  pub bare_model : String

-- `registry_text` is the text of the sorted registry, for the messages
unfoldable pub resolve_provider : List String → String → String → Outcome SdkError Resolved
resolve_provider registry registry_text model =
    if has_char b'/' model
    then (let provider_name = before b'/' model in
        if any (λ name. name == provider_name) registry
        then ok (record { provider_name = provider_name; bare_model = behind b'/' model })
        else err (record {
          class = unknown_provider;
          status_code = 400;
          message = "Unknown provider '" ++ provider_name ++ "'. Known: " ++ registry_text;
        }))
    else err (record {
      class = unknown_provider;
      status_code = 400;
      message =
          "Model string must be 'provider/model', got '" ++ model ++ "'. Known providers: "
          ++ registry_text;
    })
