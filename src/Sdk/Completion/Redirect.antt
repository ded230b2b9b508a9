-- ===== src/Sdk/Completion/Redirect.antt =====
-- Where a request goes, and with which key, when the keyword arguments name a base.
use Prim.Native.String.{◌++◌}
use makoto_lite_llm.Base.{
  String, ◌≡◌, sym, ap, ◌∙◌, inl, inr, Bool, false, none, some, List, ok, string_eq, Bool-cases,
}
use makoto_lite_llm.Base.Outcomes.{Outcome-cases, chain-ok, ok_injective}
use makoto_lite_llm.Base.Text.{is_empty, rstrip}
use makoto_lite_llm.Json.{null, str, Fields, get}
use makoto_lite_llm.Sdk.{Resolved, resolve_provider}
use makoto_lite_llm.Sdk.Anthropic as Anthropic
use makoto_lite_llm.Sdk.Openai as Openai
use makoto_lite_llm.Sdk.Completion.{
  Provider, openai, anthropic, provider_of, Environment, Request, registry, passes_twice, argument,
  params_of, without_named, transform_request, get_headers, get_api_base, build_request,
  prepare_request,
}

-- the header of the provider's key
abbrev pub HasKey : Provider → String → Fields → Type 0
HasKey openai key headers = get "Authorization" headers ≡ some (str ("Bearer " ++ key))
HasKey anthropic key headers = get "x-api-key" headers ≡ some (str key)

get_headers-HasKey :
    (provider : Provider) (key : String) (headers : Fields)
    → get_headers provider key null ≡ ok headers
    → HasKey provider key headers
unfolding Openai.get_headers Anthropic.get_headers
get_headers-HasKey openai key headers h = ap (get "Authorization") (sym (ok_injective h))
get_headers-HasKey anthropic key headers h = ap (get "x-api-key") (sym (ok_injective h))

get_api_base_given :
    (environment : Environment) (provider : Provider) (t base : String)
    → is_empty t ≡ false
    → get_api_base environment provider (str t) ≡ ok base
    → base ≡ rstrip b'/' t
unfolding Openai.get_api_base Anthropic.get_api_base
get_api_base_given environment openai t base given h = sym (ok_injective (rw given at h))
get_api_base_given environment anthropic t base given h = sym (ok_injective (rw given at h))

module _ (environment : Environment) (stream : Bool) (messages : List Fields)
    (kwargs : Fields) where
  prepare_request_parts :
      (resolved : Resolved) (key : String) (built : Resolved × Request)
      → prepare_request environment stream resolved key messages kwargs ≡ ok built
      → let provider = provider_of resolved.provider_name in
        (built.0 ≡ resolved)
        × (get_headers provider key (argument "extra_headers" kwargs) ≡ ok built.1.headers)
        × (get_api_base environment provider (argument "api_base" kwargs) ≡ ok built.1.base)
        × (transform_request provider resolved.bare_model messages (params_of stream kwargs)
            ≡ ok built.1.body)
  unfolding prepare_request without_named
  prepare_request_parts resolved key built h =
      let provider = provider_of resolved.provider_name in
      let (body, e, h') =
        chain-ok (transform_request provider resolved.bare_model messages (params_of stream kwargs))
          _ h in
      let (headers, e', h'') =
        chain-ok (get_headers provider key (argument "extra_headers" kwargs)) _ h' in
      let (base, e'', h3) =
        chain-ok (get_api_base environment provider (argument "api_base" kwargs)) _ h'' in
      let same = ok_injective h3 in
      (
        ap (λ b. b.0) (sym same),
        e' ∙ ap (λ b. ok b.1.headers) same,
        e'' ∙ ap (λ b. ok b.1.base) same,
        e ∙ ap (λ b. ok b.1.body) same,
      )

  build_request_resolved :
      (key model : String) (built : Resolved × Request)
      → is_empty key ≡ false
      → build_request environment stream key model messages kwargs ≡ ok built
      → (resolved : Resolved) × (resolve_provider registry "['anthropic', 'openai']" model
          ≡ ok resolved)
        × (prepare_request environment stream resolved key messages kwargs ≡ ok built)
  unfolding build_request
  build_request_resolved key model built given h = elim (Bool-cases (passes_twice kwargs)) [
    | inl twice ↦ cc (rw twice at h)
    | inr once ↦ elim (Outcome-cases (resolve_provider registry "['anthropic', 'openai']" model)) [
      | inl (e, unknown) ↦ cc (rw (once, unknown) at h)
      | inr (resolved, known) ↦ (resolved, known, rw (once, known, given) at h)
    ]
  ]

  -- If the keyword arguments of a call have a text under "api_base" and nothing under "extra_headers", then a
  -- request that is built is for the model that resolves, goes to that base, and has the call's key in the
  -- header of the provider.
  pub build_request_redirected :
      (key model t : String) (built : Resolved × Request)
      → is_empty key ≡ false
      → is_empty t ≡ false
      → get "api_base" kwargs ≡ some (str t)
      → get "extra_headers" kwargs ≡ none
      → build_request environment stream key model messages kwargs ≡ ok built
      → (resolve_provider registry "['anthropic', 'openai']" model ≡ ok built.0)
        × (built.1.base ≡ rstrip b'/' t)
        × HasKey (provider_of built.0.provider_name) key built.1.headers
  build_request_redirected key model t built has_key given base no_extra h =
      let (resolved, found, prepared) = build_request_resolved key model built has_key h in
      let (same, headers, to_base, _) = prepare_request_parts resolved key built prepared in
      let provider = provider_of resolved.provider_name in
      (
        found ∙ ap (λ r. ok r) (sym same),
        get_api_base_given environment provider t built.1.base given (rw base at to_base),
        rw same (get_headers-HasKey provider key built.1.headers (rw no_extra at headers)),
      )
