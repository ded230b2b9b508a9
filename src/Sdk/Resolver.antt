-- ===== src/Sdk/Resolver.antt =====
-- The parts of a model's name.
use Prim.Native.String.{◌++◌, ◌∷◌}
use text.Mathlib.TextLemmas.{cons-append, nil-append}
use makoto_lite_llm.Base.{
  String, ◌≡◌, refl, true, false, List, ok, any, ◌==◌, string_eq, Bool-cases, inl, inr,
}
use makoto_lite_llm.Base.Text.{
  has_char, before, behind, append-before-behind, before-append, behind-append, has_char-append,
  has_char-before,
}
use makoto_lite_llm.Sdk.{Resolved, resolve_provider}

slash : (t : String) → "/" ++ t ≡ ("/" ∷ t)
slash t = rw (cons-append, nil-append) refl

module _ (registry : List String) (registry_text : String) where
  -- If the name of a provider has no slash and is in the registry, then the name, a slash and any text
  -- resolve to the two again.
  pub resolve_provider-append :
      (name bare : String)
      → has_char b'/' name ≡ false
      → any (λ n. n == name) registry ≡ true
      → resolve_provider registry registry_text (name ++ ("/" ++ bare))
        ≡ ok (record { provider_name = name; bare_model = bare })
  unfolding resolve_provider
  resolve_provider-append name bare plain known = rw slash (
      rw
        (
          has_char-append "/" name bare,
          before-append "/" name bare plain,
          behind-append "/" name bare plain,
          known,
        )
        refl)

  -- A model that resolves is the name of a provider of the registry, without a slash, and behind a slash
  -- the rest.
  pub resolve_provider_parts :
      (model : String) (r : Resolved)
      → resolve_provider registry registry_text model ≡ ok r
      → (any (λ n. n == r.provider_name) registry ≡ true)
        × (has_char b'/' r.provider_name ≡ false)
        × (r.provider_name ++ ("/" ++ r.bare_model) ≡ model)
  unfolding resolve_provider
  resolve_provider_parts model r h = elim (Bool-cases (has_char b'/' model)) [
    | inr bare ↦ cc (rw bare at h)
    | inl parts ↦ elim (Bool-cases (any (λ n. n == before b'/' model) registry)) [
      | inr unknown ↦ cc (rw (parts, unknown) at h)
      | inl known ↦
          let e : record { provider_name = before b'/' model; bare_model = behind b'/' model } ≡ r =
            cc (rw (parts, known) at h) in
          rw (← e)
            (known, has_char-before b'/' model, rw slash (append-before-behind "/" model parts))
    ]
  ]
