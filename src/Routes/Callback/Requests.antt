-- ===== src/Routes/Callback/Requests.antt =====
-- What the callback sends to the identity provider, and how it fits what `authorize` has sent to the browser.
use Prim.Native.String.{◌++◌ as cat}
use makoto_lite_llm.Base.{String, ◌≡◌, some, List, [], ◌∷◌, ◌++◌, Outcome, ok, err, nat_eq}
use makoto_lite_llm.Cache.{TtlCache}
use makoto_lite_llm.Config.{Settings}
use makoto_lite_llm.Failure.{Failure}
use makoto_lite_llm.Json.{Json}
use makoto_lite_llm.Jwt.{Crypto}
use makoto_lite_llm.Models.{SsoConfig}
use makoto_lite_llm.Oidc.{OidcRequest, fetch, post}
use makoto_lite_llm.Oidc.Requests.{IsLogin}
use makoto_lite_llm.Routes.Callback.{Outside}
use makoto_lite_llm.Sso.{LoginState}
use makoto_lite_llm.Sso.Authorize.{SsoState}
use makoto_lite_llm.Base.Text.{rstrip}

module _ {F : Type 0} (crypto : Crypto) (settings : Settings) (states : TtlCache String LoginState)
    (o : Outside F) where
  -- a result that is no error has all three requests behind it
  abbrev pub IsWhole :
      {A : Type 0}
      → OidcRequest
      → List (String × String)
      → Outcome Failure A
      → List OidcRequest
      → Type 0
  IsWhole first form (err e) requests = Unit
  IsWhole first form (ok a) requests =
      (url userinfo_url : String) × (token : Json) × (requests
        ≡ first ∷ post url form ∷ fetch userinfo_url (some (cat "Bearer " (o.web.show token))) ∷ [])

  -- the requests that were added to the sent ones, up to a result
  abbrev pub Adds :
      {A : Type 0}
      → OidcRequest
      → List (String × String)
      → List OidcRequest
      → Outcome Failure A
      → List OidcRequest
      → Type 0
  Adds first form sent r sent' =
      (requests : List OidcRequest) × (sent' ≡ sent ++ requests)
      × IsLogin o.web.show first form requests
      × IsWhole first form r requests

  abbrev sent_of : SsoState F states → List OidcRequest
  sent_of s = s.connection.sent

  -- the query of the provider's endpoint, and the form, as RFC 6749 and RFC 7636 have them
  abbrev pub query : SsoConfig → String → String → List (String × String)
  query config state challenge =
      ("client_id", config.client_id)
      ∷ ("redirect_uri", cat settings.base_url "/sso/callback")
      ∷ ("response_type", "code")
      ∷ ("scope", "openid email profile")
      ∷ ("state", state)
      ∷ ("code_challenge", challenge)
      ∷ ("code_challenge_method", "S256")
      ∷ []

  abbrev pub form : SsoConfig → String → String → String → List (String × String)
  form config code secret verifier =
      ("grant_type", "authorization_code")
      ∷ ("code", code)
      ∷ ("redirect_uri", cat settings.base_url "/sso/callback")
      ∷ ("client_id", config.client_id)
      ∷ ("client_secret", secret)
      ∷ ("code_verifier", verifier)
      ∷ []

  -- what `authorize` answers
  abbrev LeadsTo : SsoConfig → String → String → String → Type 0
  LeadsTo config state verifier url =
      (endpoint : Json) × (url
        ≡ cat (o.web.show endpoint) (
            cat "?"
              (o.web.urlencode (query config state (rstrip b'=' (o.web.urlsafe_sha256 verifier))))))
