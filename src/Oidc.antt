-- ===== src/Oidc.antt =====
-- src/app/services/oidc_client.py: the client of an identity provider, which keeps the document that it has
-- discovered. What httpx answers to the last of the requests that were sent is a parameter.
pub mod Requests
use Prim.Native.String.{◌++◌ as cat}
use makoto_lite_llm.Base.{
  ℕ, String, Option, none, some, List, [], ◌∷◌, ◌++◌, Outcome, ok, err, Action, pure, gets, lift,
  modify, ◌>>=◌, ◌>>◌, ◌==◌, nat_eq, if◌then◌else◌,
}
use makoto_lite_llm.Base.Outcomes.{need}
use makoto_lite_llm.Base.Text.{is_empty, rstrip}
use makoto_lite_llm.Failure.{Failure, uncaught}
use makoto_lite_llm.Json.{Json, null, str, obj, get, is_null}

-- `discovery_cache` is null for `None`.
pub record OidcClient : Type 0 where
  pub issuer_url : String
  pub discovery_cache : Json

-- a GET of a URL with the header Authorization, or a POST of a form
pub data OidcRequest : Type 0 where
  fetch : String → Option String → OidcRequest
  post : String → List (String × String) → OidcRequest

-- a status with what `resp.json()` returns or raises, or an exception of httpx
abbrev pub Network : Type 0
Network = List OidcRequest → Option (ℕ × Option Json)

-- the client, and all requests so far
pub record Connection : Type 0 where
  pub client : OidcClient
  pub sent : List OidcRequest

-- `d[k]` on a value that should be a dict
abbrev pub value_at : String → Json → Outcome Failure Json
value_at k (obj d) = need uncaught (get k d)
value_at k _ = err uncaught

-- a value where httpx or a column wants a text
abbrev pub text_of : Json → Outcome Failure String
text_of (str t) = ok t
text_of _ = err uncaught

-- a status other than 200 raises `RuntimeError`
abbrev pub json_of : Option (ℕ × Option Json) → Outcome Failure Json
json_of none = err uncaught
json_of (some (status, content)) = if status == 200 then need uncaught content else err uncaught

-- `__init__`
abbrev pub new_client : String → OidcClient
new_client issuer_url = record { issuer_url = rstrip b'/' issuer_url; discovery_cache = null }

abbrev pub discovery_url : OidcClient → String
discovery_url client = cat client.issuer_url "/.well-known/openid-configuration"

-- `if code_verifier: data["code_verifier"] = code_verifier`
abbrev pub verifier_field : Option String → List (String × String)
verifier_field none = []
verifier_field (some verifier) = if is_empty verifier then [] else ("code_verifier", verifier) ∷ []

abbrev pub token_form : String → String → String → String → Option String → List (String × String)
token_form code redirect_uri client_id client_secret code_verifier =
    ("grant_type", "authorization_code")
    ∷ ("code", code)
    ∷ ("redirect_uri", redirect_uri)
    ∷ ("client_id", client_id)
    ∷ ("client_secret", client_secret)
    ∷ verifier_field code_verifier

-- `show` is Python's `str` of a JSON value.
module _ (network : Network) (show : Json → String) where
  unfoldable pub send : OidcRequest → Action Connection Failure Json
  send request s =
      let sent = s.sent ++ request ∷ [] in (json_of (network sent), record s { sent = sent })

  abbrev pub fetch_discovery : Action Connection Failure Json
  fetch_discovery = do
    url ← gets (λ s. discovery_url s.client)
    document ← send (fetch url none)
    modify (λ s. record s { client = record s.client { discovery_cache = document } })
    pure document

  unfoldable pub discover : Action Connection Failure Json
  unfolding send
  discover s =
      if is_null s.client.discovery_cache
      then fetch_discovery s
      else (ok s.client.discovery_cache, s)

  unfoldable pub exchange_code :
      String → String → String → String → Option String → Action Connection Failure Json
  unfolding discover send
  exchange_code code redirect_uri client_id client_secret code_verifier = do
    discovery ← discover
    token_endpoint ← lift (value_at "token_endpoint" discovery)
    url ← lift (text_of token_endpoint)
    send (post url (token_form code redirect_uri client_id client_secret code_verifier))

  unfoldable pub fetch_userinfo : Json → Action Connection Failure Json
  unfolding discover send
  fetch_userinfo access_token = do
    discovery ← discover
    userinfo_endpoint ← lift (value_at "userinfo_endpoint" discovery)
    url ← lift (text_of userinfo_endpoint)
    send (fetch url (some (cat "Bearer " (show access_token))))
