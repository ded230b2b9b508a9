-- ===== src/Oidc/Requests.antt =====
-- The requests that the client sends for a login, in their order, whatever the provider answers.
use Prim.Native.String.{◌++◌ as cat}
use mathlib.Core.List.{append_assoc}
use makoto_lite_llm.Base.{
  String, ◌≡◌, refl, true, false, inl, inr, Option, none, some, List, [], ◌∷◌, ◌++◌, Outcome, ok,
  err,
}
use makoto_lite_llm.Base.Outcomes.{Outcome-cases}
use makoto_lite_llm.Failure.{Failure}
use makoto_lite_llm.Json.{Json, null, boolean, int, float, str, arr, obj, is_null}
use makoto_lite_llm.Oidc.{
  OidcRequest, fetch, post, Network, Connection, OidcClient, value_at, text_of, json_of,
  discovery_url, token_form, send, discover, exchange_code, fetch_userinfo,
}

abbrev pub first_of : OidcClient → OidcRequest
first_of client = fetch (discovery_url client) none

-- What may be sent for a login: the first request, the form of the second, and a request with a token.
pub data IsLogin (show : Json → String) (first : OidcRequest) (form : List (String × String))
    : List OidcRequest → Type 0 where
  silent : IsLogin show first form []
  discovery_only : IsLogin show first form (first ∷ [])
  form_sent : (url : String) → IsLogin show first form (first ∷ post url form ∷ [])
  all_sent :
      (url userinfo_url : String) (token : Json)
      → IsLogin show first form
          (first ∷ post url form ∷ fetch userinfo_url (some (cat "Bearer " (show token))) ∷ [])

module _ (network : Network) (show : Json → String) where
  -- The first request, the form of the second, and what an exchange of the code has left.
  pub data Exchanged (first : OidcRequest) (form : List (String × String)) (sent : List OidcRequest)
      : Outcome Failure Json × Connection → Type 0 where
    stopped :
        (e : Failure) (c : Connection)
        → c.sent ≡ sent ++ first ∷ []
        → Exchanged first form sent (err e, c)
    refused :
        (e : Failure) (c : Connection) (url : String)
        → c.sent ≡ sent ++ first ∷ post url form ∷ []
        → Exchanged first form sent (err e, c)
    granted :
        (tokens : Json) (c : Connection) (url : String)
        → c.sent ≡ sent ++ first ∷ post url form ∷ []
        → is_null c.client.discovery_cache ≡ false
        → Exchanged first form sent (ok tokens, c)

  is_null-value_at : (k : String) (d v : Json) → value_at k d ≡ ok v → is_null d ≡ false
  is_null-value_at k null v h = cc h
  is_null-value_at k (boolean b) v h = refl
  is_null-value_at k (int n) v h = refl
  is_null-value_at k (float t) v h = refl
  is_null-value_at k (str t) v h = refl
  is_null-value_at k (arr xs) v h = refl
  is_null-value_at k (obj d) v h = refl

  -- the state after the discovery, and after the form was sent
  abbrev discovered : Connection → Json → Connection
  discovered s document = record {
    client = record s.client { discovery_cache = document };
    sent = s.sent ++ first_of s.client ∷ [];
  }

  with_form :
      (first : OidcRequest) (form : List (String × String)) (s : Connection) (url : String)
      (sent : List OidcRequest)
      → s.sent ≡ sent ++ first ∷ []
      → is_null s.client.discovery_cache ≡ false
      → Exchanged first form sent (send network show (post url form) s)
  unfolding send
  with_form first form s url sent before some_document =
      let all : s.sent ++ post url form ∷ [] ≡ sent ++ first ∷ post url form ∷ [] =
        rw before (append_assoc sent (first ∷ []) (post url form ∷ [])) in
      elim (Outcome-cases (json_of (network (s.sent ++ post url form ∷ [])))) [
        | inl (e, h) ↦ rw h (refused e _ url all)
        | inr (tokens, h) ↦ rw h (granted tokens _ url all some_document)
      ]

  pub exchange_code-Exchanged :
      (code redirect_uri client_id client_secret : String) (code_verifier : Option String)
      (s : Connection)
      → is_null s.client.discovery_cache ≡ true
      → Exchanged
          (first_of s.client)
          (token_form code redirect_uri client_id client_secret code_verifier)
          s.sent
          (exchange_code network show code redirect_uri client_id client_secret code_verifier s)
  unfolding exchange_code discover send
  exchange_code-Exchanged code redirect_uri client_id client_secret code_verifier s fresh =
      elim (Outcome-cases (json_of (network (s.sent ++ first_of s.client ∷ [])))) [
        | inl (e, h) ↦ rw (fresh, h) (stopped e _ refl)
        | inr (document, h) ↦ elim (Outcome-cases (value_at "token_endpoint" document)) [
          | inl (e, k) ↦ rw (fresh, h, k) (stopped e _ refl)
          | inr (endpoint, k) ↦ elim (Outcome-cases (text_of endpoint)) [
            | inl (e, l) ↦ rw (fresh, h, k, l) (stopped e _ refl)
            | inr (url, l) ↦
                rw (fresh, h, k, l)
                  (with_form (first_of s.client) _ (discovered s document) url s.sent refl
                    (is_null-value_at "token_endpoint" document endpoint k))
          ]
        ]
      ]

  -- With a document at hand the client sends at most one request with the access token.
  pub data Asked (token : Json) (sent : List OidcRequest)
      : Outcome Failure Json × Connection → Type 0 where
    nothing_sent : (e : Failure) (c : Connection) → c.sent ≡ sent → Asked token sent (err e, c)
    sent_token :
        (r : Outcome Failure Json) (c : Connection) (url : String)
        → c.sent ≡ sent ++ fetch url (some (cat "Bearer " (show token))) ∷ []
        → Asked token sent (r, c)

  pub fetch_userinfo-Asked :
      (token : Json) (s : Connection)
      → is_null s.client.discovery_cache ≡ false
      → Asked token s.sent (fetch_userinfo network show token s)
  unfolding fetch_userinfo discover send
  fetch_userinfo-Asked token s cached =
      elim (Outcome-cases (value_at "userinfo_endpoint" s.client.discovery_cache)) [
        | inl (e, h) ↦ rw (cached, h) (nothing_sent e _ refl)
        | inr (endpoint, h) ↦ elim (Outcome-cases (text_of endpoint)) [
          | inl (e, k) ↦ rw (cached, h, k) (nothing_sent e _ refl)
          | inr (url, k) ↦ rw (cached, h, k) (sent_token _ _ url refl)
        ]
      ]
