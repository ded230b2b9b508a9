-- ===== src/Tests/Login.antt =====
-- A login by SSO at a provider that answers, on concrete inputs.
use Prim.Native.Char.{Char}
use Prim.Native.String.{◌++◌ as cat}
use makoto_lite_llm.Application.{openai_shape_error_handler, detail_json}
use makoto_lite_llm.Application.Envelope.{IsEnvelope, openai_shape_error_handler-IsEnvelope}
use makoto_lite_llm.Secrets.{Cipher}
use makoto_lite_llm.Base.Int.{pos}
use makoto_lite_llm.Auth.{new_pair}
use makoto_lite_llm.Base.{ℕ, String, ◌≡◌, refl, none, some, List, [], ◌∷◌, ok, err, true}
use makoto_lite_llm.Failure.{http_error, text}
use makoto_lite_llm.Json.{Json, str, obj, end, field, Fields}
use makoto_lite_llm.Jwt.{create_refresh_token}
use makoto_lite_llm.Models.{SsoConfig}
use makoto_lite_llm.Oidc.{OidcRequest, fetch, post, Network, new_client}
use makoto_lite_llm.Routes.Callback.{Outside, CallbackDraw, redirect_url, callback}
use makoto_lite_llm.Routes.Callback.Admission.{IsAdmitted, callback-IsAdmitted}
use makoto_lite_llm.Routes.Callback.Once.{callback_once}
use makoto_lite_llm.Routes.Callback.Outsider.{callback_outsider}
use makoto_lite_llm.Sso.{Claimed, LoginState}
use makoto_lite_llm.Sso.Authorize.{Web, SsoState}
use makoto_lite_llm.Store.{open_session}
use makoto_lite_llm.Tests.Codec.{plain_crypto, encode_plain}
use makoto_lite_llm.Tests.Values.{write_cache, settings, ann, office}

abbrev show : Json → String
show (str t) = t
show _ = ""

abbrev web : Web
web = record { urlencode = λ params. "q"; urlsafe_sha256 = λ t. cat t "="; show = show }

abbrev discovery : Fields
discovery = field "authorization_endpoint" (str "https://idp/auth") (
    field "token_endpoint" (str "https://idp/token")
      (field "userinfo_endpoint" (str "https://idp/me") end))

abbrev claims : Fields
claims = field "email" (str "ann@x") (field "sub" (str "s1") end)

abbrev answer : OidcRequest → Json
answer (fetch url none) = obj discovery
answer (post url form) = obj (field "access_token" (str "t1") end)
answer (fetch url (some header)) = obj claims

abbrev network : Network
network [] = none
network (r ∷ []) = some (200, some (answer r))
network (r ∷ r' ∷ rs) = network (r' ∷ rs)

abbrev characters : String → List Char
characters String.[] = []
characters (String.◌∷◌ c s) = c ∷ characters s

unfoldable spell : List Char → String
spell [] = ""
spell (c ∷ cs) = String.◌∷◌ c (spell cs)

spell-characters : (t : String) → some (spell (characters t)) ≡ some t
unfolding spell
spell-characters String.[] = refl
spell-characters (String.◌∷◌ c s) = cc (spell-characters s)

characters-spell : (cs : List Char) → some (characters (spell cs)) ≡ some cs
unfolding spell
characters-spell [] = refl
characters-spell (c ∷ cs) = cc (characters-spell cs)

-- bytes are characters, and nothing is hidden
abbrev plain_cipher : Cipher
plain_cipher = record {
  Byte = Char;
  zero_byte = "0";
  utf8_encode = characters;
  utf8_decode = λ cs. some (spell cs);
  b64encode = spell;
  b64decode = λ t. some (characters t);
  seal = λ key nonce text. text;
  unseal = λ key nonce sealed. some sealed;
  decode-encode = spell-characters;
  b64decode-b64encode = characters-spell;
  unseal-seal = λ key nonce text size. refl;
}

abbrev outside : Outside ℕ
outside = record {
  web = web;
  network = network;
  parse_uuid = λ t. none;
  cipher = plain_cipher;
  nothing = 0;
}

abbrev okta : SsoConfig
okta = record {
  id = 70;
  org_id = 50;
  provider = "okta";
  client_id = "makoto";
  client_secret_encrypted = "0123456789abs";
  issuer_url = "https://idp/";
  allowed_domains = none;
  group_to_team_mapping = none;
  auto_create_user = true;
  default_role = "member";
  is_active = true;
}

abbrev drawn : CallbackDraw
drawn = record {
  now = 200;
  user_id = 80;
  member_id = 81;
  group_ids = λ n. n;
  tokens = record { now = 200; jti = 4; row_id = 82 };
}

abbrev at_start : SsoState ℕ (write_cache LoginState)
at_start = record {
  session = open_session (record office { sso_configs = okta ∷ [] });
  logins = [];
  connection = record { client = new_client ""; sent = [] };
}

abbrev at_login : SsoState ℕ (write_cache LoginState)
at_login = record at_start {
  logins = ("st", some (100, record { verifier = "v"; org_id = 50 })) ∷ [];
}

abbrev from_okta : Claimed
from_okta = record {
  email = "ann@x";
  name = none;
  sso_provider = "okta";
  sso_subject = "s1";
  org_id = 50;
  default_role = "member";
}

callback_outsider_example :
    (callback plain_crypto settings (write_cache LoginState) outside drawn "c" "st" at_login).0
    ≡ ok (redirect_url settings (new_pair plain_crypto settings drawn.tokens ann))
unfolding callback create_refresh_token encode_plain
callback_outsider_example =
    callback_outsider plain_crypto settings (write_cache LoginState) outside drawn "c" "st" at_login
      (record { verifier = "v"; org_id = 50 }) okta claims from_okta ann refl refl refl refl refl
      refl refl refl

callback_once_example :
    let after =
      (callback plain_crypto settings (write_cache LoginState) outside drawn "c" "st" at_login).1 in
    let (result, last) =
      callback plain_crypto settings (write_cache LoginState) outside drawn "d" "st" after in
    (result ≡ err (http_error 400 "Invalid or expired state parameter"))
    × (last.session ≡ after.session)
    × (last.connection ≡ after.connection)
callback_once_example =
    callback_once plain_crypto settings (write_cache LoginState) outside drawn drawn "c" "d" "st"
      at_login

callback-IsAdmitted_example :
    IsAdmitted plain_crypto settings
      (write_cache LoginState)
      outside
      drawn
      "c"
      "st"
      at_login
      (redirect_url settings (new_pair plain_crypto settings drawn.tokens ann))
unfolding callback create_refresh_token encode_plain
callback-IsAdmitted_example =
    callback-IsAdmitted plain_crypto settings (write_cache LoginState) outside drawn "c" "st"
      at_login (redirect_url settings (new_pair plain_crypto settings drawn.tokens ann)) refl

openai_shape_error_handler-IsEnvelope_example :
    let response =
      openai_shape_error_handler
        (λ status content retry. record { status = 0; content = content; retry_after = retry })
        show
        "/v1/chat/completions"
        429
        (detail_json (text "slow down"))
        (some (pos 7)) in
    (response.status ≡ 429)
    × (response.retry_after ≡ some (pos 7))
    × IsEnvelope
        (record { message = "slow down"; etype = "api_error"; code = none })
        response.content
openai_shape_error_handler-IsEnvelope_example =
    openai_shape_error_handler-IsEnvelope
      (λ status content retry. record { status = 0; content = content; retry_after = retry }) show
      "/v1/chat/completions" 429 (text "slow down") (some (pos 7)) refl
