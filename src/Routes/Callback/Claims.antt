-- ===== src/Routes/Callback/Claims.antt =====
-- src/app/routes/sso_routes.py: what `callback` takes from the claims of the identity provider. A claim of
-- another type than the code expects raises.
pub mod Identified
use Prim.Native.String.{◌++◌ as cat}
use makoto_lite_llm.Base.{
  String, Option, none, some, List, [], ◌∷◌, Outcome, ok, err, any, ◌==◌, string_eq, if◌then◌else◌,
}
use makoto_lite_llm.Base.Outcomes.{◌>>=◌, for_each}
use makoto_lite_llm.Base.Text.{has_char, behind}
use makoto_lite_llm.Failure.{Failure, http_error, uncaught}
use makoto_lite_llm.Json.{Json, null, str, arr, obj, Fields, get, is_truthy, to_list}
use makoto_lite_llm.Models.{SsoConfig}
use makoto_lite_llm.Oidc.{text_of}
use makoto_lite_llm.Sso.{Claimed}

abbrev pub fields_of : Json → Outcome Failure Fields
fields_of (obj d) = ok d
fields_of _ = err uncaught

-- `claims.get("email")`, and the refusal of a value that is not true
abbrev pub check_email : Option Json → Outcome Failure String
check_email none = err (http_error 400 "IdP did not return email claim")
check_email (some email) =
    if is_truthy email then text_of email else err (http_error 400 "IdP did not return email claim")

abbrev pub domain_of : String → String
domain_of email = if has_char b'@' email then behind b'@' email else ""

-- an empty list of domains allows all
abbrev pub check_domain : Option (List String) → String → Outcome Failure Unit
check_domain none email = ok tt
check_domain (some []) email = ok tt
check_domain (some (d ∷ domains)) email =
    if any (λ domain. domain == domain_of email) (d ∷ domains)
    then ok tt
    else err (
        http_error 403 (cat "Email domain '" (cat (domain_of email) "' is not in allowed domains")))

-- `claims.get("name")`
abbrev pub name_of : Option Json → Outcome Failure (Option String)
name_of none = ok none
name_of (some null) = ok none
name_of (some (str t)) = ok (some t)
name_of (some _) = err uncaught

-- `claims.get("sub", "")`
abbrev pub subject_of : Option Json → Outcome Failure String
subject_of none = ok ""
subject_of (some subject) = text_of subject

-- `claims.get("groups")`, where a value that is not true has no groups
abbrev pub groups_of : Option Json → Outcome Failure (List String)
groups_of none = ok []
groups_of (some (arr groups)) = for_each text_of (to_list groups)
groups_of (some groups) = if is_truthy groups then err uncaught else ok []

-- steps 4 and 5, and the arguments of step 6
unfoldable pub identify : SsoConfig → Fields → Outcome Failure Claimed
identify config claims = do
  email ← check_email (get "email" claims)
  passed ← check_domain config.allowed_domains email
  name ← name_of (get "name" claims)
  subject ← subject_of (get "sub" claims)
  ok (record {
    email = email;
    name = name;
    sso_provider = config.provider;
    sso_subject = subject;
    org_id = config.org_id;
    default_role = config.default_role;
  })
