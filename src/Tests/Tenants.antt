-- ===== src/Tests/Tenants.antt =====
-- Teams, logins by SSO and the spend of requests, on concrete inputs.
use makoto_lite_llm.Base.{
  ℕ, String, ◌≡◌, refl, Option, none, some, List, [], ◌∷◌, ok, ◌==◌, string_eq, nat_eq,
  if◌then◌else◌,
}
use makoto_lite_llm.Store.{Session, open_session, empty_db}
use makoto_lite_llm.Teams.{new_member}
use makoto_lite_llm.Sso.{Claimed, provision_sso_user, new_org_member, map_groups_to_teams}
use makoto_lite_llm.Sso.Provision.{provision_sso_user-member}
use makoto_lite_llm.Sso.Groups.{map_groups_to_teams-last_taken}
use makoto_lite_llm.Sso.Added.{map_groups_to_teams-new}
use makoto_lite_llm.Spend.{Charge, charge_of}
use makoto_lite_llm.Spend.Ledger.{IsLedger, log_all, log_all-IsLedger}
use makoto_lite_llm.Tests.Values.{whole, ann, in_blue, request, office, at_office}

abbrev claimed : String → ℕ → Claimed
claimed email org_id = record {
  email = email;
  name = some "A";
  sso_provider = "okta";
  sso_subject = "s1";
  org_id = org_id;
  default_role = "member";
}

-- the office with the user in the organization
abbrev joined : Session ℕ
joined =
    open_session (record office { org_memberships = new_org_member 40 1 (claimed "ann@x" 9) ∷ [] })

provision_sso_user-member_example :
    provision_sso_user 0 2 41 (claimed "ann@x" 9) joined ≡ (ok ann, joined)
provision_sso_user-member_example =
    provision_sso_user-member 0 2 41 (claimed "ann@x" 9) joined ann refl refl refl

abbrev parse_uuid : String → Option ℕ
parse_uuid t = if t == "seven" then some 7 else if t == "eight" then some 8 else none

abbrev mapping : List (String × String)
mapping = ("dev", "seven") ∷ ("ops", "eight") ∷ []

map_groups_to_teams-last_taken_example :
    map_groups_to_teams parse_uuid 1 (("ops", 50) ∷ ("dev", 51) ∷ []) mapping at_office
    ≡ (ok tt, at_office)
map_groups_to_teams-last_taken_example =
    map_groups_to_teams-last_taken parse_uuid 1 (("ops", 50) ∷ []) mapping "dev" "seven" 51 7
      at_office (refl, (refl, tt)) refl refl refl refl

map_groups_to_teams-new_example :
    let (result, after) =
      map_groups_to_teams parse_uuid 2
        (("dev", 50) ∷ ("hr", 51) ∷ ("ops", 52) ∷ [])
        mapping
        at_office in
    (result ≡ ok tt)
    × (after.committed.team_memberships
        ≡ in_blue ∷ new_member 50 7 2 "member" ∷ new_member 52 8 2 "member" ∷ [])
map_groups_to_teams-new_example =
    map_groups_to_teams-new parse_uuid 2 (("dev", 50) ∷ ("hr", 51) ∷ ("ops", 52) ∷ []) mapping
      at_office (refl, (refl, tt)) refl (refl, (refl, tt))

abbrev charge : Charge ℕ ℕ
charge = charge_of 5 (request "r1") 1

log_all-IsLedger_example :
    IsLedger whole
      (log_all whole ((5, request "r1") ∷ (5, request "r2") ∷ []) (open_session (empty_db ℕ)))
      ((5, request "r1") ∷ (5, request "r2") ∷ [])
log_all-IsLedger_example =
    log_all-IsLedger whole ((5, request "r1") ∷ (5, request "r2") ∷ []) (refl, (refl, tt))

-- the state after one request
abbrev logged : Session ℕ
logged = log_all whole ((5, request "r1") ∷ []) (open_session (empty_db ℕ))
