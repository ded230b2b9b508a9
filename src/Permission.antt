-- ===== src/Permission.antt =====
-- src/app/services/permission_service.py: which models a key, its team and its organization allow.
-- An allowlist that is `None` hands the question to the next level.
pub mod Glob
pub mod Chain
use text.Mathlib.Text.{starts_with}
use makoto_lite_llm.Base.{
  String, Bool, true, Option, none, some, List, any, ◌==◌, string_eq, if◌then◌else◌,
}
use makoto_lite_llm.Base.Text.{ends_with, drop_last}

unfoldable pub model_matches_pattern : String → String → Bool
model_matches_pattern model pattern =
    if pattern == "*"
    then true
    else if ends_with b'*' pattern
    then starts_with model (drop_last pattern)
    else model == pattern

unfoldable pub model_is_allowed : String → Option (List String) → Option Bool
model_is_allowed model none = none
model_is_allowed model (some allowed_models) =
    some (any (λ pattern. model_matches_pattern model pattern) allowed_models)

-- the three early returns of `resolve_model_access`
abbrev first_answer : Option Bool → Option Bool → Option Bool → Bool
first_answer (some key_result) team_result org_result = key_result
first_answer none (some team_result) org_result = team_result
first_answer none none (some org_result) = org_result
first_answer none none none = true

unfoldable pub resolve_model_access :
    String → Option (List String) → Option (List String) → Option (List String) → Bool
resolve_model_access model key_allowed_models team_allowed_models org_allowed_models =
    first_answer (model_is_allowed model key_allowed_models)
      (model_is_allowed model team_allowed_models) (model_is_allowed model org_allowed_models)
