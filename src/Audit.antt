-- ===== src/Audit.antt =====
-- src/app/services/audit_service.py. A row is added and flushed, and the caller commits. The ids of new rows are
-- arguments, and the keyword arguments of `log_deletion` are a list.
use makoto_lite_llm.Base.{
  ℕ, String, Option, none, some, List, [], ◌∷◌, ◌++◌, or_raise, pure, raise, ◌>>=◌, ◌>>◌, ◌==◌,
  string_eq, if◌then◌else◌,
}
use makoto_lite_llm.Failure.{value_error, uncaught}
use makoto_lite_llm.Json.{Json}
use makoto_lite_llm.Models.{AuditLog}
use makoto_lite_llm.Store.{Service, write}

-- `kwargs[k]`, which raises `KeyError`
abbrev pub find_argument : String → List (String × String) → Option String
find_argument k [] = none
find_argument k ((j, v) ∷ kwargs) = if j == k then some v else find_argument k kwargs

module _ {F : Type 0} where
  -- the argument is the new row
  unfoldable pub log_action : AuditLog → Service F AuditLog
  log_action log = do write (λ db. record db { audit_log = db.audit_log ++ log ∷ [] }); pure log

  module _ (row_id original_id deleted_by : ℕ) (snapshot : Option Json)
      (kwargs : List (String × String)) where
    abbrev pub log_user_deletion : Service F Unit
    log_user_deletion = do
      email ← or_raise (find_argument "email" kwargs) uncaught
      write (λ db. record db {
        deleted_users =
            db.deleted_users
            ++ record {
              id = row_id;
              original_id = original_id;
              email = email;
              deleted_by = deleted_by;
              reason = none;
              snapshot = snapshot;
            }
              ∷ [];
      })

    abbrev pub log_team_deletion : Service F Unit
    log_team_deletion = do
      name ← or_raise (find_argument "name" kwargs) uncaught
      write (λ db. record db {
        deleted_teams =
            db.deleted_teams
            ++ record {
              id = row_id;
              original_id = original_id;
              name = name;
              deleted_by = deleted_by;
              snapshot = snapshot;
            }
              ∷ [];
      })

    abbrev pub log_key_deletion : Service F Unit
    log_key_deletion = do
      key_prefix ← or_raise (find_argument "key_prefix" kwargs) uncaught
      write (λ db. record db {
        deleted_keys =
            db.deleted_keys
            ++ record {
              id = row_id;
              original_id = original_id;
              key_prefix = key_prefix;
              deleted_by = deleted_by;
              snapshot = snapshot;
            }
              ∷ [];
      })

    unfoldable pub log_deletion : String → Service F Unit
    log_deletion resource_type =
        if resource_type == "user"
        then log_user_deletion
        else if resource_type == "team"
        then log_team_deletion
        else if resource_type == "key"
        then log_key_deletion
        else raise value_error
