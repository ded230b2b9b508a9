-- ===== src/Tests/Values.antt =====
-- The cache, the settings, the floats and the rows that the examples use.
use makoto_lite_llm.Base.{
  ℕ, ◌+◌, ◌≤◌, ◌<◌, String, ◌≡◌, ◌≢◌, inl, refl, false, Option, none, some, List, [], ◌∷◌, arith,
  leb, ltb, ◌==◌, string_eq, nat_eq, if◌then◌else◌, eq_iff, eq_refl,
}
use makoto_lite_llm.Cache.{TtlCache}
use makoto_lite_llm.Dependencies.{KeyCache}
use makoto_lite_llm.Config.{Settings}
use makoto_lite_llm.Float.{Float}
use makoto_lite_llm.Models.{
  User, RefreshToken, PasswordResetToken, ApiKey, SpendLog, Team, TeamMembership,
}
use makoto_lite_llm.Store.{Db, Session, empty_db, open_session}

module _ {V : Type 0} where
  -- A cache of five seconds that evicts nothing: the last write for a key counts.
  abbrev pub alive : ℕ → Option (ℕ × V) → Option V
  alive now none = none
  alive now (some (since, v)) = if ltb now (since + 5000000) then some v else none

  abbrev pub last_write : ℕ → String → List (String × Option (ℕ × V)) → Option V
  last_write now k [] = none
  last_write now k ((j, w) ∷ writes) = if j == k then alive now w else last_write now k writes

  pub last_write_self :
      (now : ℕ) (k : String) (w : Option (ℕ × V)) (c : List (String × Option (ℕ × V)))
      → last_write now k ((k, w) ∷ c) ≡ alive now w
  last_write_self now k w c = rw (eq_refl k) refl

  pub last_write-ne :
      (now : ℕ) (k j : String) (w : Option (ℕ × V)) (c : List (String × Option (ℕ × V)))
      → k ≢ j
      → last_write now j ((k, w) ∷ c) ≡ last_write now j c
  last_write-ne now k j w c ne = ground (arith, eq_iff k j)

  pub alive_until :
      (now later : ℕ) (k : String) (v : V) (c : List (String × Option (ℕ × V)))
      → now ≤ later
      → later < now + 5000000
      → last_write later k ((k, some (now, v)) ∷ c) ≡ some v
  alive_until now later k v c order soon = rw (eq_refl k) (ground arith)

  pub alive_over :
      (now later : ℕ) (k : String) (v : V) (c : List (String × Option (ℕ × V)))
      → now + 5000000 ≤ later
      → last_write later k ((k, some (now, v)) ∷ c) ≡ none
  alive_over now later k v c over = rw (eq_refl k) (ground arith)

abbrev pub write_cache : (V : Type 0) → TtlCache String V
write_cache V = record {
  Store = List (String × Option (ℕ × V));
  ttl = 5000000;
  get = last_write;
  put = λ now k v c. (k, some (now, v)) ∷ c;
  remove = λ k c. (k, none) ∷ c;
  get-put_self = alive_until;
  get-put_expired = alive_over;
  get-put_ne = λ now later k j v c ne. inl (last_write-ne later k j (some (now, v)) c ne);
  get-remove_self = λ now k c. last_write_self now k none c;
  get-remove_ne = λ now k j c ne. last_write-ne now k j none c ne;
}

abbrev pub key_cache : KeyCache ℕ
key_cache = write_cache (ApiKey ℕ × Option (User ℕ))

abbrev pub settings : Settings
settings = record {
  access_token_expire_minutes = 15;
  refresh_token_expire_days = 7;
  max_login_attempts = 2;
  lockout_duration_minutes = 30;
  base_url = "";
  sso_dashboard_redirect_url = "";
  encryption_key = "k";
  openai_api_key = none;
  anthropic_api_key = none;
}

-- whole numbers in place of floats
abbrev pub whole : Float
whole = record {
  Carrier = ℕ;
  zero = 0;
  add = λ a b. a + b;
  scale = λ n a. a;
  sum = λ xs. 0;
  le = leb;
  is_zero = λ a. leb a 0;
  show = λ a. "";
  show_fixed = λ a. "";
}

abbrev pub ann : User ℕ
ann = record {
  id = 1;
  email = "ann@x";
  password_hash = some "pw";
  name = none;
  role = "member";
  max_budget = none;
  spend = 0;
  budget_id = none;
  sso_provider = none;
  sso_subject = none;
  is_blocked = false;
  failed_login_attempts = 0;
  lockout_until = none;
  metadata_json = none;
}

abbrev pub old_token : RefreshToken
old_token = record {
  id = 5;
  token_hash = "old";
  user_id = 1;
  expires_at = 1000;
  is_revoked = false;
  replaced_by = none;
  ip_address = none;
  user_agent = none;
}

abbrev pub reset_row : PasswordResetToken
reset_row = record { id = 9; token_hash = "reset"; user_id = 1; expires_at = 1000; is_used = false }

abbrev pub ann_key : ApiKey ℕ
ann_key = record {
  id = 3;
  api_key_hash = "sk-1";
  key_prefix = "sk-1";
  key_alias = none;
  user_id = 1;
  team_id = some 7;
  org_id = none;
  project_id = none;
  allowed_models = none;
  max_budget = none;
  soft_budget = none;
  spend = 0;
  budget_id = none;
  tpm_limit = none;
  rpm_limit = none;
  max_parallel_requests = none;
  budget_reset_period = none;
  expires_at = none;
  auto_rotate = false;
  rotation_interval_days = none;
  last_rotated_at = none;
  previous_key_hash = none;
  grace_period_expires_at = none;
  is_blocked = false;
  metadata_json = none;
}

abbrev pub blue : Team ℕ
blue = record {
  id = 7;
  name = "blue";
  org_id = none;
  allowed_models = none;
  max_budget = none;
  soft_budget = none;
  budget_id = none;
  tpm_limit = none;
  rpm_limit = none;
  max_parallel_requests = none;
  budget_reset_period = none;
  is_blocked = false;
  metadata_json = none;
}

abbrev pub in_blue : TeamMembership ℕ
in_blue = record { id = 30; user_id = 1; team_id = 7; role = "member"; max_budget = none }

abbrev pub request : String → SpendLog ℕ
request id = record {
  request_id = id;
  api_key_hash = "sk-1";
  user_id = some 1;
  team_id = some 7;
  org_id = none;
  project_id = none;
  model = "gpt-4o";
  provider = "openai";
  input_tokens = 10;
  output_tokens = 20;
  spend = 3;
  cache_hit = false;
  status = "success";
  response_time_ms = 5;
}

abbrev pub office : Db ℕ
office = record (empty_db ℕ) {
  users = ann ∷ [];
  refresh_tokens = old_token ∷ [];
  password_reset_tokens = reset_row ∷ [];
  api_keys = ann_key ∷ [];
  teams = blue ∷ [];
  team_memberships = in_blue ∷ [];
}

abbrev pub at_office : Session ℕ
at_office = open_session office
