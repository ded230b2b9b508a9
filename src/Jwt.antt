-- ===== src/Jwt.antt =====
-- src/app/auth/jwt_handler.py and src/app/auth/password.py, over the libraries that they call.
use makoto_lite_llm.Base.{ℕ, ◌+◌, ◌≤◌, String, ◌≡◌, Bool, true, Option, none, some}
use makoto_lite_llm.Config.{Settings, minutes, days}

-- The claims of a token. A refresh token has no role, and an access token no `jti`.
pub record Claims : Type 0 where
  pub sub : ℕ
  pub role : Option String
  pub ttype : String
  pub jti : Option ℕ
  pub iat : ℕ
  pub exp : ℕ

-- The libraries: SHA-256, bcrypt and PyJWT under the configured secret. PyJWT keeps times as whole
-- seconds, so that a token that was encoded here decodes from its issue until at least a second
-- before it expires, and not after, to claims that differ in the times at most.
pub record Crypto : Type 0 where
  pub sha256_hex : String → String
  pub hash_password : String → String
  pub verify_password : String → String → Bool
  pub verify_hash : (p : String) → verify_password p (hash_password p) ≡ true
  pub encode : Claims → String
  -- at a time; `none` stands for `PyJWTError`
  pub decode : ℕ → String → Option Claims
  pub decode-encode :
      (now : ℕ) (c : Claims)
      → c.iat ≤ now
      → now + 1000000 ≤ c.exp
      → (d : Claims) × (decode now (encode c) ≡ some d)
  pub decode_same :
      (now : ℕ) (c d : Claims)
      → decode now (encode c) ≡ some d
      → (d.sub ≡ c.sub) × (d.role ≡ c.role) × (d.ttype ≡ c.ttype)
  pub decode_expired : (now : ℕ) (c : Claims) → c.exp ≤ now → decode now (encode c) ≡ none

-- the payloads; `org_id` and `team_id` are `None` in all of the program's calls
abbrev pub access_claims : Settings → ℕ → ℕ → String → Claims
access_claims settings now user_id role = record {
  sub = user_id;
  role = some role;
  ttype = "access";
  jti = none;
  iat = now;
  exp = now + minutes settings.access_token_expire_minutes;
}

-- `jti` is the fresh UUID
abbrev pub refresh_claims : Settings → ℕ → ℕ → ℕ → Claims
refresh_claims settings now jti user_id = record {
  sub = user_id;
  role = none;
  ttype = "refresh";
  jti = some jti;
  iat = now;
  exp = now + days settings.refresh_token_expire_days;
}

module _ (crypto : Crypto) (settings : Settings) where
  unfoldable pub create_access_token : ℕ → ℕ → String → String
  create_access_token now user_id role = crypto.encode (access_claims settings now user_id role)

  unfoldable pub create_refresh_token : ℕ → ℕ → ℕ → String
  create_refresh_token now jti user_id = crypto.encode (refresh_claims settings now jti user_id)

unfoldable pub decode_token : Crypto → ℕ → String → Option Claims
decode_token crypto now token = crypto.decode now token
