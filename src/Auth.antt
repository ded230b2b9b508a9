-- ===== src/Auth.antt =====
-- src/app/services/auth_service.py: login with lockout, token pairs and their rotation, logout and
-- password reset. A call of `datetime.now`, of a random generator or of `uuid7` is an argument.
pub mod Login
pub mod Tokens
pub mod Logout
pub mod Reset
use makoto_lite_llm.Base.{
  ℕ, ◌+◌, String, Bool, true, false, ◌&&◌, not, Option, none, some, List, [], ◌∷◌, ◌++◌, length,
  keep, any, map_where, ◌==◌, nat_eq, string_eq, leb, ltb, pure, gets, ◌>>=◌, ◌>>◌, if◌then◌else◌,
}
use makoto_lite_llm.Config.{Settings, minutes, hours, days}
use makoto_lite_llm.Jwt.{Crypto, create_access_token, create_refresh_token}
use makoto_lite_llm.Models.{User, RefreshToken, PasswordResetToken}
use makoto_lite_llm.Store.{
  Db, Session, Service, select_one_or_none, select_one, write, insert_unique, commit,
}

pub record TokenPair : Type 0 where
  pub access_token : String
  pub refresh_token : String

-- What a call that issues tokens draws: the time, which its payloads and its row share, the new `jti`,
-- and the id of the row.
pub record Draw : Type 0 where
  pub now : ℕ
  pub jti : ℕ
  pub row_id : ℕ

-- the `where` clause of `refresh_tokens`
abbrev pub is_usable : String → ℕ → RefreshToken → Bool
is_usable token_hash now t = t.token_hash == token_hash && not t.is_revoked && ltb now t.expires_at

abbrev pub revoke : RefreshToken → RefreshToken
revoke t = record t { is_revoked = true }

-- the `where` clause of `reset_password_with_token`
abbrev pub is_open : String → ℕ → PasswordResetToken → Bool
is_open token_hash now t = t.token_hash == token_hash && not t.is_used && ltb now t.expires_at

module _ {F : Type 0} where
  -- changes of the fields of a loaded row
  abbrev pub update_user : ℕ → (User F → User F) → Db F → Db F
  update_user id f db = record db { users = map_where (λ u. u.id == id) f db.users }

  abbrev pub update_refresh_token : ℕ → (RefreshToken → RefreshToken) → Db F → Db F
  update_refresh_token id f db = record db {
    refresh_tokens = map_where (λ t. t.id == id) f db.refresh_tokens;
  }

  abbrev pub update_reset_token : ℕ → (PasswordResetToken → PasswordResetToken) → Db F → Db F
  update_reset_token id f db = record db {
    password_reset_tokens = map_where (λ t. t.id == id) f db.password_reset_tokens;
  }

  -- `user.lockout_until and user.lockout_until > now`
  abbrev pub is_locked : User F → ℕ → Bool
  is_locked user now = elim user.lockout_until [ none ↦ false | some t ↦ ltb now t ]

  module _ (crypto : Crypto) (settings : Settings) where
    -- a failed attempt, with the time that the lockout is counted from
    abbrev pub failed_attempt : ℕ → User F → User F
    failed_attempt now user =
        let attempts = user.failed_login_attempts + 1 in
        record user {
          failed_login_attempts = attempts;
          lockout_until =
              if leb settings.max_login_attempts attempts
              then some (now + minutes settings.lockout_duration_minutes)
              else user.lockout_until;
        }

    abbrev pub reset_attempts : User F → User F
    reset_attempts user = record user { failed_login_attempts = 0; lockout_until = none }

    -- `now` is read by the lockout test, and `now'` where a lockout is set
    abbrev pub check_password :
        ℕ → ℕ → String → User F → Option String → Service F (Option (User F))
    check_password now now' password user none = pure none
    check_password now now' password user (some password_hash) =
        if is_locked user now
        then pure none
        else if crypto.verify_password password password_hash
        then (do
          write (update_user user.id reset_attempts)
          commit
          pure (some (reset_attempts user)))
        else (do write (update_user user.id (failed_attempt now')); commit; pure none)

    abbrev pub check_user : ℕ → ℕ → String → Option (User F) → Service F (Option (User F))
    check_user now now' password none = pure none
    check_user now now' password (some user) =
        check_password now now' password user user.password_hash

    unfoldable pub authenticate_user : ℕ → ℕ → String → String → Service F (Option (User F))
    authenticate_user now now' email password = do
      user ← select_one_or_none (λ db. db.users) (λ u. u.email == email)
      check_user now now' password user

    -- the pair, the row for its refresh token, and the row's hash
    abbrev pub new_pair : Draw → User F → TokenPair
    new_pair draw user = record {
      access_token = create_access_token crypto settings draw.now user.id user.role;
      refresh_token = create_refresh_token crypto settings draw.now draw.jti user.id;
    }

    abbrev new_refresh_row : Draw → User F → Option String → Option String → RefreshToken
    new_refresh_row draw user ip_address user_agent = record {
      id = draw.row_id;
      token_hash =
          crypto.sha256_hex (create_refresh_token crypto settings draw.now draw.jti user.id);
      user_id = user.id;
      expires_at = draw.now + days settings.refresh_token_expire_days;
      is_revoked = false;
      replaced_by = none;
      ip_address = ip_address;
      user_agent = user_agent;
    }

    -- `db.add` of a refresh token, flushed; its hash is unique
    abbrev pub insert_refresh_token : RefreshToken → Service F Unit
    insert_refresh_token row =
        insert_unique (λ db. any (λ t. t.token_hash == row.token_hash) db.refresh_tokens)
          (λ db. record db { refresh_tokens = db.refresh_tokens ++ row ∷ [] })

    unfoldable pub create_tokens :
        Draw → User F → Option String → Option String → Service F TokenPair
    create_tokens draw user ip_address user_agent = do
      insert_refresh_token (new_refresh_row draw user ip_address user_agent)
      commit
      pure (new_pair draw user)

    -- what follows once the owner of the old token is loaded; the new row has its id after the flush
    abbrev issue_pair : Draw → RefreshToken → User F → Service F (Option TokenPair)
    issue_pair draw old_token user = do
      insert_refresh_token (new_refresh_row draw user none none)
      write (update_refresh_token old_token.id (λ t. record t { replaced_by = some draw.row_id }))
      commit
      pure (some (new_pair draw user))

    -- the row is revoked before the new one is inserted, and linked to it after
    abbrev rotate : Draw → RefreshToken → Service F (Option TokenPair)
    rotate draw old_token = do
      write (update_refresh_token old_token.id revoke)
      user ← select_one (λ db. db.users) (λ u. u.id == old_token.user_id)
      issue_pair draw old_token user

    abbrev rotate_found : Draw → Option RefreshToken → Service F (Option TokenPair)
    rotate_found draw none = pure none
    rotate_found draw (some old_token) = rotate draw old_token

    unfoldable pub refresh_tokens : ℕ → Draw → String → Service F (Option TokenPair)
    refresh_tokens now draw refresh_token_str = do
      old_token ←
          select_one_or_none (λ db. db.refresh_tokens)
            (is_usable (crypto.sha256_hex refresh_token_str) now)
      rotate_found draw old_token

    abbrev revoke_found : Option RefreshToken → Service F Bool
    revoke_found none = pure false
    revoke_found (some token) = do write (update_refresh_token token.id revoke); commit; pure true

    unfoldable pub revoke_refresh_token : String → Service F Bool
    revoke_refresh_token refresh_token_str = do
      token ←
          select_one_or_none (λ db. db.refresh_tokens)
            (λ t. t.token_hash == crypto.sha256_hex refresh_token_str)
      revoke_found token

    -- the row count is that of the rows that the `update` matches
    unfoldable pub revoke_all_user_tokens : ℕ → Service F ℕ
    revoke_all_user_tokens user_id = do
      count ← gets (λ s.
          length (keep (λ t. t.user_id == user_id && not t.is_revoked) s.current.refresh_tokens))
      write (λ db. record db {
        refresh_tokens =
            map_where (λ t. t.user_id == user_id && not t.is_revoked) revoke db.refresh_tokens;
      })
      commit
      pure count

    abbrev insert_reset_token : PasswordResetToken → Service F Unit
    insert_reset_token row =
        insert_unique (λ db. any (λ t. t.token_hash == row.token_hash) db.password_reset_tokens)
          (λ db. record db { password_reset_tokens = db.password_reset_tokens ++ row ∷ [] })

    abbrev issue_reset_token : ℕ → ℕ → String → Option (User F) → Service F (Option String)
    issue_reset_token now row_id token none = pure none
    issue_reset_token now row_id token (some user) = do
      insert_reset_token (record {
        id = row_id;
        token_hash = crypto.sha256_hex token;
        user_id = user.id;
        expires_at = now + hours 1;
        is_used = false;
      })
      commit
      pure (some token)

    -- `token` is the fresh random text
    unfoldable pub create_password_reset_token : ℕ → ℕ → String → String → Service F (Option String)
    create_password_reset_token now row_id token email = do
      user ← select_one_or_none (λ db. db.users) (λ u. u.email == email)
      issue_reset_token now row_id token user

    abbrev pub set_password : String → User F → User F
    set_password new_password user = record user {
      password_hash = some (crypto.hash_password new_password);
    }

    abbrev save_password : String → User F → Service F Bool
    save_password new_password user = do
      write (update_user user.id (set_password new_password))
      commit
      pure true

    abbrev pub consume : String → Option PasswordResetToken → Service F Bool
    consume new_password none = pure false
    consume new_password (some reset_token) = do
      write (update_reset_token reset_token.id (λ t. record t { is_used = true }))
      user ← select_one (λ db. db.users) (λ u. u.id == reset_token.user_id)
      save_password new_password user

    unfoldable pub reset_password_with_token : ℕ → String → String → Service F Bool
    reset_password_with_token now token new_password = do
      reset_token ←
          select_one_or_none (λ db. db.password_reset_tokens)
            (is_open (crypto.sha256_hex token) now)
      consume new_password reset_token
