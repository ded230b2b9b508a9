-- ===== src/Routes/Login/Access.antt =====
-- The login, and the access token that it returns.
use Prim.Native.String.{◌++◌ as cat}
use text.Mathlib.Text.{starts_with}
use makoto_lite_llm.Auth as Auth
use makoto_lite_llm.Auth.{
  authenticate_user, create_tokens, check_password, is_locked, reset_attempts, new_pair,
  update_user,
}
use makoto_lite_llm.Base.{
  ℕ, ◌+◌, ◌≤◌, String, ◌≡◌, refl, ◌∙◌, true, false, Option, some, pure, ◌>>◌, List, [], ◌∷◌, ok,
  keep, any, map_where, ◌==◌, nat_eq, string_eq,
}
use makoto_lite_llm.Config.{Settings, minutes}
use makoto_lite_llm.Dependencies.{KeyCache, AuthState, on_session, get_current_user}
use makoto_lite_llm.Dependencies.Bearer.{get_current_user-access}
use makoto_lite_llm.Jwt.{Crypto, create_access_token, create_refresh_token}
use makoto_lite_llm.Models.{User}
use makoto_lite_llm.Routes.Login.{login, check_login}
use makoto_lite_llm.Store.{write, commit}
use makoto_lite_llm.Store.Queries.{keep-map_where, keep-head}

module _ {F : Type 0} (crypto : Crypto) (settings : Settings) (cache : KeyCache F) where
  only_reset :
      (user : User F) (users : List (User F))
      → keep (λ u. u.id == user.id) users ≡ user ∷ []
      → keep
          (λ u. u.id == user.id)
          (map_where (λ u. u.id == user.id) (reset_attempts crypto settings) users)
        ≡ reset_attempts crypto settings user ∷ []
  only_reset user users found =
      let own = keep-head (λ u. u.id == user.id) users [] user found in
      keep-map_where (λ u. u.id == user.id) (λ u. u.id == user.id) (reset_attempts crypto settings)
        (λ u. refl) users
      ∙ rw (found, own) refl

  accepts :
      (now now' : ℕ) (password hash : String) (user : User F) (stored : Option String)
      → stored ≡ some hash
      → is_locked user now ≡ false
      → crypto.verify_password password hash ≡ true
      → check_password crypto settings now now' password user stored ≡ (do
        write (update_user user.id (reset_attempts crypto settings))
        commit
        pure (some (reset_attempts crypto settings user)))
  accepts now now' password hash user stored known unlocked verified =
      rw (known, unlocked, verified) refl

  passes :
      (user : User F) → user.is_blocked ≡ false → check_login crypto settings (some user) ≡ ok user
  passes user open_user = rw open_user refl

  -- If one user alone has the email and the id, is neither blocked nor locked out, and the password is verified
  -- against the stored hash, and if the refresh token drawn is new, then the login returns a pair of tokens, and
  -- its access token, if it does not start with `sk-`, authenticates the user, without failed attempts, from its
  -- issue until a second before it expires.
  pub login-access :
      (now now' later : ℕ) (draw : Auth.Draw) (password hash : String) (s : AuthState cache)
      (user : User F)
      → keep (λ u. u.email == user.email) s.session.current.users ≡ user ∷ []
      → keep (λ u. u.id == user.id) s.session.current.users ≡ user ∷ []
      → user.password_hash ≡ some hash
      → crypto.verify_password password hash ≡ true
      → is_locked user now ≡ false
      → user.is_blocked ≡ false
      → any
          (λ t.
            t.token_hash
            == crypto.sha256_hex (create_refresh_token crypto settings draw.now draw.jti user.id))
          s.session.current.refresh_tokens
        ≡ false
      → starts_with (create_access_token crypto settings draw.now user.id user.role) "sk-" ≡ false
      → draw.now ≤ later
      → later + 1000000 ≤ draw.now + minutes settings.access_token_expire_minutes
      → let (result, after) =
          on_session crypto cache (login crypto settings now now' draw user.email password) s in
        (result ≡ ok (new_pair crypto settings draw user))
        × (get_current_user crypto cache later
              (some (cat "Bearer " (new_pair crypto settings draw user).access_token))
              after
            ≡ (ok (reset_attempts crypto settings user), after))
  unfolding login
  login-access now now' later draw password hash s user by_email by_id stored verified unlocked
        open_user fresh plain order valid =
      let accepted =
        accepts now now' password hash user user.password_hash stored unlocked verified in
      let passed = passes (reset_attempts crypto settings user) open_user in
      rw (by_email, accepted, passed, fresh)
        (
          refl,
          get_current_user-access crypto settings cache draw.now later
              (reset_attempts crypto settings user) user.role _ plain order valid
              (only_reset user s.session.current.users by_id) open_user,
        )
