-- ===== src/Dependencies/Bearer.antt =====
-- The header Authorization with access and refresh tokens.
use Prim.Native.String.{◌++◌}
use text.Mathlib.Text.{starts_with}
use text.Mathlib.TextLemmas.{cons-append, nil-append}
use text.Mathlib.TextPositions.{starts_with-append}
use makoto_lite_llm.Base.{
  ℕ, ◌+◌, ◌≤◌, String, ◌≡◌, false, some, [], ◌∷◌, ok, err, keep, ◌==◌, nat_eq, Option-cases, inl,
  inr,
}
use makoto_lite_llm.Base.Text.{behind}
use makoto_lite_llm.Config.{Settings, minutes}
use makoto_lite_llm.Jwt.{
  Crypto, access_claims, refresh_claims, create_access_token, create_refresh_token,
}
use makoto_lite_llm.Models.{User}
use makoto_lite_llm.Failure.{http_error}
use makoto_lite_llm.Dependencies.{KeyCache, AuthState, bearer_token, get_current_user}

behind-Bearer : (token : String) → behind b' ' ("Bearer " ++ token) ≡ token
unfolding behind
behind-Bearer token = rw (
  cons-append, cons-append, cons-append, cons-append, cons-append, cons-append, cons-append,
  nil-append,
)

pub bearer_token-Bearer : (token : String) → bearer_token (some ("Bearer " ++ token)) ≡ some token
unfolding bearer_token
bearer_token-Bearer token = rw (starts_with-append "Bearer " token, behind-Bearer token)

module _ {F : Type 0} (crypto : Crypto) (settings : Settings) (cache : KeyCache F) where
  -- An access token that does not start with `sk-` authenticates its user, without a change of the state,
  -- from its issue until a second before it expires, if the id is of one row and the user is not blocked.
  pub get_current_user-access :
      (issued now : ℕ) (user : User F) (role : String) (s : AuthState cache)
      → let token = create_access_token crypto settings issued user.id role in
        starts_with token "sk-" ≡ false
        → issued ≤ now
        → now + 1000000 ≤ issued + minutes settings.access_token_expire_minutes
        → keep (λ u. u.id == user.id) s.session.current.users ≡ user ∷ []
        → user.is_blocked ≡ false
        → get_current_user crypto cache now (some ("Bearer " ++ token)) s ≡ (ok user, s)
  unfolding get_current_user create_access_token
  get_current_user-access issued now user role s plain order valid found open_user =
      let c = access_claims settings issued user.id role in
      let (d, e) = crypto.decode-encode now c order valid in
      let (same_sub, _, same_type) = crypto.decode_same now c d e in
      rw (bearer_token-Bearer, plain, e, same_type, same_sub, found, open_user)

  -- A refresh token that does not start with `sk-` never authenticates a request: the answer is 401 and the
  -- state stays.
  pub get_current_user-refresh :
      (issued now jti user_id : ℕ) (s : AuthState cache)
      → let token = create_refresh_token crypto settings issued jti user_id in
        starts_with token "sk-" ≡ false
        → get_current_user crypto cache now (some ("Bearer " ++ token)) s
          ≡ (err (http_error 401 "Invalid or expired token"), s)
  unfolding get_current_user create_refresh_token
  get_current_user-refresh issued now jti user_id s plain =
      let c = refresh_claims settings issued jti user_id in
      elim (Option-cases (crypto.decode now (crypto.encode c))) [
        | inl e ↦ rw (bearer_token-Bearer, plain, e)
        | inr (d, e) ↦ rw (bearer_token-Bearer, plain, e, (crypto.decode_same now c d e).2)
      ]

  -- An access token that does not start with `sk-` is refused with 401 from the time that it expires, and
  -- the state stays.
  pub get_current_user-expired :
      (issued now user_id : ℕ) (role : String) (s : AuthState cache)
      → let token = create_access_token crypto settings issued user_id role in
        starts_with token "sk-" ≡ false
        → issued + minutes settings.access_token_expire_minutes ≤ now
        → get_current_user crypto cache now (some ("Bearer " ++ token)) s
          ≡ (err (http_error 401 "Invalid or expired token"), s)
  unfolding get_current_user create_access_token
  get_current_user-expired issued now user_id role s plain over = rw (
    bearer_token-Bearer,
    plain,
    crypto.decode_expired now (access_claims settings issued user_id role) over,
  )
