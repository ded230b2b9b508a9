-- ===== src/Routes/Login.antt =====
-- src/app/routes/auth_routes.py. What a handler draws is an argument; the answers are the tokens and the
-- count, without the constant texts.
pub mod Access
use makoto_lite_llm.Auth as Auth
use makoto_lite_llm.Auth.{
  TokenPair, authenticate_user, create_tokens, refresh_tokens, revoke_refresh_token,
  revoke_all_user_tokens, create_password_reset_token, reset_password_with_token,
}
use makoto_lite_llm.Base.{
  ℕ, String, Bool, true, false, Option, none, some, Outcome, ok, err, lift, pure, raise, ◌>>=◌,
  ◌>>◌, if◌then◌else◌,
}
use makoto_lite_llm.Config.{Settings}
use makoto_lite_llm.Dependencies.{KeyCache, Auth as AuthAction, on_session}
use makoto_lite_llm.Failure.{Failure, http_error}
use makoto_lite_llm.Jwt.{Crypto}
use makoto_lite_llm.Models.{User}
use makoto_lite_llm.Routes.{Caller, as_user}
use makoto_lite_llm.Store.{Service}

module _ {F : Type 0} (crypto : Crypto) (settings : Settings) where
  -- the two refusals of `login`
  abbrev pub check_login : Option (User F) → Outcome Failure (User F)
  check_login none = err (http_error 401 "Invalid credentials")
  check_login (some user) =
      if user.is_blocked then err (http_error 403 "User is blocked") else ok user

  unfoldable pub login : ℕ → ℕ → Auth.Draw → String → String → Service F TokenPair
  unfolding authenticate_user create_tokens
  login now now' draw email password = do
    found ← authenticate_user crypto settings now now' email password
    user ← lift (check_login found)
    create_tokens crypto settings draw user none none

  abbrev tokens_or_401 : Option TokenPair → Service F TokenPair
  tokens_or_401 none = raise (http_error 401 "Invalid or expired refresh token")
  tokens_or_401 (some tokens) = pure tokens

  unfoldable pub refresh : ℕ → Auth.Draw → String → Service F TokenPair
  unfolding refresh_tokens
  refresh now draw refresh_token = do
    tokens ← refresh_tokens crypto settings now draw refresh_token
    tokens_or_401 tokens

  -- the token is not returned
  unfoldable pub forgot_password : ℕ → ℕ → String → String → Service F Unit
  unfolding create_password_reset_token
  forgot_password now row_id token email = do
    create_password_reset_token crypto settings now row_id token email
    pure tt

  abbrev success_or_400 : Bool → Service F Unit
  success_or_400 false = raise (http_error 400 "Invalid or expired reset token")
  success_or_400 true = pure tt

  unfoldable pub reset_password : ℕ → String → String → Service F Unit
  unfolding reset_password_with_token
  reset_password now token new_password = do
    success ← reset_password_with_token crypto settings now token new_password
    success_or_400 success

  module _ (cache : KeyCache F) where
    unfoldable pub logout : Caller → String → AuthAction crypto cache Unit
    unfolding as_user revoke_refresh_token
    logout caller refresh_token = as_user crypto cache caller (λ _. do
      on_session crypto cache (revoke_refresh_token crypto settings refresh_token)
      pure tt)

    unfoldable pub logout_all : Caller → AuthAction crypto cache ℕ
    unfolding as_user revoke_all_user_tokens
    logout_all caller =
        as_user crypto cache caller
          (λ user. on_session crypto cache (revoke_all_user_tokens crypto settings user.id))
