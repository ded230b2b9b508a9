-- ===== src/Users/Creation.antt =====
-- `create_user`, and the first login of the user.
use makoto_lite_llm.Base.{
  ℕ, String, ◌≡◌, refl, true, false, some, [], ◌∷◌, ◌++◌, ok, err, any, keep-append, ◌==◌,
  string_eq,
}
use text.Mathlib.TextPositions.{eq_refl}
use makoto_lite_llm.Auth.{authenticate_user}
use makoto_lite_llm.Base.Text.{is_empty}
use makoto_lite_llm.Config.{Settings}
use makoto_lite_llm.Failure.{duplicate_error}
use makoto_lite_llm.Float.{Float}
use makoto_lite_llm.Jwt.{Crypto}
use makoto_lite_llm.Store.{Session}
use makoto_lite_llm.Store.Queries.{keep_of_any}
use makoto_lite_llm.Users.{UserRequest, user_row, create_user}

module _ (float : Float) (crypto : Crypto) (settings : Settings) where
  open float use {Carrier}

  -- If no user has the email and the password is not empty, then `create_user` commits the new user behind the
  -- others, and a login with the email and the password returns this user at any time.
  pub create_user-authenticates :
      (row_id now now' : ℕ) (r : UserRequest Carrier) (password : String) (s : Session Carrier)
      → any (λ u. u.email == r.email) s.current.users ≡ false
      → r.password ≡ some password
      → is_empty password ≡ false
      → let user = user_row float crypto row_id r in
        let (result, after) = create_user float crypto row_id r s in
        (result ≡ ok user)
        × (after.committed.users ≡ s.current.users ++ user ∷ [])
        × ((authenticate_user crypto settings now now' r.email password after).0 ≡ ok (some user))
  unfolding create_user authenticate_user
  create_user-authenticates row_id now now' r password s free given filled =
      let absent =
        keep_of_any (λ u. u.email == r.email) (λ u. u.email == r.email) (λ u h. h) s.current.users
          free in
      rw (free, given, filled, keep-append, absent, eq_refl r.email, crypto.verify_hash password)
        (refl, refl, refl)

  -- If a user has the email, `create_user` raises `DuplicateError` and rolls back to what was committed.
  pub create_user-duplicate :
      (row_id : ℕ) (r : UserRequest Carrier) (s : Session Carrier)
      → any (λ u. u.email == r.email) s.current.users ≡ true
      → create_user float crypto row_id r s
        ≡ (err (duplicate_error "Email already exists"), record s { current = s.committed })
  unfolding create_user
  create_user-duplicate row_id r s taken = rw taken refl
