-- ===== src/Auth/Login.antt =====
-- Login and lockout.
use mathlib.Core.Option.{some-injective}
use makoto_lite_llm.Base.{
  ℕ, suc, ◌+◌, ◌<◌, String, ◌≡◌, ◌↔◌, refl, ap, ◌∙◌, true, false, Option, none, some, List, [], ◌∷◌,
  ok, keep, map_where, All, length, ◌==◌, nat_eq, string_eq, arith, Bool-cases, inl, inr,
}
use makoto_lite_llm.Config.{Settings, minutes}
use makoto_lite_llm.Jwt.{Crypto}
use makoto_lite_llm.Models.{User}
use makoto_lite_llm.Store.{Session}
use makoto_lite_llm.Store.Queries.{keep-map_where}
use makoto_lite_llm.Auth.{
  authenticate_user, check_password, is_locked, failed_attempt, reset_attempts,
}

-- one attempt to log in: the times that it reads, and the password
pub record Attempt : Type 0 where
  pub now : ℕ
  pub now' : ℕ
  pub password : String

-- the time from which the lockout of the last attempt counts
abbrev pub last_time : Attempt → List Attempt → ℕ
last_time t [] = t.now'
last_time t (t' ∷ tries) = last_time t' tries

until-is_locked :
    {F : Type 0} (user : User F) (t now : ℕ)
    → user.lockout_until ≡ some t
    → now < t
    → is_locked user now ≡ true
until-is_locked user t now e h = ground arith

module _ {F : Type 0} (crypto : Crypto) (settings : Settings) (email : String) where
  -- the user is the only one with the email, in this state of the session
  abbrev pub IsAccount : Session F → User F → Type 0
  IsAccount s user = keep (λ u. u.email == email) s.current.users ≡ user ∷ []

  check_password_iff :
      (now now' : ℕ) (password : String) (s : Session F) (u : User F) (stored : Option String)
      → ((v : User F) × ((check_password crypto settings now now' password u stored s).0
            ≡ ok (some v)))
        ↔ ((h : String) × (stored ≡ some h)
            × (is_locked u now ≡ false)
            × (crypto.verify_password password h ≡ true))
  check_password_iff now now' password s u none = (λ r. cc r.1, λ r. cc r.1)
  check_password_iff now now' password s u (some hash) = elim (Bool-cases (is_locked u now)) [
    | inl locked ↦ rw locked (λ r. cc r.1, λ r. cc r.2)
    | inr open_now ↦ elim (Bool-cases (crypto.verify_password password hash)) [
      | inl right ↦
          rw (open_now, right)
            (λ r. (hash, refl, refl, right), λ r. (reset_attempts crypto settings u, refl))
      | inr wrong ↦ rw (open_now, wrong) (λ r. cc r.1, λ r. cc (wrong, r.1, r.3))
    ]
  ]

  -- If one user alone has the email, then the login returns a user exactly when this one has a password
  -- hash, is not locked out, and the password is verified against the hash.
  pub authenticate_user_iff :
      (now now' : ℕ) (password : String) (s : Session F) (user : User F)
      → IsAccount s user
      → ((u : User F) × ((authenticate_user crypto settings now now' email password s).0
            ≡ ok (some u)))
        ↔ ((hash : String) × (user.password_hash ≡ some hash)
            × (is_locked user now ≡ false)
            × (crypto.verify_password password hash ≡ true))
  unfolding authenticate_user
  authenticate_user_iff now now' password s user account =
      rw account (check_password_iff now now' password s user user.password_hash)

  locked_out :
      (now now' : ℕ) (password : String) (s : Session F) (user : User F)
      → IsAccount s user
      → is_locked user now ≡ true
      → authenticate_user crypto settings now now' email password s ≡ (ok none, s)
  unfolding authenticate_user
  locked_out now now' password s user account locked = rw account (ground arith)

  pub updated_account :
      (s : Session F) (user : User F) (f : User F → User F)
      → ((u : User F) → (f u).email ≡ u.email)
      → IsAccount s user
      → keep (λ u. u.email == email) (map_where (λ u. u.id == user.id) f s.current.users)
        ≡ f user ∷ []
  updated_account s user f same account =
      keep-map_where (λ u. u.email == email) (λ u. u.id == user.id) f
        (λ u. ap (λ (t : String). t == email) (same u)) s.current.users
      ∙ (rw account (ground arith))

  -- the attempts, one request after the other
  unfoldable pub attempt_all : List Attempt → Session F → Session F
  attempt_all [] s = s
  attempt_all (t ∷ tries) s =
      attempt_all tries (authenticate_user crypto settings t.now t.now' email t.password s).1

  check_password_wrong :
      (t : Attempt) (s : Session F) (user : User F) (stored : Option String) {hash : String}
      → IsAccount s user
      → stored ≡ some hash
      → is_locked user t.now ≡ false
      → crypto.verify_password t.password hash ≡ false
      → IsAccount
          (check_password crypto settings t.now t.now' t.password user stored s).1
          (failed_attempt crypto settings t.now' user)
  check_password_wrong t s user none a e o w = cc e
  check_password_wrong t s user (some h) {hash} a e o w =
      let w' : crypto.verify_password t.password h ≡ false =
        ap (λ k. crypto.verify_password t.password k) (some-injective h hash e) ∙ w in
      rw (o, w') (updated_account s user (failed_attempt crypto settings t.now') (λ u. refl) a)

  -- a wrong password for an account that is not locked is counted, and nothing else changes
  wrong_counts :
      (t : Attempt) (s : Session F) (user : User F) {hash : String}
      → IsAccount s user
      → user.password_hash ≡ some hash
      → is_locked user t.now ≡ false
      → crypto.verify_password t.password hash ≡ false
      → IsAccount
          (authenticate_user crypto settings t.now t.now' email t.password s).1
          (failed_attempt crypto settings t.now' user)
  unfolding authenticate_user
  wrong_counts t s user account stored open_now wrong =
      rw account (check_password_wrong t s user user.password_hash account stored open_now wrong)

  -- the count goes up to the limit, and the attempt that reaches it sets the lockout
  locks_at_limit :
      (t : Attempt) (tries : List Attempt) (s : Session F) (user : User F) {hash : String}
      → IsAccount s user
      → user.password_hash ≡ some hash
      → user.lockout_until ≡ none
      → All (λ a. crypto.verify_password a.password hash ≡ false) (t ∷ tries)
      → user.failed_login_attempts + suc (length tries) ≡ settings.max_login_attempts
      → (locked : User F) × IsAccount (attempt_all (t ∷ tries) s) locked
        × (locked.lockout_until
            ≡ some (last_time t tries + minutes settings.lockout_duration_minutes))
  unfolding attempt_all
  locks_at_limit t [] s user account stored open_now wrong count = (
    failed_attempt crypto settings t.now' user,
    wrong_counts t s user account stored (rw open_now) wrong.0,
    ground arith,
  )
  locks_at_limit t (t' ∷ tries) s user account stored open_now wrong count =
      locks_at_limit t' tries (authenticate_user crypto settings t.now t.now' email t.password s).1
        (failed_attempt crypto settings t.now' user)
        (wrong_counts t s user account stored (rw open_now) wrong.0) stored (ground arith) wrong.1
        (omega arith)

  -- If a user is the only one with the email, has a password, no failed attempts and no lockout, then as many
  -- wrong passwords in a row as the settings allow lock the account: until the lockout is over every further
  -- attempt is refused, with the right password too, and changes nothing.
  pub lockout_after_failures :
      (t : Attempt) (tries : List Attempt) (s : Session F) (user : User F) {hash : String}
      → IsAccount s user
      → user.password_hash ≡ some hash
      → user.failed_login_attempts ≡ 0
      → user.lockout_until ≡ none
      → All (λ a. crypto.verify_password a.password hash ≡ false) (t ∷ tries)
      → suc (length tries) ≡ settings.max_login_attempts
      → (now now' : ℕ) (password : String)
      → now < last_time t tries + minutes settings.lockout_duration_minutes
      → authenticate_user crypto settings now now' email password (attempt_all (t ∷ tries) s)
        ≡ (ok none, attempt_all (t ∷ tries) s)
  lockout_after_failures t tries s user account stored fresh open_now wrong count now now' password
        soon =
      let (locked, account', until) =
        locks_at_limit t tries s user account stored open_now wrong (omega arith) in
      locked_out now now' password (attempt_all (t ∷ tries) s) locked account'
        (until-is_locked locked _ now until soon)
