-- ===== src/Auth/Reset.antt =====
-- The reset of a password, and the login after it.
use makoto_lite_llm.Base.{
  ℕ, ◌≤◌, String, ◌≡◌, refl, sym, ap, ◌∙◌, true, false, Option, none, some, List, [], ◌∷◌, ok,
  Outcome, keep, map_where, ◌==◌, nat_eq, string_eq, arith, bind-ok,
}
use makoto_lite_llm.Config.{Settings}
use makoto_lite_llm.Jwt.{Crypto}
use makoto_lite_llm.Models.{User, PasswordResetToken}
use makoto_lite_llm.Failure.{Failure}
use makoto_lite_llm.Store.{Session, select_one_or_none, select_one}
use makoto_lite_llm.Store.Queries.{
  keep-map_where_takes, scalar_one_or_none-some, scalar_one-ok, keep_fewer,
}
use makoto_lite_llm.Auth.{
  reset_password_with_token, consume, save_password, is_open, update_reset_token, update_user,
  set_password,
}

abbrev use_up : PasswordResetToken → PasswordResetToken
use_up t = record t { is_used = true }

open_earlier :
    (token_hash : String) (now later : ℕ) (t : PasswordResetToken)
    → now ≤ later
    → is_open token_hash later t ≡ true
    → is_open token_hash now t ≡ true
open_earlier token_hash now later t h u = ground arith

-- the rows of a token that was used are open at no later time
used_up :
    (crypto : Crypto) (token : String) (now later : ℕ) (t : PasswordResetToken)
    (rows : List PasswordResetToken) {after : List PasswordResetToken}
    → now ≤ later
    → keep (is_open (crypto.sha256_hex token) now) rows ≡ t ∷ []
    → after ≡ map_where (λ r. r.id == t.id) use_up rows
    → keep (is_open (crypto.sha256_hex token) later) after ≡ []
used_up crypto token now later t rows {after} order only e =
    let p = is_open (crypto.sha256_hex token) now in
    keep_fewer p (is_open (crypto.sha256_hex token) later)
      (λ r. open_earlier (crypto.sha256_hex token) now later r order) after
      (rw e (
        keep-map_where_takes p (λ r. r.id == t.id) use_up t (λ r. ground arith) rows (ground arith)
          only))

module _ {F : Type 0} (crypto : Crypto) (settings : Settings) where
  consume-true :
      (new_password : String) (o : Option PasswordResetToken) (s : Session F)
      → (consume crypto settings new_password o s).0 ≡ ok true
      → (t : PasswordResetToken) × (user : User F) × (o ≡ some t)
        × (keep (λ u. u.id == t.user_id) s.current.users ≡ user ∷ [])
        × ((consume crypto settings new_password o s).1.current
            ≡ update_user user.id
                (set_password crypto settings new_password)
                (update_reset_token t.id use_up s.current))
  consume-true new_password none s h = cc h
  consume-true new_password (some t) s h =
      let s' = record s { current = update_reset_token t.id use_up s.current } in
      let (user, found, same) =
        bind-ok (select_one (λ db. db.users) (λ u. u.id == t.user_id))
          (save_password crypto settings new_password) s' h in
      (t, user, refl, scalar_one-ok _ user found, ap (λ r. r.1.current) same)

  -- If a password reset succeeds, then no later reset with the same token does, and it changes nothing.
  pub reset_password_once :
      (now later : ℕ) (token new_password other_password : String) (s : Session F)
      → (reset_password_with_token crypto settings now token new_password s).0 ≡ ok true
      → now ≤ later
      → let after = (reset_password_with_token crypto settings now token new_password s).1 in
        reset_password_with_token crypto settings later token other_password after
        ≡ (ok false, after)
  unfolding reset_password_with_token
  reset_password_once now later token new_password other_password s h order =
      let test = is_open (crypto.sha256_hex token) now in
      let (o, found, same) =
        bind-ok (select_one_or_none {F = F} (λ db. db.password_reset_tokens) test)
          (consume crypto settings new_password) s h in
      let (t, user, e, _, current) = consume-true new_password o s (sym (ap (λ r. r.0) same) ∙ h) in
      let as_ok : Option PasswordResetToken → Outcome Failure (Option PasswordResetToken) =
        λ x. ok x in
      let only = scalar_one_or_none-some _ t (found ∙ ap as_ok e) in
      rw (
        used_up crypto token now later t (s.current.password_reset_tokens) order only (
          ap (λ r. r.1.current.password_reset_tokens) same
          ∙ ap (λ db. db.password_reset_tokens) current))
