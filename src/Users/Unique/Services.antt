-- ===== src/Users/Unique/Services.antt =====
-- Every service that changes users keeps their emails unique, whether it returns or raises.
use makoto_lite_llm.Auth.{
  authenticate_user, check_password, check_user, consume, update_reset_token, failed_attempt,
  reset_attempts, is_locked, is_open, reset_password_with_token, set_password,
}
use makoto_lite_llm.Base.{
  ℕ, String, ◌≡◌, refl, Bool, true, not, Bool-cases, inl, inr, Option, none, some, ok, any, keep,
  map_where, length, ◌≤◌, ◌==◌, nat_eq, string_eq,
}
use makoto_lite_llm.Base.Outcomes.{Outcome-cases}
use makoto_lite_llm.Config.{Settings}
use makoto_lite_llm.Float.{Float}
use makoto_lite_llm.Jwt.{Crypto}
use makoto_lite_llm.Models.{User, PasswordResetToken}
use makoto_lite_llm.Sso.{Claimed, provision_sso_user, new_user, link_user, in_org}
use makoto_lite_llm.Store.{Session, scalar_one, scalar_one_or_none}
use makoto_lite_llm.Users.{
  UserRequest, ProfileUpdate, user_row, create_user, apply_profile, update_user_profile,
  update_user_budget, block_user, delete_user, delete_found,
}
use makoto_lite_llm.Users.Unique.{
  has_email, IsUniqueIn, IsUnique-append, IsUnique-map_where, IsUnique-keep, IsUniqueIn-continue,
  change_found-IsUniqueIn,
}

module _ (float : Float) (crypto : Crypto) where
  open float use {Carrier}

  pub create_user-IsUniqueIn :
      (row_id : ℕ) (r : UserRequest Carrier) (s : Session Carrier)
      → IsUniqueIn s
      → IsUniqueIn (create_user float crypto row_id r s).1
  unfolding create_user
  create_user-IsUniqueIn row_id r s h =
      elim (Bool-cases (any (has_email r.email) s.current.users)) [
        | inl taken ↦ rw taken (h.1, h.1)
        | inr free ↦
            let unique =
              IsUnique-append s.current.users (user_row float crypto row_id r) free h.0 in
            rw free (unique, unique)
      ]

module _ {F : Type 0} where
  pub update_user_profile-IsUniqueIn :
      (user_id : ℕ) (p : ProfileUpdate) (s : Session F)
      → IsUniqueIn s
      → IsUniqueIn (update_user_profile user_id p s).1
  unfolding update_user_profile
  update_user_profile-IsUniqueIn user_id p s h =
      IsUniqueIn-continue (scalar_one_or_none (keep (λ u. u.id == user_id) s.current.users)) s _ h
        (λ found. change_found-IsUniqueIn (apply_profile p) found s (λ u. refl) h)

  pub update_user_budget-IsUniqueIn :
      (user_id : ℕ) (max_budget : Option F) (s : Session F)
      → IsUniqueIn s
      → IsUniqueIn (update_user_budget user_id max_budget s).1
  unfolding update_user_budget
  update_user_budget-IsUniqueIn user_id max_budget s h =
      IsUniqueIn-continue (scalar_one_or_none (keep (λ u. u.id == user_id) s.current.users)) s _ h
        (λ found. change_found-IsUniqueIn _ found s (λ u. refl) h)

  pub block_user-IsUniqueIn :
      (user_id : ℕ) (blocked : Bool) (s : Session F)
      → IsUniqueIn s
      → IsUniqueIn (block_user user_id blocked s).1
  unfolding block_user
  block_user-IsUniqueIn user_id blocked s h =
      IsUniqueIn-continue (scalar_one_or_none (keep (λ u. u.id == user_id) s.current.users)) s _ h
        (λ found. change_found-IsUniqueIn _ found s (λ u. refl) h)

  delete_found-IsUniqueIn :
      (found : Option (User F)) (s : Session F) → IsUniqueIn s → IsUniqueIn (delete_found found s).1
  delete_found-IsUniqueIn none s h = h
  delete_found-IsUniqueIn (some user) s h =
      let unique = IsUnique-keep (λ u. not (u.id == user.id)) s.current.users h.0 in
      (unique, unique)

  pub delete_user-IsUniqueIn :
      (user_id : ℕ) (s : Session F) → IsUniqueIn s → IsUniqueIn (delete_user user_id s).1
  unfolding delete_user
  delete_user-IsUniqueIn user_id s h =
      IsUniqueIn-continue (scalar_one_or_none (keep (λ u. u.id == user_id) s.current.users)) s _ h
        (λ found. delete_found-IsUniqueIn found s h)

  -- a user changed by the id, committed
  changed :
      (user : User F) (f : User F → User F) (s : Session F)
      → ((u : User F) → (f u).email ≡ u.email)
      → IsUniqueIn s
      → (email : String)
      → length (keep (has_email email) (map_where (λ u. u.id == user.id) f s.current.users)) ≤ 1
  changed user f s same h = IsUnique-map_where (λ u. u.id == user.id) f s.current.users same h.0

  module _ (crypto : Crypto) (settings : Settings) where
    check_password-IsUniqueIn :
        (now now' : ℕ) (password : String) (user : User F) (stored : Option String) (s : Session F)
        → IsUniqueIn s
        → IsUniqueIn (check_password crypto settings now now' password user stored s).1
    check_password-IsUniqueIn now now' password user none s h = h
    check_password-IsUniqueIn now now' password user (some hash) s h =
        elim (Bool-cases (is_locked user now)) [
          | inl locked ↦ rw locked h
          | inr unlocked ↦ elim (Bool-cases (crypto.verify_password password hash)) [
            | inl right ↦
                let unique = changed user (reset_attempts crypto settings) s (λ u. refl) h in
                rw (unlocked, right) (unique, unique)
            | inr wrong ↦
                let unique = changed user (failed_attempt crypto settings now') s (λ u. refl) h in
                rw (unlocked, wrong) (unique, unique)
          ]
        ]

    check_user-IsUniqueIn :
        (now now' : ℕ) (password : String) (found : Option (User F)) (s : Session F)
        → IsUniqueIn s
        → IsUniqueIn (check_user crypto settings now now' password found s).1
    check_user-IsUniqueIn now now' password none s h = h
    check_user-IsUniqueIn now now' password (some user) s h =
        check_password-IsUniqueIn now now' password user user.password_hash s h

    pub authenticate_user-IsUniqueIn :
        (now now' : ℕ) (email password : String) (s : Session F)
        → IsUniqueIn s
        → IsUniqueIn (authenticate_user crypto settings now now' email password s).1
    unfolding authenticate_user
    authenticate_user-IsUniqueIn now now' email password s h =
        IsUniqueIn-continue (scalar_one_or_none (keep (has_email email) s.current.users)) s _ h
          (λ found. check_user-IsUniqueIn now now' password found s h)

    consume-IsUniqueIn :
        (new_password : String) (found : Option PasswordResetToken) (s : Session F)
        → IsUniqueIn s
        → IsUniqueIn (consume crypto settings new_password found s).1
    consume-IsUniqueIn new_password none s h = h
    consume-IsUniqueIn new_password (some reset_token) s h =
        let consumed =
          update_reset_token reset_token.id (λ t. record t { is_used = true }) s.current in
        IsUniqueIn-continue (scalar_one (keep (λ u. u.id == reset_token.user_id) s.current.users))
          (record s { current = consumed }) _ h
          (λ user.
            let unique = changed user (set_password crypto settings new_password) s (λ u. refl) h in
            (unique, unique))

    pub reset_password_with_token-IsUniqueIn :
        (now : ℕ) (token new_password : String) (s : Session F)
        → IsUniqueIn s
        → IsUniqueIn (reset_password_with_token crypto settings now token new_password s).1
    unfolding reset_password_with_token
    reset_password_with_token-IsUniqueIn now token new_password s h =
        IsUniqueIn-continue
          (scalar_one_or_none
            (keep (is_open (crypto.sha256_hex token) now) s.current.password_reset_tokens))
          s _ h (λ found. consume-IsUniqueIn new_password found s h)

  -- the membership is joined or rolled back
  provision_sso_user_found :
      (nothing : F) (user_id row_id : ℕ) (c : Claimed) (s : Session F) (found : Option (User F))
      → scalar_one_or_none (keep (has_email c.email) s.current.users) ≡ ok found
      → IsUniqueIn s
      → IsUniqueIn (provision_sso_user nothing user_id row_id c s).1
  unfolding provision_sso_user
  provision_sso_user_found nothing user_id row_id c s none k h =
      elim (Bool-cases (any (has_email c.email) s.current.users)) [
        | inl taken ↦ rw (k, taken) h
        | inr free ↦ elim (Bool-cases (any (in_org user_id c.org_id) s.current.org_memberships)) [
          | inl member ↦
              rw (k, free, member)
                (IsUniqueIn-continue (scalar_one (keep (has_email c.email) s.committed.users))
                  (record s { current = s.committed }) _ (h.1, h.1) (λ user. (h.1, h.1)))
          | inr outsider ↦
              let unique = IsUnique-append s.current.users (new_user nothing user_id c) free h.0 in
              rw (k, free, outsider) (unique, unique)
        ]
      ]
  provision_sso_user_found nothing user_id row_id c s (some u) k h =
      elim (Bool-cases (any (in_org u.id c.org_id) s.current.org_memberships)) [
        | inl member ↦
            rw (k, member)
              (IsUniqueIn-continue (scalar_one (keep (has_email c.email) s.committed.users))
                (record s { current = s.committed }) _ (h.1, h.1) (λ user. (h.1, h.1)))
        | inr outsider ↦
            let unique = changed u (link_user c) s (λ u. refl) h in
            rw (k, outsider) (unique, unique)
      ]

  pub provision_sso_user-IsUniqueIn :
      (nothing : F) (user_id row_id : ℕ) (c : Claimed) (s : Session F)
      → IsUniqueIn s
      → IsUniqueIn (provision_sso_user nothing user_id row_id c s).1
  unfolding provision_sso_user
  provision_sso_user-IsUniqueIn nothing user_id row_id c s h =
      elim (Outcome-cases (scalar_one_or_none (keep (has_email c.email) s.current.users))) [
        | inl (e, k) ↦ rw k h
        | inr (found, k) ↦
            unfold provision_sso_user in
            provision_sso_user_found nothing user_id row_id c s found k h
      ]
