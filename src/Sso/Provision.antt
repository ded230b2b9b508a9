-- ===== src/Sso/Provision.antt =====
-- The user that a login by SSO provisions: new, returning, or a member of the organization already.
use makoto_lite_llm.Base.{
  ℕ, String, ◌≡◌, refl, sym, ap, ◌∙◌, Bool, true, false, List, [], ◌∷◌, ◌++◌, Option, none, some,
  inl, inr, Bool, Bool-cases, eq_iff, ok, keep, any, keep-append, ◌==◌, nat_eq, string_eq, eq_refl,
  arith,
}
use makoto_lite_llm.Base.Outcomes.{Outcome-cases, ok_injective}
use makoto_lite_llm.Models.{User}
use makoto_lite_llm.Store.{Session, scalar_one, scalar_one_or_none}
use makoto_lite_llm.Store.Queries.{
  keep-map_where, keep-head, keep_of_any, scalar_one-ok, scalar_one_or_none-some,
}
use makoto_lite_llm.Sso.{Claimed, provision_sso_user, new_user, link_user, new_org_member, in_org}

module _ {F : Type 0} where
  -- the only user with the email is this one
  abbrev pub IsUserOf : String → User F → List (User F) → Type 0
  IsUserOf email user users = keep (λ u. u.email == email) users ≡ user ∷ []

  -- If no user has the email and the new id is in no membership of the organization, then the login
  -- returns the new user, who is committed as the only one with the email, and commits the membership
  -- behind the others.
  pub provision_sso_user-new :
      (nothing : F) (user_id row_id : ℕ) (c : Claimed) (s : Session F)
      → any (λ u. u.email == c.email) s.current.users ≡ false
      → any (in_org user_id c.org_id) s.current.org_memberships ≡ false
      → let user = new_user nothing user_id c in
        let (result, after) = provision_sso_user nothing user_id row_id c s in
        (result ≡ ok user)
        × IsUserOf c.email user after.committed.users
        × (after.committed.org_memberships
            ≡ s.current.org_memberships ++ new_org_member row_id user_id c ∷ [])
  unfolding provision_sso_user
  provision_sso_user-new nothing user_id row_id c s unknown free =
      let none_found = no_row (λ u. u.email == c.email) s.current.users unknown in
      rw (none_found, unknown, free, keep-append, none_found, eq_refl c.email) (refl, refl, refl)
    where
      no_row : {R : Type 0} (p : R → Bool) (rows : List R) → any p rows ≡ false → keep p rows ≡ []
      no_row p [] h = refl
      no_row p (r ∷ rows) h = ground (arith, no_row p rows)

  -- If exactly one user has the email and is no member of the organization, then the login returns this
  -- user with the provider and the subject of the login, commits the change, and commits the membership
  -- behind the others.
  pub provision_sso_user-returning :
      (nothing : F) (user_id row_id : ℕ) (c : Claimed) (s : Session F) (user : User F)
      → IsUserOf c.email user s.current.users
      → any (in_org user.id c.org_id) s.current.org_memberships ≡ false
      → let (result, after) = provision_sso_user nothing user_id row_id c s in
        (result ≡ ok (link_user c user))
        × IsUserOf c.email (link_user c user) after.committed.users
        × (after.committed.org_memberships
            ≡ s.current.org_memberships ++ new_org_member row_id user.id c ∷ [])
  unfolding provision_sso_user
  provision_sso_user-returning nothing user_id row_id c s user found free =
      rw (found, free)
        (
          refl,
          keep-map_where (λ u. u.email == c.email) (λ u. u.id == user.id) (link_user c) (λ u. refl)
                s.current.users
              ∙ rw found (ground arith),
          refl,
        )

  -- If exactly one user has the email and is a member of the organization, and nothing is pending, then
  -- the login returns the user as stored and changes nothing: the provider, the subject and the name
  -- of the login are lost.
  pub provision_sso_user-member :
      (nothing : F) (user_id row_id : ℕ) (c : Claimed) (s : Session F) (user : User F)
      → IsUserOf c.email user s.current.users
      → any (in_org user.id c.org_id) s.current.org_memberships ≡ true
      → s.committed ≡ s.current
      → provision_sso_user nothing user_id row_id c s ≡ (ok user, s)
  unfolding provision_sso_user
  provision_sso_user-member nothing user_id row_id c s user found taken clean =
      rw (found, taken, clean, found) refl

  abbrev has_email : String → User F → Bool
  has_email email u = u.email == email

  email_of_head :
      (email : String) (users : List (User F)) (user : User F)
      → keep (has_email email) users ≡ user ∷ []
      → user.email ≡ email
  email_of_head email users user h =
      (eq_iff user.email email).0 (keep-head (has_email email) users [] user h)

  email_after_rollback :
      (email : String) (users : List (User F)) (user : User F)
      → scalar_one (keep (has_email email) users) ≡ ok user
      → user.email ≡ email
  email_after_rollback email users user h = email_of_head email users user (scalar_one-ok _ user h)

  -- The user that a login returns has the email of the claims.
  pub provision_sso_user-email :
      (nothing : F) (user_id row_id : ℕ) (c : Claimed) (s : Session F) (user : User F)
      → (provision_sso_user nothing user_id row_id c s).0 ≡ ok user
      → user.email ≡ c.email
  unfolding provision_sso_user
  provision_sso_user-email nothing user_id row_id c s user h =
      elim (Outcome-cases (scalar_one_or_none (keep (has_email c.email) s.current.users))) [
        | inl (e, k) ↦ cc (rw k at h)
        | inr (found, k) ↦ go found k
      ]
    where
      go :
          (found : Option (User F))
          → scalar_one_or_none (keep (has_email c.email) s.current.users) ≡ ok found
          → user.email ≡ c.email
      go none k = elim (Bool-cases (any (has_email c.email) s.current.users)) [
        | inl taken ↦ cc (rw (k, taken) at h)
        | inr free ↦ elim (Bool-cases (any (in_org user_id c.org_id) s.current.org_memberships)) [
          | inl member ↦
              elim (Outcome-cases (scalar_one (keep (has_email c.email) s.committed.users))) [
                | inl (e, b) ↦ cc (rw (k, free, member, b) at h)
                | inr (u', b) ↦
                    rw (← ok_injective (rw (k, free, member, b) at h))
                      (email_after_rollback c.email s.committed.users u' b)
              ]
          | inr outsider ↦ ap (λ u. u.email) (sym (ok_injective (rw (k, free, outsider) at h)))
        ]
      ]
      go (some u) k = elim (Bool-cases (any (in_org u.id c.org_id) s.current.org_memberships)) [
        | inl member ↦
            elim (Outcome-cases (scalar_one (keep (has_email c.email) s.committed.users))) [
              | inl (e, b) ↦ cc (rw (k, member, b) at h)
              | inr (u', b) ↦
                  rw (← ok_injective (rw (k, member, b) at h))
                    (email_after_rollback c.email s.committed.users u' b)
            ]
        | inr outsider ↦
            ap (λ u. u.email) (sym (ok_injective (rw (k, outsider) at h)))
            ∙ email_of_head c.email s.current.users u (scalar_one_or_none-some _ u k)
      ]

  abbrev pub IsProvisioned : String → User F → Session F → Type 0
  IsProvisioned email user s = IsUserOf email user s.current.users × (s.committed ≡ s.current)

  -- The user that a login returns is the only row of this email afterwards, and nothing is pending.
  pub provision_sso_user-IsUserOf :
      (nothing : F) (user_id row_id : ℕ) (c : Claimed) (s : Session F) (user : User F)
      → (provision_sso_user nothing user_id row_id c s).0 ≡ ok user
      → IsProvisioned c.email user (provision_sso_user nothing user_id row_id c s).1
  unfolding provision_sso_user
  provision_sso_user-IsUserOf nothing user_id row_id c s user h =
      elim (Outcome-cases (scalar_one_or_none (keep (has_email c.email) s.current.users))) [
        | inl (e, k) ↦ cc (rw k at h)
        | inr (found, k) ↦ go found k
      ]
    where
      go :
          (found : Option (User F))
          → scalar_one_or_none (keep (has_email c.email) s.current.users) ≡ ok found
          → IsProvisioned c.email user (provision_sso_user nothing user_id row_id c s).1
      go none k = elim (Bool-cases (any (has_email c.email) s.current.users)) [
        | inl taken ↦ cc (rw (k, taken) at h)
        | inr free ↦ elim (Bool-cases (any (in_org user_id c.org_id) s.current.org_memberships)) [
          | inl member ↦
              elim (Outcome-cases (scalar_one (keep (has_email c.email) s.committed.users))) [
                | inl (e, b) ↦ cc (rw (k, free, member, b) at h)
                | inr (u', b) ↦
                    let same = ok_injective (rw (k, free, member, b) at h) in
                    rw (k, free, member, b) (scalar_one-ok _ u' b ∙ ap (λ u. u ∷ []) same, refl)
              ]
          | inr outsider ↦
              let same = ok_injective (rw (k, free, outsider) at h) in
              let nobody =
                keep_of_any (has_email c.email) (has_email c.email) (λ u x. x) s.current.users
                  free in
              rw (k, free, outsider, keep-append, nobody, eq_refl c.email)
                (ap (λ u. u ∷ []) same, refl)
        ]
      ]
      go (some u) k = elim (Bool-cases (any (in_org u.id c.org_id) s.current.org_memberships)) [
        | inl member ↦
            elim (Outcome-cases (scalar_one (keep (has_email c.email) s.committed.users))) [
              | inl (e, b) ↦ cc (rw (k, member, b) at h)
              | inr (u', b) ↦
                  let same = ok_injective (rw (k, member, b) at h) in
                  rw (k, member, b) (scalar_one-ok _ u' b ∙ ap (λ u. u ∷ []) same, refl)
            ]
        | inr outsider ↦
            let same = ok_injective (rw (k, outsider) at h) in
            let found = scalar_one_or_none-some _ u k in
            rw (k, outsider)
              (
                keep-map_where (λ u. u.email == c.email) (λ x. x.id == u.id) (link_user c)
                      (λ u. refl) s.current.users
                    ∙ rw found (ground arith)
                    ∙ ap (λ u. u ∷ []) same,
                refl,
              )
      ]
