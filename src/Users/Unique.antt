-- ===== src/Users/Unique.antt =====
-- Users with unique emails, and the changes that keep them so.
pub mod Services
pub mod Reach
use makoto_lite_llm.Base.{
  ℕ, suc, ◌+◌, ◌≤◌, String, ◌≡◌, refl, sym, ap, ◌∙◌, ◌⊎◌, Bool, true, false, not, Bool-cases, inl,
  inr, Option, none, some, List, [], ◌∷◌, ◌++◌, Outcome, ok, err, any, keep, keep-append, map_where,
  length, length-append, continue, ◌==◌, nat_eq, string_eq, eq_iff, arith, if◌then◌else◌,
}
use makoto_lite_llm.Config.{Settings}
use makoto_lite_llm.Failure.{Failure}
use makoto_lite_llm.Float.{Float}
use makoto_lite_llm.Jwt.{Crypto}
use makoto_lite_llm.Models.{User}
use makoto_lite_llm.Sso.{Claimed, provision_sso_user, new_user, link_user, in_org}
use makoto_lite_llm.Store.{Session, scalar_one, scalar_one_or_none}
use makoto_lite_llm.Store.Queries.{keep-map_where, keep_of_any}
use makoto_lite_llm.Users.{
  UserRequest, ProfileUpdate, user_row, create_user, apply_profile, change_found,
  update_user_profile, update_user_budget, block_user, delete_user,
}

module _ {F : Type 0} where
  abbrev pub has_email : String → User F → Bool
  has_email email u = u.email == email

  -- no two users have one email
  abbrev pub IsUnique : List (User F) → Type 0
  IsUnique users = (email : String) → length (keep (has_email email) users) ≤ 1

  -- what is pending, and what is committed
  abbrev pub IsUniqueIn : Session F → Type 0
  IsUniqueIn s = IsUnique s.current.users × IsUnique s.committed.users

  pub IsUnique-append :
      (users : List (User F)) (user : User F)
      → any (has_email user.email) users ≡ false
      → IsUnique users
      → IsUnique (users ++ user ∷ [])
  IsUnique-append users user free unique email = elim (Bool-cases (has_email email user)) [
    | inl own ↦
        let same = (eq_iff user.email email).0 own in
        let none_found =
          keep_of_any (has_email email) (has_email email) (λ u h. h) users (rw same at free) in
        rw (keep-append, none_found, own) (omega arith)
    | inr other ↦ rw (keep-append, other, length-append) (omega (arith, unique email))
  ]

  length-map_where :
      (p : User F → Bool) (f : User F → User F) (users : List (User F))
      → length (map_where p f users) ≡ length users
  length-map_where p f [] = refl
  length-map_where p f (u ∷ users) = ap suc (length-map_where p f users)

  pub IsUnique-map_where :
      (p : User F → Bool) (f : User F → User F) (users : List (User F))
      → ((u : User F) → (f u).email ≡ u.email)
      → IsUnique users
      → IsUnique (map_where p f users)
  IsUnique-map_where p f users same unique email =
      rw
        (
          keep-map_where (has_email email) p f (λ u. ap (λ e. e == email) (same u)) users,
          length-map_where p f (keep (has_email email) users),
        )
        (unique email)

  length-keep-keep-le :
      (p q : User F → Bool) (users : List (User F))
      → length (keep p (keep q users)) ≤ length (keep p users)
  length-keep-keep-le p q [] = omega arith
  length-keep-keep-le p q (u ∷ users) = ground (arith, length-keep-keep-le p q users)

  pub IsUnique-keep :
      (q : User F → Bool) (users : List (User F)) → IsUnique users → IsUnique (keep q users)
  IsUnique-keep q users unique email =
      omega (arith, unique email, length-keep-keep-le (has_email email) q users)

  -- a step after a result
  pub IsUniqueIn-continue :
      {A B : Type 0} (r : Outcome Failure A) (s : Session F)
      (f : A → Session F → Outcome Failure B × Session F)
      → IsUniqueIn s
      → ((a : A) → IsUniqueIn (f a s).1)
      → IsUniqueIn (continue r s f).1
  IsUniqueIn-continue (ok a) s f h k = k a
  IsUniqueIn-continue (err e) s f h k = h

  -- a change of loaded users, committed
  pub change_found-IsUniqueIn :
      (f : User F → User F) (found : Option (User F)) (s : Session F)
      → ((u : User F) → (f u).email ≡ u.email)
      → IsUniqueIn s
      → IsUniqueIn (change_found f found s).1
  change_found-IsUniqueIn f none s same h = h
  change_found-IsUniqueIn f (some user) s same h =
      let unique = IsUnique-map_where (λ u. u.id == user.id) f s.current.users same h.0 in
      (unique, unique)
