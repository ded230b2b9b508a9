-- ===== src/Teams/Members.antt =====
-- Members: one row for a user and a team, and what adding and removing does to the others.
use makoto_lite_llm.Base.{
  ℕ, String, ◌≡◌, refl, ap, true, false, not, List, [], ◌∷◌, ◌++◌, ok, err, keep, any, keep-append,
  ◌==◌, nat_eq, nat_beq_iff, arith, Bool-cases, inl, inr,
}
use makoto_lite_llm.Failure.{duplicate_error}
use makoto_lite_llm.Models.{TeamMembership}
use makoto_lite_llm.Store.{Session}
use makoto_lite_llm.Store.Queries.{keep_of_any}
use makoto_lite_llm.Teams.{add_member, remove_member, is_member, new_member}

is_member_self :
    (F : Type 0) (row_id team_id user_id : ℕ) (role : String)
    → is_member team_id user_id (new_member {F = F} row_id team_id user_id role) ≡ true
is_member_self F row_id team_id user_id role = ground arith

module _ {F : Type 0} where
  -- If the user is a member already, `add_member` raises `DuplicateError`, and rolls back to what was
  -- committed.
  pub add_member-duplicate :
      (row_id team_id user_id : ℕ) (role : String) (s : Session F)
      → any (is_member team_id user_id) s.current.team_memberships ≡ true
      → add_member row_id team_id user_id role s ≡ (
        err (duplicate_error "User is already a member of this team"),
        record s { current = s.committed },
      )
  unfolding add_member
  add_member-duplicate row_id team_id user_id role s taken = rw taken

  keep_before_last :
      (id : ℕ) (rows : List (TeamMembership F))
      → any (λ m. m.id == id) rows ≡ false
      → (last : TeamMembership F) → last.id ≡ id
      → keep (λ m. not (m.id == id)) (rows ++ last ∷ []) ≡ rows
  keep_before_last id [] h last e = rw ((nat_beq_iff last.id id).1 e)
  keep_before_last id (m ∷ rows) h last e = elim (Bool-cases (m.id == id)) [
    | inl same ↦ cc (rw same at h)
    | inr other ↦ rw other (ap (λ r. m ∷ r) (keep_before_last id rows (rw other at h) last e))
  ]

  -- If the user is no member of the team and the new row's id is fresh, then `add_member` commits the
  -- membership behind the others, and `remove_member` then answers true and commits the memberships
  -- as they were before.
  pub remove_member-add_member :
      (row_id team_id user_id : ℕ) (role : String) (s : Session F)
      → any (is_member team_id user_id) s.current.team_memberships ≡ false
      → any (λ m. m.id == row_id) s.current.team_memberships ≡ false
      → let member : TeamMembership F = new_member row_id team_id user_id role in
        let (result, added) = add_member row_id team_id user_id role s in
        let (result', removed) = remove_member team_id user_id added in
        (result ≡ ok member)
        × (added.committed.team_memberships ≡ s.current.team_memberships ++ member ∷ [])
        × (result' ≡ ok true)
        × (removed.committed.team_memberships ≡ s.current.team_memberships)
  unfolding add_member remove_member
  remove_member-add_member row_id team_id user_id role s free fresh =
      let rows = s.current.team_memberships in
      let absent =
        keep_of_any (is_member team_id user_id) (is_member team_id user_id) (λ m h. h) rows free in
      rw (free, keep-append, absent, is_member_self F row_id team_id user_id role)
        (
          refl,
          refl,
          refl,
          keep_before_last row_id rows fresh (new_member row_id team_id user_id role) refl,
        )
