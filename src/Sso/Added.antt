-- ===== src/Sso/Added.antt =====
-- The memberships that the mapping of the provider's groups adds, where none is there yet.
use mathlib.Core.List.{append-nil, append_assoc}
use makoto_lite_llm.Base.{
  ℕ, String, ◌≡◌, refl, ap, ◌∙◌, false, Option, none, some, List, [], ◌∷◌, ◌++◌, ok, any, nat_eq,
  string_eq, Option-cases, inl, inr,
}
use makoto_lite_llm.Models.{TeamMembership}
use makoto_lite_llm.Store.{Session}
use makoto_lite_llm.Teams.{is_member, new_member}
use makoto_lite_llm.Sso.{find_text, map_each, map_groups_to_teams}
use makoto_lite_llm.Sso.Groups.{IsParsed, find_text-parsed}

module _ (parse_uuid : String → Option ℕ) where
  abbrev parse_found : Option String → Option ℕ
  parse_found none = none
  parse_found (some t) = parse_uuid t

module _ {F : Type 0} (parse_uuid : String → Option ℕ) (user_id : ℕ) where
  abbrev team_row : ℕ → Option ℕ → List (TeamMembership F)
  team_row row_id none = []
  team_row row_id (some team_id) = new_member row_id team_id user_id "member" ∷ []

  -- The memberships that the groups stand for.
  abbrev pub added : List (String × String) → List (String × ℕ) → List (TeamMembership F)
  added mapping [] = []
  added mapping ((name, row_id) ∷ groups) =
      team_row row_id (parse_found parse_uuid (find_text mapping name)) ++ added mapping groups

  -- each of the rows is new when it is inserted behind the ones before it
  abbrev pub IsNew : List (TeamMembership F) → List (TeamMembership F) → Type 0
  IsNew rows [] = Unit
  IsNew rows (m ∷ ms) =
      (any (is_member m.team_id m.user_id) rows ≡ false) × IsNew (rows ++ m ∷ []) ms

  with_members : List (TeamMembership F) → Session F → Session F
  with_members rows s = record s { current = record s.current { team_memberships = rows } }

  added_with :
      (mapping : List (String × String)) (groups : List (String × ℕ)) (name : String) (row_id : ℕ)
      (o : Option String)
      → find_text mapping name ≡ o
      → added mapping ((name, row_id) ∷ groups)
        ≡ team_row row_id (parse_found parse_uuid o) ++ added mapping groups
  added_with mapping groups name row_id o e =
      ap (λ x. team_row row_id (parse_found parse_uuid x) ++ added mapping groups) e

  map_each-added :
      (mapping : List (String × String)) (groups : List (String × ℕ)) (s : Session F)
      → IsParsed parse_uuid mapping
      → IsNew s.current.team_memberships (added mapping groups)
      → map_each parse_uuid user_id mapping groups s
        ≡ (ok tt, with_members (s.current.team_memberships ++ added mapping groups) s)
  unfolding map_each with_members
  map_each-added mapping [] s parsed new = rw append-nil refl
  map_each-added mapping ((name, row_id) ∷ groups) s parsed new =
      elim (Option-cases (find_text mapping name)) [
        | inl e ↦ rw e (
            map_each-added mapping groups s parsed
              (rw (added_with mapping groups name row_id none e) at new))
        | inr (t, e) ↦
            let (id, good) = find_text-parsed parse_uuid mapping name t parsed e in
            let rows =
              added_with mapping groups name row_id (some t) e
              ∙ ap (λ o. team_row row_id o ++ added mapping groups) good in
            let new' : IsNew s.current.team_memberships
                (new_member row_id id user_id "member" ∷ added mapping groups) =
              rw rows at new in
            rw (e, good, new'.0)
              (map_each-added mapping groups
                  (with_members
                    (s.current.team_memberships ++ new_member row_id id user_id "member" ∷ []) s)
                  parsed new'.1
                ∙ rw append_assoc refl)
      ]

  unmapped : (groups : List (String × ℕ)) → added [] groups ≡ []
  unmapped [] = refl
  unmapped (g ∷ groups) = unmapped groups

  -- If every team of the mapping is the text of an id, nothing is pending, and no membership that the
  -- groups stand for is there before or twice, then the mapping raises nothing and commits exactly
  -- these memberships, in order, behind the others.
  pub map_groups_to_teams-new :
      (groups : List (String × ℕ)) (mapping : List (String × String)) (s : Session F)
      → IsParsed parse_uuid mapping
      → s.committed ≡ s.current
      → IsNew s.current.team_memberships (added mapping groups)
      → let (result, after) = map_groups_to_teams parse_uuid user_id groups mapping s in
        (result ≡ ok tt)
        × (after.committed.team_memberships ≡ s.current.team_memberships ++ added mapping groups)
  unfolding map_groups_to_teams with_members
  map_groups_to_teams-new [] mapping s parsed clean new = (refl, rw (append-nil, clean) refl)
  map_groups_to_teams-new (g ∷ groups) [] s parsed clean new =
      (refl, rw (clean, unmapped groups, append-nil) refl)
  map_groups_to_teams-new (g ∷ groups) (p ∷ mapping) s parsed clean new =
      rw (map_each-added (p ∷ mapping) (g ∷ groups) s parsed new) (refl, refl)
