-- ===== src/Sso/Groups.antt =====
-- The mapping of the provider's groups to teams, with its rollbacks.
use makoto_lite_llm.Base.{
  ℕ, String, ◌≡◌, refl, ap, sym, ◌∙◌, Bool, true, ◌||◌, Option, none, some, List, [], ◌∷◌, ◌++◌, ok,
  any, All, ◌==◌, nat_eq, string_eq, arith, Bool-cases, Option-cases, inl, inr, bind-ok, is_some,
  ◌>>◌,
}
use makoto_lite_llm.Store.{Session, commit}
use makoto_lite_llm.Teams.{is_member}
use makoto_lite_llm.Sso.{find_text, join_team, map_each, map_groups_to_teams}

any-append :
    {R : Type 0} (p : R → Bool) (xs ys : List R) → any p (xs ++ ys) ≡ (any p xs || any p ys)
any-append p [] ys = refl
any-append p (x ∷ xs) ys = ground (arith, any-append p xs ys)

module _ (parse_uuid : String → Option ℕ) where
  -- every team of the mapping is the text of an id
  abbrev pub IsParsed : List (String × String) → Type 0
  IsParsed ps = All (λ p. is_some (parse_uuid p.1) ≡ true) ps

  pub find_text-parsed :
      (ps : List (String × String)) (name t : String)
      → IsParsed ps
      → find_text ps name ≡ some t
      → (id : ℕ) × (parse_uuid t ≡ some id)
  find_text-parsed [] name t h e = cc e
  find_text-parsed ((k, v) ∷ ps) name t h e = elim (Bool-cases (k == name)) [
    | inl same ↦ elim (Option-cases (parse_uuid v)) [
      | inl bad ↦ cc (rw bad at h.0)
      | inr (id, good) ↦ (id, cc (good, rw same at e))
    ]
    | inr other ↦ find_text-parsed ps name t h.1 (rw other at e)
  ]

module _ {F : Type 0} (parse_uuid : String → Option ℕ) (user_id : ℕ) where
  -- what holds throughout the loop: the committed state stays, and its members are members still
  record Keeps (start s : Session F) : Type 0 where
    kept : s.committed ≡ start.committed
    members :
        (team_id : ℕ)
        → any (is_member team_id user_id) start.committed.team_memberships ≡ true
        → any (is_member team_id user_id) s.current.team_memberships ≡ true

  join_team-Keeps :
      (row_id : ℕ) (o : Option String) (start s : Session F)
      → ((t : String) → o ≡ some t → (id : ℕ) × (parse_uuid t ≡ some id))
      → Keeps start s
      → let (result, s') = join_team parse_uuid user_id row_id o s in
        (result ≡ ok tt) × Keeps start s'
  join_team-Keeps row_id none start s h keeps = (refl, keeps)
  join_team-Keeps row_id (some t) start s h keeps =
      let (team_id, parsed) = h t refl in
      elim (Bool-cases (any (is_member team_id user_id) s.current.team_memberships)) [
        | inl taken ↦
            rw (parsed, taken)
              (refl, record { kept = keeps.kept; members = λ team old. rw keeps.kept old })
        | inr free ↦
            rw (parsed, free)
              (
                refl,
                record {
                  kept = keeps.kept;
                  members = λ team old. rw (any-append, keeps.members team old) refl;
                },
              )
      ]

  map_each-Keeps :
      (mapping : List (String × String)) (groups : List (String × ℕ)) (start s : Session F)
      → IsParsed parse_uuid mapping
      → Keeps start s
      → let (result, s') = map_each parse_uuid user_id mapping groups s in
        (result ≡ ok tt) × Keeps start s'
  unfolding map_each
  map_each-Keeps mapping [] start s parsed keeps = (refl, keeps)
  map_each-Keeps mapping ((name, row_id) ∷ groups) start s parsed keeps =
      let o = find_text mapping name in
      let (fine, keeps') =
        join_team-Keeps row_id o start s
          (λ t e. find_text-parsed parse_uuid mapping name t parsed e) keeps in
      rw fine (
        map_each-Keeps mapping groups start (join_team parse_uuid user_id row_id o s).1 parsed
          keeps')

  -- Groups that are mapped after others, one by one.
  map_each-append :
      (mapping : List (String × String)) (groups more : List (String × ℕ)) (s : Session F)
      → (map_each parse_uuid user_id mapping groups s).0 ≡ ok tt
      → map_each parse_uuid user_id mapping (groups ++ more) s
        ≡ map_each parse_uuid user_id mapping more (map_each parse_uuid user_id mapping groups s).1
  unfolding map_each
  map_each-append mapping [] more s h = refl
  map_each-append mapping ((name, row_id) ∷ groups) more s h =
      let step = join_team parse_uuid user_id row_id (find_text mapping name) in
      let (_, fine, same) = bind-ok step (λ _. map_each parse_uuid user_id mapping groups) s h in
      rw fine (map_each-append mapping groups more (step s).1 (sym (ap (λ r. r.0) same) ∙ h))

  -- The loop and the commit, on a mapping that is not empty.
  mapped :
      (p : String × String) (mapping : List (String × String)) (groups : List (String × ℕ))
      (g : String × ℕ)
      → map_groups_to_teams {F = F} parse_uuid user_id (groups ++ g ∷ []) (p ∷ mapping)
        ≡ (map_each parse_uuid user_id (p ∷ mapping) (groups ++ g ∷ []) >> commit)
  unfolding map_groups_to_teams
  mapped p mapping [] g = refl
  mapped p mapping (g' ∷ groups) g = refl

  -- If every team of the mapping is the text of an id, and nothing is pending, then the mapping of any
  -- groups raises nothing, and in what it commits the user is still a member of each team that the
  -- user was a member of.
  pub map_groups_to_teams-keeps :
      (groups : List (String × ℕ)) (mapping : List (String × String)) (s : Session F)
      → IsParsed parse_uuid mapping
      → s.committed ≡ s.current
      → (team_id : ℕ) → any (is_member team_id user_id) s.committed.team_memberships ≡ true
      → let (result, after) = map_groups_to_teams parse_uuid user_id groups mapping s in
        (result ≡ ok tt) × (any (is_member team_id user_id) after.committed.team_memberships ≡ true)
  unfolding map_groups_to_teams
  map_groups_to_teams-keeps [] mapping s parsed clean team_id old = (refl, old)
  map_groups_to_teams-keeps (g ∷ groups) [] s parsed clean team_id old = (refl, old)
  map_groups_to_teams-keeps (g ∷ groups) (p ∷ mapping) s parsed clean team_id old =
      let (fine, keeps) =
        map_each-Keeps (p ∷ mapping) (g ∷ groups) s s parsed
          (record { kept = refl; members = λ team h. rw (← clean) h }) in
      rw fine (refl, keeps.members team_id old)

  -- If every team of the mapping is the text of an id, nothing is pending, and the last of the groups is
  -- mapped to a team that the user is a member of, then the mapping raises nothing and changes nothing:
  -- the memberships of the groups before it are lost.
  pub map_groups_to_teams-last_taken :
      (groups : List (String × ℕ)) (mapping : List (String × String)) (name t : String)
      (row_id team_id : ℕ) (s : Session F)
      → IsParsed parse_uuid mapping
      → s.committed ≡ s.current
      → find_text mapping name ≡ some t
      → parse_uuid t ≡ some team_id
      → any (is_member team_id user_id) s.committed.team_memberships ≡ true
      → map_groups_to_teams parse_uuid user_id (groups ++ (name, row_id) ∷ []) mapping s
        ≡ (ok tt, s)
  unfolding map_each
  map_groups_to_teams-last_taken groups [] name t row_id team_id s parsed clean found id old =
      cc found
  map_groups_to_teams-last_taken groups (p ∷ mapping) name t row_id team_id s parsed clean found id
        old =
      let (fine, keeps) =
        map_each-Keeps (p ∷ mapping) groups s s parsed
          (record { kept = refl; members = λ team h. rw (← clean) h }) in
      rw (mapped p mapping groups (name, row_id)) (
        rw
          (
            map_each-append (p ∷ mapping) groups ((name, row_id) ∷ []) s fine,
            found,
            id,
            keeps.members team_id old,
            keeps.kept,
            clean,
          )
          refl)
