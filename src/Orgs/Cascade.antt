-- ===== src/Orgs/Cascade.antt =====
-- The deletion of an organization with its teams and what belongs to them.
use makoto_lite_llm.Base.{
  ℕ, ◌≡◌, refl, sym, ap, Bool, true, false, not, ◌||◌, Option, none, some, List, [], ◌∷◌, ok, keep,
  map, any, ◌∙◌, All, ◌==◌, nat_eq, nat_beq_iff, arith, Bool-cases, inl, inr,
}
use makoto_lite_llm.Models.{Team, Organization}
use makoto_lite_llm.Store.{Session, Db}
use makoto_lite_llm.Store.Queries.{keep-keep-not}
use makoto_lite_llm.Teams.{is_id}
use makoto_lite_llm.Orgs.{in_ids, is_in, team_ids_of, delete_teams, delete_org}

module _ {R : Type 0} (q : R → Bool) where
  keep_all : (p : R → Bool) → ((r : R) → p r ≡ true) → (rows : List R) → keep p rows ≡ rows
  keep_all p h [] = refl
  keep_all p h (r ∷ rows) = rw (h r) (ap (λ rs. r ∷ rs) (keep_all p h rows))

  keep_still_none : (p : R → Bool) (rows : List R) → keep q rows ≡ [] → keep q (keep p rows) ≡ []
  keep_still_none p [] h = refl
  keep_still_none p (r ∷ rows) h = elim (Bool-cases (q r)) [
    | inl taken ↦ cc (rw taken at h)
    | inr other ↦ ground (arith, other, keep_still_none p rows (rw other at h))
  ]

  keep_covered :
      (p : R → Bool) (rows : List R)
      → All (λ r. q r ≡ true → p r ≡ true) rows
      → keep q (keep (λ r. not (p r)) rows) ≡ []
  keep_covered p [] h = refl
  keep_covered p (r ∷ rows) (h, hs) = ground (arith, h, keep_covered p rows hs)

module _ {R : Type 0} where
  everywhere : {P : R → Type 0} → ((r : R) → P r) → (rows : List R) → All P rows
  everywhere h [] = tt
  everywhere h (r ∷ rows) = (h r, everywhere h rows)

or_true : (b : Bool) → (b || true) ≡ true
or_true true = refl
or_true false = refl

not_in_none : (o : Option ℕ) → not (is_in o []) ≡ true
not_in_none none = refl
not_in_none (some id) = refl

module _ {F : Type 0} where
  -- the four tables after the deletion of the teams, with no teams too
  keys_left :
      (ids : List ℕ) (db : Db F)
      → (delete_teams ids db).api_keys ≡ keep (λ k. not (is_in k.team_id ids)) db.api_keys
  keys_left [] db = sym (
      keep_all (λ k. true) (λ k. not (is_in k.team_id [])) (λ k. not_in_none k.team_id) db.api_keys)
  keys_left (id ∷ ids) db = refl

  projects_left :
      (ids : List ℕ) (db : Db F)
      → (delete_teams ids db).projects ≡ keep (λ p. not (in_ids p.team_id ids)) db.projects
  projects_left [] db =
      sym (keep_all (λ k. true) (λ p. not (in_ids p.team_id [])) (λ p. refl) db.projects)
  projects_left (id ∷ ids) db = refl

  members_left :
      (ids : List ℕ) (db : Db F)
      → (delete_teams ids db).team_memberships
        ≡ keep (λ m. not (in_ids m.team_id ids)) db.team_memberships
  members_left [] db =
      sym (keep_all (λ k. true) (λ m. not (in_ids m.team_id [])) (λ m. refl) db.team_memberships)
  members_left (id ∷ ids) db = refl

  teams_left :
      (ids : List ℕ) (db : Db F)
      → (delete_teams ids db).teams ≡ keep (λ t. not (in_ids t.id ids)) db.teams
  teams_left [] db = sym (keep_all (λ k. true) (λ t. not (in_ids t.id [])) (λ t. refl) db.teams)
  teams_left (id ∷ ids) db = refl

  -- ids that hold those of the organization's teams cover its teams
  covered :
      (org_id : ℕ) (ids : List ℕ) (teams : List (Team F))
      → ((tid : ℕ)
          → in_ids tid (map (λ t. t.id) (keep (λ t. is_id t.org_id org_id) teams)) ≡ true
          → in_ids tid ids ≡ true)
      → All (λ t. is_id t.org_id org_id ≡ true → in_ids t.id ids ≡ true) teams
  covered org_id ids [] h = tt
  covered org_id ids (t ∷ teams) h = elim (Bool-cases (is_id t.org_id org_id)) [
    | inl own ↦ (
      λ _. h t.id (rw own (rw ((nat_beq_iff t.id t.id).1 refl) refl)),
      covered org_id ids teams (λ tid listed. h tid (rw own (rw listed (or_true (t.id == tid))))),
    )
    | inr other ↦
        (λ own. cc (own, other), covered org_id ids teams (λ tid listed. h tid (rw other listed)))
  ]

  -- the teams of the organization, before its deletion
  abbrev pub teams_of : ℕ → Db F → List (Team F)
  teams_of org_id db = keep (λ t. is_id t.org_id org_id) db.teams

  -- is a team with this id among the teams
  abbrev pub is_of : List (Team F) → ℕ → Bool
  is_of teams id = any (λ t. t.id == id) teams

  abbrev pub is_of_any : List (Team F) → Option ℕ → Bool
  is_of_any teams none = false
  is_of_any teams (some id) = is_of teams id

  in_ids_of : (teams : List (Team F)) (id : ℕ) → is_of teams id ≡ in_ids id (map (λ t. t.id) teams)
  in_ids_of [] id = refl
  in_ids_of (t ∷ teams) id = ap (λ b. (t.id == id) || b) (in_ids_of teams id)

  is_in_of :
      (teams : List (Team F)) (o : Option ℕ) → is_of_any teams o ≡ is_in o (map (λ t. t.id) teams)
  is_in_of teams none = refl
  is_in_of teams (some id) = in_ids_of teams id

  -- If the id is of one organization, with teams or without, `delete_org` answers true and commits a database without the
  -- organization, its memberships, its keys and its teams, and without the keys, the projects and the memberships of all
  -- teams that it had.
  pub delete_org-cascade :
      (org_id : ℕ) (s : Session F) (org : Organization F)
      → keep (λ o. o.id == org_id) s.current.organizations ≡ org ∷ []
      → let (result, after) = delete_org org_id s in
        let db = after.committed in
        let teams = teams_of org_id s.current in
        (result ≡ ok true)
        × (keep (λ o. o.id == org_id) db.organizations ≡ [])
        × (keep (λ m. m.org_id == org_id) db.org_memberships ≡ [])
        × (keep (λ k. is_id k.org_id org_id) db.api_keys ≡ [])
        × (keep (λ t. is_id t.org_id org_id) db.teams ≡ [])
        × (keep (λ k. is_of_any teams k.team_id) db.api_keys ≡ [])
        × (keep (λ p. is_of teams p.team_id) db.projects ≡ [])
        × (keep (λ m. is_of teams m.team_id) db.team_memberships ≡ [])
  unfolding delete_org
  delete_org-cascade org_id s org found =
      let ids = team_ids_of org_id s.current in
      let teams = teams_of org_id s.current in
      let old = s.current in
      let mid = delete_teams ids old in
      let team_keys : keep (λ k. is_of_any teams k.team_id) mid.api_keys ≡ [] =
        rw (keys_left ids old) (
          keep_covered (λ k. is_of_any teams k.team_id) (λ k. is_in k.team_id ids) old.api_keys
            (everywhere (λ k listed. sym (is_in_of teams k.team_id) ∙ listed) old.api_keys)) in
      rw found (
        refl,
        keep-keep-not (λ o. o.id == org_id) mid.organizations,
        keep-keep-not (λ m. m.org_id == org_id) mid.org_memberships,
        keep-keep-not (λ k. is_id k.org_id org_id) mid.api_keys,
        rw (teams_left ids old) (
            keep_covered (λ t. is_id t.org_id org_id) (λ t. in_ids t.id ids) old.teams
              (covered org_id ids old.teams (λ tid h. h))),
        keep_still_none (λ k. is_of_any teams k.team_id) (λ k. not (is_id k.org_id org_id))
            mid.api_keys team_keys,
        rw (projects_left ids old) (
            keep_covered (λ p. is_of teams p.team_id) (λ p. in_ids p.team_id ids) old.projects
              (everywhere (λ p listed. sym (in_ids_of teams p.team_id) ∙ listed) old.projects)),
        rw (members_left ids old) (
            keep_covered (λ m. is_of teams m.team_id) (λ m. in_ids m.team_id ids)
              old.team_memberships
              (everywhere (λ m listed. sym (in_ids_of teams m.team_id) ∙ listed)
                old.team_memberships)),
      )
