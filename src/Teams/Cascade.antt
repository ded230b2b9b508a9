-- ===== src/Teams/Cascade.antt =====
-- The deletion of a team.
use makoto_lite_llm.Base.{
  ℕ, ◌≡◌, refl, Bool, true, false, not, Option, none, some, List, [], ◌∷◌, ok, keep, keep-keep,
  ◌==◌, nat_eq, nat_beq_iff, arith,
}
use makoto_lite_llm.Models.{Team}
use makoto_lite_llm.Store.{Session}
use makoto_lite_llm.Store.Queries.{keep-keep-not}
use makoto_lite_llm.Teams.{delete_team, is_id}

-- A query that no removed row passes finds what it did.
keep-keep_other :
    {R : Type 0} (p q : R → Bool)
    → ((r : R) → q r ≡ true → p r ≡ false)
    → (rows : List R) → keep q (keep (λ r. not (p r)) rows) ≡ keep q rows
keep-keep_other p q h rows = keep-keep (λ r. not (p r)) q (λ r e. ground (arith, h r e)) rows

is_id_other :
    (o : Option ℕ) (other id : ℕ)
    → (other == id) ≡ false
    → is_id o other ≡ true
    → is_id o id ≡ false
is_id_other none other id ne e = refl
is_id_other (some i) other id ne e = cc (same, ne)
  where
    same : i ≡ other
    same = (nat_beq_iff i other).0 e

module _ {F : Type 0} where
  -- If the id is of one team, `delete_team` answers true and commits a database in which no key, project
  -- or membership belongs to the team and no team has the id, while the keys, projects and
  -- memberships of any other team are as before.
  pub delete_team-cascade :
      (team_id other : ℕ) (s : Session F) (team : Team F)
      → keep (λ t. t.id == team_id) s.current.teams ≡ team ∷ []
      → (other == team_id) ≡ false
      → let (result, after) = delete_team team_id s in
        let db = after.committed in
        (result ≡ ok true)
        × (keep (λ t. t.id == team_id) db.teams ≡ [])
        × (keep (λ k. is_id k.team_id team_id) db.api_keys ≡ [])
        × (keep (λ p. p.team_id == team_id) db.projects ≡ [])
        × (keep (λ m. m.team_id == team_id) db.team_memberships ≡ [])
        × (keep (λ k. is_id k.team_id other) db.api_keys
            ≡ keep (λ k. is_id k.team_id other) s.current.api_keys)
        × (keep (λ p. p.team_id == other) db.projects
            ≡ keep (λ p. p.team_id == other) s.current.projects)
        × (keep (λ m. m.team_id == other) db.team_memberships
            ≡ keep (λ m. m.team_id == other) s.current.team_memberships)
  unfolding delete_team
  delete_team-cascade team_id other s team found ne = rw found (
    refl,
    keep-keep-not (λ t. t.id == team_id) s.current.teams,
    keep-keep-not (λ k. is_id k.team_id team_id) s.current.api_keys,
    keep-keep-not (λ p. p.team_id == team_id) s.current.projects,
    keep-keep-not (λ m. m.team_id == team_id) s.current.team_memberships,
    keep-keep_other (λ k. is_id k.team_id team_id) (λ k. is_id k.team_id other)
        (λ k. is_id_other k.team_id other team_id ne) s.current.api_keys,
    keep-keep_other (λ p. p.team_id == team_id) (λ p. p.team_id == other)
        (λ p e. is_id_other (some p.team_id) other team_id ne e) s.current.projects,
    keep-keep_other (λ m. m.team_id == team_id) (λ m. m.team_id == other)
        (λ m e. is_id_other (some m.team_id) other team_id ne e) s.current.team_memberships,
  )
