-- ===== src/Routes/Callback/Stored.antt =====
-- The users of the database, from the provisioning of a user to the end of the callback.
use makoto_lite_llm.Auth as Auth
use makoto_lite_llm.Auth.{create_tokens}
use makoto_lite_llm.Base.{
  ℕ, String, ◌≡◌, Bool-cases, inl, inr, Option, Option-cases, none, some, List, [], ◌∷◌, any, ◌==◌,
  string_eq,
}
use makoto_lite_llm.Base.Outcomes.{Outcome-cases}
use makoto_lite_llm.Cache.{TtlCache}
use makoto_lite_llm.Config.{Settings}
use makoto_lite_llm.Json.{Fields, get}
use makoto_lite_llm.Jwt.{Crypto, create_refresh_token}
use makoto_lite_llm.Models.{User}
use makoto_lite_llm.Routes.Callback.{Outside, with_ids, join_groups, issue}
use makoto_lite_llm.Routes.Callback.Claims.{groups_of}
use makoto_lite_llm.Sso.{LoginState, join_team, map_each, map_groups_to_teams, find_text}
use makoto_lite_llm.Sso.Authorize.{SsoState}
use makoto_lite_llm.Store.{Session}
use makoto_lite_llm.Teams.{is_member}

-- these are the users, pending and committed
abbrev pub HasUsers : {F : Type 0} → List (User F) → Session F → Type 0
HasUsers users s = (s.current.users ≡ users) × (s.committed.users ≡ users)

module _ {F : Type 0} (parse_uuid : String → Option ℕ) (users : List (User F)) where
  join_team-HasUsers :
      (user_id row_id : ℕ) (team : Option String) (s : Session F)
      → HasUsers users s
      → HasUsers users (join_team parse_uuid user_id row_id team s).1
  join_team-HasUsers user_id row_id none s h = h
  join_team-HasUsers user_id row_id (some team_id_str) s h =
      elim (Option-cases (parse_uuid team_id_str)) [
        | inl bad ↦ rw bad h
        | inr (id, good) ↦
            elim (Bool-cases (any (is_member id user_id) s.current.team_memberships)) [
              | inl taken ↦ rw (good, taken) (h.1, h.1)
              | inr free ↦ rw (good, free) h
            ]
      ]

  map_each-HasUsers :
      (user_id : ℕ) (mapping : List (String × String)) (groups : List (String × ℕ)) (s : Session F)
      → HasUsers users s
      → HasUsers users (map_each parse_uuid user_id mapping groups s).1
  unfolding map_each
  map_each-HasUsers user_id mapping [] s h = h
  map_each-HasUsers user_id mapping ((group, row_id) ∷ groups) s h =
      let joined = join_team parse_uuid user_id row_id (find_text mapping group) s in
      let h' = join_team-HasUsers user_id row_id (find_text mapping group) s h in
      elim (Outcome-cases joined.0) [
        | inl (e, p) ↦ rw p h'
        | inr (t, p) ↦ rw p (map_each-HasUsers user_id mapping groups joined.1 h')
      ]

  map_groups_to_teams-HasUsers :
      (user_id : ℕ) (groups : List (String × ℕ)) (mapping : List (String × String)) (s : Session F)
      → HasUsers users s
      → HasUsers users (map_groups_to_teams parse_uuid user_id groups mapping s).1
  unfolding map_groups_to_teams
  map_groups_to_teams-HasUsers user_id [] mapping s h = h
  map_groups_to_teams-HasUsers user_id (g ∷ groups) [] s h = h
  map_groups_to_teams-HasUsers user_id (g ∷ groups) (p ∷ mapping) s h =
      let mapped = map_each parse_uuid user_id (p ∷ mapping) (g ∷ groups) s in
      let h' = map_each-HasUsers user_id (p ∷ mapping) (g ∷ groups) s h in
      elim (Outcome-cases mapped.0) [ inl (e, q) ↦ rw q h' | inr (t, q) ↦ rw q (h'.0, h'.0) ]

module _ {F : Type 0} (crypto : Crypto) (settings : Settings) (states : TtlCache String LoginState)
    (o : Outside F) (users : List (User F)) where
  pub join_groups-HasUsers :
      (row_id : ℕ → ℕ) (user : User F) (claims : Fields) (mapping : Option (List (String × String)))
      (s : SsoState F states)
      → HasUsers users s.session
      → HasUsers users (join_groups crypto settings states o row_id user claims mapping s).1.session
  join_groups-HasUsers row_id user claims none s h = h
  join_groups-HasUsers row_id user claims (some []) s h = h
  join_groups-HasUsers row_id user claims (some (p ∷ mapping)) s h =
      elim (Outcome-cases (groups_of (get "groups" claims))) [
        | inl (e, q) ↦ rw q h
        | inr (groups, q) ↦ rw q (
            map_groups_to_teams-HasUsers o.parse_uuid users user.id (with_ids row_id 0 groups)
              (p ∷ mapping) s.session h)
      ]

  pub issue-HasUsers :
      (draw : Auth.Draw) (user : User F) (s : SsoState F states)
      → HasUsers users s.session
      → HasUsers users (issue crypto settings states o draw user s).1.session
  unfolding issue create_tokens
  issue-HasUsers draw user s h =
      let hash =
        crypto.sha256_hex (create_refresh_token crypto settings draw.now draw.jti user.id) in
      elim (Bool-cases (any (λ t. t.token_hash == hash) s.session.current.refresh_tokens)) [
        | inl taken ↦ rw taken h
        | inr free ↦ rw free (h.0, h.0)
      ]
