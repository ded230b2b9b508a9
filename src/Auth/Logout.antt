-- ===== src/Auth/Logout.antt =====
-- Logout from all devices.
use makoto_lite_llm.Base.{
  ℕ, ◌+◌, ◌≡◌, refl, Bool, not, ◌&&◌, List, [], ◌∷◌, ok, keep, map_where, length, ◌==◌, nat_eq,
  string_eq, arith,
}
use makoto_lite_llm.Config.{Settings}
use makoto_lite_llm.Jwt.{Crypto}
use makoto_lite_llm.Models.{RefreshToken}
use makoto_lite_llm.Store.{Session}
use makoto_lite_llm.Store.Queries.{keep-map_where_out}
use makoto_lite_llm.Auth.{revoke, revoke_all_user_tokens}

-- the rows of a user that are still in force
abbrev in_force : ℕ → RefreshToken → Bool
in_force user_id t = t.user_id == user_id && not t.is_revoked

count_revoked :
    (user_id : ℕ) (rows : List RefreshToken)
    → length (keep (λ t. not t.is_revoked) rows)
      ≡ length (keep (in_force user_id) rows)
        + length (keep (λ t. not t.is_revoked) (map_where (in_force user_id) revoke rows))
count_revoked user_id [] = omega arith
count_revoked user_id (t ∷ rows) = ground (arith, count_revoked user_id rows)

revoked_rows :
    (user_id : ℕ) (rows : List RefreshToken)
    → keep (in_force user_id) (map_where (in_force user_id) revoke rows) ≡ []
revoked_rows user_id [] = refl
revoked_rows user_id (t ∷ rows) = ground (arith, revoked_rows user_id rows)

-- After all tokens of a user are revoked, none of theirs is in force, the tokens of all other users are as
-- before, and the returned count is the number of tokens in force that were lost.
pub revoke_all_user_tokens_lem :
    {F : Type 0} (crypto : Crypto) (settings : Settings) (user_id : ℕ) (s : Session F)
    → let (result, s') = revoke_all_user_tokens crypto settings user_id s in
      (keep (λ t. t.user_id == user_id && not t.is_revoked) s'.current.refresh_tokens ≡ [])
      × (keep (λ t. not (t.user_id == user_id)) s'.current.refresh_tokens
          ≡ keep (λ t. not (t.user_id == user_id)) s.current.refresh_tokens)
      × ((n : ℕ) × (result ≡ ok n)
          × (length (keep (λ t. not t.is_revoked) s.current.refresh_tokens)
              ≡ n + length (keep (λ t. not t.is_revoked) s'.current.refresh_tokens)))
unfolding revoke_all_user_tokens
revoke_all_user_tokens_lem crypto settings user_id s =
    let rows = s.current.refresh_tokens in
    (
      revoked_rows user_id rows,
      keep-map_where_out (λ t. not (t.user_id == user_id)) (in_force user_id) revoke
          (λ t h. ground arith) (λ t h. ground arith) rows,
      (length (keep (in_force user_id) rows), refl, count_revoked user_id rows),
    )
