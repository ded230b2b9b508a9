-- ===== src/Users/Blocking.antt =====
-- `block_user`, and the access tokens that the user holds.
use Prim.Native.String.{◌++◌}
use text.Mathlib.Text.{starts_with}
use makoto_lite_llm.Base.{
  ℕ, ◌+◌, ◌≤◌, String, ◌≡◌, refl, ◌∙◌, true, false, some, List, [], ◌∷◌, ok, err, keep, map_where,
  ◌==◌, nat_eq,
}
use makoto_lite_llm.Config.{Settings, minutes}
use makoto_lite_llm.Dependencies.{KeyCache, AuthState, on_session, get_current_user}
use makoto_lite_llm.Dependencies.Bearer.{bearer_token-Bearer}
use makoto_lite_llm.Failure.{http_error}
use makoto_lite_llm.Jwt.{Crypto, access_claims, create_access_token}
use makoto_lite_llm.Models.{User}
use makoto_lite_llm.Store.Queries.{keep-map_where, keep-head}
use makoto_lite_llm.Users.{block_user}

module _ {F : Type 0} (crypto : Crypto) (settings : Settings) (cache : KeyCache F) where
  abbrev pub blocked : User F → User F
  blocked user = record user { is_blocked = true }

  only_blocked :
      (user : User F) (users : List (User F))
      → keep (λ u. u.id == user.id) users ≡ user ∷ []
      → keep (λ u. u.id == user.id) (map_where (λ u. u.id == user.id) blocked users)
        ≡ blocked user ∷ []
  only_blocked user users found =
      let own = keep-head (λ u. u.id == user.id) users [] user found in
      keep-map_where (λ u. u.id == user.id) (λ u. u.id == user.id) blocked (λ u. refl) users
      ∙ rw (found, own) refl

  -- If the id is of one row, `block_user` commits the row as blocked, and from then on an access token of the
  -- user that does not start with `sk-` and has not expired is refused with 401.
  pub block_user-locks_out :
      (issued now : ℕ) (user : User F) (role : String) (s : AuthState cache)
      → starts_with (create_access_token crypto settings issued user.id role) "sk-" ≡ false
      → issued ≤ now
      → now + 1000000 ≤ issued + minutes settings.access_token_expire_minutes
      → keep (λ u. u.id == user.id) s.session.current.users ≡ user ∷ []
      → let token = create_access_token crypto settings issued user.id role in
        let (result, after) = on_session crypto cache (block_user user.id true) s in
        (result ≡ ok (some (blocked user)))
        × (keep (λ u. u.id == user.id) after.session.committed.users ≡ blocked user ∷ [])
        × ((get_current_user crypto cache now (some ("Bearer " ++ token)) after).0
            ≡ err (http_error 401 "User not found or blocked"))
  unfolding block_user get_current_user create_access_token
  block_user-locks_out issued now user role s plain order valid found =
      let c = access_claims settings issued user.id role in
      let (d, e) = crypto.decode-encode now c order valid in
      let (same_sub, _, same_type) = crypto.decode_same now c d e in
      let only = only_blocked user s.session.current.users found in
      rw found (refl, only, rw (bearer_token-Bearer, plain, e, same_type, same_sub, only) refl)
