-- ===== src/Auth/Tokens.antt =====
-- Refresh tokens and their rotation.
use makoto_lite_llm.Base.{
  ℕ, ◌+◌, ◌<◌, ◌≤◌, String, ◌≡◌, ◌≢◌, refl, ap, ◌∙◌, true, false, Option, none, some, List, [], ◌∷◌,
  ◌++◌, ok, Outcome, keep, any, map_where, ◌==◌, nat_eq, string_eq, arith, if◌then◌else◌,
  Bool-cases, inl, inr, eq_refl, eq_iff, keep-append, bind-ok, sym,
}
use makoto_lite_llm.Config.{Settings, days}
use makoto_lite_llm.Jwt.{Crypto}
use makoto_lite_llm.Models.{User, RefreshToken}
use makoto_lite_llm.Failure.{Failure}
use makoto_lite_llm.Store.{Session, select_one, select_one_or_none}
use makoto_lite_llm.Store.Queries.{
  keep-map_where, keep-map_where_takes, keep_fewer, keep_of_any, scalar_one_or_none-some,
}
use makoto_lite_llm.Auth.{
  Draw, TokenPair, refresh_tokens, rotate, rotate_found, issue_pair, new_pair, new_refresh_row,
  is_usable, revoke, update_refresh_token,
}

-- a revoked token is not usable, whatever the time
revoked_unusable :
    (token_hash : String) (now : ℕ) (t : RefreshToken) → is_usable token_hash now (revoke t) ≡ false
revoked_unusable token_hash now t = ground arith

-- no row of the token can be used at the time
abbrev pub IsSpent : Crypto → String → ℕ → List RefreshToken → Type 0
IsSpent crypto token now rows = keep (is_usable (crypto.sha256_hex token) now) rows ≡ []

abbrev link : ℕ → RefreshToken → RefreshToken
link id t = record t { replaced_by = some id }

-- the rows after a rotation
abbrev rotated : ℕ → RefreshToken → RefreshToken → List RefreshToken → List RefreshToken
rotated row_id old row rows =
    map_where (λ t. t.id == old.id) (link row_id)
      (map_where (λ t. t.id == old.id) revoke rows ++ row ∷ [])

usable_earlier :
    (token_hash : String) (now later : ℕ) (t : RefreshToken)
    → now ≤ later
    → is_usable token_hash later t ≡ true
    → is_usable token_hash now t ≡ true
usable_earlier token_hash now later t h u = ground arith

rotated-IsSpent :
    (crypto : Crypto) (token : String) (now row_id : ℕ) (old row : RefreshToken)
    (rows : List RefreshToken)
    → keep (is_usable (crypto.sha256_hex token) now) rows ≡ old ∷ []
    → row.token_hash ≢ crypto.sha256_hex token
    → IsSpent crypto token now (rotated row_id old row rows)
rotated-IsSpent crypto token now row_id old row rows found other =
    let p = is_usable (crypto.sha256_hex token) now in
    let q = λ (t : RefreshToken). t.id == old.id in
    let gone =
      keep-map_where_takes p q revoke old (revoked_unusable _ now) rows (ground arith) found in
    keep-map_where p q (link row_id) (λ t. refl) (map_where q revoke rows ++ row ∷ [])
    ∙ rw (keep-append p, gone) (ground (arith, eq_iff row.token_hash (crypto.sha256_hex token)))

-- the new row of a rotation is found by its hash, alone
rotated-finds :
    (row_id : ℕ) (old row : RefreshToken) (rows : List RefreshToken) (later : ℕ)
    → any (λ t. t.token_hash == row.token_hash) (map_where (λ t. t.id == old.id) revoke rows)
      ≡ false
    → row.is_revoked ≡ false
    → later < row.expires_at
    → (row' : RefreshToken) × (keep (is_usable row.token_hash later) (rotated row_id old row rows)
        ≡ row' ∷ [])
      × (row'.id ≡ row.id)
rotated-finds row_id old row rows later free open_row soon =
    let p = is_usable row.token_hash later in
    let q = λ (t : RefreshToken). t.id == old.id in
    let none_old =
      keep_of_any (λ t. t.token_hash == row.token_hash) p (λ t u. ground arith)
        (map_where q revoke rows) free in
    let one_new : keep p (row ∷ []) ≡ row ∷ [] = ground (arith, eq_refl row.token_hash) in
    (
      (if q row then link row_id row else row),
      keep-map_where p q (link row_id) (λ t. refl) (map_where q revoke rows ++ row ∷ [])
          ∙ rw (keep-append p, none_old, one_new) refl,
      ground arith,
    )

usable_rows :
    (crypto : Crypto) (later : ℕ) {token token' : String} {rows rows' : List RefreshToken}
    → token ≡ token'
    → rows ≡ rows'
    → keep (is_usable (crypto.sha256_hex token) later) rows
      ≡ keep (is_usable (crypto.sha256_hex token') later) rows'
usable_rows crypto later e f = cc

module _ {F : Type 0} (crypto : Crypto) (settings : Settings) where
  -- what an issue that returns a pair has met and has written
  issue_pair-some :
      (draw : Draw) (old : RefreshToken) (user : User F) (s : Session F) {pair : TokenPair}
      → (issue_pair crypto settings draw old user s).0 ≡ ok (some pair)
      → let row = new_refresh_row crypto settings draw user none none in
        (pair ≡ new_pair crypto settings draw user)
        × (any (λ t. t.token_hash == row.token_hash) s.current.refresh_tokens ≡ false)
        × ((issue_pair crypto settings draw old user s).1.current.refresh_tokens
            ≡ map_where
                (λ t. t.id == old.id)
                (link draw.row_id)
                (s.current.refresh_tokens ++ row ∷ []))
  issue_pair-some draw old user s h =
      let row = new_refresh_row crypto settings draw user none none in
      elim (Bool-cases (any (λ t. t.token_hash == row.token_hash) s.current.refresh_tokens)) [
        | inl clash ↦ cc (rw clash at h)
        | inr free ↦ rw free (cc (rw free at h), refl, refl)
      ]

  -- a rotation that returns a pair
  rotate-some :
      (draw : Draw) (old : RefreshToken) (s : Session F) {pair : TokenPair}
      → (rotate crypto settings draw old s).0 ≡ ok (some pair)
      → (user : User F) × (pair ≡ new_pair crypto settings draw user)
        × (any
              (λ t.
                t.token_hash == (new_refresh_row crypto settings draw user none none).token_hash)
              (map_where (λ t. t.id == old.id) revoke s.current.refresh_tokens)
            ≡ false)
        × ((rotate crypto settings draw old s).1.current.refresh_tokens
            ≡ rotated draw.row_id old
                (new_refresh_row crypto settings draw user none none)
                s.current.refresh_tokens)
  rotate-some draw old s h =
      let s' = record s { current = update_refresh_token old.id revoke s.current } in
      let (user, _, same) =
        bind-ok (select_one (λ db. db.users) (λ u. u.id == old.user_id))
          (issue_pair crypto settings draw old) s' h in
      let (e, free, rows) = issue_pair-some draw old user s' (sym (ap (λ r. r.0) same) ∙ h) in
      (user, e, free, ap (λ r. r.1.current.refresh_tokens) same ∙ rows)

  rotate_found-some :
      (draw : Draw) (o : Option RefreshToken) (s : Session F) {pair : TokenPair}
      → (rotate_found crypto settings draw o s).0 ≡ ok (some pair)
      → (old : RefreshToken) × (o ≡ some old)
        × (rotate_found crypto settings draw o s ≡ rotate crypto settings draw old s)
  rotate_found-some draw none s h = cc h
  rotate_found-some draw (some old) s h = (old, refl, refl)

  -- a call that returns a pair has found one usable row and rotated it
  refresh_tokens-some :
      (now : ℕ) (draw : Draw) (token : String) (s : Session F) {pair : TokenPair}
      → (refresh_tokens crypto settings now draw token s).0 ≡ ok (some pair)
      → (old : RefreshToken) × (keep
            (is_usable (crypto.sha256_hex token) now)
            s.current.refresh_tokens
          ≡ old ∷ [])
        × (refresh_tokens crypto settings now draw token s ≡ rotate crypto settings draw old s)
  unfolding refresh_tokens
  refresh_tokens-some now draw token s h =
      let test = is_usable (crypto.sha256_hex token) now in
      let (o, found, same) =
        bind-ok (select_one_or_none {F = F} (λ db. db.refresh_tokens) test)
          (rotate_found crypto settings draw) s h in
      let as_ok : Option RefreshToken → Outcome Failure (Option RefreshToken) = λ x. ok x in
      let (old, e, as_rotate) = rotate_found-some draw o s (sym (ap (λ r. r.0) same) ∙ h) in
      (
        old,
        scalar_one_or_none-some (keep test s.current.refresh_tokens) old (found ∙ ap as_ok e),
        same ∙ as_rotate,
      )

  refresh_tokens-spent :
      (now : ℕ) (draw : Draw) (token : String) (s : Session F)
      → IsSpent crypto token now s.current.refresh_tokens
      → refresh_tokens crypto settings now draw token s ≡ (ok none, s)
  unfolding refresh_tokens
  refresh_tokens-spent now draw token s spent = rw spent

  -- If a rotation returns a pair, then exactly one row can be used for the new refresh token, until its
  -- expiry, and it has the new id.
  pub refresh_tokens-usable :
      (now later : ℕ) (draw : Draw) (token : String) (s : Session F) {pair : TokenPair}
      → (refresh_tokens crypto settings now draw token s).0 ≡ ok (some pair)
      → later < draw.now + days settings.refresh_token_expire_days
      → let after = (refresh_tokens crypto settings now draw token s).1 in
        (row : RefreshToken) × (keep
            (is_usable (crypto.sha256_hex pair.refresh_token) later)
            after.current.refresh_tokens
          ≡ row ∷ [])
        × (row.id ≡ draw.row_id)
  refresh_tokens-usable now later draw token s h soon =
      let (old, found, as_rotate) = refresh_tokens-some now draw token s h in
      let (user, e, free, rows) = rotate-some draw old s (sym (ap (λ r. r.0) as_rotate) ∙ h) in
      let row = new_refresh_row crypto settings draw user none none in
      let (row', found', same) =
        rotated-finds draw.row_id old row s.current.refresh_tokens later free refl soon in
      (
        row',
        usable_rows crypto later (ap (λ p. p.refresh_token) e)
              (ap (λ r. r.1.current.refresh_tokens) as_rotate ∙ rows)
            ∙ found',
        same,
      )

  -- If a rotation returns a pair whose refresh token has another hash than the old one, then no later rotation
  -- of the old token returns one, and it changes nothing.
  pub refresh_tokens_once :
      (now later : ℕ) (draw draw' : Draw) (token : String) (s : Session F) {pair : TokenPair}
      → (refresh_tokens crypto settings now draw token s).0 ≡ ok (some pair)
      → crypto.sha256_hex pair.refresh_token ≢ crypto.sha256_hex token
      → now ≤ later
      → let after = (refresh_tokens crypto settings now draw token s).1 in
        refresh_tokens crypto settings later draw' token after ≡ (ok none, after)
  refresh_tokens_once now later draw draw' token s h other order =
      let (old, found, as_rotate) = refresh_tokens-some now draw token s h in
      let (user, e, free, rows) = rotate-some draw old s (sym (ap (λ r. r.0) as_rotate) ∙ h) in
      let after = (refresh_tokens crypto settings now draw token s).1 in
      let same_rows = ap (λ r. r.1.current.refresh_tokens) as_rotate ∙ rows in
      refresh_tokens-spent later draw' token after (
        keep_fewer (is_usable (crypto.sha256_hex token) now)
          (is_usable (crypto.sha256_hex token) later)
          (λ t. usable_earlier (crypto.sha256_hex token) now later t order)
          after.current.refresh_tokens
          (rw same_rows (
            rotated-IsSpent crypto token now draw.row_id old
              (new_refresh_row crypto settings draw user none none) s.current.refresh_tokens found
              (rw (ap (λ p. p.refresh_token) e) at other))))
