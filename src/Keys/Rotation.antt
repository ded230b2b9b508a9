-- ===== src/Keys/Rotation.antt =====
-- The hashes under which a key is found after a rotation.
use makoto_lite_llm.Base.{
  ℕ, ◌+◌, String, ◌≡◌, refl, ap, ◌∙◌, Bool, true, false, not, ◌&&◌, ◌||◌, none, some, List, [], ◌∷◌,
  ok, keep, any, map_where, ◌==◌, nat_eq, string_eq, ltb, if◌then◌else◌, Bool-cases, inl, inr,
}
use makoto_lite_llm.Config.{hours}
use makoto_lite_llm.Jwt.{Crypto}
use makoto_lite_llm.Models.{ApiKey}
use makoto_lite_llm.Store.{Session, scalar_one_or_none}
use makoto_lite_llm.Store.Queries.{keep-map_where_only, others}
use makoto_lite_llm.Dependencies.{KeyCache, AuthState, key_matches, lookup_api_key}
use makoto_lite_llm.Keys.{rotate_key, rotate_row, save_rotation}

one_row :
    {R : Type 0} (b : Bool) (r : R) {r' : R}
    → r' ≡ r
    → scalar_one_or_none (if b then r ∷ [] else []) ≡ ok (if b then some r' else none)
one_row true r e = cc e
one_row false r e = refl

module _ {F : Type 0} (crypto : Crypto) (cache : KeyCache F) where
  -- no other key answers to the hash, at any time
  abbrev pub IsOwnHash : String → ℕ → List (ApiKey F) → Type 0
  IsOwnHash key_hash key_id rows =
      (at : ℕ) → keep (others (key_matches key_hash at) (λ k. k.id == key_id)) rows ≡ []

  saved :
      (now grace : ℕ) (raw_key : String) (key : ApiKey F) (s : Session F)
      {result : String × ApiKey F}
      → (save_rotation crypto cache now grace raw_key key s).0 ≡ ok (some result)
      → (result ≡ (raw_key, rotate_row crypto cache now grace raw_key key))
        × ((save_rotation crypto cache now grace raw_key key s).1.current.api_keys
            ≡ map_where
                (λ k. k.id == key.id)
                (rotate_row crypto cache now grace raw_key)
                s.current.api_keys)
  saved now grace raw_key key s h =
      elim (Bool-cases (
        any (λ k. not (k.id == key.id) && k.api_key_hash == crypto.sha256_hex raw_key)
          s.current.api_keys)) [
            | inl clash ↦ cc (rw clash at h)
            | inr free ↦ rw free (cc (rw free at h), refl)
          ]

  rotated_rows :
      (now grace : ℕ) (raw_key : String) (s : AuthState cache) (key : ApiKey F)
      {result : String × ApiKey F}
      → keep (λ k. k.id == key.id) s.session.current.api_keys ≡ key ∷ []
      → (rotate_key crypto cache now raw_key key.id grace s).0 ≡ ok (some result)
      → (result ≡ (raw_key, rotate_row crypto cache now grace raw_key key))
        × ((rotate_key crypto cache now raw_key key.id grace s).1.session.current.api_keys
            ≡ map_where
                (λ k. k.id == key.id)
                (rotate_row crypto cache now grace raw_key)
                s.session.current.api_keys)
  unfolding rotate_key
  rotated_rows now grace raw_key s key found h =
      rw found (saved now grace raw_key key s.session (rw found at h))

  -- If the id is of one row and the rotation returns a key, then a hash that no other row answers to finds
  -- this key exactly when it is the new hash, or the old one and the grace period is not over.
  pub rotate_key-lookup :
      (now grace : ℕ) (raw_key : String) (s : AuthState cache) (key : ApiKey F)
      {result : String × ApiKey F}
      → keep (λ k. k.id == key.id) s.session.current.api_keys ≡ key ∷ []
      → (rotate_key crypto cache now raw_key key.id grace s).0 ≡ ok (some result)
      → (key_hash : String) → IsOwnHash key_hash key.id s.session.current.api_keys
      → (at : ℕ)
      → let after = (rotate_key crypto cache now raw_key key.id grace s).1.session in
        (lookup_api_key at key_hash after).0
        ≡ ok (
            if crypto.sha256_hex raw_key == key_hash
              || (key.api_key_hash == key_hash && ltb at (now + hours grace))
            then some result.1
            else none)
  unfolding lookup_api_key
  rotate_key-lookup now grace raw_key s key found h key_hash own at =
      let (e, rows) = rotated_rows now grace raw_key s key found h in
      let row = rotate_row crypto cache now grace raw_key key in
      let only =
        keep-map_where_only (key_matches key_hash at) (λ k. k.id == key.id)
          (rotate_row crypto cache now grace raw_key) key s.session.current.api_keys found
          (own at) in
      ap (λ (r : List (ApiKey F)). scalar_one_or_none (keep (key_matches key_hash at) r)) rows
      ∙ ap (λ (r : List (ApiKey F)). scalar_one_or_none r) only
      ∙ one_row (key_matches key_hash at row) row (ap (λ p. p.1) e)
