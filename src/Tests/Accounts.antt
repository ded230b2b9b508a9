-- ===== src/Tests/Accounts.antt =====
-- Tokens, logins, resets and keys, on concrete inputs.
use makoto_lite_llm.Base.{
  ℕ, ◌≡◌, refl, true, false, none, some, [], ◌∷◌, ok, err, keep, arith, ◌==◌, string_eq, nat_eq,
}
use makoto_lite_llm.Failure.{http_error}
use makoto_lite_llm.Jwt.{create_refresh_token}
use makoto_lite_llm.Store.{Session}
use makoto_lite_llm.Auth.{
  TokenPair, Draw, new_pair, authenticate_user, refresh_tokens, reset_password_with_token,
}
use makoto_lite_llm.Auth.Login.{Attempt, attempt_all, lockout_after_failures}
use makoto_lite_llm.Auth.Tokens.{refresh_tokens_once}
use makoto_lite_llm.Auth.Reset.{reset_password_once}
use makoto_lite_llm.Dependencies.{AuthState, authenticate_api_key, lookup_api_key, on_session}
use makoto_lite_llm.Keys.{rotate_key, rotate_row, block_key, delete_key}
use makoto_lite_llm.Keys.Rotation.{rotate_key-lookup}
use makoto_lite_llm.Keys.Blocking.{block_key-locks_out, delete_key-keeps_cached}
use makoto_lite_llm.Tests.Codec.{plain_crypto, encode_plain}
use makoto_lite_llm.Tests.Values.{key_cache, settings, ann, ann_key, at_office}

abbrev draw : ℕ → Draw
draw id = record { now = 100; jti = id; row_id = id }

-- the pair that a rotation of the token "old" returns, and the state after it
abbrev pair : TokenPair
pair = new_pair plain_crypto settings (draw 6) ann

abbrev rotated : Session ℕ
rotated = (refresh_tokens plain_crypto settings 100 (draw 6) "old" at_office).1

refresh_tokens_once_example :
    refresh_tokens plain_crypto settings 100 (draw 8) "old" rotated ≡ (ok none, rotated)
unfolding refresh_tokens create_refresh_token encode_plain
refresh_tokens_once_example =
    refresh_tokens_once plain_crypto settings 100 100 (draw 6) (draw 8) "old" at_office
      {pair = pair} refl (λ e. cc) (omega arith)

abbrev attempt : ℕ → Attempt
attempt now = record { now = now; now' = now; password = "guess" }

lockout_after_failures_example :
    authenticate_user plain_crypto settings 300 300 "ann@x" "pw"
      (attempt_all plain_crypto settings "ann@x" (attempt 100 ∷ attempt 200 ∷ []) at_office)
    ≡ (
      ok none,
      attempt_all plain_crypto settings "ann@x" (attempt 100 ∷ attempt 200 ∷ []) at_office,
    )
lockout_after_failures_example =
    lockout_after_failures plain_crypto settings "ann@x" (attempt 100) (attempt 200 ∷ []) at_office
      ann refl refl refl refl (refl, (refl, tt)) refl 300 300 "pw" (omega arith)

abbrev reset_state : Session ℕ
reset_state = (reset_password_with_token plain_crypto settings 100 "reset" "new" at_office).1

reset_password_once_example :
    reset_password_with_token plain_crypto settings 200 "reset" "other" reset_state
    ≡ (ok false, reset_state)
unfolding reset_password_with_token
reset_password_once_example =
    reset_password_once plain_crypto settings 100 200 "reset" "new" "other" at_office refl
      (omega arith)

-- the cache is warm for the key
abbrev warm : AuthState key_cache
warm = record { session = at_office; key_cache = ("sk-1", some (100, (ann_key, some ann))) ∷ [] }

rotate_key-lookup_example :
    (lookup_api_key 200 "sk-1" (rotate_key plain_crypto key_cache 100 "sk-9" 3 24 warm).1.session).0
    ≡ ok (some (rotate_row plain_crypto key_cache 100 24 "sk-9" ann_key))
unfolding rotate_key
rotate_key-lookup_example =
    rotate_key-lookup plain_crypto key_cache 100 24 "sk-9" warm ann_key
      {result = ("sk-9", rotate_row plain_crypto key_cache 100 24 "sk-9" ann_key)} refl refl "sk-1"
      (λ at. refl) 200

block_key-locks_out_example :
    (authenticate_api_key plain_crypto key_cache 200 "sk-1"
      (block_key plain_crypto key_cache 3 true warm).1).0
    ≡ err (http_error 401 "API key is blocked")
block_key-locks_out_example =
    block_key-locks_out plain_crypto key_cache 200 "sk-1" warm ann_key (some ann) refl refl
      (λ at. refl) refl

delete_key-keeps_cached_example :
    let after = (on_session plain_crypto key_cache (delete_key 3) warm).1 in
    (keep (λ k. k.id == 3) after.session.committed.api_keys ≡ [])
    × ((authenticate_api_key plain_crypto key_cache 200 "sk-1" after).0 ≡ ok ann)
delete_key-keeps_cached_example =
    delete_key-keeps_cached plain_crypto key_cache 200 "sk-1" warm ann_key ann refl refl refl refl
      refl
