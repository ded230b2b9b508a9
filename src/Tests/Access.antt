-- ===== src/Tests/Access.antt =====
-- Who may do what: the allowlists, the limiter and the authentication, on concrete inputs.
use makoto_lite_llm.Base.{
  ℕ, ◌+◌, String, ◌≡◌, ◌↔◌, refl, true, none, some, List, [], ◌∷◌, ok, arith, string_eq, nat_eq,
}
use makoto_lite_llm.Base.Int.{ℤ, pos, ◌≤ℤ◌, ◌<ℤ◌, ◌+ℤ◌, ◌-ℤ◌}
use makoto_lite_llm.Permission.{resolve_model_access}
use makoto_lite_llm.Permission.Chain.{Lists, resolve_model_access_iff}
use makoto_lite_llm.RateLimiter.{usage, check_rate_limit}
use makoto_lite_llm.RateLimiter.Retry.{check_rate_limit-retry}
use makoto_lite_llm.RateLimiter.History.{Call, grants, in_window, window_never_over}
use makoto_lite_llm.Dependencies.{AuthState, authenticate_api_key}
use makoto_lite_llm.Dependencies.ApiKeys.{IsGood, authenticate_api_key_iff}
use makoto_lite_llm.Store.{Session, open_session}
use makoto_lite_llm.Tests.Codec.{plain_crypto}
use makoto_lite_llm.Tests.Values.{key_cache, ann, ann_key, at_office, blue, office}

resolve_model_access_iff_example :
    (resolve_model_access "gpt-4o" none (some ("gpt-*" ∷ [])) (some []) ≡ true)
    ↔ Lists ("gpt-*" ∷ []) "gpt-4o"
resolve_model_access_iff_example =
    resolve_model_access_iff "gpt-4o" none (some ("gpt-*" ∷ [])) (some [])

abbrev two_entries : List (ℤ × ℕ)
two_entries = (pos 10, 1) ∷ (pos 50, 2) ∷ []

abbrev call : ℤ → String → Call
call now key = record {
  now = now;
  key = key;
  limit = pos 1;
  window_seconds = pos 60;
  increment = 1;
}

abbrev calls : List Call
calls = call (pos 10) "a" ∷ call (pos 20) "b" ∷ call (pos 30) "a" ∷ call (pos 90) "a" ∷ []

window_never_over_example : pos (usage (in_window (pos 60) (pos 90) (grants "a" calls []))) ≤ℤ pos 1
window_never_over_example =
    window_never_over "a" (pos 1) (pos 60) (pos 0) calls (omega arith)
      (
        omega arith,
        λ _. (refl, refl),
        (
          omega arith,
          λ _. (refl, refl),
          (omega arith, λ _. (refl, refl), (omega arith, λ _. (refl, refl), tt)),
        ),
      )
      (pos 90)

abbrev cold : AuthState key_cache
cold = record { session = at_office; key_cache = [] }

authenticate_api_key_iff_example :
    ((authenticate_api_key plain_crypto key_cache 100 "sk-1" cold).0 ≡ ok ann)
    ↔ (IsGood 100 ann_key ann × (ann ≡ ann))
authenticate_api_key_iff_example =
    authenticate_api_key_iff plain_crypto key_cache 100 "sk-1" cold ann_key ann ann refl refl refl

-- the team of the key has a list
abbrev listed : Session ℕ
listed =
    open_session
      (record office { teams = record blue { allowed_models = some ("gpt-*" ∷ []) } ∷ [] })

check_rate_limit-retry_example :
    let (result, after) =
      check_rate_limit
        (pos 65)
        "k"
        (pos 10)
        (pos 60)
        8
        (("k", (pos 10, 1) ∷ (pos 20, 5) ∷ []) ∷ []) in
    let later = pos 65 +ℤ result.retry_after in
    (pos 0 <ℤ result.retry_after)
    × (result.retry_after ≤ℤ pos 60)
    × (((check_rate_limit later "k" (pos 10) (pos 60) 8 after).0.allowed ≡ true)
        ↔ (pos (usage ((pos 20, 5) ∷ []) + 8) ≤ℤ pos 10))
unfolding check_rate_limit ◌-ℤ◌ ◌+ℤ◌
check_rate_limit-retry_example =
    check_rate_limit-retry (pos 65) (pos 10) (pos 60) (pos 10) "k" 8 1
      (("k", (pos 10, 1) ∷ (pos 20, 5) ∷ []) ∷ []) ((pos 20, 5) ∷ []) refl (omega arith) refl
