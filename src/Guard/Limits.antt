-- ===== src/Guard/Limits.antt =====
-- The limits per minute of a key: requests, then tokens.
use Prim.Native.Char.{code}
use Prim.Native.String.{[], ◌∷◌, ◌++◌}
use package.text.Mathlib.TextLemmas.{cons-append}
use makoto_lite_llm.Base.{
  ℕ, ◌+◌, String, ◌≡◌, ◌↔◌, refl, Bool, true, false, Option, none, some, Outcome, ok, err, Action,
  continue, ◌==◌, string_eq, nat_beq, eq_iff, arith, Bool-cases, inl, inr,
}
use makoto_lite_llm.Base.Int.{ℤ, pos, negsuc, ◌-ℤ◌, ◌≤ℤ◌, ◌<ℤ◌}
use makoto_lite_llm.Failure.{Failure, http, text}
use makoto_lite_llm.Models.{ApiKey}
use makoto_lite_llm.RateLimiter as Limiter
use makoto_lite_llm.RateLimiter.Window.{decide_window-allowed, check_rate_limit-get_window}
use makoto_lite_llm.Guard.{check_rate_limit, enforce_limit, admit, retry_header}

-- The limit, if there is one, has room for the increment in the minute before the time.
abbrev pub Fits : ℤ → String → Option ℤ → ℕ → Limiter.Windows → Type 0
Fits now key none increment windows = Unit
Fits now key (some limit) increment windows =
    pos (
      Limiter.usage (Limiter.prune (now -ℤ pos 60000000) (Limiter.get_window windows key))
      + increment)
    ≤ℤ limit

admit_iff :
    (message : String) (result : Limiter.RateLimitResult)
    → (admit message result ≡ ok tt) ↔ (result.allowed ≡ true)
admit_iff message result = elim (Bool-cases result.allowed) [
  | inl free ↦ rw free (λ h. refl, λ h. refl)
  | inr over ↦ rw over (λ h. cc h, λ h. cc h)
]

enforce_limit_iff :
    (now : ℤ) (message key : String) (o : Option ℤ) (increment : ℕ) (windows : Limiter.Windows)
    → ((enforce_limit now message key o increment windows).0 ≡ ok tt)
      ↔ Fits now key o increment windows
unfolding Limiter.check_rate_limit
enforce_limit_iff now message key none increment windows = (λ h. tt, λ h. refl)
enforce_limit_iff now message key (some limit) increment windows =
    let entries = Limiter.get_window windows key in
    let admitted =
      admit_iff message (Limiter.decide_window now limit (pos 60000000) increment entries).0 in
    let (fits, _, _) = decide_window-allowed now limit (pos 60000000) increment entries in
    (λ h. fits.0 (admitted.0 h), λ h. admitted.1 (fits.1 h))

-- a check of one key does not touch the window of another
enforce_limit-get_window :
    (now : ℤ) (message key : String) (o : Option ℤ) (increment : ℕ) (windows : Limiter.Windows)
    (j : String)
    → (key == j) ≡ false
    → Limiter.get_window (enforce_limit now message key o increment windows).1 j
      ≡ Limiter.get_window windows j
enforce_limit-get_window now message key none increment windows j other = refl
enforce_limit-get_window now message key (some limit) increment windows j other =
    rw (check_rate_limit-get_window now key limit (pos 60000000) increment windows j, other) refl

abbrev starts_with_r : String → Bool
starts_with_r [] = false
starts_with_r (d ∷ s) = nat_beq (code d) b'r'

rpm_starts : (hash : String) → starts_with_r ("rpm:" ++ hash) ≡ true
rpm_starts hash = rw cons-append refl

tpm_starts : (hash : String) → starts_with_r ("tpm:" ++ hash) ≡ false
tpm_starts hash = rw cons-append refl

keys_differ : (hash : String) → (("rpm:" ++ hash) == ("tpm:" ++ hash)) ≡ false
keys_differ hash = elim (Bool-cases (("rpm:" ++ hash) == ("tpm:" ++ hash))) [
  | inr other ↦ other
  | inl same ↦
      cc ((eq_iff ("rpm:" ++ hash) ("tpm:" ++ hash)).0 same, rpm_starts hash, tpm_starts hash)
]

Fits-window :
    (now : ℤ) (key : String) (o : Option ℤ) (increment : ℕ) (windows windows' : Limiter.Windows)
    → Limiter.get_window windows' key ≡ Limiter.get_window windows key
    → Fits now key o increment windows' ≡ Fits now key o increment windows
Fits-window now key none increment windows windows' e = refl
Fits-window now key (some limit) increment windows windows' e = rw e refl

-- Two steps, of which the second is taken if the first one returns.
both_iff :
    {P Q S : Type 0} (r : Outcome Failure (Unit {0})) (s : S)
    (f : Unit {0} → Action S Failure (Unit {0}))
    → (r ≡ ok tt) ↔ P
    → ((f tt s).0 ≡ ok tt) ↔ Q
    → ((continue r s f).0 ≡ ok tt) ↔ (P × Q)
both_iff (ok u) s f p q = (λ h. (p.0 refl, q.0 h), λ h. q.1 h.1)
both_iff (err e) s f p q = (λ h. cc h, λ h. cc (p.1 h.0))

-- 429, with a wait of a second at least
abbrev pub IsLimitError : Failure → Type 0
IsLimitError f =
    (message : String) × (wait : ℤ) × (f ≡ http 429 (text message) (some wait)) × (pos 0 <ℤ wait)

retry_header_pos : (wait : ℤ) → pos 0 <ℤ retry_header wait
retry_header_pos (pos n) = omega arith
retry_header_pos (negsuc n) = omega arith

enforce_limit_error :
    (now : ℤ) (message key : String) (o : Option ℤ) (increment : ℕ) (windows : Limiter.Windows)
    (f : Failure)
    → (enforce_limit now message key o increment windows).0 ≡ err f
    → IsLimitError f
enforce_limit_error now message key none increment windows f h = absurd (not_both h)
  where
    not_both : ◌≡◌ {A = Outcome Failure (Unit {0})} (ok tt) (err f) → ⊥
    not_both e = cc
enforce_limit_error now message key (some limit) increment windows f h =
    let result = (Limiter.check_rate_limit now key limit (pos 60000000) increment windows).0 in
    elim (Bool-cases result.allowed) [
      | inl free ↦ cc (rw free at h)
      | inr over ↦
          let same : err (http 429 (text message) (some (retry_header result.retry_after)))
              ≡ err f =
            rw over at h in
          (message, retry_header result.retry_after, cc same, retry_header_pos result.retry_after)
    ]

-- The error of two steps is that of the first, or that of the second.
either_err :
    {S : Type 0} (r : Outcome Failure (Unit {0})) (s : S)
    (k : Unit {0} → Action S Failure (Unit {0}))
    → ((f : Failure) → r ≡ err f → IsLimitError f)
    → ((f : Failure) → (k tt s).0 ≡ err f → IsLimitError f)
    → (f : Failure) → (continue r s k).0 ≡ err f
    → IsLimitError f
either_err (ok u) s k first second f h = second f h
either_err (err e) s k first second f h = first f h

module _ {F : Type 0} where
  -- A request passes the limits of its key exactly when both the limit on requests has room for one more
  -- and the limit on tokens for the estimate, each in its own minute and where the key has the limit.
  pub check_rate_limit_iff :
      (now now' : ℤ) (api_key : ApiKey F) (estimated_tokens : ℕ) (windows : Limiter.Windows)
      → ((check_rate_limit now now' api_key estimated_tokens windows).0 ≡ ok tt) ↔ (
          Fits now ("rpm:" ++ api_key.api_key_hash) api_key.rpm_limit 1 windows
          × Fits now' ("tpm:" ++ api_key.api_key_hash) api_key.tpm_limit estimated_tokens windows)
  unfolding check_rate_limit
  check_rate_limit_iff now now' api_key estimated_tokens windows =
      let rpm_key = "rpm:" ++ api_key.api_key_hash in
      let rpm = enforce_limit now "Rate limit exceeded (RPM)" rpm_key api_key.rpm_limit 1 in
      let windows' = (rpm windows).1 in
      let first =
        enforce_limit_iff now "Rate limit exceeded (RPM)" rpm_key api_key.rpm_limit 1 windows in
      let second =
        enforce_limit_iff now' "Rate limit exceeded (TPM)" ("tpm:" ++ api_key.api_key_hash)
          api_key.tpm_limit estimated_tokens windows' in
      let same =
        Fits-window now' ("tpm:" ++ api_key.api_key_hash) api_key.tpm_limit estimated_tokens windows
          windows'
          (enforce_limit-get_window now "Rate limit exceeded (RPM)" rpm_key api_key.rpm_limit 1
            windows ("tpm:" ++ api_key.api_key_hash) (keys_differ api_key.api_key_hash)) in
      rw (← same) (both_iff (rpm windows).0 windows' _ first second)

  -- A request that does not pass the limits is answered with 429 and a positive header Retry-After.
  pub check_rate_limit_refused :
      (now now' : ℤ) (api_key : ApiKey F) (estimated_tokens : ℕ) (windows : Limiter.Windows)
      (f : Failure)
      → (check_rate_limit now now' api_key estimated_tokens windows).0 ≡ err f
      → IsLimitError f
  unfolding check_rate_limit
  check_rate_limit_refused now now' api_key estimated_tokens windows f h =
      let rpm_key = "rpm:" ++ api_key.api_key_hash in
      let tpm_key = "tpm:" ++ api_key.api_key_hash in
      let rpm = enforce_limit now "Rate limit exceeded (RPM)" rpm_key api_key.rpm_limit 1 windows in
      either_err rpm.0 rpm.1
        (λ _.
          enforce_limit now' "Rate limit exceeded (TPM)" tpm_key api_key.tpm_limit estimated_tokens)
        (enforce_limit_error now "Rate limit exceeded (RPM)" rpm_key api_key.rpm_limit 1 windows)
        (enforce_limit_error now' "Rate limit exceeded (TPM)" tpm_key api_key.tpm_limit
          estimated_tokens rpm.1)
        f h
