-- ===== src/RateLimiter/Retry.antt =====
-- What a client gets that waits as long as it was told.
use makoto_lite_llm.Base.{
  ℕ, ◌+◌, String, ◌≡◌, ◌↔◌, refl, ◌∙◌, true, false, Bool-cases, inl, inr, ◌∷◌, string_eq, eq_refl,
}
use makoto_lite_llm.Base.Int.{ℤ, pos, ◌+ℤ◌, ◌-ℤ◌, ◌≤ℤ◌, ◌<ℤ◌, ltb_ℤ}
use makoto_lite_llm.RateLimiter.{
  Entries, Windows, get_window, prune, usage, decide_window, check_rate_limit,
}
use makoto_lite_llm.RateLimiter.Window.{
  decide_window-allowed, retry_after_frees, check_rate_limit-get_window,
}

refused_entries :
    (now limit window : ℤ) (increment : ℕ) (old : Entries)
    → (decide_window now limit window increment old).0.allowed ≡ false
    → (decide_window now limit window increment old).1 ≡ prune (now -ℤ window) old
unfolding decide_window
refused_entries now limit window increment old refused =
    elim (Bool-cases (ltb_ℤ limit (pos (usage (prune (now -ℤ window) old) + increment)))) [
      | inl over ↦ rw over refl
      | inr under ↦ cc (rw under at refused)
    ]

retried_after :
    (now limit window ts : ℤ) (increment inc : ℕ) (old rest : Entries)
    → prune (now -ℤ window) old ≡ (ts, inc) ∷ rest
    → ts ≤ℤ now
    → (decide_window now limit window increment old).0.allowed ≡ false
    → let (result, entries) = decide_window now limit window increment old in
      let later = now +ℤ result.retry_after in
      (pos 0 <ℤ result.retry_after)
      × (result.retry_after ≤ℤ window)
      × (((decide_window later limit window increment entries).0.allowed ≡ true)
          ↔ (pos (usage (prune (later -ℤ window) rest) + increment) ≤ℤ limit))
retried_after now limit window ts increment inc old rest e past refused =
    let later = now +ℤ (decide_window now limit window increment old).0.retry_after in
    let kept = refused_entries now limit window increment old refused ∙ e in
    let (positive, short, frees) =
      retry_after_frees now limit window ts increment inc old rest e past refused in
    let exact = (decide_window-allowed later limit window increment ((ts, inc) ∷ rest)).0 in
    (positive, short, rw kept (rw frees at exact))

decided :
    (now : ℤ) (key : String) (limit window : ℤ) (increment : ℕ) (windows : Windows)
    → (check_rate_limit now key limit window increment windows).0
      ≡ (decide_window now limit window increment (get_window windows key)).0
unfolding check_rate_limit
decided now key limit window increment windows = refl

-- If a check of a key is refused and its window has an oldest entry, which is not in the future, then `retry_after` is
-- positive and no longer than the window; and the same check, when this time has passed without another check of the
-- key, is allowed exactly when the entries behind the oldest that are then still in the window leave room for the
-- increment.
pub check_rate_limit-retry :
    (now limit window ts : ℤ) (key : String) (increment inc : ℕ) (windows : Windows)
    (rest : Entries)
    → prune (now -ℤ window) (get_window windows key) ≡ (ts, inc) ∷ rest
    → ts ≤ℤ now
    → (check_rate_limit now key limit window increment windows).0.allowed ≡ false
    → let (result, after) = check_rate_limit now key limit window increment windows in
      let later = now +ℤ result.retry_after in
      (pos 0 <ℤ result.retry_after)
      × (result.retry_after ≤ℤ window)
      × (((check_rate_limit later key limit window increment after).0.allowed ≡ true)
          ↔ (pos (usage (prune (later -ℤ window) rest) + increment) ≤ℤ limit))
check_rate_limit-retry now limit window ts key increment inc windows rest e past refused =
    let result = decided now key limit window increment windows in
    let same =
      rw (eq_refl key) at
        (check_rate_limit-get_window now key limit window increment windows key) in
    let later = now +ℤ (check_rate_limit now key limit window increment windows).0.retry_after in
    let after = (check_rate_limit now key limit window increment windows).1 in
    rw (decided later key limit window increment after, same, result)
      (retried_after now limit window ts increment inc (get_window windows key) rest e past
        (rw result at refused))
