-- ===== src/RateLimiter/Window.antt =====
-- One check on the window of a key, and the other windows.
use makoto_lite_llm.Base.{
  ℕ, ◌+◌, String, ◌≡◌, ◌↔◌, refl, true, false, [], ◌∷◌, ◌++◌, keep, ◌==◌, string_eq, eq_iff, arith,
  if◌then◌else◌, Bool-cases, inl, inr,
}
use makoto_lite_llm.Base.Int.{ℤ, pos, ◌+ℤ◌, ◌-ℤ◌, ◌≤ℤ◌, ◌<ℤ◌, ltb_ℤ, max_zero_of_nonneg, int_laws}
use makoto_lite_llm.RateLimiter.{
  Entries, Windows, get_window, set_window, prune, usage, decide_window, check_rate_limit,
}

pub usage-append : (xs ys : Entries) → usage (xs ++ ys) ≡ usage xs + usage ys
unfolding usage
usage-append [] ys = omega arith
usage-append ((ts, inc) ∷ xs) ys = omega (arith, usage-append xs ys)

-- A check is allowed exactly when the use inside the window and the increment stay within the limit; the
-- use that is kept grows by the increment if and only if it is allowed; and `remaining` and the new use
-- then add up to the limit.
pub decide_window-allowed :
    (now limit window : ℤ) (increment : ℕ) (entries : Entries)
    → let used = usage (prune (now -ℤ window) entries) in
      let (result, entries') = decide_window now limit window increment entries in
      ((result.allowed ≡ true) ↔ (pos (used + increment) ≤ℤ limit))
      × (usage entries' ≡ used + (if result.allowed then increment else 0))
      × (result.allowed ≡ true → result.remaining +ℤ pos (usage entries') ≡ limit)
unfolding decide_window
decide_window-allowed now limit window increment entries =
    elim (Bool-cases (ltb_ℤ limit (pos (usage (prune (now -ℤ window) entries) + increment)))) [
      | inl over ↦ rw over ((λ h. cc, λ h. ground arith), omega arith, λ h. cc)
      | inr under ↦ rw under (
        (λ h. ground arith, λ _. refl),
        rw usage-append (unfold usage in omega arith),
        λ _. rw usage-append (unfold usage in omega int_laws),
      )
    ]

pub prune-head :
    (cutoff ts : ℤ) (inc : ℕ) (old rest : Entries)
    → prune cutoff old ≡ (ts, inc) ∷ rest
    → cutoff <ℤ ts
unfolding prune
prune-head cutoff ts inc [] rest e = cc
prune-head cutoff ts inc ((t, n) ∷ old) rest e = elim (Bool-cases (ltb_ℤ cutoff t)) [
  | inl kept ↦ cc_head (rw kept at e) kept
  | inr gone ↦ prune-head cutoff ts inc old rest (rw gone at e)
]
  where
    cc_head :
        (t, n) ∷ keep (λ x. ltb_ℤ cutoff x.0) old ≡ (ts, inc) ∷ rest
        → ltb_ℤ cutoff t ≡ true
        → cutoff <ℤ ts
    cc_head p kept = ground arith

refused_wait :
    (now limit window ts : ℤ) (increment inc : ℕ) (old rest : Entries)
    → prune (now -ℤ window) old ≡ (ts, inc) ∷ rest
    → (decide_window now limit window increment old).0.allowed ≡ false
    → (decide_window now limit window increment old).0.retry_after ≡ ts -ℤ (now -ℤ window)
unfolding decide_window
refused_wait now limit window ts increment inc old rest e refused =
    elim (Bool-cases (ltb_ℤ limit (pos (usage (prune (now -ℤ window) old) + increment)))) [
      | inl over ↦
          let inside = prune-head (now -ℤ window) ts inc old rest e in
          rw (over, e) (max_zero_of_nonneg (ts -ℤ (now -ℤ window)) (omega int_laws))
      | inr under ↦ cc (rw under at refused)
    ]

prune_first :
    (cutoff ts : ℤ) (inc : ℕ) (rest : Entries)
    → ts ≤ℤ cutoff
    → prune cutoff ((ts, inc) ∷ rest) ≡ prune cutoff rest
unfolding prune
prune_first cutoff ts inc rest h = ground arith

-- If a check is refused while the window has an oldest entry, which is not in the future, then
-- `retry_after` is positive and no longer than the window, and that entry is out of the window once this
-- time has passed.
pub retry_after_frees :
    (now limit window ts : ℤ) (increment inc : ℕ) (old rest : Entries)
    → prune (now -ℤ window) old ≡ (ts, inc) ∷ rest
    → ts ≤ℤ now
    → (decide_window now limit window increment old).0.allowed ≡ false
    → let wait = (decide_window now limit window increment old).0.retry_after in
      (pos 0 <ℤ wait)
      × (wait ≤ℤ window)
      × (prune (now +ℤ wait -ℤ window) ((ts, inc) ∷ rest) ≡ prune (now +ℤ wait -ℤ window) rest)
retry_after_frees now limit window ts increment inc old rest e h refused =
    let inside = prune-head (now -ℤ window) ts inc old rest e in
    rw (refused_wait now limit window ts increment inc old rest e refused)
      (omega int_laws, omega int_laws, prune_first _ ts inc rest (omega int_laws))

pub get_window-set_window :
    (windows : Windows) (key : String) (entries : Entries) (j : String)
    → get_window (set_window windows key entries) j
      ≡ (if key == j then entries else get_window windows j)
unfolding get_window set_window
get_window-set_window [] key entries j = refl
get_window-set_window ((k, old) ∷ windows) key entries j =
    ground
      (arith, eq_iff k key, eq_iff k j, eq_iff key j, get_window-set_window windows key entries j)

-- A check of one key replaces the window of this key by the decided one and leaves every other alone.
pub check_rate_limit-get_window :
    (now : ℤ) (key : String) (limit window : ℤ) (increment : ℕ) (windows : Windows) (j : String)
    → get_window (check_rate_limit now key limit window increment windows).1 j ≡ (
        if key == j
        then (decide_window now limit window increment (get_window windows j)).1
        else get_window windows j)
unfolding check_rate_limit
check_rate_limit-get_window now key limit window increment windows j =
    rw get_window-set_window (ground (arith, eq_iff key j))
