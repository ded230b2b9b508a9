-- ===== src/RateLimiter/History.antt =====
-- Whole histories of checks, over all keys.
use mathlib.Core.List.{append-nil, append_assoc}
use makoto_lite_llm.Base.{
  ℕ, ◌+◌, ◌≤◌, String, ◌≡◌, refl, Bool, true, ◌&&◌, List, [], ◌∷◌, ◌++◌, keep, keep-append,
  keep-keep, ◌==◌, string_eq, eq_iff, eq_refl, arith, if◌then◌else◌, Bool-cases, inl, inr,
}
use makoto_lite_llm.Base.Int.{ℤ, pos, ◌-ℤ◌, ◌≤ℤ◌, ltb_ℤ, leb_ℤ, -ℤ_parts, int_laws}
use makoto_lite_llm.RateLimiter.{
  Entries, Windows, get_window, prune, usage, decide_window, check_rate_limit,
}
use makoto_lite_llm.RateLimiter.Window.{
  usage-append, check_rate_limit-get_window, decide_window-allowed,
}

-- one call of `check_rate_limit`, with the time at which it reads the clock
pub record Call : Type 0 where
  pub now : ℤ
  pub key : String
  pub limit : ℤ
  pub window_seconds : ℤ
  pub increment : ℕ

-- the result of a call for this key is recorded where it was allowed
abbrev record_grant : String → Call → Bool → Entries
record_grant key c allowed =
    if c.key == key then (if allowed then (c.now, c.increment) ∷ [] else []) else []

-- What the calls for one key were granted, in order.
unfoldable pub grants : String → List Call → Windows → Entries
grants key [] windows = []
grants key (c ∷ calls) windows =
    let (result, windows') =
      check_rate_limit c.now c.key c.limit c.window_seconds c.increment windows in
    record_grant key c result.allowed ++ grants key calls windows'

-- The entries with `t - window < ts ≤ t`.
abbrev pub in_window : ℤ → ℤ → Entries → Entries
in_window window t entries = keep (λ e. ltb_ℤ (t -ℤ window) e.0 && leb_ℤ e.0 t) entries

-- Time does not run backwards, and the calls for the key have one limit and one window.
abbrev pub IsSteady : String → ℤ → ℤ → ℤ → List Call → Type 0
IsSteady key limit window last [] = Unit
IsSteady key limit window last (c ∷ calls) =
    (last ≤ℤ c.now)
    × (c.key ≡ key → (c.limit ≡ limit) × (c.window_seconds ≡ window))
    × IsSteady key limit window c.now calls

abbrev granted_entry : ℤ → ℕ → Bool → Entries
granted_entry now increment allowed = if allowed then (now, increment) ∷ [] else []

-- what the window of a key has to do with the grants so far
record Tracks (limit window last : ℤ) (granted entries : Entries) : Type 0 where
  pruned : (now : ℤ) → last ≤ℤ now → prune (now -ℤ window) entries ≡ prune (now -ℤ window) granted
  bounded : (t : ℤ) → pos (usage (in_window window t granted)) ≤ℤ limit

usage-keep-le :
    (p q : ℤ × ℕ → Bool)
    → ((x : ℤ × ℕ) → p x ≡ true → q x ≡ true)
    → (xs : Entries) → usage (keep p xs) ≤ usage (keep q xs)
unfolding usage
usage-keep-le p q h [] = omega arith
usage-keep-le p q h (x ∷ xs) = ground (arith, h x, usage-keep-le p q h xs)

decide_window-entries :
    (now limit window : ℤ) (increment : ℕ) (entries : Entries)
    → let (result, entries') = decide_window now limit window increment entries in
      entries' ≡ prune (now -ℤ window) entries ++ granted_entry now increment result.allowed
unfolding decide_window
decide_window-entries now limit window increment entries =
    elim (Bool-cases (ltb_ℤ limit (pos (usage (prune (now -ℤ window) entries) + increment)))) [
      | inl over ↦ rw (over, append-nil)
      | inr under ↦ rw under
    ]

prune-prune : (a b : ℤ) (xs : Entries) → a ≤ℤ b → prune b (prune a xs) ≡ prune b xs
unfolding prune
prune-prune a b xs h = keep-keep (λ e. ltb_ℤ a e.0) (λ e. ltb_ℤ b e.0) (λ e p. ground arith) xs

prune-append : (c : ℤ) (xs ys : Entries) → prune c (xs ++ ys) ≡ prune c xs ++ prune c ys
unfolding prune
prune-append c xs ys = keep-append (λ e. ltb_ℤ c e.0) xs ys

-- a window that ends at or after `now` holds, of older grants, no more than the pruned list
in_window-le :
    (window now t : ℤ) (xs : Entries)
    → now ≤ℤ t
    → usage (in_window window t xs) ≤ usage (prune (now -ℤ window) xs)
unfolding prune
in_window-le window now t xs h =
    usage-keep-le (λ e. ltb_ℤ (t -ℤ window) e.0 && leb_ℤ e.0 t) (λ e. ltb_ℤ (now -ℤ window) e.0)
      (λ e p. ground (arith, -ℤ_parts t window, -ℤ_parts now window)) xs

module _ (limit window now : ℤ) (increment : ℕ) (granted : Entries) where
  grant-bounded :
      (t : ℤ)
      → pos (usage (in_window window t granted)) ≤ℤ limit
      → pos (usage (prune (now -ℤ window) granted) + increment) ≤ℤ limit
      → pos (usage (in_window window t (granted ++ (now, increment) ∷ []))) ≤ℤ limit
  grant-bounded t old new = elim (Bool-cases (ltb_ℤ (t -ℤ window) now && leb_ℤ now t)) [
    | inl inside ↦
        rw (keep-append, usage-append, inside)
          (unfold usage in omega (arith, in_window-le window now t granted (le_of_inside inside)))
    | inr outside ↦ rw (keep-append, usage-append, outside) (unfold usage in omega arith)
  ]
    where
      le_of_inside : (ltb_ℤ (t -ℤ window) now && leb_ℤ now t) ≡ true → now ≤ℤ t
      le_of_inside h = ground arith

step-Tracks :
    (limit window last now : ℤ) (increment : ℕ) (granted entries : Entries)
    → Tracks limit window last granted entries
    → last ≤ℤ now
    → let (result, entries') = decide_window now limit window increment entries in
      Tracks limit window now (granted ++ granted_entry now increment result.allowed) entries'
step-Tracks limit window last now increment granted entries h later =
    let (result, entries') = decide_window now limit window increment entries in
    record {
      pruned = λ n after.
          rw
            (
              decide_window-entries now limit window increment entries,
              prune-append,
              prune-append,
              prune-prune (now -ℤ window) (n -ℤ window) entries (omega int_laws),
              h.pruned n (omega arith),
            )
            refl;
      bounded = λ t. elim (Bool-cases result.allowed) [
        | inl yes_allowed ↦ rw yes_allowed (
            grant-bounded limit window now increment granted t (h.bounded t) (
              rw (← h.pruned now later)
                ((decide_window-allowed now limit window increment entries).0.0 yes_allowed)))
        | inr refused ↦ rw (refused, append-nil) (h.bounded t)
      ];
    }

check_rate_limit-result :
    (now : ℤ) (key : String) (limit window : ℤ) (increment : ℕ) (windows : Windows)
    → (check_rate_limit now key limit window increment windows).0
      ≡ (decide_window now limit window increment (get_window windows key)).0
unfolding check_rate_limit
check_rate_limit-result now key limit window increment windows = refl

-- a call for the key, when its limit and its window are the expected ones
own_call-Tracks :
    (c : Call) (key : String) (limit window last : ℤ) (granted : Entries) (windows : Windows)
    → c.key ≡ key
    → c.limit ≡ limit
    → c.window_seconds ≡ window
    → last ≤ℤ c.now
    → Tracks limit window last granted (get_window windows key)
    → let (result, windows') =
        check_rate_limit c.now c.key c.limit c.window_seconds c.increment windows in
      Tracks limit window c.now
        (granted ++ granted_entry c.now c.increment result.allowed)
        (get_window windows' key)
own_call-Tracks c key limit window last granted windows ek el ew later h =
    rw
      (
        check_rate_limit-get_window c.now c.key c.limit c.window_seconds c.increment windows key,
        check_rate_limit-result c.now c.key c.limit c.window_seconds c.increment windows,
        ek,
        eq_refl key,
        el,
        ew,
      )
      (step-Tracks limit window last c.now c.increment granted (get_window windows key) h later)

call-Tracks :
    (c : Call) (key : String) (limit window last : ℤ) (granted : Entries) (windows : Windows)
    → (c.key ≡ key → (c.limit ≡ limit) × (c.window_seconds ≡ window))
    → last ≤ℤ c.now
    → Tracks limit window last granted (get_window windows key)
    → let (result, windows') =
        check_rate_limit c.now c.key c.limit c.window_seconds c.increment windows in
      Tracks limit window c.now
        (granted ++ record_grant key c result.allowed)
        (get_window windows' key)
call-Tracks c key limit window last granted windows steady later h =
    elim (Bool-cases (c.key == key)) [
      | inl own ↦
          let e = (eq_iff c.key key).0 own in
          rw own (
            own_call-Tracks c key limit window last granted windows e (steady e).0 (steady e).1
              later h)
      | inr other ↦
          rw
            (
              check_rate_limit-get_window c.now c.key c.limit c.window_seconds c.increment windows
                  key,
              other,
              append-nil,
            )
            (record { pruned = λ n after. h.pruned n (omega arith); bounded = h.bounded })
    ]

module _ (key : String) (limit window : ℤ) where
  grants-bounded :
      (calls : List Call) (windows : Windows) (last : ℤ) (granted : Entries)
      → IsSteady key limit window last calls
      → Tracks limit window last granted (get_window windows key)
      → (t : ℤ) → pos (usage (in_window window t (granted ++ grants key calls windows))) ≤ℤ limit
  unfolding grants
  grants-bounded [] windows last granted steady h t = rw append-nil (h.bounded t)
  grants-bounded (c ∷ calls) windows last granted steady h t =
      let (result, windows') =
        check_rate_limit c.now c.key c.limit c.window_seconds c.increment windows in
      rw (← append_assoc) (
        grants-bounded calls windows' c.now (granted ++ record_grant key c result.allowed) steady.2
          (call-Tracks c key limit window last granted windows steady.1 steady.0 h) t)

-- If the limit is not negative, time does not run backwards, and the calls for a key have one limit and
-- one window, then the increments granted for the key within any interval of the length of the window add
-- up to the limit at most, from an empty limiter and with calls for other keys in between.
pub window_never_over :
    (key : String) (limit window start : ℤ) (calls : List Call)
    → pos 0 ≤ℤ limit
    → IsSteady key limit window start calls
    → (t : ℤ) → pos (usage (in_window window t (grants key calls []))) ≤ℤ limit
unfolding get_window prune usage
window_never_over key limit window start calls h steady t =
    grants-bounded key limit window calls [] start [] steady
      (record { pruned = λ now after. refl; bounded = λ t'. h }) t
