-- ===== src/RateLimiter.antt =====
-- src/app/services/rate_limiter.py: the sliding-window limiter. A time is a whole number of ticks
-- of the clock (the program reads a float); limits are integers of any sign, and increments are
-- counts. The dictionary of windows is a list of its entries, and a missing key is an empty window.
pub mod Window
pub mod History
pub mod Retry
use makoto_lite_llm.Base.{
  ℕ, ◌+◌, String, Bool, true, false, Option, none, some, List, [], ◌∷◌, ◌++◌, keep, ◌==◌, string_eq,
  if◌then◌else◌,
}
use makoto_lite_llm.Base.Int.{ℤ, pos, ◌-ℤ◌, ltb_ℤ, max_zero}

pub record RateLimitResult : Type 0 where
  pub allowed : Bool
  pub remaining : ℤ
  pub retry_after : ℤ

-- (timestamp, increment), the oldest first
abbrev pub Entries : Type 0
Entries = List (ℤ × ℕ)

-- `self._windows`
abbrev pub Windows : Type 0
Windows = List (String × Entries)

unfoldable pub get_window : Windows → String → Entries
get_window [] key = []
get_window ((k, entries) ∷ windows) key = if k == key then entries else get_window windows key

unfoldable pub set_window : Windows → String → Entries → Windows
set_window [] key entries = (key, entries) ∷ []
set_window ((k, old) ∷ windows) key entries =
    if k == key then (k, entries) ∷ windows else (k, old) ∷ set_window windows key entries

-- `self._windows.pop(key, None)`
unfoldable pub reset : Windows → String → Windows
reset [] key = []
reset ((k, entries) ∷ windows) key =
    if k == key then reset windows key else (k, entries) ∷ reset windows key

-- `[(ts, inc) for ts, inc in entries if ts > cutoff]`
unfoldable pub prune : ℤ → Entries → Entries
prune cutoff entries = keep (λ e. ltb_ℤ cutoff e.0) entries

-- `sum(inc for _, inc in entries)`
unfoldable pub usage : Entries → ℕ
usage [] = 0
usage ((ts, inc) ∷ entries) = inc + usage entries

-- `entries[0][0] - cutoff if entries else 0.0`
abbrev until_first : ℤ → Entries → ℤ
until_first cutoff [] = pos 0
until_first cutoff ((ts, inc) ∷ entries) = ts -ℤ cutoff

-- the test and the two results, on the window of the key
unfoldable pub decide_window : ℤ → ℤ → ℤ → ℕ → Entries → RateLimitResult × Entries
unfolding prune usage
decide_window now limit window_seconds increment old =
    let cutoff = now -ℤ window_seconds in
    let entries = prune cutoff old in
    let current = usage entries in
    if ltb_ℤ limit (pos (current + increment))
    then (
      record {
        allowed = false;
        remaining = max_zero (limit -ℤ pos current);
        retry_after = max_zero (until_first cutoff entries);
      },
      entries,
    )
    else (
      record {
        allowed = true;
        remaining = limit -ℤ pos current -ℤ pos increment;
        retry_after = pos 0;
      },
      entries ++ (now, increment) ∷ [],
    )

unfoldable pub check_rate_limit : ℤ → String → ℤ → ℤ → ℕ → Windows → RateLimitResult × Windows
unfolding get_window set_window decide_window
check_rate_limit now key limit window_seconds increment windows =
    let (result, entries) =
      decide_window now limit window_seconds increment (get_window windows key) in
    (result, set_window windows key entries)
