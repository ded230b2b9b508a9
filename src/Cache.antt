-- ===== src/Cache.antt =====
-- `cachetools.TTLCache`, a library: the operations that the program calls, at the time of the call,
-- and what its documentation says of them. An entry lives for `ttl` from its insertion, and an
-- insertion may evict other entries.
use makoto_lite_llm.Base.{ℕ, ◌+◌, ◌≤◌, ◌<◌, ◌≡◌, ◌≢◌, ◌⊎◌, Option, none, some}

pub record TtlCache (K V : Type 0) : Type 1 where
  pub Store : Type 0
  pub ttl : ℕ
  pub get : ℕ → K → Store → Option V
  pub put : ℕ → K → V → Store → Store
  -- `pop(key, None)` without its value
  pub remove : K → Store → Store
  pub get-put_self :
      (now later : ℕ) (k : K) (v : V) (c : Store)
      → now ≤ later
      → later < now + ttl
      → get later k (put now k v c) ≡ some v
  pub get-put_expired :
      (now later : ℕ) (k : K) (v : V) (c : Store)
      → now + ttl ≤ later
      → get later k (put now k v c) ≡ none
  pub get-put_ne :
      (now later : ℕ) (k j : K) (v : V) (c : Store)
      → k ≢ j
      → (get later j (put now k v c) ≡ get later j c) ⊎ (get later j (put now k v c) ≡ none)
  pub get-remove_self : (now : ℕ) (k : K) (c : Store) → get now k (remove k c) ≡ none
  pub get-remove_ne : (now : ℕ) (k j : K) (c : Store) → k ≢ j → get now j (remove k c) ≡ get now j c
