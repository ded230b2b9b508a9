-- ===== src/Sdk/Pool/Sharing.antt =====
-- What all interleavings of the tasks share: one client for each pair of base and key.
use makoto_lite_llm.Base.{
  ℕ, zero, suc, ◌<◌, String, ◌≡◌, ◌⊎◌, ◌↔◌, refl, sym, ap, ◌∙◌, true, ◌&&◌, Bool-cases, inl, inr,
  Option, none, some, Option-cases, List, [], ◌∷◌, ◌++◌, map, ◌==◌, nat_eq, string_eq, eq_iff,
  eq_refl, arith, if◌then◌else◌,
}
use mathlib.Core.List.{map-append}
use makoto_lite_llm.Sdk.Pool.{
  Entry, Task, looking, waiting, holding, returned, Pool, new_pool, find_client, set_task,
  get_or_create, Step, begins, finds, misses, acquires, releases, release, Reach, here, next,
  aclose_all,
}

find_kept :
    (b k : String) (c : ℕ) (xs ys : List Entry)
    → find_client b k xs ≡ some c
    → find_client b k (xs ++ ys) ≡ some c
unfolding find_client
find_kept b k c [] ys h = cc h
find_kept b k c (e ∷ xs) ys h = ground (arith, find_kept b k c xs ys)

find_new :
    (b k : String) (xs : List Entry) (e : Entry)
    → find_client b k xs ≡ none
    → find_client b k (xs ++ e ∷ [])
      ≡ (if e.api_base == b && e.api_key == k then some e.client else none)
unfolding find_client
find_new b k [] e h = refl
find_new b k (x ∷ xs) e h = ground (arith, find_new b k xs e)

-- the numbers below the given one, in their order
unfoldable pub count_up : ℕ → List ℕ
count_up zero = []
count_up (suc n) = count_up n ++ n ∷ []

pub record IsConsistent (p : Pool) : Type 0 where
  pub agreed :
      (i : ℕ) (b k : String) (c : ℕ)
      → p.tasks i ≡ returned b k c
      → find_client b k p.clients ≡ some c
  pub bounded : (b k : String) (c : ℕ) → find_client b k p.clients ≡ some c → c < p.created
  pub isolated :
      (b k b' k' : String) (c : ℕ)
      → find_client b k p.clients ≡ some c
      → find_client b' k' p.clients ≡ some c
      → (b ≡ b') × (k ≡ k')
  pub numbered : map (λ e. e.client) p.clients ≡ count_up p.created

agreed_set :
    (tasks : ℕ → Task) (clients : List Entry) (i : ℕ) (t : Task)
    → ((j : ℕ) (b k : String) (c : ℕ) → tasks j ≡ returned b k c → find_client b k clients ≡ some c)
    → ((b k : String) (c : ℕ) → t ≡ returned b k c → find_client b k clients ≡ some c)
    → (j : ℕ) (b k : String) (c : ℕ) → set_task i t tasks j ≡ returned b k c
    → find_client b k clients ≡ some c
agreed_set tasks clients i t old new j b k c h = elim (Bool-cases (j == i)) [
  | inl own ↦ new b k c (rw own at h)
  | inr other ↦ old j b k c (rw other at h)
]

-- a step that changes one task, whose new place is no result
retasked :
    {p : Pool} (holder : Option ℕ) (i : ℕ) (t : Task)
    → IsConsistent p
    → ((b k : String) (c : ℕ) → t ≡ returned b k c → find_client b k p.clients ≡ some c)
    → IsConsistent (record p { holder = holder; tasks = set_task i t p.tasks })
retasked {p} holder i t h new = record {
  agreed = agreed_set p.tasks p.clients i t h.agreed new;
  bounded = h.bounded;
  isolated = h.isolated;
  numbered = h.numbered;
}

same_entry :
    (e : Entry) (b k : String)
    → (e.api_base == b && e.api_key == k) ≡ true
    → (e.api_base ≡ b) × (e.api_key ≡ k)
same_entry e b k h = ground (arith, eq_iff e.api_base b, eq_iff e.api_key k)

module _ (p : Pool) (b k : String) (absent : find_client b k p.clients ≡ none) where
  abbrev entry : Entry
  entry = record { api_base = b; api_key = k; client = p.created }

  found_new : find_client b k (p.clients ++ entry ∷ []) ≡ some p.created
  found_new = rw (find_new b k p.clients entry absent, eq_refl b, eq_refl k) refl

  -- what is found afterwards was found before, or is the new client under its own pair
  found_after :
      (b' k' : String) (c : ℕ)
      → find_client b' k' (p.clients ++ entry ∷ []) ≡ some c
      → (find_client b' k' p.clients ≡ some c) ⊎ ((b ≡ b') × (k ≡ k') × (c ≡ p.created))
  found_after b' k' c h = elim (Option-cases (find_client b' k' p.clients)) [
    | inr (d, old) ↦ inl (old ∙ sym (find_kept b' k' d p.clients (entry ∷ []) old) ∙ h)
    | inl none_old ↦ elim (Bool-cases (b == b' && k == k')) [
      | inl own ↦
          let (e, f) = same_entry entry b' k' own in
          let g = rw (find_new b' k' p.clients entry none_old, own) at h in inr (e, f, cc g)
      | inr other ↦ cc (rw (find_new b' k' p.clients entry none_old, other) at h)
    ]
  ]

  abbrev After : String → String → ℕ → Type 0
  After b' k' c = (find_client b' k' p.clients ≡ some c) ⊎ ((b ≡ b') × (k ≡ k') × (c ≡ p.created))

  apart :
      IsConsistent p
      → (b' k' b'' k'' : String) (c : ℕ) → After b' k' c
      → After b'' k'' c
      → (b' ≡ b'') × (k' ≡ k'')
  apart h b' k' b'' k'' c (inl e) (inl f) = h.isolated b' k' b'' k'' c e f
  apart h b' k' b'' k'' c (inl e) (inr (_, _, new)) = absurd (omega (arith, h.bounded b' k' c e))
  apart h b' k' b'' k'' c (inr (_, _, new)) (inl f) = absurd (omega (arith, h.bounded b'' k'' c f))
  apart h b' k' b'' k'' c (inr (x, y, _)) (inr (x', y', _)) = (sym x ∙ x', sym y ∙ y')

  created-IsConsistent :
      (i : ℕ)
      → IsConsistent p
      → IsConsistent (record p {
        clients = p.clients ++ entry ∷ [];
        created = suc p.created;
        holder = none;
        tasks = set_task i (returned b k p.created) p.tasks;
      })
  unfolding count_up
  created-IsConsistent i h = record {
    agreed =
        agreed_set p.tasks (p.clients ++ entry ∷ []) i (returned b k p.created)
          (λ j b' k' c e. find_kept b' k' c p.clients (entry ∷ []) (h.agreed j b' k' c e))
          (λ b' k' c e. cc (found_new, e));
    bounded = λ b' k' c e. elim (found_after b' k' c e) [
      | inl old ↦ omega (arith, h.bounded b' k' c old)
      | inr (_, _, new) ↦ omega arith
    ];
    isolated = λ b' k' b'' k'' c e f.
        apart h b' k' b'' k'' c (found_after b' k' c e) (found_after b'' k'' c f);
    numbered =
        map-append (λ e. e.client) p.clients (entry ∷ [])
        ∙ ap (λ l. l ++ p.created ∷ []) h.numbered;
  }

released : (p : Pool) (i : ℕ) (b k : String) → IsConsistent p → IsConsistent (release i b k p)
unfolding get_or_create
released p i b k h = elim (Option-cases (find_client b k p.clients)) [
  | inl absent ↦ rw absent (created-IsConsistent p b k absent i h)
  | inr (c, found) ↦ rw found (retasked none i (returned b k c) h (λ b' k' c' e. cc (found, e)))
]

Step-IsConsistent : {p q : Pool} → Step p q → IsConsistent p → IsConsistent q
Step-IsConsistent {p} (begins i b k e) h = retasked p.holder i (looking b k) h (λ b' k' c' x. cc x)
Step-IsConsistent {p} (finds i b k c e found) h =
    retasked p.holder i (returned b k c) h (λ b' k' c' x. cc (found, x))
Step-IsConsistent {p} (misses i b k e absent) h =
    retasked p.holder i (waiting b k) h (λ b' k' c' x. cc x)
Step-IsConsistent {p} (acquires i b k e free) h =
    retasked (some i) i (holding b k) h (λ b' k' c' x. cc x)
Step-IsConsistent {p} (releases i b k e held) h = released p i b k h

new_pool-IsConsistent : IsConsistent new_pool
unfolding find_client count_up
new_pool-IsConsistent = record {
  agreed = λ i b k c e. cc e;
  bounded = λ b k c e. cc e;
  isolated = λ b k b' k' c e f. cc e;
  numbered = refl;
}

Reach-IsConsistent : {p q : Pool} → IsConsistent p → Reach p q → IsConsistent q
Reach-IsConsistent h here = h
Reach-IsConsistent h (next r step) = Step-IsConsistent step (Reach-IsConsistent h r)

-- However the tasks of a new pool interleave, two tasks that have returned have the same client exactly when they gave
-- the same base and the same key; and a shutdown at that point closes every client that was created, each once.
pub get_client_shared :
    (p : Pool) (i j : ℕ) (b k b' k' : String) (c c' : ℕ)
    → Reach new_pool p
    → p.tasks i ≡ returned b k c
    → p.tasks j ≡ returned b' k' c'
    → ((c ≡ c') ↔ ((b ≡ b') × (k ≡ k')))
      × ((aclose_all p).closed ≡ p.closed ++ count_up p.created)
      × ((aclose_all p).clients ≡ [])
unfolding aclose_all
get_client_shared p i j b k b' k' c c' reached first second =
    let h = Reach-IsConsistent new_pool-IsConsistent reached in
    let e = h.agreed i b k c first in
    let f = h.agreed j b' k' c' second in
    (
      (λ same. h.isolated b k b' k' c e (f ∙ ap some (sym same)), λ (x, y). cc (e, f, x, y)),
      ap (λ l. p.closed ++ l) h.numbered,
      refl,
    )
