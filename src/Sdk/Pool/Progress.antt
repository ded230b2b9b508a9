-- ===== src/Sdk/Pool/Progress.antt =====
-- No call of `_get_client` is stuck: whatever the other tasks do, its task can be run to its return.
use makoto_lite_llm.Base.{
  ℕ, String, ◌≡◌, refl, sym, ap, ◌∙◌, false, Bool-cases, inl, inr, none, some, Option-cases, ◌==◌,
  ◌⊎◌, nat_beq_iff, nat_eq,
}
use makoto_lite_llm.Sdk.Pool.{
  Task, looking, waiting, holding, returned, Pool, new_pool, find_client, set_task, get_or_create,
  Step, begins, finds, misses, acquires, releases, release, Reach, here, next,
}

-- the task that has the lock is the one in the block of the lock
abbrev IsHeld : Pool → Type 0
IsHeld p =
    (j : ℕ)
    → (p.holder ≡ some j → (b : String) × (k : String) × (p.tasks j ≡ holding b k))
      × ((b k : String) → p.tasks j ≡ holding b k → p.holder ≡ some j)

differs : (i j : ℕ) → (j == i) ≡ false → ¬ (i ≡ j)
differs i j h e = cc (rw (e, (nat_beq_iff j j).1 refl) at h)

set_task_own : (i : ℕ) (t : Task) (tasks : ℕ → Task) → set_task i t tasks i ≡ t
set_task_own i t tasks = rw ((nat_beq_iff i i).1 refl) refl

set_task_other :
    (i j : ℕ) (t : Task) (tasks : ℕ → Task) → (j == i) ≡ false → set_task i t tasks j ≡ tasks j
set_task_other i j t tasks h = rw h refl

-- a step of a task that neither is in the block of the lock nor enters it
outside :
    (p : Pool) (i : ℕ) (t : Task)
    → ((b k : String) → ¬ (p.tasks i ≡ holding b k))
    → ((b k : String) → ¬ (t ≡ holding b k))
    → IsHeld p
    → IsHeld (record p { tasks = set_task i t p.tasks })
outside p i t was_out is_out h j = elim (Bool-cases (j == i)) [
  | inl own ↦
      let same = ap p.tasks (sym ((nat_beq_iff j i).0 own)) in
      (
        λ e. let (b, k, x) = (h j).0 e in absurd (was_out b k (same ∙ x)),
        λ b k e. absurd (is_out b k (rw own at e)),
      )
  | inr other ↦ rw other (h j)
]

get_or_create-tasks : (b k : String) (p : Pool) → (get_or_create b k p).1.tasks ≡ p.tasks
unfolding get_or_create
get_or_create-tasks b k p = elim (Option-cases (find_client b k p.clients)) [
  | inl absent ↦ rw absent refl
  | inr (c, found) ↦ rw found refl
]

taken :
    (p : Pool) (i : ℕ) (b k : String)
    → p.holder ≡ none
    → IsHeld p
    → IsHeld (record p { holder = some i; tasks = set_task i (holding b k) p.tasks })
taken p i b k free h j = elim (Bool-cases (j == i)) [
  | inl own ↦ (λ e. (b, k, rw own refl), λ b' k' x. ap some (sym ((nat_beq_iff j i).0 own)))
  | inr other ↦
      (λ e. absurd (differs i j other (cc e)), λ b' k' x. cc (free, (h j).1 b' k' (rw other at x)))
]

given_back :
    (p : Pool) (i : ℕ) (b k : String) → p.holder ≡ some i → IsHeld p → IsHeld (release i b k p)
given_back p i b k held h j = (
  λ e. cc e,
  λ b' k' x. elim (Bool-cases (j == i)) [
    | inl own ↦ cc (rw own at x)
    | inr other ↦
        let y = (h j).1 b' k' (sym (ap (λ t. t j) (get_or_create-tasks b k p)) ∙ (rw other at x)) in
        absurd (differs i j other (cc (held, y)))
  ],
)

Step-IsHeld : {p q : Pool} → Step p q → IsHeld p → IsHeld q
Step-IsHeld {p} (begins i b k e) h =
    outside p i (looking b k) (λ b' k' x. cc (e, x)) (λ b' k' x. cc x) h
Step-IsHeld {p} (finds i b k c e found) h =
    outside p i (returned b k c) (λ b' k' x. cc (e, x)) (λ b' k' x. cc x) h
Step-IsHeld {p} (misses i b k e absent) h =
    outside p i (waiting b k) (λ b' k' x. cc (e, x)) (λ b' k' x. cc x) h
Step-IsHeld {p} (acquires i b k e free) h = taken p i b k free h
Step-IsHeld {p} (releases i b k e held) h = given_back p i b k held h

Reach-IsHeld : {p q : Pool} → IsHeld p → Reach p q → IsHeld q
Reach-IsHeld h here = h
Reach-IsHeld h (next r step) = Step-IsHeld step (Reach-IsHeld h r)

-- `p` can be run to a state in which task `i` has returned, with a client for its own base and key
abbrev pub CanReturn : ℕ → String → String → Pool → Type 0
CanReturn i b k p = (q : Pool) × Reach p q × ((c : ℕ) × (q.tasks i ≡ returned b k c))

before : {p q r : Pool} → Step p q → Reach q r → Reach p r
before step here = next here step
before step (next reached last) = next (before step reached) last

after_step : {p q : Pool} {i : ℕ} {b k : String} → Step p q → CanReturn i b k q → CanReturn i b k p
after_step step (r, reached, done) = (r, before step reached, done)

module _ (i : ℕ) (b k : String) where
  from_holding : (p : Pool) → p.tasks i ≡ holding b k → p.holder ≡ some i → CanReturn i b k p
  from_holding p e held = (
    release i b k p,
    next here (releases i b k e held),
    (
      (get_or_create b k p).0,
      set_task_own i (returned b k (get_or_create b k p).0) (get_or_create b k p).1.tasks,
    ),
  )

  from_free : (p : Pool) → p.tasks i ≡ waiting b k → p.holder ≡ none → CanReturn i b k p
  from_free p e free = after_step (acquires i b k e free) (
      from_holding (record p { holder = some i; tasks = set_task i (holding b k) p.tasks })
        (set_task_own i (holding b k) p.tasks) refl)

  still_waiting :
      (p : Pool) (j : ℕ) (b' k' : String)
      → p.tasks i ≡ waiting b k
      → p.tasks j ≡ holding b' k'
      → (release j b' k' p).tasks i ≡ waiting b k
  still_waiting p j b' k' e x = elim (Bool-cases (i == j)) [
    | inl own ↦ cc (e, x, (nat_beq_iff i j).0 own)
    | inr other ↦ rw (other, get_or_create-tasks b' k' p) e
  ]

  -- the task that has the lock returns first
  from_waiting : (p : Pool) → IsHeld p → p.tasks i ≡ waiting b k → CanReturn i b k p
  from_waiting p h e = elim (Option-cases p.holder) [
    | inl free ↦ from_free p e free
    | inr (j, held) ↦
        let (b', k', x) = (h j).0 held in
        after_step (releases j b' k' x held)
          (from_free (release j b' k' p) (still_waiting p j b' k' e x) refl)
  ]

  from_looking : (p : Pool) → IsHeld p → p.tasks i ≡ looking b k → CanReturn i b k p
  from_looking p h e = elim (Option-cases (find_client b k p.clients)) [
    | inl absent ↦
        let step = misses i b k e absent in
        after_step step (
          from_waiting (record p { tasks = set_task i (waiting b k) p.tasks }) (Step-IsHeld step h)
            (set_task_own i (waiting b k) p.tasks))
    | inr (c, found) ↦ (
      record p { tasks = set_task i (returned b k c) p.tasks },
      next here (finds i b k c e found),
      (c, set_task_own i (returned b k c) p.tasks),
    )
  ]

-- No call is stuck: from every state that the tasks of a new pool reach, a call that has begun and not returned, be it
-- at its first look, at the lock or in its block, can be run to its return.
pub get_client_returns :
    (p : Pool) (i : ℕ) (b k : String)
    → Reach new_pool p
    → (p.tasks i ≡ looking b k) ⊎ ((p.tasks i ≡ waiting b k) ⊎ (p.tasks i ≡ holding b k))
    → CanReturn i b k p
get_client_returns p i b k reached busy =
    let h = Reach-IsHeld {p = new_pool} (λ j. (λ e. cc e, λ b k e. cc e)) reached in
    elim busy [
      | inl e ↦ from_looking i b k p h e
      | inr (inl e) ↦ from_waiting i b k p h e
      | inr (inr e) ↦ from_holding i b k p e ((h i).1 b k e)
    ]
