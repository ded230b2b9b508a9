-- ===== src/Store/Queries.antt =====
-- Queries after updates: what a filter finds in a table whose rows were changed, added or removed.
use makoto_lite_llm.Base.{
  ◌≡◌, refl, Bool, true, false, not, ◌&&◌, some, List, [], ◌∷◌, ok, keep, any, map_where, arith,
  Bool-cases, inl, inr,
}
use makoto_lite_llm.Store.{Db, Session, scalar_one_or_none, scalar_one, insert_unique}

module _ {R : Type 0} where
  pub scalar_one_or_none-some :
      (rows : List R) (r : R) → scalar_one_or_none rows ≡ ok (some r) → rows ≡ r ∷ []
  scalar_one_or_none-some [] r e = cc
  scalar_one_or_none-some (x ∷ []) r e = cc
  scalar_one_or_none-some (x ∷ y ∷ rows) r e = cc

  pub scalar_one-ok : (rows : List R) (r : R) → scalar_one rows ≡ ok r → rows ≡ r ∷ []
  scalar_one-ok [] r e = cc
  scalar_one-ok (x ∷ []) r e = cc
  scalar_one-ok (x ∷ y ∷ rows) r e = cc

  -- the row that a query finds passes its test
  pub keep-head : (p : R → Bool) (rows rest : List R) (r : R) → keep p rows ≡ r ∷ rest → p r ≡ true
  keep-head p [] rest r e = cc
  keep-head p (x ∷ rows) rest r e = elim (Bool-cases (p x)) [
    | inl kept ↦ cc (kept, rw kept at e)
    | inr gone ↦ keep-head p rows rest r (rw gone at e)
  ]

  -- An update that the test does not see commutes with the query.
  pub keep-map_where :
      (p q : R → Bool) (f : R → R)
      → ((r : R) → p (f r) ≡ p r)
      → (rows : List R) → keep p (map_where q f rows) ≡ map_where q f (keep p rows)
  keep-map_where p q f same [] = refl
  keep-map_where p q f same (x ∷ rows) = ground (arith, same x, keep-map_where p q f same rows)

  -- An update of rows that the test passes neither before nor after.
  pub keep-map_where_out :
      (p q : R → Bool) (f : R → R)
      → ((r : R) → q r ≡ true → p r ≡ false)
      → ((r : R) → q r ≡ true → p (f r) ≡ false)
      → (rows : List R) → keep p (map_where q f rows) ≡ keep p rows
  keep-map_where_out p q f was is [] = refl
  keep-map_where_out p q f was is (x ∷ rows) =
      ground (arith, was x, is x, keep-map_where_out p q f was is rows)

  -- An update that takes the one row out of the query's rows.
  keep-map_where_nil :
      (p q : R → Bool) (f : R → R)
      → ((r : R) → p (f r) ≡ false)
      → (rows : List R) → keep p rows ≡ []
      → keep p (map_where q f rows) ≡ []
  keep-map_where_nil p q f out [] e = refl
  keep-map_where_nil p q f out (x ∷ rows) e = elim (Bool-cases (p x)) [
    | inl kept ↦ cc (rw kept at e)
    | inr gone ↦ ground (arith, out x, keep-map_where_nil p q f out rows (rw gone at e))
  ]

  pub keep-map_where_takes :
      (p q : R → Bool) (f : R → R) (r : R)
      → ((x : R) → p (f x) ≡ false)
      → (rows : List R) → q r ≡ true
      → keep p rows ≡ r ∷ []
      → keep p (map_where q f rows) ≡ []
  keep-map_where_takes p q f r out [] h e = cc
  keep-map_where_takes p q f r out (x ∷ rows) h e = elim (Bool-cases (p x)) [
    | inl kept ↦
        let e' : x ∷ keep p rows ≡ r ∷ [] = rw kept at e in
        ground (arith, out x, h, e', keep-map_where_nil p q f out rows)
    | inr gone ↦ ground (arith, out x, keep-map_where_takes p q f r out rows h (rw gone at e))
  ]

  -- Rows that a `delete` removes are found no more, and a query for other rows finds what it did.
  pub keep-keep-not : (p : R → Bool) (rows : List R) → keep p (keep (λ r. not (p r)) rows) ≡ []
  keep-keep-not p [] = refl
  keep-keep-not p (x ∷ rows) = ground (arith, keep-keep-not p rows)

-- An insertion that raises nothing has met no row with its unique value, and has changed the tables.
pub insert_unique-ok :
    {F : Type 0} (taken : Db F → Bool) (change : Db F → Db F) (s : Session F) {u : Unit {0}}
    → (insert_unique taken change s).0 ≡ ok u
    → (taken s.current ≡ false)
      × (insert_unique taken change s ≡ (ok tt, record s { current = change s.current }))
insert_unique-ok taken change s h = elim (Bool-cases (taken s.current)) [
  | inl clash ↦ cc (rw clash at h)
  | inr free ↦ (free, rw free)
]

-- A query for fewer rows finds none where a query for more finds none.
pub keep_fewer :
    {R : Type 0} (p q : R → Bool)
    → ((r : R) → q r ≡ true → p r ≡ true)
    → (rows : List R) → keep p rows ≡ []
    → keep q rows ≡ []
keep_fewer p q h [] e = refl
keep_fewer p q h (x ∷ rows) e = elim (Bool-cases (p x)) [
  | inl kept ↦ cc (rw kept at e)
  | inr gone ↦ ground (arith, h x, gone, keep_fewer p q h rows (rw gone at e))
]

-- A query finds none where no row has the wider property.
pub keep_of_any :
    {R : Type 0} (p q : R → Bool)
    → ((r : R) → q r ≡ true → p r ≡ true)
    → (rows : List R) → any p rows ≡ false
    → keep q rows ≡ []
keep_of_any p q h [] e = refl
keep_of_any p q h (x ∷ rows) e = ground (arith, h x, keep_of_any p q h rows)

-- the rows that pass the first test and not the second
abbrev pub others : {R : Type 0} → (R → Bool) → (R → Bool) → R → Bool
others p q r = not (q r) && p r

module _ {R : Type 0} (p q : R → Bool) (f : R → R) where
  keep-map_where_other :
      (rows : List R)
      → keep q rows ≡ []
      → keep (others p q) rows ≡ []
      → keep p (map_where q f rows) ≡ []
  keep-map_where_other [] e h = refl
  keep-map_where_other (x ∷ rows) e h = elim (Bool-cases (q x)) [
    | inl own ↦ cc (rw own at e)
    | inr other ↦ elim (Bool-cases (p x)) [
      | inl hit ↦ cc (rw (other, hit) at h)
      | inr miss ↦
          rw (other, miss) (keep-map_where_other rows (rw other at e) (rw (other, miss) at h))
    ]
  ]

  -- An update of the only row of one query, seen by another query that no other row passes.
  pub keep-map_where_only :
      (r : R) (rows : List R)
      → keep q rows ≡ r ∷ []
      → keep (others p q) rows ≡ []
      → keep p (map_where q f rows) ≡ keep p (f r ∷ [])
  keep-map_where_only r [] e h = cc
  keep-map_where_only r (x ∷ rows) e h = elim (Bool-cases (q x)) [
    | inl own ↦
        let e' : x ∷ keep q rows ≡ r ∷ [] = rw own at e in
        let same : x ≡ r = cc e' in
        let nil = keep-map_where_other rows (cc e') (rw own at h) in
        rw (own, same, nil) (ground arith)
    | inr other ↦ elim (Bool-cases (p x)) [
      | inl hit ↦ cc (rw (other, hit) at h)
      | inr miss ↦
          rw (other, miss) (keep-map_where_only r rows (rw other at e) (rw (other, miss) at h))
    ]
  ]
