-- ===== src/Listing/Pages.antt =====
-- The pages of a listing together.
use mathlib.Core.List.{Perm}
use mathlib.Core.List.Perm
use makoto_lite_llm.Base.{
  ℕ, zero, suc, ◌+◌, ◌*◌, ◌≤◌, ◌≡◌, refl, ap, ◌∙◌, Bool, Bool-cases, All, nat_eq, inl, inr, Option,
  List, [], ◌∷◌, ◌++◌, ok, keep, take, drop, length, take-add, take_all, leb, pure, ◌>>=◌, arith,
}
use makoto_lite_llm.Base.Int.{ℤ, pos, ◌-ℤ◌, ◌*ℤ◌}
use makoto_lite_llm.Listing.{
  Clock, comes_first, insert_desc, order_desc, page_of, key_test, list_keys,
}
use makoto_lite_llm.Models.{ApiKey}
use makoto_lite_llm.Store.{Session, Service}

module _ {R : Type 0} (newer : R → R → Bool) where
  insert_desc-perm : (r : R) (rows : List R) → Perm (insert_desc newer r rows) (r ∷ rows)
  unfolding insert_desc
  insert_desc-perm r [] = Perm.refl (r ∷ [])
  insert_desc-perm r (x ∷ rows) = elim (Bool-cases (newer r x)) [
    | inl earlier ↦ rw earlier (Perm.refl (r ∷ x ∷ rows))
    | inr later ↦ rw later (Perm.trans (Perm.cons x (insert_desc-perm r rows)) (Perm.swap r x rows))
  ]

  order_desc-perm : (rows : List R) → Perm (order_desc newer rows) rows
  unfolding order_desc
  order_desc-perm [] = Perm.refl []
  order_desc-perm (r ∷ rows) =
      Perm.trans (insert_desc-perm r (order_desc newer rows)) (Perm.cons r (order_desc-perm rows))

  length-insert_desc :
      (r : R) (rows : List R) → length (insert_desc newer r rows) ≡ suc (length rows)
  unfolding insert_desc
  length-insert_desc r [] = refl
  length-insert_desc r (x ∷ rows) = ground (arith, length-insert_desc r rows)

  length-order_desc : (rows : List R) → length (order_desc newer rows) ≡ length rows
  unfolding order_desc
  length-order_desc [] = refl
  length-order_desc (r ∷ rows) =
      length-insert_desc r (order_desc newer rows) ∙ ap suc (length-order_desc rows)

  insert_desc-All :
      (P : R → Type 0) (r : R) (rows : List R) → P r → All P rows → All P (insert_desc newer r rows)
  unfolding insert_desc
  insert_desc-All P r [] h hs = (h, tt)
  insert_desc-All P r (x ∷ rows) h (hx, hs) = elim (Bool-cases (newer r x)) [
    | inl earlier ↦ rw earlier (h, (hx, hs))
    | inr later ↦ rw later (hx, insert_desc-All P r rows h hs)
  ]

  order_desc-All : (P : R → Type 0) (rows : List R) → All P rows → All P (order_desc newer rows)
  unfolding order_desc
  order_desc-All P [] h = tt
  order_desc-All P (r ∷ rows) (h, hs) =
      insert_desc-All P r (order_desc newer rows) h (order_desc-All P rows hs)

  -- a test that agrees on a row and all of a list
  insert_desc-agrees :
      (other : R → R → Bool) (r : R) (rows : List R)
      → All (λ x. newer r x ≡ other r x) rows
      → insert_desc newer r rows ≡ insert_desc other r rows
  unfolding insert_desc
  insert_desc-agrees other r [] h = refl
  insert_desc-agrees other r (x ∷ rows) (h, hs) = rw (h, insert_desc-agrees other r rows hs) refl

  -- a test that agrees on every row and all behind it
  abbrev AgreesOn : (R → R → Bool) → List R → Type 0
  AgreesOn other [] = Unit
  AgreesOn other (r ∷ rows) = All (λ x. newer r x ≡ other r x) rows × AgreesOn other rows

module _ {R : Type 0} (key : R → ℕ) where
  -- no row is newer than one before it
  abbrev pub IsNewestFirst : List R → Type 0
  IsNewestFirst [] = Unit
  IsNewestFirst (r ∷ []) = Unit
  IsNewestFirst (r ∷ x ∷ rows) = (key x ≤ key r) × IsNewestFirst (x ∷ rows)

  -- the order by the times alone
  abbrev pub by_time : R → R → Bool
  by_time r x = leb (key x) (key r)

  insert_desc-IsNewestFirst :
      (r : R) (rows : List R) → IsNewestFirst rows → IsNewestFirst (insert_desc by_time r rows)
  unfolding insert_desc
  insert_desc-IsNewestFirst r [] h = tt
  insert_desc-IsNewestFirst r (x ∷ []) h = ground arith
  insert_desc-IsNewestFirst r (x ∷ y ∷ rows) h =
      ground (arith, insert_desc-IsNewestFirst r (y ∷ rows))

  order_desc-IsNewestFirst : (rows : List R) → IsNewestFirst (order_desc by_time rows)
  unfolding order_desc
  order_desc-IsNewestFirst [] = tt
  order_desc-IsNewestFirst (r ∷ rows) =
      insert_desc-IsNewestFirst r (order_desc by_time rows) (order_desc-IsNewestFirst rows)

module _ {R : Type 0} where
  order_desc-agrees :
      (newer other : R → R → Bool) (rows : List R)
      → AgreesOn newer other rows
      → order_desc newer rows ≡ order_desc other rows
  unfolding order_desc
  order_desc-agrees newer other [] h = refl
  order_desc-agrees newer other (r ∷ rows) (h, hs) =
      let same = order_desc-agrees newer other rows hs in
      rw same (
        insert_desc-agrees newer other r (order_desc other rows)
          (order_desc-All other (λ x. newer r x ≡ other r x) rows h))

  -- no two rows have one time
  abbrev pub IsDistinct : (R → ℕ) → List R → Type 0
  IsDistinct key [] = Unit
  IsDistinct key (r ∷ rows) = All (λ x. ¬ (key x ≡ key r)) rows × IsDistinct key rows

  comes_first-by_time :
      (clock : Clock) (page : ℤ) (id_of : R → ℕ) (r : R) (rows : List R)
      → All (λ x. ¬ (clock.created_at (id_of x) ≡ clock.created_at (id_of r))) rows
      → All
          (λ x.
            comes_first clock page (id_of r) (id_of x)
            ≡ by_time (λ y. clock.created_at (id_of y)) r x)
          rows
  comes_first-by_time clock page id_of r [] h = tt
  comes_first-by_time clock page id_of r (x ∷ rows) (h, hs) =
      (ground arith, comes_first-by_time clock page id_of r rows hs)

  distinct_agree :
      (clock : Clock) (page : ℤ) (id_of : R → ℕ) (rows : List R)
      → IsDistinct (λ r. clock.created_at (id_of r)) rows
      → AgreesOn
          (λ r x. comes_first clock page (id_of r) (id_of x))
          (by_time (λ r. clock.created_at (id_of r)))
          rows
  distinct_agree clock page id_of [] h = tt
  distinct_agree clock page id_of (r ∷ rows) (h, hs) =
      (comes_first-by_time clock page id_of r rows h, distinct_agree clock page id_of rows hs)

before_page : (n : ℕ) → pos (suc n) -ℤ pos 1 ≡ pos n
unfolding ◌-ℤ◌
before_page n = ground arith

times_size : (n size : ℕ) → pos n *ℤ pos size ≡ pos (n * size)
unfolding ◌*ℤ◌
times_size n size = ground arith

-- a page whose number is not 0
page_of-ok :
    {R : Type 0} (n size : ℕ) (rows : List R)
    → page_of (pos (suc n)) (pos size) rows ≡ ok (take size (drop (n * size) rows))
unfolding page_of
page_of-ok n size rows = rw (before_page n, times_size n size) (ground arith)

module _ {F : Type 0} where
  -- a client that asks for the pages from 1 to a number, and puts them together
  unfoldable pub first_pages : {R : Type 0} → (ℕ → Service F (List R)) → ℕ → Service F (List R)
  first_pages list zero = pure []
  first_pages list (suc n) = do rows ← first_pages list n; more ← list (suc n); pure (rows ++ more)

  first_pages-take :
      {R : Type 0} (list : ℕ → Service F (List R)) (size : ℕ) (rows : List R) (s : Session F)
      → ((page : ℕ) → list page s ≡ (page_of (pos page) (pos size) rows, s))
      → (n : ℕ) → first_pages list n s ≡ (ok (take (n * size) rows), s)
  unfolding first_pages
  first_pages-take list size rows s h zero = let e : 0 * size ≡ 0 = omega arith in rw e refl
  first_pages-take list size rows s h (suc n) =
      let e : suc n * size ≡ n * size + size = grind arith in
      rw
        (
          first_pages-take list size rows s h n,
          h (suc n),
          page_of-ok n size rows,
          e,
          take-add (n * size) size rows,
        )
        refl

  -- If the keys of the filters were created at different times, and the pages from 1 to a number have room for all of
  -- them, then the pages together are exactly these keys, each as often as it is stored, the newest first, and the
  -- session stays as it is.
  pub list_keys-pages :
      (clock : Clock) (user_id team_id org_id : Option ℕ) (size n : ℕ) (s : Session F)
      → let found = keep (key_test clock user_id team_id org_id) s.current.api_keys in
        IsDistinct (λ k. clock.created_at k.id) found
        → length found ≤ n * size
        → (rows : List (ApiKey F)) × (first_pages
              (λ page. list_keys clock user_id team_id org_id (pos page) (pos size))
              n
              s
            ≡ (ok rows, s))
          × Perm rows found
          × IsNewestFirst (λ k. clock.created_at k.id) rows
  unfolding list_keys
  list_keys-pages clock user_id team_id org_id size n s distinct room =
      let found = keep (key_test clock user_id team_id org_id) s.current.api_keys in
      let key = λ (k : ApiKey F). clock.created_at k.id in
      let sorted = order_desc (by_time key) found in
      let all = take_all (n * size) sorted (rw (length-order_desc (by_time key) found) room) in
      let same = λ (page : ℕ).
        order_desc-agrees _ (by_time key) found
          (distinct_agree clock (pos page) (λ k. k.id) found distinct) in
      (
        sorted,
        first_pages-take _ size sorted s
              (λ page. ap (λ rows. (page_of (pos page) (pos size) rows, s)) (same page)) n
            ∙ ap (λ rows. (ok rows, s)) all,
        order_desc-perm (by_time key) found,
        order_desc-IsNewestFirst key found,
      )
