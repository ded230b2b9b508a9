-- ===== src/Listing.antt =====
-- The listings of src/app/services/{key,team,org,user,budget}_service.py, newest rows first, by pages. The rows have
-- no `created_at`; the times are a parameter. PostgreSQL refuses a negative offset or limit.
pub mod Pages
use makoto_lite_llm.Base.{
  ℕ, Bool, true, ◌&&◌, ◌||◌, Option, none, some, List, [], ◌∷◌, Outcome, ok, err, keep, take, drop,
  leb, ltb, ◌==◌, nat_eq, if◌then◌else◌,
}
use makoto_lite_llm.Base.Int.{ℤ, pos, pos_part, ◌-ℤ◌, ◌*ℤ◌, ltb_ℤ}
use makoto_lite_llm.Failure.{Failure, uncaught}
use makoto_lite_llm.Models.{ApiKey, Team, Organization, User, Budget}
use makoto_lite_llm.Store.{Db, Service}
use makoto_lite_llm.Teams.{is_id}

-- What the database knows of the rows: the time at which it created the row with an id, and, since SQL leaves the order
-- of the rows of one time open, the places that it gives to them when it is asked for a page.
pub record Clock : Type 0 where
  pub created_at : ℕ → ℕ
  pub place : ℤ → ℕ → ℕ

-- `order_by(….desc())`: does the row with the first id come before that with the second
abbrev pub comes_first : Clock → ℤ → ℕ → ℕ → Bool
comes_first clock page id other =
    ltb (clock.created_at other) (clock.created_at id)
    || (clock.created_at other == clock.created_at id
        && leb (clock.place page other) (clock.place page id))

unfoldable pub insert_desc : {R : Type 0} → (R → R → Bool) → R → List R → List R
insert_desc first r [] = r ∷ []
insert_desc first r (x ∷ rows) = if first r x then r ∷ x ∷ rows else x ∷ insert_desc first r rows

unfoldable pub order_desc : {R : Type 0} → (R → R → Bool) → List R → List R
unfolding insert_desc
order_desc first [] = []
order_desc first (r ∷ rows) = insert_desc first r (order_desc first rows)

-- `offset((page - 1) * page_size).limit(page_size)`
unfoldable pub page_of : {R : Type 0} → ℤ → ℤ → List R → Outcome Failure (List R)
page_of page page_size rows =
    let offset = (page -ℤ pos 1) *ℤ page_size in
    if ltb_ℤ offset (pos 0) || ltb_ℤ page_size (pos 0)
    then err uncaught
    else ok (take (pos_part page_size) (drop (pos_part offset) rows))

-- `if id is not None: query = query.where(column == id)`
abbrev pub where_id : Option ℕ → Option ℕ → Bool
where_id none column = true
where_id (some id) column = is_id column id

module _ {F : Type 0} (clock : Clock) where
  abbrev pub list_rows :
      {R : Type 0} → (Db F → List R) → (R → ℕ) → (R → Bool) → ℤ → ℤ → Service F (List R)
  list_rows table id_of test page page_size s = (
    page_of page page_size (
        order_desc (λ r x. comes_first clock page (id_of r) (id_of x))
          (keep test (table s.current))),
    s,
  )

  abbrev pub key_test : Option ℕ → Option ℕ → Option ℕ → ApiKey F → Bool
  key_test user_id team_id org_id k =
      where_id user_id (some k.user_id) && where_id team_id k.team_id && where_id org_id k.org_id

  unfoldable pub list_keys : Option ℕ → Option ℕ → Option ℕ → ℤ → ℤ → Service F (List (ApiKey F))
  unfolding order_desc page_of
  list_keys user_id team_id org_id =
      list_rows (λ db. db.api_keys) (λ k. k.id) (key_test user_id team_id org_id)

  unfoldable pub list_teams : Option ℕ → ℤ → ℤ → Service F (List (Team F))
  unfolding order_desc page_of
  list_teams org_id = list_rows (λ db. db.teams) (λ t. t.id) (λ t. where_id org_id t.org_id)

  unfoldable pub list_orgs : ℤ → ℤ → Service F (List (Organization F))
  unfolding order_desc page_of
  list_orgs = list_rows (λ db. db.organizations) (λ o. o.id) (λ o. true)

  unfoldable pub list_users : ℤ → ℤ → Service F (List (User F))
  unfolding order_desc page_of
  list_users = list_rows (λ db. db.users) (λ u. u.id) (λ u. true)

  unfoldable pub list_budgets : ℤ → ℤ → Service F (List (Budget F))
  unfolding order_desc page_of
  list_budgets = list_rows (λ db. db.budgets) (λ b. b.id) (λ b. true)
