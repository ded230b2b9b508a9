-- ===== src/Budgets.antt =====
-- src/app/services/budget_service.py: named budgets. The ids of new rows are arguments.
use makoto_lite_llm.Base.{
  ℕ, String, Bool, true, false, not, Option, none, some, [], ◌∷◌, ◌++◌, keep, map_where, override,
  ◌==◌, nat_eq, pure, ◌>>=◌, ◌>>◌,
}
use makoto_lite_llm.Base.Int.{ℤ}
use makoto_lite_llm.Models.{Budget}
use makoto_lite_llm.Store.{Service, select_one_or_none, write, commit}

-- the arguments of `update_budget`; those of `create_budget` are the columns of the row
pub record BudgetUpdate (F : Type 0) : Type 0 where
  pub name : Option String
  pub max_budget : Option F
  pub soft_budget : Option F
  pub tpm_limit : Option ℤ
  pub rpm_limit : Option ℤ
  pub max_parallel_requests : Option ℤ
  pub budget_reset_period : Option String

module _ {F : Type 0} where
  -- the argument is the new row
  unfoldable pub create_budget : Budget F → Service F (Budget F)
  create_budget budget = do
    write (λ db. record db { budgets = db.budgets ++ budget ∷ [] })
    commit
    pure budget

  unfoldable pub get_budget : ℕ → Service F (Option (Budget F))
  get_budget budget_id = select_one_or_none (λ db. db.budgets) (λ b. b.id == budget_id)

  abbrev pub apply_update : BudgetUpdate F → Budget F → Budget F
  apply_update u budget = record budget {
    name = elim u.name [ none ↦ budget.name | some v ↦ v ];
    max_budget = override u.max_budget budget.max_budget;
    soft_budget = override u.soft_budget budget.soft_budget;
    tpm_limit = override u.tpm_limit budget.tpm_limit;
    rpm_limit = override u.rpm_limit budget.rpm_limit;
    max_parallel_requests = override u.max_parallel_requests budget.max_parallel_requests;
    budget_reset_period = override u.budget_reset_period budget.budget_reset_period;
  }

  abbrev change_found : (Budget F → Budget F) → Option (Budget F) → Service F (Option (Budget F))
  change_found f none = pure none
  change_found f (some budget) = do
    write (λ db. record db { budgets = map_where (λ b. b.id == budget.id) f db.budgets })
    commit
    pure (some (f budget))

  unfoldable pub update_budget : ℕ → BudgetUpdate F → Service F (Option (Budget F))
  unfolding get_budget
  update_budget budget_id u = do budget ← get_budget budget_id; change_found (apply_update u) budget

  abbrev delete_found : Option (Budget F) → Service F Bool
  delete_found none = pure false
  delete_found (some budget) = do
    write (λ db. record db { budgets = keep (λ b. not (b.id == budget.id)) db.budgets })
    commit
    pure true

  unfoldable pub delete_budget : ℕ → Service F Bool
  unfolding get_budget
  delete_budget budget_id = do budget ← get_budget budget_id; delete_found budget
