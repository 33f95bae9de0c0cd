-- ===== src/Planner/Optimizer/Best.antt =====
-- What the optimizer selects.
use oss.Prelude.{ℕ, ◌≤◌, Bool, true, false, List, [], ◌≡◌, ◌⊎◌, keep, All}
use oss.Core.Deadline.{Deadline}
use oss.Planner.Plan.{PlanCatalog}
use oss.Planner.Optimizer.Estimates.{Member, FitsBudget}
use oss.Planner.Optimizer.{CostEstimate, is_feasible, number, OfflineDecision}

-- At most as good as a bound
abbrev pub Below : ℕ → CostEstimate → Type 0
Below n e = number e.predicted_quality ≤ n

-- The estimate of a decision
abbrev pub Selected : PlanCatalog → ℕ → OfflineDecision → CostEstimate → Type 0
Selected catalog reserve d e =
    Member e d.candidate_estimates
    × (e.plan_id ≡ d.selected_plan.id)
    × (is_feasible e ≡ d.budget_feasible)
    × (((is_feasible e ≡ true)
          × FitsBudget d.remaining_budget reserve e
          × All (Below (number e.predicted_quality)) (keep is_feasible d.candidate_estimates)
          × (d.is_fallback ≡ false))
        ⊎ ((e.plan_id ≡ 0)
            × (keep is_feasible d.candidate_estimates ≡ [])
            × (d.is_fallback ≡ true)))

-- What is selected from the feasible estimates
abbrev IsBest : List CostEstimate → CostEstimate × Bool → Type 0
IsBest feasible (e, fallback) =
    ((is_feasible e ≡ true)
      × All (Below (number e.predicted_quality)) feasible
      × (fallback ≡ false))
    ⊎ ((e.plan_id ≡ 0) × (feasible ≡ []) × (fallback ≡ true))
