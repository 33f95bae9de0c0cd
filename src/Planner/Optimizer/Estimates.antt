-- ===== src/Planner/Optimizer/Estimates.antt =====
-- What a feasible estimate of the optimizer has passed.
use oss.Prelude.{
  ℕ, ◌+◌, leb, ◌≤◌, ◌∙◌, Bool, true, none, some, List, [], ◌∷◌, ◌≡◌, refl, sym, ap, subst, arith,
  inl, inr, ◌⊎◌, Bool-cases,
}
use oss.Planner.Plan.{one, PlanDefinition}
use oss.Planner.Optimizer.{
  cost_estimate, Prediction, Prediction, non_finite, negative, value, CostReason,
  quality_non_finite, quality_out_of_range, checked_quality, CostEstimate, is_feasible,
  cost_estimates,
}

-- One of a list
abbrev pub Member : {A : Type 0} → A → List A → Type 0
Member y [] = ⊥
Member y (x ∷ xs) = (y ≡ x) ⊎ Member y xs

-- An estimate whose latency leaves the reserve in what remains
abbrev pub FitsBudget : ℕ → ℕ → CostEstimate → Type 0
FitsBudget remaining reserve e =
    (latency : ℕ) × (e.predicted_p95_latency ≡ some latency) × (latency + reserve ≤ remaining)

checked_quality-cases :
    (q : Prediction)
    → ((r : CostReason) × ((checked_quality q).1 ≡ some r)) ⊎ ((checked_quality q).1 ≡ none)
checked_quality-cases non_finite = inl (quality_non_finite, refl)
checked_quality-cases negative = inl (quality_out_of_range, refl)
checked_quality-cases (value q) = elim (Bool-cases (leb q one)) [
  | inl low ↦ inr (rw low refl)
  | inr high ↦ inl (quality_out_of_range, rw high refl)
]

cost_estimate-FitsBudget :
    (plan : PlanDefinition) (q l : Prediction) (language_supported : Bool) (remaining reserve : ℕ)
    → is_feasible (cost_estimate plan q l language_supported remaining reserve) ≡ true
    → FitsBudget remaining reserve (cost_estimate plan q l language_supported remaining reserve)
unfolding cost_estimate
cost_estimate-FitsBudget plan q non_finite supported remaining reserve h =
    absurd (elim (checked_quality-cases q) [
      | inl (r, e) ↦ let bad = rw e at h in cc
      | inr e ↦ let bad = rw e at h in cc
    ])
cost_estimate-FitsBudget plan q negative supported remaining reserve h =
    absurd (elim (checked_quality-cases q) [
      | inl (r, e) ↦ let bad = rw e at h in cc
      | inr e ↦ let bad = rw e at h in cc
    ])
cost_estimate-FitsBudget plan q (value l) supported remaining reserve h = (l, refl, within)
  where
    within : l + reserve ≤ remaining
    within = elim (checked_quality-cases q) [
      | inl (r, e) ↦ absurd (let bad = rw e at h in cc)
      | inr e ↦ let passed = rw e at h in ground arith
    ]

pub cost_estimates-FitsBudget :
    (plans : List PlanDefinition) (qs ls : List Prediction) (language_supported : Bool)
    (remaining reserve : ℕ) (e : CostEstimate)
    → Member e (cost_estimates plans qs ls language_supported remaining reserve)
    → is_feasible e ≡ true
    → FitsBudget remaining reserve e
unfolding cost_estimates
cost_estimates-FitsBudget (p ∷ plans) (q ∷ qs) (l ∷ ls) supported remaining reserve e (inl here) h =
    subst (FitsBudget remaining reserve) (sym here)
      (cost_estimate-FitsBudget p q l supported remaining reserve (ap is_feasible (sym here) ∙ h))
cost_estimates-FitsBudget (p ∷ plans) (q ∷ qs) (l ∷ ls) supported remaining reserve e (inr later)
      h =
    cost_estimates-FitsBudget plans qs ls supported remaining reserve e later h
cost_estimates-FitsBudget [] qs ls supported remaining reserve e here h = absurd here
cost_estimates-FitsBudget (p ∷ plans) [] ls supported remaining reserve e here h = absurd here
cost_estimates-FitsBudget (p ∷ plans) (q ∷ qs) [] supported remaining reserve e here h = absurd here
