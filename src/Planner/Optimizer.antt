-- ===== src/Planner/Optimizer.antt =====
-- OfflineCostAwareOptimizer of src/ragplan/planner/optimizer.py. What the two regression models predict is a
-- parameter: a quality is a whole number of 10⁻¹², a latency a whole number of nanoseconds, and a number that is
-- not finite or is negative is told apart. The identity of the models is left out of a decision.
pub mod Estimates
pub mod Best
use oss.Prelude.{
  ℕ, ◌+◌, ◌-◌, max, Bool, true, false, not, ◌&&◌, Option, none, some, List, [], ◌∷◌, map, leb, ltb,
  ◌==◌, length, keep, if◌then◌else◌,
}
use oss.Core.Errors.{
  Exception, Result, ok, raise, raise_if, rag, ragplan_error, invalid_request, model_incompatible,
  plan_invariant_violation, value_error, other_exception, ◌>>=◌, ◌>>◌,
}
use oss.Core.Deadline.{Deadline, snapshot}
use oss.Planner.Plan.{
  PlannerMode, vector_mode, graph_mode, fixed_hybrid, PlanDefinition, PlanCatalog, plan_for_id,
  p0_enabled_plans, one, min_top_k, max_top_k,
}
use oss.Planner.Rule.{QueryAnalysis, QueryFeatures, is_none}
use oss.Planner.Rule.Select.{lex_less}

pub data Prediction : Type 0 where
  non_finite negative : Prediction
  value : ℕ → Prediction

-- What a model's `predict` comes to
pub data PredictorEnd : Type 0 where
  failed : PredictorEnd
  predicted : List Prediction → PredictorEnd

pub data CostReason : Type 0 where
  quality_non_finite quality_out_of_range latency_non_finite latency_negative : CostReason
  unsupported_language exceeds_remaining_budget : CostReason

-- PlanEstimate, as the optimizer fills it
pub record CostEstimate : Type 0 where
  pub plan_id : ℕ
  pub predicted_quality : Option ℕ
  pub predicted_p95_latency : Option ℕ
  pub infeasible_reason : Option CostReason

abbrev pub is_feasible : CostEstimate → Bool
is_feasible e = is_none e.infeasible_reason

abbrev or_reason : Option CostReason → CostReason → Option CostReason
or_reason (some r) s = some r
or_reason none s = some s

abbrev pub checked_quality : Prediction → Option ℕ × Option CostReason
checked_quality non_finite = (none, some quality_non_finite)
checked_quality negative = (none, some quality_out_of_range)
checked_quality (value q) = if leb q one then (some q, none) else (none, some quality_out_of_range)

abbrev checked_latency : Prediction → Option CostReason → Option ℕ × Option CostReason
checked_latency non_finite r = (none, or_reason r latency_non_finite)
checked_latency negative r = (none, or_reason r latency_negative)
checked_latency (value l) r = (some l, r)

abbrev over_budget : Option ℕ → ℕ → ℕ → Bool
over_budget none reserve remaining = false
over_budget (some l) reserve remaining = ltb remaining (l + reserve)

abbrev rejected : PlanDefinition → Bool → ℕ → ℕ → Option ℕ → Option CostReason → Option CostReason
rejected plan language_supported remaining reserve latency (some r) = some r
rejected plan language_supported remaining reserve latency none =
    if plan.graph_enabled && not language_supported
    then some unsupported_language
    else if over_budget latency reserve remaining
    then some exceeds_remaining_budget
    else none

-- OfflineCostAwareOptimizer._estimate
unfoldable pub cost_estimate :
    PlanDefinition → Prediction → Prediction → Bool → ℕ → ℕ → CostEstimate
cost_estimate plan quality latency language_supported remaining reserve =
    let (q, r) = checked_quality quality in
    let (l, r) = checked_latency latency r in
    record {
      plan_id = plan.id;
      predicted_quality = q;
      predicted_p95_latency = l;
      infeasible_reason = rejected plan language_supported remaining reserve l r;
    }

abbrev incompatible : Exception
incompatible = rag (ragplan_error model_incompatible (some false) none)

-- _predict, for so many plans
unfoldable pub predict : PredictorEnd → ℕ → Result (List Prediction)
predict failed n = raise incompatible
predict (predicted ps) n = do raise_if (not (length ps == n)) incompatible; ok ps

-- The estimates of the plans, by the predictions of the same places
unfoldable pub cost_estimates :
    List PlanDefinition → List Prediction → List Prediction → Bool → ℕ → ℕ → List CostEstimate
unfolding cost_estimate
cost_estimates (p ∷ plans) (q ∷ qs) (l ∷ ls) language_supported remaining reserve =
    cost_estimate p q l language_supported remaining reserve
    ∷ cost_estimates plans qs ls language_supported remaining reserve
cost_estimates _ _ _ language_supported remaining reserve = []

-- A feasible estimate with the depth of its plan
pub record Scored : Type 0 where
  pub estimate : CostEstimate
  pub depth : ℕ

unfoldable pub scored : PlanCatalog → List CostEstimate → Result (List Scored)
unfolding plan_for_id
scored catalog [] = ok []
scored catalog (e ∷ es) = do
  plan ← plan_for_id catalog e.plan_id
  rest ← scored catalog es
  ok (record { estimate = e; depth = plan.graph_depth } ∷ rest)

abbrev pub number : Option ℕ → ℕ
number none = 0
number (some n) = n

abbrev pub quality_of : Scored → ℕ
quality_of s = number s.estimate.predicted_quality

-- The comparison of the keys of `min`: quality from above, then latency, depth and name
abbrev pub better : Scored → Scored → Bool
better s t =
    if ltb (quality_of t) (quality_of s)
    then true
    else if quality_of s == quality_of t
    then lex_less (number s.estimate.predicted_p95_latency ∷ s.depth ∷ s.estimate.plan_id ∷ [])
        (number t.estimate.predicted_p95_latency ∷ t.depth ∷ t.estimate.plan_id ∷ [])
    else false

-- `min(feasible, key=…)`
unfoldable pub best : Scored → List Scored → Scored
best s [] = s
best s (t ∷ ts) = best (if better t s then t else s) ts

-- `next(item for item in estimates if item.plan_id == "P0")`
abbrev pub first_p0 : List CostEstimate → Result CostEstimate
first_p0 [] = raise other_exception
first_p0 (e ∷ es) = let rest = first_p0 es in if e.plan_id == 0 then ok e else rest

-- The estimate that is selected, and whether it is the fallback
unfoldable pub selected_estimate : List CostEstimate → List Scored → Result (CostEstimate × Bool)
unfolding best
selected_estimate es [] = first_p0 es >>= λ e. ok (e, true)
selected_estimate es (s ∷ ts) = ok ((best s ts).estimate, false)

-- The parts of the decision that the models do not label
pub record OfflineDecision : Type 0 where
  pub selected_plan : PlanDefinition
  pub effective_mode : PlannerMode
  pub executed_vector_top_k : Option ℕ
  pub executed_graph_top_k : Option ℕ
  pub remaining_budget : ℕ
  pub candidate_estimates : List CostEstimate
  pub budget_feasible : Bool
  pub is_fallback : Bool

-- _mode_for_plan
unfoldable pub offline_mode : PlanDefinition → Result PlannerMode
offline_mode plan =
    if plan.vector_enabled && plan.graph_enabled
    then ok fixed_hybrid
    else if plan.vector_enabled
    then ok vector_mode
    else if plan.graph_enabled
    then ok graph_mode
    else raise (rag (ragplan_error plan_invariant_violation (some false) none))

abbrev pub in_range : Bool → ℕ → Bool
in_range enabled k = if enabled then leb min_top_k k && leb k max_top_k else true

-- OfflineCostAwareOptimizer.select, with the clock's reading
unfoldable pub optimize :
    PlanCatalog
    → QueryAnalysis
    → PredictorEnd
    → PredictorEnd
    → Deadline
    → ℕ
    → Result OfflineDecision
unfolding p0_enabled_plans predict cost_estimates scored selected_estimate plan_for_id offline_mode
    snapshot
optimize catalog analysis quality latency deadline now = do
  raise_if (not (analysis.features.final_top_k == 10))
      (rag (ragplan_error invalid_request (some false) none))
  let plans = p0_enabled_plans catalog
  qs ← predict quality (length plans)
  ls ← predict latency (length plans)
  let remaining = (snapshot deadline now).remaining_ns
  let es = cost_estimates plans qs ls analysis.language_supported remaining deadline.reserve_ns
  choices ← scored catalog (keep is_feasible es)
  selected ← selected_estimate es choices
  plan ← plan_for_id catalog selected.0.plan_id
  mode ← offline_mode plan
  raise_if
      (not (
        in_range plan.vector_enabled plan.vector_top_k
        && in_range plan.graph_enabled plan.graph_top_k))
      value_error
  ok (record {
    selected_plan = plan;
    effective_mode = mode;
    executed_vector_top_k = if plan.vector_enabled then some plan.vector_top_k else none;
    executed_graph_top_k = if plan.graph_enabled then some plan.graph_top_k else none;
    remaining_budget = remaining;
    candidate_estimates = es;
    budget_feasible = is_feasible selected.0;
    is_fallback = selected.1;
  })
