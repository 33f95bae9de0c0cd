-- ===== src/Samples/Optimizer.antt =====
-- A run of the cost-based optimizer with predictions for the sample catalog.
use oss.Prelude.{◌*◌, true, false, [], ◌∷◌, none, ◌≡◌, refl}
use oss.Core.Errors.{Result, ok, raise}
use oss.Core.Deadline.{snapshot}
use oss.Planner.Plan.{fixed_hybrid}
use oss.Planner.Rule.{QueryAnalysis}
use oss.Planner.Optimizer.{value, non_finite, PredictorEnd, predicted, OfflineDecision, optimize}
use oss.Samples.Planner.{ms, tenth, vector_only, sample_catalog, relation_query, request_deadline}

abbrev ten_results : QueryAnalysis
ten_results = record relation_query {
  features = record relation_query.features { final_top_k = 10 };
}

-- The qualities that a model predicts for P0 to P6 and P8: the sixth is not finite.
abbrev qualities : PredictorEnd
qualities = predicted (
    value (3 * tenth)
    ∷ value (4 * tenth)
    ∷ value (4 * tenth)
    ∷ value (5 * tenth)
    ∷ value (6 * tenth)
    ∷ non_finite
    ∷ value (8 * tenth)
    ∷ value (9 * tenth)
    ∷ [])

abbrev latencies : PredictorEnd
latencies = predicted (
    value (15 * ms)
    ∷ value (35 * ms)
    ∷ value (30 * ms)
    ∷ value (60 * ms)
    ∷ value (70 * ms)
    ∷ value (105 * ms)
    ∷ value (180 * ms)
    ∷ value (300 * ms)
    ∷ [])

abbrev offline_or : OfflineDecision → Result OfflineDecision → OfflineDecision
offline_or d (ok d') = d'
offline_or d (raise e) = d

abbrev no_decision : OfflineDecision
no_decision = record {
  selected_plan = vector_only 0 10;
  effective_mode = fixed_hybrid;
  executed_vector_top_k = none;
  executed_graph_top_k = none;
  remaining_budget = 0;
  candidate_estimates = [];
  budget_feasible = false;
  is_fallback = true;
}

abbrev offline_decision : OfflineDecision
unfolding optimize snapshot
offline_decision =
    offline_or no_decision
      (optimize sample_catalog ten_results qualities latencies request_deadline (40 * ms))

-- P8 and P6 do not fit, and P4 is the best of the others.
offline_selects : offline_decision.selected_plan.id ≡ 4
unfolding optimize snapshot
offline_selects = refl
