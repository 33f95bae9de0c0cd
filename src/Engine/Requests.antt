-- ===== src/Engine/Requests.antt =====
-- SearchRequest of src/ragplan/core/models.py, and the guards at the start of `_execute_request` of
-- src/ragplan/core/engine.py. The query is the trimmed one.
use oss.Prelude.{
  ℕ, Bool, true, false, not, ◌&&◌, ◌||◌, Option, none, some, List, [], ◌∷◌, leb, ◌==◌, length,
  if◌then◌else◌,
}
use oss.Prelude.Text.{Text}
use oss.Core.Errors.{
  Exception, Result, ok, raise, raise_if, value_error, rag, ragplan_error, mode_unavailable,
  plan_invariant_violation, invalid_request, deadline_exceeded, ◌>>=◌, ◌>>◌,
}
use oss.Core.Deadline.{min_latency_budget_ms, max_latency_budget_ms}
use oss.Scheduler.Machines.Switches.{KillSwitchSnapshot}
use oss.Planner.Plan.{
  PlannerMode, vector_mode, graph_mode, fixed_hybrid, rule, cost_aware, min_top_k, max_top_k,
  PlanDefinition, PlanCatalog, plan_for_id, has_id,
}

abbrev pub min_query_codepoints : ℕ
min_query_codepoints = 1

abbrev pub max_query_codepoints : ℕ
max_query_codepoints = 4096

pub record SearchRequest : Type 0 where
  pub query : Text
  pub top_k : ℕ
  pub latency_budget_ms : ℕ
  pub planner : PlannerMode
  pub plan_id : Option ℕ

abbrev pub same_mode : PlannerMode → PlannerMode → Bool
same_mode vector_mode vector_mode = true
same_mode graph_mode graph_mode = true
same_mode fixed_hybrid fixed_hybrid = true
same_mode rule rule = true
same_mode cost_aware cost_aware = true
same_mode _ _ = false

-- `value is not None`
abbrev pub given {ℓ} : {A : Type ℓ} → Option A → Bool
given none = false
given (some _) = true

-- _FIXED_PLAN_IDS, which the request's validator also allows
abbrev pub fixed_plan_ids : List ℕ
fixed_plan_ids = 4 ∷ 5 ∷ 6 ∷ 8 ∷ []

abbrev is_fixed : Option ℕ → Bool
is_fixed none = true
is_fixed (some n) = has_id n fixed_plan_ids

-- SearchRequest._check_planner_constraints, with the ranges of the fields
unfoldable pub search_request : SearchRequest → Result SearchRequest
search_request r = do
  raise_if
      (not (leb min_query_codepoints (length r.query) && leb (length r.query) max_query_codepoints))
      value_error
  raise_if (not (leb min_top_k r.top_k && leb r.top_k max_top_k)) value_error
  raise_if
      (not (
        leb min_latency_budget_ms r.latency_budget_ms
        && leb r.latency_budget_ms max_latency_budget_ms))
      value_error
  raise_if (same_mode r.planner cost_aware && not (r.top_k == 10)) value_error
  raise_if (given r.plan_id && not (same_mode r.planner fixed_hybrid)) value_error
  raise_if (same_mode r.planner fixed_hybrid && not (is_fixed r.plan_id)) value_error
  ok r

abbrev pub violation : Exception
violation = rag (ragplan_error plan_invariant_violation (some false) none)

abbrev pub unavailable : Exception
unavailable = rag (ragplan_error mode_unavailable none none)

abbrev pub out_of_time : Exception
out_of_time = rag (ragplan_error deadline_exceeded none none)

abbrev invalid : Exception
invalid = rag (ragplan_error invalid_request (some false) none)

-- What a caller may fix beside the request: a depth of the graph search, or a plan to be profiled.
pub record Overrides : Type 0 where
  pub graph_depth : Option ℕ
  pub profile_plan_id : Option ℕ

-- `supported_modes`
abbrev is_supported : PlannerMode → Bool
is_supported cost_aware = false
is_supported _ = true

-- The guards at the start of _execute_request
unfoldable pub check_modes : KillSwitchSnapshot → SearchRequest → Overrides → Result (Unit {0})
check_modes switches r o = do
  raise_if (switches.vector_only && (given o.graph_depth || given o.profile_plan_id)) unavailable
  raise_if (given o.graph_depth && given o.profile_plan_id) violation
  raise_if (not switches.vector_only && (same_mode r.planner cost_aware && switches.no_cost_aware))
      unavailable
  raise_if (not (is_supported r.planner) && not switches.vector_only) unavailable

-- BaselineSearchEngine._mode_for_plan
unfoldable pub mode_for_plan : PlanDefinition → Result PlannerMode
mode_for_plan plan =
    if plan.vector_enabled && plan.graph_enabled
    then ok fixed_hybrid
    else if plan.vector_enabled
    then ok vector_mode
    else if plan.graph_enabled
    then ok graph_mode
    else raise violation

-- benchmark_graph_search up to its call of _run_search
unfoldable pub benchmark_graph_search : SearchRequest → ℕ → Result Overrides
benchmark_graph_search r graph_depth = do
  raise_if (not (same_mode r.planner graph_mode) || not (has_id graph_depth (1 ∷ 2 ∷ 3 ∷ [])))
      invalid
  ok (record { graph_depth = some graph_depth; profile_plan_id = none })

abbrev found_or_violation : Result PlanDefinition → Result PlanDefinition
found_or_violation (ok plan) = ok plan
found_or_violation (raise Exception.key_error) = raise violation
found_or_violation (raise e) = raise e

abbrev names_plan : Option ℕ → ℕ → Bool
names_plan none n = false
names_plan (some m) n = m == n

-- benchmark_plan_search up to its call of _run_search
unfoldable pub benchmark_plan_search : PlanCatalog → SearchRequest → ℕ → Result Overrides
unfolding plan_for_id mode_for_plan
benchmark_plan_search catalog r plan_id = do
  plan ← found_or_violation (plan_for_id catalog plan_id)
  raise_if (not plan.enabled_in_p0 || plan.rerank_enabled) violation
  mode ← mode_for_plan plan
  raise_if (not (same_mode r.planner mode)) invalid
  raise_if (same_mode mode fixed_hybrid && not (names_plan r.plan_id plan.id)) invalid
  ok (record { graph_depth = none; profile_plan_id = some plan.id })
