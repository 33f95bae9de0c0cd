-- ===== src/Engine/Plans.antt =====
-- The explicit modes of src/ragplan/core/engine.py: which plan of the catalog runs, with how many
-- candidates, and the work that a decision comes to. A reading of the clock is an argument.
pub mod Supplied
use oss.Prelude.{
  ℕ, max, Bool, true, false, not, ◌||◌, Option, none, some, List, [], ◌∷◌, ◌++◌, leb, ◌==◌,
  if◌then◌else◌,
}
use oss.Core.Errors.{Result, ok, raise, raise_if, other_exception, ◌>>=◌, ◌>>◌}
use oss.Core.Kinds.{BranchKind, vector, graph}
use oss.Core.Deadline.{Deadline, snapshot}
use oss.Prelude.Text.{codes}
use oss.Planner.Plan.{
  PlannerMode, vector_mode, graph_mode, fixed_hybrid, PlanDefinition, PlanCatalog, plan_for_id,
  has_id,
}
use oss.Planner.Rule.{PlannerDecision, planner_decision, force_vector_only}
use oss.Engine.Requests.{
  SearchRequest, same_mode, fixed_plan_ids, violation, out_of_time, mode_for_plan,
}

-- What every explicit decision has in common
abbrev pub plain : PlannerMode → PlannerMode → PlanDefinition → ℕ → PlannerDecision
plain mode effective plan remaining = record {
  mode = mode;
  effective_mode = effective;
  selected_plan = plan;
  executed_vector_top_k = none;
  executed_graph_top_k = none;
  matched_rules = [];
  remaining_budget = remaining;
  candidate_estimates = [];
  budget_feasible = true;
  fallback_reason = none;
}

abbrev pub vector_decision : SearchRequest → PlanDefinition → ℕ → Bool → PlannerDecision
vector_decision request plan remaining forced =
    record (plain request.planner vector_mode plan remaining) {
      executed_vector_top_k = some (max request.top_k plan.vector_top_k);
      fallback_reason = if forced then some force_vector_only else none;
    }

abbrev pub graph_decision : SearchRequest → PlanDefinition → ℕ → PlannerDecision
graph_decision request plan remaining = record (plain graph_mode graph_mode plan remaining) {
  executed_graph_top_k = some (max request.top_k plan.graph_top_k);
}

abbrev pub fixed_decision : SearchRequest → PlanDefinition → ℕ → PlannerDecision
fixed_decision request plan remaining = record (plain fixed_hybrid fixed_hybrid plan remaining) {
  executed_vector_top_k = some (max request.top_k plan.vector_top_k);
  executed_graph_top_k = some (max request.top_k plan.graph_top_k);
}

abbrev pub profile_decision : SearchRequest → PlannerMode → PlanDefinition → ℕ → PlannerDecision
profile_decision request mode plan remaining = record (plain request.planner mode plan remaining) {
  executed_vector_top_k =
      if plan.vector_enabled then some (max request.top_k plan.vector_top_k) else none;
  executed_graph_top_k =
      if plan.graph_enabled then some (max request.top_k plan.graph_top_k) else none;
}

-- `remaining_ms`, which must be positive
unfoldable pub planning_time : Deadline → ℕ → Result ℕ
unfolding snapshot
planning_time deadline now = do
  let remaining = (snapshot deadline now).branch_remaining_ns
  raise_if (leb remaining 0) out_of_time
  ok remaining

abbrev map_plan : (PlanDefinition → PlanDefinition) → Result PlanDefinition → Result PlanDefinition
map_plan f (ok plan) = ok (f plan)
map_plan f (raise e) = raise e

-- P3 at depth 2, for benchmarks
abbrev at_depth_2 : PlanDefinition → PlanDefinition
at_depth_2 base = record base { name = codes "GRAPH_DEPTH_2_BENCHMARK"; graph_depth = 2 }

module _ (catalog : PlanCatalog) (request : SearchRequest) (deadline : Deadline) (now : ℕ) where
  -- _select_vector_plan
  unfoldable pub select_vector_plan : Bool → Result PlannerDecision
  unfolding plan_for_id planning_time planner_decision
  select_vector_plan forced = do
    plan ← plan_for_id catalog (if leb request.top_k 10 then 0 else 1)
    remaining ← planning_time deadline now
    planner_decision (vector_decision request plan remaining forced)

  -- The plan of _select_graph_plan
  unfoldable pub graph_plan : Option ℕ → Result PlanDefinition
  unfolding plan_for_id
  graph_plan none = plan_for_id catalog (if leb request.top_k 20 then 2 else 3)
  graph_plan (some depth) =
      if depth == 1
      then plan_for_id catalog 2
      else if depth == 3
      then plan_for_id catalog 3
      else if depth == 2
      then map_plan at_depth_2 (plan_for_id catalog 3)
      else raise violation

  -- _select_graph_plan
  unfoldable pub select_graph_plan : Option ℕ → Result PlannerDecision
  unfolding graph_plan planning_time planner_decision
  select_graph_plan graph_depth = do
    plan ← graph_plan graph_depth
    remaining ← planning_time deadline now
    planner_decision (graph_decision request plan remaining)

  abbrev pub fixed_plan_id : Option ℕ → ℕ
  fixed_plan_id none = 5
  fixed_plan_id (some n) = n

  -- _select_fixed_plan
  unfoldable pub select_fixed_plan : Result PlannerDecision
  unfolding plan_for_id planning_time planner_decision
  select_fixed_plan = do
    let plan_id = fixed_plan_id request.plan_id
    raise_if (not (has_id plan_id fixed_plan_ids)) violation
    plan ← plan_for_id catalog plan_id
    raise_if (not plan.enabled_in_p0 || (not plan.vector_enabled || not plan.graph_enabled))
        violation
    remaining ← planning_time deadline now
    planner_decision (fixed_decision request plan remaining)

  -- _select_profile_plan
  unfoldable pub select_profile_plan : ℕ → Result PlannerDecision
  unfolding plan_for_id mode_for_plan planning_time planner_decision
  select_profile_plan plan_id = do
    plan ← plan_for_id catalog plan_id
    raise_if (not plan.enabled_in_p0 || plan.rerank_enabled) violation
    mode ← mode_for_plan plan
    raise_if (not (same_mode request.planner mode)) violation
    remaining ← planning_time deadline now
    planner_decision (profile_decision request mode plan remaining)

-- A branch to be run, with the number of its candidates; a graph branch runs the selected plan with them.
pub data BranchCall : Type 0 where
  vector_call : ℕ → BranchCall
  graph_call : PlanDefinition → BranchCall

abbrev pub call_kind : BranchCall → BranchKind
call_kind (vector_call _) = vector
call_kind (graph_call _) = graph

abbrev pub uses_vector : PlannerMode → Bool
uses_vector vector_mode = true
uses_vector fixed_hybrid = true
uses_vector _ = false

abbrev pub uses_graph : PlannerMode → Bool
uses_graph graph_mode = true
uses_graph fixed_hybrid = true
uses_graph _ = false

-- The branches of a mode in the order of their works; the rule planner has replaced its own mode.
abbrev pub mode_kinds : PlannerMode → List BranchKind
mode_kinds vector_mode = vector ∷ []
mode_kinds graph_mode = graph ∷ []
mode_kinds fixed_hybrid = vector ∷ graph ∷ []
mode_kinds _ = []

-- `decision.executed_vector_top_k or 1`
abbrev pub or_one : ℕ → ℕ
or_one k = if k == 0 then 1 else k

abbrev pub vector_work : Bool → PlannerDecision → Result (List BranchCall)
vector_work false d = ok []
vector_work true d = elim d.executed_vector_top_k [
  | some k ↦ ok (vector_call (or_one k) ∷ [])
  | none ↦ raise other_exception
]

abbrev pub graph_work : Bool → PlannerDecision → Result (List BranchCall)
graph_work false d = ok []
graph_work true d = elim d.executed_graph_top_k [
  | some k ↦ ok (graph_call (record d.selected_plan { graph_top_k = k }) ∷ [])
  | none ↦ raise other_exception
]

-- _branch_work; a failed assertion is `other_exception`
unfoldable pub branch_work : PlannerMode → PlannerDecision → Result (List BranchCall)
branch_work mode d = do
  vectors ← vector_work (uses_vector mode) d
  graphs ← graph_work (uses_graph mode) d
  ok (vectors ++ graphs)
