-- ===== src/Engine/Traces.antt =====
-- SchedulerTrace, SearchTrace and SearchResponse of src/ragplan/core/models.py with their validators. A
-- duration is in nanoseconds and compared exactly. Left out are the fields that only label a trace for a
-- reader: the hash of the query, and the versions.
use oss.Prelude.{
  ℕ, ◌*◌, Bool, true, false, not, ◌&&◌, Option, none, some, List, [], ◌∷◌, map, any_of, leb, ltb,
  ◌==◌, length, if◌then◌else◌,
}
use oss.Core.Errors.{Result, raise_if, value_error, ◌>>◌}
use oss.Core.Deadline.{finalization_reserve_ns, nanoseconds_per_millisecond}
use oss.Core.Kinds.{
  BranchKind, vector, graph, same_kind, BranchStatus, timed_out, failed, cancelled, not_scheduled,
  running, RequestState, CircuitState, KillSwitch, force_vector_only, disable_cost_aware,
}
use oss.Scheduler.Machines.{RequestStateEvent}
use oss.Scheduler.Branch.{BranchResult}
use oss.Scheduler.Branch.Shape.{is_succeeded}
use oss.Scheduler.Tasks.{has, has_duplicate}
use oss.Planner.Plan.{fixed_hybrid}
use oss.Planner.Rule.{PlannerDecision, QueryFeatures, FallbackReason}
use oss.Retrieval.Hits.{FusionTrace}
use oss.Engine.Requests.{given, same_mode}

pub record SchedulerTrace : Type 0 where
  pub state_events : List RequestStateEvent
  pub actual_terminal_state : RequestState
  pub backend_task_count : ℕ
  pub branch_start_skew : ℕ
  pub deadline_overshoot : ℕ
  pub admission_limit : ℕ
  pub kill_switches : List KillSwitch
  pub vector_circuit_state : Option CircuitState
  pub graph_circuit_state : Option CircuitState
  pub fallback_reason : Option FallbackReason

pub data SearchStatus : Type 0 where
  complete partial : SearchStatus

-- The states of a finished request, up to its terminal state
abbrev follows_machine : List RequestState → RequestState → Bool
follows_machine
      (RequestState.received ∷ RequestState.analyzing ∷ RequestState.planning
        ∷ RequestState.executing ∷ RequestState.fusing ∷ last)
      terminal =
    ends last terminal
  where
    is_end : RequestState → RequestState → Bool
    is_end RequestState.complete RequestState.complete = true
    is_end RequestState.partial RequestState.partial = true
    is_end _ _ = false

    ends : List RequestState → RequestState → Bool
    ends (s ∷ []) terminal = is_end s terminal
    ends (RequestState.reranking ∷ s ∷ []) terminal = is_end s terminal
    ends _ _ = false
follows_machine _ terminal = false

abbrev monotonic : List RequestStateEvent → Bool
monotonic [] = true
monotonic (e ∷ []) = true
monotonic (e ∷ f ∷ es) =
    let rest = monotonic (f ∷ es) in if leb e.elapsed_ns f.elapsed_ns then rest else false

abbrev canonical_switches : List KillSwitch → Bool
canonical_switches [] = true
canonical_switches (force_vector_only ∷ []) = true
canonical_switches (disable_cost_aware ∷ []) = true
canonical_switches (force_vector_only ∷ disable_cost_aware ∷ []) = true
canonical_switches _ = false

abbrev pub is_partial_state : RequestState → Bool
is_partial_state RequestState.partial = true
is_partial_state _ = false

abbrev pub same_truth : Bool → Bool → Bool
same_truth true b = b
same_truth false b = not b

-- SchedulerTrace._check_scheduler_trace, with the ranges of the fields
unfoldable pub check_scheduler_trace : SchedulerTrace → Result (Unit {0})
check_scheduler_trace t = do
  raise_if
      (not (leb 1 t.backend_task_count && (leb t.backend_task_count 2 && leb 1 t.admission_limit)))
      value_error
  raise_if
      (not (
        follows_machine (map (λ (e : RequestStateEvent). e.state) t.state_events)
          t.actual_terminal_state))
      value_error
  raise_if (not (monotonic t.state_events)) value_error
  raise_if (not (canonical_switches t.kill_switches)) value_error
  raise_if (not (same_truth (is_partial_state t.actual_terminal_state) (given t.fallback_reason)))
      value_error

pub record SearchTrace (Hit GraphTrace : Type 0) : Type 0 where
  pub query_length : ℕ
  pub language_supported : Bool
  pub features : QueryFeatures
  pub planner_decision : PlannerDecision
  pub branch_results : List (BranchResult Hit)
  pub vector_latency : Option ℕ
  pub graph_latency : Option ℕ
  pub graph_trace : Option GraphTrace
  pub fusion_latency : ℕ
  pub fusion_trace : Option FusionTrace
  pub scheduler_trace : SchedulerTrace
  pub total_latency : ℕ
  pub latency_budget_ms : ℕ
  pub finalization_reserve : ℕ
  pub budget_feasible : Bool
  pub budget_violated : Bool
  pub fallback : Bool
  pub result_count : ℕ

pub record SearchResponse (Hit GraphTrace : Type 0) : Type 0 where
  pub status : SearchStatus
  pub results : List Hit
  pub planner_decision : PlannerDecision
  pub trace : SearchTrace Hit GraphTrace
  pub fallback : Bool

abbrev same_number : Option ℕ → Option ℕ → Bool
same_number none none = true
same_number (some a) (some b) = a == b
same_number _ _ = false

abbrev is_active : BranchStatus → Bool
is_active not_scheduled = false
is_active running = false
is_active _ = true

abbrev pub has_failed : BranchStatus → Bool
has_failed timed_out = true
has_failed failed = true
has_failed cancelled = true
has_failed _ = false

abbrev pub is_partial : SearchStatus → Bool
is_partial partial = true
is_partial complete = false

module _ {Hit : Type 0} where
  abbrev pub is_running : BranchResult Hit → Bool
  is_running r = elim r.status [ running ↦ true | _ ↦ false ]

  abbrev pub scheduled_and : (BranchStatus → Bool) → BranchResult Hit → Bool
  scheduled_and p r = elim r.status [ not_scheduled ↦ false | s ↦ p s ]

  -- The first terminal branch of a kind
  abbrev pub terminal_branch : BranchKind → List (BranchResult Hit) → Option (BranchResult Hit)
  terminal_branch k [] = none
  terminal_branch k (r ∷ rs) =
      let rest = terminal_branch k rs in
      if same_kind r.branch k && is_active r.status then some r else rest

  abbrev latency_of : Option (BranchResult Hit) → Option ℕ
  latency_of none = none
  latency_of (some r) = r.latency_ns

  -- Of equal keys the last counts
  abbrev pub by_kind : BranchKind → List (BranchResult Hit) → Option (BranchResult Hit)
  by_kind k [] = none
  by_kind k (r ∷ rs) = elim (by_kind k rs) [
    | some later ↦ some later
    | none ↦ if same_kind r.branch k then some r else none
  ]

  abbrev has_succeeded : Option (BranchResult Hit) → Bool
  has_succeeded none = false
  has_succeeded (some r) = is_succeeded r.status

  abbrev count_matches : Option (BranchResult Hit) → ℕ → Bool
  count_matches none n = false
  count_matches (some r) n = is_succeeded r.status && (r.hit_count == n)

  -- The inputs of a fusion agree with a branch's result.
  abbrev input_matches : List (BranchResult Hit) → FusionTrace → BranchKind → ℕ → Bool
  input_matches results f k n =
      if has k f.missing_branches
      then (n == 0) && not (has_succeeded (by_kind k results))
      else count_matches (by_kind k results) n

module _ {Hit GraphTrace : Type 0} where
  abbrev lacks_trace : Option (BranchResult Hit) → Option GraphTrace → Bool
  lacks_trace none trace = given trace
  lacks_trace (some r) trace = is_succeeded r.status && not (given trace)

  abbrev fusion_matches : SearchTrace Hit GraphTrace → Option FusionTrace → Bool
  fusion_matches t none = t.fusion_latency == 0
  fusion_matches t (some f) =
      same_mode t.planner_decision.effective_mode fixed_hybrid
      && ((f.output_count == t.result_count)
          && (input_matches t.branch_results f vector f.vector_input_count
              && input_matches t.branch_results f graph f.graph_input_count))

  -- SearchTrace._check_budget_violation, up to the part on the trace of the scheduler
  unfoldable pub check_trace_parts : SearchTrace Hit GraphTrace → Result (Unit {0})
  unfolding finalization_reserve_ns
  check_trace_parts t = do
    raise_if (not (leb 1 (length t.branch_results) && leb (length t.branch_results) 2)) value_error
    raise_if
        (not (
          same_truth t.budget_violated
            (ltb (t.latency_budget_ms * nanoseconds_per_millisecond) t.total_latency)))
        value_error
    raise_if (not (t.finalization_reserve == finalization_reserve_ns t.latency_budget_ms))
        value_error
    raise_if (ltb t.features.final_top_k t.result_count) value_error
    raise_if (has_duplicate (map (λ (r : BranchResult Hit). r.branch) t.branch_results)) value_error
    raise_if
        (not (same_number t.vector_latency (latency_of (terminal_branch vector t.branch_results))))
        value_error
    raise_if
        (not (same_number t.graph_latency (latency_of (terminal_branch graph t.branch_results))))
        value_error
    raise_if (lacks_trace (terminal_branch graph t.branch_results) t.graph_trace) value_error
    raise_if (not (fusion_matches t t.fusion_trace)) value_error

  -- SearchResponse._check_response_trace: the response takes its decision and its fallback from the trace
  unfoldable pub check_response_trace : SearchResponse Hit GraphTrace → Result (Unit {0})
  check_response_trace r = do
    raise_if (not (same_truth r.fallback r.trace.fallback)) value_error
    raise_if (not (length r.results == r.trace.result_count)) value_error
    raise_if (not (same_truth (is_partial r.status) r.fallback)) value_error
    raise_if (any_of is_running r.trace.branch_results) value_error
    raise_if
        (not (is_partial r.status)
          && not (
              any_of (scheduled_and is_succeeded) r.trace.branch_results
              && not (any_of (scheduled_and (λ s. not (is_succeeded s))) r.trace.branch_results)))
        value_error
    raise_if
        (is_partial r.status
          && not (
              any_of (scheduled_and is_succeeded) r.trace.branch_results
              && any_of (scheduled_and has_failed) r.trace.branch_results))
        value_error
