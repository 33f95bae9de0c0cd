-- ===== src/Engine/Boundaries.antt =====
-- The part of SearchTrace._check_budget_violation in src/ragplan/core/models.py on the trace of the scheduler: its state,
-- reason, times and circuits agree with the results of the branches.
use oss.Prelude.{
  ℕ, ◌*◌, ◌-◌, Bool, true, false, not, ◌&&◌, Option, none, some, List, [], ◌∷◌, leb, ◌==◌, length,
}
use oss.Prelude.Text.{same_text}
use oss.Core.Errors.{ErrorCode, Result, raise_if, value_error, ◌>>◌}
use oss.Core.Deadline.{nanoseconds_per_millisecond}
use oss.Core.Kinds.{
  vector, graph, same_kind, BranchStatus, CircuitState, closed, open_circuit, half_open,
}
use oss.Scheduler.Machines.{RequestStateEvent}
use oss.Scheduler.Branch.{BranchResult}
use oss.Scheduler.Report.{starts, skew}
use oss.Planner.Rule.{FallbackReason, FailureDetail, by_code, by_status}
use oss.Engine.Traces.{SearchTrace, by_kind, is_partial_state, same_truth, check_trace_parts}

-- The places of the codes and statuses in their enumerations
abbrev place_of_code : ErrorCode → ℕ
place_of_code ErrorCode.invalid_request = 0
place_of_code ErrorCode.invalid_query = 1
place_of_code ErrorCode.plan_invariant_violation = 2
place_of_code ErrorCode.not_ready = 3
place_of_code ErrorCode.dependency_unavailable = 4
place_of_code ErrorCode.mode_unavailable = 5
place_of_code ErrorCode.overloaded = 6
place_of_code ErrorCode.deadline_exceeded = 7
place_of_code ErrorCode.model_incompatible = 8
place_of_code ErrorCode.corpus_inconsistent = 9
place_of_code ErrorCode.retrieval_failed = 10
place_of_code ErrorCode.internal_error = 11

abbrev place_of_status : BranchStatus → ℕ
place_of_status BranchStatus.not_scheduled = 0
place_of_status BranchStatus.running = 1
place_of_status BranchStatus.succeeded = 2
place_of_status BranchStatus.timed_out = 3
place_of_status BranchStatus.failed = 4
place_of_status BranchStatus.cancelled = 5

abbrev same_detail : FailureDetail → FailureDetail → Bool
same_detail (by_code c) (by_code d) = place_of_code c == place_of_code d
same_detail (by_status s) (by_status t) = place_of_status s == place_of_status t
same_detail _ _ = false

-- Equality of the texts of two reasons
unfoldable pub same_reason : Option FallbackReason → Option FallbackReason → Bool
unfolding same_text
same_reason none none = true
same_reason (some FallbackReason.unsupported_language) (some FallbackReason.unsupported_language) =
    true
same_reason (some FallbackReason.graph_runtime_unavailable)
      (some FallbackReason.graph_runtime_unavailable) =
    true
same_reason (some FallbackReason.force_vector_only) (some FallbackReason.force_vector_only) = true
same_reason (some (FallbackReason.graph_audit_gate x)) (some (FallbackReason.graph_audit_gate y)) =
    same_text x y
same_reason (some (FallbackReason.failed_branch k d)) (some (FallbackReason.failed_branch l e)) =
    same_kind k l && same_detail d e
same_reason _ _ = false

abbrev same_circuit : Option CircuitState → Option CircuitState → Bool
same_circuit none none = true
same_circuit (some closed) (some closed) = true
same_circuit (some open_circuit) (some open_circuit) = true
same_circuit (some half_open) (some half_open) = true
same_circuit _ _ = false

-- `state_events[-1]` is not later than a time; a validated trace has at least two events.
abbrev ends_by : ℕ → List RequestStateEvent → Bool
ends_by t [] = false
ends_by t (e ∷ []) = leb e.elapsed_ns t
ends_by t (e ∷ f ∷ es) = ends_by t (f ∷ es)

module _ {Hit : Type 0} where
  abbrev circuit_of : Option (BranchResult Hit) → Option CircuitState
  circuit_of none = none
  circuit_of (some r) = r.circuit_state_after

module _ {Hit GraphTrace : Type 0} where
  -- The last part of SearchTrace._check_budget_violation
  unfoldable pub check_boundaries : SearchTrace Hit GraphTrace → Result (Unit {0})
  unfolding same_reason
  check_boundaries t = do
    let s = t.scheduler_trace
    raise_if (not (same_truth (is_partial_state s.actual_terminal_state) t.fallback)) value_error
    raise_if (t.fallback && not (same_reason t.planner_decision.fallback_reason s.fallback_reason))
        value_error
    raise_if
        (not (
          s.deadline_overshoot
          == t.total_latency - t.latency_budget_ms * nanoseconds_per_millisecond))
        value_error
    raise_if (not (s.backend_task_count == length t.branch_results)) value_error
    raise_if (not (ends_by t.total_latency s.state_events)) value_error
    raise_if (not (s.branch_start_skew == skew (starts t.branch_results))) value_error
    raise_if
        (not (same_circuit s.vector_circuit_state (circuit_of (by_kind vector t.branch_results))))
        value_error
    raise_if
        (not (same_circuit s.graph_circuit_state (circuit_of (by_kind graph t.branch_results))))
        value_error

  -- SearchTrace._check_budget_violation
  unfoldable pub check_search_trace : SearchTrace Hit GraphTrace → Result (Unit {0})
  unfolding check_trace_parts check_boundaries
  check_search_trace t = do check_trace_parts t; check_boundaries t
