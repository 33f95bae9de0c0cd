-- ===== src/Scheduler/Branch.antt =====
-- `_run_branch` and `_result` of src/ragplan/scheduler/executor.py, with `BranchResult` and its
-- validator of src/ragplan/core/models.py. A branch's coroutine suspends in two places only: at the
-- barrier and in its backend operation. The circuit's methods suspend nowhere, since no holder of
-- the circuit's lock does. So a branch is two steps on the shared circuit, `begin` up to the
-- operation and `settle` from its end on, and any steps of other requests may lie between them.
-- Times are whole nanoseconds; hits and the graph trace are values of types that are parameters.
pub mod Run
pub mod Shape
pub mod Blame
use oss.Prelude.{
  ℕ, ◌-◌, Bool, true, false, not, ◌&&◌, ◌||◌, Option, none, some, List, [], ◌∷◌, leb, ltb, ◌==◌,
  length, if◌then◌else◌,
}
use oss.Core.Errors.{
  ErrorCode, dependency_unavailable, retrieval_failed, mode_unavailable, deadline_exceeded,
  TimeoutOrigin, backend_client, RagplanError, Exception, rag, CancelMessage, value_error,
  client_disconnect_message, engine_shutdown_message, Result, ok, raise, raise_if, ◌>>=◌, ◌>>◌,
}
use oss.Core.Kinds.{
  BranchKind, BranchStatus, succeeded, timed_out, failed, running, not_scheduled,
  CancellationReason, client_disconnect, parent_cancelled, engine_shutdown, FailureOrigin,
  application, backend_native, client, CircuitState,
}
use oss.Core.Deadline.{Deadline, DeadlineSnapshot, snapshot}
use oss.Scheduler.Machines.{branch_transition}
use oss.Scheduler.Circuit
use oss.Scheduler.Circuit.{
  CircuitBreaker, CircuitPermit, acquire, record_success, record_failure, record_ignored,
}

pub record BranchPayload (Hit Trace : Type 0) : Type 0 where
  pub hits : List Hit
  pub graph_trace : Option Trace

pub record BranchResult (Hit : Type 0) : Type 0 where
  pub branch : BranchKind
  pub status : BranchStatus
  pub latency_ns : Option ℕ
  pub hits : List Hit
  pub error_code : Option ErrorCode
  pub hit_count : ℕ
  pub started_at : Option ℕ
  pub ended_at : Option ℕ
  pub remaining_at_start : Option ℕ
  pub remaining_at_end : Option ℕ
  pub cancellation_reason : Option CancellationReason
  pub failure_origin : Option FailureOrigin
  pub timeout_origin : Option TimeoutOrigin
  pub circuit_state_before : Option CircuitState
  pub circuit_state_after : Option CircuitState

pub record BranchOutcome (Hit Trace : Type 0) : Type 0 where
  pub result : BranchResult Hit
  pub graph_trace : Option Trace

-- How the backend's operation ended.
pub data OperationEnd (Hit Trace : Type 0) : Type 0 where
  returned : BranchPayload Hit Trace → OperationEnd Hit Trace
  raised : Exception → OperationEnd Hit Trace

-- What `_run_branch` holds when its operation has ended: the two snapshots' readings come later.
pub record Running : Type 0 where
  pub branch : BranchKind
  pub deadline : Deadline
  pub reason : Option CancellationReason
  pub started : DeadlineSnapshot
  pub permit : Option CircuitPermit
  pub state_before : Option CircuitState

-- The clock's readings after the operation: for `finished`, for the circuit's method, and for the
-- second one of `CircuitBreaker.snapshot`.
pub record Readings : Type 0 where
  pub finished : ℕ
  pub recorded : ℕ
  pub second : ℕ

-- The keyword arguments of `_result` that a caller may leave out.
pub record Details : Type 0 where
  pub error_code : Option ErrorCode
  pub cancellation_reason : Option CancellationReason
  pub failure_origin : Option FailureOrigin
  pub timeout_origin : Option TimeoutOrigin
  pub circuit_state_before : Option CircuitState
  pub circuit_state_after : Option CircuitState

module _ {Hit : Type 0} where
  -- SchedulerExecutor._result, with the hit count that `BranchResult` derives
  abbrev pub result :
      BranchKind
      → BranchStatus
      → DeadlineSnapshot
      → DeadlineSnapshot
      → List Hit
      → Details
      → BranchResult Hit
  result branch status started finished hits d = record {
    branch = branch;
    status = status;
    latency_ns = some (finished.elapsed_ns - started.elapsed_ns);
    hits = hits;
    error_code = d.error_code;
    hit_count = length hits;
    started_at = some started.elapsed_ns;
    ended_at = some finished.elapsed_ns;
    remaining_at_start = some started.remaining_ns;
    remaining_at_end = some finished.remaining_ns;
    cancellation_reason = d.cancellation_reason;
    failure_origin = d.failure_origin;
    timeout_origin = d.timeout_origin;
    circuit_state_before = d.circuit_state_before;
    circuit_state_after = d.circuit_state_after;
  }

-- `state_after = await circuit.record_…(permit)`, if there is a permit
abbrev pub with_permit :
    Option CircuitPermit
    → (CircuitPermit → CircuitState × CircuitBreaker)
    → CircuitBreaker
    → Option CircuitState × CircuitBreaker
with_permit none f c = (none, c)
with_permit (some p) f c = let (s, c') = f p in (some s, c')

-- `exc.code is ErrorCode.DEADLINE_EXCEEDED`
abbrev pub is_deadline : ErrorCode → Bool
is_deadline deadline_exceeded = true
is_deadline _ = false

-- `exc.code in {DEPENDENCY_UNAVAILABLE, RETRIEVAL_FAILED}`
abbrev pub is_counted : ErrorCode → Bool
is_counted dependency_unavailable = true
is_counted retrieval_failed = true
is_counted _ = false

abbrev pub is_backend_client : TimeoutOrigin → Bool
is_backend_client backend_client = true
is_backend_client _ = false

abbrev pub is_application_deadline : CancellationReason → Bool
is_application_deadline CancellationReason.application_deadline = true
is_application_deadline _ = false

-- `value or default`
abbrev pub or_default {ℓ} : {A : Type ℓ} → Option A → A → A
or_default none d = d
or_default (some a) d = a

-- What a branch's coroutine comes to, with the circuit after it.
abbrev pub Settled : Type 0 → Type 0 → Type 0
Settled Hit Trace = Result (BranchOutcome Hit Trace × CircuitBreaker)
