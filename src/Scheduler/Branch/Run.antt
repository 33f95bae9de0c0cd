-- ===== src/Scheduler/Branch/Run.antt =====
-- The handlers of `_run_branch` in src/ragplan/scheduler/executor.py, and the coroutine itself.
use oss.Prelude.{ℕ, Option, none, some, [], leb, if◌then◌else◌}
use mathlib.Core.Option
use oss.Core.Errors.{
  mode_unavailable, dependency_unavailable, TimeoutOrigin, RagplanError, Exception, rag, cancelled,
  Result, ok, raise, ◌>>=◌,
}
use oss.Core.Kinds.{
  BranchKind, BranchStatus, succeeded, timed_out, failed, running, not_scheduled,
  CancellationReason, parent_cancelled, FailureOrigin, application, backend_native, client,
}
use oss.Core.Deadline.{Deadline, snapshot}
use oss.Scheduler.Machines.{branch_transition}
use oss.Scheduler.Circuit
use oss.Scheduler.Circuit.{
  CircuitBreaker, CircuitPermit, acquire, record_success, record_failure, record_ignored,
}
use oss.Scheduler.Branch.{
  BranchPayload, OperationEnd, returned, raised, Running, Readings, result, with_permit,
  is_deadline, is_counted, is_backend_client, is_application_deadline, or_default, Settled,
}

-- `except CircuitOpenError`
unfoldable pub on_circuit_open :
    {Hit Trace : Type 0} → Running → Readings → CircuitBreaker → Settled Hit Trace
unfolding branch_transition snapshot Circuit.snapshot
on_circuit_open b t c = do
  status ← branch_transition running failed
  let (seen, c') = Circuit.snapshot c t.recorded t.second
  ok (
    record {
      result = result b.branch status b.started (snapshot b.deadline t.finished) [] (record {
        error_code = some mode_unavailable;
        cancellation_reason = none;
        failure_origin = some FailureOrigin.circuit_open;
        timeout_origin = none;
        circuit_state_before = some seen.state;
        circuit_state_after = some seen.state;
      });
      graph_trace = none;
    },
    c',
  )

-- `except RAGPlanError` with the code DEADLINE_EXCEEDED
unfoldable pub on_deadline_error :
    {Hit Trace : Type 0} → Running → Readings → CircuitBreaker → RagplanError → Settled Hit Trace
unfolding branch_transition snapshot record_failure record_ignored
on_deadline_error b t c e = do
  status ← branch_transition running timed_out
  let origin = or_default e.timeout_origin TimeoutOrigin.application_deadline
  let (after, c') =
      with_permit b.permit
        (λ p.
          if is_backend_client origin
          then record_failure c p t.recorded
          else record_ignored c p t.recorded)
        c
  ok (
    record {
      result = result b.branch status b.started (snapshot b.deadline t.finished) [] (record {
        error_code = none;
        cancellation_reason =
            if is_backend_client origin then none else some CancellationReason.application_deadline;
        failure_origin = some (if is_backend_client origin then backend_native else application);
        timeout_origin = some origin;
        circuit_state_before = b.state_before;
        circuit_state_after = after;
      });
      graph_trace = none;
    },
    c',
  )

-- `except RAGPlanError` with any other code
unfoldable pub on_other_error :
    {Hit Trace : Type 0} → Running → Readings → CircuitBreaker → RagplanError → Settled Hit Trace
unfolding branch_transition snapshot record_failure record_ignored
on_other_error b t c e = do
  status ← branch_transition running failed
  let (after, c') =
      with_permit b.permit
        (λ p.
          if is_counted e.code
          then record_failure c p t.recorded
          else record_ignored c p t.recorded)
        c
  ok (
    record {
      result = result b.branch status b.started (snapshot b.deadline t.finished) [] (record {
        error_code = some e.code;
        cancellation_reason = none;
        failure_origin = some (if is_counted e.code then backend_native else application);
        timeout_origin = none;
        circuit_state_before = b.state_before;
        circuit_state_after = after;
      });
      graph_trace = none;
    },
    c',
  )

-- `except asyncio.CancelledError`
unfoldable pub on_cancelled :
    {Hit Trace : Type 0} → Running → Readings → CircuitBreaker → Settled Hit Trace
unfolding branch_transition snapshot record_ignored
on_cancelled b t c = do
  let reason = or_default b.reason parent_cancelled
  let late = is_application_deadline reason
  status ← branch_transition running (if late then timed_out else BranchStatus.cancelled)
  let (after, c') = with_permit b.permit (λ p. record_ignored c p t.recorded) c
  ok (
    record {
      result = result b.branch status b.started (snapshot b.deadline t.finished) [] (record {
        error_code = none;
        cancellation_reason = some reason;
        failure_origin = some (if late then application else client);
        timeout_origin = if late then some TimeoutOrigin.application_deadline else none;
        circuit_state_before = b.state_before;
        circuit_state_after = after;
      });
      graph_trace = none;
    },
    c',
  )

-- `except Exception`
unfoldable pub on_exception :
    {Hit Trace : Type 0} → Running → Readings → CircuitBreaker → Settled Hit Trace
unfolding branch_transition snapshot record_failure
on_exception b t c = do
  status ← branch_transition running failed
  let (after, c') = with_permit b.permit (λ p. record_failure c p t.recorded) c
  ok (
    record {
      result = result b.branch status b.started (snapshot b.deadline t.finished) [] (record {
        error_code = some dependency_unavailable;
        cancellation_reason = none;
        failure_origin = some backend_native;
        timeout_origin = none;
        circuit_state_before = b.state_before;
        circuit_state_after = after;
      });
      graph_trace = none;
    },
    c',
  )

-- The order of the `except` clauses.
unfoldable pub handle :
    {Hit Trace : Type 0} → Running → Readings → CircuitBreaker → Exception → Settled Hit Trace
unfolding on_circuit_open on_deadline_error on_other_error on_cancelled on_exception
handle b t c Exception.circuit_open = on_circuit_open b t c
handle b t c (rag e) =
    if is_deadline e.code then on_deadline_error b t c e else on_other_error b t c e
handle b t c (cancelled _) = on_cancelled b t c
handle b t c _ = on_exception b t c

-- The `try` block from the operation's result on, for the permit that it runs under.
unfoldable pub on_payload :
    {Hit Trace : Type 0}
    → Running
    → Readings
    → CircuitBreaker
    → CircuitPermit
    → BranchPayload Hit Trace
    → Settled Hit Trace
unfolding branch_transition snapshot record_success record_ignored
on_payload b t c p payload =
    if leb b.deadline.branch_cutoff_ns t.finished
    then (do
      status ← branch_transition running timed_out
      let (after, c') = record_ignored c p t.recorded
      ok (
        record {
          result = result b.branch status b.started (snapshot b.deadline t.finished) [] (record {
            error_code = none;
            cancellation_reason = some CancellationReason.application_deadline;
            failure_origin = some application;
            timeout_origin = some TimeoutOrigin.application_deadline;
            circuit_state_before = b.state_before;
            circuit_state_after = some after;
          });
          graph_trace = none;
        },
        c',
      ))
    else (do
      status ← branch_transition running succeeded
      let (after, c') = record_success c p
      ok (
        record {
          result =
              result b.branch status b.started (snapshot b.deadline t.finished) payload.hits
                (record {
                  error_code = none;
                  cancellation_reason = none;
                  failure_origin = none;
                  timeout_origin = none;
                  circuit_state_before = b.state_before;
                  circuit_state_after = some after;
                });
          graph_trace = payload.graph_trace;
        },
        c',
      ))

-- An exception inside the `try` block goes to its handlers.
abbrev catch : {A : Type 0} → Result A → (Exception → Result A) → Result A
catch (ok a) h = ok a
catch (raise e) h = h e

-- The end of the operation, under a permit.
unfoldable pub settle :
    {Hit Trace : Type 0}
    → Running
    → Readings
    → CircuitBreaker
    → CircuitPermit
    → OperationEnd Hit Trace
    → Settled Hit Trace
unfolding on_payload handle
settle b t c p (returned payload) = catch (on_payload b t c p payload) (handle b t c)
settle b t c p (raised e) = handle b t c e

abbrev pub begun :
    BranchKind → Deadline → Option CancellationReason → ℕ → Option CircuitPermit → Running
begun branch deadline reason now permit = record {
  branch = branch;
  deadline = deadline;
  reason = reason;
  started = snapshot deadline now;
  permit = permit;
  state_before = Option.map (λ (p : CircuitPermit). p.state_before) permit;
}

-- The `try` block, by what `acquire` answers: an operation is run only under a permit.
abbrev pub proceed :
    {Hit Trace : Type 0}
    → BranchKind
    → Deadline
    → Option CancellationReason
    → ℕ
    → Readings
    → (CircuitBreaker → CircuitBreaker)
    → OperationEnd Hit Trace
    → Result CircuitPermit × CircuitBreaker
    → Settled Hit Trace
proceed branch deadline reason starts t others end (ok permit, c) =
    settle (begun branch deadline reason starts (some permit)) t (others c) permit end
proceed branch deadline reason starts t others end (raise e, c) =
    handle (begun branch deadline reason starts none) t c e

-- SchedulerExecutor._run_branch once the barrier is open. `others` is what other requests do to the
-- circuit while the operation runs, and `end` is how the operation ends if it is called.
unfoldable pub run_branch :
    {Hit Trace : Type 0}
    → BranchKind
    → Deadline
    → Option CancellationReason
    → (starts asks : ℕ) → Readings
    → CircuitBreaker
    → (others : CircuitBreaker → CircuitBreaker) → (end : OperationEnd Hit Trace)
    → Settled Hit Trace
unfolding branch_transition
run_branch branch deadline reason starts asks t c others end = do
  _ ← branch_transition not_scheduled running
  proceed branch deadline reason starts t others end (acquire c asks)
