-- ===== src/Scheduler/Execution.antt =====
-- `SchedulerExecutor.execute` and `_expire_pending` of src/ragplan/scheduler/executor.py. A second
-- cancellation of the request, while it already awaits its cancelled branches, is not modelled.
pub mod Complete
pub mod Results
use mathlib.Core.List.{foldl}
use oss.Prelude.{
  ℕ, zero, suc, ◌+◌, ◌-◌, ◌≤◌, ◌≡◌, min, max, Bool, true, false, not, ◌&&◌, ◌||◌, Option, none,
  some, List, [], ◌∷◌, ltb, leb, ◌==◌, length, map, if◌then◌else◌,
}
use oss.Core.Errors.{
  Exception, cancelled, CancelMessage, client_disconnect_message, engine_shutdown_message,
  no_message, value_error, key_error, TimeoutOrigin, Result, ok, raise, raise_if, ◌>>=◌, ◌>>◌,
}
use oss.Core.Kinds.{
  BranchKind, vector, graph, timed_out, CancellationReason, client_disconnect, parent_cancelled,
  engine_shutdown, application, CircuitState, same_kind,
}
use oss.Core.Deadline.{Deadline, remaining, snapshot}
use oss.Scheduler.Circuit.{CircuitBreaker}
use oss.Scheduler.Branch.{BranchOutcome, BranchResult, OperationEnd, Readings, Settled, result}
use oss.Scheduler.Branch.Run.{run_branch}
use oss.Scheduler.Tasks.{
  Course, CancelCourse, Wake, woken, interrupted, EventLoop, Progress, Step, update, has,
  has_duplicate, parent_cancellation_reason, keep_outcome, run_course, run_cancelled, store,
}
use oss.Scheduler.Report.{SchedulerExecution, ordered_outcomes, finish}

abbrev pub max_backend_tasks_per_request : ℕ
max_backend_tasks_per_request = 2

module _ {Hit Trace : Type 0} where
  abbrev dropped : BranchKind → Settled Hit Trace → Progress Hit Trace → Progress Hit Trace
  dropped k (ok (o, c)) p = record p { circuits = update p.circuits k c }
  dropped k (raise e) p = p

  -- `cancel_and_await(pending)` for a reason: the branches settle their permits, and their results
  -- are dropped
  unfoldable pub abandon :
      Deadline
      → EventLoop Hit Trace
      → CancellationReason
      → List BranchKind
      → Progress Hit Trace
      → Progress Hit Trace
  abandon d l reason [] p = p
  abandon d l reason (k ∷ ks) p =
      abandon d l reason ks (dropped k (run_cancelled d reason p k (l.cancelling reason k)) p)

  -- The completed tasks that are never looked at have run all the same.
  abbrev ran :
      Deadline → EventLoop Hit Trace → List BranchKind → Progress Hit Trace → Progress Hit Trace
  ran d l [] p = p
  ran d l (k ∷ ks) p = ran d l ks (dropped k (run_course d none p k (l.finishing k)) p)

  -- Go on, or let the rest of the tasks come to an end and pass the exception on.
  abbrev pub or_else :
      Step Hit Trace
      → (Progress Hit Trace → Step Hit Trace)
      → (Progress Hit Trace → Progress Hit Trace)
      → Step Hit Trace
  or_else (ok _, p) go_on rest = go_on p
  or_else (raise e, p) go_on rest = (raise e, rest p)

  -- `outcomes[tasks[task]] = task.result()` for the completed tasks
  unfoldable pub collect :
      Deadline → EventLoop Hit Trace → List BranchKind → Progress Hit Trace → Step Hit Trace
  collect d l [] p = (ok tt, p)
  collect d l (k ∷ ks) p =
      or_else (store k (run_course d none p k (l.finishing k)) p) (collect d l ks) (ran d l ks)

  -- The outcome of an expired task that could not translate its cancellation itself.
  abbrev pub expired_outcome : Deadline → ℕ → BranchKind → BranchOutcome Hit Trace
  expired_outcome d now k = record {
    result = result k timed_out (snapshot d now) (snapshot d now) [] (record {
      error_code = none;
      cancellation_reason = some CancellationReason.application_deadline;
      failure_origin = some application;
      timeout_origin = some TimeoutOrigin.application_deadline;
      circuit_state_before = none;
      circuit_state_after = none;
    });
    graph_trace = none;
  }

  abbrev pub store_expired :
      Deadline → ℕ → BranchKind → Settled Hit Trace → Progress Hit Trace → Step Hit Trace
  store_expired d now k (ok o) p = (ok tt, keep_outcome k o p)
  store_expired d now k (raise (cancelled _)) p =
      (ok tt, keep_outcome k (expired_outcome d now k, p.circuits k) p)
  store_expired d now k (raise e) p = (raise e, p)

  -- SchedulerExecutor._expire_pending: all branches are cancelled before any is looked at
  unfoldable pub expire_pending :
      Deadline → EventLoop Hit Trace → List BranchKind → Progress Hit Trace → Step Hit Trace
  unfolding abandon
  expire_pending d l [] p = (ok tt, p)
  expire_pending d l (k ∷ ks) p =
      let reason = CancellationReason.application_deadline in
      or_else
        (store_expired d (l.boundary k) k (run_cancelled d reason p k (l.cancelling reason k)) p)
        (expire_pending d l ks) (abandon d l reason ks)

  -- What follows an answer of `asyncio.wait`; `go_on` is the next round.
  abbrev pub on_wake :
      Deadline
      → EventLoop Hit Trace
      → List BranchKind
      → (List BranchKind → Progress Hit Trace → Step Hit Trace)
      → Progress Hit Trace
      → Wake
      → Step Hit Trace
  on_wake d l pending go_on p (woken [] still) = expire_pending d l pending p
  on_wake d l pending go_on p (woken (j ∷ js) still) =
      or_else (collect d l (j ∷ js) p) (go_on still) (abandon d l parent_cancelled still)
  on_wake d l pending go_on p (interrupted m) =
      (raise (cancelled m), abandon d l (parent_cancellation_reason m) pending p)

  -- The `while pending` loop: a round for each `asyncio.wait`. Each round but the last completes a
  -- branch, so the number of branches is fuel enough.
  unfoldable pub rounds :
      Deadline → EventLoop Hit Trace → ℕ → List BranchKind → Progress Hit Trace → Step Hit Trace
  rounds d l fuel [] p = (ok tt, p)
  rounds d l zero (k ∷ ks) p = (raise Exception.other_exception, p)
  rounds d l (suc fuel) (k ∷ ks) p =
      if remaining d true (l.now fuel) == 0
      then expire_pending d l (k ∷ ks) p
      else on_wake d l (k ∷ ks) (rounds d l fuel) p (l.wait fuel (k ∷ ks))

  abbrev pub conclude :
      List BranchKind → Step Hit Trace → Result (SchedulerExecution Hit Trace) × Progress Hit Trace
  conclude kinds (raise e, p) = (raise e, p)
  conclude kinds (ok _, p) = (ordered_outcomes kinds p.outcomes >>= λ os. ok (finish os), p)

  -- SchedulerExecutor.execute, on the branches of its works and their circuits
  unfoldable pub execute :
      List BranchKind
      → (BranchKind → CircuitBreaker)
      → Deadline
      → EventLoop Hit Trace
      → Result (SchedulerExecution Hit Trace) × Progress Hit Trace
  unfolding collect expire_pending abandon rounds ordered_outcomes finish
  execute kinds circuits d l =
      let none_yet : Progress Hit Trace = record { outcomes = λ k. none; circuits = circuits } in
      if not (leb 1 (length kinds) && leb (length kinds) max_backend_tasks_per_request)
      then (raise value_error, none_yet)
      else if has_duplicate kinds
      then (raise value_error, none_yet)
      else conclude kinds (rounds d l (length kinds) kinds none_yet)
