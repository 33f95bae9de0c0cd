-- ===== src/Scheduler/Tasks.antt =====
-- The tasks of `SchedulerExecutor.execute` in src/ragplan/scheduler/executor.py, with
-- `cancel_and_await` of src/ragplan/scheduler/cancellation.py. A task is named by its branch, since
-- branches are unique; a mapping keyed by branches is a function from the two branches. The event
-- loop is a parameter: what `asyncio.wait` answers in each round, and how each branch's coroutine
-- goes on when it is left to finish or cancelled.
use oss.Prelude.{ℕ, Bool, true, false, Option, some, List, [], ◌∷◌, if◌then◌else◌}
use oss.Core.Errors.{
  cancelled, CancelMessage, client_disconnect_message, engine_shutdown_message, no_message, Result,
  ok, raise,
}
use oss.Core.Kinds.{
  BranchKind, CancellationReason, client_disconnect, parent_cancelled, engine_shutdown, same_kind,
}
use oss.Core.Deadline.{Deadline}
use oss.Scheduler.Circuit.{CircuitBreaker}
use oss.Scheduler.Branch.{BranchOutcome, OperationEnd, Readings, Settled}
use oss.Scheduler.Branch.Run.{run_branch}

-- How a branch's coroutine goes on: its readings, the circuit's other users, its operation's end.
pub record Course (Hit Trace : Type 0) : Type 0 where
  pub starts : ℕ
  pub asks : ℕ
  pub readings : Readings
  pub others : CircuitBreaker → CircuitBreaker
  pub end : OperationEnd Hit Trace

-- A cancelled task may not have had its first turn yet: it then ends by CancelledError outside of
-- the coroutine's `try`. Otherwise it goes on, by the cancellation or by a result that came first.
pub data CancelCourse (Hit Trace : Type 0) : Type 0 where
  not_started : CancelCourse Hit Trace
  resumed : Course Hit Trace → CancelCourse Hit Trace

-- What `asyncio.wait` answers: the completed tasks and the others, or a cancellation of the request.
pub data Wake : Type 0 where
  woken : (completed still : List BranchKind) → Wake
  interrupted : CancelMessage → Wake

pub record EventLoop (Hit Trace : Type 0) : Type 0 where
  pub now : ℕ → ℕ
  pub wait : ℕ → List BranchKind → Wake
  pub finishing : BranchKind → Course Hit Trace
  pub cancelling : CancellationReason → BranchKind → CancelCourse Hit Trace
  pub boundary : BranchKind → ℕ

-- `outcomes`, and the circuits of the two branches.
pub record Progress (Hit Trace : Type 0) : Type 0 where
  pub outcomes : BranchKind → Option (BranchOutcome Hit Trace)
  pub circuits : BranchKind → CircuitBreaker

-- A loop's progress, with the exception that ended it early, if any.
abbrev pub Step : Type 0 → Type 0 → Type 0
Step Hit Trace = Result (Unit {0}) × Progress Hit Trace

abbrev pub update {ℓ} : {A : Type ℓ} → (BranchKind → A) → BranchKind → A → BranchKind → A
update f k a j = if same_kind k j then a else f j

-- `branch in pending`
abbrev pub has : BranchKind → List BranchKind → Bool
has k [] = false
has k (j ∷ js) = let rest = has k js in if same_kind j k then true else rest

-- `len(set(kinds)) != len(kinds)`
abbrev pub has_duplicate : List BranchKind → Bool
has_duplicate [] = false
has_duplicate (k ∷ ks) = let rest = has_duplicate ks in if has k ks then true else rest

-- _parent_cancellation_reason
unfoldable pub parent_cancellation_reason : CancelMessage → CancellationReason
parent_cancellation_reason client_disconnect_message = client_disconnect
parent_cancellation_reason engine_shutdown_message = engine_shutdown
parent_cancellation_reason _ = parent_cancelled

module _ {Hit Trace : Type 0} where
  abbrev pub keep_outcome :
      BranchKind
      → BranchOutcome Hit Trace × CircuitBreaker
      → Progress Hit Trace
      → Progress Hit Trace
  keep_outcome k (o, c) p = record {
    outcomes = update p.outcomes k (some o);
    circuits = update p.circuits k c;
  }

  -- A task's coroutine, run along its course.
  abbrev pub run_course :
      Deadline
      → Option CancellationReason
      → Progress Hit Trace
      → BranchKind
      → Course Hit Trace
      → Settled Hit Trace
  run_course d reason p k c =
      run_branch k d reason c.starts c.asks c.readings (p.circuits k) c.others c.end

  abbrev pub run_cancelled :
      Deadline
      → CancellationReason
      → Progress Hit Trace
      → BranchKind
      → CancelCourse Hit Trace
      → Settled Hit Trace
  run_cancelled d reason p k not_started = raise (cancelled no_message)
  run_cancelled d reason p k (resumed c) = run_course d (some reason) p k c

  abbrev pub store : BranchKind → Settled Hit Trace → Progress Hit Trace → Step Hit Trace
  store k (ok o) p = (ok tt, keep_outcome k o p)
  store k (raise e) p = (raise e, p)
