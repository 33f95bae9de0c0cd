-- ===== src/Scheduler/Branch/Shape.antt =====
-- `BranchResult._check_terminal_shape` of src/ragplan/core/models.py, and that every branch returns
-- a result that passes it.
use oss.Prelude.{
  ℕ, ◌-◌, ◌≤◌, ◌≡◌, Bool, true, false, not, ◌&&◌, ◌||◌, Option, none, some, List, [], ◌∷◌, arith,
  ltb, ◌==◌, length,
}
use oss.Core.Errors.{Exception, value_error, Result, ok, raise, raise_if, ◌>>◌}
use oss.Core.Kinds.{
  BranchKind, BranchStatus, succeeded, timed_out, failed, cancelled, CancellationReason,
}
use oss.Core.Deadline.{Deadline, snapshot}
use oss.Scheduler.Circuit.{CircuitBreaker, CircuitPermit, acquire}
use oss.Scheduler.Branch.{BranchResult, OperationEnd, returned, raised, Running, Readings, Settled}
use oss.Scheduler.Branch.Run.{handle, settle, begun, proceed, run_branch}

abbrev pub is_terminal : BranchStatus → Bool
is_terminal succeeded = true
is_terminal timed_out = true
is_terminal failed = true
is_terminal cancelled = true
is_terminal _ = false

abbrev pub is_succeeded : BranchStatus → Bool
is_succeeded succeeded = true
is_succeeded _ = false

abbrev is_failed : BranchStatus → Bool
is_failed failed = true
is_failed _ = false

abbrev may_be_cancelled : BranchStatus → Bool
may_be_cancelled timed_out = true
may_be_cancelled cancelled = true
may_be_cancelled _ = false

abbrev is_timed_out : BranchStatus → Bool
is_timed_out timed_out = true
is_timed_out _ = false

abbrev is_some {ℓ} : {A : Type ℓ} → Option A → Bool
is_some none = false
is_some (some _) = true

abbrev is_nonempty {ℓ} : {A : Type ℓ} → List A → Bool
is_nonempty [] = false
is_nonempty (_ ∷ _) = true

-- The test of the boundaries, where both are present; the latency is compared exactly.
boundaries : Option ℕ → Option ℕ → Option ℕ → Result (Unit {0})
boundaries (some started) (some ended) none = raise value_error
boundaries (some started) (some ended) (some latency) = do
  raise_if (ltb ended started) value_error
  raise_if (not (latency == ended - started)) value_error
boundaries _ _ _ = ok tt

-- BranchResult._check_terminal_shape
unfoldable pub check_terminal_shape : {Hit : Type 0} → BranchResult Hit → Result (Unit {0})
unfolding boundaries
check_terminal_shape r = do
  raise_if (not (is_terminal r.status) && is_some r.latency_ns) value_error
  raise_if (is_terminal r.status && not (is_some r.latency_ns)) value_error
  raise_if (not (is_succeeded r.status) && is_nonempty r.hits) value_error
  raise_if (is_nonempty r.hits && not (r.hit_count == length r.hits)) value_error
  raise_if (not (is_succeeded r.status) && not (r.hit_count == 0)) value_error
  raise_if (is_failed r.status && not (is_some r.error_code)) value_error
  raise_if (not (is_failed r.status) && is_some r.error_code) value_error
  raise_if
      ((is_some r.started_at
          || (is_some r.ended_at || (is_some r.remaining_at_start || is_some r.remaining_at_end)))
        && not (
            is_some r.started_at
            && (is_some r.ended_at
                && (is_some r.remaining_at_start && is_some r.remaining_at_end))))
      value_error
  boundaries r.started_at r.ended_at r.latency_ns
  raise_if (is_some r.cancellation_reason && not (may_be_cancelled r.status)) value_error
  raise_if (is_some r.timeout_origin && not (is_timed_out r.status)) value_error
  raise_if (is_some r.failure_origin && is_succeeded r.status) value_error

-- A branch came to a terminal result of its own kind that passes the validator.
abbrev pub IsSoundResult : {Hit : Type 0} → BranchKind → BranchResult Hit → Type 0
IsSoundResult branch r =
    (check_terminal_shape r ≡ ok tt) × (is_terminal r.status ≡ true) × (r.branch ≡ branch)

abbrev pub IsSound : {Hit Trace : Type 0} → BranchKind → Settled Hit Trace → Type 0
IsSound branch (raise e) = ⊥
IsSound branch (ok (o, c)) = IsSoundResult branch o.result

module _ (Hit Trace : Type 0) (b : Running) (t : Readings)
    (forward : b.started.elapsed_ns ≤ t.finished - b.deadline.start_ns) (c : CircuitBreaker) where
  handle-IsSound : (e : Exception) → IsSound {Hit = Hit} {Trace = Trace} b.branch (handle b t c e)
  unfolding handle check_terminal_shape
  handle-IsSound Exception.circuit_open = ground arith
  handle-IsSound (Exception.rag e) = ground arith
  handle-IsSound (Exception.cancelled m) = ground arith
  handle-IsSound _ = ground arith

  settle-IsSound :
      (p : CircuitPermit) (end : OperationEnd Hit Trace) → IsSound b.branch (settle b t c p end)
  unfolding settle check_terminal_shape
  settle-IsSound p (returned payload) = ground arith
  settle-IsSound p (raised e) = handle-IsSound e

proceed-IsSound :
    (Hit Trace : Type 0) (branch : BranchKind) (d : Deadline) (reason : Option CancellationReason)
    (starts : ℕ) (t : Readings) (others : CircuitBreaker → CircuitBreaker)
    (end : OperationEnd Hit Trace) (answer : Result CircuitPermit) (c : CircuitBreaker)
    → starts ≤ t.finished
    → IsSound branch (proceed branch d reason starts t others end (answer, c))
unfolding snapshot
proceed-IsSound Hit Trace branch d reason starts t others end (ok p) c forward =
    settle-IsSound Hit Trace (begun branch d reason starts (some p)) t (omega arith) (others c) p
      end
proceed-IsSound Hit Trace branch d reason starts t others end (raise e) c forward =
    handle-IsSound Hit Trace (begun branch d reason starts none) t (omega arith) c e

-- Whatever the circuit's state, the operation's end and what other requests do meanwhile, a branch
-- whose clock does not run backwards raises nothing: it comes to a terminal result of its own kind
-- that passes the validator of `BranchResult`.
pub run_branch-IsSound :
    {Hit Trace : Type 0} (branch : BranchKind) (d : Deadline) (reason : Option CancellationReason)
    (starts asks : ℕ) (t : Readings) (c : CircuitBreaker) (others : CircuitBreaker → CircuitBreaker)
    (end : OperationEnd Hit Trace)
    → starts ≤ t.finished
    → IsSound branch (run_branch branch d reason starts asks t c others end)
unfolding run_branch
run_branch-IsSound {Hit} {Trace} branch d reason starts asks t c others end forward =
    let (answer, c') = acquire c asks in
    proceed-IsSound Hit Trace branch d reason starts t others end answer c' forward
