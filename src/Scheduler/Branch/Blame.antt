-- ===== src/Scheduler/Branch/Blame.antt =====
-- What a branch does to its circuit: who is blamed for an end, and that a permit is always settled.
use oss.Prelude.{
  ℕ, ◌≡◌, ◌≢◌, ◌∙◌, refl, ap, sym, Bool, true, false, Option, some, arith, leb, if◌then◌else◌,
}
use oss.Core.Errors.{Exception, rag, ok, raise, TimeoutOrigin, cancelled}
use oss.Core.Kinds.{BranchKind, CancellationReason}
use oss.Core.Deadline.{Deadline}
use oss.Scheduler.Circuit.{
  CircuitBreaker, CircuitPermit, acquire, record_success, record_failure, record_ignored,
}
use oss.Scheduler.Branch.{
  OperationEnd, returned, raised, Running, Readings, Settled, is_deadline, is_counted,
  is_backend_client, or_default,
}
use oss.Scheduler.Branch.Run.{handle, settle, begun, proceed, run_branch}

-- An error of the backend: unavailable, failed, timed out on its own, or an unknown exception.
abbrev pub is_backend_fault : Exception → Bool
is_backend_fault Exception.circuit_open = false
is_backend_fault (rag e) =
    if is_deadline e.code
    then is_backend_client (or_default e.timeout_origin TimeoutOrigin.application_deadline)
    else is_counted e.code
is_backend_fault (cancelled _) = false
is_backend_fault _ = true

-- What the circuit should be told of an end: success only if it comes before the branch cutoff,
-- failure only if the backend is at fault, and nothing otherwise.
abbrev pub judged :
    {Hit Trace : Type 0}
    → Deadline
    → Readings
    → CircuitBreaker
    → CircuitPermit
    → OperationEnd Hit Trace
    → CircuitBreaker
judged d t c p (returned payload) =
    if leb d.branch_cutoff_ns t.finished
    then (record_ignored c p t.recorded).1
    else (record_success c p).1
judged d t c p (raised e) =
    if is_backend_fault e
    then (record_failure c p t.recorded).1
    else (record_ignored c p t.recorded).1

abbrev pub circuit_after :
    {Hit Trace : Type 0} → CircuitBreaker → Settled Hit Trace → CircuitBreaker
circuit_after c (ok (o, c')) = c'
circuit_after c (raise e) = c

circuit_after-settle :
    {Hit Trace : Type 0} (b : Running) (t : Readings) (before c : CircuitBreaker)
    (p : CircuitPermit) (end : OperationEnd Hit Trace)
    → b.permit ≡ some p
    → end ≢ raised Exception.circuit_open
    → circuit_after before (settle b t c p end) ≡ judged b.deadline t c p end
unfolding settle handle
circuit_after-settle b t before c p (returned payload) h n = ground arith
circuit_after-settle b t before c p (raised Exception.circuit_open) h n = absurd (n refl)
circuit_after-settle b t before c p (raised (rag e)) h n = ground arith
circuit_after-settle b t before c p (raised _) h n = ground arith

module _ {Hit Trace : Type 0} (branch : BranchKind) (d : Deadline)
    (reason : Option CancellationReason) (starts asks : ℕ) (t : Readings) (c : CircuitBreaker) where
  -- A branch that is granted a permit has the circuit told exactly one thing, on the state in which
  -- other requests left it: a failure if the backend is at fault, a success if the payload came
  -- before the branch cutoff, and otherwise (late payloads, deadlines of the application,
  -- cancellations and errors of the request itself) that the permit is given back uncounted.
  -- No operation raises CircuitOpenError, which only `acquire` does.
  pub run_branch_tells_circuit :
      (others : CircuitBreaker → CircuitBreaker) (end : OperationEnd Hit Trace) {p : CircuitPermit}
      {granted : CircuitBreaker}
      → acquire c asks ≡ (ok p, granted)
      → end ≢ raised Exception.circuit_open
      → circuit_after c (run_branch branch d reason starts asks t c others end)
        ≡ judged d t (others granted) p end
  unfolding run_branch
  run_branch_tells_circuit others end {p} {granted} h n =
      rw (ap (proceed branch d reason starts t others end) h) (
        circuit_after-settle (begun branch d reason starts (some p)) t c (others granted) p end refl
          n)

  -- A branch that the circuit refuses never calls its operation: its result and the circuit after
  -- it are the same for every end of the operation, and whatever other requests do.
  pub refused_branch_ignores_operation :
      (others others' : CircuitBreaker → CircuitBreaker) (end end' : OperationEnd Hit Trace)
      {e : Exception} {refused : CircuitBreaker}
      → acquire c asks ≡ (raise e, refused)
      → run_branch branch d reason starts asks t c others end
        ≡ run_branch branch d reason starts asks t c others' end'
  unfolding run_branch
  refused_branch_ignores_operation others others' end end' h =
      ap (proceed branch d reason starts t others end) h
      ∙ sym (ap (proceed branch d reason starts t others' end') h)
