-- ===== src/Scheduler/Machines.antt =====
-- src/ragplan/scheduler/states.py: `RequestStateMachine`, `BranchStateMachine` and the kill
-- switches. A method takes the clock's reading where the source reads the clock; a method that
-- raises leaves its machine as it was, so only a success carries a new machine.
pub mod Traces
pub mod Chronology
pub mod Switches
use oss.Prelude.{ℕ, Bool, true, false, some, none, List, [], ◌∷◌, ◌++◌, if◌then◌else◌}
use oss.Core.Errors.{Exception, rag, internal_error, ragplan_error, Result, ok, raise}
use oss.Core.Kinds.{RequestState, BranchStatus}
use oss.Core.Deadline.{Deadline, snapshot}

-- _REQUEST_TRANSITIONS
unfoldable pub request_transitions : RequestState → RequestState → Bool
request_transitions RequestState.received RequestState.analyzing = true
request_transitions RequestState.analyzing RequestState.planning = true
request_transitions RequestState.analyzing RequestState.failed = true
request_transitions RequestState.planning RequestState.executing = true
request_transitions RequestState.planning RequestState.failed = true
request_transitions RequestState.executing RequestState.fusing = true
request_transitions RequestState.executing RequestState.failed = true
request_transitions RequestState.fusing RequestState.reranking = true
request_transitions RequestState.fusing RequestState.complete = true
request_transitions RequestState.fusing RequestState.partial = true
request_transitions RequestState.fusing RequestState.failed = true
request_transitions RequestState.reranking RequestState.complete = true
request_transitions RequestState.reranking RequestState.partial = true
request_transitions RequestState.reranking RequestState.failed = true
request_transitions _ _ = false

-- _BRANCH_TRANSITIONS
unfoldable pub branch_transitions : BranchStatus → BranchStatus → Bool
branch_transitions BranchStatus.not_scheduled BranchStatus.running = true
branch_transitions BranchStatus.running BranchStatus.succeeded = true
branch_transitions BranchStatus.running BranchStatus.timed_out = true
branch_transitions BranchStatus.running BranchStatus.failed = true
branch_transitions BranchStatus.running BranchStatus.cancelled = true
branch_transitions _ _ = false

-- The error of both `transition` methods.
abbrev pub invalid_transition : Exception
invalid_transition = rag (ragplan_error internal_error (some false) none)

-- RequestStateEvent, in nanoseconds
pub record RequestStateEvent : Type 0 where
  pub state : RequestState
  pub elapsed_ns : ℕ
  pub remaining_budget_ns : ℕ
  pub branch_remaining_budget_ns : ℕ

-- RequestStateMachine._event
unfoldable pub event : Deadline → ℕ → RequestState → RequestStateEvent
unfolding snapshot
event deadline now state =
    let s = snapshot deadline now in
    record {
      state = state;
      elapsed_ns = s.elapsed_ns;
      remaining_budget_ns = s.remaining_ns;
      branch_remaining_budget_ns = s.branch_remaining_ns;
    }

pub record RequestStateMachine : Type 0 where
  pub deadline : Deadline
  pub state : RequestState
  pub events : List RequestStateEvent

-- RequestStateMachine.__init__
unfoldable pub init : Deadline → ℕ → RequestStateMachine
unfolding event
init deadline now = record {
  deadline = deadline;
  state = RequestState.received;
  events = event deadline now RequestState.received ∷ [];
}

-- RequestStateMachine.transition
unfoldable pub transition : RequestStateMachine → ℕ → RequestState → Result RequestStateMachine
unfolding request_transitions event
transition m now target =
    if request_transitions m.state target
    then ok (record m { state = target; events = m.events ++ event m.deadline now target ∷ [] })
    else raise invalid_transition

-- RequestStateMachine.fail_if_possible
unfoldable pub fail_if_possible : RequestStateMachine → ℕ → Result RequestStateMachine
unfolding transition
fail_if_possible m now =
    if request_transitions m.state RequestState.failed
    then transition m now RequestState.failed
    else ok m

-- BranchStateMachine.transition, on the machine's only field
unfoldable pub branch_transition : BranchStatus → BranchStatus → Result BranchStatus
unfolding branch_transitions
branch_transition state target =
    if branch_transitions state target then ok target else raise invalid_transition
