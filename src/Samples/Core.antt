-- ===== src/Samples/Core.antt =====
-- Deadlines and the state machines of a request and a branch.
use oss.Prelude.{length, ◌≤◌, ◌≡◌, inl, refl, List, [], ◌∷◌, arith}
use oss.Core.Errors.{ok, raise, value_error}
use oss.Core.Kinds.{RequestState}
use oss.Core.Deadline.{Deadline, start}
use oss.Core.Deadline.Bounds.{IsValid, start-IsValid, start_refuses}
use oss.Scheduler.Machines.{RequestStateMachine, init}
use oss.Scheduler.Machines.Traces.{
  Call, to_state, to_failed, perform_all, request_events_follow_table, terminal_request_final,
  IsTrace,
}
use oss.Scheduler.Machines.Chronology.{IsChronological, request_events-IsChronological}

-- The deadline of a request of 200 ms that starts at 1000 ns.
abbrev pub deadline : Deadline
deadline = record {
  start_ns = 1000;
  absolute_ns = 200_001_000;
  branch_cutoff_ns = 190_001_000;
  budget_ms = 200;
  reserve_ns = 10_000_000;
}

start_runs : start 200 1000 ≡ ok deadline
unfolding start
start_runs = refl

deadline-IsValid : IsValid deadline
deadline-IsValid = ground arith

start-IsValid_example :
    (d : Deadline) × (start 200 1000 ≡ ok d) × IsValid d × (d.start_ns ≡ 1000) × (d.budget_ms ≡ 200)
start-IsValid_example = start-IsValid 200 1000 (omega arith) (omega arith)

start_refuses_example : start 24 1000 ≡ raise value_error
start_refuses_example = start_refuses 24 1000 (inl (omega arith))

-- A request that skips a state, is refused, and goes on.
abbrev calls : List Call
calls =
    to_state 2000 RequestState.analyzing
    ∷ to_state 2500 RequestState.fusing
    ∷ to_state 3000 RequestState.planning
    ∷ to_failed 4000
    ∷ to_state 5000 RequestState.executing
    ∷ []

abbrev ended : RequestStateMachine
ended = perform_all (init deadline 1000) calls

ended_failed : ended.state ≡ RequestState.failed
unfolding perform_all init
ended_failed = refl

request_events_follow_table_example : IsTrace ended × (length ended.events ≤ 7)
request_events_follow_table_example = request_events_follow_table deadline 1000 calls

request_events-IsChronological_example : IsChronological ended.events
request_events-IsChronological_example =
    request_events-IsChronological deadline 1000 calls (omega arith)

terminal_request_final_example : perform_all ended calls ≡ ended
unfolding perform_all init
terminal_request_final_example = terminal_request_final ended calls refl
