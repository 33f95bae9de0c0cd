-- ===== src/Samples/Execution.antt =====
-- Runs of branches and of the executor. Hits and traces are numbers here.
use oss.Prelude.{ℕ, ◌≤◌, ◌≡◌, inr, refl, false, none, some, List, [], ◌∷◌, arith}
use oss.Core.Errors.{rag, ragplan_error, retrieval_failed, ok, raise, value_error}
use oss.Core.Kinds.{BranchKind, vector, graph, open_circuit, closed}
use oss.Scheduler.Circuit.{CircuitBreaker, acquire, record_failure}
use oss.Scheduler.Branch.{OperationEnd, returned, raised, Readings}
use oss.Scheduler.Branch.Run.{run_branch}
use oss.Scheduler.Branch.Shape.{IsSound, run_branch-IsSound}
use oss.Scheduler.Branch.Blame.{circuit_after, run_branch_tells_circuit}
use oss.Scheduler.Tasks.{EventLoop, not_started, Course, Wake, woken}
use oss.Scheduler.Execution.{execute}
use oss.Scheduler.Execution.Complete.{IsFair, IsAnswer}
use oss.Scheduler.Execution.Results.{IsComplete, execute-IsComplete, execute_refuses}
use oss.Samples.Core.{deadline}
use oss.Samples.Circuit.{breaker}

abbrev readings : Readings
readings = record { finished = 3_000_000; recorded = 3_000_001; second = 3_000_002 }

abbrev payload : OperationEnd ℕ ℕ
payload = returned (record { hits = 4 ∷ 7 ∷ []; graph_trace = some 1 })

abbrev broken : OperationEnd ℕ ℕ
broken = raised (rag (ragplan_error retrieval_failed none none))

abbrev opened : CircuitBreaker
opened = record breaker { state = open_circuit; failures = 2; open_until_ns = 9_000_000 }

run_branch-IsSound_example :
    IsSound vector (run_branch vector deadline none 2000 2001 readings breaker (λ c. c) payload)
run_branch-IsSound_example =
    run_branch-IsSound vector deadline none 2000 2001 readings breaker (λ c. c) payload
      (omega arith)

breaker_grants :
    acquire breaker 2001 ≡ (ok (record { state_before = closed; half_open_probe = false }), breaker)
unfolding acquire
breaker_grants = refl

run_branch_tells_circuit_example :
    circuit_after breaker
      (run_branch vector deadline none 2000 2001 readings breaker (λ c. c) broken)
    ≡ record breaker { failures = 1 }
unfolding acquire record_failure ragplan_error
run_branch_tells_circuit_example =
    run_branch_tells_circuit vector deadline none 2000 2001 readings breaker (λ c. c) broken
      {p = record { state_before = closed; half_open_probe = false }} {granted = breaker} refl
      (λ e. cc)

abbrev course : OperationEnd ℕ ℕ → Course ℕ ℕ
course end = record { starts = 2000; asks = 2001; readings = readings; others = λ c. c; end = end }

abbrev split : List BranchKind → Wake
split [] = woken [] []
split (k ∷ ks) = woken (k ∷ []) ks

abbrev finish_one : BranchKind → Course ℕ ℕ
finish_one vector = course payload
finish_one graph = course broken

-- One branch completes in each round.
abbrev loop : EventLoop ℕ ℕ
loop = record {
  now = λ n. 3000;
  wait = λ n pending. split pending;
  finishing = finish_one;
  cancelling = λ reason k. not_started;
  boundary = λ k. 200_000_000;
}

loop-IsFair : IsFair loop
loop-IsFair = record {
  answers = λ n pending. answers pending;
  finishing = λ k. forward k;
  cancelling = λ reason k. tt;
}
  where
    answers : (pending : List BranchKind) → IsAnswer pending (split pending)
    answers [] = (refl, λ k. refl)
    answers (j ∷ js) = (omega arith, λ k. ground arith)

    forward : (k : BranchKind) → (finish_one k).starts ≤ (finish_one k).readings.finished
    forward vector = omega arith
    forward graph = omega arith

abbrev works : List BranchKind
works = vector ∷ graph ∷ []

execute-IsComplete_example : IsComplete works loop (execute works (λ k. breaker) deadline loop).0
execute-IsComplete_example =
    execute-IsComplete works (λ k. breaker) deadline loop loop-IsFair (omega arith) (omega arith)
      refl

execute_refuses_example :
    ((execute (graph ∷ graph ∷ []) (λ k. breaker) deadline loop).0 ≡ raise value_error)
    × ((execute (graph ∷ graph ∷ []) (λ k. breaker) deadline loop).1.circuits ≡ (λ k. breaker))
execute_refuses_example =
    execute_refuses (graph ∷ graph ∷ []) (λ k. breaker) deadline loop (inr (inr refl))
