-- ===== src/Scheduler/Report.antt =====
-- The end of `SchedulerExecutor.execute` in src/ragplan/scheduler/executor.py: the results in the
-- order of the works, and what is read off them.
use mathlib.Core.List.{foldl}
use oss.Prelude.{ℕ, ◌-◌, min, max, Option, none, some, List, [], ◌∷◌, map, if◌then◌else◌}
use oss.Core.Errors.{key_error, Result, ok, raise, ◌>>=◌}
use oss.Core.Kinds.{BranchKind, vector, graph, CircuitState, same_kind}
use oss.Scheduler.Branch.{BranchOutcome, BranchResult}

pub record SchedulerExecution (Hit Trace : Type 0) : Type 0 where
  pub branch_results : List (BranchResult Hit)
  pub graph_trace : Option Trace
  pub branch_start_skew : ℕ
  pub vector_circuit_state : Option CircuitState
  pub graph_circuit_state : Option CircuitState

-- The instants at which the branches started.
abbrev pub starts : {Hit : Type 0} → List (BranchResult Hit) → List ℕ
starts [] = []
starts (r ∷ rs) = elim r.started_at [ some t ↦ t ∷ starts rs | none ↦ starts rs ]

abbrev pub skew : List ℕ → ℕ
skew [] = 0
skew (t ∷ ts) = foldl max t ts - foldl min t ts

-- `circuit_states.get(kind)`: of equal keys the last counts, but branches are unique
abbrev circuit_state : {Hit : Type 0} → BranchKind → List (BranchResult Hit) → Option CircuitState
circuit_state k [] = none
circuit_state k (r ∷ rs) =
    let rest = circuit_state k rs in if same_kind r.branch k then r.circuit_state_after else rest

module _ {Hit Trace : Type 0} where
  -- `tuple(outcomes[branch] for branch in kinds)`
  unfoldable pub ordered_outcomes :
      List BranchKind
      → (BranchKind → Option (BranchOutcome Hit Trace))
      → Result (List (BranchOutcome Hit Trace))
  ordered_outcomes [] outcomes = ok []
  ordered_outcomes (k ∷ ks) outcomes = do
    o ← elim (outcomes k) [ some o ↦ ok o | none ↦ raise key_error ]
    rest ← ordered_outcomes ks outcomes
    ok (o ∷ rest)

  -- `next((… if branch is GRAPH), None)`
  abbrev trace_of_graph : List (BranchOutcome Hit Trace) → Option Trace
  trace_of_graph [] = none
  trace_of_graph (o ∷ os) =
      let rest = trace_of_graph os in
      if same_kind o.result.branch graph then o.graph_trace else rest

  unfoldable pub finish : List (BranchOutcome Hit Trace) → SchedulerExecution Hit Trace
  finish os =
      let results = map (λ (o : BranchOutcome Hit Trace). o.result) os in
      record {
        branch_results = results;
        graph_trace = trace_of_graph os;
        branch_start_skew = skew (starts results);
        vector_circuit_state = circuit_state vector results;
        graph_circuit_state = circuit_state graph results;
      }
