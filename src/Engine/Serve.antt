-- ===== src/Engine/Serve.antt =====
-- `_execute_request` of src/ragplan/core/engine.py, from the guards to the response, and `_run_search` around
-- it. A request is an attempt: the response or the exception, with the state machine as it stands then.
pub mod Response
pub mod Settled
pub mod Forced
use oss.Prelude.{
  ℕ, ◌+◌, ◌-◌, ◌*◌, max, Bool, true, false, not, ◌&&◌, Option, none, some, List, [], ◌∷◌, map, leb,
  length, if◌then◌else◌,
}
use oss.Core.Errors.{
  Exception, Result, ok, raise, raise_if, rag, ragplan_error, not_ready, ◌>>=◌, ◌>>◌,
}
use oss.Core.Kinds.{BranchKind, vector, graph, same_kind, RequestState, CircuitState, open_circuit}
use oss.Core.Deadline.{Deadline, snapshot, start, nanoseconds_per_millisecond}
use oss.Scheduler.Machines.{RequestStateMachine, init, transition, fail_if_possible}
use oss.Scheduler.Machines.Switches.{KillSwitchSnapshot, active}
use oss.Scheduler.Circuit.{CircuitBreaker, CircuitSnapshot, snapshot as circuit_snapshot}
use oss.Scheduler.Admission.{AdmissionController, enter, leave}
use oss.Scheduler.Branch.{BranchResult}
use oss.Scheduler.Report.{SchedulerExecution}
use oss.Scheduler.Tasks.{EventLoop, Progress, update}
use oss.Scheduler.Execution.{execute}
use oss.Planner.Plan.{PlannerMode, rule, PlanCatalog}
use oss.Planner.Rule.{RulePlanner, PlannerDecision, QueryAnalysis, FallbackReason}
use oss.Retrieval.Hits.{RetrievalHit, FusionTrace}
use oss.Retrieval.Fusion.{Floats}
use oss.Engine.Requests.{SearchRequest, Overrides, check_modes, given, same_mode, out_of_time}
use oss.Engine.Plans.{branch_work, call_kind}
use oss.Engine.Gate.{raise_if_no_usable_branch, rank_execution, RankedExecution}
use oss.Engine.Traces.{
  SchedulerTrace, SearchTrace, SearchResponse, complete, partial, check_scheduler_trace,
  check_response_trace,
}
use oss.Engine.Boundaries.{check_search_trace}
use oss.Engine.Execute.{AnalysisAnswers, requested_mode, analyze_request, plan_request}

-- A response or an exception, with the state machine
abbrev pub Attempt : Type 0 → Type 0
Attempt A = Result A × RequestStateMachine

-- A call between two transitions
abbrev pub calling {ℓ} :
    {A : Type ℓ} {B : Type 0} → Result A → RequestStateMachine → (A → Attempt B) → Attempt B
calling (raise e) m next = (raise e, m)
calling (ok a) m next = next a

-- `states.transition(target)`
abbrev pub moving :
    {B : Type 0}
    → RequestStateMachine
    → Result RequestStateMachine
    → (RequestStateMachine → Attempt B)
    → Attempt B
moving m (raise e) next = (raise e, m)
moving m (ok m') next = next m'

-- The clock's readings on the way, and what the collaborators answer
pub record Answers (Hit Trace : Type 0) : Type 0 where
  pub analysis : AnalysisAnswers
  pub event_loop : EventLoop Hit Trace
  pub at_analyzing : ℕ
  pub at_planning : ℕ
  pub circuit_read : ℕ
  pub circuit_shown : ℕ
  pub planned : ℕ
  pub at_executing : ℕ
  pub at_fusing : ℕ
  pub fusing_started : ℕ
  pub fusing_ended : ℕ
  pub at_end : ℕ
  pub finalized : ℕ
  pub returned : ℕ

abbrev pub is_open : CircuitState → Bool
is_open open_circuit = true
is_open _ = false

module _ {Hit : Type 0} where
  -- SchedulerExecution.result_for
  abbrev pub result_for : BranchKind → List (BranchResult Hit) → Option (BranchResult Hit)
  result_for k [] = none
  result_for k (r ∷ rs) =
      let rest = result_for k rs in if same_kind r.branch k then some r else rest

  abbrev pub latency : Option (BranchResult Hit) → Option ℕ
  latency none = none
  latency (some r) = r.latency_ns

-- The decision that the response tells of
abbrev pub final_decision : PlannerDecision → Option FallbackReason → PlannerDecision
final_decision d none = d
final_decision d (some reason) = record d { fallback_reason = some reason }

abbrev pub final_state : Option FallbackReason → RequestState
final_state none = RequestState.complete
final_state (some _) = RequestState.partial

module _ {Score Json Trace : Type 0} (request : SearchRequest) (deadline : Deadline)
    (switches : KillSwitchSnapshot) (admission_limit : ℕ) (analysis : QueryAnalysis)
    (decision : PlannerDecision) (execution : SchedulerExecution (RetrievalHit Score Json) Trace)
    (ranked : RankedExecution Score Json) (a : Answers (RetrievalHit Score Json) Trace)
    (m : RequestStateMachine) where
  -- SchedulerTrace(…)
  unfoldable pub scheduler_trace : SchedulerTrace
  unfolding snapshot active
  scheduler_trace = record {
    state_events = m.events;
    actual_terminal_state = final_state ranked.fallback_reason;
    backend_task_count = length execution.branch_results;
    branch_start_skew = execution.branch_start_skew;
    deadline_overshoot =
        (snapshot deadline a.finalized).elapsed_ns
        - request.latency_budget_ms * nanoseconds_per_millisecond;
    admission_limit = admission_limit;
    kill_switches = active switches;
    vector_circuit_state = execution.vector_circuit_state;
    graph_circuit_state = execution.graph_circuit_state;
    fallback_reason = ranked.fallback_reason;
  }

  -- SearchTrace(…)
  unfoldable pub search_trace : SearchTrace (RetrievalHit Score Json) Trace
  unfolding snapshot scheduler_trace
  search_trace = record {
    query_length = length request.query;
    language_supported = analysis.language_supported;
    features = analysis.features;
    planner_decision = final_decision decision ranked.fallback_reason;
    branch_results = execution.branch_results;
    vector_latency = latency (result_for vector execution.branch_results);
    graph_latency = latency (result_for graph execution.branch_results);
    graph_trace = execution.graph_trace;
    fusion_latency = if given ranked.fusion_trace then a.fusing_ended - a.fusing_started else 0;
    fusion_trace = ranked.fusion_trace;
    scheduler_trace = scheduler_trace;
    total_latency = (snapshot deadline a.finalized).elapsed_ns;
    latency_budget_ms = request.latency_budget_ms;
    finalization_reserve = deadline.reserve_ns;
    budget_feasible = decision.budget_feasible;
    budget_violated = not (
        leb (snapshot deadline a.finalized).elapsed_ns
          (request.latency_budget_ms * nanoseconds_per_millisecond));
    fallback = given ranked.fallback_reason;
    result_count = length ranked.hits;
  }

  -- SearchResponse(…)
  unfoldable pub search_response : SearchResponse (RetrievalHit Score Json) Trace
  unfolding search_trace
  search_response = record {
    status = if given ranked.fallback_reason then partial else complete;
    results = ranked.hits;
    planner_decision = final_decision decision ranked.fallback_reason;
    trace = search_trace;
    fallback = given ranked.fallback_reason;
  }

  -- The end of _execute_request: the traces and the response are validated as they are built
  unfoldable pub respond : Result (SearchResponse (RetrievalHit Score Json) Trace)
  unfolding scheduler_trace search_trace search_response check_scheduler_trace check_search_trace
      check_response_trace snapshot
  respond = do
    check_scheduler_trace scheduler_trace
    check_search_trace search_trace
    check_response_trace search_response
    raise_if (snapshot deadline a.returned).budget_violated out_of_time
    ok search_response

-- The parts of BaselineSearchEngine that a request reads
pub record Engine (Score Json : Type 0) : Type 0 where
  pub floats : Floats Score
  pub same_value : Json → Json → Bool
  pub catalog : PlanCatalog
  pub planner : RulePlanner
  pub circuits : BranchKind → CircuitBreaker

module _ {Score Json Trace : Type 0} (engine : Engine Score Json) (request : SearchRequest)
    (o : Overrides) (deadline : Deadline) (switches : KillSwitchSnapshot) (admission_limit : ℕ)
    (a : Answers (RetrievalHit Score Json) Trace) where
  -- From the transition to FUSING on
  unfoldable pub fuse_and_respond :
      PlannerMode
      → QueryAnalysis
      → PlannerDecision
      → SchedulerExecution (RetrievalHit Score Json) Trace
      → RequestStateMachine
      → Attempt (SearchResponse (RetrievalHit Score Json) Trace)
  unfolding transition rank_execution respond
  fuse_and_respond mode analysis d execution m =
      moving m (transition m a.at_fusing RequestState.fusing) λ m.
        calling
          (rank_execution engine.floats engine.same_value execution.branch_results mode d
            request.top_k)
          m
          λ ranked. moving m (transition m a.at_end (final_state ranked.fallback_reason)) λ m.
            (respond request deadline switches admission_limit analysis d execution ranked a m, m)

  -- From the transition to EXECUTING on
  unfoldable pub run_branches :
      PlannerMode
      → QueryAnalysis
      → PlannerDecision
      → (BranchKind → CircuitBreaker)
      → RequestStateMachine
      → Attempt (SearchResponse (RetrievalHit Score Json) Trace)
  unfolding transition branch_work execute raise_if_no_usable_branch fuse_and_respond
  run_branches mode analysis d circuits m =
      moving m (transition m a.at_executing RequestState.executing) λ m.
        calling (branch_work mode d) m λ works.
          calling (execute (map call_kind works) circuits deadline a.event_loop).0 m λ execution.
            calling (raise_if_no_usable_branch execution.branch_results) m
              λ _. fuse_and_respond mode analysis d execution m

  -- The circuit of the graph, which the rule planner looks at, and the circuits after that
  abbrev pub look_at_graph : PlannerMode → Bool × (BranchKind → CircuitBreaker)
  look_at_graph rule = elim o.profile_plan_id [
    | some _ ↦ (true, engine.circuits)
    | none ↦
        let (s, c) = circuit_snapshot (engine.circuits graph) a.circuit_read a.circuit_shown in
        (not (is_open s.state), update engine.circuits graph c)
  ]
  look_at_graph _ = (true, engine.circuits)

  -- _execute_request
  unfoldable pub execute_request :
      RequestStateMachine → Attempt (SearchResponse (RetrievalHit Score Json) Trace)
  unfolding check_modes transition analyze_request plan_request run_branches
  execute_request m = calling (check_modes switches request o) m λ _.
      moving m (transition m a.at_analyzing RequestState.analyzing) λ m.
        calling (requested_mode engine.catalog switches request o.profile_plan_id) m λ mode.
          calling (analyze_request engine.planner request o mode deadline a.analysis) m λ analysis.
            moving m (transition m a.at_planning RequestState.planning) λ m.
              let (graph_available, circuits) = look_at_graph mode in
              calling
                (plan_request engine.planner engine.catalog switches request o analysis deadline
                  graph_available a.planned mode)
                m λ planned. run_branches planned.0 analysis planned.1 circuits m

-- What a request does to the engine: the attempt, the admission counter afterwards, and whether the
-- request's task was among the active ones.
pub record Served (Score Json Trace : Type 0) : Type 0 where
  pub answer : Result (SearchResponse (RetrievalHit Score Json) Trace)
  pub machine : RequestStateMachine
  pub admission : AdmissionController

module _ {Score Json Trace : Type 0} (engine : Engine Score Json) (request : SearchRequest)
    (o : Overrides) (switches : KillSwitchSnapshot)
    (a : Answers (RetrievalHit Score Json) Trace) where
  -- `except BaseException: states.fail_if_possible()`; a transition that is refused replaces the exception
  abbrev pub failing :
      ℕ → Exception → RequestStateMachine → Attempt (SearchResponse (RetrievalHit Score Json) Trace)
  failing now e m = elim (fail_if_possible m now) [
    | ok m' ↦ (raise e, m')
    | raise e' ↦ (raise e', m)
  ]

  abbrev pub recovered :
      ℕ
      → Attempt (SearchResponse (RetrievalHit Score Json) Trace)
      → Attempt (SearchResponse (RetrievalHit Score Json) Trace)
  recovered now (ok r, m) = (ok r, m)
  recovered now (raise e, m) = failing now e m

  abbrev pub served :
      AdmissionController
      → Attempt (SearchResponse (RetrievalHit Score Json) Trace)
      → Served Score Json Trace
  served admission (r, m) = record { answer = r; machine = m; admission = admission }

  -- The `try` of _run_search: the request is turned away, or runs inside the slot
  abbrev pub in_slot :
      ℕ
      → Deadline
      → RequestStateMachine
      → Result (Unit {0}) × AdmissionController
      → Served Score Json Trace
  in_slot failed_at deadline m (raise e, c) = served c (failing failed_at e m)
  in_slot failed_at deadline m (ok _, c) =
      served (leave c)
        (recovered failed_at (execute_request engine request o deadline switches c.limit a m))

  -- _run_search: the readings are those of the deadline's start, of the state machine's, and of a failure
  unfoldable pub run_search :
      Bool → AdmissionController → ℕ → ℕ → ℕ → Result (Served Score Json Trace)
  unfolding start init enter leave fail_if_possible execute_request
  run_search closing admission started received failed_at = do
    deadline ← start request.latency_budget_ms started
    let m = init deadline received
    raise_if closing (rag (ragplan_error not_ready none none))
    ok (in_slot failed_at deadline m (enter admission))
