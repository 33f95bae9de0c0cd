-- ===== src/Samples/Engine.antt =====
-- A request of the engine in fixed hybrid mode, of which the graph branch fails.
use oss.Prelude.{ℕ, ◌*◌, true, false, List, [], ◌∷◌, Option, none, some, ◌≡◌, refl, arith}
use oss.Prelude.Text.{Text, codes}
use oss.Core.Errors.{Result, ok, raise, rag, ragplan_error, retrieval_failed}
use oss.Core.Kinds.{BranchKind, BranchStatus, vector, graph, closed, RequestState, FailureOrigin}
use oss.Scheduler.Machines.{RequestStateMachine, init}
use oss.Scheduler.Machines.Switches.{KillSwitchSnapshot}
use oss.Scheduler.Branch.{BranchResult, OperationEnd, returned, raised, Readings}
use oss.Scheduler.Report.{SchedulerExecution}
use oss.Scheduler.Admission.{AdmissionController, over_capacity}
use oss.Scheduler.Tasks.{EventLoop, not_started, Course, Wake, woken}
use oss.Scheduler.Execution.Complete.{IsFair, IsAnswer}
use oss.Scheduler.Circuit.{acquire}
use oss.Scheduler.Branch.Run.{run_branch, settle}
use oss.Planner.Plan.{fixed_hybrid}
use oss.Planner.Rule.{PlannerDecision}
use oss.Retrieval.Hits.{RetrievalHit}
use oss.Retrieval.Fusion.Errors.{IsExpected}
use oss.Engine.Requests.{SearchRequest, Overrides, search_request}
use oss.Engine.Gate.{raise_if_no_usable_branch, rank_execution, RankedExecution}
use oss.Engine.Gate.Outcomes.{rank_execution-IsExpected}
use oss.Engine.Traces.{SearchResponse, SearchStatus, partial, check_response_trace}
use oss.Engine.Execute.{embedded}
use oss.Engine.Serve.{
  Answers, Engine, Served, search_response, execute_request, run_search, Attempt,
}
use oss.Engine.Serve.Response.{search_response-IsValid}
use oss.Engine.Serve.Settled.{Holds, IsSettled, run_search-IsSettled}
use oss.Engine.Serve.Forced.{IsForced, execute_request-IsForced}
use oss.Samples.Circuit.{breaker}
use oss.Samples.Planner.{
  sample_catalog, planner, relation_query, relation_decision, request_deadline, ms,
}
use oss.Samples.Ingestion.{small_python}
use oss.Samples.Fusion.{scaled, same_text_value, vector_found}

abbrev Found : Type 0
Found = RetrievalHit ℕ Text

abbrev engine : Engine ℕ Text
engine = record {
  floats = scaled;
  same_value = same_text_value;
  catalog = sample_catalog;
  planner = planner;
  circuits = λ k. breaker;
}

abbrev pub request : SearchRequest
request = record {
  query = codes "who works with whom";
  top_k = 12;
  latency_budget_ms = 200;
  planner = fixed_hybrid;
  plan_id = none;
}

request_valid : search_request request ≡ ok request
unfolding search_request
request_valid = refl

abbrev pub plain_overrides : Overrides
plain_overrides = record { graph_depth = none; profile_plan_id = none }

abbrev pub no_switches : KillSwitchSnapshot
no_switches = record { vector_only = false; no_cost_aware = false }

abbrev forced_switches : KillSwitchSnapshot
forced_switches = record { vector_only = true; no_cost_aware = false }

abbrev readings : Readings
readings = record { finished = 40 * ms; recorded = 40 * ms; second = 40 * ms }

abbrev branch_end : BranchKind → OperationEnd Found ℕ
branch_end vector = returned (record { hits = vector_found; graph_trace = none })
branch_end graph = raised (rag (ragplan_error retrieval_failed none none))

abbrev course : BranchKind → Course Found ℕ
course k = record {
  starts = 20 * ms;
  asks = 20 * ms;
  readings = readings;
  others = λ c. c;
  end = branch_end k;
}

abbrev split : List BranchKind → Wake
split [] = woken [] []
split (k ∷ ks) = woken (k ∷ []) ks

abbrev loop : EventLoop Found ℕ
loop = record {
  now = λ n. 30 * ms;
  wait = λ n pending. split pending;
  finishing = course;
  cancelling = λ reason k. not_started;
  boundary = λ k. 200 * ms;
}

loop-IsFair : IsFair loop
loop-IsFair = record {
  answers = λ n pending. answers pending;
  finishing = λ k. omega arith;
  cancelling = λ reason k. tt;
}
  where
    answers : (pending : List BranchKind) → IsAnswer pending (split pending)
    answers [] = (refl, λ k. refl)
    answers (j ∷ js) = (omega arith, λ k. ground arith)

abbrev answers : Answers Found ℕ
answers = record {
  analysis = record {
    library = small_python;
    token_count = λ _. ok 4;
    isalpha = λ c. true;
    entity_analysis = ok relation_query;
    adaptive_analysis = ok (relation_query, codes "");
    embedding = embedded;
    started = 1 * ms;
    tokenized = 2 * ms;
    embeds = 3 * ms;
    analyzed = 4 * ms;
  };
  event_loop = loop;
  at_analyzing = 1 * ms;
  at_planning = 5 * ms;
  circuit_read = 6 * ms;
  circuit_shown = 6 * ms;
  planned = 7 * ms;
  at_executing = 8 * ms;
  at_fusing = 50 * ms;
  fusing_started = 50 * ms;
  fusing_ended = 51 * ms;
  at_end = 52 * ms;
  finalized = 53 * ms;
  returned = 54 * ms;
}

abbrev machine : RequestStateMachine
unfolding init
machine = init request_deadline 0

-- The status of the answer and the last state, where there is an answer
abbrev summary : Attempt (SearchResponse Found ℕ) → Option (SearchStatus × RequestState)
summary (ok r, m) = some (r.status, m.state)
summary (raise e, m) = none

partial_run :
    summary (
      execute_request engine request plain_overrides request_deadline no_switches 32 answers
        machine)
    ≡ some (partial, RequestState.partial)
unfolding execute_request machine run_branch acquire settle
partial_run = refl

-- The results of that run, and the answer made of them
abbrev vector_result : BranchResult Found
vector_result = record {
  branch = vector;
  status = BranchStatus.succeeded;
  latency_ns = some (20 * ms);
  hits = vector_found;
  error_code = none;
  hit_count = 2;
  started_at = some (20 * ms);
  ended_at = some (40 * ms);
  remaining_at_start = some (170 * ms);
  remaining_at_end = some (150 * ms);
  cancellation_reason = none;
  failure_origin = none;
  timeout_origin = none;
  circuit_state_before = some closed;
  circuit_state_after = some closed;
}

abbrev graph_result : BranchResult Found
graph_result = record vector_result {
  branch = graph;
  status = BranchStatus.failed;
  hits = [];
  error_code = some retrieval_failed;
  hit_count = 0;
  failure_origin = some FailureOrigin.backend_native;
}

abbrev results : List (BranchResult Found)
results = vector_result ∷ graph_result ∷ []

abbrev execution : SchedulerExecution Found ℕ
execution = record {
  branch_results = results;
  graph_trace = none;
  branch_start_skew = 0;
  vector_circuit_state = some closed;
  graph_circuit_state = some closed;
}

abbrev hybrid_decision : PlannerDecision
hybrid_decision = record relation_decision { mode = fixed_hybrid }

abbrev ranked_or : RankedExecution ℕ Text → Result (RankedExecution ℕ Text) → RankedExecution ℕ Text
ranked_or r (ok r') = r'
ranked_or r (raise e) = r

abbrev ranked : RankedExecution ℕ Text
unfolding rank_execution
ranked =
    ranked_or (record { hits = []; fusion_trace = none; fallback_reason = none })
      (rank_execution scaled same_text_value results fixed_hybrid hybrid_decision 12)

results_pass : raise_if_no_usable_branch results ≡ ok tt
unfolding raise_if_no_usable_branch
results_pass = refl

results_rank :
    rank_execution scaled same_text_value results fixed_hybrid hybrid_decision 12 ≡ ok ranked
unfolding rank_execution ranked
results_rank = refl

rank_execution-IsExpected_example :
    IsExpected (rank_execution scaled same_text_value results fixed_hybrid hybrid_decision 12)
rank_execution-IsExpected_example =
    rank_execution-IsExpected scaled same_text_value results fixed_hybrid hybrid_decision 12 refl
      results_pass

search_response-IsValid_example :
    check_response_trace (
      search_response request request_deadline no_switches 32 relation_query hybrid_decision
        execution ranked answers machine)
    ≡ ok tt
search_response-IsValid_example =
    search_response-IsValid scaled same_text_value request request_deadline no_switches 32
      relation_query hybrid_decision execution ranked answers machine fixed_hybrid refl
      (refl, (refl, tt)) results_pass results_rank

execute_request-IsForced_example :
    Holds (IsForced engine request plain_overrides request_deadline forced_switches 32 answers) (
      execute_request engine request plain_overrides request_deadline forced_switches 32 answers
        machine)
execute_request-IsForced_example =
    execute_request-IsForced engine request plain_overrides request_deadline forced_switches 32
      answers machine refl loop-IsFair

abbrev full_hall : AdmissionController
full_hall = record { limit = 32; in_flight = 32 }

abbrev turned_away : Served ℕ Text ℕ
unfolding init
turned_away = record {
  answer = raise over_capacity;
  machine = init request_deadline 0;
  admission = full_hall;
}

turned_away_run :
    run_search engine request plain_overrides no_switches answers false full_hall 0 0 (60 * ms)
    ≡ ok turned_away
unfolding run_search turned_away
turned_away_run = refl

abbrev hall : AdmissionController
hall = record { limit = 32; in_flight = 3 }

abbrev served_or : Served ℕ Text ℕ → Result (Served ℕ Text ℕ) → Served ℕ Text ℕ
served_or s (ok s') = s'
served_or s (raise e) = s

-- The same request through the admission, three others being inside
abbrev taken_up : Served ℕ Text ℕ
unfolding run_search turned_away
taken_up =
    served_or turned_away
      (run_search engine request plain_overrides no_switches answers false hall 0 0 (60 * ms))

taken_up_run :
    run_search engine request plain_overrides no_switches answers false hall 0 0 (60 * ms)
    ≡ ok taken_up
unfolding run_search taken_up
taken_up_run = refl

run_search-IsSettled_example :
    IsSettled taken_up.answer taken_up.machine × (taken_up.admission.in_flight ≡ 3)
run_search-IsSettled_example =
    run_search-IsSettled engine request plain_overrides no_switches answers false hall 0 0 (60 * ms)
      taken_up taken_up_run
