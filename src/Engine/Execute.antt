-- ===== src/Engine/Execute.antt =====
-- `_execute_request`, `_run_search` and `_analyze` of src/ragplan/core/engine.py. What the collaborators
-- answer to one request is a parameter: the adaptive analyzer and the entity analyzer with their ends, the
-- tokenizer, the embedder, the answer of each clock reading, and the event loop of the scheduler.
pub mod Supply
use oss.Prelude.{
  ℕ, ◌+◌, ◌-◌, ◌*◌, max, Bool, true, false, not, ◌&&◌, ◌||◌, Option, none, some, List, [], ◌∷◌, map,
  any_of, leb, ltb, length, if◌then◌else◌,
}
use oss.Prelude.Text.{Text, same_text, is_empty}
use oss.Core.Ids.{TextLibrary, strip}
use oss.Ingestion.Normalize.{normalize_text}
use oss.Core.Errors.{
  Exception, Result, ok, raise, raise_if, value_error, rag, ragplan_error, not_ready,
  mode_unavailable, deadline_exceeded, application_deadline, ◌>>=◌, ◌>>◌,
}
use oss.Core.Kinds.{BranchKind, vector, graph, same_kind, RequestState, CircuitState, open_circuit}
use oss.Core.Deadline.{Deadline, snapshot, remaining, start}
use oss.Scheduler.Machines.{RequestStateMachine, init, transition, fail_if_possible}
use oss.Scheduler.Machines.Switches.{KillSwitchSnapshot, active}
use oss.Scheduler.Circuit.{CircuitBreaker}
use oss.Scheduler.Circuit
use oss.Scheduler.Branch.{BranchResult}
use oss.Scheduler.Report.{SchedulerExecution}
use oss.Scheduler.Tasks.{EventLoop}
use oss.Scheduler.Execution.{execute}
use oss.Planner.Plan.{
  PlannerMode, vector_mode, graph_mode, fixed_hybrid, rule, PlanDefinition, PlanCatalog,
  plan_for_id, min_top_k, max_top_k,
}
use oss.Planner.Rule.{RulePlanner, PlannerDecision, QueryAnalysis, QueryFeatures, FallbackReason}
use oss.Planner.Rule.Select.{select}
use oss.Retrieval.Hits.{RetrievalHit, FusionTrace}
use oss.Retrieval.Fusion.{Floats}
use oss.Engine.Requests.{
  SearchRequest, Overrides, check_modes, given, same_mode, mode_for_plan, violation, unavailable,
  out_of_time,
}
use oss.Engine.Plans.{
  select_vector_plan, select_graph_plan, select_fixed_plan, select_profile_plan, BranchCall,
  call_kind, branch_work, uses_vector,
}
use oss.Engine.Gate.{raise_if_no_usable_branch, rank_execution, RankedExecution}
use oss.Engine.Traces.{
  SchedulerTrace, SearchTrace, SearchResponse, SearchStatus, complete, partial,
  check_scheduler_trace, check_response_trace,
}

-- _stage3_features
unfoldable pub stage3_features : ℕ → ℕ → Result QueryFeatures
stage3_features token_count final_top_k = do
  raise_if (not (leb min_top_k final_top_k && leb final_top_k max_top_k)) value_error
  ok (record {
    token_count = token_count;
    entity_count = 0;
    entity_density = 0;
    relation_signal = 0;
    multi_hop_signal = 0;
    comparison_signal = 0;
    aggregation_signal = 0;
    global_signal = 0;
    final_top_k = final_top_k;
  })

-- QueryAnalysis(…) without graph seeds: the query is a NonEmptyString, which pydantic strips
unfoldable pub query_analysis : TextLibrary → QueryAnalysis → Result QueryAnalysis
query_analysis lib a = do
  let normalized = strip lib.is_white_space a.normalized_query
  raise_if (is_empty normalized) value_error
  ok (record a { normalized_query = normalized })

-- _is_p0_english, for Python's `str.isalpha` of one code point
unfoldable pub is_p0_english : (ℕ → Bool) → Text → Bool
is_p0_english isalpha query = not (any_of (λ c. isalpha c && not (ltb c 128)) query)

-- What the embedder comes to: a vector, an error of its own, or the timeout at the cutoff.
pub data EmbeddingEnd : Type 0 where
  embedded : EmbeddingEnd
  timed_out : EmbeddingEnd
  failed_by : Exception → EmbeddingEnd

abbrev embedding_deadline : Exception
embedding_deadline = rag (ragplan_error deadline_exceeded none (some application_deadline))

-- _embed_before_cutoff, without the vector itself; that a component is no number counts as an error of the embedder
unfoldable pub embed_before_cutoff : Deadline → ℕ → EmbeddingEnd → Result (Unit {0})
unfolding remaining
embed_before_cutoff deadline now end = do
  raise_if (leb (remaining deadline true now) 0) embedding_deadline
  elim end [ embedded ↦ ok tt | timed_out ↦ raise embedding_deadline | failed_by e ↦ raise e ]

-- What the collaborators answer while a query is analyzed, with the readings of the clock
pub record AnalysisAnswers : Type 0 where
  pub library : TextLibrary
  pub token_count : Text → Result ℕ
  pub isalpha : ℕ → Bool
  pub entity_analysis : Result QueryAnalysis
  pub adaptive_analysis : Result (QueryAnalysis × Text)
  pub embedding : EmbeddingEnd
  pub started : ℕ
  pub tokenized : ℕ
  pub embeds : ℕ
  pub analyzed : ℕ

-- The analysis of a vector request
unfoldable pub vector_analysis : SearchRequest → AnalysisAnswers → Result QueryAnalysis
unfolding stage3_features is_p0_english query_analysis normalize_text
vector_analysis request a = do
  let normalized = normalize_text a.library request.query
  token_count ← a.token_count normalized
  features ← stage3_features token_count request.top_k
  query_analysis a.library (record {
    normalized_query = normalized;
    language_supported = is_p0_english a.isalpha normalized;
    token_count = token_count;
    features = features;
    analysis_latency_ns = a.tokenized - a.started;
  })

-- _analyze
unfoldable pub analyze :
    SearchRequest → PlannerMode → Deadline → AnalysisAnswers → Result QueryAnalysis
unfolding vector_analysis embed_before_cutoff snapshot
analyze request mode deadline a = do
  analysis ← if same_mode mode vector_mode then vector_analysis request a else a.entity_analysis
  if uses_vector mode then embed_before_cutoff deadline a.embeds a.embedding else ok tt
  raise_if (leb (snapshot deadline a.analyzed).branch_remaining_ns 0) out_of_time
  ok analysis

-- The adaptive analysis, whose configuration must be the planner's
abbrev checked_analysis : RulePlanner → AnalysisAnswers → Result QueryAnalysis
unfolding same_text
checked_analysis planner a = a.adaptive_analysis >>= λ r.
    (raise_if (not (same_text r.1 planner.feature_config_sha256)) violation >> ok r.0)

-- The mode of a request, before the rule planner has decided
abbrev pub requested_mode :
    PlanCatalog → KillSwitchSnapshot → SearchRequest → Option ℕ → Result PlannerMode
requested_mode catalog switches request none =
    ok (if switches.vector_only then vector_mode else request.planner)
requested_mode catalog switches request (some plan_id) =
    plan_for_id catalog plan_id >>= mode_for_plan

-- The analysis of a request: for a profiled plan and for the rule planner the adaptive one
unfoldable pub analyze_request :
    RulePlanner
    → SearchRequest
    → Overrides
    → PlannerMode
    → Deadline
    → AnalysisAnswers
    → Result QueryAnalysis
unfolding analyze same_text
analyze_request planner request o mode deadline a = do
  analysis ←
      if given o.profile_plan_id || same_mode mode rule
      then checked_analysis planner a
      else analyze request mode deadline a
  raise_if
      (not analysis.language_supported
        && (not (same_mode mode vector_mode) && not (same_mode mode rule)))
      (rag (ragplan_error mode_unavailable (some false) none))
  ok analysis

module _ (planner : RulePlanner) (catalog : PlanCatalog) (switches : KillSwitchSnapshot)
    (request : SearchRequest) (o : Overrides) (analysis : QueryAnalysis) (deadline : Deadline)
    (graph_available : Bool) (now : ℕ) where
  abbrev pub in_mode : PlannerMode → Result PlannerDecision → Result (PlannerMode × PlannerDecision)
  in_mode mode decision = decision >>= λ d. ok (mode, d)

  -- The decision in a mode: the rule planner also decides the mode
  unfoldable pub plan_mode : PlannerMode → Result (PlannerMode × PlannerDecision)
  unfolding select select_vector_plan select_graph_plan select_fixed_plan
  plan_mode rule =
      select planner analysis deadline graph_available now >>= λ d. ok (d.effective_mode, d)
  plan_mode vector_mode = in_mode vector_mode (
      select_vector_plan catalog request deadline now
        (switches.vector_only && not (same_mode request.planner vector_mode)))
  plan_mode graph_mode =
      in_mode graph_mode (select_graph_plan catalog request deadline now o.graph_depth)
  plan_mode mode = in_mode mode (select_fixed_plan catalog request deadline now)

  -- The planning of a request: the mode that runs, and the decision
  unfoldable pub plan_request : PlannerMode → Result (PlannerMode × PlannerDecision)
  unfolding select_profile_plan plan_mode
  plan_request mode = elim o.profile_plan_id [
    | some plan_id ↦ in_mode mode (select_profile_plan catalog request deadline now plan_id)
    | none ↦ plan_mode mode
  ]
