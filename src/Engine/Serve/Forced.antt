-- ===== src/Engine/Serve/Forced.antt =====
-- The kill switch for vector search, from the switch to the response.
use oss.Prelude.{
  ℕ, Bool, true, Option, none, some, List, [], ◌∷◌, map, ◌≡◌, refl, sym, ap, ◌∙◌, subst, arith, leb,
  if◌then◌else◌,
}
use oss.Core.Errors.{ok, on_return, ok_injective}
use oss.Core.Kinds.{BranchKind, vector, RequestState}
use oss.Core.Deadline.{Deadline}
use oss.Scheduler.Machines.{RequestStateMachine, transition}
use oss.Scheduler.Machines.Switches.{KillSwitchSnapshot}
use oss.Scheduler.Circuit.{CircuitBreaker}
use oss.Scheduler.Branch.{BranchResult}
use oss.Scheduler.Report.{SchedulerExecution}
use oss.Scheduler.Execution.{execute}
use oss.Scheduler.Execution.Complete.{IsFair}
use oss.Scheduler.Execution.Results.{IsComplete, execute-IsComplete}
use oss.Planner.Plan.{PlannerMode, vector_mode, PlanCatalog, plan_for_id}
use oss.Planner.Rule.{RulePlanner, PlannerDecision, QueryAnalysis, FallbackReason}
use oss.Planner.Rule.Fits.{planner_decision-same}
use oss.Retrieval.Hits.{RetrievalHit}
use oss.Engine.Requests.{SearchRequest, Overrides, check_modes}
use oss.Engine.Plans.{
  select_vector_plan, vector_decision, planning_time, branch_work, BranchCall, call_kind,
}
use oss.Engine.Gate.{raise_if_no_usable_branch, rank_execution}
use oss.Engine.Traces.{SearchResponse}
use oss.Engine.Execute.{requested_mode, analyze_request, plan_mode, plan_request}
use oss.Engine.Serve.{
  Answers, Engine, final_state, final_decision, search_trace, search_response, respond,
  fuse_and_respond, run_branches, look_at_graph, execute_request,
}
use oss.Engine.Serve.Settled.{Holds, calling-Holds, moving-Holds, answer-Holds, respond-same}

forced_decision :
    (catalog : PlanCatalog) (request : SearchRequest) (deadline : Deadline) (now : ℕ)
    (forced : Bool) (d : PlannerDecision)
    → select_vector_plan catalog request deadline now forced ≡ ok d
    → d.effective_mode ≡ vector_mode
unfolding select_vector_plan
forced_decision catalog request deadline now forced d h =
    on_return _ (plan_for_id catalog (if leb request.top_k 10 then 0 else 1)) d h λ plan _ h1.
      on_return _ (planning_time deadline now) d h1 λ remaining _ h2. sym (
        ap (λ (d : PlannerDecision). d.effective_mode)
          (planner_decision-same (vector_decision request plan remaining forced) d h2))

-- A decision for vector search
abbrev IsVector : PlannerMode × PlannerDecision → Type 0
IsVector (mode, d) = (mode ≡ vector_mode) × (d.effective_mode ≡ vector_mode)

forced_plan :
    (planner : RulePlanner) (catalog : PlanCatalog) (switches : KillSwitchSnapshot)
    (request : SearchRequest) (o : Overrides) (analysis : QueryAnalysis) (deadline : Deadline)
    (available : Bool) (now : ℕ) (mode : PlannerMode) (r : PlannerMode × PlannerDecision)
    → o.profile_plan_id ≡ none
    → mode ≡ vector_mode
    → plan_request planner catalog switches request o analysis deadline available now mode ≡ ok r
    → IsVector r
unfolding plan_request plan_mode
forced_plan planner catalog switches request o analysis deadline available now mode r unprofiled
      vectors h =
    on_return _ (select_vector_plan catalog request deadline now _) r
      (rw (unprofiled, vectors) at h)
      λ d chosen ends.
        subst IsVector (ok_injective ends)
          (refl, forced_decision catalog request deadline now _ d chosen)

forced_guards :
    (switches : KillSwitchSnapshot) (request : SearchRequest) (o : Overrides)
    → switches.vector_only ≡ true
    → check_modes switches request o ≡ ok tt
    → o.profile_plan_id ≡ none
unfolding check_modes
forced_guards switches request o forced h = ground arith

forced_mode :
    (catalog : PlanCatalog) (switches : KillSwitchSnapshot) (request : SearchRequest)
    (profile : Option ℕ) (mode : PlannerMode)
    → switches.vector_only ≡ true
    → profile ≡ none
    → requested_mode catalog switches request profile ≡ ok mode
    → mode ≡ vector_mode
forced_mode catalog switches request profile mode forced unprofiled h =
    sym (ok_injective (rw (unprofiled, forced) at h))

vector_works :
    (mode : PlannerMode) (d : PlannerDecision) (works : List BranchCall)
    → mode ≡ vector_mode
    → branch_work mode d ≡ ok works
    → map call_kind works ≡ vector ∷ []
unfolding branch_work
vector_works mode d works vectors h = ground arith

module _ {Score Json Trace : Type 0} (engine : Engine Score Json) (request : SearchRequest)
    (o : Overrides) (deadline : Deadline) (switches : KillSwitchSnapshot) (limit : ℕ)
    (a : Answers (RetrievalHit Score Json) Trace) where
  -- The response is that of a vector search.
  abbrev pub IsForced :
      SearchResponse (RetrievalHit Score Json) Trace → RequestStateMachine → Type 0
  IsForced r m =
      (r.planner_decision.effective_mode ≡ vector_mode)
      × (map (λ (b : BranchResult (RetrievalHit Score Json)). b.branch) r.trace.branch_results
          ≡ vector ∷ [])

  only_vector :
      (circuits : BranchKind → CircuitBreaker) (kinds : List BranchKind)
      (x : SchedulerExecution (RetrievalHit Score Json) Trace)
      → IsFair a.event_loop
      → kinds ≡ vector ∷ []
      → (execute kinds circuits deadline a.event_loop).0 ≡ ok x
      → map (λ (b : BranchResult (RetrievalHit Score Json)). b.branch) x.branch_results
        ≡ vector ∷ []
  only_vector circuits kinds x fair same e =
      let whole =
        execute-IsComplete (vector ∷ []) circuits deadline a.event_loop fair (omega arith)
          (omega arith) refl in
      (subst (IsComplete (vector ∷ []) a.event_loop)
        (ap (λ ks. (execute ks circuits deadline a.event_loop).0) (sym same) ∙ e) whole).0

  final_decision-mode :
      (d : PlannerDecision) (f : Option FallbackReason)
      → (final_decision d f).effective_mode ≡ d.effective_mode
  final_decision-mode d none = refl
  final_decision-mode d (some reason) = refl

  fuse_and_respond-IsForced :
      (mode : PlannerMode) (analysis : QueryAnalysis) (d : PlannerDecision)
      (x : SchedulerExecution (RetrievalHit Score Json) Trace) (m : RequestStateMachine)
      → d.effective_mode ≡ vector_mode
      → map (λ (b : BranchResult (RetrievalHit Score Json)). b.branch) x.branch_results
        ≡ vector ∷ []
      → Holds IsForced
          (fuse_and_respond engine request o deadline switches limit a mode analysis d x m)
  unfolding fuse_and_respond search_response search_trace
  fuse_and_respond-IsForced mode analysis d x m vectors only =
      moving-Holds IsForced m (transition m a.at_fusing RequestState.fusing) _ λ m1 _.
        calling-Holds IsForced
          (rank_execution engine.floats engine.same_value x.branch_results mode d request.top_k) m1
          _
          λ ranked _.
            moving-Holds IsForced m1 (transition m1 a.at_end (final_state ranked.fallback_reason)) _
              λ m2 _.
                answer-Holds IsForced
                  (respond request deadline switches limit analysis d x ranked a m2) m2
                  λ r e.
                    subst (λ (r : SearchResponse (RetrievalHit Score Json) Trace). IsForced r m2)
                      (respond-same engine request o deadline switches limit a analysis d x ranked
                        m2 r e)
                      (final_decision-mode d ranked.fallback_reason ∙ vectors, only)

  -- While the kill switch for vector search is set, every response is that of a vector search, whatever mode the request
  -- asks for: its decision is in vector mode and it has the result of the vector branch alone.
  pub execute_request-IsForced :
      (m : RequestStateMachine)
      → switches.vector_only ≡ true
      → IsFair a.event_loop
      → Holds IsForced (execute_request engine request o deadline switches limit a m)
  unfolding execute_request run_branches
  execute_request-IsForced m forced fair =
      calling-Holds IsForced (check_modes switches request o) m _ λ _ passed.
        let unprofiled = forced_guards switches request o forced passed in
        moving-Holds IsForced m (transition m a.at_analyzing RequestState.analyzing) _ λ m1 _.
          calling-Holds IsForced (requested_mode engine.catalog switches request o.profile_plan_id)
            m1 _
            λ mode named.
              calling-Holds IsForced
                (analyze_request engine.planner request o mode deadline a.analysis) m1 _
                λ analysis _.
                  moving-Holds IsForced m1 (transition m1 a.at_planning RequestState.planning) _
                    λ m2 _.
                      let looked = look_at_graph engine request o deadline switches limit a mode in
                      calling-Holds IsForced
                        (plan_request engine.planner engine.catalog switches request o analysis
                          deadline looked.0 a.planned mode)
                        m2 _
                        λ planned chosen.
                          let (vectors, decided) =
                            forced_plan engine.planner engine.catalog switches request o analysis
                              deadline looked.0 a.planned mode planned unprofiled
                              (forced_mode engine.catalog switches request o.profile_plan_id mode
                                forced unprofiled named)
                              chosen in
                          moving-Holds IsForced m2
                            (transition m2 a.at_executing RequestState.executing) _
                            λ m3 _.
                              calling-Holds IsForced (branch_work planned.0 planned.1) m3 _
                                λ works worked.
                                  calling-Holds IsForced
                                    (execute (map call_kind works) looked.1 deadline a.event_loop).0
                                    m3 _
                                    λ x ran.
                                      calling-Holds IsForced
                                        (raise_if_no_usable_branch x.branch_results) m3 _
                                        λ _ _.
                                          fuse_and_respond-IsForced planned.0 analysis planned.1 x
                                            m3 decided
                                            (only_vector looked.1 (map call_kind works) x fair
                                              (vector_works planned.0 planned.1 works vectors
                                                worked)
                                              ran)
