-- ===== src/Engine/Serve/Settled.antt =====
-- How a request of the engine ends: its state machine, its place in the admission, and the kill switch.
use oss.Prelude.{
  ℕ, Bool, true, false, Option, none, some, map, ◌≡◌, refl, sym, ap, ◌∙◌, subst, arith, inl, inr,
  Bool-cases, leb, if◌then◌else◌,
}
use oss.Core.Errors.{
  Exception, Result, ok, raise, raise_if, on_return, ok_injective, rag, ragplan_error, not_ready,
}
use oss.Core.Kinds.{RequestState}
use oss.Core.Deadline.{Deadline, start, snapshot}
use oss.Scheduler.Machines.{
  RequestStateMachine, init, transition, fail_if_possible, request_transitions,
}
use oss.Scheduler.Machines.Switches.{KillSwitchSnapshot}
use oss.Scheduler.Admission.{AdmissionController, enter, leave, over_capacity}
use oss.Scheduler.Report.{SchedulerExecution}
use oss.Scheduler.Execution.{execute}
use oss.Planner.Plan.{PlannerMode}
use oss.Planner.Rule.{PlannerDecision, QueryAnalysis, FallbackReason}
use oss.Retrieval.Hits.{RetrievalHit}
use oss.Engine.Requests.{SearchRequest, Overrides, check_modes, given, out_of_time}
use oss.Engine.Plans.{branch_work, call_kind}
use oss.Engine.Gate.{raise_if_no_usable_branch, rank_execution}
use oss.Engine.Traces.{
  SearchResponse, SearchStatus, complete, partial, check_scheduler_trace, check_response_trace,
}
use oss.Engine.Boundaries.{check_search_trace}
use oss.Engine.Execute.{requested_mode, analyze_request, plan_request}
use oss.Engine.Serve.{
  Attempt, calling, moving, Answers, Engine, final_state, scheduler_trace, search_trace,
  search_response, respond, fuse_and_respond, run_branches, look_at_graph, execute_request, Served,
  failing, recovered, run_search,
}

module _ {A : Type 0} (Q : A → RequestStateMachine → Type 0) where
  -- What is said of the response and the machine, if there is a response
  abbrev pub Holds : Attempt A → Type 0
  Holds (ok r, m) = Q r m
  Holds (raise e, m) = Unit

  pub calling-Holds {ℓ} :
      {X : Type ℓ} (call : Result X) (m : RequestStateMachine) (next : X → Attempt A)
      → ((x : X) → call ≡ ok x → Holds (next x))
      → Holds (calling call m next)
  calling-Holds (raise e) m next k = tt
  calling-Holds (ok x) m next k = k x refl

  pub moving-Holds :
      (m : RequestStateMachine) (call : Result RequestStateMachine)
      (next : RequestStateMachine → Attempt A)
      → ((m' : RequestStateMachine) → call ≡ ok m' → Holds (next m'))
      → Holds (moving m call next)
  moving-Holds m (raise e) next k = tt
  moving-Holds m (ok m') next k = k m' refl

  pub answer-Holds :
      (r : Result A) (m : RequestStateMachine) → ((a : A) → r ≡ ok a → Q a m) → Holds (r, m)
  answer-Holds (raise e) m k = tt
  answer-Holds (ok a) m k = k a refl

transition-state :
    (m m' : RequestStateMachine) (now : ℕ) (target : RequestState)
    → transition m now target ≡ ok m'
    → m'.state ≡ target
unfolding transition
transition-state m m' now target h = elim (Bool-cases (request_transitions m.state target)) [
  | inl legal ↦ sym (ap (λ (m : RequestStateMachine). m.state) (ok_injective (rw legal at h)))
  | inr refused ↦ absurd (let e = rw refused at h in cc)
]

-- The terminal state that a status stands for
abbrev pub state_of : SearchStatus → RequestState
state_of complete = RequestState.complete
state_of partial = RequestState.partial

final_state-status :
    (f : Option FallbackReason) → final_state f ≡ state_of (if given f then partial else complete)
final_state-status none = refl
final_state-status (some reason) = refl

module _ {Score Json Trace : Type 0} where
  -- The machine of a response is in the terminal state of its status.
  abbrev Finished : SearchResponse (RetrievalHit Score Json) Trace → RequestStateMachine → Type 0
  Finished r m = m.state ≡ state_of r.status

  module _ (engine : Engine Score Json) (request : SearchRequest) (o : Overrides)
      (deadline : Deadline) (switches : KillSwitchSnapshot) (limit : ℕ)
      (a : Answers (RetrievalHit Score Json) Trace) where
    pub respond-same :
        (analysis : QueryAnalysis) (d : PlannerDecision)
        (x : SchedulerExecution (RetrievalHit Score Json) Trace) (ranked : _)
        (m : RequestStateMachine) (r : SearchResponse (RetrievalHit Score Json) Trace)
        → respond request deadline switches limit analysis d x ranked a m ≡ ok r
        → search_response request deadline switches limit analysis d x ranked a m ≡ r
    unfolding respond
    respond-same analysis d x ranked m r h =
        on_return _
          (check_scheduler_trace
            (scheduler_trace request deadline switches limit analysis d x ranked a m))
          r h
          λ _ _ h1.
            on_return _
              (check_search_trace
                (search_trace request deadline switches limit analysis d x ranked a m))
              r h1
              λ _ _ h2.
                on_return _
                  (check_response_trace
                    (search_response request deadline switches limit analysis d x ranked a m))
                  r h2
                  λ _ _ h3.
                    on_return _
                      (raise_if (snapshot deadline a.returned).budget_violated out_of_time) r h3
                      λ _ _ h4. ok_injective h4

    fuse_and_respond-Finished :
        (mode : PlannerMode) (analysis : QueryAnalysis) (d : PlannerDecision)
        (x : SchedulerExecution (RetrievalHit Score Json) Trace) (m : RequestStateMachine)
        → Holds Finished
            (fuse_and_respond engine request o deadline switches limit a mode analysis d x m)
    unfolding fuse_and_respond search_response
    fuse_and_respond-Finished mode analysis d x m =
        moving-Holds Finished m (transition m a.at_fusing RequestState.fusing) _ λ m1 _.
          calling-Holds Finished
            (rank_execution engine.floats engine.same_value x.branch_results mode d request.top_k)
            m1 _
            λ ranked _.
              moving-Holds Finished m1 (transition m1 a.at_end (final_state ranked.fallback_reason))
                _
                λ m2 ends.
                  answer-Holds Finished
                    (respond request deadline switches limit analysis d x ranked a m2) m2
                    λ r e.
                      transition-state m1 m2 a.at_end (final_state ranked.fallback_reason) ends
                      ∙ final_state-status ranked.fallback_reason
                      ∙ ap
                          (λ (r : SearchResponse (RetrievalHit Score Json) Trace).
                            state_of r.status)
                          (respond-same analysis d x ranked m2 r e)

    execute_request-Finished :
        (m : RequestStateMachine)
        → Holds Finished (execute_request engine request o deadline switches limit a m)
    unfolding execute_request run_branches
    execute_request-Finished m = calling-Holds Finished (check_modes switches request o) m _ λ _ _.
        moving-Holds Finished m (transition m a.at_analyzing RequestState.analyzing) _ λ m1 _.
          calling-Holds Finished (requested_mode engine.catalog switches request o.profile_plan_id)
            m1 _
            λ mode _.
              calling-Holds Finished
                (analyze_request engine.planner request o mode deadline a.analysis) m1 _
                λ analysis _.
                  moving-Holds Finished m1 (transition m1 a.at_planning RequestState.planning) _
                    λ m2 _.
                      let looked = look_at_graph engine request o deadline switches limit a mode in
                      calling-Holds Finished
                        (plan_request engine.planner engine.catalog switches request o analysis
                          deadline looked.0 a.planned mode)
                        m2 _
                        λ planned _.
                          moving-Holds Finished m2
                            (transition m2 a.at_executing RequestState.executing) _
                            λ m3 _.
                              calling-Holds Finished (branch_work planned.0 planned.1) m3 _
                                λ works _.
                                  calling-Holds Finished
                                    (execute (map call_kind works) looked.1 deadline a.event_loop).0
                                    m3 _
                                    λ x _.
                                      calling-Holds Finished
                                        (raise_if_no_usable_branch x.branch_results) m3 _
                                        λ _ _.
                                          fuse_and_respond-Finished planned.0 analysis planned.1 x
                                            m3

-- The states that a request may be left in
abbrev pub is_settled : RequestState → Bool
is_settled RequestState.received = true
is_settled RequestState.failed = true
is_settled RequestState.complete = true
is_settled RequestState.partial = true
is_settled _ = false

module _ {Score Json Trace : Type 0} where
  -- A response with the machine in the terminal state of its status, or an exception with the machine at rest.
  abbrev pub IsSettled :
      Result (SearchResponse (RetrievalHit Score Json) Trace) → RequestStateMachine → Type 0
  IsSettled (ok r) m = m.state ≡ state_of r.status
  IsSettled (raise e) m = is_settled m.state ≡ true

  module _ (engine : Engine Score Json) (request : SearchRequest) (o : Overrides)
      (switches : KillSwitchSnapshot) (a : Answers (RetrievalHit Score Json) Trace) where
    failing-IsSettled :
        (now : ℕ) (e : Exception) (m : RequestStateMachine)
        → IsSettled
            (failing engine request o switches a now e m).0
            (failing engine request o switches a now e m).1
    unfolding fail_if_possible
    failing-IsSettled now e m = ground arith

    recovered-IsSettled :
        (now : ℕ) (t : Attempt (SearchResponse (RetrievalHit Score Json) Trace))
        → Holds (λ r m. m.state ≡ state_of r.status) t
        → IsSettled
            (recovered engine request o switches a now t).0
            (recovered engine request o switches a now t).1
    recovered-IsSettled now (ok r, m) h = h
    recovered-IsSettled now (raise e, m) h = failing-IsSettled now e m

    -- A request that is taken up ends at rest: with a response, in the terminal state of the response's status; with an
    -- exception, failed, or not begun, or already complete or partial. In any case it has left the admission.
    pub run_search-IsSettled :
        (closing : Bool) (admission : AdmissionController) (started received failed_at : ℕ)
        (s : Served Score Json Trace)
        → run_search engine request o switches a closing admission started received failed_at ≡ ok s
        → IsSettled s.answer s.machine × (s.admission.in_flight ≡ admission.in_flight)
    unfolding run_search enter leave
    run_search-IsSettled closing admission started received failed_at s h =
        on_return _ (start request.latency_budget_ms started) s h λ deadline _ h1.
          on_return _ (raise_if closing (rag (ragplan_error not_ready none none))) s h1 λ _ _ h2.
            subst
              (λ (s : Served Score Json Trace).
                IsSettled s.answer s.machine × (s.admission.in_flight ≡ admission.in_flight))
              (ok_injective h2)
              (elim (Bool-cases (leb admission.limit admission.in_flight)) [
                | inl full ↦
                    rw full
                      (failing-IsSettled failed_at over_capacity (init deadline received), refl)
                | inr free ↦ rw free (
                  recovered-IsSettled failed_at _ (
                      execute_request-Finished engine request o deadline switches admission.limit a
                        (init deadline received)),
                  omega arith,
                )
              ])
