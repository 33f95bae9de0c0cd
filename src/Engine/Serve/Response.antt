-- ===== src/Engine/Serve/Response.antt =====
-- The response that the engine builds meets the contract of SearchResponse.
use oss.Prelude.{
  ℕ, Bool, true, false, not, List, [], ◌∷◌, map, ◌≡◌, refl, sym, ◌∙◌, arith, any_of, length, ◌==◌,
  ==_iff, All,
}
use oss.Core.Errors.{ok}
use oss.Core.Deadline.{Deadline}
use oss.Scheduler.Machines.{RequestStateMachine}
use oss.Scheduler.Machines.Switches.{KillSwitchSnapshot}
use oss.Scheduler.Branch.{BranchResult}
use oss.Scheduler.Branch.Shape.{is_terminal, is_succeeded}
use oss.Scheduler.Report.{SchedulerExecution}
use oss.Planner.Plan.{PlannerMode}
use oss.Planner.Rule.{PlannerDecision, QueryAnalysis}
use oss.Retrieval.Hits.{RetrievalHit}
use oss.Retrieval.Fusion.{Floats}
use oss.Engine.Requests.{SearchRequest}
use oss.Engine.Plans.{mode_kinds}
use oss.Engine.Gate.{succeeded, raise_if_no_usable_branch, rank_execution, RankedExecution}
use oss.Engine.Gate.Outcomes.{gate_passes, rank_execution_tells_failures}
use oss.Engine.Traces.{check_response_trace, is_running, scheduled_and, has_failed}
use oss.Engine.Serve.{Answers, search_trace, search_response}

module _ {Hit : Type 0} where
  abbrev pub AllTerminal : List (BranchResult Hit) → Type 0
  AllTerminal rs = All (λ (r : BranchResult Hit). is_terminal r.status ≡ true) rs

  none_running : (rs : List (BranchResult Hit)) → AllTerminal rs → any_of is_running rs ≡ false
  none_running [] h = refl
  none_running (r ∷ rs) h = let rest = none_running rs h.1 in let here = h.0 in ground arith

  successes :
      (rs : List (BranchResult Hit))
      → AllTerminal rs
      → any_of (scheduled_and is_succeeded) rs ≡ any_of succeeded rs
  successes [] h = refl
  successes (r ∷ rs) h = let rest = successes rs h.1 in let here = h.0 in ground arith

  failures :
      (rs : List (BranchResult Hit))
      → AllTerminal rs
      → any_of (scheduled_and (λ s. not (is_succeeded s))) rs ≡ any_of (λ r. not (succeeded r)) rs
  failures [] h = refl
  failures (r ∷ rs) h = let rest = failures rs h.1 in let here = h.0 in ground arith

  failed_statuses :
      (rs : List (BranchResult Hit))
      → AllTerminal rs
      → any_of (scheduled_and has_failed) rs ≡ any_of (λ r. not (succeeded r)) rs
  failed_statuses [] h = refl
  failed_statuses (r ∷ rs) h = let rest = failed_statuses rs h.1 in let here = h.0 in ground arith

module _ {Score Json Trace : Type 0} (floats : Floats Score) (same_value : Json → Json → Bool)
    (request : SearchRequest) (deadline : Deadline) (switches : KillSwitchSnapshot)
    (admission_limit : ℕ) (analysis : QueryAnalysis) (decision : PlannerDecision)
    (execution : SchedulerExecution (RetrievalHit Score Json) Trace)
    (ranked : RankedExecution Score Json) (a : Answers (RetrievalHit Score Json) Trace)
    (m : RequestStateMachine) where
  -- The response of an execution whose results are terminal, one for each branch of the mode, and of which the gate lets
  -- through the answer, passes the validator of SearchResponse: it is complete exactly if every branch succeeded, and
  -- partial only beside a success and a failure.
  pub search_response-IsValid :
      (mode : PlannerMode)
      → map (λ (r : BranchResult (RetrievalHit Score Json)). r.branch) execution.branch_results
        ≡ mode_kinds mode
      → AllTerminal execution.branch_results
      → raise_if_no_usable_branch execution.branch_results ≡ ok tt
      → rank_execution floats same_value execution.branch_results mode decision request.top_k
        ≡ ok ranked
      → check_response_trace (
          search_response request deadline switches admission_limit analysis decision execution
            ranked a m)
        ≡ ok tt
  unfolding check_response_trace search_response search_trace
  search_response-IsValid mode kinds ended gate answer =
      let rs = execution.branch_results in
      let fell =
        rank_execution_tells_failures floats same_value rs mode decision request.top_k ranked kinds
          gate answer in
      let used = ((gate_passes rs).0 gate).1 in
      let counted : (length ranked.hits == length ranked.hits) ≡ true = (==_iff _ _).1 refl in
      let still = none_running rs ended in
      let good = successes rs ended ∙ used in
      let bad = failures rs ended ∙ sym fell in
      let bad' = failed_statuses rs ended ∙ sym fell in ground arith
