-- ===== src/Engine/Gate.antt =====
-- `_raise_if_no_usable_branch` and `_rank_execution` of src/ragplan/core/engine.py: what becomes of the
-- branches' results.
pub mod Outcomes
use oss.Prelude.{
  ℕ, Bool, true, false, not, ◌&&◌, ◌||◌, Option, none, some, List, [], ◌∷◌, map, any_of, all_of,
  if◌then◌else◌,
}
use oss.Core.Errors.{
  Exception, ErrorCode, Result, ok, raise, raise_if, key_error, rag, ragplan_error,
  corpus_inconsistent, model_incompatible, plan_invariant_violation, internal_error,
  mode_unavailable, deadline_exceeded, dependency_unavailable, ◌>>=◌, ◌>>◌,
}
use oss.Core.Kinds.{BranchKind, vector, graph, BranchStatus, timed_out, cancelled, same_kind}
use oss.Scheduler.Branch.{BranchResult}
use oss.Scheduler.Branch.Shape.{is_succeeded}
use oss.Planner.Plan.{PlannerMode, vector_mode, graph_mode, PlanDefinition}
use oss.Planner.Rule.{
  PlannerDecision, FallbackReason, failed_branch, FailureDetail, by_code, by_status,
}
use oss.Retrieval.Hits.{RetrievalHit, FusionTrace}
use oss.Retrieval.Fusion.{Floats, FusionResult}
use oss.Retrieval.Fusion.Fused.{weighted_rrf_v1, annotate_single_source}

-- `fatal_codes`
abbrev pub is_fatal : ErrorCode → Bool
is_fatal corpus_inconsistent = true
is_fatal model_incompatible = true
is_fatal plan_invariant_violation = true
is_fatal internal_error = true
is_fatal _ = false

abbrev pub is_stopped : BranchStatus → Bool
is_stopped timed_out = true
is_stopped cancelled = true
is_stopped _ = false

abbrev pub is_unavailable : Option ErrorCode → Bool
is_unavailable (some mode_unavailable) = true
is_unavailable _ = false

abbrev fatal_or : Option ErrorCode → Option ErrorCode → Option ErrorCode
fatal_or none rest = rest
fatal_or (some code) rest = if is_fatal code then some code else rest

module _ {Hit : Type 0} where
  -- `fatal`
  unfoldable pub first_fatal : List (BranchResult Hit) → Option ErrorCode
  first_fatal [] = none
  first_fatal (r ∷ rs) = fatal_or r.error_code (first_fatal rs)

  abbrev pub succeeded : BranchResult Hit → Bool
  succeeded r = is_succeeded r.status

  abbrev pub stopped : BranchResult Hit → Bool
  stopped r = is_stopped r.status

  abbrev pub unavailable : BranchResult Hit → Bool
  unavailable r = is_unavailable r.error_code

  -- What is raised where no code is fatal
  unfoldable pub no_usable_branch : List (BranchResult Hit) → Result (Unit {0})
  unfolding ragplan_error
  no_usable_branch results =
      if any_of succeeded results
      then ok tt
      else if any_of stopped results
      then raise (rag (ragplan_error deadline_exceeded none none))
      else if all_of unavailable results
      then raise (rag (ragplan_error mode_unavailable none none))
      else raise (rag (ragplan_error dependency_unavailable none none))

  -- _raise_if_no_usable_branch
  unfoldable pub raise_if_no_usable_branch : List (BranchResult Hit) → Result (Unit {0})
  unfolding first_fatal no_usable_branch ragplan_error
  raise_if_no_usable_branch results = elim (first_fatal results) [
    | some code ↦ raise (rag (ragplan_error code (some false) none))
    | none ↦ no_usable_branch results
  ]

  -- `succeeded.get(branch)`: of equal keys the last counts
  unfoldable pub succeeded_of : BranchKind → List (BranchResult Hit) → Option (BranchResult Hit)
  succeeded_of k [] = none
  succeeded_of k (r ∷ rs) = elim (succeeded_of k rs) [
    | some later ↦ some later
    | none ↦ if succeeded r && same_kind r.branch k then some r else none
  ]

  abbrev pub hits_of : Option (BranchResult Hit) → Option (List Hit)
  hits_of none = none
  hits_of (some r) = some r.hits

  abbrev pub key_of : Option (BranchResult Hit) → Result (BranchResult Hit)
  key_of none = raise key_error
  key_of (some r) = ok r

  abbrev detail : BranchResult Hit → FailureDetail
  detail r = elim r.error_code [ some code ↦ by_code code | none ↦ by_status r.status ]

  -- `fallback_reason`: the first branch that failed, with its code or its status
  unfoldable pub fallback_of : List (BranchResult Hit) → Option FallbackReason
  fallback_of [] = none
  fallback_of (r ∷ rs) =
      let rest = fallback_of rs in
      if succeeded r then rest else some (failed_branch r.branch (detail r))

pub record RankedExecution (Score Json : Type 0) : Type 0 where
  pub hits : List (RetrievalHit Score Json)
  pub fusion_trace : Option FusionTrace
  pub fallback_reason : Option FallbackReason

module _ {Score Json : Type 0} (floats : Floats Score) (same_value : Json → Json → Bool) where
  -- The answer of a mode with one branch
  unfoldable pub rank_sole_source :
      BranchKind
      → ℕ
      → List (BranchResult (RetrievalHit Score Json))
      → Result (RankedExecution Score Json)
  unfolding succeeded_of annotate_single_source
  rank_sole_source k top_k results = do
    r ← key_of (succeeded_of k results)
    hits ← annotate_single_source floats same_value r.hits k top_k
    ok (record { hits = hits; fusion_trace = none; fallback_reason = none })

  -- The answer of both branches, or of the one that succeeded
  unfoldable pub rank_fused :
      PlanDefinition
      → ℕ
      → List (BranchResult (RetrievalHit Score Json))
      → Result (RankedExecution Score Json)
  unfolding succeeded_of weighted_rrf_v1 fallback_of
  rank_fused plan top_k results = do
    fusion ←
        weighted_rrf_v1 floats same_value (hits_of (succeeded_of vector results))
          (hits_of (succeeded_of graph results)) plan.vector_weight plan.graph_weight top_k
    ok (record {
      hits = fusion.hits;
      fusion_trace = some fusion.trace;
      fallback_reason = fallback_of results;
    })

  -- _rank_execution
  unfoldable pub rank_execution :
      List (BranchResult (RetrievalHit Score Json))
      → PlannerMode
      → PlannerDecision
      → ℕ
      → Result (RankedExecution Score Json)
  unfolding rank_sole_source rank_fused
  rank_execution results vector_mode d top_k = rank_sole_source vector top_k results
  rank_execution results graph_mode d top_k = rank_sole_source graph top_k results
  rank_execution results _ d top_k = rank_fused d.selected_plan top_k results
