-- ===== src/Engine/Gate/Outcomes.antt =====
-- When a request has a usable branch, and what its answer is then made of.
use oss.Prelude.{
  ℕ, suc, ◌≤◌, Bool, true, false, not, none, some, List, [], ◌∷◌, map, ◌≡◌, ◌↔◌, refl, sym, ap, ◌∙◌,
  arith, any_of, length, take, length-take, le→leb,
}
use oss.Core.Errors.{ok, on_return, ok_injective}
use oss.Core.Kinds.{BranchKind, vector, graph}
use oss.Scheduler.Branch.{BranchResult}
use oss.Planner.Plan.{PlannerMode, vector_mode, graph_mode, fixed_hybrid, rule, cost_aware}
use oss.Planner.Rule.{PlannerDecision}
use oss.Retrieval.Hits.{RetrievalHit}
use oss.Retrieval.Fusion.{Floats, index_branch}
use oss.Retrieval.Fusion.Fused.{weighted_rrf_v1, annotate_single_source, annotated}
use oss.Retrieval.Fusion.Candidates.{index_branch-same}
use oss.Retrieval.Fusion.Errors.{
  IsExpected, IsExpected-then, index_branch-IsExpected, weighted_rrf_v1-IsExpected,
}
use oss.Engine.Requests.{given}
use oss.Engine.Plans.{mode_kinds}
use oss.Engine.Gate.{
  is_fatal, first_fatal, succeeded, no_usable_branch, raise_if_no_usable_branch, succeeded_of,
  hits_of, key_of, fallback_of, RankedExecution, rank_sole_source, rank_fused, rank_execution,
}

module _ {Hit : Type 0} where
  -- A branch failed with a code that no other branch makes up for.
  abbrev pub fatally_failed : BranchResult Hit → Bool
  fatally_failed r = elim r.error_code [ some code ↦ is_fatal code | none ↦ false ]

  first_fatal-none :
      (rs : List (BranchResult Hit)) → (first_fatal rs ≡ none) ↔ (any_of fatally_failed rs ≡ false)
  unfolding first_fatal
  first_fatal-none [] = (λ _. refl, λ _. refl)
  first_fatal-none (r ∷ rs) = ground (arith, first_fatal-none rs)

  -- The gate lets a request through exactly if no branch failed fatally and some branch succeeded.
  pub gate_passes :
      (rs : List (BranchResult Hit))
      → (raise_if_no_usable_branch rs ≡ ok tt)
        ↔ ((any_of fatally_failed rs ≡ false) × (any_of succeeded rs ≡ true))
  unfolding raise_if_no_usable_branch no_usable_branch
  gate_passes rs = ground (arith, first_fatal-none rs)

  fallback_of-given :
      (rs : List (BranchResult Hit)) → given (fallback_of rs) ≡ any_of (λ r. not (succeeded r)) rs
  unfolding fallback_of
  fallback_of-given [] = refl
  fallback_of-given (r ∷ rs) = ground (arith, fallback_of-given rs)

  -- A sole result that the gate lets through is a success of the branch that ran.
  sole_success :
      (k : BranchKind) (rs : List (BranchResult Hit))
      → map (λ (r : BranchResult Hit). r.branch) rs ≡ k ∷ []
      → any_of succeeded rs ≡ true
      → (r : BranchResult Hit) × (rs ≡ r ∷ []) × (succeeded_of k rs ≡ some r) × (succeeded r ≡ true)
  unfolding succeeded_of
  sole_success k [] h u = absurd (cc)
  sole_success vector (r ∷ []) h u =
      let good : succeeded r ≡ true = ground arith in
      let kind : r.branch ≡ vector = cc in (r, refl, rw (good, kind) refl, good)
  sole_success graph (r ∷ []) h u =
      let good : succeeded r ≡ true = ground arith in
      let kind : r.branch ≡ graph = cc in (r, refl, rw (good, kind) refl, good)
  sole_success k (r ∷ s ∷ rs) h u = absurd (cc)

module _ {Score Json : Type 0} (floats : Floats Score) (same_value : Json → Json → Bool) where
  length-annotated :
      (k : BranchKind) (rank : ℕ) (hits : List (RetrievalHit Score Json))
      → length (annotated floats same_value k rank hits) ≡ length hits
  unfolding annotated
  length-annotated k rank [] = refl
  length-annotated k rank (h ∷ hits) = ap suc (length-annotated k (suc rank) hits)

  annotate_single_source-IsExpected :
      (hits : List (RetrievalHit Score Json)) (k : BranchKind) (top_k : ℕ)
      → IsExpected (annotate_single_source floats same_value hits k top_k)
  unfolding annotate_single_source
  annotate_single_source-IsExpected hits k top_k =
      IsExpected-then (index_branch (some hits) k) _ (index_branch-IsExpected (some hits) k)
        λ indexed found.
          let fits : length (annotated floats same_value k 1 (take top_k hits)) ≤ length indexed =
            omega (
              arith,
              length-annotated k 1 (take top_k hits),
              length-take top_k hits,
              ap length (index_branch-same (some hits) k indexed found),
            ) in
          rw (le→leb _ _ fits) tt

  rank_sole_source-IsExpected :
      (k : BranchKind) (top_k : ℕ) (rs : List (BranchResult (RetrievalHit Score Json)))
      → map (λ (r : BranchResult (RetrievalHit Score Json)). r.branch) rs ≡ k ∷ []
      → any_of succeeded rs ≡ true
      → IsExpected (rank_sole_source floats same_value k top_k rs)
  unfolding rank_sole_source
  rank_sole_source-IsExpected k top_k rs h u =
      let (r, _, found, _) = sole_success k rs h u in
      rw found (
        IsExpected-then (annotate_single_source floats same_value r.hits k top_k) _
          (annotate_single_source-IsExpected r.hits k top_k) λ _ _. tt)

  rank_fused-IsExpected :
      (plan : _) (top_k : ℕ) (rs : List (BranchResult (RetrievalHit Score Json)))
      → IsExpected (rank_fused floats same_value plan top_k rs)
  unfolding rank_fused
  rank_fused-IsExpected plan top_k rs =
      IsExpected-then
        (weighted_rrf_v1 floats same_value (hits_of (succeeded_of vector rs))
          (hits_of (succeeded_of graph rs)) plan.vector_weight plan.graph_weight top_k)
        _
        (weighted_rrf_v1-IsExpected floats same_value (hits_of (succeeded_of vector rs))
          (hits_of (succeeded_of graph rs)) plan.vector_weight plan.graph_weight top_k)
        λ _ _. tt

  -- Behind the gate, with one result for each branch of the mode, the ranking never misses a branch: it returns, or raises
  -- ValueError for a wrong weight or `top_k`, or the error of inconsistent branches.
  pub rank_execution-IsExpected :
      (rs : List (BranchResult (RetrievalHit Score Json))) (mode : PlannerMode)
      (d : PlannerDecision) (top_k : ℕ)
      → map (λ (r : BranchResult (RetrievalHit Score Json)). r.branch) rs ≡ mode_kinds mode
      → raise_if_no_usable_branch rs ≡ ok tt
      → IsExpected (rank_execution floats same_value rs mode d top_k)
  unfolding rank_execution
  rank_execution-IsExpected rs vector_mode d top_k h g =
      rank_sole_source-IsExpected vector top_k rs h ((gate_passes rs).0 g).1
  rank_execution-IsExpected rs graph_mode d top_k h g =
      rank_sole_source-IsExpected graph top_k rs h ((gate_passes rs).0 g).1
  rank_execution-IsExpected rs fixed_hybrid d top_k h g =
      rank_fused-IsExpected d.selected_plan top_k rs
  rank_execution-IsExpected rs rule d top_k h g = rank_fused-IsExpected d.selected_plan top_k rs
  rank_execution-IsExpected rs cost_aware d top_k h g =
      rank_fused-IsExpected d.selected_plan top_k rs

  sole_tells_failures :
      (k : BranchKind) (top_k : ℕ) (rs : List (BranchResult (RetrievalHit Score Json)))
      (a : RankedExecution Score Json)
      → map (λ (r : BranchResult (RetrievalHit Score Json)). r.branch) rs ≡ k ∷ []
      → any_of succeeded rs ≡ true
      → rank_sole_source floats same_value k top_k rs ≡ ok a
      → given a.fallback_reason ≡ any_of (λ r. not (succeeded r)) rs
  unfolding rank_sole_source
  sole_tells_failures k top_k rs a h u e =
      let (r, same, _, good) = sole_success k rs h u in
      on_return _ (key_of (succeeded_of k rs)) a e λ r' _ e1.
        on_return _ (annotate_single_source floats same_value r'.hits k top_k) a e1 λ hits _ e2.
          let none_given =
            ap (λ (x : RankedExecution Score Json). given x.fallback_reason) (ok_injective e2) in
          rw (same, good) (sym none_given)

  fused_tells_failures :
      (plan : _) (top_k : ℕ) (rs : List (BranchResult (RetrievalHit Score Json)))
      (a : RankedExecution Score Json)
      → rank_fused floats same_value plan top_k rs ≡ ok a
      → given a.fallback_reason ≡ any_of (λ r. not (succeeded r)) rs
  unfolding rank_fused
  fused_tells_failures plan top_k rs a e =
      on_return _
        (weighted_rrf_v1 floats same_value (hits_of (succeeded_of vector rs))
          (hits_of (succeeded_of graph rs)) plan.vector_weight plan.graph_weight top_k)
        a e
        λ r _ e1.
          sym (ap (λ (x : RankedExecution Score Json). given x.fallback_reason) (ok_injective e1))
          ∙ fallback_of-given rs

  -- An answer behind the gate has a reason to fall back exactly if some branch failed.
  pub rank_execution_tells_failures :
      (rs : List (BranchResult (RetrievalHit Score Json))) (mode : PlannerMode)
      (d : PlannerDecision) (top_k : ℕ) (a : RankedExecution Score Json)
      → map (λ (r : BranchResult (RetrievalHit Score Json)). r.branch) rs ≡ mode_kinds mode
      → raise_if_no_usable_branch rs ≡ ok tt
      → rank_execution floats same_value rs mode d top_k ≡ ok a
      → given a.fallback_reason ≡ any_of (λ r. not (succeeded r)) rs
  unfolding rank_execution
  rank_execution_tells_failures rs vector_mode d top_k a h g e =
      sole_tells_failures vector top_k rs a h ((gate_passes rs).0 g).1 e
  rank_execution_tells_failures rs graph_mode d top_k a h g e =
      sole_tells_failures graph top_k rs a h ((gate_passes rs).0 g).1 e
  rank_execution_tells_failures rs fixed_hybrid d top_k a h g e =
      fused_tells_failures d.selected_plan top_k rs a e
  rank_execution_tells_failures rs rule d top_k a h g e =
      fused_tells_failures d.selected_plan top_k rs a e
  rank_execution_tells_failures rs cost_aware d top_k a h g e =
      fused_tells_failures d.selected_plan top_k rs a e
