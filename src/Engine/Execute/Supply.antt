-- ===== src/Engine/Execute/Supply.antt =====
-- Planning and the work that follows it fit together.
use oss.Prelude.{
  ℕ, max, Bool, true, false, none, List, map, ◌≡◌, refl, subst, arith, inl, inr, ◌⊎◌, Bool-cases,
  leb, if◌then◌else◌, All,
}
use oss.Core.Errors.{
  Result, ok, raise, raise_if, on_return, ok_injective, rag, ragplan_error, deadline_exceeded,
  other_exception,
}
use oss.Core.Deadline.{Deadline, snapshot}
use oss.Scheduler.Machines.Switches.{KillSwitchSnapshot}
use oss.Planner.Plan.{
  PlannerMode, vector_mode, graph_mode, fixed_hybrid, rule, cost_aware, PlanDefinition, PlanCatalog,
  plan_for_id, has_id,
}
use oss.Planner.Rule.{RulePlanner, PlannerDecision, QueryAnalysis, candidate_ids, PlanEstimate}
use oss.Planner.Rule.Select.{
  select, select_within, ladder, estimates, feasible_candidates, selected_id, estimate_of, decide,
  decision,
}
use oss.Planner.Rule.Choice.{feasible_candidates-first_fit}
use oss.Planner.Rule.Fits.{planner_decision-same}
use oss.Planner.Rule.Total.{IsFrozen, Known, ladder-Known, first_fit-member}
use oss.Engine.Requests.{check_modes, SearchRequest, Overrides, same_mode}
use oss.Engine.Plans.{BranchCall, call_kind, mode_kinds, branch_work}
use oss.Engine.Plans.Supplied.{
  Option-cases, Covers, IsSupplied, IsSupplied-HasWork, vector_plan-IsSupplied,
  graph_plan-IsSupplied, fixed_plan-IsSupplied, profile_plan-IsSupplied,
}
use oss.Engine.Execute.{requested_mode, in_mode, plan_mode, plan_request}

-- A rule decision that the work phase cannot carry out: its plan is a candidate that searches no vectors, and an assertion
-- of `_branch_work` fails.
abbrev pub IsVectorless : RulePlanner → PlannerMode → PlannerDecision → Type 0
IsVectorless p mode d =
    (n : ℕ) × (has_id n candidate_ids ≡ true)
    × (plan_for_id p.catalog n ≡ ok d.selected_plan)
    × (d.selected_plan.vector_enabled ≡ false)
    × (branch_work mode d ≡ raise other_exception)

module _ (p : RulePlanner) (frozen : IsFrozen p.config) (analysis : QueryAnalysis) (remaining : ℕ)
    (allowed : Bool) where
  decision-IsSupplied :
      (es : List PlanEstimate) (plan : PlanDefinition) (e : PlanEstimate)
      → plan.vector_enabled ≡ true
      → IsSupplied analysis.features.final_top_k
          (if plan.graph_enabled then fixed_hybrid else vector_mode)
          (decision analysis.features remaining es
            (ladder p.config p.graph_policy analysis remaining allowed)
            plan
            e)
  decision-IsSupplied es plan e v = elim (Bool-cases plan.graph_enabled) [
    | inl g ↦ rw g (record {
      some_branch = refl;
      for_vector =
          inr (max analysis.features.final_top_k plan.vector_top_k, rw v refl, omega arith);
      for_graph = inr (max analysis.features.final_top_k plan.graph_top_k, refl, omega arith);
    })
    | inr g ↦ rw g (record {
      some_branch = refl;
      for_vector =
          inr (max analysis.features.final_top_k plan.vector_top_k, rw v refl, omega arith);
      for_graph = inl refl;
    })
  ]

  decision-fails :
      (es : List PlanEstimate) (plan : PlanDefinition) (e : PlanEstimate)
      → plan.vector_enabled ≡ false
      → branch_work (if plan.graph_enabled then fixed_hybrid else vector_mode) (
          decision analysis.features remaining es
            (ladder p.config p.graph_policy analysis remaining allowed)
            plan
            e)
        ≡ raise other_exception
  unfolding branch_work
  decision-fails es plan e v = elim (Bool-cases plan.graph_enabled) [
    | inl g ↦ rw (g, v) refl
    | inr g ↦ rw (g, v) refl
  ]

  rule_plan-IsSupplied :
      (d : PlannerDecision)
      → select_within p analysis remaining allowed ≡ ok d
      → IsSupplied analysis.features.final_top_k d.effective_mode d
        ⊎ IsVectorless p d.effective_mode d
  unfolding select_within decide
  rule_plan-IsSupplied d h =
      let l = ladder p.config p.graph_policy analysis remaining allowed in
      on_return _ (estimates p analysis remaining allowed candidate_ids) d h λ es made h1.
        on_return _ (feasible_candidates p.catalog es 0 l.order) d h1 λ cs kept h2.
          on_return _ (plan_for_id p.catalog (selected_id cs)) d h2 λ plan found h3.
            on_return _ (estimate_of es (selected_id cs)) d h3 λ e known h4.
              let first = feasible_candidates-first_fit p.catalog es 0 l.order cs kept in
              let here =
                first_fit-member es l.order (selected_id cs) first Known (ground arith)
                  (ladder-Known p.config p.graph_policy analysis remaining allowed frozen) in
              subst
                (λ (d : PlannerDecision).
                  IsSupplied analysis.features.final_top_k d.effective_mode d
                  ⊎ IsVectorless p d.effective_mode d)
                (planner_decision-same (decision analysis.features remaining es l plan e) d h4)
                (elim (Bool-cases plan.vector_enabled) [
                  | inl v ↦ inl (decision-IsSupplied es plan e v)
                  | inr v ↦ inr (selected_id cs, here.1, found, v, decision-fails es plan e v)
                ])

module _ (planner : RulePlanner) (catalog : PlanCatalog) (switches : KillSwitchSnapshot)
    (request : SearchRequest) (o : Overrides) (analysis : QueryAnalysis) (deadline : Deadline)
    (available : Bool) (now : ℕ) where
  abbrev Supplied : PlannerMode × PlannerDecision → Type 0
  Supplied (mode, d) = IsSupplied request.top_k mode d

  abbrev Vectorless : PlannerMode × PlannerDecision → Type 0
  Vectorless (mode, d) = IsVectorless planner mode d

  in_mode-Supplied :
      (mode : PlannerMode) (planned : Result PlannerDecision) (r : PlannerMode × PlannerDecision)
      → in_mode planner catalog switches request o analysis deadline available now mode planned
        ≡ ok r
      → ((d : PlannerDecision) → planned ≡ ok d → IsSupplied request.top_k mode d)
      → Supplied r
  in_mode-Supplied mode planned r h k =
      on_return _ planned r h λ d e same. subst Supplied (ok_injective same) (k d e)

  rule_mode-Supplied :
      (r : PlannerMode × PlannerDecision)
      → IsFrozen planner.config
      → analysis.features.final_top_k ≡ request.top_k
      → plan_mode planner catalog switches request o analysis deadline available now rule ≡ ok r
      → Supplied r ⊎ Vectorless r
  unfolding plan_mode select
  rule_mode-Supplied r frozen same h =
      on_return _ (select planner analysis deadline available now) r h λ d chosen ends.
        on_return _
          (raise_if (leb (snapshot deadline now).branch_remaining_ns 0)
            (rag (ragplan_error deadline_exceeded none none)))
          d chosen
          λ _ _ within.
            subst (λ r. Supplied r ⊎ Vectorless r) (ok_injective ends)
              (subst
                (λ k. IsSupplied k d.effective_mode d ⊎ IsVectorless planner d.effective_mode d)
                same (rule_plan-IsSupplied planner frozen analysis _ _ d within))

  plan_mode-Supplied :
      (mode : PlannerMode) (r : PlannerMode × PlannerDecision)
      → same_mode mode cost_aware ≡ false
      → IsFrozen planner.config
      → analysis.features.final_top_k ≡ request.top_k
      → plan_mode planner catalog switches request o analysis deadline available now mode ≡ ok r
      → Supplied r ⊎ ((mode ≡ rule) × Vectorless r)
  unfolding plan_mode
  plan_mode-Supplied rule r served frozen same h = elim (rule_mode-Supplied r frozen same h) [
    | inl supplied ↦ inl supplied
    | inr stuck ↦ inr (refl, stuck)
  ]
  plan_mode-Supplied vector_mode r served frozen same h =
      inl
        (in_mode-Supplied vector_mode _ r h (vector_plan-IsSupplied catalog request deadline now _))
  plan_mode-Supplied graph_mode r served frozen same h = inl (
      in_mode-Supplied graph_mode _ r h
        (graph_plan-IsSupplied catalog request deadline now o.graph_depth))
  plan_mode-Supplied fixed_hybrid r served frozen same h =
      inl (in_mode-Supplied fixed_hybrid _ r h (fixed_plan-IsSupplied catalog request deadline now))
  plan_mode-Supplied cost_aware r served frozen same h = absurd (cc)

  mode_served :
      (mode : PlannerMode)
      → o.profile_plan_id ≡ none
      → check_modes switches request o ≡ ok tt
      → requested_mode catalog switches request none ≡ ok mode
      → same_mode mode cost_aware ≡ false
  unfolding check_modes
  mode_served mode unprofiled checked named = ground arith

  planned-Supplied :
      (mode : PlannerMode) (r : PlannerMode × PlannerDecision)
      → IsFrozen planner.config
      → analysis.features.final_top_k ≡ request.top_k
      → check_modes switches request o ≡ ok tt
      → requested_mode catalog switches request o.profile_plan_id ≡ ok mode
      → plan_request planner catalog switches request o analysis deadline available now mode ≡ ok r
      → Supplied r ⊎ ((mode ≡ rule) × Vectorless r)
  unfolding plan_request
  planned-Supplied mode r frozen same checked named h = elim (Option-cases o.profile_plan_id) [
    | inl e ↦
        plan_mode-Supplied mode r (mode_served mode e checked (rw e at named)) frozen same
          (rw e at h)
    | inr (n, e) ↦ on_return _ (plan_for_id catalog n) mode (rw e at named) λ plan found shaped.
        inl (
          in_mode-Supplied mode _ r (rw e at h)
            (λ d. profile_plan-IsSupplied catalog request deadline now n plan mode d found shaped))
  ]

  -- The decision of a request that has passed the guards supplies its work: no assertion of `_branch_work` fails, there is
  -- one branch for each that the mode searches, and each gets at least as many candidates as the request asks for
  -- results. The only other case is a rule decision for a candidate that searches no vectors, for which `_branch_work` ends
  -- with a failed assertion. It is assumed that the rule planner's configuration is valid, and that the analysis has the
  -- request's number of results.
  pub plan_request-supplies :
      (mode : PlannerMode) (r : PlannerMode × PlannerDecision)
      → IsFrozen planner.config
      → analysis.features.final_top_k ≡ request.top_k
      → check_modes switches request o ≡ ok tt
      → requested_mode catalog switches request o.profile_plan_id ≡ ok mode
      → plan_request planner catalog switches request o analysis deadline available now mode ≡ ok r
      → ((works : List BranchCall) × (branch_work r.0 r.1 ≡ ok works)
          × (map call_kind works ≡ mode_kinds r.0)
          × All (Covers request.top_k) works)
        ⊎ ((mode ≡ rule) × IsVectorless planner r.0 r.1)
  plan_request-supplies mode r frozen same checked named h =
      elim (planned-Supplied mode r frozen same checked named h) [
        | inl supplied ↦ inl (IsSupplied-HasWork request.top_k r.0 r.1 supplied)
        | inr stuck ↦ inr stuck
      ]
