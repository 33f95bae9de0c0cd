-- ===== src/Planner/Rule/Fits.antt =====
-- What a decision of RulePlanner.select says of its plan, its budget and the graph.
use oss.Prelude.{
  ℕ, ◌≤◌, Bool, true, false, List, [], ◌∷◌, none, ◌≡◌, sym, ap, ◌∙◌, subst, arith, Bool-cases, inl,
  inr, ◌⊎◌, ◌==◌,
}
use oss.Core.Errors.{ok_injective, raise_if, ok, on_return}
use oss.Planner.Plan.{PlanDefinition, plan_for_id}
use oss.Planner.Rule.{
  QueryAnalysis, QueryFeatures, PlanEstimate, feasible, PlannerDecision, planner_decision,
  RulePlanner, candidate_ids, StaticPlanProfile,
}
use oss.Planner.Rule.Select.{
  infeasibility, estimate, estimates, estimate_of, ladder, Ladder, feasible_candidates, selected_id,
  decide, select_within, predicted_latency, profile_of,
}
use oss.Planner.Rule.Choice.{
  plan_for_id-id, estimate_of-id, feasible_candidates-first_fit, first_fit,
}

pub planner_decision-same : (r d : PlannerDecision) → planner_decision r ≡ ok d → r ≡ d
unfolding planner_decision
planner_decision-same r d h = on_return _ (raise_if _ _) d h λ _ _ same. ok_injective same

decide-fields :
    (f : QueryFeatures) (remaining : ℕ) (es : List PlanEstimate) (l : Ladder)
    (plan : PlanDefinition) (e : PlanEstimate) (d : PlannerDecision)
    → decide f remaining es l plan e ≡ ok d
    → (plan ≡ d.selected_plan) × (feasible e ≡ d.budget_feasible)
unfolding decide
decide-fields f remaining es l plan e d h =
    let same = planner_decision-same _ d h in
    (ap (λ r. r.selected_plan) same, ap (λ r. r.budget_feasible) same)

module _ (p : RulePlanner) (analysis : QueryAnalysis) (remaining : ℕ) (allowed : Bool) where
  -- An estimate that is found was made for the plan of its name.
  estimates-origin :
      (ns : List ℕ) (es : List PlanEstimate) (n : ℕ) (e : PlanEstimate)
      → estimates p analysis remaining allowed ns ≡ ok es
      → estimate_of es n ≡ ok e
      → (m : ℕ) × (estimate p analysis remaining allowed m ≡ ok e)
  unfolding estimates estimate_of
  estimates-origin [] es n e h k =
      absurd
        (let q : [] ≡ es = cc in let bad = subst (λ es. estimate_of es n ≡ ok e) (sym q) k in cc)
  estimates-origin (m ∷ ns) es n e h k =
      on_return _ (estimate p analysis remaining allowed m) es h λ x made h1.
        on_return _ (estimates p analysis remaining allowed ns) es h1 λ xs rest h2.
          let q : x ∷ xs ≡ es = cc in
          let k' = subst (λ es. estimate_of es n ≡ ok e) (sym q) k in
          elim (Bool-cases (x.plan_id == n)) [
            | inl here ↦ let same = rw here at k' in (m, made ∙ same)
            | inr there ↦ estimates-origin ns xs n e rest (rw there at k')
          ]

  estimate-parts :
      (m : ℕ) (e : PlanEstimate)
      → estimate p analysis remaining allowed m ≡ ok e
      → (profile : StaticPlanProfile) × (plan : PlanDefinition) × (profile_of
            p.config.candidate_profiles m
          ≡ ok profile)
        × (plan_for_id p.catalog m ≡ ok plan)
        × (e.plan_id ≡ m)
        × (infeasibility plan analysis.language_supported allowed
              (predicted_latency plan analysis.features p.config profile)
              remaining
            ≡ e.infeasible_reason)
  unfolding estimate
  estimate-parts m e h = on_return _ (profile_of p.config.candidate_profiles m) e h λ profile a h1.
      on_return _ (plan_for_id p.catalog m) e h1 λ plan b h2. (
        profile,
        plan,
        a,
        b,
        sym (ap (λ r. r.plan_id) (ok_injective h2)) ∙ plan_for_id-id p.catalog m plan b,
        ap (λ r. r.infeasible_reason) (ok_injective h2),
      )

  feasible_meaning :
      (plan : PlanDefinition) (predicted : ℕ)
      → infeasibility plan analysis.language_supported allowed predicted remaining ≡ none
      → (predicted ≤ remaining)
        × ((plan.graph_enabled ≡ false) ⊎ ((analysis.language_supported ≡ true) × (allowed ≡ true)))
  unfolding infeasibility
  feasible_meaning plan predicted h = (ground arith, ground arith)

  feasible-none : (e : PlanEstimate) → feasible e ≡ true → e.infeasible_reason ≡ none
  feasible-none e h = ground arith

  fits :
      (m : ℕ) (e : PlanEstimate) (plan : PlanDefinition) (n : ℕ) (d : PlannerDecision)
      → estimate p analysis remaining allowed m ≡ ok e
      → plan_for_id p.catalog n ≡ ok plan
      → e.plan_id ≡ n
      → plan ≡ d.selected_plan
      → feasible e ≡ true
      → (profile : StaticPlanProfile) × (profile_of p.config.candidate_profiles d.selected_plan.id
          ≡ ok profile)
        × (predicted_latency d.selected_plan analysis.features p.config profile ≤ remaining)
        × ((d.selected_plan.graph_enabled ≡ false)
            ⊎ ((analysis.language_supported ≡ true) × (allowed ≡ true)))
  fits m e plan n d made found id same good =
      let (profile, plan', a, b, here, reason) = estimate-parts m e made in
      let mn : m ≡ n = sym here ∙ id in
      let same' : plan' ≡ plan = ok_injective (sym b ∙ ap (plan_for_id p.catalog) mn ∙ found) in
      let q = same' ∙ same in
      let named : m ≡ d.selected_plan.id =
        sym (plan_for_id-id p.catalog m plan' b) ∙ ap (λ r. r.id) q in
      subst
        (λ (r : PlanDefinition).
          (profile : StaticPlanProfile) × (profile_of p.config.candidate_profiles d.selected_plan.id
            ≡ ok profile)
          × (predicted_latency r analysis.features p.config profile ≤ remaining)
          × ((r.graph_enabled ≡ false) ⊎ ((analysis.language_supported ≡ true) × (allowed ≡ true))))
        q
        (let (x, y) = feasible_meaning plan' _ (reason ∙ feasible-none e good) in
          (profile, sym (ap (profile_of p.config.candidate_profiles) named) ∙ a, x, y))

  -- The plan that is selected is the first on its ladder that is feasible, and P0 if there is none.
  pub selected-first_fit :
      (d : PlannerDecision)
      → select_within p analysis remaining allowed ≡ ok d
      → (es : List PlanEstimate) × (estimates p analysis remaining allowed candidate_ids ≡ ok es)
        × (first_fit es (ladder p.config p.graph_policy analysis remaining allowed).order
            ≡ ok d.selected_plan.id)
  unfolding select_within
  selected-first_fit d h =
      on_return _ (estimates p analysis remaining allowed candidate_ids) d h λ es made h1.
        on_return _
          (feasible_candidates p.catalog es 0
            (ladder p.config p.graph_policy analysis remaining allowed).order)
          d h1
          λ cs kept h2. on_return _ (plan_for_id p.catalog (selected_id cs)) d h2 λ plan found h3.
            on_return _ (estimate_of es (selected_id cs)) d h3 λ e known h4.
              let (same, _) =
                decide-fields analysis.features remaining es
                  (ladder p.config p.graph_policy analysis remaining allowed) plan e d h4 in
              (
                es,
                made,
                feasible_candidates-first_fit p.catalog es 0 _ cs kept
                    ∙ ap ok (
                        sym (plan_for_id-id p.catalog (selected_id cs) plan found)
                        ∙ ap (λ r. r.id) same),
              )

  -- A decision that is marked as feasible fits: the predicted latency of its plan is within what
  -- remains of the budget, and if the plan uses the graph then the language is supported and the graph
  -- may be used.
  pub selected_fits :
      (d : PlannerDecision)
      → select_within p analysis remaining allowed ≡ ok d
      → d.budget_feasible ≡ true
      → (profile : StaticPlanProfile) × (profile_of p.config.candidate_profiles d.selected_plan.id
          ≡ ok profile)
        × (predicted_latency d.selected_plan analysis.features p.config profile ≤ remaining)
        × ((d.selected_plan.graph_enabled ≡ false)
            ⊎ ((analysis.language_supported ≡ true) × (allowed ≡ true)))
  unfolding select_within
  selected_fits d h good =
      on_return _ (estimates p analysis remaining allowed candidate_ids) d h λ es made h1.
        on_return _
          (feasible_candidates p.catalog es 0
            (ladder p.config p.graph_policy analysis remaining allowed).order)
          d h1
          λ cs kept h2. on_return _ (plan_for_id p.catalog (selected_id cs)) d h2 λ plan found h3.
            on_return _ (estimate_of es (selected_id cs)) d h3 λ e known h4.
              let (same, flag) =
                decide-fields analysis.features remaining es
                  (ladder p.config p.graph_policy analysis remaining allowed) plan e d h4 in
              let (m, origin) = estimates-origin candidate_ids es (selected_id cs) e made known in
              fits m e plan (selected_id cs) d origin found
                (estimate_of-id es (selected_id cs) e known) same (flag ∙ good)
