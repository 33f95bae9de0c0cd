-- ===== src/Planner/Rule/Total.antt =====
-- RulePlanner.select returns a decision whenever time remains.
use oss.Prelude.{
  ℕ, suc, ◌≤◌, ◌<◌, Bool, true, false, ◌&&◌, ltb, List, [], ◌∷◌, map, ◌≡◌, refl, sym, ap, ◌∙◌,
  subst, arith, Bool-cases, inl, inr, ◌⊎◌, ◌==◌, All,
}
use oss.Core.Errors.{Result, raise, value_error, returns_then, on_return, ok, ok_injective}
use oss.Planner.Plan.{PlanDefinition, plan_for_id, has_id, max_top_k}
use oss.Planner.Rule.{
  QueryAnalysis, PlanEstimate, feasible, PlannerDecision, planner_decision, RulePlanner,
  RulePlannerConfig, candidate_ids, rule_planner_config, StaticPlanProfile, same_ids,
  RuleGraphTierPolicy,
}
use oss.Planner.Rule.Select.{
  estimate, estimates, estimate_of, ladder, Ladder, Candidate, feasible_candidates, selected_id,
  decide, decision, select_within, profile_of,
}
use oss.Planner.Rule.Choice.{first_fit, feasible_candidates-first_fit, plan_for_id-id}

same_ids-eq : (xs ys : List ℕ) → same_ids xs ys ≡ true → xs ≡ ys
same_ids-eq [] [] h = refl
same_ids-eq [] (y ∷ ys) h = absurd (cc)
same_ids-eq (x ∷ xs) [] h = absurd (cc)
same_ids-eq (x ∷ xs) (y ∷ ys) h = ground (arith, same_ids-eq xs ys)

profile_of-found :
    (ps : List StaticPlanProfile) (n : ℕ)
    → has_id n (map (λ (p : StaticPlanProfile). p.plan_id) ps) ≡ true
    → (p : StaticPlanProfile) × (profile_of ps n ≡ ok p)
profile_of-found [] n h = absurd (cc)
profile_of-found (p ∷ ps) n h = elim (Bool-cases (p.plan_id == n)) [
  | inl here ↦ (p, rw here refl)
  | inr there ↦ let (q, e) = profile_of-found ps n (rw there at h) in (q, rw there e)
]

estimate_of-found :
    (es : List PlanEstimate) (n : ℕ)
    → has_id n (map (λ (e : PlanEstimate). e.plan_id) es) ≡ true
    → (e : PlanEstimate) × (estimate_of es n ≡ ok e)
unfolding estimate_of
estimate_of-found [] n h = absurd (cc)
estimate_of-found (p ∷ ps) n h = elim (Bool-cases (p.plan_id == n)) [
  | inl here ↦ (p, rw here refl)
  | inr there ↦ let (q, e) = estimate_of-found ps n (rw there at h) in (q, rw there e)
]

pub first_fit-member :
    (es : List PlanEstimate) (ns : List ℕ) (m : ℕ)
    → first_fit es ns ≡ ok m
    → (P : ℕ → Type 0) → P 0
    → All P ns
    → P m
unfolding first_fit
first_fit-member es [] m h P z all = subst P (ok_injective h) z
first_fit-member es (n ∷ ns) m h P z all = on_return _ (estimate_of es n) m h λ e _ h1.
    elim (Bool-cases (feasible e)) [
      | inl f ↦ subst P (ok_injective (rw f at h1)) all.0
      | inr f ↦ first_fit-member es ns m (rw f at h1) P z all.1
    ]

-- Names that the planner knows: the catalog has them and the configuration has a profile for them.
abbrev pub Known : ℕ → Type 0
Known n = (n ≤ 8) × (has_id n candidate_ids ≡ true)

-- The validation of a configuration fixes the three orders and the profiles.
pub record IsFrozen (c : RulePlannerConfig) : Type 0 where
  pub simple : c.simple_plan_order ≡ 1 ∷ 0 ∷ []
  pub relation : c.relation_plan_order ≡ 6 ∷ 5 ∷ 4 ∷ 0 ∷ []
  pub multi_hop : c.multi_hop_plan_order ≡ 8 ∷ 6 ∷ 5 ∷ 4 ∷ 0 ∷ []
  pub profiles : map (λ (p : StaticPlanProfile). p.plan_id) c.candidate_profiles ≡ candidate_ids

pub rule_planner_config-IsFrozen :
    (c d : RulePlannerConfig) → rule_planner_config c ≡ ok d → IsFrozen d
unfolding rule_planner_config
rule_planner_config-IsFrozen c d h =
    let q : c ≡ d = ground arith in
    subst IsFrozen q (record {
      simple = same_ids-eq c.simple_plan_order (1 ∷ 0 ∷ []) (ground arith);
      relation = same_ids-eq c.relation_plan_order (6 ∷ 5 ∷ 4 ∷ 0 ∷ []) (ground arith);
      multi_hop = same_ids-eq c.multi_hop_plan_order (8 ∷ 6 ∷ 5 ∷ 4 ∷ 0 ∷ []) (ground arith);
      profiles =
          same_ids-eq (map (λ (p : StaticPlanProfile). p.plan_id) c.candidate_profiles)
            candidate_ids (ground arith);
    })

ladder_orders :
    (c : RulePlannerConfig) (policy : RuleGraphTierPolicy) (a : QueryAnalysis) (remaining : ℕ)
    (allowed : Bool)
    → ((ladder c policy a remaining allowed).order ≡ 0 ∷ [])
      ⊎ (((ladder c policy a remaining allowed).order ≡ c.simple_plan_order)
          ⊎ (((ladder c policy a remaining allowed).order ≡ c.relation_plan_order)
              ⊎ ((ladder c policy a remaining allowed).order ≡ c.multi_hop_plan_order)))
unfolding ladder
ladder_orders c policy a remaining allowed = ground arith

pub ladder-Known :
    (c : RulePlannerConfig) (policy : RuleGraphTierPolicy) (a : QueryAnalysis) (remaining : ℕ)
    (allowed : Bool)
    → IsFrozen c
    → All Known (ladder c policy a remaining allowed).order
ladder-Known c policy a remaining allowed v = elim (ladder_orders c policy a remaining allowed) [
  | inl e ↦ rw e (ground arith)
  | inr (inl e) ↦ rw (e, v.simple) (ground arith)
  | inr (inr (inl e)) ↦ rw (e, v.relation) (ground arith)
  | inr (inr (inr e)) ↦ rw (e, v.multi_hop) (ground arith)
]

-- What the constructors of the planner's parts leave.
pub record IsReady (p : RulePlanner) : Type 0 where
  pub frozen : IsFrozen p.config
  pub found : (n : ℕ) → n ≤ 8 → (plan : PlanDefinition) × (plan_for_id p.catalog n ≡ ok plan)

-- A branch of the plan wants more candidates than a request may ask for.
abbrev pub IsOversized : PlanDefinition → Type 0
IsOversized plan =
    ((plan.vector_enabled ≡ true) × (max_top_k < plan.vector_top_k))
    ⊎ ((plan.graph_enabled ≡ true) × (max_top_k < plan.graph_top_k))

oversized :
    (plan : PlanDefinition)
    → IsOversized plan
      ⊎ (((plan.vector_enabled ≡ false) ⊎ (plan.vector_top_k ≤ max_top_k))
          × ((plan.graph_enabled ≡ false) ⊎ (plan.graph_top_k ≤ max_top_k)))
oversized plan = elim (Bool-cases (plan.vector_enabled && ltb max_top_k plan.vector_top_k)) [
  | inl v ↦ inl (inl (ground arith))
  | inr v ↦ elim (Bool-cases (plan.graph_enabled && ltb max_top_k plan.graph_top_k)) [
    | inl g ↦ inl (inr (ground arith))
    | inr g ↦ inr (ground arith, ground arith)
  ]
]

-- The planner decides, or it fails at the validator of its decision, and then only at a candidate that is oversized.
abbrev pub Decides : RulePlanner → Result PlannerDecision → Type 0
Decides p r =
    ((d : PlannerDecision) × (r ≡ ok d))
    ⊎ ((r ≡ raise value_error)
        × ((n : ℕ) × (plan : PlanDefinition) × (has_id n candidate_ids ≡ true)
            × (plan_for_id p.catalog n ≡ ok plan)
            × IsOversized plan))

module _ (p : RulePlanner) (ready : IsReady p) (analysis : QueryAnalysis) (remaining : ℕ)
    (allowed : Bool) where
  estimate-id :
      (n : ℕ) (e : PlanEstimate) → estimate p analysis remaining allowed n ≡ ok e → e.plan_id ≡ n
  unfolding estimate
  estimate-id n e h = on_return _ (profile_of p.config.candidate_profiles n) e h λ profile a h1.
      on_return _ (plan_for_id p.catalog n) e h1
        λ plan b h2. sym (ap (λ r. r.plan_id) (ok_injective h2)) ∙ plan_for_id-id p.catalog n plan b

  estimate-total :
      (n : ℕ)
      → Known n
      → (e : PlanEstimate) × (estimate p analysis remaining allowed n ≡ ok e) × (e.plan_id ≡ n)
  unfolding estimate
  estimate-total n (low, candidate) =
      let (profile, a) =
        profile_of-found p.config.candidate_profiles n
          (subst (λ ids. has_id n ids ≡ true) (sym ready.frozen.profiles) candidate) in
      let (plan, b) = ready.found n low in
      let (e, made) = returns_then _ _ profile a (returns_then _ _ plan b (_, refl)) in
      (e, made, estimate-id n e made)

  estimates-total :
      (ns : List ℕ)
      → All Known ns
      → (es : List PlanEstimate) × (estimates p analysis remaining allowed ns ≡ ok es)
        × (map (λ (e : PlanEstimate). e.plan_id) es ≡ ns)
  unfolding estimates
  estimates-total [] known = ([], refl, refl)
  estimates-total (n ∷ ns) known =
      let (e, a, i) = estimate-total n known.0 in
      let (es, b, j) = estimates-total ns known.1 in (e ∷ es, rw (a, b) refl, cc)

  feasible_candidates-total :
      (es : List PlanEstimate) (place : ℕ) (ns : List ℕ)
      → map (λ (e : PlanEstimate). e.plan_id) es ≡ candidate_ids
      → All Known ns
      → (cs : List Candidate) × (feasible_candidates p.catalog es place ns ≡ ok cs)
  unfolding feasible_candidates
  feasible_candidates-total es place [] ids known = ([], refl)
  feasible_candidates-total es place (n ∷ ns) ids known =
      let (e, a) =
        estimate_of-found es n (subst (λ ids. has_id n ids ≡ true) (sym ids) known.0.1) in
      let (plan, b) = ready.found n known.0.0 in
      let (cs, c) = feasible_candidates-total es (suc place) ns ids known.1 in
      returns_then _ _ e a (returns_then _ _ plan b (returns_then _ _ cs c (_, refl)))

  decide-Decides :
      (es : List PlanEstimate) (l : Ladder) (n : ℕ) (plan : PlanDefinition) (e : PlanEstimate)
      → 1 ≤ analysis.features.final_top_k
      → analysis.features.final_top_k ≤ max_top_k
      → has_id n candidate_ids ≡ true
      → plan_for_id p.catalog n ≡ ok plan
      → Decides p (decide analysis.features remaining es l plan e)
  unfolding decide planner_decision
  decide-Decides es l n plan e low high candidate found =
      let failed : IsOversized plan → Decides p (decide analysis.features remaining es l plan e) =
        λ over. inr (ground (arith, over), (n, plan, candidate, found, over)) in
      elim (oversized plan) [
        | inl over ↦ failed over
        | inr (v, g) ↦ inl (decision analysis.features remaining es l plan e, ground arith)
      ]

  pub select_within-Decides :
      1 ≤ analysis.features.final_top_k
      → analysis.features.final_top_k ≤ max_top_k
      → Decides p (select_within p analysis remaining allowed)
  unfolding select_within
  select_within-Decides low high =
      let (es, a, ids) = estimates-total candidate_ids (ground arith) in
      let l = ladder p.config p.graph_policy analysis remaining allowed in
      let known = ladder-Known p.config p.graph_policy analysis remaining allowed ready.frozen in
      let (cs, b) = feasible_candidates-total es 0 l.order ids known in
      let first = feasible_candidates-first_fit p.catalog es 0 l.order cs b in
      let here = first_fit-member es l.order (selected_id cs) first Known (ground arith) known in
      let (plan, c) = ready.found (selected_id cs) here.0 in
      let (e, f) =
        estimate_of-found es (selected_id cs)
          (subst (λ ids. has_id (selected_id cs) ids ≡ true) (sym ids) here.1) in
      rw (a, b, c, f) (decide-Decides es l (selected_id cs) plan e low high here.1 c)
