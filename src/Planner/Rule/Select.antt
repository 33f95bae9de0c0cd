-- ===== src/Planner/Rule/Select.antt =====
-- RulePlanner.select of src/ragplan/planner/rule.py: the estimates of all candidates, the ladder of
-- plans for the query, and the choice of the first plan on it that fits the remaining budget.
use oss.Prelude.{
  ℕ, suc, ◌+◌, ◌-◌, ◌*◌, max, Bool, true, false, not, ◌&&◌, ◌||◌, Option, none, some, List, [], ◌∷◌,
  ◌++◌, leb, ltb, ◌==◌, if◌then◌else◌,
}
use oss.Core.Errors.{
  Result, ok, raise, key_error, rag, ragplan_error, deadline_exceeded, raise_if, ◌>>=◌, ◌>>◌,
}
use oss.Core.Deadline.{Deadline, snapshot}
use oss.Planner.Plan.{vector_mode, fixed_hybrid, rule, PlanDefinition, PlanCatalog, plan_for_id}
use oss.Planner.Rule.{
  QueryFeatures, QueryAnalysis, RuleGraphTierPolicy, StaticPlanProfile, RulePlannerConfig,
  candidate_ids, InfeasibleReason, exceeds_remaining_budget, PlanEstimate, feasible, MatchedRule,
  unsupported_language_vector_safe, low_remaining_budget, multi_hop_signal, comparison_signal,
  aggregation_signal, global_signal, relation_signal, simple_vector_default,
  no_profile_within_budget, FallbackReason, graph_runtime_unavailable, graph_audit_gate,
  PlannerDecision, planner_decision, RulePlanner,
}

-- `profiles[plan_id]`
abbrev pub profile_of : List StaticPlanProfile → ℕ → Result StaticPlanProfile
profile_of [] n = raise key_error
profile_of (p ∷ ps) n = let rest = profile_of ps n in if p.plan_id == n then ok p else rest

-- The reason why a plan cannot run, if there is one.
unfoldable pub infeasibility : PlanDefinition → Bool → Bool → ℕ → ℕ → Option InfeasibleReason
infeasibility plan language_supported graph_allowed predicted remaining =
    if plan.graph_enabled && not language_supported
    then some InfeasibleReason.unsupported_language
    else if plan.graph_enabled && not graph_allowed
    then some InfeasibleReason.graph_tier_unavailable
    else if ltb remaining predicted
    then some exceeds_remaining_budget
    else none

abbrev pub predicted_latency :
    PlanDefinition → QueryFeatures → RulePlannerConfig → StaticPlanProfile → ℕ
predicted_latency plan features config profile =
    profile.predicted_p95_latency
    + (features.final_top_k - max plan.vector_top_k plan.graph_top_k) * config.top_k_surcharge

module _ (p : RulePlanner) (analysis : QueryAnalysis) (remaining : ℕ) (graph_allowed : Bool) where
  -- RulePlanner._estimate
  unfoldable pub estimate : ℕ → Result PlanEstimate
  unfolding plan_for_id infeasibility
  estimate plan_id = do
    profile ← profile_of p.config.candidate_profiles plan_id
    plan ← plan_for_id p.catalog plan_id
    let predicted = predicted_latency plan analysis.features p.config profile
    ok (record {
      plan_id = plan.id;
      predicted_p95_latency = predicted;
      infeasible_reason =
          infeasibility plan analysis.language_supported graph_allowed predicted remaining;
    })

  unfoldable pub estimates : List ℕ → Result (List PlanEstimate)
  unfolding estimate
  estimates [] = ok []
  estimates (n ∷ ns) = do e ← estimate n; es ← estimates ns; ok (e ∷ es)

-- `estimate_by_id[plan_id]`
unfoldable pub estimate_of : List PlanEstimate → ℕ → Result PlanEstimate
estimate_of [] n = raise key_error
estimate_of (e ∷ es) n = let rest = estimate_of es n in if e.plan_id == n then ok e else rest

-- What the ladder comes to: the order of plans, the rules that matched, and a reason to fall back.
pub record Ladder : Type 0 where
  pub order : List ℕ
  pub matched : List MatchedRule
  pub fallback : Option FallbackReason

abbrev pub named : Bool → MatchedRule → List MatchedRule → List MatchedRule
named test r rest = if test then r ∷ rest else rest

abbrev pub wants_graph : RulePlannerConfig → QueryFeatures → Bool
wants_graph c f =
    leb c.relation_threshold f.relation_signal
    || (leb c.multi_hop_threshold f.multi_hop_signal
        || (leb c.comparison_threshold f.comparison_signal
            || (leb c.aggregation_threshold f.aggregation_signal
                || leb c.global_threshold f.global_signal)))

-- The chain of conditions in RulePlanner.select
unfoldable pub ladder : RulePlannerConfig → RuleGraphTierPolicy → QueryAnalysis → ℕ → Bool → Ladder
ladder c policy analysis remaining graph_allowed =
    let f = analysis.features in
    if not analysis.language_supported
    then record {
      order = 0 ∷ [];
      matched = unsupported_language_vector_safe ∷ [];
      fallback = some FallbackReason.unsupported_language;
    }
    else if leb remaining c.low_budget_threshold
    then record { order = 0 ∷ []; matched = low_remaining_budget ∷ []; fallback = none }
    else if wants_graph c f && not graph_allowed
    then record {
      order = c.simple_plan_order;
      matched = MatchedRule.graph_tier_unavailable ∷ [];
      fallback = some (
          if policy.graph_tier_enabled
          then graph_runtime_unavailable
          else graph_audit_gate policy.reason);
    }
    else if leb c.multi_hop_threshold f.multi_hop_signal
    then record { order = c.multi_hop_plan_order; matched = multi_hop_signal ∷ []; fallback = none }
    else if wants_graph c f
    then record {
      order = c.relation_plan_order;
      matched = named (leb c.comparison_threshold f.comparison_signal) comparison_signal (
          named (leb c.aggregation_threshold f.aggregation_signal) aggregation_signal (
            named (leb c.global_threshold f.global_signal) global_signal
              (named (leb c.relation_threshold f.relation_signal) relation_signal [])));
      fallback = none;
    }
    else record {
      order = c.simple_plan_order;
      matched = simple_vector_default ∷ [];
      fallback = none;
    }

-- A plan of the ladder with the key that `min` compares: preference, latency, depth, name.
pub record Candidate : Type 0 where
  pub estimate : PlanEstimate
  pub preference : ℕ
  pub depth : ℕ

-- The order of tuples
abbrev pub lex_less : List ℕ → List ℕ → Bool
lex_less [] ys = false
lex_less (x ∷ xs) [] = false
lex_less (x ∷ xs) (y ∷ ys) =
    let rest = lex_less xs ys in if ltb x y then true else if x == y then rest else false

abbrev pub key : Candidate → List ℕ
key c = c.preference ∷ c.estimate.predicted_p95_latency ∷ c.depth ∷ c.estimate.plan_id ∷ []

-- `min(candidates, key=…)`: the first of the least
unfoldable pub least : Candidate → List Candidate → Candidate
least best [] = best
least best (c ∷ cs) = least (if lex_less (key c) (key best) then c else best) cs

module _ (catalog : PlanCatalog) (es : List PlanEstimate) where
  -- The plans of an order that are feasible, with their keys; the preference is the place in the order
  unfoldable pub feasible_candidates : ℕ → List ℕ → Result (List Candidate)
  unfolding estimate_of plan_for_id
  feasible_candidates place [] = ok []
  feasible_candidates place (n ∷ ns) = do
    e ← estimate_of es n
    plan ← plan_for_id catalog n
    rest ← feasible_candidates (suc place) ns
    ok (
        if feasible e
        then record { estimate = e; preference = place; depth = plan.graph_depth } ∷ rest
        else rest)

unfoldable pub selected_id : List Candidate → ℕ
unfolding least
selected_id [] = 0
selected_id (c ∷ cs) = (least c cs).estimate.plan_id

-- The decision for a plan, with its estimate
abbrev pub decision :
    QueryFeatures → ℕ → List PlanEstimate → Ladder → PlanDefinition → PlanEstimate → PlannerDecision
decision f remaining es l plan e = record {
  mode = rule;
  effective_mode = if plan.graph_enabled then fixed_hybrid else vector_mode;
  selected_plan = plan;
  executed_vector_top_k =
      if plan.vector_enabled then some (max f.final_top_k plan.vector_top_k) else none;
  executed_graph_top_k =
      if plan.graph_enabled then some (max f.final_top_k plan.graph_top_k) else none;
  matched_rules = if feasible e then l.matched else l.matched ++ no_profile_within_budget ∷ [];
  remaining_budget = remaining;
  candidate_estimates = es;
  budget_feasible = feasible e;
  fallback_reason = l.fallback;
}

unfoldable pub decide :
    QueryFeatures
    → ℕ
    → List PlanEstimate
    → Ladder
    → PlanDefinition
    → PlanEstimate
    → Result PlannerDecision
decide f remaining es l plan e = planner_decision (decision f remaining es l plan e)

-- RulePlanner.select once the budget is known
unfoldable pub select_within : RulePlanner → QueryAnalysis → ℕ → Bool → Result PlannerDecision
unfolding estimates ladder feasible_candidates selected_id decide plan_for_id
select_within p analysis remaining graph_allowed = do
  es ← estimates p analysis remaining graph_allowed candidate_ids
  let l = ladder p.config p.graph_policy analysis remaining graph_allowed
  candidates ← feasible_candidates p.catalog es 0 l.order
  let chosen = selected_id candidates
  plan ← plan_for_id p.catalog chosen
  e ← estimate_of es chosen
  decide analysis.features remaining es l plan e

-- RulePlanner.select, with the clock's reading
unfoldable pub select : RulePlanner → QueryAnalysis → Deadline → Bool → ℕ → Result PlannerDecision
unfolding select_within snapshot ragplan_error
select p analysis deadline graph_runtime_available now = do
  let remaining = (snapshot deadline now).branch_remaining_ns
  raise_if (leb remaining 0) (rag (ragplan_error deadline_exceeded none none))
  select_within p analysis remaining (p.graph_policy.graph_tier_enabled && graph_runtime_available)
