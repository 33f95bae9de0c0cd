-- ===== src/Samples/Planner.antt =====
-- Runs of the rule planner, with the catalog of configs/plans.yaml and the rules of configs/rule_planner_v1.json.
use oss.Prelude.{ℕ, ◌*◌, ◌≤◌, ◌⊎◌, true, false, List, [], ◌∷◌, Option, none, some, ◌≡◌, refl, arith}
use oss.Prelude.Text.{Text, codes}
use oss.Core.Errors.{ok, raise, value_error, ◌>>=◌}
use oss.Core.Deadline.{Deadline, snapshot}
use oss.Planner.Plan.{
  PlanDefinition, PlanCatalog, plan_catalog, plan_for_id, load_plan_catalog, fixed_hybrid, rule,
}
use oss.Planner.Plan.Catalog.{plan_for_id-total}
use oss.Planner.Rule.{
  PlannerDecision, planner_decision, QueryAnalysis, RulePlanner, RulePlannerConfig,
  RuleGraphTierPolicy, StaticPlanProfile, rule_planner_config, rule_planner, PlanEstimate,
  InfeasibleReason, exceeds_remaining_budget, relation_signal, candidate_ids,
}
use oss.Planner.Rule.Select.{
  select, select_within, ladder, estimates, profile_of, predicted_latency,
}
use oss.Planner.Rule.Choice.{first_fit}
use oss.Planner.Rule.Fits.{selected-first_fit, selected_fits}
use oss.Planner.Rule.Ready.{select-Decides}
use oss.Planner.Rule.Total.{Decides}

abbrev pub ms : ℕ
ms = 1_000_000

abbrev pub tenth : ℕ
tenth = 100_000_000_000

abbrev pub vector_only : ℕ → ℕ → PlanDefinition
vector_only id k = record {
  id = id;
  name = codes "VECTOR";
  vector_enabled = true;
  graph_enabled = false;
  vector_top_k = k;
  graph_top_k = 0;
  graph_depth = 0;
  vector_weight = 10 * tenth;
  graph_weight = 0;
  rerank_enabled = false;
  rerank_top_k = 0;
  enabled_in_p0 = true;
}

abbrev pub graph_only : ℕ → ℕ → ℕ → PlanDefinition
graph_only id k depth = record {
  id = id;
  name = codes "GRAPH";
  vector_enabled = false;
  graph_enabled = true;
  vector_top_k = 0;
  graph_top_k = k;
  graph_depth = depth;
  vector_weight = 0;
  graph_weight = 10 * tenth;
  rerank_enabled = false;
  rerank_top_k = 0;
  enabled_in_p0 = true;
}

abbrev pub hybrid : ℕ → ℕ → ℕ → ℕ → ℕ → ℕ → PlanDefinition
hybrid id v g depth a b = record {
  id = id;
  name = codes "HYBRID";
  vector_enabled = true;
  graph_enabled = true;
  vector_top_k = v;
  graph_top_k = g;
  graph_depth = depth;
  vector_weight = a;
  graph_weight = b;
  rerank_enabled = false;
  rerank_top_k = 0;
  enabled_in_p0 = true;
}

abbrev pub sample_plans : List PlanDefinition
sample_plans =
    vector_only 0 10
    ∷ vector_only 1 30
    ∷ graph_only 2 20 1
    ∷ graph_only 3 30 3
    ∷ hybrid 4 20 15 1 (7 * tenth) (3 * tenth)
    ∷ hybrid 5 20 20 1 (5 * tenth) (5 * tenth)
    ∷ hybrid 6 15 30 2 (3 * tenth) (7 * tenth)
    ∷ record (hybrid 7 30 30 2 (5 * tenth) (5 * tenth)) {
      rerank_enabled = true;
      rerank_top_k = 10;
      enabled_in_p0 = false;
    }
    ∷ hybrid 8 15 40 3 250_000_000_000 750_000_000_000
    ∷ []

abbrev pub sample_catalog : PlanCatalog
sample_catalog = record { plans = sample_plans }

sample_loads : load_plan_catalog sample_plans ≡ ok sample_catalog
unfolding load_plan_catalog
sample_loads = refl

abbrev profile : ℕ → ℕ → StaticPlanProfile
profile id latency = record { plan_id = id; predicted_p95_latency = latency }

abbrev pub rules : RulePlannerConfig
rules = record {
  low_budget_threshold = 50 * ms;
  relation_threshold = 5 * tenth;
  multi_hop_threshold = 5 * tenth;
  comparison_threshold = 5 * tenth;
  aggregation_threshold = 5 * tenth;
  global_threshold = 5 * tenth;
  candidate_profiles =
      profile 0 (15 * ms)
      ∷ profile 1 (35 * ms)
      ∷ profile 4 (70 * ms)
      ∷ profile 5 (105 * ms)
      ∷ profile 6 (180 * ms)
      ∷ profile 8 (300 * ms)
      ∷ [];
  simple_plan_order = 1 ∷ 0 ∷ [];
  relation_plan_order = 6 ∷ 5 ∷ 4 ∷ 0 ∷ [];
  multi_hop_plan_order = 8 ∷ 6 ∷ 5 ∷ 4 ∷ 0 ∷ [];
  top_k_surcharge = 500_000;
}

abbrev pub passed_audit : RuleGraphTierPolicy
passed_audit = record { graph_tier_enabled = true; reason = codes "audit_passed" }

abbrev pub sha256 : Text
sha256 = codes "0123456789abcdef0123456789abcdef0123456789abcdef0123456789abcdef"

abbrev pub planner : RulePlanner
planner = record {
  catalog = sample_catalog;
  graph_policy = passed_audit;
  config = rules;
  feature_config_sha256 = sha256;
}

abbrev pub relation_query : QueryAnalysis
relation_query = record {
  normalized_query = codes "who works with whom";
  language_supported = true;
  token_count = 4;
  features = record {
    token_count = 4;
    entity_count = 0;
    entity_density = 0;
    relation_signal = 8 * tenth;
    multi_hop_signal = 0;
    comparison_signal = 0;
    aggregation_signal = 0;
    global_signal = 0;
    final_top_k = 12;
  };
  analysis_latency_ns = 0;
}

abbrev pub request_deadline : Deadline
request_deadline = record {
  start_ns = 0;
  absolute_ns = 200 * ms;
  branch_cutoff_ns = 190 * ms;
  budget_ms = 200;
  reserve_ns = 10 * ms;
}

abbrev estimated : ℕ → ℕ → Option InfeasibleReason → PlanEstimate
estimated id latency reason = record {
  plan_id = id;
  predicted_p95_latency = latency;
  infeasible_reason = reason;
}

-- With 150 ms left for the branches, P6 does not fit and P5 does.
abbrev sample_estimates : List PlanEstimate
sample_estimates =
    estimated 0 (16 * ms) none
    ∷ estimated 1 (35 * ms) none
    ∷ estimated 4 (70 * ms) none
    ∷ estimated 5 (105 * ms) none
    ∷ estimated 6 (180 * ms) (some exceeds_remaining_budget)
    ∷ estimated 8 (300 * ms) (some exceeds_remaining_budget)
    ∷ []

abbrev pub relation_decision : PlannerDecision
relation_decision = record {
  mode = rule;
  effective_mode = fixed_hybrid;
  selected_plan = hybrid 5 20 20 1 (5 * tenth) (5 * tenth);
  executed_vector_top_k = some 20;
  executed_graph_top_k = some 20;
  matched_rules = relation_signal ∷ [];
  remaining_budget = 150 * ms;
  candidate_estimates = sample_estimates;
  budget_feasible = true;
  fallback_reason = none;
}

relation_run : select planner relation_query request_deadline true (40 * ms) ≡ ok relation_decision
unfolding select planner_decision
relation_run = refl

within_run : select_within planner relation_query (150 * ms) true ≡ ok relation_decision
unfolding select_within planner_decision
within_run = refl

plan_for_id-total_example :
    (p : PlanDefinition) × (plan_for_id sample_catalog 6 ≡ ok p) × (p.id ≡ 6)
unfolding plan_catalog
plan_for_id-total_example = plan_for_id-total sample_plans sample_catalog 6 refl (omega arith)

selected-first_fit_example :
    (es : List PlanEstimate) × (estimates planner relation_query (150 * ms) true candidate_ids
      ≡ ok es)
    × (first_fit es (ladder rules passed_audit relation_query (150 * ms) true).order ≡ ok 5)
selected-first_fit_example =
    selected-first_fit planner relation_query (150 * ms) true relation_decision within_run

selected_fits_example :
    (profile : StaticPlanProfile) × (profile_of rules.candidate_profiles 5 ≡ ok profile)
    × (predicted_latency relation_decision.selected_plan relation_query.features rules profile
        ≤ 150 * ms)
    × ((true ≡ false) ⊎ ((true ≡ true) × (true ≡ true)))
selected_fits_example =
    selected_fits planner relation_query (150 * ms) true relation_decision within_run refl

select-Decides_example :
    Decides planner (select planner relation_query request_deadline true (40 * ms))
unfolding plan_catalog rule_planner_config rule_planner snapshot
select-Decides_example =
    select-Decides sample_plans sample_catalog passed_audit rules rules sha256 planner
      relation_query request_deadline true (40 * ms) refl refl refl (omega arith) (omega arith)
      (omega arith)

-- Every constructor accepts a P5 with 60 candidates for the vector branch, and a decision for it raises.
abbrev large_plans : List PlanDefinition
large_plans =
    vector_only 0 10
    ∷ vector_only 1 30
    ∷ graph_only 2 20 1
    ∷ graph_only 3 30 3
    ∷ hybrid 4 20 15 1 (7 * tenth) (3 * tenth)
    ∷ hybrid 5 60 20 1 (5 * tenth) (5 * tenth)
    ∷ hybrid 6 15 30 2 (3 * tenth) (7 * tenth)
    ∷ hybrid 7 30 30 2 (5 * tenth) (5 * tenth)
    ∷ hybrid 8 15 40 3 250_000_000_000 750_000_000_000
    ∷ []

abbrev large_planner : RulePlanner
large_planner = record planner { catalog = record { plans = large_plans } }

large_builds :
    (load_plan_catalog large_plans >>= λ catalog. rule_planner catalog passed_audit rules sha256)
    ≡ ok large_planner
unfolding load_plan_catalog rule_planner
large_builds = refl

large_run : select large_planner relation_query request_deadline true (40 * ms) ≡ raise value_error
unfolding select planner_decision
large_run = refl
