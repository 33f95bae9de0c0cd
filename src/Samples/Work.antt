-- ===== src/Samples/Work.antt =====
-- The rule planner plans a query of the engine, and the work of its decision.
use oss.Prelude.{◌⊎◌, ◌*◌, true, List, [], ◌∷◌, map, ◌≡◌, refl, All}
use oss.Core.Errors.{◌>>=◌, other_exception, ok, raise}
use oss.Core.Kinds.{vector, graph}
use oss.Planner.Plan.{PlanDefinition, load_plan_catalog, PlannerMode, fixed_hybrid}
use oss.Planner.Rule.{planner_decision}
use oss.Planner.Rule.Total.{IsFrozen, rule_planner_config-IsFrozen}
use oss.Planner.Rule.{rule_planner_config, RulePlanner, rule_planner}
use oss.Planner.Rule.Select.{select}
use oss.Engine.Requests.{SearchRequest, check_modes}
use oss.Engine.Plans.{BranchCall, branch_work, call_kind}
use oss.Engine.Execute.{plan_request}
use oss.Engine.Plans.Supplied.{Covers}
use oss.Engine.Execute.Supply.{plan_request-supplies, IsVectorless}
use oss.Samples.Planner.{
  sample_catalog, planner, vector_only, graph_only, hybrid, tenth, passed_audit, sha256, rules,
  relation_query, relation_decision, request_deadline, ms,
}
use oss.Samples.Engine.{request, plain_overrides, no_switches}

-- The rule planner plans the same query.
abbrev rule_request : SearchRequest
rule_request = record request { planner = PlannerMode.rule }

rules-IsFrozen : IsFrozen rules
unfolding rule_planner_config
rules-IsFrozen = rule_planner_config-IsFrozen rules rules refl

guards_pass : check_modes no_switches rule_request plain_overrides ≡ ok tt
unfolding check_modes
guards_pass = refl

rule_planned :
    plan_request planner sample_catalog no_switches rule_request plain_overrides relation_query
      request_deadline true
      (40 * ms)
      PlannerMode.rule
    ≡ ok (fixed_hybrid, relation_decision)
unfolding plan_request planner_decision
rule_planned = refl

plan_request-supplies_example :
    ((works : List BranchCall) × (branch_work fixed_hybrid relation_decision ≡ ok works)
      × (map call_kind works ≡ vector ∷ graph ∷ [])
      × All (Covers 12) works)
    ⊎ ((◌≡◌ {A = PlannerMode} PlannerMode.rule PlannerMode.rule)
        × IsVectorless planner fixed_hybrid relation_decision)
plan_request-supplies_example =
    plan_request-supplies planner sample_catalog no_switches rule_request plain_overrides
      relation_query request_deadline true (40 * ms) PlannerMode.rule
      (fixed_hybrid, relation_decision) rules-IsFrozen refl guards_pass refl rule_planned

-- Every constructor accepts a P5 that searches only the graph, and the work of its decision fails.
abbrev vectorless_plans : List PlanDefinition
vectorless_plans =
    vector_only 0 10
    ∷ vector_only 1 30
    ∷ graph_only 2 20 1
    ∷ graph_only 3 30 3
    ∷ hybrid 4 20 15 1 (7 * tenth) (3 * tenth)
    ∷ graph_only 5 20 1
    ∷ hybrid 6 15 30 2 (3 * tenth) (7 * tenth)
    ∷ hybrid 7 30 30 2 (5 * tenth) (5 * tenth)
    ∷ hybrid 8 15 40 3 250_000_000_000 750_000_000_000
    ∷ []

abbrev vectorless_planner : RulePlanner
vectorless_planner = record planner { catalog = record { plans = vectorless_plans } }

vectorless_builds :
    (load_plan_catalog vectorless_plans >>= λ catalog.
    rule_planner catalog passed_audit rules sha256)
    ≡ ok vectorless_planner
unfolding load_plan_catalog rule_planner
vectorless_builds = refl

vectorless_run :
    (select vectorless_planner relation_query request_deadline true (40 * ms) >>= λ d.
    branch_work d.effective_mode d)
    ≡ raise other_exception
unfolding select planner_decision branch_work
vectorless_run = refl
