-- ===== src/Planner/Rule/Ready.antt =====
-- RulePlanner.select for a planner that has been built by its constructors.
use oss.Prelude.{ℕ, ◌≤◌, ◌<◌, Bool, not, ◌&&◌, List, ◌≡◌, ap, subst, arith, none, leb}
use oss.Prelude.Text.{Text}
use oss.Core.Errors.{
  ok, raise_if, guard_passed, value_error, on_return, ok_injective, rag, ragplan_error,
  deadline_exceeded,
}
use oss.Core.Deadline.{Deadline, snapshot}
use oss.Planner.Plan.{PlanDefinition, PlanCatalog, plan_catalog, plan_for_id, max_top_k}
use oss.Planner.Plan.Catalog.{plan_for_id-total}
use oss.Planner.Rule.{
  QueryAnalysis, RulePlanner, RulePlannerConfig, candidate_ids, rule_planner_config,
  check_candidates, is_sha256, rule_planner, RuleGraphTierPolicy,
}
use oss.Planner.Rule.Select.{select}
use oss.Planner.Rule.Total.{
  IsReady, IsFrozen, rule_planner_config-IsFrozen, select_within-Decides, Decides,
}

rule_planner-parts :
    (catalog : PlanCatalog) (policy : RuleGraphTierPolicy) (c : RulePlannerConfig) (sha256 : Text)
    (p : RulePlanner)
    → rule_planner catalog policy c sha256 ≡ ok p
    → (catalog ≡ p.catalog) × (c ≡ p.config)
unfolding rule_planner
rule_planner-parts catalog policy c sha256 p h =
    on_return _ (check_candidates catalog candidate_ids) p h λ _ _ h1.
      let built : RulePlanner = record {
        catalog = catalog;
        graph_policy = policy;
        config = c;
        feature_config_sha256 = sha256;
      } in
      let same =
        ok_injective (guard_passed (not (is_sha256 sha256)) value_error (ok built) p h1).1 in
      (ap (λ r. r.catalog) same, ap (λ r. r.config) same)

rule_planner-IsReady :
    (plans : List PlanDefinition) (catalog : PlanCatalog) (policy : RuleGraphTierPolicy)
    (raw c : RulePlannerConfig) (sha256 : Text) (p : RulePlanner)
    → plan_catalog plans ≡ ok catalog
    → rule_planner_config raw ≡ ok c
    → rule_planner catalog policy c sha256 ≡ ok p
    → IsReady p
rule_planner-IsReady plans catalog policy raw c sha256 p loaded valid built =
    let (same, config) = rule_planner-parts catalog policy c sha256 p built in
    record {
      frozen = subst IsFrozen config (rule_planner_config-IsFrozen raw c valid);
      found = λ n low.
          let (plan, e, _) = plan_for_id-total plans catalog n loaded low in
          (plan, subst (λ c. plan_for_id c n ≡ ok plan) same e);
    }

-- A planner that its constructors have built returns, for an analysis of a request for 1 to 50 results and as long as
-- time for the branches remains, a decision; only where one of its candidates wants more than 50 results of a branch that it
-- searches may it end with ValueError instead, and it ends in no other way.
pub select-Decides :
    (plans : List PlanDefinition) (catalog : PlanCatalog) (policy : RuleGraphTierPolicy)
    (raw c : RulePlannerConfig) (sha256 : Text) (p : RulePlanner) (analysis : QueryAnalysis)
    (deadline : Deadline) (graph_runtime_available : Bool) (now : ℕ)
    → plan_catalog plans ≡ ok catalog
    → rule_planner_config raw ≡ ok c
    → rule_planner catalog policy c sha256 ≡ ok p
    → 1 ≤ analysis.features.final_top_k
    → analysis.features.final_top_k ≤ max_top_k
    → 0 < (snapshot deadline now).branch_remaining_ns
    → Decides p (select p analysis deadline graph_runtime_available now)
unfolding select
select-Decides plans catalog policy raw c sha256 p analysis deadline available now loaded valid
      built low high time =
    let ready = rule_planner-IsReady plans catalog policy raw c sha256 p loaded valid built in
    let open_budget : raise_if (leb (snapshot deadline now).branch_remaining_ns 0)
          (rag (ragplan_error deadline_exceeded none none))
        ≡ ok tt =
      ground arith in
    rw open_budget (
      select_within-Decides p ready analysis _ (p.graph_policy.graph_tier_enabled && available) low
        high)
