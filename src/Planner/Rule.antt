-- ===== src/Planner/Rule.antt =====
-- src/ragplan/planner/rule.py: the deterministic planner. Signals and thresholds are fractions in units
-- of 10⁻¹² and durations nanoseconds, so that comparisons are exact. The names of rules and reasons are constructors.
pub mod Select
pub mod Choice
pub mod Fits
pub mod Total
pub mod Ready
use oss.Prelude.{
  ℕ, zero, suc, ◌+◌, ◌-◌, ◌*◌, max, Bool, true, false, not, ◌&&◌, ◌||◌, Option, none, some, List,
  [], ◌∷◌, ◌++◌, map, leb, ltb, ◌==◌, if◌then◌else◌, keep, all_of, length,
}
use oss.Prelude.Text.{Text}
use oss.Core.Errors.{
  ErrorCode, Result, ok, raise, value_error, key_error, rag, ragplan_error, deadline_exceeded,
  raise_if, ◌>>=◌, ◌>>◌,
}
use oss.Core.Kinds.{BranchKind, BranchStatus}
use oss.Core.Deadline.{Deadline, snapshot}
use oss.Planner.Plan.{
  PlannerMode, vector_mode, fixed_hybrid, rule, PlanDefinition, PlanCatalog, plan_for_id, min_top_k,
  max_top_k, one,
}

pub record QueryFeatures : Type 0 where
  pub token_count : ℕ
  pub entity_count : ℕ
  pub entity_density : ℕ
  pub relation_signal : ℕ
  pub multi_hop_signal : ℕ
  pub comparison_signal : ℕ
  pub aggregation_signal : ℕ
  pub global_signal : ℕ
  pub final_top_k : ℕ

-- QueryAnalysis, without the embedding and the graph seeds
pub record QueryAnalysis : Type 0 where
  pub normalized_query : Text
  pub language_supported : Bool
  pub token_count : ℕ
  pub features : QueryFeatures
  pub analysis_latency_ns : ℕ

-- RuleGraphTierPolicy: the fields that the planner reads
pub record RuleGraphTierPolicy : Type 0 where
  pub graph_tier_enabled : Bool
  pub reason : Text

pub record StaticPlanProfile : Type 0 where
  pub plan_id : ℕ
  pub predicted_p95_latency : ℕ

pub record RulePlannerConfig : Type 0 where
  pub low_budget_threshold : ℕ
  pub relation_threshold : ℕ
  pub multi_hop_threshold : ℕ
  pub comparison_threshold : ℕ
  pub aggregation_threshold : ℕ
  pub global_threshold : ℕ
  pub candidate_profiles : List StaticPlanProfile
  pub simple_plan_order : List ℕ
  pub relation_plan_order : List ℕ
  pub multi_hop_plan_order : List ℕ
  pub top_k_surcharge : ℕ

-- Equality of two tuples of plan names
abbrev pub same_ids : List ℕ → List ℕ → Bool
same_ids [] [] = true
same_ids (a ∷ as') (b ∷ bs) = let rest = same_ids as' bs in if a == b then rest else false
same_ids _ _ = false

abbrev pub candidate_ids : List ℕ
candidate_ids = 0 ∷ 1 ∷ 4 ∷ 5 ∷ 6 ∷ 8 ∷ []

abbrev increasing : List ℕ → Bool
increasing [] = true
increasing (a ∷ []) = true
increasing (a ∷ b ∷ ns) = let rest = increasing (b ∷ ns) in if ltb a b then rest else false

-- RulePlannerConfig._valid_plan_space, with the ranges of the fields
unfoldable pub rule_planner_config : RulePlannerConfig → Result RulePlannerConfig
rule_planner_config c = do
  raise_if
      (not (
        ltb 0 c.low_budget_threshold
        && all_of (λ (p : StaticPlanProfile). ltb 0 p.predicted_p95_latency) c.candidate_profiles))
      value_error
  raise_if
      (not (
        all_of (λ t. leb t one)
          (c.relation_threshold ∷ c.multi_hop_threshold ∷ c.comparison_threshold
            ∷ c.aggregation_threshold ∷ c.global_threshold ∷ [])))
      value_error
  raise_if
      (not
        (same_ids (map (λ (p : StaticPlanProfile). p.plan_id) c.candidate_profiles) candidate_ids))
      value_error
  raise_if
      (not (
        increasing (map (λ (p : StaticPlanProfile). p.predicted_p95_latency) c.candidate_profiles)))
      value_error
  raise_if
      (not (
        same_ids c.simple_plan_order (1 ∷ 0 ∷ [])
        && (same_ids c.relation_plan_order (6 ∷ 5 ∷ 4 ∷ 0 ∷ [])
            && same_ids c.multi_hop_plan_order (8 ∷ 6 ∷ 5 ∷ 4 ∷ 0 ∷ []))))
      value_error
  ok c

pub data InfeasibleReason : Type 0 where
  unsupported_language graph_tier_unavailable exceeds_remaining_budget : InfeasibleReason

pub record PlanEstimate : Type 0 where
  pub plan_id : ℕ
  pub predicted_p95_latency : ℕ
  pub infeasible_reason : Option InfeasibleReason

abbrev pub is_none {ℓ} : {A : Type ℓ} → Option A → Bool
is_none none = true
is_none (some _) = false

-- PlanEstimate.feasible: the planner sets it to `infeasible_reason is None`
abbrev pub feasible : PlanEstimate → Bool
feasible e = is_none e.infeasible_reason

pub data MatchedRule : Type 0 where
  unsupported_language_vector_safe low_remaining_budget graph_tier_unavailable : MatchedRule
  multi_hop_signal comparison_signal aggregation_signal global_signal relation_signal : MatchedRule
  simple_vector_default no_profile_within_budget : MatchedRule

-- The detail of a failed branch: the error's code, or the branch's status
pub data FailureDetail : Type 0 where
  by_code : ErrorCode → FailureDetail
  by_status : BranchStatus → FailureDetail

-- The texts in `fallback_reason`, with those that the engine writes
pub data FallbackReason : Type 0 where
  unsupported_language graph_runtime_unavailable force_vector_only : FallbackReason
  graph_audit_gate : Text → FallbackReason
  failed_branch : BranchKind → FailureDetail → FallbackReason

pub record PlannerDecision : Type 0 where
  pub mode : PlannerMode
  pub effective_mode : PlannerMode
  pub selected_plan : PlanDefinition
  pub executed_vector_top_k : Option ℕ
  pub executed_graph_top_k : Option ℕ
  pub matched_rules : List MatchedRule
  pub remaining_budget : ℕ
  pub candidate_estimates : List PlanEstimate
  pub budget_feasible : Bool
  pub fallback_reason : Option FallbackReason

abbrev in_range : Option ℕ → Bool
in_range none = true
in_range (some k) = leb min_top_k k && leb k max_top_k

-- PlannerDecision(…): its other rules are met, since a plan comes with its own name and a mode is given
unfoldable pub planner_decision : PlannerDecision → Result PlannerDecision
planner_decision d = do
  raise_if (not (in_range d.executed_vector_top_k && in_range d.executed_graph_top_k)) value_error
  ok d

pub record RulePlanner : Type 0 where
  pub catalog : PlanCatalog
  pub graph_policy : RuleGraphTierPolicy
  pub config : RulePlannerConfig
  pub feature_config_sha256 : Text

-- The loop of RulePlanner.__init__
unfoldable pub check_candidates : PlanCatalog → List ℕ → Result (Unit {0})
unfolding plan_for_id
check_candidates catalog [] = ok tt
check_candidates catalog (n ∷ ns) = do
  plan ← plan_for_id catalog n
  raise_if (not plan.enabled_in_p0) value_error
  check_candidates catalog ns

-- A lowercase SHA-256
abbrev hex_digit : ℕ → Bool
hex_digit c = (leb 48 c && leb c 57) || (leb 97 c && leb c 102)

abbrev pub is_sha256 : Text → Bool
is_sha256 x = length x == 64 && all_of hex_digit x

-- RulePlanner.__init__, without `_config_version`, which only labels decisions; the identity of the feature
-- configuration is an argument, since its default comes from a file
unfoldable pub rule_planner :
    PlanCatalog → RuleGraphTierPolicy → RulePlannerConfig → Text → Result RulePlanner
unfolding check_candidates
rule_planner catalog policy config sha256 = do
  check_candidates catalog candidate_ids
  raise_if (not (is_sha256 sha256)) value_error
  ok (record {
    catalog = catalog;
    graph_policy = policy;
    config = config;
    feature_config_sha256 = sha256;
  })
