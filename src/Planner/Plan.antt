-- ===== src/Planner/Plan.antt =====
-- The plan contracts of src/ragplan/core/models.py and src/ragplan/planner/catalog.py. A plan's name
-- "P<n>" is the number n: the pattern of PlanId writes each number in one way, and the catalog has the
-- numbers 0 to 8, whose texts compare like the numbers. A fraction (UnitFloat) is a whole number of
-- 10⁻¹², a duration a whole number of nanoseconds. What only names a decision for a reader, such as
-- `selection_reason`, is left out.
pub mod Catalog
use oss.Prelude.{
  ℕ, ◌+◌, ◌-◌, min, max, Bool, true, false, not, ◌&&◌, ◌||◌, Option, none, some, List, [], ◌∷◌, map,
  leb, ltb, ◌==◌, if◌then◌else◌, all_of, keep,
}
use oss.Prelude.Text.{Text}
use oss.Prelude.Sorting.{insert_by, sort_by}
use oss.Core.Errors.{Result, ok, raise, value_error, key_error, raise_if, ◌>>=◌, ◌>>◌}

pub data PlannerMode : Type 0 where
  vector_mode graph_mode fixed_hybrid rule cost_aware : PlannerMode

abbrev pub min_top_k : ℕ
min_top_k = 1

abbrev pub max_top_k : ℕ
max_top_k = 50

abbrev pub one : ℕ
one = 1_000_000_000_000

pub record PlanDefinition : Type 0 where
  pub id : ℕ
  pub name : Text
  pub vector_enabled : Bool
  pub graph_enabled : Bool
  pub vector_top_k : ℕ
  pub graph_top_k : ℕ
  pub graph_depth : ℕ
  pub vector_weight : ℕ
  pub graph_weight : ℕ
  pub rerank_enabled : Bool
  pub rerank_top_k : ℕ
  pub enabled_in_p0 : Bool

-- math.isclose(a, b, rel_tol=0.0, abs_tol=1e-12)
abbrev pub is_close : ℕ → ℕ → Bool
is_close a b = leb (max a b - min a b) 1

-- PlanDefinition._check_invariants, with the ranges of the fields
unfoldable pub plan_definition : PlanDefinition → Result PlanDefinition
plan_definition p = do
  raise_if (not (leb p.graph_depth 3 && (leb p.vector_weight one && leb p.graph_weight one)))
      value_error
  raise_if (not p.vector_enabled && not p.graph_enabled) value_error
  raise_if (not p.vector_enabled && (not (p.vector_top_k == 0) || not (p.vector_weight == 0)))
      value_error
  raise_if (p.vector_enabled && ltb p.vector_top_k 1) value_error
  raise_if
      (not p.graph_enabled
        && (not (p.graph_top_k == 0) || (not (p.graph_weight == 0) || not (p.graph_depth == 0))))
      value_error
  raise_if
      (p.graph_enabled && (ltb p.graph_top_k 1 || not (leb 1 p.graph_depth && leb p.graph_depth 3)))
      value_error
  raise_if (not (is_close (p.vector_weight + p.graph_weight) one)) value_error
  raise_if
      (p.rerank_enabled
        && (ltb p.rerank_top_k 1 || ltb (p.vector_top_k + p.graph_top_k) p.rerank_top_k))
      value_error
  raise_if (not p.rerank_enabled && not (p.rerank_top_k == 0)) value_error
  ok p

pub record PlanCatalog : Type 0 where
  pub plans : List PlanDefinition

abbrev pub has_id : ℕ → List ℕ → Bool
has_id n [] = false
has_id n (m ∷ ms) = let rest = has_id n ms in if m == n then true else rest

abbrev pub repeats : List ℕ → Bool
repeats [] = false
repeats (n ∷ ns) = let rest = repeats ns in if has_id n ns then true else rest

abbrev pub ascending : List ℕ → Bool
ascending [] = true
ascending (a ∷ []) = true
ascending (a ∷ b ∷ ns) = let rest = ascending (b ∷ ns) in if leb a b then rest else false

-- _EXPECTED_PLAN_IDS
abbrev pub expected_plan_ids : List ℕ
expected_plan_ids = 0 ∷ 1 ∷ 2 ∷ 3 ∷ 4 ∷ 5 ∷ 6 ∷ 7 ∷ 8 ∷ []

abbrev pub no_plans : List ℕ → Bool
no_plans [] = true
no_plans (_ ∷ _) = false

-- PlanCatalog.__post_init__
unfoldable pub plan_catalog : List PlanDefinition → Result PlanCatalog
plan_catalog plans = do
  let ids = map (λ (p : PlanDefinition). p.id) plans
  raise_if (no_plans ids) value_error
  raise_if (repeats ids) value_error
  raise_if (not (ascending ids)) value_error
  raise_if
      (not (
        all_of (λ n. has_id n ids) expected_plan_ids
        && all_of (λ n. has_id n expected_plan_ids) ids))
      value_error
  ok (record { plans = plans })

-- Each plan of load_plan_catalog, in the order of the file
unfoldable pub parsed_plans : List PlanDefinition → Result (List PlanDefinition)
unfolding plan_definition
parsed_plans [] = ok []
parsed_plans (raw ∷ raws) = do
  plan ← plan_definition raw
  plans ← parsed_plans raws
  ok (plan ∷ plans)

-- load_plan_catalog from the list of plans in the YAML file, which is parsed elsewhere
unfoldable pub load_plan_catalog : List PlanDefinition → Result PlanCatalog
unfolding parsed_plans plan_catalog sort_by
load_plan_catalog raws = do
  plans ← parsed_plans raws
  plan_catalog (sort_by (λ (p q : PlanDefinition). leb p.id q.id) plans)

-- The loop of PlanCatalog.plan_for_id
unfoldable pub find_plan : List PlanDefinition → ℕ → Result PlanDefinition
find_plan [] n = raise key_error
find_plan (p ∷ plans) n = let rest = find_plan plans n in if p.id == n then ok p else rest

-- PlanCatalog.plan_for_id
unfoldable pub plan_for_id : PlanCatalog → ℕ → Result PlanDefinition
unfolding find_plan
plan_for_id catalog n = find_plan catalog.plans n

-- PlanCatalog.p0_enabled_plans
unfoldable pub p0_enabled_plans : PlanCatalog → List PlanDefinition
p0_enabled_plans catalog = keep (λ (p : PlanDefinition). p.enabled_in_p0) catalog.plans
