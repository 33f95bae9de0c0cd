-- ===== src/Planner/Plan/Catalog.antt =====
-- Look-up in a catalog that has passed its validation.
use oss.Prelude.{
  ℕ, ◌≤◌, Bool, true, false, not, ◌&&◌, List, [], ◌∷◌, map, ◌≡◌, refl, sym, subst, arith,
  Bool-cases, inl, inr, ◌==◌, ==_iff, all_of,
}
use oss.Core.Errors.{ok, value_error, guard_passed}
use oss.Planner.Plan.{
  PlanDefinition, PlanCatalog, plan_catalog, find_plan, plan_for_id, has_id, no_plans, repeats,
  ascending, expected_plan_ids,
}

abbrev ids : List PlanDefinition → List ℕ
ids plans = map (λ (p : PlanDefinition). p.id) plans

find_plan-found :
    (plans : List PlanDefinition) (n : ℕ)
    → has_id n (ids plans) ≡ true
    → (p : PlanDefinition) × (find_plan plans n ≡ ok p) × (p.id ≡ n)
unfolding find_plan
find_plan-found [] n h = absurd (cc)
find_plan-found (p ∷ plans) n h = elim (Bool-cases (p.id == n)) [
  | inl here ↦ (p, rw here refl, (==_iff _ _).0 here)
  | inr there ↦
      let (q, e, named) = find_plan-found plans n (rw there at h) in (q, rw there e, named)
]

both_true : (a b : Bool) → not (a && b) ≡ false → (a ≡ true) × (b ≡ true)
both_true a b h = ground arith

pub all_of-member :
    (p : ℕ → Bool) (xs : List ℕ) (n : ℕ) → all_of p xs ≡ true → has_id n xs ≡ true → p n ≡ true
all_of-member p [] n h k = absurd (cc)
all_of-member p (x ∷ xs) n h k = elim (Bool-cases (x == n)) [
  | inl here ↦ let e = (==_iff x n).0 here in subst (λ m. p m ≡ true) e (ground arith)
  | inr there ↦ all_of-member p xs n (ground arith) (rw there at k)
]

-- What the validation of a catalog leaves.
record IsComplete (plans : List PlanDefinition) (c : PlanCatalog) : Type 0 where
  pub same : c.plans ≡ plans
  pub all : all_of (λ n. has_id n (ids plans)) expected_plan_ids ≡ true
  pub only : all_of (λ n. has_id n expected_plan_ids) (ids plans) ≡ true

plan_catalog-IsComplete :
    (plans : List PlanDefinition) (c : PlanCatalog) → plan_catalog plans ≡ ok c → IsComplete plans c
unfolding plan_catalog
plan_catalog-IsComplete plans c h =
    let (_, h1) = guard_passed (no_plans (ids plans)) value_error _ c h in
    let (_, h2) = guard_passed (repeats (ids plans)) value_error _ c h1 in
    let (_, h3) = guard_passed (not (ascending (ids plans))) value_error _ c h2 in
    let (b, h4) =
      guard_passed
        (not (
          all_of (λ n. has_id n (ids plans)) expected_plan_ids
          && all_of (λ n. has_id n expected_plan_ids) (ids plans)))
        value_error (ok (record { plans = plans })) c h3 in
    let (all, only) = both_true _ _ b in record { same = cc; all = all; only = only }

expected : (n : ℕ) → n ≤ 8 → has_id n expected_plan_ids ≡ true
expected n h = ground arith

-- A catalog that passes its validation has a plan for each name from P0 to P8, under that name.
pub plan_for_id-total :
    (plans : List PlanDefinition) (c : PlanCatalog) (n : ℕ)
    → plan_catalog plans ≡ ok c
    → n ≤ 8
    → (p : PlanDefinition) × (plan_for_id c n ≡ ok p) × (p.id ≡ n)
unfolding plan_for_id
plan_for_id-total plans c n h low =
    let v = plan_catalog-IsComplete plans c h in
    let (p, e, named) =
      find_plan-found plans n
        (all_of-member (λ m. has_id m (ids plans)) expected_plan_ids n v.all (expected n low)) in
    (p, subst (λ ps. find_plan ps n ≡ ok p) (sym v.same) e, named)

pub plan_catalog-plans :
    (plans : List PlanDefinition) (c : PlanCatalog) → plan_catalog plans ≡ ok c → c.plans ≡ plans
plan_catalog-plans plans c h = (plan_catalog-IsComplete plans c h).same
