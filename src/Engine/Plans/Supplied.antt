-- ===== src/Engine/Plans/Supplied.antt =====
-- The explicit modes decide with enough candidates for the branches that they search.
use oss.Prelude.{
  ℕ, ◌≤◌, max, Bool, true, false, not, ◌||◌, Option, none, some, List, [], ◌∷◌, map, ◌≡◌, refl, sym,
  ap, ◌∙◌, subst, arith, inl, inr, ◌⊎◌, Bool-cases, leb, if◌then◌else◌, All,
}
use oss.Core.Errors.{ok, raise_if, on_return, ok_injective}
use oss.Core.Deadline.{Deadline}
use oss.Planner.Plan.{
  PlannerMode, vector_mode, graph_mode, fixed_hybrid, rule, cost_aware, PlanDefinition, PlanCatalog,
  plan_for_id, has_id,
}
use oss.Planner.Rule.{PlannerDecision}
use oss.Planner.Rule.Fits.{planner_decision-same}
use oss.Engine.Requests.{SearchRequest, mode_for_plan, same_mode, fixed_plan_ids, violation}
use oss.Engine.Plans.{
  vector_decision, graph_decision, fixed_decision, profile_decision, planning_time,
  select_vector_plan, graph_plan, select_graph_plan, fixed_plan_id, select_fixed_plan,
  select_profile_plan, BranchCall, vector_call, graph_call, call_kind, uses_vector, uses_graph,
  mode_kinds, or_one, branch_work,
}

pub Option-cases {ℓ} : {A : Type ℓ} (x : Option A) → (x ≡ none) ⊎ ((a : A) × (x ≡ some a))
Option-cases none = inl refl
Option-cases (some a) = inr (a, refl)

-- At least so many candidates
abbrev pub Covers : ℕ → BranchCall → Type 0
Covers k (vector_call n) = k ≤ n
Covers k (graph_call plan) = k ≤ plan.graph_top_k

-- A mode with a branch, and a decision with the candidates for each branch of the mode.
pub record IsSupplied (k : ℕ) (mode : PlannerMode) (d : PlannerDecision) : Type 0 where
  pub some_branch : (uses_vector mode || uses_graph mode) ≡ true
  pub for_vector :
      (uses_vector mode ≡ false) ⊎ ((n : ℕ) × (d.executed_vector_top_k ≡ some n) × (k ≤ n))
  pub for_graph :
      (uses_graph mode ≡ false) ⊎ ((n : ℕ) × (d.executed_graph_top_k ≡ some n) × (k ≤ n))

-- The work of a decision
abbrev HasWork : ℕ → PlannerMode → PlannerDecision → Type 0
HasWork k mode d =
    (works : List BranchCall) × (branch_work mode d ≡ ok works)
    × (map call_kind works ≡ mode_kinds mode)
    × All (Covers k) works

or_one-covers : (k n : ℕ) → k ≤ n → k ≤ or_one n
or_one-covers k n h = ground arith

pub IsSupplied-HasWork :
    (k : ℕ) (mode : PlannerMode) (d : PlannerDecision) → IsSupplied k mode d → HasWork k mode d
unfolding branch_work
IsSupplied-HasWork k vector_mode d s = elim s.for_vector [
  | inl bad ↦ absurd (cc)
  | inr (n, e, h) ↦ (vector_call (or_one n) ∷ [], rw e refl, refl, (or_one-covers k n h, tt))
]
IsSupplied-HasWork k graph_mode d s = elim s.for_graph [
  | inl bad ↦ absurd (cc)
  | inr (n, e, h) ↦
      (graph_call (record d.selected_plan { graph_top_k = n }) ∷ [], rw e refl, refl, (h, tt))
]
IsSupplied-HasWork k fixed_hybrid d s = elim s.for_vector [
  | inl bad ↦ absurd (cc)
  | inr (n, e, h) ↦ elim s.for_graph [
    | inl bad ↦ absurd (cc)
    | inr (n', e', h') ↦ (
      vector_call (or_one n) ∷ graph_call (record d.selected_plan { graph_top_k = n' }) ∷ [],
      rw (e, e') refl,
      refl,
      (or_one-covers k n h, (h', tt)),
    )
  ]
]
IsSupplied-HasWork k rule d s = absurd (let h = s.some_branch in cc)
IsSupplied-HasWork k cost_aware d s = absurd (let h = s.some_branch in cc)

module _ (catalog : PlanCatalog) (request : SearchRequest) (deadline : Deadline) (now : ℕ) where
  pub vector_plan-IsSupplied :
      (forced : Bool) (d : PlannerDecision)
      → select_vector_plan catalog request deadline now forced ≡ ok d
      → IsSupplied request.top_k vector_mode d
  unfolding select_vector_plan
  vector_plan-IsSupplied forced d h =
      on_return _ (plan_for_id catalog (if leb request.top_k 10 then 0 else 1)) d h λ plan _ h1.
        on_return _ (planning_time deadline now) d h1 λ remaining _ h2.
          subst (IsSupplied request.top_k vector_mode)
            (planner_decision-same (vector_decision request plan remaining forced) d h2)
            (record {
              some_branch = refl;
              for_vector = inr (max request.top_k plan.vector_top_k, refl, omega arith);
              for_graph = inl refl;
            })

  pub graph_plan-IsSupplied :
      (depth : Option ℕ) (d : PlannerDecision)
      → select_graph_plan catalog request deadline now depth ≡ ok d
      → IsSupplied request.top_k graph_mode d
  unfolding select_graph_plan
  graph_plan-IsSupplied depth d h =
      on_return _ (graph_plan catalog request deadline now depth) d h λ plan _ h1.
        on_return _ (planning_time deadline now) d h1 λ remaining _ h2.
          subst (IsSupplied request.top_k graph_mode)
            (planner_decision-same (graph_decision request plan remaining) d h2)
            (record {
              some_branch = refl;
              for_vector = inl refl;
              for_graph = inr (max request.top_k plan.graph_top_k, refl, omega arith);
            })

  pub fixed_plan-IsSupplied :
      (d : PlannerDecision)
      → select_fixed_plan catalog request deadline now ≡ ok d
      → IsSupplied request.top_k fixed_hybrid d
  unfolding select_fixed_plan
  fixed_plan-IsSupplied d h =
      let n = fixed_plan_id catalog request deadline now request.plan_id in
      on_return _ (raise_if (not (has_id n fixed_plan_ids)) violation) d h λ _ _ h1.
        on_return _ (plan_for_id catalog n) d h1 λ plan _ h2.
          on_return _
            (raise_if
              (not plan.enabled_in_p0 || (not plan.vector_enabled || not plan.graph_enabled))
              violation)
            d h2
            λ _ _ h3. on_return _ (planning_time deadline now) d h3 λ remaining _ h4.
              subst (IsSupplied request.top_k fixed_hybrid)
                (planner_decision-same (fixed_decision request plan remaining) d h4)
                (record {
                  some_branch = refl;
                  for_vector = inr (max request.top_k plan.vector_top_k, refl, omega arith);
                  for_graph = inr (max request.top_k plan.graph_top_k, refl, omega arith);
                })

  -- What the mode of a plan says of its branches
  mode_for_plan-uses :
      (plan : PlanDefinition) (mode : PlannerMode)
      → mode_for_plan plan ≡ ok mode
      → ((uses_vector mode || uses_graph mode) ≡ true)
        × (uses_vector mode ≡ plan.vector_enabled)
        × (uses_graph mode ≡ plan.graph_enabled)
  unfolding mode_for_plan
  mode_for_plan-uses plan mode h = elim (Bool-cases plan.vector_enabled) [
    | inl v ↦ elim (Bool-cases plan.graph_enabled) [
      | inl g ↦ let e = ok_injective (rw (v, g) at h) in subst Uses e (refl, sym v, sym g)
      | inr g ↦ let e = ok_injective (rw (v, g) at h) in subst Uses e (refl, sym v, sym g)
    ]
    | inr v ↦ elim (Bool-cases plan.graph_enabled) [
      | inl g ↦ let e = ok_injective (rw (v, g) at h) in subst Uses e (refl, sym v, sym g)
      | inr g ↦ absurd (let e = rw (v, g) at h in cc)
    ]
  ]
    where
      Uses : PlannerMode → Type 0
      Uses mode =
          ((uses_vector mode || uses_graph mode) ≡ true)
          × (uses_vector mode ≡ plan.vector_enabled)
          × (uses_graph mode ≡ plan.graph_enabled)

  wanted :
      (b : Bool) (k n : ℕ)
      → k ≤ n
      → (b ≡ false) ⊎ ((m : ℕ) × ((if b then some n else none) ≡ some m) × (k ≤ m))
  wanted true k n h = inr (n, refl, h)
  wanted false k n h = inl refl

  pub profile_plan-IsSupplied :
      (plan_id : ℕ) (plan : PlanDefinition) (mode : PlannerMode) (d : PlannerDecision)
      → plan_for_id catalog plan_id ≡ ok plan
      → mode_for_plan plan ≡ ok mode
      → select_profile_plan catalog request deadline now plan_id ≡ ok d
      → IsSupplied request.top_k mode d
  unfolding select_profile_plan
  profile_plan-IsSupplied plan_id plan mode d found shaped h =
      on_return _ (plan_for_id catalog plan_id) d h λ plan' found' h1.
        on_return _ (raise_if (not plan'.enabled_in_p0 || plan'.rerank_enabled) violation) d h1
          λ _ _ h2. on_return _ (mode_for_plan plan') d h2 λ mode' _ h3.
            on_return _ (raise_if (not (same_mode request.planner mode')) violation) d h3 λ _ _ h4.
              on_return _ (planning_time deadline now) d h4 λ remaining _ h5.
                let same = ok_injective (sym found' ∙ found) in
                let (some_branch, v, g) =
                  mode_for_plan-uses plan' mode (ap mode_for_plan same ∙ shaped) in
                subst (IsSupplied request.top_k mode)
                  (planner_decision-same (profile_decision request mode' plan' remaining) d h5)
                  (record {
                    some_branch = some_branch;
                    for_vector = rw v (
                        wanted plan'.vector_enabled request.top_k
                          (max request.top_k plan'.vector_top_k) (omega arith));
                    for_graph = rw g (
                        wanted plan'.graph_enabled request.top_k
                          (max request.top_k plan'.graph_top_k) (omega arith));
                  })
