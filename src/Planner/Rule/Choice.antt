-- ===== src/Planner/Rule/Choice.antt =====
-- The minimum over the keys of RulePlanner.select is the first feasible plan of the ladder.
use oss.Prelude.{
  ℕ, suc, ◌≤◌, ◌<◌, false, List, [], ◌∷◌, ◌≡◌, refl, sym, ap, ◌∙◌, subst, arith, Bool-cases, inl,
  inr, ◌==◌, ==_iff, if◌then◌else◌, All, All-map,
}
use oss.Core.Errors.{Result, ok, on_return, ◌>>=◌}
use oss.Planner.Plan.{PlanDefinition, PlanCatalog, plan_for_id, find_plan}
use oss.Planner.Rule.{PlanEstimate, feasible}
use oss.Planner.Rule.Select.{
  estimate_of, Candidate, least, key, lex_less, feasible_candidates, selected_id,
}

find_plan-id :
    (ps : List PlanDefinition) (n : ℕ) (p : PlanDefinition) → find_plan ps n ≡ ok p → p.id ≡ n
unfolding find_plan
find_plan-id [] n p h = absurd (cc)
find_plan-id (q ∷ ps) n p h = elim (Bool-cases (q.id == n)) [
  | inl here ↦
      let same = rw here at h in let e : q ≡ p = cc in subst (λ r. r.id ≡ n) e ((==_iff _ _).0 here)
  | inr there ↦ find_plan-id ps n p (rw there at h)
]

pub plan_for_id-id :
    (c : PlanCatalog) (n : ℕ) (p : PlanDefinition) → plan_for_id c n ≡ ok p → p.id ≡ n
unfolding plan_for_id
plan_for_id-id c n p h = find_plan-id c.plans n p h

pub estimate_of-id :
    (es : List PlanEstimate) (n : ℕ) (e : PlanEstimate) → estimate_of es n ≡ ok e → e.plan_id ≡ n
unfolding estimate_of
estimate_of-id [] n e h = absurd (cc)
estimate_of-id (x ∷ es) n e h = elim (Bool-cases (x.plan_id == n)) [
  | inl here ↦
      let same = rw here at h in
      let q : x ≡ e = cc in subst (λ r. r.plan_id ≡ n) q ((==_iff _ _).0 here)
  | inr there ↦ estimate_of-id es n e (rw there at h)
]

-- The first plan of an order whose estimate is feasible, and P0 if there is none.
unfoldable pub first_fit : List PlanEstimate → List ℕ → Result ℕ
unfolding estimate_of
first_fit es [] = ok 0
first_fit es (n ∷ ns) =
    estimate_of es n >>= λ e. let rest = first_fit es ns in if feasible e then ok n else rest

least-head :
    (best : Candidate) (cs : List Candidate)
    → All (λ c. best.preference < c.preference) cs
    → least best cs ≡ best
unfolding least
least-head best [] h = refl
least-head best (c ∷ cs) h =
    let kept : lex_less (key c) (key best) ≡ false = ground (arith, h.0) in
    rw kept (least-head best cs h.1)

added :
    (e : PlanEstimate) (place depth : ℕ) (rest cs : List Candidate)
    → All (λ c. place ≤ c.preference) rest
    → ok (
        if feasible e
        then record { estimate = e; preference = place; depth = depth } ∷ rest
        else rest)
      ≡ ok cs
    → All (λ c. place ≤ c.preference) cs
added e place depth rest cs all h = elim (Bool-cases (feasible e)) [
  | inl f ↦
      let same = rw f at h in
      subst (All (λ c. place ≤ c.preference))
        (let q : record { estimate = e; preference = place; depth = depth } ∷ rest ≡ cs = cc in q)
        (omega arith, all)
  | inr f ↦
      let same = rw f at h in
      subst (All (λ c. place ≤ c.preference)) (let q : rest ≡ cs = cc in q) all
]

feasible_candidates-preference :
    (catalog : PlanCatalog) (es : List PlanEstimate) (place : ℕ) (ns : List ℕ) (cs : List Candidate)
    → feasible_candidates catalog es place ns ≡ ok cs
    → All (λ c. place ≤ c.preference) cs
unfolding feasible_candidates
feasible_candidates-preference catalog es place [] cs h =
    subst (All (λ c. place ≤ c.preference)) (let e : [] ≡ cs = cc in e) tt
feasible_candidates-preference catalog es place (n ∷ ns) cs h =
    on_return _ (estimate_of es n) cs h λ e _ h1.
      on_return _ (plan_for_id catalog n) cs h1 λ plan _ h2.
        on_return _ (feasible_candidates catalog es (suc place) ns) cs h2 λ rest r h3.
          added e place plan.graph_depth rest cs
            (All-map (λ (c : Candidate). suc place ≤ c.preference) (λ c. place ≤ c.preference) rest
              (λ c b. omega (arith, b))
              (feasible_candidates-preference catalog es (suc place) ns rest r))
            h3

-- The candidates of an order that are kept begin with the first plan that fits.
pub feasible_candidates-first_fit :
    (catalog : PlanCatalog) (es : List PlanEstimate) (place : ℕ) (ns : List ℕ) (cs : List Candidate)
    → feasible_candidates catalog es place ns ≡ ok cs
    → first_fit es ns ≡ ok (selected_id cs)
unfolding feasible_candidates first_fit selected_id
feasible_candidates-first_fit catalog es place [] cs h =
    ap (λ cs. ok (selected_id cs)) (let e : [] ≡ cs = cc in e)
feasible_candidates-first_fit catalog es place (n ∷ ns) cs h =
    on_return _ (estimate_of es n) cs h λ e known h1.
      on_return _ (plan_for_id catalog n) cs h1 λ plan _ h2.
        on_return _ (feasible_candidates catalog es (suc place) ns) cs h2 λ rest r h3.
          elim (Bool-cases (feasible e)) [
            | inl f ↦
                let best : Candidate = record {
                  estimate = e;
                  preference = place;
                  depth = plan.graph_depth;
                } in
                let same = rw f at h3 in
                let q : best ∷ rest ≡ cs = cc in
                let l =
                  least-head best rest
                    (feasible_candidates-preference catalog es (suc place) ns rest r) in
                let i = estimate_of-id es n e known in
                rw (known, f)
                  (ap ok
                    (sym i ∙ ap (λ (c : Candidate). c.estimate.plan_id) (sym l) ∙ ap selected_id q))
            | inr f ↦
                let same = rw f at h3 in
                let q : rest ≡ cs = cc in
                rw (known, f)
                  (feasible_candidates-first_fit catalog es (suc place) ns rest r
                    ∙ ap (λ cs. ok (selected_id cs)) q)
          ]
