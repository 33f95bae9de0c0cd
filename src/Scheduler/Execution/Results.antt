-- ===== src/Scheduler/Execution/Results.antt =====
-- `execute` comes to one sound result for each of its branches, in the order of its works.
use oss.Prelude.{
  le→leb, ℕ, zero, suc, ◌≤◌, ◌<◌, ◌≡◌, ◌⊎◌, inl, inr, refl, ap, sym, ◌∙◌, subst, true, false, ◌==◌,
  List, [], ◌∷◌, arith, length, map, All, Bool-cases,
}
use oss.Core.Errors.{Exception, CancelMessage, Result, ok, raise, value_error}
use oss.Core.Kinds.{BranchKind}
use oss.Core.Deadline.{Deadline, remaining}
use oss.Scheduler.Circuit.{CircuitBreaker}
use oss.Scheduler.Branch.{BranchOutcome}
use oss.Scheduler.Branch.Shape.{IsSoundResult}
use oss.Scheduler.Tasks.{Wake, woken, interrupted, EventLoop, Progress, Step, has, has_duplicate}
use oss.Scheduler.Report.{SchedulerExecution, ordered_outcomes, finish}
use oss.Scheduler.Execution.{
  expire_pending, on_wake, rounds, execute, conclude, max_backend_tasks_per_request,
}
use oss.Scheduler.Execution.Complete.{
  IsAnswer, IsFair, IsDone, Tracks, Ends, collect_lem, expire_lem,
}

has_self : (k : BranchKind) (ks : List BranchKind) → has k (k ∷ ks) ≡ true
has_self k ks = ground arith

has_cons : (j k : BranchKind) (ks : List BranchKind) → has j ks ≡ true → has j (k ∷ ks) ≡ true
has_cons j k ks h = ground arith

module _ {Hit Trace : Type 0} (kinds : List BranchKind) (d : Deadline) (l : EventLoop Hit Trace)
    (fair : IsFair l) where
  expired-Ends :
      (pending : List BranchKind) (p : Progress Hit Trace)
      → Tracks kinds (λ k. has k pending) p
      → Ends l (Tracks kinds (λ k. false)) (expire_pending d l pending p)
  expired-Ends pending p t = let (p', e, t') = expire_lem kinds d l fair pending p t in rw e t'

  -- Whatever `asyncio.wait` answers, if the next rounds end well with fewer branches awaited.
  wake-Ends :
      (go_on : List BranchKind → Progress Hit Trace → Step Hit Trace) (n : ℕ)
      (pending : List BranchKind) (p : Progress Hit Trace)
      → ((still : List BranchKind) (p' : Progress Hit Trace)
          → length still < length pending
          → Tracks kinds (λ k. has k still) p'
          → Ends l (Tracks kinds (λ k. false)) (go_on still p'))
      → Tracks kinds (λ k. has k pending) p
      → (w : Wake) → l.wait n pending ≡ w
      → IsAnswer pending w
      → Ends l (Tracks kinds (λ k. false)) (on_wake d l pending go_on p w)
  wake-Ends go_on n pending p next t (woken [] still) e a = expired-Ends pending p t
  wake-Ends go_on n pending p next t (woken (j ∷ js) still) e a =
      let (p', done, t') =
        collect_lem kinds d l fair (j ∷ js) (λ k. has k still) p
          (λ k known. elim (t k known) [ inl b ↦ inl (sym (a.1 k) ∙ b) | inr o ↦ inr o ]) in
      rw done (next still p' (omega (arith, a.0)) t')
  wake-Ends go_on n pending p next t (interrupted m) e a = (m, refl, n, pending, e)

  -- Each round either ends the loop or leaves fewer branches awaited, so the fuel suffices.
  rounds-Ends :
      (fuel : ℕ) (pending : List BranchKind) (p : Progress Hit Trace)
      → length pending ≤ fuel
      → Tracks kinds (λ k. has k pending) p
      → Ends l (Tracks kinds (λ k. false)) (rounds d l fuel pending p)
  unfolding rounds
  rounds-Ends fuel [] p enough t = t
  rounds-Ends zero (k ∷ ks) p enough t = absurd (omega arith)
  rounds-Ends (suc fuel) (k ∷ ks) p enough t =
      elim (Bool-cases (remaining d true (l.now fuel) == 0)) [
        | inl over ↦ rw over (expired-Ends (k ∷ ks) p t)
        | inr left ↦ rw left (
            wake-Ends (rounds d l fuel) fuel (k ∷ ks) p
              (λ still p' fewer t'. rounds-Ends fuel still p' (omega arith) t') t
              (l.wait fuel (k ∷ ks)) refl (fair.answers fuel (k ∷ ks)))
      ]

abbrev branches : {Hit Trace : Type 0} → List (BranchOutcome Hit Trace) → List BranchKind
branches [] = []
branches (o ∷ os) = o.result.branch ∷ branches os

ordered_outcomes_lem :
    {Hit Trace : Type 0} (ks : List BranchKind) (p : Progress Hit Trace)
    → ((k : BranchKind) → has k ks ≡ true → IsDone p k)
    → (os : List (BranchOutcome Hit Trace)) × (ordered_outcomes ks p.outcomes ≡ ok os)
      × (branches os ≡ ks)
      × All (λ o. IsSoundResult o.result.branch o.result) os
unfolding ordered_outcomes
ordered_outcomes_lem [] p h = ([], refl, refl, tt)
ordered_outcomes_lem (k ∷ ks) p h =
    let (o, e, sound) = h k (has_self k ks) in
    let (os, e', same, all) = ordered_outcomes_lem ks p (λ j known. h j (has_cons j k ks known)) in
    (
      o ∷ os,
      rw (e, e'),
      rw (sound.2, same),
      (subst (λ i. IsSoundResult i o.result) (sym sound.2) sound, all),
    )

-- The request came to an execution whose results are sound and stand in the order of the works, or
-- to CancelledError, and then the event loop did cancel the request.
abbrev pub IsComplete :
    {Hit Trace : Type 0}
    → List BranchKind
    → EventLoop Hit Trace
    → Result (SchedulerExecution Hit Trace)
    → Type 0
IsComplete kinds l (ok x) =
    (map (λ r. r.branch) x.branch_results ≡ kinds)
    × All (λ r. IsSoundResult r.branch r) x.branch_results
IsComplete kinds l (raise e) =
    (m : CancelMessage) × (e ≡ Exception.cancelled m)
    × (n : ℕ) × (pending : List BranchKind) × (l.wait n pending ≡ interrupted m)

module _ {Hit Trace : Type 0} where
  results-branches :
      (os : List (BranchOutcome Hit Trace))
      → map (λ r. r.branch) (finish os).branch_results ≡ branches os
  unfolding finish
  results-branches [] = refl
  results-branches (o ∷ os) = ap (λ ks. o.result.branch ∷ ks) (results-branches os)

  results-All :
      (os : List (BranchOutcome Hit Trace))
      → All (λ o. IsSoundResult o.result.branch o.result) os
      → All (λ r. IsSoundResult r.branch r) (finish os).branch_results
  unfolding finish
  results-All [] h = tt
  results-All (o ∷ os) h = (h.0, results-All os h.1)

  conclude-IsComplete :
      (kinds : List BranchKind) (l : EventLoop Hit Trace) (s : Step Hit Trace)
      → Ends l (Tracks kinds (λ k. false)) s
      → IsComplete kinds l (conclude kinds s).0
  conclude-IsComplete kinds l (raise e, p) h = h
  conclude-IsComplete kinds l (ok _, p) h =
      let (os, e, same, all) =
        ordered_outcomes_lem kinds p
          (λ k known. elim (h k known) [ inl impossible ↦ absurd (cc) | inr o ↦ o ]) in
      rw e (results-branches os ∙ same, results-All os all)

-- For one or two different branches, over an event loop that keeps the promise of `asyncio.wait` and
-- whose clock runs forward, `execute` always comes to an end: to one result for each branch, in the
-- order of the works, each terminal and valid, or to CancelledError, if the request was cancelled.
pub execute-IsComplete :
    {Hit Trace : Type 0} (kinds : List BranchKind) (circuits : BranchKind → CircuitBreaker)
    (d : Deadline) (l : EventLoop Hit Trace)
    → IsFair l
    → 1 ≤ length kinds
    → length kinds ≤ max_backend_tasks_per_request
    → has_duplicate kinds ≡ false
    → IsComplete kinds l (execute kinds circuits d l).0
unfolding execute
execute-IsComplete kinds circuits d l fair low high unique =
    rw (le→leb _ _ low, le→leb _ _ high, unique)
      (conclude-IsComplete kinds l _
        (rounds-Ends kinds d l fair (length kinds) kinds _ (omega arith) (λ k known. inl known)))

-- No branch, more than two, or one branch twice: `execute` raises ValueError and runs nothing.
pub execute_refuses :
    {Hit Trace : Type 0} (kinds : List BranchKind) (circuits : BranchKind → CircuitBreaker)
    (d : Deadline) (l : EventLoop Hit Trace)
    → (length kinds ≡ 0)
      ⊎ ((max_backend_tasks_per_request < length kinds) ⊎ (has_duplicate kinds ≡ true))
    → ((execute kinds circuits d l).0 ≡ raise value_error)
      × ((execute kinds circuits d l).1.circuits ≡ circuits)
unfolding execute
execute_refuses kinds circuits d l h = ground arith
