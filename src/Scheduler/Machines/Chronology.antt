-- ===== src/Scheduler/Machines/Chronology.antt =====
-- The clock in a request's events, and the life of a branch's machine.
use oss.Prelude.{
  ℕ, ◌≤◌, ◌≡◌, inl, inr, refl, List, [], ◌∷◌, ◌++◌, arith, All, All-append, All-map, sym, subst,
}
use oss.Core.Errors.{Result, ok, raise}
use oss.Core.Kinds.{BranchStatus, RequestState}
use oss.Core.Deadline.{Deadline}
use oss.Scheduler.Machines.{RequestStateMachine, RequestStateEvent, event, init, branch_transition}
use oss.Scheduler.Machines.Traces.{Call, perform, perform_all, perform-cases, moved, reading}

-- `e` was recorded no later than `f`: less elapsed, and no less budget of either kind.
pub record NoLater (e f : RequestStateEvent) : Type 0 where
  pub elapsed : e.elapsed_ns ≤ f.elapsed_ns
  pub remaining : f.remaining_budget_ns ≤ e.remaining_budget_ns
  pub branch_remaining : f.branch_remaining_budget_ns ≤ e.branch_remaining_budget_ns

-- Every event is no later than all that follow it.
abbrev pub IsChronological : List RequestStateEvent → Type 0
IsChronological [] = Unit
IsChronological (e ∷ es) = All (NoLater e) es × IsChronological es

-- The readings do not run backwards, from `now` on.
abbrev pub RunsForward : ℕ → List Call → Type 0
RunsForward now [] = Unit
RunsForward now (c ∷ cs) = (now ≤ reading c) × RunsForward (reading c) cs

IsChronological-snoc :
    (es : List RequestStateEvent) (f : RequestStateEvent)
    → IsChronological es
    → All (λ e. NoLater e f) es
    → IsChronological (es ++ f ∷ [])
IsChronological-snoc [] f c h = (tt, tt)
IsChronological-snoc (e ∷ es) f c h =
    (All-append (NoLater e) es (f ∷ []) c.0 (h.0, tt), IsChronological-snoc es f c.1 h.1)

-- All events so far stem from readings up to `now`.
record UpTo (now : ℕ) (m : RequestStateMachine) : Type 0 where
  chronological : IsChronological m.events
  passed : All (λ e. NoLater e (event m.deadline now RequestState.received)) m.events

event_later :
    (d : Deadline) (e : RequestStateEvent) (s : RequestState) {now later : ℕ}
    → now ≤ later
    → NoLater e (event d now RequestState.received)
    → NoLater e (event d later s)
unfolding event
event_later d e s h n = ground arith

NoLater-refl : (e : RequestStateEvent) → NoLater e e
NoLater-refl e = ground arith

NoLater-received :
    (d : Deadline) (now : ℕ) (s : RequestState)
    → NoLater (event d now s) (event d now RequestState.received)
unfolding event
NoLater-received d now s = ground arith

moved-UpTo :
    (m : RequestStateMachine) (target : RequestState) {now later : ℕ}
    → now ≤ later
    → UpTo now m
    → UpTo later (moved m later target)
unfolding event
moved-UpTo m target {later = later} h u =
    let f = event m.deadline later target in
    record {
      chronological =
          IsChronological-snoc m.events f u.chronological (
            All-map _ (λ e. NoLater e f) m.events (λ e. event_later m.deadline e target h)
              u.passed);
      passed =
          All-append _ m.events (f ∷ [])
            (All-map _ _ m.events (λ e. event_later m.deadline e RequestState.received h) u.passed)
            (NoLater-received m.deadline later target, tt);
    }

stay-UpTo : (m : RequestStateMachine) {now later : ℕ} → now ≤ later → UpTo now m → UpTo later m
stay-UpTo m h u = record {
  chronological = u.chronological;
  passed = All-map _ _ m.events (λ e. event_later m.deadline e RequestState.received h) u.passed;
}

perform-UpTo :
    (m : RequestStateMachine) (c : Call) {now : ℕ}
    → now ≤ reading c
    → UpTo now m
    → UpTo (reading c) (perform m c)
perform-UpTo m c h u = elim (perform-cases m c) [
  | inl e ↦ subst (UpTo (reading c)) (sym e) (stay-UpTo m h u)
  | inr (target, _, e) ↦ subst (UpTo (reading c)) (sym e) (moved-UpTo m target h u)
]

perform_all-IsChronological :
    (m : RequestStateMachine) (now : ℕ) (cs : List Call)
    → RunsForward now cs
    → UpTo now m
    → IsChronological (perform_all m cs).events
unfolding perform_all
perform_all-IsChronological m now [] h u = u.chronological
perform_all-IsChronological m now (c ∷ cs) h u =
    perform_all-IsChronological (perform m c) (reading c) cs h.1 (perform-UpTo m c h.0 u)

-- Along a clock that does not run backwards, each event of a request has no less elapsed time and
-- no more budget left, of both kinds, than every event before it.
pub request_events-IsChronological :
    (d : Deadline) (now : ℕ) (cs : List Call)
    → RunsForward now cs
    → IsChronological (perform_all (init d now) cs).events
unfolding init event
request_events-IsChronological d now cs h =
    perform_all-IsChronological (init d now) now cs h
      (record { chronological = (tt, tt); passed = (NoLater-refl _, tt) })

-- The state after trying one transition of a branch's machine after another.
abbrev pub attempt : BranchStatus → Result BranchStatus → BranchStatus
attempt s (ok t) = t
attempt s (raise e) = s

unfoldable pub attempt_all : BranchStatus → List BranchStatus → BranchStatus
attempt_all s [] = s
attempt_all s (t ∷ ts) = attempt_all (attempt s (branch_transition s t)) ts

abbrev pub IsTerminalStatus : BranchStatus → Type 0
IsTerminalStatus BranchStatus.not_scheduled = ⊥
IsTerminalStatus BranchStatus.running = ⊥
IsTerminalStatus _ = Unit

attempt_terminal : (s t : BranchStatus) → IsTerminalStatus s → attempt s (branch_transition s t) ≡ s
unfolding branch_transition
attempt_terminal s t h = ground arith

-- The terminal status of a branch is never rewritten, whatever transitions are tried.
pub terminal_branch_final :
    (s : BranchStatus) (ts : List BranchStatus) → IsTerminalStatus s → attempt_all s ts ≡ s
unfolding attempt_all
terminal_branch_final s [] h = refl
terminal_branch_final s (t ∷ ts) h = rw (attempt_terminal s t h) (terminal_branch_final s ts h)
