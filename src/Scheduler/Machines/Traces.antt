-- ===== src/Scheduler/Machines/Traces.antt =====
-- What holds of a request's machine after any calls, and of a branch's machine.
use oss.Prelude.{
  ℕ, ◌+◌, ◌≤◌, ◌<◌, ◌≡◌, ◌⊎◌, inl, inr, refl, true, List, [], ◌∷◌, ◌++◌, arith, length,
  if◌then◌else◌, sym, subst, Bool-cases, ltb, ◌&&◌,
}
use oss.Core.Errors.{Result, ok, raise}
use oss.Core.Kinds.{RequestState}
use oss.Core.Deadline.{Deadline}
use oss.Scheduler.Machines.{
  RequestStateMachine, RequestStateEvent, event, request_transitions, init, transition,
  fail_if_possible,
}

-- A call on a request's machine, with the clock's reading.
pub data Call : Type 0 where
  to_state : ℕ → RequestState → Call
  to_failed : ℕ → Call

-- The clock's reading in a call.
abbrev pub reading : Call → ℕ
reading (to_state now _) = now
reading (to_failed now) = now

abbrev pub after : RequestStateMachine → Result RequestStateMachine → RequestStateMachine
after m (ok n) = n
after m (raise e) = m

-- The machine after a call; a call that raises leaves it as it was.
unfoldable pub perform : RequestStateMachine → Call → RequestStateMachine
unfolding transition fail_if_possible
perform m (to_state now target) = after m (transition m now target)
perform m (to_failed now) = after m (fail_if_possible m now)

unfoldable pub perform_all : RequestStateMachine → List Call → RequestStateMachine
unfolding perform
perform_all m [] = m
perform_all m (c ∷ cs) = perform_all (perform m c) cs

-- How far a request has come.
abbrev pub rank : RequestState → ℕ
rank RequestState.received = 0
rank RequestState.analyzing = 1
rank RequestState.planning = 2
rank RequestState.executing = 3
rank RequestState.fusing = 4
rank RequestState.reranking = 5
rank _ = 6

-- The states of the events, one after another along the transition table, from `s` on.
pub data Follows : RequestState → List RequestStateEvent → RequestState → Type 0 where
  last : {s : RequestState} → Follows s [] s
  step :
      {s t : RequestState} {es : List RequestStateEvent} (e : RequestStateEvent)
      → request_transitions s e.state ≡ true
      → Follows e.state es t
      → Follows s (e ∷ es) t

Follows-snoc :
    {s t : RequestState} {es : List RequestStateEvent} (e : RequestStateEvent)
    → Follows s es t
    → request_transitions t e.state ≡ true
    → Follows s (es ++ e ∷ []) e.state
Follows-snoc e last h = step e h last
Follows-snoc e (step f g r) h = step f g (Follows-snoc e r h)

rank-step : (s t : RequestState) → request_transitions s t ≡ true → rank s < rank t
unfolding request_transitions
rank-step s t h = ground arith

Follows-length :
    {s t : RequestState} {es : List RequestStateEvent}
    → Follows s es t
    → rank s + length es ≤ rank t
Follows-length last = omega arith
Follows-length (step {s = s} e g r) = omega (arith, rank-step s e.state g, Follows-length r)

-- The events begin with RECEIVED, each next state is allowed by the table after the one before it,
-- and the last one is the machine's state.
pub record IsTrace (m : RequestStateMachine) : Type 0 where
  pub first : RequestStateEvent
  pub rest : List RequestStateEvent
  pub events : m.events ≡ first ∷ rest
  pub starts : first.state ≡ RequestState.received
  pub follows : Follows RequestState.received rest m.state

init-IsTrace : (d : Deadline) (now : ℕ) → IsTrace (init d now)
unfolding init event
init-IsTrace d now = record {
  first = event d now RequestState.received;
  rest = [];
  events = refl;
  starts = refl;
  follows = last;
}

-- The machine after an allowed transition.
abbrev pub moved : RequestStateMachine → ℕ → RequestState → RequestStateMachine
moved m now target = record m {
  state = target;
  events = m.events ++ event m.deadline now target ∷ [];
}

moved-IsTrace :
    (m : RequestStateMachine) (now : ℕ) (target : RequestState)
    → request_transitions m.state target ≡ true
    → IsTrace m
    → IsTrace (moved m now target)
unfolding event
moved-IsTrace m now target h t = record {
  first = t.first;
  rest = t.rest ++ event m.deadline now target ∷ [];
  events = rw t.events;
  starts = t.starts;
  follows = Follows-snoc (event m.deadline now target) t.follows h;
}

-- A call moves the machine along the table, or leaves it as it was.
pub perform-cases :
    (m : RequestStateMachine) (c : Call)
    → (perform m c ≡ m)
      ⊎ ((target : RequestState) × (request_transitions m.state target ≡ true)
          × (perform m c ≡ moved m (reading c) target))
unfolding perform
perform-cases m (to_state now target) = elim (Bool-cases (request_transitions m.state target)) [
  | inl h ↦ inr (target, h, rw h)
  | inr h ↦ inl (rw h)
]
perform-cases m (to_failed now) =
    elim (Bool-cases (request_transitions m.state RequestState.failed)) [
      | inl h ↦ inr (RequestState.failed, h, ground arith)
      | inr h ↦ inl (rw h)
    ]

perform-IsTrace : (m : RequestStateMachine) (c : Call) → IsTrace m → IsTrace (perform m c)
perform-IsTrace m c t = elim (perform-cases m c) [
  | inl e ↦ subst IsTrace (sym e) t
  | inr (target, h, e) ↦ subst IsTrace (sym e) (moved-IsTrace m (reading c) target h t)
]

perform_all-IsTrace :
    (m : RequestStateMachine) (cs : List Call) → IsTrace m → IsTrace (perform_all m cs)
unfolding perform_all
perform_all-IsTrace m [] t = t
perform_all-IsTrace m (c ∷ cs) t = perform_all-IsTrace (perform m c) cs (perform-IsTrace m c t)

-- Whatever calls are made on a new request's machine, refused ones included, its events begin with
-- RECEIVED, follow the transition table one by one, end in its state, and are at most seven.
pub request_events_follow_table :
    (d : Deadline) (now : ℕ) (cs : List Call)
    → let m = perform_all (init d now) cs in IsTrace m × (length m.events ≤ 7)
request_events_follow_table d now cs =
    let t = perform_all-IsTrace (init d now) cs (init-IsTrace d now) in (t, bound _ t)
  where
    top : (s : RequestState) → rank s ≤ 6
    top s = ground arith

    bound : (m : RequestStateMachine) → IsTrace m → length m.events ≤ 7
    bound m t = rw t.events (omega (arith, Follows-length t.follows, top m.state))

-- COMPLETE, PARTIAL and FAILED.
abbrev pub IsTerminal : RequestState → Type 0
IsTerminal s = rank s ≡ 6

perform_terminal : (m : RequestStateMachine) (c : Call) → IsTerminal m.state → perform m c ≡ m
perform_terminal m c h = elim (perform-cases m c) [
  | inl e ↦ e
  | inr (target, g, e) ↦ absurd (omega (arith, rank-step m.state target g, h, top target))
]
  where
    top : (s : RequestState) → rank s ≤ 6
    top s = ground arith

-- A terminal request is final: no call, of either method, changes its state or its events.
pub terminal_request_final :
    (m : RequestStateMachine) (cs : List Call) → IsTerminal m.state → perform_all m cs ≡ m
unfolding perform_all
terminal_request_final m [] h = refl
terminal_request_final m (c ∷ cs) h = rw (perform_terminal m c h) (terminal_request_final m cs h)

-- `fail_if_possible` never raises. From ANALYZING to RERANKING the request ends in FAILED with one
-- more event; a request that is only RECEIVED, or already terminal, stays as it is.
pub fail_if_possible_total :
    (m : RequestStateMachine) (now : ℕ)
    → fail_if_possible m now ≡ (
        if (ltb 0 (rank m.state) && ltb (rank m.state) 6)
        then ok (moved m now RequestState.failed)
        else ok m)
unfolding fail_if_possible
fail_if_possible_total m now = ground arith
