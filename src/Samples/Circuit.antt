-- ===== src/Samples/Circuit.antt =====
-- Runs of the circuit breaker and of the admission controller.
use oss.Prelude.{◌+◌, ◌≤◌, ◌≡◌, ◌⊎◌, refl, false, List, [], ◌∷◌, arith}
use oss.Core.Errors.{Exception, ok, raise}
use oss.Core.Kinds.{closed, open_circuit, half_open}
use oss.Scheduler.Circuit.{CircuitBreaker, new, acquire}
use oss.Scheduler.Circuit.Invariant.{
  Action, tick, ask, settle_normal, success, failure, ignored, World, alone, act, act_all, Inv,
  circuit_interleavings, Verdict, settle, probe_permit,
}
use oss.Scheduler.Circuit.Window.{fail_all, opens_at_threshold, open_window_sealed, probe_verdicts}
use oss.Scheduler.Admission.{
  Hall, Move, arrive, finish, move, move_all, IsCounted, move_all-IsCounted,
  none_refused_below_limit,
}

-- A threshold of two failures, and a window of 100 ns.
abbrev pub breaker : CircuitBreaker
breaker = record {
  threshold = 2;
  open_ns = 100;
  state = closed;
  failures = 0;
  open_until_ns = 0;
  probe_in_flight = false;
}

breaker_new : new 2 100 ≡ ok breaker
unfolding new
breaker_new = refl

-- Three permits, two failures, a stale success in the open window, and the probe after it.
abbrev actions : List Action
actions =
    ask
    ∷ ask
    ∷ ask
    ∷ settle_normal failure
    ∷ settle_normal failure
    ∷ tick 50
    ∷ settle_normal success
    ∷ tick 50
    ∷ ask
    ∷ ask
    ∷ []

abbrev probing : World
probing = act_all (alone breaker 7) actions

probing_runs : (probing.probes ≡ 1) × (probing.normals ≡ 0) × (probing.breaker.state ≡ half_open)
unfolding act_all act
probing_runs = (refl, refl, refl)

circuit_interleavings_example :
    Inv probing
    × (probing.probes ≤ 1)
    × ((probing.probes ≡ 0)
        ⊎ ((acquire probing.breaker probing.now).0 ≡ raise Exception.circuit_open))
unfolding new
circuit_interleavings_example = circuit_interleavings 2 100 7 {c = breaker} actions refl

opens_at_threshold_example : (fail_all breaker (3 ∷ 9 ∷ [])).state ≡ open_circuit
opens_at_threshold_example = opens_at_threshold breaker (3 ∷ 9 ∷ []) refl (omega arith)

abbrev tripped : CircuitBreaker
tripped = record breaker { state = open_circuit; failures = 2; open_until_ns = 109 }

abbrev waiting : World
waiting = record { breaker = tripped; now = 9; probes = 0; normals = 3 }

waiting-Inv : Inv waiting
waiting-Inv = ground arith

abbrev stale : List Action
stale = settle_normal failure ∷ tick 40 ∷ settle_normal success ∷ ask ∷ tick 59 ∷ []

open_window_sealed_example :
    let v = act_all waiting stale in
    (v.breaker ≡ tripped)
    × (v.normals ≤ 3)
    × (v.probes ≡ 0)
    × ((acquire v.breaker v.now).0 ≡ raise Exception.circuit_open)
open_window_sealed_example = open_window_sealed waiting stale waiting-Inv refl (omega arith)

probe_verdicts_example :
    let d = (acquire tripped 109).1 in
    ((acquire tripped 109).0 ≡ ok probe_permit)
    × ((settle d probe_permit success 120).state ≡ closed)
    × ((settle d probe_permit success 120).failures ≡ 0)
    × ((settle d probe_permit failure 120).state ≡ open_circuit)
    × ((settle d probe_permit failure 120).open_until_ns ≡ 120 + 100)
    × ((acquire (settle d probe_permit ignored 120) 120).0 ≡ ok probe_permit)
    × ((v : Verdict) → (settle d probe_permit v 120).probe_in_flight ≡ false)
probe_verdicts_example = probe_verdicts tripped 109 120 refl refl (omega arith) (omega arith)

abbrev hall : Hall
hall = record { controller = record { limit = 2; in_flight = 0 }; inside = 0; rejected = 0 }

hall-IsCounted : IsCounted hall
hall-IsCounted = ground arith

abbrev moves : List Move
moves = arrive ∷ arrive ∷ arrive ∷ finish ∷ arrive ∷ []

moves_run : (move_all hall moves).rejected ≡ 1
unfolding move_all move
moves_run = refl

move_all-IsCounted_example :
    IsCounted (move_all hall moves) × ((move_all hall moves).controller.limit ≡ 2)
move_all-IsCounted_example = move_all-IsCounted hall moves hall-IsCounted

none_refused_below_limit_example : (move_all hall (arrive ∷ finish ∷ arrive ∷ [])).rejected ≡ 0
none_refused_below_limit_example =
    none_refused_below_limit hall (arrive ∷ finish ∷ arrive ∷ []) hall-IsCounted (omega arith)
