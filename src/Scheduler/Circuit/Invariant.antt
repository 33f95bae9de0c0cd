-- ===== src/Scheduler/Circuit/Invariant.antt =====
-- The breaker under every interleaving of the requests that share it: permits are granted and
-- settled in any order, and time passes between any two steps.
use oss.Prelude.{
  ℕ, suc, ◌+◌, ◌-◌, ◌≤◌, ◌<◌, ◌≡◌, ◌⊎◌, true, false, List, [], ◌∷◌, arith, if◌then◌else◌, leb,
}
use oss.Core.Errors.{Exception, Result, ok, raise}
use oss.Core.Kinds.{closed, half_open}
use oss.Scheduler.Circuit.{
  CircuitBreaker, CircuitPermit, new, acquire, record_success, record_failure, record_ignored,
  refresh,
}

-- How a permit is settled.
pub data Verdict : Type 0 where
  success failure ignored : Verdict

pub data Action : Type 0 where
  tick : ℕ → Action
  ask : Action
  observe : Action
  settle_probe settle_normal : Verdict → Action

-- The breaker, the clock, and the permits that are granted and not yet settled.
pub record World : Type 0 where
  pub breaker : CircuitBreaker
  pub now : ℕ
  pub probes : ℕ
  pub normals : ℕ

abbrev pub probe_permit : CircuitPermit
probe_permit = record { state_before = half_open; half_open_probe = true }

abbrev pub normal_permit : CircuitPermit
normal_permit = record { state_before = closed; half_open_probe = false }

unfoldable pub settle : CircuitBreaker → CircuitPermit → Verdict → ℕ → CircuitBreaker
unfolding record_success record_failure record_ignored
settle c p success now = (record_success c p).1
settle c p failure now = (record_failure c p now).1
settle c p ignored now = (record_ignored c p now).1

abbrev grant : World → Result CircuitPermit × CircuitBreaker → World
grant w (raise e, c) = record w { breaker = c }
grant w (ok p, c) =
    if p.half_open_probe
    then record w { breaker = c; probes = suc w.probes }
    else record w { breaker = c; normals = suc w.normals }

-- A settlement takes place only if such a permit is out.
unfoldable pub act : World → Action → World
unfolding acquire settle refresh
act w (tick n) = record w { now = w.now + n }
act w ask = grant w (acquire w.breaker w.now)
act w observe = record w { breaker = refresh w.breaker w.now }
act w (settle_probe v) =
    if leb 1 w.probes
    then record w { breaker = settle w.breaker probe_permit v w.now; probes = w.probes - 1 }
    else w
act w (settle_normal v) =
    if leb 1 w.normals
    then record w { breaker = settle w.breaker normal_permit v w.now; normals = w.normals - 1 }
    else w

unfoldable pub act_all : World → List Action → World
act_all w [] = w
act_all w (a ∷ rest) = act_all (act w a) rest

-- The invariant between any two steps.
pub record Inv (w : World) : Type 0 where
  pub positive : 1 ≤ w.breaker.threshold
  pub probe_counted : w.probes ≡ (if w.breaker.probe_in_flight then 1 else 0)
  pub probe_half_open : w.breaker.probe_in_flight ≡ true → w.breaker.state ≡ half_open
  pub below_threshold : w.breaker.state ≡ closed → w.breaker.failures < w.breaker.threshold
  pub window : w.breaker.open_until_ns ≤ w.now + w.breaker.open_ns

pub act-Inv : (w : World) (a : Action) → Inv w → Inv (act w a)
unfolding act
act-Inv w a h = ground arith

act_all-Inv : (w : World) (actions : List Action) → Inv w → Inv (act_all w actions)
unfolding act_all
act_all-Inv w [] h = h
act_all-Inv w (a ∷ rest) h = act_all-Inv (act w a) rest (act-Inv w a h)

-- A breaker on its own: no permit is out.
abbrev pub alone : CircuitBreaker → ℕ → World
alone c now = record { breaker = c; now = now; probes = 0; normals = 0 }

new-Inv :
    (threshold open_ns now : ℕ) {c : CircuitBreaker}
    → new threshold open_ns ≡ ok c
    → Inv (alone c now)
unfolding new
new-Inv threshold open_ns now h = ground arith

-- Under every interleaving of grants, settlements, observations and waiting, a new breaker keeps its
-- invariant: at most one probe is out, exactly while the breaker is marked so and half open, and a
-- closed breaker has counted fewer failures than its threshold. While a probe is out, `acquire`
-- raises CircuitOpenError.
pub circuit_interleavings :
    (threshold open_ns now : ℕ) {c : CircuitBreaker} (actions : List Action)
    → new threshold open_ns ≡ ok c
    → let w = act_all (alone c now) actions in
      Inv w
      × (w.probes ≤ 1)
      × ((w.probes ≡ 0) ⊎ ((acquire w.breaker w.now).0 ≡ raise Exception.circuit_open))
unfolding acquire
circuit_interleavings threshold open_ns now actions h =
    let i = act_all-Inv (alone _ now) actions (new-Inv threshold open_ns now h) in
    (i, ground (arith, i), ground (arith, i))
