-- ===== src/Scheduler/Circuit.antt =====
-- `CircuitBreaker` of src/ragplan/scheduler/states.py. Each method holds the breaker's lock from its
-- first to its last line and awaits nothing inside, so it is one step on the breaker's fields; it
-- takes the clock's reading, and returns its result with the new breaker. `open_seconds` is a whole
-- number of nanoseconds.
pub mod Invariant
pub mod Window
use oss.Prelude.{ℕ, suc, ◌+◌, ◌-◌, ◌*◌, Bool, true, false, ◌||◌, ltb, leb, if◌then◌else◌}
use oss.Core.Errors.{Result, ok, raise, value_error, Exception, raise_if, ◌>>=◌, ◌>>◌}
use oss.Core.Kinds.{CircuitState, closed, open_circuit, half_open}

abbrev pub circuit_failure_threshold : ℕ
circuit_failure_threshold = 5

abbrev pub circuit_open_ns : ℕ
circuit_open_ns = 30_000_000_000

pub record CircuitPermit : Type 0 where
  pub state_before : CircuitState
  pub half_open_probe : Bool

pub record CircuitSnapshot : Type 0 where
  pub state : CircuitState
  pub consecutive_failures : ℕ
  pub probe_in_flight : Bool
  pub open_remaining_ns : ℕ

pub record CircuitBreaker : Type 0 where
  pub threshold : ℕ
  pub open_ns : ℕ
  pub state : CircuitState
  pub failures : ℕ
  pub open_until_ns : ℕ
  pub probe_in_flight : Bool

-- CircuitBreaker.__init__
unfoldable pub new : ℕ → ℕ → Result CircuitBreaker
new threshold open_ns = do
  raise_if (ltb threshold 1 || ltb open_ns 1) value_error
  ok (record {
    threshold = threshold;
    open_ns = open_ns;
    state = closed;
    failures = 0;
    open_until_ns = 0;
    probe_in_flight = false;
  })

abbrev pub is_open : CircuitState → Bool
is_open open_circuit = true
is_open _ = false

abbrev pub is_closed : CircuitState → Bool
is_closed closed = true
is_closed _ = false

-- CircuitBreaker._refresh: `and` reads the clock only while the circuit is open
unfoldable pub refresh : CircuitBreaker → ℕ → CircuitBreaker
refresh c now =
    if is_open c.state
    then (if leb c.open_until_ns now then record c { state = half_open } else c)
    else c

-- CircuitBreaker._open
unfoldable pub trip : CircuitBreaker → ℕ → CircuitBreaker
trip c now = record c { state = open_circuit; open_until_ns = now + c.open_ns }

-- The tests of `acquire`, after `_refresh`.
admit : CircuitState → CircuitBreaker → Result CircuitPermit × CircuitBreaker
admit open_circuit c = (raise Exception.circuit_open, c)
admit half_open c = if c.probe_in_flight then (raise Exception.circuit_open, c) else (
  ok (record { state_before = half_open; half_open_probe = true }),
  record c { probe_in_flight = true },
)
admit closed c = (ok (record { state_before = closed; half_open_probe = false }), c)

-- CircuitBreaker.acquire
unfoldable pub acquire : CircuitBreaker → ℕ → Result CircuitPermit × CircuitBreaker
unfolding refresh admit
acquire c now = let r = refresh c now in admit r.state r

-- CircuitBreaker.record_success
unfoldable pub record_success : CircuitBreaker → CircuitPermit → CircuitState × CircuitBreaker
record_success c permit =
    if permit.half_open_probe
    then (
      closed,
      record c { probe_in_flight = false; state = closed; failures = 0; open_until_ns = 0 },
    )
    else if is_closed c.state
    then (c.state, record c { failures = 0; open_until_ns = 0 })
    else (c.state, c)

-- CircuitBreaker.record_failure
unfoldable pub record_failure : CircuitBreaker → CircuitPermit → ℕ → CircuitState × CircuitBreaker
unfolding trip
record_failure c permit now =
    if permit.half_open_probe
    then (open_circuit, trip (record c { probe_in_flight = false }) now)
    else if is_closed c.state
    then (let counted = record c { failures = suc c.failures } in
        let after = if leb c.threshold (suc c.failures) then trip counted now else counted in
        (after.state, after))
    else (c.state, c)

-- CircuitBreaker.record_ignored
unfoldable pub record_ignored : CircuitBreaker → CircuitPermit → ℕ → CircuitState × CircuitBreaker
record_ignored c permit now =
    if permit.half_open_probe
    then (
      open_circuit,
      record c { probe_in_flight = false; state = open_circuit; open_until_ns = now },
    )
    else (c.state, c)

-- CircuitBreaker.snapshot, with the readings of `_refresh` and of the line after it
unfoldable pub snapshot : CircuitBreaker → ℕ → ℕ → CircuitSnapshot × CircuitBreaker
unfolding refresh
snapshot c first second =
    let r = refresh c first in
    (
      record {
        state = r.state;
        consecutive_failures = r.failures;
        probe_in_flight = r.probe_in_flight;
        open_remaining_ns = r.open_until_ns - second;
      },
      r,
    )
