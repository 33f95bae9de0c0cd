-- ===== src/Core/Deadline.antt =====
-- src/ragplan/core/deadline.py, with the limits of src/ragplan/core/config.py. Every quantity is a
-- whole number of nanoseconds. A clock is the sequence of its readings: an operation that calls
-- `now_ns()` takes the reading as an argument. The `_ms` and `_seconds` properties of the source
-- divide these numbers by a constant, so the model compares the nanoseconds themselves.
-- `finalization_reserve_ms` goes through a float; for each whole budget up to 5000 ms its decimal
-- text times 1_000_000 is `budget * 50_000` before the clamp, which is what is written here.
pub mod Bounds
use oss.Prelude.{
  ℕ, ◌+◌, ◌-◌, ◌*◌, min, max, Bool, true, false, not, ◌&&◌, ltb, leb, ◌==◌, if◌then◌else◌,
}
use oss.Core.Errors.{Result, ok, raise, value_error, raise_if, ◌>>=◌, ◌>>◌}

abbrev pub min_latency_budget_ms : ℕ
min_latency_budget_ms = 25

abbrev pub max_latency_budget_ms : ℕ
max_latency_budget_ms = 5000

abbrev pub nanoseconds_per_millisecond : ℕ
nanoseconds_per_millisecond = 1_000_000

-- _validate_budget: the type test is met by a natural number
unfoldable pub validate_budget : ℕ → Result (Unit {0})
validate_budget budget =
    raise_if (not (leb min_latency_budget_ms budget && leb budget max_latency_budget_ms))
      value_error

-- int(Decimal(str(finalization_reserve_ms(budget))) * NANOSECONDS_PER_MILLISECOND)
unfoldable pub finalization_reserve_ns : ℕ → ℕ
finalization_reserve_ns budget = min 20_000_000 (max 5_000_000 (budget * 50_000))

pub record Deadline : Type 0 where
  pub start_ns : ℕ
  pub absolute_ns : ℕ
  pub branch_cutoff_ns : ℕ
  pub budget_ms : ℕ
  pub reserve_ns : ℕ

-- Deadline.__post_init__; a natural start is never negative
unfoldable pub post_init : Deadline → Result Deadline
unfolding validate_budget finalization_reserve_ns
post_init d = do
  validate_budget d.budget_ms
  raise_if (not (d.reserve_ns == finalization_reserve_ns d.budget_ms)) value_error
  raise_if (not (d.absolute_ns == d.start_ns + d.budget_ms * nanoseconds_per_millisecond))
      value_error
  raise_if (not (d.branch_cutoff_ns == d.absolute_ns - d.reserve_ns)) value_error
  ok d

-- Deadline.start, with the clock's reading
unfoldable pub start : ℕ → ℕ → Result Deadline
unfolding validate_budget finalization_reserve_ns post_init
start budget now = do
  validate_budget budget
  let reserve = finalization_reserve_ns budget
  let absolute = now + budget * nanoseconds_per_millisecond
  post_init (record {
    start_ns = now;
    absolute_ns = absolute;
    branch_cutoff_ns = absolute - reserve;
    budget_ms = budget;
    reserve_ns = reserve;
  })

pub record DeadlineSnapshot : Type 0 where
  pub now_ns : ℕ
  pub elapsed_ns : ℕ
  pub remaining_ns : ℕ
  pub branch_remaining_ns : ℕ
  pub expired : Bool
  pub budget_violated : Bool

-- Deadline.snapshot: `max(0, a - b)` of the source is the subtraction of ℕ
unfoldable pub snapshot : Deadline → ℕ → DeadlineSnapshot
snapshot d now = record {
  now_ns = now;
  elapsed_ns = now - d.start_ns;
  remaining_ns = d.absolute_ns - now;
  branch_remaining_ns = d.branch_cutoff_ns - now;
  expired = leb d.absolute_ns now;
  budget_violated = ltb d.absolute_ns now;
}

-- Deadline.remaining_seconds, in nanoseconds
unfoldable pub remaining : Deadline → Bool → ℕ → ℕ
unfolding snapshot
remaining d reserve_finalization now =
    let s = snapshot d now in if reserve_finalization then s.branch_remaining_ns else s.remaining_ns
