-- ===== src/Core/Deadline/Bounds.antt =====
-- The reserve, the order of a deadline's three instants, and its observations over time.
use oss.Prelude.{ℕ, ◌+◌, ◌-◌, ◌*◌, ◌≤◌, ◌<◌, ◌≡◌, ◌↔◌, ◌⊎◌, refl, true, false, arith, min, max}
use oss.Core.Errors.{ok, raise, value_error}
use oss.Core.Deadline.{
  Deadline, start, snapshot, remaining, post_init, min_latency_budget_ms, max_latency_budget_ms,
  nanoseconds_per_millisecond,
}

-- What `__post_init__` enforces, and the order of the instants that follows from it.
pub record IsValid (d : Deadline) : Type 0 where
  pub budget_low : min_latency_budget_ms ≤ d.budget_ms
  pub budget_high : d.budget_ms ≤ max_latency_budget_ms
  pub reserve_low : 5_000_000 ≤ d.reserve_ns
  pub reserve_high : d.reserve_ns ≤ 20_000_000
  pub absolute : d.absolute_ns ≡ d.start_ns + d.budget_ms * nanoseconds_per_millisecond
  pub cutoff : d.branch_cutoff_ns + d.reserve_ns ≡ d.absolute_ns
  pub cutoff_after_start : d.start_ns < d.branch_cutoff_ns

pub post_init-IsValid : (d e : Deadline) → post_init d ≡ ok e → IsValid e
unfolding post_init
post_init-IsValid d e h = ground arith

-- The deadline that `start` builds for a budget and a reading of the clock.
abbrev started : ℕ → ℕ → Deadline
started budget now = record {
  start_ns = now;
  absolute_ns = now + budget * nanoseconds_per_millisecond;
  branch_cutoff_ns =
      now + budget * nanoseconds_per_millisecond - min 20_000_000 (max 5_000_000 (budget * 50_000));
  budget_ms = budget;
  reserve_ns = min 20_000_000 (max 5_000_000 (budget * 50_000));
}

-- For a budget between 25 and 5000 ms `start` succeeds, so its own checks in `__post_init__` never
-- fail. The deadline starts at the clock's reading, has the budget asked for, and is valid.
pub start-IsValid :
    (budget now : ℕ)
    → min_latency_budget_ms ≤ budget
    → budget ≤ max_latency_budget_ms
    → (d : Deadline) × (start budget now ≡ ok d)
      × IsValid d
      × (d.start_ns ≡ now)
      × (d.budget_ms ≡ budget)
unfolding start
start-IsValid budget now low high = (started budget now, ground arith, ground arith, refl, refl)

-- A budget outside of 25 to 5000 ms raises ValueError.
pub start_refuses :
    (budget now : ℕ)
    → (budget < min_latency_budget_ms) ⊎ (max_latency_budget_ms < budget)
    → start budget now ≡ raise value_error
unfolding start
start_refuses budget now h = ground arith

-- One observation of a valid deadline is consistent: expired exactly when nothing remains, violated
-- only when expired, and branches have what remains less the reserve, so they are cut off first.
-- Between the start and the absolute instant, elapsed and remaining time add up to the budget.
pub snapshot_consistent :
    (d : Deadline) (now : ℕ)
    → IsValid d
    → d.start_ns ≤ now
    → now ≤ d.absolute_ns
    → let s = snapshot d now in
      ((s.expired ≡ true) ↔ (s.remaining_ns ≡ 0))
      × (s.budget_violated ≡ false)
      × (s.branch_remaining_ns ≡ s.remaining_ns - d.reserve_ns)
      × (s.elapsed_ns + s.remaining_ns ≡ d.budget_ms * nanoseconds_per_millisecond)
unfolding snapshot
snapshot_consistent d now v low high = ground arith

-- Along a clock that does not run backwards, elapsed time grows, the remaining times shrink, and
-- neither an expiry nor a violation is ever taken back.
pub snapshot_mono :
    (d : Deadline) {earlier later : ℕ}
    → earlier ≤ later
    → let s = snapshot d earlier in
      let t = snapshot d later in
      (s.elapsed_ns ≤ t.elapsed_ns)
      × (t.remaining_ns ≤ s.remaining_ns)
      × (t.branch_remaining_ns ≤ s.branch_remaining_ns)
      × ((s.expired ≡ false) ⊎ (t.expired ≡ true))
      × ((s.budget_violated ≡ false) ⊎ (t.budget_violated ≡ true))
unfolding snapshot
snapshot_mono d h = ground arith

-- No time is left for branches exactly from the branch cutoff on.
pub remaining-zero :
    (d : Deadline) (now : ℕ) → (remaining d true now ≡ 0) ↔ (d.branch_cutoff_ns ≤ now)
unfolding remaining
remaining-zero d now = ground arith
