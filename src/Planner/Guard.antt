-- ===== src/Planner/Guard.antt =====
-- src/ragplan/planner/runtime_guard.py. A rate is a count over the number of observations; the test
-- `count / n > 0.10` is written `n < 10 * count`, and `> 0.20` as `n < 5 * count`: for at most 100
-- observations the float quotients compare in the same way. `str.strip`, the stripping
-- of a NonEmptyString by pydantic and the comparison of two latencies are parameters. The text of the reason joins the names listed here by "+".
pub mod Window
pub mod Latch
use oss.Prelude.{
  ℕ, suc, ◌+◌, ◌*◌, ◌≤◌, String, Bool, true, false, not, Option, none, some, List, [], ◌∷◌, ◌++◌,
  ltb, leb, ◌==◌, length, drop, count_of, if◌then◌else◌,
}
use text.Mathlib.Text.{◌==◌ as str_eq}
use oss.Core.Errors.{Result, ok, raise, value_error, raise_if, ◌>>=◌, ◌>>◌}

abbrev pub guard_window_size : ℕ
guard_window_size = 100

abbrev pub guard_minimum_samples : ℕ
guard_minimum_samples = 20

pub data DisableReason : Type 0 where
  budget_violation_rate_gt_10 p95_underprediction_rate_gt_20 : DisableReason

pub record RuntimeGuardObservation (Latency : Type 0) : Type 0 where
  pub artifact_version : String
  pub predicted_p95_latency : Latency
  pub actual_execution_latency : Latency
  pub budget_violated : Bool

-- RuntimeGuardObservation(…), whose version is a NonEmptyString: it is stripped, and must not be empty then
unfoldable pub guard_observation :
    {Latency : Type 0}
    → (String → String)
    → RuntimeGuardObservation Latency
    → Result (RuntimeGuardObservation Latency)
guard_observation trim o = do
  raise_if (str_eq (trim o.artifact_version) "") value_error
  ok (record o { artifact_version = trim o.artifact_version })

-- The rates are `budget_violations` and `p95_underpredictions` over `observation_count`.
pub record RuntimeGuardSnapshot : Type 0 where
  pub artifact_version : String
  pub observation_count : ℕ
  pub budget_violations : ℕ
  pub p95_underpredictions : ℕ
  pub disabled : Bool
  pub disable_reason : Option (List DisableReason)
  pub fallback_to_rule : Bool

pub record RuntimeModelGuard (Latency : Type 0) : Type 0 where
  pub artifact_version : String
  pub observations : List (RuntimeGuardObservation Latency)
  pub disabled : Bool
  pub disable_reason : Option (List DisableReason)

-- `deque(maxlen=100).append`: a full deque drops its oldest item
unfoldable pub push {ℓ} : {A : Type ℓ} → List A → A → List A
push xs x = if leb guard_window_size (length xs) then drop 1 (xs ++ x ∷ []) else xs ++ x ∷ []

module _ {Latency : Type 0} (trim : String → String) (exceeds : Latency → Latency → Bool) where
  abbrev pub underpredicted : RuntimeGuardObservation Latency → Bool
  underpredicted o = exceeds o.actual_execution_latency o.predicted_p95_latency

  -- RuntimeModelGuard.snapshot. The version is stripped, as a NonEmptyString; it is not empty then, since the constructor and
  -- `replace_artifact` refuse a version of blanks only.
  unfoldable pub snapshot : RuntimeModelGuard Latency → RuntimeGuardSnapshot
  snapshot g = record {
    artifact_version = trim g.artifact_version;
    observation_count = length g.observations;
    budget_violations =
        count_of (λ (o : RuntimeGuardObservation Latency). o.budget_violated) g.observations;
    p95_underpredictions = count_of underpredicted g.observations;
    disabled = g.disabled;
    disable_reason = g.disable_reason;
    fallback_to_rule = g.disabled;
  }

  -- `reasons` of `_evaluate`
  abbrev pub reasons : RuntimeGuardSnapshot → List DisableReason
  reasons s =
      (if ltb s.observation_count (10 * s.budget_violations)
        then budget_violation_rate_gt_10 ∷ []
        else [])
      ++ (if ltb s.observation_count (5 * s.p95_underpredictions)
          then p95_underprediction_rate_gt_20 ∷ []
          else [])

  abbrev latch : List DisableReason → RuntimeModelGuard Latency → RuntimeModelGuard Latency
  latch [] g = g
  latch (r ∷ rs) g = record g { disabled = true; disable_reason = some (r ∷ rs) }

  -- RuntimeModelGuard._evaluate
  unfoldable pub evaluate : RuntimeModelGuard Latency → RuntimeModelGuard Latency
  unfolding snapshot
  evaluate g =
      let s = snapshot g in
      if ltb s.observation_count guard_minimum_samples then g else latch (reasons s) g

  -- RuntimeModelGuard.observe; its result is the `snapshot` of the guard after it
  unfoldable pub observe :
      RuntimeModelGuard Latency
      → RuntimeGuardObservation Latency
      → Result (RuntimeModelGuard Latency × RuntimeGuardSnapshot)
  unfolding evaluate push snapshot
  observe g o = do
    raise_if (not (str_eq o.artifact_version g.artifact_version)) value_error
    let g' = if g.disabled then g else evaluate (record g { observations = push g.observations o })
    ok (g', snapshot g')

module _ {Latency : Type 0} (strip : String → String) where
  -- RuntimeModelGuard.__init__
  unfoldable pub new : String → Result (RuntimeModelGuard Latency)
  new version = do
    raise_if (str_eq (strip version) "") value_error
    ok (record {
      artifact_version = version;
      observations = [];
      disabled = false;
      disable_reason = none;
    })

  -- RuntimeModelGuard.replace_artifact
  unfoldable pub replace_artifact :
      RuntimeModelGuard Latency → String → Result (RuntimeModelGuard Latency)
  replace_artifact g version = do
    let selected = strip version
    raise_if (str_eq selected "") value_error
    raise_if (str_eq selected g.artifact_version) value_error
    ok (record {
      artifact_version = selected;
      observations = [];
      disabled = false;
      disable_reason = none;
    })
