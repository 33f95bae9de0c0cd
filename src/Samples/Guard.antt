-- ===== src/Samples/Guard.antt =====
-- Runs of the runtime guard, with latencies in whole milliseconds.
use oss.Prelude.{
  ℕ, zero, suc, ◌≡◌, ◌↔◌, All, Bool-cases, inl, inr, String, Bool, true, false, refl, none, some,
  List, [], ◌∷◌, ltb, if◌then◌else◌,
}
use text.Mathlib.Text.{◌==◌ as str_eq}
use text.Mathlib.TextEquality.{eq_iff}
use mathlib.Core.Bool.{false≢true}
use oss.Core.Errors.{ok, raise, value_error}
use oss.Planner.Guard.{
  RuntimeModelGuard, RuntimeGuardObservation, budget_violation_rate_gt_10, snapshot, observe, push,
  replace_artifact, guard_observation, new,
}
use oss.Planner.Guard.Latch.{
  observe_all, HasDrifted, disabled_is_latched, observe_disables_on_drift, replace_refuses_itself,
  padded_guard_sees_nothing, IsBuilt,
}

-- `actual > predicted` on whole milliseconds
abbrev exceeds : ℕ → ℕ → Bool
exceeds a b = ltb b a

-- The stripping of texts, of Python and of pydantic, on the texts of the samples.
abbrev strip : String → String
strip v = if str_eq v " v1 " then "v1" else v

abbrev trim : String → String
trim v = strip v

abbrev guard : RuntimeModelGuard ℕ
guard = record {
  artifact_version = "v1";
  observations = [];
  disabled = false;
  disable_reason = none;
}

abbrev slow : RuntimeGuardObservation ℕ
slow = record {
  artifact_version = "v1";
  predicted_p95_latency = 100;
  actual_execution_latency = 180;
  budget_violated = true;
}

abbrev repeat : ℕ → List (RuntimeGuardObservation ℕ)
repeat zero = []
repeat (suc n) = slow ∷ repeat n

abbrev nearly : RuntimeModelGuard ℕ
nearly = record guard { observations = repeat 19 }

abbrev broken : RuntimeModelGuard ℕ
broken = record guard { disabled = true; disable_reason = some (budget_violation_rate_gt_10 ∷ []) }

twenty_disable : (observe_all trim exceeds guard (repeat 20)).disabled ≡ true
unfolding observe_all observe
twenty_disable = refl

disabled_is_latched_example : observe_all trim exceeds broken (repeat 3) ≡ broken
disabled_is_latched_example = disabled_is_latched trim exceeds broken (repeat 3) refl

observe_disables_on_drift_example :
    (g' : RuntimeModelGuard ℕ) × (observe trim exceeds nearly slow
      ≡ ok (g', snapshot trim exceeds g'))
    × (g'.observations ≡ push (repeat 19) slow)
    × ((g'.disabled ≡ true) ↔ HasDrifted trim exceeds (push (repeat 19) slow))
    × ((snapshot trim exceeds g').fallback_to_rule ≡ g'.disabled)
observe_disables_on_drift_example = observe_disables_on_drift trim exceeds nearly slow refl refl

replace_refuses_itself_run : replace_artifact strip broken "v1" ≡ raise value_error
replace_refuses_itself_run = replace_refuses_itself strip broken refl

trim-trim : (v : String) → trim (trim v) ≡ trim v
trim-trim v = elim (Bool-cases (str_eq v " v1 ")) [
  | inl padded ↦ rw padded refl
  | inr plain ↦ rw (plain, plain) refl
]

abbrev padded : RuntimeModelGuard ℕ
padded = record guard { artifact_version = " v1 " }

abbrev padded_slow : RuntimeGuardObservation ℕ
padded_slow = record slow { artifact_version = " v1 " }

slow-IsBuilt : IsBuilt trim slow
unfolding guard_observation
slow-IsBuilt = (padded_slow, refl)

padded_guard_sees_nothing_example :
    All (λ o. observe trim exceeds padded o ≡ raise value_error) (repeat 2)
    × (observe_all trim exceeds padded (repeat 2) ≡ padded)
    × (false ≡ false)
unfolding new
padded_guard_sees_nothing_example =
    padded_guard_sees_nothing strip trim trim-trim exceeds " v1 " padded (repeat 2) refl
      (λ e. false≢true ((eq_iff "v1" " v1 ").1 e)) (slow-IsBuilt, (slow-IsBuilt, tt))
