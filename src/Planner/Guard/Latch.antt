-- ===== src/Planner/Guard/Latch.antt =====
-- When the guard disables its artifact, and that only a replacement clears the latch.
use oss.Prelude.{
  ◌*◌, ◌≤◌, ◌<◌, ◌≡◌, ◌≢◌, ◌⊎◌, ◌↔◌, refl, String, Bool, true, false, All, ap, sym, subst, ◌∙◌,
  List, [], ◌∷◌, arith, length, count_of,
}
use text.Mathlib.Text.{◌==◌ as str_eq}
use text.Mathlib.TextEquality.{eq_iff}
use oss.Core.Errors.{Result, ok, raise, value_error, guard_passed, ok_injective}
use oss.Planner.Guard.{
  RuntimeGuardObservation, RuntimeModelGuard, RuntimeGuardSnapshot, snapshot, observe, evaluate,
  push, new, guard_observation, replace_artifact, underpredicted, guard_minimum_samples,
}

abbrev pub after :
    {Latency : Type 0}
    → RuntimeModelGuard Latency
    → Result (RuntimeModelGuard Latency × RuntimeGuardSnapshot)
    → RuntimeModelGuard Latency
after g (ok (g', s)) = g'
after g (raise e) = g

module _ {Latency : Type 0} (trim : String → String) (exceeds : Latency → Latency → Bool) where
  -- The guard after some observations; one of another artifact raises and changes nothing.
  unfoldable pub observe_all :
      RuntimeModelGuard Latency → List (RuntimeGuardObservation Latency) → RuntimeModelGuard Latency
  observe_all g [] = g
  observe_all g (o ∷ os) = observe_all (after g (observe trim exceeds g o)) os

  observe_disabled :
      (g : RuntimeModelGuard Latency) (o : RuntimeGuardObservation Latency)
      → g.disabled ≡ true
      → after g (observe trim exceeds g o) ≡ g
  unfolding observe
  observe_disabled g o h = ground arith

  -- A disabled artifact stays disabled, for the same reason and with the same window, whatever is
  -- observed after that.
  pub disabled_is_latched :
      (g : RuntimeModelGuard Latency) (os : List (RuntimeGuardObservation Latency))
      → g.disabled ≡ true
      → observe_all g os ≡ g
  unfolding observe_all
  disabled_is_latched g [] h = refl
  disabled_is_latched g (o ∷ os) h = rw (observe_disabled g o h) (disabled_is_latched g os h)

  -- Drift of the window: enough samples, and more than a tenth of them over the budget or more than
  -- a fifth above their prediction.
  abbrev pub HasDrifted : List (RuntimeGuardObservation Latency) → Type 0
  HasDrifted w =
      (guard_minimum_samples ≤ length w)
      × ((length w < 10 * count_of (λ (o : RuntimeGuardObservation Latency). o.budget_violated) w)
          ⊎ (length w < 5 * count_of (underpredicted trim exceeds) w))

  evaluate_lem :
      (g : RuntimeModelGuard Latency)
      → g.disabled ≡ false
      → ((evaluate trim exceeds g).observations ≡ g.observations)
        × (((evaluate trim exceeds g).disabled ≡ true) ↔ HasDrifted g.observations)
  unfolding evaluate
  evaluate_lem g h = ground arith

  -- An observation of its own artifact disables an enabled guard exactly if the window with it has
  -- drifted, and is always kept in the window; the snapshot says so, and falls back to the rules.
  pub observe_disables_on_drift :
      (g : RuntimeModelGuard Latency) (o : RuntimeGuardObservation Latency)
      → g.disabled ≡ false
      → o.artifact_version ≡ g.artifact_version
      → (g' : RuntimeModelGuard Latency) × (observe trim exceeds g o
          ≡ ok (g', snapshot trim exceeds g'))
        × (g'.observations ≡ push g.observations o)
        × ((g'.disabled ≡ true) ↔ HasDrifted (push g.observations o))
        × ((snapshot trim exceeds g').fallback_to_rule ≡ g'.disabled)
  unfolding observe
  observe_disables_on_drift g o h same =
      let w = record g { observations = push g.observations o } in
      let (kept, drift) = evaluate_lem w h in
      (
        evaluate trim exceeds w,
        rw ((eq_iff o.artifact_version g.artifact_version).1 same, h),
        kept,
        drift,
        refl,
      )

  -- An observation of another artifact raises ValueError.
  pub observe_refuses :
      (g : RuntimeModelGuard Latency) (o : RuntimeGuardObservation Latency)
      → o.artifact_version ≢ g.artifact_version
      → observe trim exceeds g o ≡ raise value_error
  unfolding observe
  observe_refuses g o h = ground (arith, eq_iff o.artifact_version g.artifact_version)

module _ {Latency : Type 0} (strip : String → String) (g : RuntimeModelGuard Latency) where
  -- A guard whose own version has no surrounding blanks refuses to be replaced by that version, so a
  -- disabled artifact does not reactivate itself.
  pub replace_refuses_itself :
      strip g.artifact_version ≡ g.artifact_version
      → replace_artifact strip g g.artifact_version ≡ raise value_error
  unfolding replace_artifact
  replace_refuses_itself h = ground (arith, h, eq_iff (strip g.artifact_version) g.artifact_version)

-- The versions of an observation that has been built are stripped.
abbrev pub IsBuilt :
    {Latency : Type 0} → (String → String) → RuntimeGuardObservation Latency → Type 0
IsBuilt {Latency} trim o =
    (raw : RuntimeGuardObservation Latency) × (guard_observation trim raw ≡ ok o)

module _ {Latency : Type 0} (strip trim : String → String)
    (idempotent : (v : String) → trim (trim v) ≡ trim v) (exceeds : Latency → Latency → Bool) where
  built-version :
      (o : RuntimeGuardObservation Latency)
      → IsBuilt trim o
      → trim o.artifact_version ≡ o.artifact_version
  unfolding guard_observation
  built-version o (raw, h) =
      let (_, same) = guard_passed (str_eq (trim raw.artifact_version) "") value_error _ o h in
      let named : trim raw.artifact_version ≡ o.artifact_version =
        ap (λ (o : RuntimeGuardObservation Latency). o.artifact_version) (ok_injective same) in
      ap trim (sym named) ∙ idempotent raw.artifact_version ∙ named

  new-guard :
      (version : String) (g : RuntimeModelGuard Latency)
      → new strip version ≡ ok g
      → (version ≡ g.artifact_version) × (g.disabled ≡ false)
  unfolding new
  new-guard version g h =
      let (_, same) = guard_passed (str_eq (strip version) "") value_error _ g h in
      (
        ap (λ (g : RuntimeModelGuard Latency). g.artifact_version) (ok_injective same),
        sym (ap (λ (g : RuntimeModelGuard Latency). g.disabled) (ok_injective same)),
      )

  padded-refuses :
      (g : RuntimeModelGuard Latency) (o : RuntimeGuardObservation Latency)
      → trim g.artifact_version ≢ g.artifact_version
      → IsBuilt trim o
      → observe trim exceeds g o ≡ raise value_error
  padded-refuses g o padded built =
      observe_refuses trim exceeds g o
        (λ e. padded (subst (λ v. trim v ≡ v) e (built-version o built)))

  padded-refuses-All :
      (g : RuntimeModelGuard Latency) (os : List (RuntimeGuardObservation Latency))
      → trim g.artifact_version ≢ g.artifact_version
      → All (IsBuilt trim) os
      → All (λ o. observe trim exceeds g o ≡ raise value_error) os
        × (observe_all trim exceeds g os ≡ g)
  unfolding observe_all
  padded-refuses-All g [] padded built = (tt, refl)
  padded-refuses-All g (o ∷ os) padded built =
      let refused = padded-refuses g o padded built.0 in
      let (all, same) = padded-refuses-All g os padded built.1 in
      ((refused, all), rw (refused) same)

  -- The constructor keeps the blanks around a version, and observations are built without them: such a guard refuses every
  -- observation that can be built, those of its own artifact included, and none of them ever disables it. It is assumed
  -- that stripping a text twice strips it once.
  pub padded_guard_sees_nothing :
      (version : String) (g : RuntimeModelGuard Latency)
      (os : List (RuntimeGuardObservation Latency))
      → new strip version ≡ ok g
      → trim version ≢ version
      → All (IsBuilt trim) os
      → All (λ o. observe trim exceeds g o ≡ raise value_error) os
        × (observe_all trim exceeds g os ≡ g)
        × (g.disabled ≡ false)
  padded_guard_sees_nothing version g os made padded built =
      let (named, enabled) = new-guard version g made in
      let (refused, same) = padded-refuses-All g os (subst (λ v. trim v ≢ v) named padded) built in
      (refused, same, enabled)
