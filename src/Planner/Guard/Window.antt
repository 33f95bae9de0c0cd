-- ===== src/Planner/Guard/Window.antt =====
-- The window of observations: the last hundred, and what fewer than twenty of them can do.
use oss.Prelude.{
  String, suc, ◌+◌, ◌≤◌, ◌<◌, ◌≡◌, refl, sym, ap, ◌∙◌, Bool, false, List, [], ◌∷◌, ◌++◌, arith, leb,
  length, length-append, min, Bool-cases, inl, inr, leb→le,
}
use text.Mathlib.TextEquality.{eq_iff}
use mathlib.Core.List.{append_assoc, append-nil}
use oss.Planner.Guard.{
  RuntimeGuardObservation, RuntimeModelGuard, push, observe, guard_window_size,
  guard_minimum_samples,
}
use oss.Planner.Guard.Latch.{observe_all, after}

module _ {ℓ} {A : Type ℓ} where
  unfoldable pub push_all : List A → List A → List A
  push_all xs [] = xs
  push_all xs (y ∷ ys) = push_all (push xs y) ys

  push_lem :
      (xs : List A) (x : A)
      → length xs ≤ guard_window_size
      → (length (push xs x) ≡ min guard_window_size (suc (length xs)))
        × ((front : List A) × (front ++ push xs x ≡ xs ++ x ∷ []))
  unfolding push
  push_lem [] x h = (refl, ([], refl))
  push_lem (y ∷ xs) x h = elim (Bool-cases (leb guard_window_size (suc (length xs)))) [
    | inl full ↦ rw full (omega (arith, length-append xs (x ∷ []), leb→le _ _ full), (y ∷ [], refl))
    | inr room ↦
        let small : suc (length xs) < guard_window_size = ground arith in
        rw room (omega (arith, length-append xs (x ∷ [])), ([], refl))
  ]

  rejoin :
      (front front' w xs mid ys : List A) (y : A)
      → front ++ mid ≡ xs ++ y ∷ []
      → front' ++ w ≡ mid ++ ys
      → (front ++ front') ++ w ≡ xs ++ y ∷ ys
  rejoin front front' w xs mid ys y e e' =
      append_assoc front front' w
      ∙ ap (λ z. front ++ z) e'
      ∙ sym (append_assoc front mid ys)
      ∙ ap (λ z. z ++ ys) e
      ∙ append_assoc xs (y ∷ []) ys

  -- A deque after any appends is the end of all the items, and as long as it can be: the last
  -- hundred, or all of them.
  pub push_all_lem :
      (xs ys : List A)
      → length xs ≤ guard_window_size
      → (length (push_all xs ys) ≡ min guard_window_size (length xs + length ys))
        × ((front : List A) × (front ++ push_all xs ys ≡ xs ++ ys))
  unfolding push_all
  push_all_lem xs [] h = (omega arith, ([], sym (append-nil xs)))
  push_all_lem xs (y ∷ ys) h =
      let (long, (front, e)) = push_lem xs y h in
      let (long', (front', e')) = push_all_lem (push xs y) ys (omega (arith, long)) in
      (omega (arith, long, long'), (front ++ front', rejoin front front' _ xs _ ys y e e'))

module _ {Latency : Type 0} (trim : String → String) (exceeds : Latency → Latency → Bool) where
  few_step :
      (g : RuntimeModelGuard Latency) (o : RuntimeGuardObservation Latency)
      → g.disabled ≡ false
      → length g.observations + 1 < guard_minimum_samples
      → ((after g (observe trim exceeds g o)).disabled ≡ false)
        × (length (after g (observe trim exceeds g o)).observations ≤ length g.observations + 1)
  unfolding observe
  few_step g o h few =
      ground
        (arith, length-append g.observations (o ∷ []), eq_iff o.artifact_version g.artifact_version)

  -- An enabled guard with fewer than twenty observations, those to come included, is not disabled by
  -- them, however bad they are.
  pub few_samples_never_disable :
      (g : RuntimeModelGuard Latency) (os : List (RuntimeGuardObservation Latency))
      → g.disabled ≡ false
      → length g.observations + length os < guard_minimum_samples
      → (observe_all trim exceeds g os).disabled ≡ false
  unfolding observe_all
  few_samples_never_disable g [] h few = h
  few_samples_never_disable g (o ∷ os) h few =
      let (still, short) = few_step g o h (omega arith) in
      few_samples_never_disable (after g (observe trim exceeds g o)) os still (omega (arith, short))
