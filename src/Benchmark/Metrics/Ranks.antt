-- ===== src/Benchmark/Metrics/Ranks.antt =====
-- What the reciprocal rank stands for.
use oss.Prelude.{
  ℕ, suc, ◌+◌, ◌≤◌, List, [], ◌∷◌, ◌++◌, some, length, length-take, length-append, All, ◌≡◌, refl,
  ap, ◌∙◌, arith, Bool-cases, inl, inr, leb, leb→le, any_of, not, ltb, ltb-false,
}
use oss.Prelude.Text.{Text}
use oss.Core.Errors.{ok, raise_if, value_error, returned_first}
use oss.Benchmark.Metrics.{
  grade_of, validate_inputs, mrr_at_k, first_relevant, unique_prefix, is_relevant,
}
use oss.Benchmark.Metrics.Prefix.{unique_prefix-take, fresh}

pub validated_k :
    (ranked : List Text) (relevance : List (Text × ℕ)) (k : ℕ)
    → validate_inputs ranked relevance k ≡ ok tt
    → 1 ≤ k
unfolding validate_inputs
validated_k ranked relevance k h = elim (Bool-cases (ltb k 1)) [
  | inl low ↦ absurd (let bad = rw low at h in cc)
  | inr fine ↦ ltb-false k 1 fine
]

-- A ranking is cut at k identifiers.
prefix-bound : (k : ℕ) (ranked : List Text) → 1 ≤ k → length (unique_prefix k ranked) ≤ k
prefix-bound k ranked h =
    let e = ap length (unique_prefix-take k ranked h) in
    let l = length-take k (fresh [] ranked) in omega (arith, e, l)

first_relevant-splits :
    (relevance : List (Text × ℕ)) (rank r : ℕ) (xs : List Text)
    → first_relevant relevance rank xs ≡ some r
    → (before : List Text) × (x : Text) × (later : List Text) × (xs ≡ before ++ x ∷ later)
      × (r ≡ rank + length before)
      × All (λ y. grade_of relevance y ≡ 0) before
      × (1 ≤ grade_of relevance x)
unfolding first_relevant
first_relevant-splits relevance rank r [] h = absurd (cc)
first_relevant-splits relevance rank r (x ∷ xs) h =
    elim (Bool-cases (leb 1 (grade_of relevance x))) [
      | inl found ↦
          let same = rw found at h in
          let e : rank ≡ r = cc in ([], x, xs, refl, omega (arith, e), tt, leb→le _ _ found)
      | inr lost ↦
          let (before, y, later, e, place, all, good) =
            first_relevant-splits relevance (suc rank) r xs (rw lost at h) in
          (
            x ∷ before,
            y,
            later,
            ap (λ zs. x ∷ zs) e,
            omega (arith, place),
            (ground (arith, lost), all),
            good,
          )
    ]

-- A reciprocal rank other than 0 is that of the first relevant identifier among the first k different
-- ones: all before it have grade 0, and the rank is at most k.
pub mrr_finds_first :
    (ranked : List Text) (relevance : List (Text × ℕ)) (k r : ℕ)
    → mrr_at_k ranked relevance k ≡ ok (some r)
    → (before : List Text) × (x : Text) × (later : List Text) × (unique_prefix k ranked
        ≡ before ++ x ∷ later)
      × (r ≡ suc (length before))
      × All (λ y. grade_of relevance y ≡ 0) before
      × (1 ≤ grade_of relevance x)
      × (r ≤ k)
unfolding mrr_at_k
mrr_finds_first ranked relevance k r h =
    let (tt, h', valid) = returned_first _ (validate_inputs ranked relevance k) (some r) h in
    let (_, h'', _) =
      returned_first (λ _. ok (first_relevant relevance 1 (unique_prefix k ranked)))
        (raise_if (not (any_of is_relevant relevance)) value_error) (some r) h' in
    let (before, x, later, e, place, all, good) =
      first_relevant-splits relevance 1 r (unique_prefix k ranked) (cc) in
    let bound = prefix-bound k ranked (validated_k ranked relevance k valid) in
    let size = ap length e ∙ length-append before (x ∷ later) in
    (before, x, later, e, omega (arith, place), all, good, omega (arith, place, size, bound))
