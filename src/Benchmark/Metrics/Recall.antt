-- ===== src/Benchmark/Metrics/Recall.antt =====
-- What recall counts: the relevant identifiers among the first k different ones of the ranking.
use oss.Prelude.{
  ℕ, zero, suc, ◌+◌, ◌≤◌, Bool, true, false, ◌&&◌, List, [], ◌∷◌, ◌++◌, map, length, length-take,
  take, count_of, count_of-le-length, ◌≡◌, refl, sym, ap, ◌∙◌, subst, arith, Bool-cases, inl, inr,
  leb,
}
use oss.Prelude.Text.{Text, contains, same_text, same_text-eq, same_text_refl}
use oss.Core.Errors.{ok, raise_if, value_error, returned_first, ◌>>◌}
use oss.Benchmark.Metrics.{
  grade_of, validate_inputs, recall_at_k, unique_prefix, relevant, is_missing, is_retrieved,
  is_relevant,
}
use oss.Benchmark.Metrics.Prefix.{unique_prefix-take, fresh}
use oss.Benchmark.Metrics.Ranks.{validated_k}

-- No text occurs twice.
abbrev pub IsDistinct : List Text → Type 0
IsDistinct [] = Unit
IsDistinct (x ∷ xs) = (contains x xs ≡ false) × IsDistinct xs

-- An identifier that the judgements grade at least 1
abbrev pub is_graded : List (Text × ℕ) → Text → Bool
is_graded relevance x = leb 1 (grade_of relevance x)

unfoldable tally : Bool → ℕ
tally true = 1
tally false = 0

contains-other :
    (x y : Text) (xs : List Text)
    → contains x (y ∷ xs) ≡ false
    → (same_text x y ≡ false) × (contains x xs ≡ false)
unfolding contains
contains-other x y xs h = ground arith

contains-append :
    (x : Text) (xs ys : List Text) → contains x xs ≡ true → contains x (xs ++ ys) ≡ true
unfolding contains
contains-append x [] ys h = absurd (cc)
contains-append x (y ∷ xs) ys h = elim (Bool-cases (same_text x y)) [
  | inl e ↦ rw e refl
  | inr e ↦ rw e (contains-append x xs ys (rw e at h))
]

contains-last : (x : Text) (xs : List Text) → contains x (xs ++ x ∷ []) ≡ true
unfolding contains
contains-last x [] = rw (same_text_refl x) refl
contains-last x (y ∷ xs) = ground (arith, contains-last x xs)

fresh-unseen :
    (x : Text) (seen xs : List Text) → contains x seen ≡ true → contains x (fresh seen xs) ≡ false
unfolding contains
fresh-unseen x seen [] h = refl
fresh-unseen x seen (y ∷ xs) h = elim (Bool-cases (contains y seen)) [
  | inl old ↦ rw old (fresh-unseen x seen xs h)
  | inr new ↦ elim (Bool-cases (same_text x y)) [
    | inl same ↦ absurd (let equal = ap (λ z. contains z seen) (same_text-eq x y same) in cc)
    | inr other ↦
        rw (new, other) (fresh-unseen x (seen ++ y ∷ []) xs (contains-append x seen (y ∷ []) h))
  ]
]

take-unseen :
    (x : Text) (k : ℕ) (xs : List Text) → contains x xs ≡ false → contains x (take k xs) ≡ false
unfolding contains
take-unseen x zero xs h = refl
take-unseen x (suc k) [] h = refl
take-unseen x (suc k) (y ∷ xs) h = ground (arith, take-unseen x k xs)

fresh-IsDistinct : (seen xs : List Text) → IsDistinct (fresh seen xs)
fresh-IsDistinct seen [] = tt
fresh-IsDistinct seen (x ∷ xs) = elim (Bool-cases (contains x seen)) [
  | inl old ↦ rw old (fresh-IsDistinct seen xs)
  | inr new ↦ rw new (
    fresh-unseen x (seen ++ x ∷ []) xs (contains-last x seen),
    fresh-IsDistinct (seen ++ x ∷ []) xs,
  )
]

take-IsDistinct : (k : ℕ) (xs : List Text) → IsDistinct xs → IsDistinct (take k xs)
take-IsDistinct zero xs h = tt
take-IsDistinct (suc k) [] h = tt
take-IsDistinct (suc k) (x ∷ xs) h = (take-unseen x k xs h.0, take-IsDistinct k xs h.1)

same_text-sym : (x y : Text) → same_text x y ≡ same_text y x
unfolding same_text
same_text-sym [] [] = refl
same_text-sym [] (b ∷ y) = refl
same_text-sym (a ∷ x) [] = refl
same_text-sym (a ∷ x) (b ∷ y) = ground (arith, same_text-sym x y)

-- A name without a grade
grade_of-missing :
    (key : Text) (relevance : List (Text × ℕ))
    → contains key (map (λ (r : Text × ℕ). r.0) relevance) ≡ false
    → grade_of relevance key ≡ 0
unfolding grade_of contains
grade_of-missing key [] h = refl
grade_of-missing key ((name, grade) ∷ relevance) h =
    ground (arith, grade_of-missing key relevance, same_text-sym name key)

-- One more judgement, of an identifier that had none
count_of-judged :
    (key : Text) (grade : ℕ) (relevance : List (Text × ℕ)) (xs : List Text)
    → grade_of relevance key ≡ 0
    → IsDistinct xs
    → count_of (is_graded ((key, grade) ∷ relevance)) xs
      ≡ count_of (is_graded relevance) xs + tally (leb 1 grade && contains key xs)
unfolding grade_of contains tally
count_of-judged key grade relevance [] h d = ground arith
count_of-judged key grade relevance (x ∷ xs) h d = elim (Bool-cases (same_text key x)) [
  | inl same ↦
      let equal = same_text-eq key x same in
      let ungraded : grade_of relevance x ≡ 0 = subst (λ z. grade_of relevance z ≡ 0) equal h in
      let once : contains key xs ≡ false = subst (λ z. contains z xs ≡ false) (sym equal) d.0 in
      ground (arith, count_of-judged key grade relevance xs h d.1)
  | inr other ↦ ground (arith, count_of-judged key grade relevance xs h d.1)
]

count_of-ungraded : (xs : List Text) → count_of (is_graded []) xs ≡ 0
unfolding grade_of
count_of-ungraded [] = refl
count_of-ungraded (x ∷ xs) = count_of-ungraded xs

length-relevant :
    (relevance : List (Text × ℕ)) → length (relevant relevance) ≡ count_of is_relevant relevance
length-relevant [] = refl
length-relevant (r ∷ relevance) = ground (arith, length-relevant relevance)

count_of-swap :
    (relevance : List (Text × ℕ)) (xs : List Text)
    → IsDistinct (map (λ (r : Text × ℕ). r.0) relevance)
    → IsDistinct xs
    → count_of (is_retrieved xs) (relevant relevance) ≡ count_of (is_graded relevance) xs
unfolding tally
count_of-swap [] xs d d' = sym (count_of-ungraded xs)
count_of-swap ((key, grade) ∷ relevance) xs d d' =
    let missing = grade_of-missing key relevance d.0 in
    ground
      (arith, count_of-judged key grade relevance xs missing d', count_of-swap relevance xs d.1 d')

recall_of :
    (p : Text × ℕ → Bool) (known : List (Text × ℕ)) (hits total : ℕ)
    → ◌>>◌ {Y = ℕ × ℕ}
        (raise_if (is_missing known) value_error)
        (ok (count_of p known, length known))
      ≡ ok (hits, total)
    → (count_of p known ≡ hits) × (length known ≡ total) × (1 ≤ total)
recall_of p [] hits total h = absurd (cc)
recall_of p (x ∷ known) hits total h =
    let b : suc (length known) ≡ total = cc in (cc, b, omega (arith, b))

-- A recall that is computed has, over judgements that name no identifier twice, as its numerator the number of the
-- relevant ones among the first k different identifiers of the ranking, which is at most k and at most the
-- denominator; the denominator is the number of the relevant identifiers, and not 0.
pub recall_at_k_counts :
    (ranked : List Text) (relevance : List (Text × ℕ)) (k hits total : ℕ)
    → IsDistinct (map (λ (r : Text × ℕ). r.0) relevance)
    → recall_at_k ranked relevance k ≡ ok (hits, total)
    → (hits ≡ count_of (is_graded relevance) (take k (fresh [] ranked)))
      × (hits ≤ k)
      × (hits ≤ total)
      × (total ≡ count_of is_relevant relevance)
      × (1 ≤ total)
unfolding recall_at_k
recall_at_k_counts ranked relevance k hits total d h =
    let (tt, h', valid) = returned_first _ (validate_inputs ranked relevance k) (hits, total) h in
    let prefix = unique_prefix-take k ranked (validated_k ranked relevance k valid) in
    let known = relevant relevance in
    let (counted, sized, some_known) =
      recall_of (is_retrieved (unique_prefix k ranked)) known hits total h' in
    let firsts = take k (fresh [] ranked) in
    let swap =
      count_of-swap relevance firsts d
        (take-IsDistinct k (fresh [] ranked) (fresh-IsDistinct [] ranked)) in
    let same : hits ≡ count_of (is_graded relevance) firsts =
      sym counted ∙ ap (λ xs. count_of (is_retrieved xs) known) prefix ∙ swap in
    (
      same,
      omega (
        arith,
        same,
        count_of-le-length (is_graded relevance) firsts,
        length-take k (fresh [] ranked),
      ),
      omega
          (arith, counted, sized, count_of-le-length (is_retrieved (unique_prefix k ranked)) known),
      sym sized ∙ length-relevant relevance,
      some_known,
    )
