-- ===== src/Benchmark/Metrics.antt =====
-- src/ragplan/benchmark/metrics.py: recall as its numerator and denominator, and the reciprocal rank as
-- the rank. The judgements of a query map the identifiers of chunks to grades, each once.
pub mod Prefix
pub mod Ranks
pub mod Recall
use oss.Prelude.{
  ℕ, suc, ◌+◌, Bool, true, false, not, ◌&&◌, List, [], ◌∷◌, ◌++◌, Option, none, some, ltb, leb,
  ◌==◌, if◌then◌else◌, length, keep, any_of, count_of,
}
use oss.Prelude.Text.{Text, is_empty, contains, same_text}
use oss.Core.Errors.{Result, ok, raise, raise_if, value_error, ◌>>=◌, ◌>>◌}

-- relevance.get(chunk_id, 0)
unfoldable pub grade_of : List (Text × ℕ) → Text → ℕ
unfolding same_text
grade_of [] chunk_id = 0
grade_of ((key, grade) ∷ relevance) chunk_id =
    let rest = grade_of relevance chunk_id in if same_text key chunk_id then grade else rest

abbrev pub is_relevant : (Text × ℕ) → Bool
is_relevant (_, grade) = leb 1 grade

abbrev is_invalid : (Text × ℕ) → Bool
is_invalid (key, grade) = if is_empty key then true else not (leb grade 2)

-- _validate_inputs
unfoldable pub validate_inputs : List Text → List (Text × ℕ) → ℕ → Result (Unit {0})
validate_inputs ranked relevance k = do
  raise_if (ltb k 1) value_error
  raise_if (any_of is_empty ranked) value_error
  raise_if (any_of is_invalid relevance) value_error

-- The loop of _unique_prefix; the set of the seen has the members of the list.
unfoldable pub unique_from : ℕ → List Text → List Text → List Text
unfolding contains
unique_from k unique [] = unique
unique_from k unique (chunk_id ∷ ranked) =
    let next : List Text → List Text = λ unique. unique_from k unique ranked in
    let longer = unique ++ chunk_id ∷ [] in
    if contains chunk_id unique
    then next unique
    else if length longer == k
    then longer
    else next longer

-- _unique_prefix
abbrev pub unique_prefix : ℕ → List Text → List Text
unique_prefix k ranked = unique_from k [] ranked

abbrev pub relevant : List (Text × ℕ) → List (Text × ℕ)
relevant relevance = keep is_relevant relevance

abbrev pub is_retrieved : List Text → (Text × ℕ) → Bool
is_retrieved retrieved (key, _) = contains key retrieved

abbrev pub is_missing {ℓ} : {A : Type ℓ} → List A → Bool
is_missing [] = true
is_missing (_ ∷ _) = false

-- recall_at_k, the quotient of the two numbers
unfoldable pub recall_at_k : List Text → List (Text × ℕ) → ℕ → Result (ℕ × ℕ)
unfolding validate_inputs unique_from contains
recall_at_k ranked relevance k = do
  validate_inputs ranked relevance k
  let known = relevant relevance
  raise_if (is_missing known) value_error
  ok (count_of (is_retrieved (unique_prefix k ranked)) known, length known)

-- The loop of mrr_at_k, from a rank on
unfoldable pub first_relevant : List (Text × ℕ) → ℕ → List Text → Option ℕ
unfolding grade_of
first_relevant relevance rank [] = none
first_relevant relevance rank (chunk_id ∷ ranked) =
    let later = first_relevant relevance (suc rank) ranked in
    if leb 1 (grade_of relevance chunk_id) then some rank else later

-- mrr_at_k: one over the rank, or 0 where there is none
unfoldable pub mrr_at_k : List Text → List (Text × ℕ) → ℕ → Result (Option ℕ)
unfolding validate_inputs unique_from first_relevant
mrr_at_k ranked relevance k = do
  validate_inputs ranked relevance k
  raise_if (not (any_of is_relevant relevance)) value_error
  ok (first_relevant relevance 1 (unique_prefix k ranked))
