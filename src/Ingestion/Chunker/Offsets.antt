-- ===== src/Ingestion/Chunker/Offsets.antt =====
-- The offsets that the chunker accepts from a tokenizer.
use oss.Prelude.{
  ℕ, ◌≤◌, ◌<◌, not, ◌&&◌, ◌||◌, List, [], ◌∷◌, length, ◌==◌, ltb, leb, ◌≡◌, arith, subst,
}
use oss.Core.Errors.{ok, raise_if, value_error, returned_first}
use oss.Ingestion.Chunker.{validated_offsets, validated_from}

-- Ranges of a text, none of them empty, each starting where the one before has ended or later.
abbrev pub IsRanges : ℕ → ℕ → List (ℕ × ℕ) → Type 0
IsRanges text_length previous_end [] = Unit
IsRanges text_length previous_end ((start, end) ∷ offsets) =
    (previous_end ≤ start) × (start < end) × (end ≤ text_length) × IsRanges text_length end offsets

test_passed :
    (text_length previous_end start end : ℕ)
    → raise_if (ltb start previous_end || not (ltb start end && leb end text_length)) value_error
      ≡ ok tt
    → (previous_end ≤ start) × (start < end) × (end ≤ text_length)
test_passed text_length previous_end start end h = (ground arith, ground arith, ground arith)

validated_from-IsRanges :
    (text_length previous_end : ℕ) (raw offsets : List (ℕ × ℕ))
    → validated_from text_length previous_end raw ≡ ok offsets
    → (raw ≡ offsets) × IsRanges text_length previous_end raw
unfolding validated_from
validated_from-IsRanges text_length previous_end [] offsets h = (cc, tt)
validated_from-IsRanges text_length previous_end ((start, end) ∷ raw) offsets h =
    let (tt, h', passed) =
      returned_first _
        (raise_if (ltb start previous_end || not (ltb start end && leb end text_length))
          value_error)
        offsets h in
    let (rest, h'', e) =
      returned_first (λ rest. ok ((start, end) ∷ rest)) (validated_from text_length end raw) offsets
        h' in
    let (same, ranges) = validated_from-IsRanges text_length end raw rest e in
    let (a, b, c) = test_passed text_length previous_end start end passed in (cc, (a, b, c, ranges))

-- Offsets that are accepted are the tokenizer's own, one for each token, and follow each other through
-- the text as ranges that are not empty.
pub validated_offsets-IsRanges :
    (token_ids : List ℕ) (raw offsets : List (ℕ × ℕ)) (text_length : ℕ)
    → validated_offsets token_ids raw text_length ≡ ok offsets
    → (raw ≡ offsets) × (length token_ids ≡ length raw) × IsRanges text_length 0 offsets
unfolding validated_offsets
validated_offsets-IsRanges token_ids raw offsets text_length h =
    let (tt, h', equal) =
      returned_first _ (raise_if (not (length token_ids == length raw)) value_error) offsets h in
    let (same, ranges) = validated_from-IsRanges text_length 0 raw offsets h' in
    (same, ground arith, subst (IsRanges text_length 0) same ranges)
