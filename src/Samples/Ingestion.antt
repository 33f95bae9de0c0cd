-- ===== src/Samples/Ingestion.antt =====
-- A small Python library and tokenizer, and the theorems on identifiers and chunks at them.
use oss.Prelude.{
  length, ℕ, zero, suc, List, [], ◌∷◌, map, ◌≡◌, ◌≢◌, refl, arith, ◌==◌, if◌then◌else◌, All, none,
  ◌≤◌,
}
use oss.Prelude.Text.{Text, codes, same_text, contains, starts_with}
use oss.Core.Errors.{ok}
use oss.Core.Ids.{TextLibrary, colon, component, canonical_document_id, canonical_chunk_id}
use oss.Core.Ids.Unambiguous.{IsPython, document_id_unambiguous}
use oss.Ingestion.Normalize.{normalize_text}
use oss.Ingestion.Chunker.{
  validated_offsets, Tokenizer, ChunkerVersion, ChunkerConfig, Chunk, chunk_document,
  token_ids_encoding, encode_for_chunker, windows,
}
use oss.Ingestion.Chunker.Offsets.{IsRanges, validated_offsets-IsRanges}
use oss.Ingestion.Chunker.Windows.{
  IsOrdered, Covered, chunk_document-IsOrdered, every_token-Covered,
}

-- Escapes the colon as the percent sign.
abbrev escape : Text → Text
escape [] = []
escape (a ∷ x) = (if a == 58 then 37 else a) ∷ escape x

abbrev tally : ℕ → Text
tally zero = []
tally (suc n) = 49 ∷ tally n

abbrev pub small_python : TextLibrary
small_python = record {
  nfkc = λ x. x;
  is_space = λ a. a == 32;
  is_white_space = λ a. a == 32;
  quote = escape;
  content_hash_prefix = λ x. x;
  decimal = tally;
}

escape-plain : (x : Text) → All (λ a. a ≢ colon) (escape x)
escape-plain [] = tt
escape-plain (a ∷ x) = (ground arith, escape-plain x)

tally-plain : (n : ℕ) → All (λ a. a ≢ colon) (tally n)
tally-plain zero = tt
tally-plain (suc n) = (λ e. absurd (omega (arith, e)), tally-plain n)

tally-injective : (n m : ℕ) → tally n ≡ tally m → n ≡ m
tally-injective zero zero e = refl
tally-injective zero (suc m) e = absurd (cc)
tally-injective (suc n) zero e = absurd (cc)
tally-injective (suc n) (suc m) e = ground (arith, tally-injective n m)

small_python-IsPython : IsPython small_python
small_python-IsPython = record {
  quote_escapes = escape-plain;
  decimal_plain = tally-plain;
  decimal_injective = tally-injective;
}

document_id_unambiguous_example :
    (component small_python (codes "squad") ≡ component small_python (codes " squad"))
    × (component small_python (codes "a:b") ≡ component small_python (codes "a:b"))
unfolding canonical_document_id component
document_id_unambiguous_example =
    document_id_unambiguous small_python small_python-IsPython (codes "squad") (codes "a:b")
      (codes " squad") (codes "a:b") (codes "v1:document:squad:a%b") refl refl

-- A tokenizer whose tokens are the code points.
abbrev plain_tokenizer : Tokenizer
plain_tokenizer = record {
  encode = λ text. ok (token_ids_encoding text (λ ids. ok ids));
  versioned_encode = none;
}

abbrev small_config : ChunkerConfig
small_config = record { window_size = 4; overlap = 1 }

abbrev sample_text : Text
sample_text = codes "aaaaaaaab"

decodes_all :
    (start end : ℕ)
    → start ≤ end
    → end ≤ 9
    → (x : Text) × ((token_ids_encoding sample_text (λ ids. ok ids)).decode start end ≡ ok x)
unfolding token_ids_encoding
decodes_all start end h k = (_, refl)

-- The second window repeats the first and is left out.
chunk_document_run :
    chunk_document small_python plain_tokenizer small_config ChunkerVersion.token_decode_v1
      (codes "s")
      (codes "d")
      (codes "v")
      sample_text
    ≡ ok (
        record {
          id = codes "v1:chunk:v1%document%s%d::aaaa";
          document_id = codes "v1:document:s:d";
          corpus_version = codes "v";
          position = 0;
          text = codes "aaaa";
          token_count = 4;
        }
        ∷ record {
          id = codes "v1:chunk:v1%document%s%d:11:aab";
          document_id = codes "v1:document:s:d";
          corpus_version = codes "v";
          position = 2;
          text = codes "aab";
          token_count = 3;
        }
        ∷ [])
unfolding chunk_document canonical_chunk_id canonical_document_id component normalize_text
    encode_for_chunker token_ids_encoding windows contains same_text starts_with
chunk_document_run = refl

chunk_document-IsOrdered_example :
    (cs : List Chunk) × (chunk_document small_python plain_tokenizer small_config
        ChunkerVersion.token_decode_v1
        (codes "s")
        (codes "d")
        (codes "v")
        sample_text
      ≡ ok cs)
    × IsOrdered 4 0 [] cs
unfolding canonical_document_id component normalize_text encode_for_chunker token_ids_encoding
chunk_document-IsOrdered_example =
    chunk_document-IsOrdered small_python plain_tokenizer small_config
      ChunkerVersion.token_decode_v1 (codes "s") (codes "d") (codes "v") sample_text
      (codes "v1:document:s:d") (codes "v1%document%s%d")
      (token_ids_encoding sample_text (λ ids. ok ids)) (omega arith) refl refl refl refl refl
      decodes_all

every_token-Covered_example :
    (cs : List Chunk) × (chunk_document small_python plain_tokenizer small_config
        ChunkerVersion.token_decode_v1
        (codes "s")
        (codes "d")
        (codes "v")
        sample_text
      ≡ ok cs)
    × Covered small_python small_config
        (token_ids_encoding sample_text (λ ids. ok ids))
        []
        (map (λ c. c.text) cs)
        5
unfolding canonical_document_id component normalize_text encode_for_chunker token_ids_encoding
every_token-Covered_example =
    every_token-Covered small_python plain_tokenizer small_config ChunkerVersion.token_decode_v1
      (codes "s") (codes "d") (codes "v") sample_text (codes "v1:document:s:d")
      (codes "v1%document%s%d") (token_ids_encoding sample_text (λ ids. ok ids)) (omega arith) refl
      refl refl refl refl decodes_all 5 (omega arith)

validated_offsets-IsRanges_example :
    (◌≡◌ {A = List (ℕ × ℕ)} ((0, 2) ∷ (3, 5) ∷ []) ((0, 2) ∷ (3, 5) ∷ []))
    × (length {A = ℕ} (7 ∷ 8 ∷ []) ≡ length {A = ℕ × ℕ} ((0, 2) ∷ (3, 5) ∷ []))
    × IsRanges 5 0 ((0, 2) ∷ (3, 5) ∷ [])
unfolding validated_offsets
validated_offsets-IsRanges_example =
    validated_offsets-IsRanges (7 ∷ 8 ∷ []) ((0, 2) ∷ (3, 5) ∷ []) ((0, 2) ∷ (3, 5) ∷ []) 5 refl
