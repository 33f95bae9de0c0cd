-- ===== src/Ingestion/Chunker.antt =====
-- src/ragplan/ingestion/chunker.py: documents cut into overlapping windows of tokens.
-- The tokenizer is a parameter, as in the code; a negative token count does not occur in ℕ, and the
-- type tests of the code are met by the types.
pub mod Windows
pub mod Offsets
use oss.Prelude.{
  ℕ, zero, suc, ◌+◌, ◌-◌, min, Bool, true, false, not, ◌&&◌, ◌||◌, List, [], ◌∷◌, Option, none,
  some, ltb, leb, ◌==◌, if◌then◌else◌, length, take, drop,
}
use oss.Prelude.Text.{Text, is_empty, contains}
use oss.Core.Errors.{Result, ok, raise, value_error, raise_if, ◌>>=◌, ◌>>◌}
use oss.Core.Ids.{TextLibrary, strip, canonical_document_id, canonical_chunk_id}
use oss.Ingestion.Normalize.{normalize_text}

pub data ChunkerVersion : Type 0 where
  token_decode_v1 source_offsets_v2 : ChunkerVersion

pub record TokenEncoding : Type 0 where
  pub token_count : ℕ
  pub decode : ℕ → ℕ → Result Text

pub record Tokenizer : Type 0 where
  pub encode : Text → Result TokenEncoding
  pub versioned_encode : Option (Text → ChunkerVersion → Result TokenEncoding)

pub record ChunkerConfig : Type 0 where
  pub window_size : ℕ
  pub overlap : ℕ

-- ChunkerConfig.__post_init__
unfoldable pub chunker_config : ℕ → ℕ → Result ChunkerConfig
chunker_config window_size overlap = do
  raise_if (ltb window_size 1) value_error
  raise_if (not (ltb overlap window_size)) value_error
  ok (record { window_size = window_size; overlap = overlap })

-- x[start:end] for start up to end
abbrev slice {ℓ} : {A : Type ℓ} → List A → ℕ → ℕ → List A
slice x start end = take (end - start) (drop start x)

-- _TokenIdsEncoding
unfoldable pub token_ids_encoding : List ℕ → (List ℕ → Result Text) → TokenEncoding
token_ids_encoding token_ids decode_ids = record {
  token_count = length token_ids;
  decode = λ start end. decode_ids (slice token_ids start end);
}

abbrev offset_start : List (ℕ × ℕ) → ℕ
offset_start [] = 0
offset_start ((start, _) ∷ _) = start

abbrev offset_end : List (ℕ × ℕ) → ℕ
offset_end [] = 0
offset_end ((_, end) ∷ _) = end

-- _SourceOffsetEncoding.decode; the guard keeps both indices inside the offsets
unfoldable pub decode_offsets : Text → List (ℕ × ℕ) → ℕ → ℕ → Result Text
decode_offsets source_text offsets start end = do
  raise_if (not (leb start end && leb end (length offsets))) value_error
  ok (
      if start == end
      then []
      else slice source_text (offset_start (drop start offsets))
          (offset_end (drop (end - 1) offsets)))

-- _SourceOffsetEncoding
unfoldable pub source_offset_encoding : Text → List (ℕ × ℕ) → TokenEncoding
unfolding decode_offsets
source_offset_encoding source_text offsets = record {
  token_count = length offsets;
  decode = decode_offsets source_text offsets;
}

-- The loop of _validated_offsets, with the end of the offset before.
unfoldable pub validated_from : ℕ → ℕ → List (ℕ × ℕ) → Result (List (ℕ × ℕ))
validated_from text_length previous_end [] = ok []
validated_from text_length previous_end ((start, end) ∷ raw_offsets) = do
  raise_if (ltb start previous_end || not (ltb start end && leb end text_length)) value_error
  offsets ← validated_from text_length end raw_offsets
  ok ((start, end) ∷ offsets)

-- _validated_offsets, of the input_ids and the offset_mapping
unfoldable pub validated_offsets : List ℕ → List (ℕ × ℕ) → ℕ → Result (List (ℕ × ℕ))
unfolding validated_from
validated_offsets token_ids raw_offsets text_length = do
  raise_if (not (length token_ids == length raw_offsets)) value_error
  validated_from text_length 0 raw_offsets

-- Chunk, without the entities and the metadata that later steps fill
pub record Chunk : Type 0 where
  pub id : Text
  pub document_id : Text
  pub corpus_version : Text
  pub position : ℕ
  pub text : Text
  pub token_count : ℕ

-- _encode_for_chunker
unfoldable pub encode_for_chunker : Tokenizer → Text → ChunkerVersion → Result TokenEncoding
encode_for_chunker tokenizer text token_decode_v1 = tokenizer.encode text
encode_for_chunker tokenizer text source_offsets_v2 = elim tokenizer.versioned_encode [
  | none ↦ raise value_error
  | some encode ↦ encode text source_offsets_v2
]

-- What HuggingFaceTokenizerAdapter keeps of the tokenizer that it wraps; a slow one has no offsets.
pub record HuggingFaceTokenizer : Type 0 where
  pub encode : Text → Result (List ℕ)
  pub decode : List ℕ → Result Text
  pub encode_offsets : Option (Text → Result (List ℕ × List (ℕ × ℕ)))

-- HuggingFaceTokenizerAdapter.encode
abbrev encode_ids : HuggingFaceTokenizer → Text → Result TokenEncoding
unfolding token_ids_encoding
encode_ids tokenizer text = do
  token_ids ← tokenizer.encode text
  ok (token_ids_encoding token_ids tokenizer.decode)

-- encode_offsets of from_tokenizer, then the encoding by offsets
abbrev encode_source : HuggingFaceTokenizer → Text → Result TokenEncoding
unfolding validated_offsets source_offset_encoding
encode_source tokenizer text = elim tokenizer.encode_offsets [
  | none ↦ raise value_error
  | some call ↦
      (call text >>= λ result. validated_offsets result.0 result.1 (length text) >>= λ offsets.
      ok (source_offset_encoding text offsets))
]

-- HuggingFaceTokenizerAdapter.encode_for_chunker
abbrev encode_version : HuggingFaceTokenizer → Text → ChunkerVersion → Result TokenEncoding
unfolding encode_ids encode_source
encode_version tokenizer text token_decode_v1 = encode_ids tokenizer text
encode_version tokenizer text source_offsets_v2 = encode_source tokenizer text

-- HuggingFaceTokenizerAdapter
unfoldable pub hugging_face_adapter : HuggingFaceTokenizer → Tokenizer
unfolding encode_ids encode_version
hugging_face_adapter tokenizer = record {
  encode = encode_ids tokenizer;
  versioned_encode = some (encode_version tokenizer);
}

module _ (lib : TextLibrary) (config : ChunkerConfig) (encoding : TokenEncoding)
    (document_id corpus_version : Text) where
  abbrev pub is_new : Text → List Text → Bool
  is_new text seen = not (is_empty text) && not (contains text seen)

  abbrev pub window_end : ℕ → ℕ
  window_end start = min (start + config.window_size) encoding.token_count

  -- The model strips its texts; only the corpus version can have blanks at its ends.
  abbrev pub chunk : Text → ℕ → ℕ → Text → Chunk
  chunk id position start text = record {
    id = id;
    document_id = document_id;
    corpus_version = strip lib.is_white_space corpus_version;
    position = position;
    text = text;
    token_count = window_end start - start;
  }

  -- What follows a window: nothing once it has reached the last token.
  abbrev pub follow : ℕ → (List Text → Result (List Chunk)) → List Text → Result (List Chunk)
  follow start next seen = if window_end start == encoding.token_count then ok [] else next seen

  -- A window whose text is new becomes a chunk.
  unfoldable pub visit :
      (position start : ℕ)
      → Text
      → List Text
      → (List Text → Result (List Chunk))
      → Result (List Chunk)
  visit position start text seen next =
      if is_new text seen
      then (canonical_chunk_id lib document_id position text >>= λ id.
          next (text ∷ seen) >>= λ rest. ok (chunk id position start text ∷ rest))
      else next seen

  -- The loop of chunk_document from one window on, on fuel, with the texts seen before.
  unfoldable pub windows : ℕ → ℕ → ℕ → List Text → Result (List Chunk)
  unfolding visit
  windows zero position start seen = ok []
  windows (suc fuel) position start seen =
      let rest : List Text → Result (List Chunk) =
        λ seen. windows fuel (suc position) (start + (config.window_size - config.overlap)) seen in
      if ltb start encoding.token_count
      then (encoding.decode start (window_end start) >>= λ decoded.
          visit position start (normalize_text lib decoded) seen (λ seen. follow start rest seen))
      else ok []

-- The step is at least 1, so as many rounds as there are tokens are enough.
unfoldable pub chunk_document :
    TextLibrary
    → Tokenizer
    → ChunkerConfig
    → ChunkerVersion
    → (source_dataset source_document_id corpus_version text : Text) → Result (List Chunk)
unfolding windows
chunk_document lib tokenizer config version source_dataset source_document_id corpus_version text =
    raise_if (is_empty (strip lib.is_space corpus_version)) value_error
    >> (let normalized = normalize_text lib text in
        if is_empty normalized
        then ok []
        else (encode_for_chunker tokenizer normalized version >>= λ encoding.
            canonical_document_id lib source_dataset source_document_id >>= λ document_id.
            windows lib config encoding document_id corpus_version encoding.token_count 0 0 []))
