-- ===== src/Ingestion/Manifest.antt =====
-- src/ragplan/ingestion/manifest.py: the records of ingestion runs and the pointer to the one that is
-- served, as files that are replaced atomically; IngestionManifest of src/ragplan/core/models.py.
-- Hashing, JSON with the validation of pydantic and the disk's faults are parameters.
pub mod Serving
pub mod Pointer
pub mod Discard
use oss.Prelude.{
  ℕ, Bool, true, false, not, ◌&&◌, ◌||◌, List, [], ◌∷◌, Option, none, some, ltb, ◌==◌,
  if◌then◌else◌,
}
use oss.Prelude.Text.{Text, is_empty, same_text}
use oss.Core.Errors.{
  ErrorCode, not_ready, corpus_inconsistent, dependency_unavailable, Exception, rag, value_error,
  ragplan_error, Result, ok, raise, raise_if, ◌>>=◌, ◌>>◌,
}
use oss.Core.Ids.{TextLibrary, strip}

pub data IngestionStoreStatus : Type 0 where
  pending succeeded failed : IngestionStoreStatus

pub data ActivationStatus : Type 0 where
  inactive active failed : ActivationStatus

pub record IngestionManifest : Type 0 where
  pub ingestion_run_id : Text
  pub corpus_version : Text
  pub source_dataset : Text
  pub source_version : Text
  pub source_sha256 : Text
  pub chunker_version : Text
  pub embedding_model_revision : Text
  pub extractor_version : Text
  pub document_count : ℕ
  pub chunk_count : ℕ
  pub qdrant_count : ℕ
  pub qdrant_id_checksum : Text
  pub qdrant_status : IngestionStoreStatus
  pub neo4j_count : ℕ
  pub neo4j_id_checksum : Text
  pub neo4j_status : IngestionStoreStatus
  pub activation_status : ActivationStatus

abbrev has_succeeded : IngestionStoreStatus → Bool
has_succeeded IngestionStoreStatus.succeeded = true
has_succeeded _ = false

abbrev pub is_active : ActivationStatus → Bool
is_active ActivationStatus.active = true
is_active _ = false

-- The test of IngestionManifest._check_activation
unfoldable pub check_activation : IngestionManifest → Bool
unfolding same_text
check_activation m =
    let stores_succeeded = has_succeeded m.qdrant_status && has_succeeded m.neo4j_status in
    let reconciled =
      (m.qdrant_count == m.neo4j_count)
      && ((m.qdrant_count == m.chunk_count)
          && same_text m.qdrant_id_checksum m.neo4j_id_checksum) in
    not (
      is_active m.activation_status
      && not (stores_succeeded && (reconciled && (ltb 0 m.document_count && ltb 0 m.chunk_count))))

-- IngestionManifest(…): the fields but the run's identifier come from models already checked.
unfoldable pub ingestion_manifest : TextLibrary → IngestionManifest → Result IngestionManifest
unfolding check_activation
ingestion_manifest lib m = do
  let run = strip lib.is_white_space m.ingestion_run_id
  raise_if (is_empty run) value_error
  raise_if (not (check_activation m)) value_error
  ok (record m { ingestion_run_id = run })

pub record ActiveCorpusPointer : Type 0 where
  pub corpus_version : Text
  pub ingestion_run_id : Text
  pub ingestion_manifest_sha256 : Text

-- hashlib.sha256, _canonical_json_bytes and the parsing of _load_model, none where it fails
pub record Formats : Type 0 where
  pub sha256 : Text → Text
  pub manifest_bytes : IngestionManifest → Text
  pub manifest_of : Text → Option IngestionManifest
  pub pointer_bytes : ActiveCorpusPointer → Text
  pub pointer_of : Text → Option ActiveCorpusPointer
  pub manifest_sha256 : IngestionManifest → Text

-- The files of runs by their names, and the file of the pointer.
pub record Storage : Type 0 where
  pub runs : List (Text × Text)
  pub active_file : Option Text

-- An atomic write may fail before the file is replaced, or after, when the directory is synced.
pub data WriteOutcome : Type 0 where
  written failed_before failed_after : WriteOutcome

-- What the disk does during one call.
pub record Disk : Type 0 where
  pub run_readable : Bool
  pub pointer_readable : Bool
  pub run_write : WriteOutcome
  pub pointer_write : WriteOutcome
  pub unlinked : Bool

abbrev pub io_error : Exception
unfolding ragplan_error
io_error = rag (ragplan_error dependency_unavailable none none)

abbrev pub inconsistent : Exception
unfolding ragplan_error
inconsistent = rag (ragplan_error corpus_inconsistent (some false) none)

unfoldable pub lookup : Text → List (Text × Text) → Option Text
unfolding same_text
lookup name [] = none
lookup name ((n, bytes) ∷ files) =
    let rest = lookup name files in if same_text n name then some bytes else rest

-- unlink(missing_ok=True)
unfoldable pub without : Text → List (Text × Text) → List (Text × Text)
unfolding same_text
without name [] = []
without name ((n, bytes) ∷ files) =
    let rest = without name files in if same_text n name then rest else (n, bytes) ∷ rest

abbrev pub after {ℓ ℓ'} :
    {A : Type ℓ} {B : Type ℓ'}
    → Result A × Storage
    → (A → Storage → Result B × Storage)
    → Result B × Storage
after (ok a, s) next = next a s
after (raise e, s) next = (raise e, s)

-- _atomic_write of a file that `put` replaces
abbrev pub atomic_write : WriteOutcome → (Storage → Storage) → Storage → Result (Unit {0}) × Storage
atomic_write written put s = (ok tt, put s)
atomic_write failed_before put s = (raise io_error, s)
atomic_write failed_after put s = (raise io_error, put s)

module _ (lib : TextLibrary) (formats : Formats) where
  -- ManifestRepository._run_path
  unfoldable pub run_path : Text → Result Text
  run_path ingestion_run_id =
      raise_if (is_empty (strip lib.is_space ingestion_run_id)) value_error
      >> ok (formats.sha256 ingestion_run_id)

  abbrev pub put_run : Text → Text → Storage → Storage
  put_run path bytes s = record s { runs = (path, bytes) ∷ s.runs }

  abbrev pub record_at : Disk → Text → Text → Option Text → Storage → Result (Unit {0}) × Storage
  record_at disk path serialized none s = atomic_write disk.run_write (put_run path serialized) s
  record_at disk path serialized (some existing) s =
      if disk.run_readable
      then (if same_text existing serialized then ok tt else raise inconsistent, s)
      else (raise io_error, s)

  -- ManifestRepository.record
  unfoldable pub record_run : Disk → IngestionManifest → Storage → Result (Unit {0}) × Storage
  unfolding run_path lookup same_text
  record_run disk manifest s =
      after (run_path manifest.ingestion_run_id, s)
        (λ path s. record_at disk path (formats.manifest_bytes manifest) (lookup path s.runs) s)

  abbrev pub pointer_to : IngestionManifest → ActiveCorpusPointer
  pointer_to manifest = record {
    corpus_version = manifest.corpus_version;
    ingestion_run_id = manifest.ingestion_run_id;
    ingestion_manifest_sha256 = formats.manifest_sha256 manifest;
  }

  abbrev pub put_active : IngestionManifest → Storage → Storage
  put_active manifest s = record s {
    active_file = some (formats.pointer_bytes (pointer_to manifest));
  }

  -- ManifestRepository.activate
  unfoldable pub activate :
      Disk → IngestionManifest → Storage → Result ActiveCorpusPointer × Storage
  unfolding record_run
  activate disk manifest s =
      if is_active manifest.activation_status
      then after (record_run disk manifest s) (λ _ s.
        after (atomic_write disk.pointer_write (put_active manifest) s)
          (λ _ s. (ok (pointer_to manifest), s)))
      else (raise value_error, s)

  -- _load_model of one file
  abbrev pub load_model {ℓ} : {A : Type ℓ} → Bool → (Text → Option A) → Option Text → Result A
  unfolding ragplan_error
  load_model readable parse none = raise (rag (ragplan_error not_ready none none))
  load_model readable parse (some bytes) = elim (if readable then parse bytes else none) [
    | none ↦ raise inconsistent
    | some a ↦ ok a
  ]

  -- ManifestRepository.load_run
  unfoldable pub load_run : Disk → Text → Storage → Result IngestionManifest
  unfolding run_path lookup load_model
  load_run disk ingestion_run_id s = run_path ingestion_run_id >>= λ path.
      load_model disk.run_readable formats.manifest_of (lookup path s.runs)

  -- The manifest is the one that the pointer names.
  unfoldable pub matched :
      ActiveCorpusPointer → IngestionManifest → Result (ActiveCorpusPointer × IngestionManifest)
  unfolding same_text ragplan_error
  matched pointer manifest =
      raise_if
        (not (same_text manifest.corpus_version pointer.corpus_version)
          || (not (same_text (formats.manifest_sha256 manifest) pointer.ingestion_manifest_sha256)
              || not (is_active manifest.activation_status)))
        (rag (ragplan_error corpus_inconsistent none none))
      >> ok (pointer, manifest)

  unfoldable pub load_pointed :
      Disk → Storage → ActiveCorpusPointer → Result (ActiveCorpusPointer × IngestionManifest)
  unfolding load_run
  load_pointed disk s pointer =
      load_run disk pointer.ingestion_run_id s >>= λ manifest. matched pointer manifest

  -- ManifestRepository.load_active
  unfoldable pub load_active : Disk → Storage → Result (ActiveCorpusPointer × IngestionManifest)
  unfolding load_model
  load_active disk s =
      load_model disk.pointer_readable formats.pointer_of s.active_file >>= λ pointer.
      load_pointed disk s pointer

  -- ManifestRepository.rollback
  unfoldable pub rollback : Disk → Text → Storage → Result ActiveCorpusPointer × Storage
  unfolding load_run activate
  rollback disk ingestion_run_id s =
      after (load_run disk ingestion_run_id s, s) (λ manifest s. activate disk manifest s)

  -- unlink of the run's file
  unfoldable pub unlink_run : Disk → Text → Storage → Result (Unit {0}) × Storage
  unfolding run_path without
  unlink_run disk ingestion_run_id s =
      after (run_path ingestion_run_id, s)
        (λ path s.
          if disk.unlinked
          then (ok tt, record s { runs = without path s.runs })
          else (raise io_error, s))

  abbrev is_not_ready : ErrorCode → Bool
  is_not_ready not_ready = true
  is_not_ready _ = false

  -- The rest of discard, after load_active has returned or raised
  unfoldable pub discard_given :
      Disk
      → Text
      → Storage
      → Result (ActiveCorpusPointer × IngestionManifest)
      → Result (Unit {0}) × Storage
  unfolding unlink_run same_text
  discard_given disk ingestion_run_id s (ok (pointer, _)) =
      if same_text pointer.ingestion_run_id ingestion_run_id
      then (raise inconsistent, s)
      else unlink_run disk ingestion_run_id s
  discard_given disk ingestion_run_id s (raise (rag e)) =
      if is_not_ready e.code then unlink_run disk ingestion_run_id s else (raise (rag e), s)
  discard_given disk ingestion_run_id s (raise e) = (raise e, s)

  -- ManifestRepository.discard
  unfoldable pub discard : Disk → Text → Storage → Result (Unit {0}) × Storage
  discard disk ingestion_run_id s = discard_given disk ingestion_run_id s (load_active disk s)
