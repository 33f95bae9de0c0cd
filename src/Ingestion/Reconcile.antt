-- ===== src/Ingestion/Reconcile.antt =====
-- src/ragplan/ingestion/reconcile.py: both stores are read again before the corpus that is served
-- changes. The verifiers are parameters; of the stage manifests only the fields that activation reads
-- are kept.
pub mod Harmless
pub mod Activation
use oss.Prelude.{
  ℕ, max, Bool, true, false, not, ◌&&◌, ◌||◌, List, [], Option, none, some, ◌==◌, if◌then◌else◌,
}
use oss.Prelude.Text.{Text, codes, same_text}
use oss.Core.Errors.{
  corpus_inconsistent, Exception, cancelled, rag, ragplan_error, Result, ok, raise, raise_if, ◌>>=◌,
  ◌>>◌,
}
use oss.Core.Ids.{TextLibrary}
use oss.Ingestion.Chunker.{ChunkerVersion, token_decode_v1, source_offsets_v2}
use oss.Ingestion.Manifest.{
  IngestionStoreStatus, ActivationStatus, IngestionManifest, ingestion_manifest,
  ActiveCorpusPointer, Formats, Storage, Disk, after, record_run, activate, inconsistent,
}

pub record IngestionSource : Type 0 where
  pub source_dataset : Text
  pub source_version : Text
  pub source_sha256 : Text
  pub chunker_version : Text

pub record VectorStageManifest : Type 0 where
  pub corpus_version : Text
  pub chunk_count : ℕ
  pub canonical_id_checksum : Text
  pub chunker_version : ChunkerVersion
  pub embedding_model_revision : Text

pub record GraphStageManifest : Type 0 where
  pub corpus_version : Text
  pub document_count : ℕ
  pub chunk_count : ℕ
  pub canonical_id_checksum : Text
  pub extractor_version : Text

-- ChunkerVersion.value
abbrev pub version_value : ChunkerVersion → Text
version_value token_decode_v1 = codes "token-window-220-overlap-40-v1"
version_value source_offsets_v2 = codes "token-window-220-overlap-40-v2"

abbrev pub store_status : Bool → IngestionStoreStatus
store_status true = IngestionStoreStatus.succeeded
store_status false = IngestionStoreStatus.failed

module _ (lib : TextLibrary) (formats : Formats) (run : Text) (source : IngestionSource) where
  abbrev pub agreed : VectorStageManifest → GraphStageManifest → IngestionManifest
  agreed vector graph = record {
    ingestion_run_id = run;
    corpus_version = vector.corpus_version;
    source_dataset = source.source_dataset;
    source_version = source.source_version;
    source_sha256 = source.source_sha256;
    chunker_version = source.chunker_version;
    embedding_model_revision = vector.embedding_model_revision;
    extractor_version = graph.extractor_version;
    document_count = graph.document_count;
    chunk_count = graph.chunk_count;
    qdrant_count = vector.chunk_count;
    qdrant_id_checksum = vector.canonical_id_checksum;
    qdrant_status = IngestionStoreStatus.succeeded;
    neo4j_count = graph.chunk_count;
    neo4j_id_checksum = graph.canonical_id_checksum;
    neo4j_status = IngestionStoreStatus.succeeded;
    activation_status = ActivationStatus.active;
  }

  -- reconcile_stage_manifests
  unfoldable pub reconcile_stage_manifests :
      VectorStageManifest → GraphStageManifest → Result IngestionManifest
  unfolding same_text
  reconcile_stage_manifests vector graph = do
    raise_if (not (same_text vector.corpus_version graph.corpus_version)) inconsistent
    raise_if (not (same_text (version_value vector.chunker_version) source.chunker_version))
        inconsistent
    raise_if
        (not (vector.chunk_count == graph.chunk_count)
          || not (same_text vector.canonical_id_checksum graph.canonical_id_checksum))
        inconsistent
    ingestion_manifest lib (agreed vector graph)

  -- _failed_manifest
  unfoldable pub failed_manifest :
      VectorStageManifest → GraphStageManifest → Bool → Bool → Result IngestionManifest
  failed_manifest vector graph vector_verified graph_verified =
      let empty_checksum = formats.sha256 [] in
      ingestion_manifest lib (record (agreed vector graph) {
        chunk_count = max vector.chunk_count graph.chunk_count;
        qdrant_count = if vector_verified then vector.chunk_count else 0;
        qdrant_id_checksum =
            if vector_verified then vector.canonical_id_checksum else empty_checksum;
        qdrant_status = store_status vector_verified;
        neo4j_count = if graph_verified then graph.chunk_count else 0;
        neo4j_id_checksum = if graph_verified then graph.canonical_id_checksum else empty_checksum;
        neo4j_status = store_status graph_verified;
        activation_status = ActivationStatus.failed;
      })

  abbrev Outcome : Type 0
  Outcome = Result (ActiveCorpusPointer × IngestionManifest) × Storage

  -- The failed run is recorded, then the error raised.
  unfoldable pub give_up :
      Disk → VectorStageManifest → GraphStageManifest → Bool → Bool → Exception → Storage → Outcome
  unfolding failed_manifest record_run
  give_up disk vector graph vector_verified graph_verified error s =
      after (failed_manifest vector graph vector_verified graph_verified, s)
        (λ manifest s. after (record_run lib formats disk manifest s) (λ _ s. (raise error, s)))

  -- ActivationCoordinator.activate after the stages have been compared
  unfoldable pub serve :
      Disk → VectorStageManifest → GraphStageManifest → Result IngestionManifest → Storage → Outcome
  unfolding give_up activate
  serve disk vector graph (raise error) s = give_up disk vector graph true true error s
  serve disk vector graph (ok manifest) s =
      after (activate lib formats disk manifest s) (λ pointer s. (ok (pointer, manifest), s))

  -- A cancellation is no `Exception` and passes through the handlers.
  abbrev pub is_cancellation : Exception → Bool
  is_cancellation (cancelled _) = true
  is_cancellation _ = false

  -- What follows the call of the second verifier when the first has raised
  unfoldable pub conclude_failed :
      Disk
      → VectorStageManifest
      → GraphStageManifest
      → Exception
      → Result GraphStageManifest
      → Storage
      → Outcome
  unfolding give_up
  conclude_failed disk vector graph error (ok _) s = give_up disk vector graph false true error s
  conclude_failed disk vector graph error (raise e) s =
      if is_cancellation e then (raise e, s) else give_up disk vector graph false false error s

  -- What follows the calls of both verifiers; the second is called unless the first is cancelled.
  unfoldable pub conclude :
      Disk
      → VectorStageManifest
      → GraphStageManifest
      → Result VectorStageManifest
      → Result GraphStageManifest
      → Storage
      → Outcome
  unfolding give_up serve conclude_failed reconcile_stage_manifests
  conclude disk vector graph (raise e) graph_verdict s =
      if is_cancellation e
      then (raise e, s)
      else conclude_failed disk vector graph e graph_verdict s
  conclude disk vector graph (ok verified_vector) (raise e) s =
      if is_cancellation e then (raise e, s) else give_up disk vector graph true false e s
  conclude disk vector graph (ok verified_vector) (ok verified_graph) s =
      serve disk verified_vector verified_graph
        (reconcile_stage_manifests verified_vector verified_graph) s

  -- ActivationCoordinator.activate
  unfoldable pub activate_corpus :
      (VectorStageManifest → Result VectorStageManifest)
      → (GraphStageManifest → Result GraphStageManifest)
      → Disk
      → VectorStageManifest
      → GraphStageManifest
      → Storage
      → Outcome
  unfolding conclude
  activate_corpus verify_vector verify_graph disk vector graph s =
      conclude disk vector graph (verify_vector vector) (verify_graph graph) s
