-- ===== src/Samples/Activation.antt =====
-- A store with one run served and another activated, and the theorems on manifests and activation.
use oss.Prelude.{false, [], ◌∷◌, some, none, ◌≡◌, refl}
use oss.Prelude.Text.{codes}
use oss.Core.Errors.{Result, ok, raise, other_exception}
use oss.Core.Ids.{TextLibrary}
use oss.Ingestion.Chunker.{ChunkerVersion}
use oss.Ingestion.Manifest.{
  IngestionManifest, ActiveCorpusPointer, Formats, Storage, lookup, load_active, discard,
  ingestion_manifest, check_activation, load_pointed, matched,
}
use oss.Ingestion.Manifest.Serving.{sound_disk}
use oss.Ingestion.Manifest.Discard.{discard_keeps_served}
use oss.Ingestion.Reconcile.{
  IngestionSource, VectorStageManifest, GraphStageManifest, activate_corpus, agreed,
}
use oss.Ingestion.Reconcile.Activation.{
  activation_serves_reconciled, failed_corpus_keeps_serving, activation_keeps_runs,
}

abbrev plain_texts : TextLibrary
plain_texts = record {
  nfkc = λ x. x;
  is_space = λ _. false;
  is_white_space = λ _. false;
  quote = λ x. x;
  content_hash_prefix = λ x. x;
  decimal = λ _. [];
}

abbrev corpus_source : IngestionSource
corpus_source = record {
  source_dataset = codes "squad";
  source_version = codes "1";
  source_sha256 = codes "aa";
  chunker_version = codes "token-window-220-overlap-40-v1";
}

abbrev vector_stage : VectorStageManifest
vector_stage = record {
  corpus_version = codes "c2";
  chunk_count = 7;
  canonical_id_checksum = codes "ff";
  chunker_version = ChunkerVersion.token_decode_v1;
  embedding_model_revision = codes "b8";
}

abbrev graph_stage : GraphStageManifest
graph_stage = record {
  corpus_version = codes "c2";
  document_count = 3;
  chunk_count = 7;
  canonical_id_checksum = codes "ff";
  extractor_version = codes "x1";
}

abbrev bare_formats : Formats
bare_formats = record {
  sha256 = λ x. x;
  manifest_bytes = λ m. m.ingestion_run_id;
  manifest_of = λ _. none;
  pointer_bytes = λ p. p.ingestion_run_id;
  pointer_of = λ _. none;
  manifest_sha256 = λ m. m.ingestion_run_id;
}

abbrev second_manifest : IngestionManifest
second_manifest =
    agreed plain_texts bare_formats (codes "run2") corpus_source vector_stage graph_stage

abbrev second_pointer : ActiveCorpusPointer
second_pointer = record {
  corpus_version = codes "c2";
  ingestion_run_id = codes "run2";
  ingestion_manifest_sha256 = codes "run2";
}

-- Formats that read the second run.
abbrev formats : Formats
formats = record bare_formats {
  manifest_of = λ _. some second_manifest;
  pointer_of = λ _. some second_pointer;
}

abbrev first_storage : Storage
first_storage = record {
  runs = (codes "run1", codes "run1") ∷ [];
  active_file = some (codes "run1");
}

abbrev second_storage : Storage
second_storage = record {
  runs = (codes "run2", codes "run2") ∷ (codes "run1", codes "run1") ∷ [];
  active_file = some (codes "run2");
}

activation_serves_reconciled_example :
    (v : VectorStageManifest) × (g : GraphStageManifest) × (◌≡◌ {A = Result VectorStageManifest}
      (ok vector_stage)
      (ok v))
    × (◌≡◌ {A = Result GraphStageManifest} (ok graph_stage) (ok g))
    × (v.corpus_version ≡ g.corpus_version)
    × (v.chunk_count ≡ g.chunk_count)
    × (v.canonical_id_checksum ≡ g.canonical_id_checksum)
    × (load_active plain_texts formats sound_disk second_storage
        ≡ ok (second_pointer, second_manifest))
unfolding activate_corpus check_activation ingestion_manifest
activation_serves_reconciled_example =
    activation_serves_reconciled plain_texts formats (codes "run2") corpus_source (λ v. ok v)
      (λ g. ok g) sound_disk vector_stage graph_stage first_storage second_storage second_pointer
      second_manifest (record { manifest = refl; pointer = refl }) refl

-- The graph store does not verify its stage: the failed run is recorded, and run1 stays.
failed_corpus_keeps_serving_example : some (codes "run1") ≡ some (codes "run1")
unfolding activate_corpus check_activation ingestion_manifest
failed_corpus_keeps_serving_example =
    failed_corpus_keeps_serving plain_texts formats (codes "run2") corpus_source (λ v. ok v)
      (λ g. raise other_exception) sound_disk vector_stage graph_stage first_storage
      (record { runs = second_storage.runs; active_file = some (codes "run1") }) other_exception
      (λ e. absurd (cc)) refl

activation_keeps_runs_example :
    lookup
      (codes "run1")
      (activate_corpus plain_texts formats
        (codes "run2")
        corpus_source
        (λ v. ok v)
        (λ g. ok g)
        sound_disk
        vector_stage
        graph_stage
        first_storage).1.runs
    ≡ some (codes "run1")
unfolding lookup
activation_keeps_runs_example =
    activation_keeps_runs plain_texts formats (codes "run2") corpus_source (λ v. ok v) (λ g. ok g)
      sound_disk vector_stage graph_stage first_storage (codes "run1") (codes "run1") refl

discard_keeps_served_example :
    load_active plain_texts formats sound_disk
      (discard plain_texts formats sound_disk (codes "run1") second_storage).1
    ≡ ok (second_pointer, second_manifest)
unfolding load_active load_pointed matched
discard_keeps_served_example =
    discard_keeps_served plain_texts formats sound_disk (codes "run1") second_storage second_pointer
      second_manifest refl (λ e. e)
