-- ===== src/Ingestion/Reconcile/Activation.antt =====
-- A corpus is served only if both stores have verified it and agree; a failure changes nothing that is
-- served, and no activation rewrites the record of a run.
use oss.Prelude.{subst, true, ◌≡◌, ◌≢◌, refl, sym, ◌∙◌, ap, some, arith}
use oss.Prelude.Text.{Text, same_text-eq}
use oss.Core.Errors.{Exception, Result, ok, raise}
use oss.Core.Ids.{TextLibrary}
use oss.Ingestion.Manifest.{
  IngestionManifest, ActiveCorpusPointer, Formats, Storage, Disk, failed_after, lookup, activate,
  load_active, after,
}
use oss.Ingestion.Manifest.Serving.{IsReadBack, sound_disk, activate_keeps_runs, activate_then_load}
use oss.Ingestion.Manifest.Pointer.{failed_activation_keeps_pointer}
use oss.Ingestion.Reconcile.{
  IngestionSource, VectorStageManifest, GraphStageManifest, reconcile_stage_manifests, serve,
  conclude, activate_corpus, version_value,
}
use oss.Ingestion.Reconcile.Harmless.{
  give_up-IsHarmless, conclude_first-IsHarmless, conclude_second-IsHarmless,
}

module _ (lib : TextLibrary) (formats : Formats) (run : Text) (source : IngestionSource) where
  -- The stages agree.
  record IsReconciled (v : VectorStageManifest) (g : GraphStageManifest) : Type 0 where
    pub version : v.corpus_version ≡ g.corpus_version
    pub chunker : version_value v.chunker_version ≡ source.chunker_version
    pub count : v.chunk_count ≡ g.chunk_count
    pub checksum : v.canonical_id_checksum ≡ g.canonical_id_checksum

  reconcile-IsReconciled :
      (v : VectorStageManifest) (g : GraphStageManifest) (m : IngestionManifest)
      → reconcile_stage_manifests lib formats run source v g ≡ ok m
      → IsReconciled v g
  unfolding reconcile_stage_manifests
  reconcile-IsReconciled v g m h = record {
    version = same_text-eq _ _ (ground arith);
    chunker = same_text-eq _ _ (ground arith);
    count = ground arith;
    checksum = same_text-eq _ _ (ground arith);
  }

  -- An activation that returns is the repository's.
  activate_returned :
      (n m : IngestionManifest) (p : ActiveCorpusPointer) (r : Result ActiveCorpusPointer × Storage)
      (s' : Storage)
      → after {B = ActiveCorpusPointer × IngestionManifest} r (λ q s. (ok (q, n), s))
        ≡ (ok (p, m), s')
      → (r ≡ (ok p, s')) × (n ≡ m)
  activate_returned n m p (raise e, t) s' h = absurd (cc)
  activate_returned n m p (ok q, t) s' h = (cc, cc)

  serve-loads :
      (disk : Disk) (v : VectorStageManifest) (g : GraphStageManifest)
      (r : Result IngestionManifest) (s s' : Storage) (p : ActiveCorpusPointer)
      (m : IngestionManifest)
      → IsReadBack formats m p
      → reconcile_stage_manifests lib formats run source v g ≡ r
      → serve lib formats run source disk v g r s ≡ (ok (p, m), s')
      → IsReconciled v g × (load_active lib formats sound_disk s' ≡ ok (p, m))
  unfolding serve
  serve-loads disk v g (raise e) s s' p m json known h = absurd (
      let (e', bad) = (give_up-IsHarmless lib formats run source disk v g true true e s).raises in
      cc)
  serve-loads disk v g (ok n) s s' p m json known h =
      let (called, same) = activate_returned n m p (activate lib formats disk n s) s' h in
      (
        reconcile-IsReconciled v g n known,
        subst (λ n. load_active lib formats sound_disk s' ≡ ok (p, n)) same
            (activate_then_load lib formats disk n s s' p
              (subst (λ n. IsReadBack formats n p) (sym same) json) called),
      )

  conclude-serves :
      (disk : Disk) (vector : VectorStageManifest) (graph : GraphStageManifest)
      (rv : Result VectorStageManifest) (rg : Result GraphStageManifest) (s s' : Storage)
      (a : ActiveCorpusPointer × IngestionManifest)
      → conclude lib formats run source disk vector graph rv rg s ≡ (ok a, s')
      → (v : VectorStageManifest) × (g : GraphStageManifest) × (rv ≡ ok v)
        × (rg ≡ ok g)
        × (serve lib formats run source disk v g
              (reconcile_stage_manifests lib formats run source v g)
              s
            ≡ (ok a, s'))
  unfolding conclude
  conclude-serves disk vector graph (raise e) rg s s' a h = absurd (
      let (e', bad) =
        (conclude_first-IsHarmless lib formats run source disk vector graph e rg s).raises in
      cc)
  conclude-serves disk vector graph (ok v) (raise e) s s' a h = absurd (
      let (e', bad) =
        (conclude_second-IsHarmless lib formats run source disk vector v graph e s).raises in
      cc)
  conclude-serves disk vector graph (ok v) (ok g) s s' a h = (v, g, refl, refl, h)

  -- If activating a corpus returns, both verifiers have returned stages that agree on the corpus
  -- version, on the number of chunks and on the checksum of their identifiers, and the repository
  -- loads the pointer and the manifest that were returned.
  pub activation_serves_reconciled :
      (verify_vector : VectorStageManifest → Result VectorStageManifest)
      (verify_graph : GraphStageManifest → Result GraphStageManifest) (disk : Disk)
      (vector : VectorStageManifest) (graph : GraphStageManifest) (s s' : Storage)
      (p : ActiveCorpusPointer) (m : IngestionManifest)
      → IsReadBack formats m p
      → activate_corpus lib formats run source verify_vector verify_graph disk vector graph s
        ≡ (ok (p, m), s')
      → (v : VectorStageManifest) × (g : GraphStageManifest) × (verify_vector vector ≡ ok v)
        × (verify_graph graph ≡ ok g)
        × (v.corpus_version ≡ g.corpus_version)
        × (v.chunk_count ≡ g.chunk_count)
        × (v.canonical_id_checksum ≡ g.canonical_id_checksum)
        × (load_active lib formats sound_disk s' ≡ ok (p, m))
  unfolding activate_corpus
  activation_serves_reconciled verify_vector verify_graph disk vector graph s s' p m json h =
      let (v, g, ev, eg, served) =
        conclude-serves disk vector graph (verify_vector vector) (verify_graph graph) s s' (p, m)
          h in
      let (agree, loads) = serve-loads disk v g _ s s' p m json refl served in
      (v, g, ev, eg, agree.version, agree.count, agree.checksum, loads)

  served_error :
      (disk : Disk) (n : IngestionManifest) (r : Result ActiveCorpusPointer × Storage)
      (s' : Storage) (e : Exception)
      → after {B = ActiveCorpusPointer × IngestionManifest} r (λ q s. (ok (q, n), s))
        ≡ (raise e, s')
      → r ≡ (raise e, s')
  served_error disk n (raise e', t) s' e h = cc
  served_error disk n (ok q, t) s' e h = absurd (cc)

  serve-keeps_pointer :
      (disk : Disk) (v : VectorStageManifest) (g : GraphStageManifest)
      (r : Result IngestionManifest) (s s' : Storage) (e : Exception)
      → disk.pointer_write ≢ failed_after
      → serve lib formats run source disk v g r s ≡ (raise e, s')
      → s'.active_file ≡ s.active_file
  unfolding serve
  serve-keeps_pointer disk v g (raise x) s s' e clean h =
      ap (λ o. o.1.active_file) (sym h)
      ∙ (give_up-IsHarmless lib formats run source disk v g true true x s).pointer
  serve-keeps_pointer disk v g (ok n) s s' e clean h =
      failed_activation_keeps_pointer lib formats disk n s s' e clean
        (served_error disk n (activate lib formats disk n s) s' e h)

  conclude-keeps_pointer :
      (disk : Disk) (vector : VectorStageManifest) (graph : GraphStageManifest)
      (rv : Result VectorStageManifest) (rg : Result GraphStageManifest) (s s' : Storage)
      (e : Exception)
      → disk.pointer_write ≢ failed_after
      → conclude lib formats run source disk vector graph rv rg s ≡ (raise e, s')
      → s'.active_file ≡ s.active_file
  unfolding conclude
  conclude-keeps_pointer disk vector graph (raise x) rg s s' e clean h =
      ap (λ o. o.1.active_file) (sym h)
      ∙ (conclude_first-IsHarmless lib formats run source disk vector graph x rg s).pointer
  conclude-keeps_pointer disk vector graph (ok v) (raise x) s s' e clean h =
      ap (λ o. o.1.active_file) (sym h)
      ∙ (conclude_second-IsHarmless lib formats run source disk vector v graph x s).pointer
  conclude-keeps_pointer disk vector graph (ok v) (ok g) s s' e clean h =
      serve-keeps_pointer disk v g _ s s' e clean h

  -- If activating a corpus raises, the corpus that is served stays: the file of the pointer is
  -- unchanged, unless its own write fails after it has been replaced.
  pub failed_corpus_keeps_serving :
      (verify_vector : VectorStageManifest → Result VectorStageManifest)
      (verify_graph : GraphStageManifest → Result GraphStageManifest) (disk : Disk)
      (vector : VectorStageManifest) (graph : GraphStageManifest) (s s' : Storage) (e : Exception)
      → disk.pointer_write ≢ failed_after
      → activate_corpus lib formats run source verify_vector verify_graph disk vector graph s
        ≡ (raise e, s')
      → s'.active_file ≡ s.active_file
  unfolding activate_corpus
  failed_corpus_keeps_serving verify_vector verify_graph disk vector graph s s' e clean h =
      conclude-keeps_pointer disk vector graph (verify_vector vector) (verify_graph graph) s s' e
        clean h

  after-runs :
      (n : IngestionManifest) (r : Result ActiveCorpusPointer × Storage)
      → (after {B = ActiveCorpusPointer × IngestionManifest} r (λ q s. (ok (q, n), s))).1 ≡ r.1
  after-runs n (raise e, t) = refl
  after-runs n (ok q, t) = refl

  serve-keeps_runs :
      (disk : Disk) (v : VectorStageManifest) (g : GraphStageManifest)
      (r : Result IngestionManifest) (s : Storage) (name b : Text)
      → lookup name s.runs ≡ some b
      → lookup name (serve lib formats run source disk v g r s).1.runs ≡ some b
  unfolding serve
  serve-keeps_runs disk v g (raise x) s name b known =
      (give_up-IsHarmless lib formats run source disk v g true true x s).runs name b known
  serve-keeps_runs disk v g (ok n) s name b known =
      ap (λ t. lookup name t.runs) (after-runs n (activate lib formats disk n s))
      ∙ activate_keeps_runs lib formats disk n s name b known

  conclude-keeps_runs :
      (disk : Disk) (vector : VectorStageManifest) (graph : GraphStageManifest)
      (rv : Result VectorStageManifest) (rg : Result GraphStageManifest) (s : Storage)
      (name b : Text)
      → lookup name s.runs ≡ some b
      → lookup name (conclude lib formats run source disk vector graph rv rg s).1.runs ≡ some b
  unfolding conclude
  conclude-keeps_runs disk vector graph (raise x) rg s name b known =
      (conclude_first-IsHarmless lib formats run source disk vector graph x rg s).runs name b known
  conclude-keeps_runs disk vector graph (ok v) (raise x) s name b known =
      (conclude_second-IsHarmless lib formats run source disk vector v graph x s).runs name b known
  conclude-keeps_runs disk vector graph (ok v) (ok g) s name b known =
      serve-keeps_runs disk v g _ s name b known

  -- The record of a run is never rewritten: whatever the verifiers, the activation and the disk do, a
  -- file of a run keeps its bytes.
  pub activation_keeps_runs :
      (verify_vector : VectorStageManifest → Result VectorStageManifest)
      (verify_graph : GraphStageManifest → Result GraphStageManifest) (disk : Disk)
      (vector : VectorStageManifest) (graph : GraphStageManifest) (s : Storage) (name b : Text)
      → lookup name s.runs ≡ some b
      → lookup name
          (activate_corpus lib formats run source verify_vector verify_graph disk vector graph
            s).1.runs
        ≡ some b
  unfolding activate_corpus
  activation_keeps_runs verify_vector verify_graph disk vector graph s name b known =
      conclude-keeps_runs disk vector graph (verify_vector vector) (verify_graph graph) s name b
        known
