-- ===== src/Ingestion/Reconcile/Harmless.antt =====
-- A failed activation records the run at most, and leaves all that is served.
use oss.Prelude.{Bool, true, false, ◌≡◌, refl, Bool-cases, inl, inr, some}
use oss.Prelude.Text.{Text}
use oss.Core.Errors.{Exception, Result, ok, raise}
use oss.Core.Ids.{TextLibrary}
use oss.Ingestion.Manifest.{IngestionManifest, Formats, Storage, Disk, lookup, record_run, after}
use oss.Ingestion.Manifest.Serving.{record_run-keeps}
use oss.Ingestion.Manifest.Pointer.{record_run-active}
use oss.Ingestion.Reconcile.{
  IngestionSource, VectorStageManifest, GraphStageManifest, failed_manifest, give_up, conclude,
  conclude_failed, is_cancellation,
}

module _ (lib : TextLibrary) (formats : Formats) (run : Text) (source : IngestionSource) where
  -- The call raises, and changes neither the pointer nor the record of a run.
  pub record IsHarmless {ℓ} {A : Type ℓ} (s : Storage) (o : Result A × Storage) : Type ℓ where
    pub raises : (e : Exception) × (o.0 ≡ raise e)
    pub pointer : o.1.active_file ≡ s.active_file
    pub runs : (name b : Text) → lookup name s.runs ≡ some b → lookup name o.1.runs ≡ some b

  raise-IsHarmless {ℓ} :
      {A : Type ℓ} (s : Storage) (e : Exception) → IsHarmless {A = A} s (raise e, s)
  raise-IsHarmless s e = record { raises = (e, refl); pointer = refl; runs = λ name b h. h }

  then_raise-IsHarmless {ℓ} :
      {A : Type ℓ} (s : Storage) (error : Exception) (r : Result (Unit {0}) × Storage)
      → r.1.active_file ≡ s.active_file
      → ((name b : Text) → lookup name s.runs ≡ some b → lookup name r.1.runs ≡ some b)
      → IsHarmless {A = A} s (after r (λ _ s. (raise error, s)))
  then_raise-IsHarmless s error (ok _, t) pointer runs = record {
    raises = (error, refl);
    pointer = pointer;
    runs = runs;
  }
  then_raise-IsHarmless s error (raise e, t) pointer runs = record {
    raises = (e, refl);
    pointer = pointer;
    runs = runs;
  }

  give_up_with {ℓ} :
      {A : Type ℓ} (disk : Disk) (r : Result IngestionManifest) (error : Exception) (s : Storage)
      → IsHarmless {A = A} s
          (after (r, s) (λ m s. after (record_run lib formats disk m s) (λ _ s. (raise error, s))))
  give_up_with disk (raise e) error s = raise-IsHarmless s e
  give_up_with disk (ok m) error s =
      then_raise-IsHarmless s error (record_run lib formats disk m s)
        (record_run-active lib formats disk m s) (record_run-keeps lib formats disk m s)

  pub give_up-IsHarmless :
      (disk : Disk) (v : VectorStageManifest) (g : GraphStageManifest) (a b : Bool)
      (error : Exception) (s : Storage)
      → IsHarmless s (give_up lib formats run source disk v g a b error s)
  unfolding give_up
  give_up-IsHarmless disk v g a b error s =
      give_up_with disk (failed_manifest lib formats run source v g a b) error s

  conclude_failed-IsHarmless :
      (disk : Disk) (v : VectorStageManifest) (g : GraphStageManifest) (error : Exception)
      (r : Result GraphStageManifest) (s : Storage)
      → IsHarmless s (conclude_failed lib formats run source disk v g error r s)
  unfolding conclude_failed
  conclude_failed-IsHarmless disk v g error (ok _) s =
      give_up-IsHarmless disk v g false true error s
  conclude_failed-IsHarmless disk v g error (raise e) s =
      elim (Bool-cases (is_cancellation lib formats run source e)) [
        | inl c ↦ rw c (raise-IsHarmless s e)
        | inr c ↦ rw c (give_up-IsHarmless disk v g false false error s)
      ]

  pub conclude_first-IsHarmless :
      (disk : Disk) (v : VectorStageManifest) (g : GraphStageManifest) (e : Exception)
      (r : Result GraphStageManifest) (s : Storage)
      → IsHarmless s (conclude lib formats run source disk v g (raise e) r s)
  unfolding conclude
  conclude_first-IsHarmless disk v g e r s =
      elim (Bool-cases (is_cancellation lib formats run source e)) [
        | inl c ↦ rw c (raise-IsHarmless s e)
        | inr c ↦ rw c (conclude_failed-IsHarmless disk v g e r s)
      ]

  pub conclude_second-IsHarmless :
      (disk : Disk) (v w : VectorStageManifest) (g : GraphStageManifest) (e : Exception)
      (s : Storage)
      → IsHarmless s (conclude lib formats run source disk v g (ok w) (raise e) s)
  unfolding conclude
  conclude_second-IsHarmless disk v w g e s =
      elim (Bool-cases (is_cancellation lib formats run source e)) [
        | inl c ↦ rw c (raise-IsHarmless s e)
        | inr c ↦ rw c (give_up-IsHarmless disk v g true false e s)
      ]
