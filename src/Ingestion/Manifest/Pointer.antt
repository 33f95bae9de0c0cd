-- ===== src/Ingestion/Manifest/Pointer.antt =====
-- A failure of an activation changes nothing that is served.
use oss.Prelude.{Option, none, some, ◌≡◌, ◌≢◌, refl, sym, ◌∙◌, ap, inl, inr, Bool-cases}
use oss.Prelude.Text.{Text, is_empty}
use oss.Core.Errors.{Exception, Result, ok, raise}
use oss.Core.Ids.{TextLibrary, strip}
use oss.Ingestion.Manifest.{
  IngestionManifest, Formats, Storage, Disk, failed_after, is_active, run_path, record_run,
  activate, after, atomic_write, pointer_to, put_active, record_at,
}
use oss.Ingestion.Manifest.Serving.{outcome-cases}

module _ (lib : TextLibrary) (formats : Formats) where
  record_at-active :
      (disk : Disk) (path bytes : Text) (s : Storage) (found : Option Text)
      → (record_at lib formats disk path bytes found s).1.active_file ≡ s.active_file
  record_at-active disk path bytes s (some old) = elim (Bool-cases disk.run_readable) [
    | inl r ↦ rw r refl
    | inr r ↦ rw r refl
  ]
  record_at-active disk path bytes s none = elim (outcome-cases disk.run_write) [
    | inl r ↦ rw r refl
    | inr (inl r) ↦ rw r refl
    | inr (inr r) ↦ rw r refl
  ]

  pub record_run-active :
      (disk : Disk) (m : IngestionManifest) (s : Storage)
      → (record_run lib formats disk m s).1.active_file ≡ s.active_file
  unfolding record_run run_path
  record_run-active disk m s =
      elim (Bool-cases (is_empty (strip lib.is_space m.ingestion_run_id))) [
        | inl blank ↦ rw blank refl
        | inr filled ↦ rw filled (record_at-active disk _ _ s _)
      ]

  pointer_after :
      (disk : Disk) (m : IngestionManifest) (r : Result (Unit {0}) × Storage) (s' : Storage)
      (error : Exception)
      → disk.pointer_write ≢ failed_after
      → after r (λ _ s.
        after
          (atomic_write disk.pointer_write (put_active lib formats m) s)
          (λ _ s. (ok (pointer_to lib formats m), s)))
        ≡ (raise error, s')
      → s'.active_file ≡ r.1.active_file
  pointer_after disk m (raise e, s) s' error clean h = ap (λ q. q.1.active_file) (sym h)
  pointer_after disk m (ok _, s) s' error clean h = elim (outcome-cases disk.pointer_write) [
    | inl r ↦ absurd (let bad = rw r at h in cc)
    | inr (inl r) ↦ ap (λ q. q.1.active_file) (sym (rw r at h))
    | inr (inr r) ↦ absurd (clean r)
  ]

  -- An activation that raises leaves the file of the pointer as it was, unless the write of that very
  -- file failed after the file had been replaced.
  pub failed_activation_keeps_pointer :
      (disk : Disk) (m : IngestionManifest) (s s' : Storage) (error : Exception)
      → disk.pointer_write ≢ failed_after
      → activate lib formats disk m s ≡ (raise error, s')
      → s'.active_file ≡ s.active_file
  unfolding activate
  failed_activation_keeps_pointer disk m s s' error clean h =
      elim (Bool-cases (is_active m.activation_status)) [
        | inr off ↦ ap (λ q. q.1.active_file) (sym (rw off at h))
        | inl on ↦
            pointer_after disk m (record_run lib formats disk m s) s' error clean (rw on at h)
            ∙ record_run-active disk m s
      ]
