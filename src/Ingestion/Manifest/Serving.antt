-- ===== src/Ingestion/Manifest/Serving.antt =====
-- Runs are immutable, an activated run is the one that is loaded, and no failure changes what is
-- served.
use oss.Prelude.{
  true, false, Option, none, some, ◌≡◌, refl, sym, ◌∙◌, ap, subst, ◌⊎◌, inl, inr, Bool-cases,
}
use oss.Prelude.Text.{Text, same_text, same_text-eq, same_text_refl, is_empty}
use oss.Core.Errors.{Result, ok, raise}
use oss.Core.Ids.{TextLibrary, strip}
use oss.Ingestion.Manifest.{
  IngestionManifest, ActiveCorpusPointer, Formats, Storage, Disk, WriteOutcome, written,
  failed_before, failed_after, is_active, lookup, run_path, record_run, activate, load_run,
  load_active, after, atomic_write, matched, load_pointed, pointer_to, put_active, put_run,
  record_at, load_model,
}

-- Parsing gives back what was written of a manifest and its pointer.
pub record IsReadBack (formats : Formats) (m : IngestionManifest) (p : ActiveCorpusPointer)
    : Type 0 where
  pub manifest : formats.manifest_of (formats.manifest_bytes m) ≡ some m
  pub pointer : formats.pointer_of (formats.pointer_bytes p) ≡ some p

-- A disk without faults.
abbrev pub sound_disk : Disk
sound_disk = record {
  run_readable = true;
  pointer_readable = true;
  run_write = written;
  pointer_write = written;
  unlinked = true;
}

pub outcome-cases : (w : WriteOutcome) → (w ≡ written) ⊎ ((w ≡ failed_before) ⊎ (w ≡ failed_after))
outcome-cases written = inl refl
outcome-cases failed_before = inr (inl refl)
outcome-cases failed_after = inr (inr refl)

module _ (lib : TextLibrary) (formats : Formats) where
  -- A file that is written where there was none leaves the others.
  put_run-keeps :
      (path name bytes b : Text) (s : Storage)
      → lookup path s.runs ≡ none
      → lookup name s.runs ≡ some b
      → lookup name (put_run lib formats path bytes s).runs ≡ some b
  unfolding lookup
  put_run-keeps path name bytes b s free known = elim (Bool-cases (same_text path name)) [
    | inr apart ↦ rw apart known
    | inl same ↦
        absurd
          (let e = subst (λ n. lookup n s.runs ≡ none) (same_text-eq path name same) free in cc)
  ]

  record_at-keeps :
      (disk : Disk) (path name bytes b : Text) (s : Storage) (found : Option Text)
      → lookup path s.runs ≡ found
      → lookup name s.runs ≡ some b
      → lookup name (record_at lib formats disk path bytes found s).1.runs ≡ some b
  record_at-keeps disk path name bytes b s (some old) e known =
      elim (Bool-cases disk.run_readable) [ inl r ↦ rw r known | inr r ↦ rw r known ]
  record_at-keeps disk path name bytes b s none e known = elim (outcome-cases disk.run_write) [
    | inl r ↦ rw r (put_run-keeps path name bytes b s e known)
    | inr (inl r) ↦ rw r known
    | inr (inr r) ↦ rw r (put_run-keeps path name bytes b s e known)
  ]

  pub record_run-keeps :
      (disk : Disk) (m : IngestionManifest) (s : Storage) (name b : Text)
      → lookup name s.runs ≡ some b
      → lookup name (record_run lib formats disk m s).1.runs ≡ some b
  unfolding record_run run_path
  record_run-keeps disk m s name b known =
      elim (Bool-cases (is_empty (strip lib.is_space m.ingestion_run_id))) [
        | inl blank ↦ rw blank known
        | inr filled ↦ rw filled (
            record_at-keeps disk (formats.sha256 m.ingestion_run_id) name (formats.manifest_bytes m)
              b s _ refl known)
      ]

  kept_after :
      (disk : Disk) (m : IngestionManifest) (r : Result (Unit {0}) × Storage) (name b : Text)
      → lookup name r.1.runs ≡ some b
      → lookup name
          (after r (λ _ s.
            after
              (atomic_write disk.pointer_write (put_active lib formats m) s)
              (λ _ s. (ok (pointer_to lib formats m), s)))).1.runs
        ≡ some b
  kept_after disk m (raise e, s) name b known = known
  kept_after disk m (ok _, s) name b known = elim (outcome-cases disk.pointer_write) [
    | inl r ↦ rw r known
    | inr (inl r) ↦ rw r known
    | inr (inr r) ↦ rw r known
  ]

  -- The record of a run is never rewritten: whatever an activation and the disk do, a file of a run
  -- keeps its bytes.
  pub activate_keeps_runs :
      (disk : Disk) (m : IngestionManifest) (s : Storage) (name b : Text)
      → lookup name s.runs ≡ some b
      → lookup name (activate lib formats disk m s).1.runs ≡ some b
  unfolding activate
  activate_keeps_runs disk m s name b known = elim (Bool-cases (is_active m.activation_status)) [
    | inr off ↦ rw off known
    | inl on ↦ rw on (
        kept_after disk m (record_run lib formats disk m s) name b
          (record_run-keeps disk m s name b known))
  ]

  -- What a run that is recorded leaves on the disk.
  record IsRecorded (m : IngestionManifest) (s : Storage) : Type 0 where
    pub named : is_empty (strip lib.is_space m.ingestion_run_id) ≡ false
    pub stored : lookup (formats.sha256 m.ingestion_run_id) s.runs ≡ some (formats.manifest_bytes m)

  record_at-stores :
      (disk : Disk) (path bytes : Text) (s : Storage) (found : Option Text)
      → lookup path s.runs ≡ found
      → (record_at lib formats disk path bytes found s).0 ≡ ok tt
      → lookup path (record_at lib formats disk path bytes found s).1.runs ≡ some bytes
  unfolding lookup
  record_at-stores disk path bytes s (some old) e h = elim (Bool-cases disk.run_readable) [
    | inr r ↦ absurd (let bad = rw r at h in cc)
    | inl r ↦ elim (Bool-cases (same_text old bytes)) [
      | inl same ↦ rw r (e ∙ ap some (same_text-eq old bytes same))
      | inr apart ↦ absurd (let bad = rw (r, apart) at h in cc)
    ]
  ]
  record_at-stores disk path bytes s none e h = elim (outcome-cases disk.run_write) [
    | inl r ↦ rw (r, same_text_refl path) refl
    | inr (inl r) ↦ absurd (let bad = rw r at h in cc)
    | inr (inr r) ↦ absurd (let bad = rw r at h in cc)
  ]

  record_run-stores :
      (disk : Disk) (m : IngestionManifest) (s : Storage)
      → (record_run lib formats disk m s).0 ≡ ok tt
      → IsRecorded m (record_run lib formats disk m s).1
  unfolding record_run run_path
  record_run-stores disk m s h =
      elim (Bool-cases (is_empty (strip lib.is_space m.ingestion_run_id))) [
        | inl blank ↦ absurd (let bad = rw blank at h in cc)
        | inr filled ↦ record {
          named = filled;
          stored = rw filled (
              record_at-stores disk (formats.sha256 m.ingestion_run_id) (formats.manifest_bytes m) s
                _ refl (rw filled at h));
        }
      ]

  load_recorded :
      (m : IngestionManifest) (s : Storage)
      → formats.manifest_of (formats.manifest_bytes m) ≡ some m
      → IsRecorded m s
      → load_run lib formats sound_disk m.ingestion_run_id s ≡ ok m
  unfolding load_run run_path load_model
  load_recorded m s parsed r = rw (r.named, r.stored, parsed) refl

  record IsServed (m : IngestionManifest) (p : ActiveCorpusPointer) (s : Storage) : Type 0 where
    pub pointed : p ≡ pointer_to lib formats m
    pub active : is_active m.activation_status ≡ true
    pub recorded : IsRecorded m s
    pub file : s.active_file ≡ some (formats.pointer_bytes p)

  after-IsServed :
      (disk : Disk) (m : IngestionManifest)
      → is_active m.activation_status ≡ true
      → (r : Result (Unit {0}) × Storage) → (r.0 ≡ ok tt → IsRecorded m r.1)
      → (s' : Storage) (p : ActiveCorpusPointer)
      → after r (λ _ s.
        after
          (atomic_write disk.pointer_write (put_active lib formats m) s)
          (λ _ s. (ok (pointer_to lib formats m), s)))
        ≡ (ok p, s')
      → IsServed m p s'
  after-IsServed disk m on (raise e, s) stored s' p h = absurd (cc)
  after-IsServed disk m on (ok tt, s) stored s' p h = elim (outcome-cases disk.pointer_write) [
    | inr (inl r) ↦ absurd (let bad = rw r at h in cc)
    | inr (inr r) ↦ absurd (let bad = rw r at h in cc)
    | inl r ↦
        let same = rw r at h in
        let before = stored refl in
        let kept : IsRecorded m (put_active lib formats m s) = record {
          named = before.named;
          stored = before.stored;
        } in
        record {
          pointed = cc;
          active = on;
          recorded = subst (IsRecorded m) (ap (λ q. q.1) same) kept;
          file =
              sym (ap (λ q. q.1.active_file) same) ∙ ap (λ q. some (formats.pointer_bytes q)) (cc);
        }
  ]

  activate-IsServed :
      (disk : Disk) (m : IngestionManifest) (s s' : Storage) (p : ActiveCorpusPointer)
      → activate lib formats disk m s ≡ (ok p, s')
      → IsServed m p s'
  unfolding activate
  activate-IsServed disk m s s' p h = elim (Bool-cases (is_active m.activation_status)) [
    | inr off ↦ absurd (let bad = rw off at h in cc)
    | inl on ↦
        after-IsServed disk m on (record_run lib formats disk m s) (record_run-stores disk m s) s' p
          (rw on at h)
  ]

  -- Once a run is activated, the repository loads its pointer and its manifest.
  pub activate_then_load :
      (disk : Disk) (m : IngestionManifest) (s s' : Storage) (p : ActiveCorpusPointer)
      → IsReadBack formats m p
      → activate lib formats disk m s ≡ (ok p, s')
      → load_active lib formats sound_disk s' ≡ ok (p, m)
  unfolding load_active load_pointed matched load_model
  activate_then_load disk m s s' p json h =
      let served = activate-IsServed disk m s s' p h in
      rw
        (
          served.file,
          json.pointer,
          served.pointed,
          load_recorded m s' json.manifest served.recorded,
          same_text_refl m.corpus_version,
          same_text_refl (formats.manifest_sha256 m),
          served.active,
        )
        refl
