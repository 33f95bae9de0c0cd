-- ===== src/Ingestion/Manifest/Discard.antt =====
-- Discarding runs never changes what is served.
use oss.Prelude.{false, List, [], ◌∷◌, ◌≡◌, refl, sym, ◌∙◌, ap, subst, ◌⊎◌, inl, inr, Bool-cases}
use oss.Prelude.Text.{Text, same_text, same_text-eq, same_text_refl, is_empty}
use oss.Core.Errors.{returned_first, raise_if, ◌>>=◌, Result, ok, raise}
use oss.Core.Ids.{TextLibrary, strip}
use oss.Ingestion.Manifest.{
  IngestionManifest, ActiveCorpusPointer, Formats, Storage, Disk, lookup, without, run_path,
  load_run, load_active, discard, unlink_run, matched, load_pointed, discard_given, load_model,
}

-- Other files keep their bytes when one is removed.
lookup-without :
    (name other : Text) (files : List (Text × Text))
    → same_text other name ≡ false
    → lookup name (without other files) ≡ lookup name files
unfolding lookup without
lookup-without name other [] h = refl
lookup-without name other ((n, b) ∷ files) h =
    let rest = lookup-without name other files h in
    elim (Bool-cases (same_text n other)) [
      | inr apart ↦ rw (apart, rest) refl
      | inl same ↦
          let e = same_text-eq n other same in
          rw (same, rest, subst (λ m. same_text m name ≡ false) (sym e) h) refl
    ]

module _ (lib : TextLibrary) (formats : Formats) where
  -- What loads is what the pointer names.
  matched-pointer :
      (q p : ActiveCorpusPointer) (m : IngestionManifest) (r : Result IngestionManifest)
      → (r >>= λ n. matched lib formats q n) ≡ ok (p, m)
      → q ≡ p
  unfolding matched
  matched-pointer q p m (raise e) h = absurd (cc)
  matched-pointer q p m (ok n) h =
      let (_, h', _) = returned_first (λ _. ok (q, n)) (raise_if _ _) (p, m) h in ap (λ x. x) (cc)

  load_run-runs :
      (disk : Disk) (run : Text) (s : Storage) (files : List (Text × Text))
      → lookup (formats.sha256 run) files ≡ lookup (formats.sha256 run) s.runs
      → load_run lib formats disk run (record s { runs = files }) ≡ load_run lib formats disk run s
  unfolding load_run run_path
  load_run-runs disk run s files same = elim (Bool-cases (is_empty (strip lib.is_space run))) [
    | inl blank ↦ rw blank refl
    | inr filled ↦ rw (filled, same) refl
  ]

  -- Files of other runs do not matter for what is served.
  load_active-runs :
      (disk : Disk) (s : Storage) (p : ActiveCorpusPointer) (m : IngestionManifest)
      (files : List (Text × Text))
      → load_active lib formats disk s ≡ ok (p, m)
      → lookup (formats.sha256 p.ingestion_run_id) files
        ≡ lookup (formats.sha256 p.ingestion_run_id) s.runs
      → load_active lib formats disk (record s { runs = files }) ≡ ok (p, m)
  unfolding load_active load_pointed
  load_active-runs disk s p m files h same =
      let (q, h', e) =
        returned_first (λ q. load_pointed lib formats disk s q)
          (load_model lib formats disk.pointer_readable formats.pointer_of s.active_file) (p, m)
          h in
      let known = matched-pointer q p m (load_run lib formats disk q.ingestion_run_id s) h' in
      rw (e, known)
        (ap (λ r. r >>= λ n. matched lib formats p n)
            (load_run-runs disk p.ingestion_run_id s files same)
          ∙ subst (λ q. load_pointed lib formats disk s q ≡ ok (p, m)) known h')

  unlink_run-cases :
      (disk : Disk) (run : Text) (s : Storage)
      → ((unlink_run lib formats disk run s).1 ≡ s)
        ⊎ ((unlink_run lib formats disk run s).1
            ≡ record s { runs = without (formats.sha256 run) s.runs })
  unfolding unlink_run run_path
  unlink_run-cases disk run s = elim (Bool-cases (is_empty (strip lib.is_space run))) [
    | inl blank ↦ inl (rw blank refl)
    | inr filled ↦ elim (Bool-cases disk.unlinked) [
      | inr stuck ↦ inl (rw (filled, stuck) refl)
      | inl gone ↦ inr (rw (filled, gone) refl)
    ]
  ]

  names_apart :
      (run served : Text)
      → same_text served run ≡ false
      → (formats.sha256 run ≡ formats.sha256 served → run ≡ served)
      → same_text (formats.sha256 run) (formats.sha256 served) ≡ false
  names_apart run served other apart =
      elim (Bool-cases (same_text (formats.sha256 run) (formats.sha256 served))) [
        | inr e ↦ e
        | inl e ↦
            let same = apart (same_text-eq _ _ e) in
            absurd (
              let bad = subst (λ n. same_text served n ≡ false) same other in
              let good = same_text_refl served in cc)
      ]

  discard_given-keeps :
      (disk : Disk) (run : Text) (s : Storage) (p : ActiveCorpusPointer) (m : IngestionManifest)
      → (r : Result (ActiveCorpusPointer × IngestionManifest)) → r ≡ ok (p, m)
      → load_active lib formats disk s ≡ ok (p, m)
      → (formats.sha256 run ≡ formats.sha256 p.ingestion_run_id → run ≡ p.ingestion_run_id)
      → load_active lib formats disk (discard_given lib formats disk run s r).1 ≡ ok (p, m)
  unfolding discard_given
  discard_given-keeps disk run s p m (raise e) known h apart = absurd (cc)
  discard_given-keeps disk run s p m (ok (q, n)) known h apart =
      elim (Bool-cases (same_text q.ingestion_run_id run)) [
        | inl same ↦ rw same h
        | inr other ↦ rw other (elim (unlink_run-cases disk run s) [
          | inl stays ↦ rw stays h
          | inr gone ↦
              let same : q ≡ p = cc in
              rw gone (
                load_active-runs disk s p m _ h (
                  lookup-without (formats.sha256 p.ingestion_run_id) (formats.sha256 run) s.runs (
                    names_apart run p.ingestion_run_id
                      (subst (λ q. same_text q.ingestion_run_id run ≡ false) same other) apart)))
        ])
      ]

  -- The served run cannot be discarded: whatever is discarded, a pointer and a manifest that load
  -- before load after it, provided that the names of the two runs do not collide.
  pub discard_keeps_served :
      (disk : Disk) (run : Text) (s : Storage) (p : ActiveCorpusPointer) (m : IngestionManifest)
      → load_active lib formats disk s ≡ ok (p, m)
      → (formats.sha256 run ≡ formats.sha256 p.ingestion_run_id → run ≡ p.ingestion_run_id)
      → load_active lib formats disk (discard lib formats disk run s).1 ≡ ok (p, m)
  unfolding discard
  discard_keeps_served disk run s p m h apart =
      discard_given-keeps disk run s p m (load_active lib formats disk s) h h apart
