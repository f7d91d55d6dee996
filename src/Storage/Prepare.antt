-- ===== src/Storage/Prepare.antt =====
-- What a storage that `prepare` of crates/store/src/storage.rs returns has gone through.
use wiki_next.Base.{ℕ, ◌≡◌, refl, inl, inr, true, List, [], arith, ok, Result-cases}
use wiki_next.Base.Text.{codes}
use wiki_next.Paths.{PathBuf, join, same_path}
use wiki_next.Storage.{
  StorageStatus, LocalStorage, DiskApi, Checked, absolute_storage_path, inspect_ancestors_from,
  inspect_existing_ancestors, ensure_directory, status, probe_writable, diagnose, prepare_in,
  prepare, and_then, reading, canonical,
}
use wiki_next.Storage.Private.{IsPrivate, status_iff, AreReal, inspect_ancestors_from_iff}

module _ (D : DiskApi) where
  and_then-ok :
      {A B : Type 0} (step : D.Disk → Checked A × D.Disk) (next : A → D.Disk → Checked B × D.Disk)
      (disk disk' : D.Disk) (b : B)
      → and_then D step next disk ≡ (ok b, disk')
      → (a : A) × (between : D.Disk) × (step disk ≡ (ok a, between))
        × (next a between ≡ (ok b, disk'))
  and_then-ok step next disk disk' b h = elim (Result-cases (step disk).0) [
    | inl (a, e) ↦ (a, (step disk).1, ground arith, ground arith)
    | inr (p, e) ↦ ground arith
  ]

  -- The file of the probe is opened as new, written to the disk, and removed.
  abbrev pub IsProbed : List ℕ → PathBuf → D.Disk → D.Disk → Type 0
  IsProbed name directory before after =
      (opened : D.Disk) × (written : D.Disk) × (D.create_new (join directory name) before
        ≡ (ok tt, opened))
      × (D.sync_all (join directory name) opened ≡ (ok tt, written))
      × (D.remove_file (join directory name) written ≡ (ok tt, after))

  probe_writable-IsProbed :
      (name : List ℕ) (directory : PathBuf) (before after : D.Disk)
      → probe_writable D name directory before ≡ (ok tt, after)
      → IsProbed name directory before after
  unfolding probe_writable
  probe_writable-IsProbed name directory before after h =
      let probe = join directory name in
      let opened = (D.create_new probe before).1 in
      let written = (D.sync_all probe opened).1 in
      elim (Result-cases (D.create_new probe before).0) [
        | inr (e, failed) ↦ ground arith
        | inl (u, made) ↦ elim (Result-cases (D.sync_all probe opened).0) [
          | inr (e, failed) ↦ ground arith
          | inl (v, synced) ↦ elim (Result-cases (D.remove_file probe written).0) [
            | inr (e, failed) ↦ ground arith
            | inl (w, gone) ↦
                let last : (D.remove_file probe written).1 ≡ after = ground arith in
                (
                  opened,
                  written,
                  λ i. (made i, opened),
                  λ i. (synced i, written),
                  λ i. (gone i, last i),
                )
          ]
        ]
      ]

  diagnose-IsPrivate :
      (name : List ℕ) (storage : LocalStorage) (disk disk' : D.Disk) (found : StorageStatus)
      → diagnose D name storage disk ≡ (ok found, disk')
      → IsPrivate D storage.root disk
        × IsPrivate D (join storage.root (codes "blobs")) disk
        × IsPrivate D storage.temporary disk
        × IsProbed name storage.temporary disk disk'
  unfolding diagnose
  diagnose-IsPrivate name storage disk disk' found h =
      let (seen, d1, e1, h1) = and_then-ok (reading D (status D storage)) _ disk disk' found h in
      let (u, d2, e2, h2) =
        and_then-ok (probe_writable D name storage.temporary) _ d1 disk' found h1 in
      let checked : status D storage disk ≡ ok seen = ground arith in
      let (root, blobs, temporary, same) = (status_iff D storage disk seen).0 checked in
      let probed : probe_writable D name storage.temporary disk ≡ (ok tt, disk') = ground arith in
      (root, blobs, temporary, probe_writable-IsProbed name storage.temporary disk disk' probed)

  abbrev pub IsMade : List ℕ → D.Disk → LocalStorage → Type 0
  IsMade name disk' storage =
      (before : D.Disk) × IsPrivate D storage.root before
      × IsPrivate D (join storage.root (codes "blobs")) before
      × IsPrivate D (join storage.root (codes "tmp")) before
      × IsProbed name (join storage.root (codes "tmp")) before disk'

  prepare_in-IsMade :
      (name : List ℕ) (root : PathBuf) (disk disk' : D.Disk) (storage : LocalStorage)
      → prepare_in D name root disk ≡ (ok storage, disk')
      → (storage.root ≡ root) × IsMade name disk' storage
  unfolding prepare_in
  prepare_in-IsMade name root disk disk' storage h =
      let (u1, d1, e1, h1) =
        and_then-ok (ensure_directory D (join root (codes "blobs"))) _ disk disk' storage h in
      let (u2, d2, e2, h2) =
        and_then-ok (ensure_directory D (join root (codes "tmp"))) _ d1 disk' storage h1 in
      let made : LocalStorage = record { root = root; temporary = join root (codes "tmp") } in
      let (u3, d3, e3, h3) = and_then-ok (diagnose D name made) _ d2 disk' storage h2 in
      let passed = diagnose-IsPrivate name made d2 d3 u3 e3 in
      let same : made ≡ storage = ground arith in
      let last : d3 ≡ disk' = ground arith in
      let (private_root, private_blobs, private_temporary, probed) = passed in
      rw (← same, ← last) (refl, (d2, private_root, private_blobs, private_temporary, probed))

  same_path-canonical :
      (requested root : PathBuf) (disk : D.Disk) (found : PathBuf)
      → canonical D requested root disk ≡ ok found
      → same_path found root ≡ true
  same_path-canonical requested root disk found h = elim (Result-cases (D.canonicalize root disk)) [
    | inl (f, e) ↦ ground arith
    | inr (p, e) ↦ ground arith
  ]

  -- A storage that `prepare` returns has its three directories made: on the disk before the last
  -- probe they are directories themselves, not links, with the rights 0o700, and the probe has
  -- written and removed its file in the temporary one. The root is the absolute form of the path
  -- that was asked for, and none of it was a link or a file at the start, down to the first part
  -- that was missing.
  pub prepare-IsMade :
      (name : List ℕ) (requested : PathBuf) (disk disk' : D.Disk) (storage : LocalStorage)
      → prepare D name requested disk ≡ (ok storage, disk')
      → (root : PathBuf) × (absolute_storage_path D requested disk ≡ ok root)
        × AreReal D root [] disk
        × (same_path storage.root root ≡ true)
        × IsMade name disk' storage
  unfolding prepare inspect_existing_ancestors
  prepare-IsMade name requested disk disk' storage h =
      let (root, d1, e1, h1) =
        and_then-ok (reading D (absolute_storage_path D requested)) _ disk disk' storage h in
      let (u2, d2, e2, h2) =
        and_then-ok (reading D (inspect_existing_ancestors D root)) _ d1 disk' storage h1 in
      let (u3, d3, e3, h3) = and_then-ok (ensure_directory D root) _ d2 disk' storage h2 in
      let (found, d4, e4, h4) =
        and_then-ok (reading D (canonical D requested root)) _ d3 disk' storage h3 in
      let absolute : absolute_storage_path D requested disk ≡ ok root = ground arith in
      let passed : inspect_ancestors_from D root [] disk ≡ ok tt = ground arith in
      let canon : canonical D requested root d3 ≡ ok found = ground arith in
      let (at, made) = prepare_in-IsMade name found d4 disk' storage h4 in
      (
        root,
        absolute,
        (inspect_ancestors_from_iff D root [] disk).0 passed,
        rw at (same_path-canonical requested root d3 found canon),
        made,
      )
