-- ===== src/Storage/Clean.antt =====
-- What a diagnosis of crates/store/src/storage.rs leaves on the disk.
use wiki_next.Base.{
  ℕ, ◌≡◌, refl, sym, ◌∙◌, ◌⊎◌, inl, inr, List, Bool, true, false, Bool-cases, ok, err, Result-cases,
}
use wiki_next.Config.Types.{IoError, not_found}
use wiki_next.Paths.{PathBuf, join}
use wiki_next.Storage.{not_writable, LocalStorage, DiskApi, status, probe_writable, diagnose}

-- The file system, by what it says of a path. Many paths lead to one file: some hold `..` or a
-- link, some go on behind its name. `leads other path disk` says that the lookup of `other` comes to
-- the entry that `path` names; where that entry is missing, so is `other`. A file that is opened as
-- new was not there, and a failure opens none. Making, writing and removing a file leave every
-- directory as it is, so that each lookup takes the way that it took, and those that do not come to
-- the entry end as they did.
pub record IsLawfulDisk (D : DiskApi) : Type 0 where
  pub leads : PathBuf → PathBuf → D.Disk → Bool
  pub missing :
      (path other : PathBuf) (disk : D.Disk)
      → leads other path disk ≡ true
      → D.symlink_metadata path disk ≡ err not_found
      → D.symlink_metadata other disk ≡ err not_found
  pub created :
      (path : PathBuf) (disk : D.Disk)
      → (D.create_new path disk).0 ≡ ok tt
      → D.symlink_metadata path disk ≡ err not_found
  pub not_created :
      (path other : PathBuf) (disk : D.Disk) {e : IoError}
      → (D.create_new path disk).0 ≡ err e
      → D.symlink_metadata other (D.create_new path disk).1 ≡ D.symlink_metadata other disk
  pub create_leads :
      (path other : PathBuf) (disk : D.Disk)
      → leads other path (D.create_new path disk).1 ≡ leads other path disk
  pub create_kept :
      (path other : PathBuf) (disk : D.Disk)
      → leads other path disk ≡ false
      → D.symlink_metadata other (D.create_new path disk).1 ≡ D.symlink_metadata other disk
  pub sync_leads :
      (path other : PathBuf) (disk : D.Disk)
      → leads other path (D.sync_all path disk).1 ≡ leads other path disk
  pub sync_kept :
      (path other : PathBuf) (disk : D.Disk)
      → D.symlink_metadata other (D.sync_all path disk).1 ≡ D.symlink_metadata other disk
  pub removed :
      (path : PathBuf) (disk : D.Disk)
      → (D.remove_file path disk).0 ≡ ok tt
      → D.symlink_metadata path (D.remove_file path disk).1 ≡ err not_found
  pub remove_leads :
      (path other : PathBuf) (disk : D.Disk)
      → leads other path (D.remove_file path disk).1 ≡ leads other path disk
  pub remove_kept :
      (path other : PathBuf) (disk : D.Disk)
      → leads other path disk ≡ false
      → D.symlink_metadata other (D.remove_file path disk).1 ≡ D.symlink_metadata other disk

module _ (D : DiskApi) where
  abbrev pub IsKept : PathBuf → D.Disk → D.Disk → Type 0
  IsKept path disk disk' = D.symlink_metadata path disk' ≡ D.symlink_metadata path disk

  -- A path that leads to the file of the probe, where its removal, the last step, has failed.
  abbrev pub IsLeft : IsLawfulDisk D → PathBuf → D.Disk → D.Disk → PathBuf → Type 0
  IsLeft L probe disk disk' path =
      (L.leads path probe disk ≡ true)
      × (between : D.Disk) × (e : IoError) × ((D.remove_file probe between).0 ≡ err e)
      × (disk' ≡ (D.remove_file probe between).1)

module _ (D : DiskApi) (L : IsLawfulDisk D) (name : List ℕ) (directory : PathBuf) where
  abbrev probe : PathBuf
  probe = join directory name

  -- The file is made, written to the disk, and removed.
  removal-IsKept :
      (disk : D.Disk) (path : PathBuf)
      → (D.create_new probe disk).0 ≡ ok tt
      → IsKept D path disk (D.remove_file probe (D.sync_all probe (D.create_new probe disk).1).1).1
        ⊎ ((L.leads path probe disk ≡ true)
            × (e : IoError) × ((D.remove_file probe
                  (D.sync_all probe (D.create_new probe disk).1).1).0
                ≡ err e))
  removal-IsKept disk path made =
      let opened = (D.create_new probe disk).1 in
      let written = (D.sync_all probe opened).1 in
      let way = L.sync_leads probe path opened ∙ L.create_leads probe path disk in
      elim (Bool-cases (L.leads path probe disk)) [
        | inr differs ↦ inl (
            L.remove_kept probe path written (way ∙ differs)
            ∙ L.sync_kept probe path opened
            ∙ L.create_kept probe path disk differs)
        | inl same ↦ elim (Result-cases (D.remove_file probe written).0) [
          | inr (e, failed) ↦ inr (same, e, failed)
          | inl (u, gone) ↦
              let after =
                L.missing probe path (D.remove_file probe written).1
                  (L.remove_leads probe path written ∙ way ∙ same) (L.removed probe written gone) in
              let before = L.missing probe path disk same (L.created probe disk made) in
              inl (after ∙ sym before)
        ]
      ]

  probe_writable-IsKept :
      (disk : D.Disk) (path : PathBuf)
      → IsKept D path disk (probe_writable D name directory disk).1
        ⊎ (((e : IoError) × ((probe_writable D name directory disk).0
                ≡ err (not_writable directory e)))
            × IsLeft D L probe disk (probe_writable D name directory disk).1 path)
  unfolding probe_writable
  probe_writable-IsKept disk path = elim (Result-cases (D.create_new probe disk).0) [
    | inr (e, failed) ↦ inl (rw failed (L.not_created probe path disk failed))
    | inl (u, made) ↦
        let opened = (D.create_new probe disk).1 in
        let written = (D.sync_all probe opened).1 in
        elim (Result-cases (D.sync_all probe opened).0) [
          | inl (v, synced) ↦ elim (removal-IsKept disk path made) [
            | inl kept ↦ inl (rw (made, synced) kept)
            | inr (at, e, failed) ↦
                inr (rw (made, synced, failed) ((e, refl), (at, written, e, failed, refl)))
          ]
          | inr (p, synced) ↦ elim (removal-IsKept disk path made) [
            | inl kept ↦ inl (rw (made, synced) kept)
            | inr (at, e, failed) ↦
                inr (rw (made, synced) ((p, refl), (at, written, e, failed, refl)))
          ]
        ]
  ]

-- After a diagnosis every path is what it was before, whether the diagnosis succeeds or fails. Only
-- the file of the probe may be left, where its removal has failed, so that the paths that lead to it
-- may differ, and then the diagnosis says that the temporary directory is not writable.
pub diagnose_clean :
    (D : DiskApi) (L : IsLawfulDisk D) (name : List ℕ) (storage : LocalStorage) (disk : D.Disk)
    (path : PathBuf)
    → IsKept D path disk (diagnose D name storage disk).1
      ⊎ (((e : IoError) × ((diagnose D name storage disk).0
              ≡ err (not_writable storage.temporary e)))
          × IsLeft D L (join storage.temporary name) disk (diagnose D name storage disk).1 path)
unfolding diagnose
diagnose_clean D L name storage disk path = elim (Result-cases (status D storage disk)) [
  | inr (e, failed) ↦ inl (rw failed refl)
  | inl (found, checked) ↦ elim (probe_writable-IsKept D L name storage.temporary disk path) [
    | inr ((e, refused), left) ↦ inr (rw (checked, refused) ((e, refl), left))
    | inl kept ↦ elim (Result-cases (probe_writable D name storage.temporary disk).0) [
      | inl (u, written) ↦ inl (rw (checked, written) kept)
      | inr (p, refused) ↦ inl (rw (checked, refused) kept)
    ]
  ]
]
