-- ===== src/Storage/Private.antt =====
-- What the checks of crates/store/src/storage.rs establish before and after anything is written.
use wiki_next.Base.{
  ℕ, ◌%◌, ◌≡◌, refl, ◌↔◌, ◌⊎◌, inl, inr, true, false, List, [], ◌∷◌, arith, Result, ok, err,
  Result-cases,
}
use wiki_next.Config.Types.{IoError, not_found, other}
use wiki_next.Base.Text.{codes}
use wiki_next.Paths.{Component, PathBuf, push, join}
use wiki_next.Storage.{
  StorageStatus, StorageError, LocalStorage, Metadata, DiskApi, validate_metadata,
  validate_directory_permissions, absolute_storage_path, inspect_ancestors_from,
  inspect_existing_ancestors, inspect_private_directory, status, prepare,
}

read_cases :
    {A : Type 0} (r : Result IoError A)
    → ((a : A) × (r ≡ ok a)) ⊎ (r ≡ err not_found) ⊎ ((code : ℕ) × (r ≡ err (other code)))
read_cases (ok a) = inl (a, refl)
read_cases (err not_found) = inr (inl refl)
read_cases (err (other code)) = inr (inr (code, refl))

module _ (D : DiskApi) where
  -- The path itself is a directory, and no link to one.
  abbrev pub IsRealDirectory : PathBuf → D.Disk → Metadata → Type 0
  IsRealDirectory path disk m =
      (D.symlink_metadata path disk ≡ ok m) × (m.is_symlink ≡ false) × (m.is_dir ≡ true)

  -- Its owner alone has all rights: 0o700.
  abbrev pub IsPrivate : PathBuf → D.Disk → Type 0
  IsPrivate path disk = (m : Metadata) × IsRealDirectory path disk m × (m.mode % 4096 ≡ 448)

  validate_metadata_iff :
      (path : PathBuf) (m : Metadata)
      → (validate_metadata path m ≡ ok tt) ↔ ((m.is_symlink ≡ false) × (m.is_dir ≡ true))
  unfolding validate_metadata
  validate_metadata_iff path m = (λ h. ground arith, λ (link, dir). ground arith)

  inspect_private_directory_iff :
      (path : PathBuf) (disk : D.Disk)
      → (inspect_private_directory D path disk ≡ ok tt) ↔ IsPrivate path disk
  unfolding inspect_private_directory validate_directory_permissions
  inspect_private_directory_iff path disk = (
    λ h. elim (Result-cases (D.symlink_metadata path disk)) [
      | inr (e, failed) ↦ ground arith
      | inl (m, found) ↦ elim (Result-cases (validate_metadata path m)) [
        | inr (e, refused) ↦ ground arith
        | inl (tt, valid) ↦
            let (link, dir) = (validate_metadata_iff path m).0 valid in
            (m, (found, link, dir), ground arith)
      ]
    ],
    λ (m, (found, link, dir), mode).
        let valid = (validate_metadata_iff path m).1 (link, dir) in ground arith,
  )

  -- The status is returned exactly where the root, its `blobs` and the temporary directory are
  -- directories themselves, not links to one, with the rights 0o700. It then names the root.
  pub status_iff :
      (storage : LocalStorage) (disk : D.Disk) (found : StorageStatus)
      → (status D storage disk ≡ ok found) ↔ (
          IsPrivate storage.root disk
          × IsPrivate (join storage.root (codes "blobs")) disk
          × IsPrivate storage.temporary disk
          × (found.root ≡ storage.root))
  unfolding status
  status_iff storage disk found = (
    λ h. elim (Result-cases (inspect_private_directory D storage.root disk)) [
      | inr (e, refused) ↦ ground arith
      | inl (u, root) ↦
          elim (Result-cases
            (inspect_private_directory D (join storage.root (codes "blobs")) disk)) [
              | inr (e, refused) ↦ ground arith
              | inl (v, blobs) ↦
                  elim (Result-cases (inspect_private_directory D storage.temporary disk)) [
                    | inr (e, refused) ↦ ground arith
                    | inl (w, temporary) ↦ (
                      (inspect_private_directory_iff storage.root disk).0 root,
                      (inspect_private_directory_iff (join storage.root (codes "blobs")) disk).0
                          blobs,
                      (inspect_private_directory_iff storage.temporary disk).0 temporary,
                      ground arith,
                    )
                  ]
            ]
    ],
    λ (root, blobs, temporary, same).
        let root' = (inspect_private_directory_iff storage.root disk).1 root in
        let blobs' =
          (inspect_private_directory_iff (join storage.root (codes "blobs")) disk).1 blobs in
        let temporary' = (inspect_private_directory_iff storage.temporary disk).1 temporary in
        ground arith,
  )

  -- Down the path, the directories are real up to the end or to the first that is missing.
  abbrev pub AreReal : List Component → PathBuf → D.Disk → Type 0
  AreReal [] current disk = Unit
  AreReal (c ∷ rest) current disk =
      (D.symlink_metadata (push current c) disk ≡ err not_found)
      ⊎ ((m : Metadata) × IsRealDirectory (push current c) disk m
          × AreReal rest (push current c) disk)

  pub inspect_ancestors_from_iff :
      (path : List Component) (current : PathBuf) (disk : D.Disk)
      → (inspect_ancestors_from D path current disk ≡ ok tt) ↔ AreReal path current disk
  unfolding inspect_ancestors_from
  inspect_ancestors_from_iff [] current disk = (λ h. tt, λ h. refl)
  inspect_ancestors_from_iff (c ∷ rest) current disk =
      let further = inspect_ancestors_from_iff rest (push current c) disk in
      elim (read_cases (D.symlink_metadata (push current c) disk)) [
        | inl (m, found) ↦ (
          λ h. elim (Result-cases (validate_metadata (push current c) m)) [
            | inr (e, refused) ↦ ground arith
            | inl (u, valid) ↦
                let (link, dir) = (validate_metadata_iff (push current c) m).0 valid in
                inr (m, (found, link, dir), further.0 (ground arith))
          ],
          λ h. elim h [
            | inl missing ↦ ground arith
            | inr (m', (found', link, dir), real) ↦
                let valid = (validate_metadata_iff (push current c) m').1 (link, dir) in
                let passed = further.1 real in ground arith
          ],
        )
        | inr (inl missing) ↦ (λ h. inl missing, λ h. ground arith)
        | inr (inr (code, failed)) ↦ (
          λ h. ground arith,
          λ h. elim h [
            | inl missing ↦ ground arith
            | inr (m, (found, link, dir), real) ↦ ground arith
          ],
        )
      ]

  -- A path that has no absolute form, or whose absolute form leads through a link or a file, is
  -- refused, and nothing has been written by then.
  pub prepare_rejects :
      (name : List ℕ) (requested : PathBuf) (disk : D.Disk)
      → ((root : PathBuf)
          → absolute_storage_path D requested disk ≡ ok root
          → ¬ AreReal root [] disk)
      → (e : StorageError) × (prepare D name requested disk ≡ (err e, disk))
  unfolding prepare inspect_existing_ancestors
  prepare_rejects name requested disk refused =
      elim (Result-cases (absolute_storage_path D requested disk)) [
        | inr (e, unsafe) ↦ (e, ground arith)
        | inl (root, absolute) ↦ elim (Result-cases (inspect_ancestors_from D root [] disk)) [
          | inl (u, passed) ↦
              elim (refused root absolute ((inspect_ancestors_from_iff root [] disk).0 passed)) [ ]
          | inr (e, stopped) ↦ (e, ground arith)
        ]
      ]
