-- ===== src/Storage.antt =====
-- crates/store/src/storage.rs: the local storage, over the file system of `tokio::fs`, on Unix.
pub mod Private
pub mod Prepare
pub mod Clean
pub mod Samples
mod FileSamples
mod UnitTests
use wiki_next.Base.{
  ℕ, zero, suc, ◌+◌, ◌-◌, ◌*◌, ◌%◌, ◌^◌, ◌≤◌, ◌<◌, String, ◌≡◌, refl, sym, ap, ◌∙◌, ◌≢◌, ◌↔◌, ◌⊎◌,
  inl, inr, Bool, true, false, not, ◌&&◌, ◌||◌, Option, none, some, List, [], ◌∷◌, ◌++◌, arith,
  ◌=ₛ◌, eq_iff, ltb, leb, ◌==◌, if◌then◌else◌, Bool-cases, Option-cases, is_some, is_none_or,
  is_some_and, all, any, All, Result, ok, err, ◌>>=◌, ◌>>◌, map_err, Result-cases,
}
use wiki_next.Config.Types.{IoError, not_found, other}
use wiki_next.Config.Validate.{reject_if}
use wiki_next.Base.Text.{codes}
use wiki_next.Paths.{
  Component, PathBuf, root_dir, cur_dir, parent_dir, normal, is_unsafe, is_absolute, push, join,
  parent, same_path,
}

pub record StorageStatus : Type 0 where
  pub root : PathBuf

pub data StorageError : Type 0 where
  create inspect not_writable : PathBuf → IoError → StorageError
  symlink not_directory unsafe_path : PathBuf → StorageError
  unsafe_permissions : PathBuf → ℕ → StorageError

pub record LocalStorage : Type 0 where
  pub root : PathBuf
  pub temporary : PathBuf

pub record Metadata : Type 0 where
  pub is_symlink : Bool
  pub is_dir : Bool
  pub mode : ℕ

-- The file system. The directories of `create_dir_all` get the mode 0o700.
pub record DiskApi : Type 1 where
  pub Disk : Type 0
  pub current_dir : Disk → Result IoError PathBuf
  pub symlink_metadata : PathBuf → Disk → Result IoError Metadata
  pub canonicalize : PathBuf → Disk → Result IoError PathBuf
  pub create_dir_all : PathBuf → Disk → Result IoError (Unit {0}) × Disk
  pub create_new : PathBuf → Disk → Result IoError (Unit {0}) × Disk
  pub sync_all : PathBuf → Disk → Result IoError (Unit {0}) × Disk
  pub remove_file : PathBuf → Disk → Result IoError (Unit {0}) × Disk

abbrev pub Checked : Type 0 → Type 0
Checked A = Result StorageError A

unfoldable pub validate_metadata : PathBuf → Metadata → Checked (Unit {0})
validate_metadata path metadata =
    if metadata.is_symlink
    then err (symlink path)
    else if not metadata.is_dir
    then err (not_directory path)
    else ok tt

-- 0o7777 and 0o700.
unfoldable pub validate_directory_permissions : PathBuf → Metadata → Checked (Unit {0})
validate_directory_permissions path metadata =
    let actual = metadata.mode % 4096 in
    if not (actual == 448) then err (unsafe_permissions path actual) else ok tt

-- The loop of `absolute_storage_path`.
unfoldable pub push_all : PathBuf → List Component → PathBuf → Checked PathBuf
push_all path [] absolute = ok absolute
push_all path (cur_dir ∷ rest) absolute = push_all path rest absolute
push_all path (parent_dir ∷ rest) absolute = err (unsafe_path path)
push_all path (root_dir ∷ rest) absolute = push_all path rest (push absolute root_dir)
push_all path (normal name ∷ rest) absolute = push_all path rest (push absolute (normal name))

module _ (D : DiskApi) where
  abbrev pub Io : Type 0 → Type 0
  Io A = D.Disk → Checked A × D.Disk

  -- A step that only reads.
  abbrev pub reading : {A : Type 0} → (D.Disk → Checked A) → Io A
  reading step disk = (step disk, disk)

  abbrev pub continue : {A B : Type 0} → Checked A → (A → Io B) → Io B
  continue (ok a) next disk = next a disk
  continue (err e) next disk = (err e, disk)

  abbrev pub and_then : {A B : Type 0} → Io A → (A → Io B) → Io B
  and_then step next disk = let (r, disk') = step disk in continue r next disk'

  unfoldable pub absolute_storage_path : PathBuf → D.Disk → Checked PathBuf
  absolute_storage_path path disk = if is_unsafe path then err (unsafe_path path) else do
    start ← if is_absolute path then ok [] else map_err (inspect path) (D.current_dir disk)
    absolute ← push_all path path start
    reject_if (not (is_some (parent absolute))) (unsafe_path path)
    ok absolute

  -- The loop of `inspect_existing_ancestors`, with the path that is built so far.
  unfoldable pub inspect_ancestors_from : List Component → PathBuf → D.Disk → Checked (Unit {0})
  inspect_ancestors_from [] current disk = ok tt
  inspect_ancestors_from (component ∷ rest) current disk =
      let path = push current component in
      let next = inspect_ancestors_from rest path disk in
      elim (D.symlink_metadata path disk) [
        | ok metadata ↦ validate_metadata path metadata >> next
        | err not_found ↦ ok tt
        | err (other code) ↦ err (inspect path (other code))
      ]

  unfoldable pub inspect_existing_ancestors : PathBuf → D.Disk → Checked (Unit {0})
  inspect_existing_ancestors path disk = inspect_ancestors_from path [] disk

  unfoldable pub inspect_private_directory : PathBuf → D.Disk → Checked (Unit {0})
  inspect_private_directory path disk = do
    metadata ← map_err (inspect path) (D.symlink_metadata path disk)
    checked ← validate_metadata path metadata
    validate_directory_permissions path metadata

  abbrev create_directory : PathBuf → Io (Unit {0})
  create_directory path disk =
      let (r, disk') = D.create_dir_all path disk in
      (map_err (create path) r >> inspect_private_directory path disk', disk')

  unfoldable pub ensure_directory : PathBuf → Io (Unit {0})
  ensure_directory path disk = elim (D.symlink_metadata path disk) [
    | ok metadata ↦
        (validate_metadata path metadata >> validate_directory_permissions path metadata, disk)
    | err not_found ↦ create_directory path disk
    | err (other code) ↦ (err (inspect path (other code)), disk)
  ]

  -- `LocalStorage::status`.
  unfoldable pub status : LocalStorage → D.Disk → Checked StorageStatus
  status storage disk = do
    root_checked ← inspect_private_directory storage.root disk
    blobs_checked ← inspect_private_directory (join storage.root (codes "blobs")) disk
    temporary_checked ← inspect_private_directory storage.temporary disk
    ok (record { root = storage.root })

  -- The end of `probe_writable`, once the file is open.
  abbrev synced : PathBuf → PathBuf → Result IoError (Unit {0}) → Io (Unit {0})
  synced directory probe (err e) disk =
      let (ignored, disk') = D.remove_file probe disk in (err (not_writable directory e), disk')
  synced directory probe (ok _) disk =
      let (r, disk') = D.remove_file probe disk in (map_err (not_writable directory) r, disk')

  abbrev opened_probe : PathBuf → PathBuf → Result IoError (Unit {0}) → Io (Unit {0})
  opened_probe directory probe (err e) disk = (err (not_writable directory e), disk)
  opened_probe directory probe (ok _) disk =
      let (r, disk') = D.sync_all probe disk in synced directory probe r disk'

  -- `probe_writable`, with the name of the probe's file.
  unfoldable pub probe_writable : List ℕ → PathBuf → Io (Unit {0})
  probe_writable name directory disk =
      let probe = join directory name in
      let (r, disk') = D.create_new probe disk in opened_probe directory probe r disk'

  unfoldable pub diagnose : List ℕ → LocalStorage → Io StorageStatus
  diagnose name storage =
      and_then (reading (status storage))
        λ found. and_then (probe_writable name storage.temporary) λ _. reading (λ disk. ok found)

  abbrev pub canonical : PathBuf → PathBuf → D.Disk → Checked PathBuf
  canonical requested root disk = do
    found ← map_err (inspect root) (D.canonicalize root disk)
    reject_if (not (same_path found root)) (symlink requested)
    ok found

  -- The part of `prepare` that has made or checked the root.
  unfoldable pub prepare_in : List ℕ → PathBuf → Io LocalStorage
  prepare_in name root =
      let storage : LocalStorage = record { root = root; temporary = join root (codes "tmp") } in
      and_then (ensure_directory (join root (codes "blobs"))) λ _.
        and_then (ensure_directory (join root (codes "tmp")))
          λ _. and_then (diagnose name storage) λ _. reading (λ disk. ok storage)

  -- `LocalStorage::prepare`.
  unfoldable pub prepare : List ℕ → PathBuf → Io LocalStorage
  prepare name requested = and_then (reading (absolute_storage_path requested)) λ root.
      and_then (reading (inspect_existing_ancestors root)) λ _.
        and_then (ensure_directory root)
          λ _. and_then (reading (canonical requested root)) λ found. prepare_in name found
