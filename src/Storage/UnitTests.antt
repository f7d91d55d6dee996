-- ===== src/Storage/UnitTests.antt =====
-- The tests of crates/store/src/storage.rs on a disk of files, without their cleaning up.
use wiki_next.Base.{ℕ, ◌+◌, ◌%◌, ◌≡◌, refl, true, false, List, ok, err}
use wiki_next.Base.Text.{codes, split, same_codes}
use wiki_next.Config.Types.{not_found}
use wiki_next.Paths.{
  PathBuf, path_of, join, push, parent, same_path, components_of, is_unsafe, is_absolute,
}
use wiki_next.Storage.{
  StorageStatus, symlink, not_directory, unsafe_path, unsafe_permissions, LocalStorage, Metadata,
  DiskApi, validate_metadata, validate_directory_permissions, push_all, absolute_storage_path,
  inspect_ancestors_from, inspect_existing_ancestors, inspect_private_directory, ensure_directory,
  status, probe_writable, diagnose, prepare_in, prepare,
}
use wiki_next.Storage.FileSamples.{Tree, file, directory, put, create_at, remove_at}

-- A disk that works, and never has two names for one directory.
abbrev disks : DiskApi
disks = record {
  Disk = Tree;
  current_dir = λ tree. ok (path_of "/srv");
  symlink_metadata = λ path tree. tree path;
  canonicalize = λ path tree. ok path;
  create_dir_all = λ path tree. (ok tt, put path (ok directory) tree);
  create_new = λ path tree. create_at path tree (tree path);
  sync_all = λ path tree. (ok tt, tree);
  remove_file = λ path tree. remove_at path tree (tree path);
}

-- The name of the probe.
abbrev name : List ℕ
name = codes ".wikinext-probe-1"

abbrev temporary_path : PathBuf
temporary_path = path_of "/tmp/wikinext-storage-test-1"

abbrev empty_disk : Tree
empty_disk =
    put (path_of "/") (ok directory) (put (path_of "/tmp") (ok directory) (λ path. err not_found))

-- `set_permissions` of a directory.
abbrev with_mode : ℕ → Metadata
with_mode mode = record { is_symlink = false; is_dir = true; mode = 16384 + mode }

-- What the tests below open.
opened : Unit {0}
unfolding codes split same_codes path_of is_unsafe is_absolute push join parent same_path
    components_of validate_metadata validate_directory_permissions push_all absolute_storage_path
    inspect_ancestors_from inspect_existing_ancestors inspect_private_directory ensure_directory
    status probe_writable diagnose prepare_in prepare
opened = tt

abbrev IsDir : PathBuf → Tree → Type 0
IsDir path tree = (metadata : Metadata) × (tree path ≡ ok metadata) × (metadata.is_dir ≡ true)

abbrev HasMode : ℕ → ℕ → PathBuf → Tree → Type 0
HasMode mask mode path tree =
    (metadata : Metadata) × (tree path ≡ ok metadata) × (metadata.mode % mask ≡ mode)

-- A preparation succeeds, and what is asserted of the storage and the disk.
abbrev Prepares : (LocalStorage → Tree → Type 0) → Type 0
Prepares Asserted =
    (storage : LocalStorage) × (after : Tree) × (prepare disks name temporary_path empty_disk
      ≡ (ok storage, after))
    × Asserted storage after

abbrev PreparesContentAddressedStorageDirectories : Type 0
PreparesContentAddressedStorageDirectories = Prepares λ storage after.
    IsDir (join temporary_path (codes "blobs")) after
    × IsDir (join temporary_path (codes "tmp")) after
    × ((found : StorageStatus) × ((diagnose disks name storage after).0 ≡ ok found))

prepares : PreparesContentAddressedStorageDirectories
unfolding opened
prepares = (_, _, refl, ((_, refl, refl), (_, refl, refl), (_, refl)))

abbrev RejectsRegularFileAsStorageRoot : Type 0
RejectsRegularFileAsStorageRoot =
    (path : PathBuf) × ((prepare disks name temporary_path
        (put temporary_path (ok file) empty_disk)).0
      ≡ err (not_directory path))

rejects_file : RejectsRegularFileAsStorageRoot
unfolding opened
rejects_file = (_, refl)

abbrev RejectsParentDirectoryTraversalBeforeWriting : Type 0
RejectsParentDirectoryTraversalBeforeWriting =
    ((path : PathBuf) × ((prepare disks name (path_of "/tmp/..") empty_disk).0
        ≡ err (unsafe_path path)))
    × ((path : PathBuf) × ((prepare disks name (path_of ".") empty_disk).0
          ≡ err (unsafe_path path)))

rejects_traversal : RejectsParentDirectoryTraversalBeforeWriting
unfolding opened
rejects_traversal = ((_, refl), (_, refl))

abbrev RejectsSymbolicLinkInAncestor : Type 0
RejectsSymbolicLinkInAncestor =
    let fixture = temporary_path in
    let target = join fixture (codes "target") in
    let link = join fixture (codes "link") in
    let linked : Metadata = record { is_symlink = true; is_dir = false; mode = 41471 } in
    let tree =
      put link (ok linked) (put target (ok directory) (put fixture (ok directory) empty_disk)) in
    (path : PathBuf) × ((prepare disks name (join link (codes "data")) tree).0 ≡ err (symlink path))

rejects_link : RejectsSymbolicLinkInAncestor
unfolding opened
rejects_link = (_, refl)

abbrev CreatesPrivateStorageDirectories : Type 0
CreatesPrivateStorageDirectories = Prepares λ storage after.
    HasMode 512 448 temporary_path after
    × HasMode 512 448 (join temporary_path (codes "blobs")) after
    × HasMode 512 448 (join temporary_path (codes "tmp")) after
    × ((found : StorageStatus) × (status disks storage after ≡ ok found))

creates_private : CreatesPrivateStorageDirectories
unfolding opened
creates_private = (_, _, refl, ((_, refl, refl), (_, refl, refl), (_, refl, refl), (_, refl)))

-- 0o755 is 493.
abbrev RejectsExistingSharedDirectoryWithoutChangingPermissions : Type 0
RejectsExistingSharedDirectoryWithoutChangingPermissions =
    let tree = put temporary_path (ok (with_mode 493)) empty_disk in
    (path : PathBuf) × (after : Tree) × (prepare disks name temporary_path tree
      ≡ (err (unsafe_permissions path 493), after))
    × HasMode 4096 493 temporary_path after
    × (after (join temporary_path (codes "blobs")) ≡ err not_found)
    × (after (join temporary_path (codes "tmp")) ≡ err not_found)

rejects_shared : RejectsExistingSharedDirectoryWithoutChangingPermissions
unfolding opened
rejects_shared = (_, _, refl, (_, refl, refl), refl, refl)

abbrev DetectsPermissionsChangedAfterStartup : Type 0
DetectsPermissionsChangedAfterStartup = Prepares λ storage after.
    let changed = put (join temporary_path (codes "tmp")) (ok (with_mode 493)) after in
    (path : PathBuf) × (status disks storage changed ≡ err (unsafe_permissions path 493))

detects_changed : DetectsPermissionsChangedAfterStartup
unfolding opened
detects_changed = (_, _, refl, (_, refl))
