-- ===== src/Storage/Samples.antt =====
-- Runs of the storage over a small disk, and the theorems at them.
use mathlib.Core.Path.{subst}
use wiki_next.Base.{
  ◌≡◌, refl, sym, true, false, List, [], ◌∷◌, arith, if◌then◌else◌, any, Result, ok, err,
}
use wiki_next.Config.Types.{IoError, not_found}
use wiki_next.Base.Text.{codes, split, same_codes}
use wiki_next.Paths.{
  PathBuf, path_of, is_unsafe, is_absolute, push, join, parent, same_path, components_of,
}
use wiki_next.Storage.{
  StorageError, unsafe_path, unsafe_permissions, LocalStorage, Metadata, DiskApi, validate_metadata,
  validate_directory_permissions, push_all, absolute_storage_path, inspect_ancestors_from,
  inspect_existing_ancestors, inspect_private_directory, ensure_directory, status, probe_writable,
  diagnose, prepare_in, prepare,
}
use wiki_next.Storage.Private.{AreReal, inspect_ancestors_from_iff, prepare_rejects}
use wiki_next.Storage.Prepare.{IsMade, prepare-IsMade}

-- The disk is its private directories. There is a link beside them, and a directory for everyone.
abbrev metadata_of : PathBuf → List PathBuf → Result IoError Metadata
metadata_of path disk =
    if same_path path (path_of "/link")
    then ok (record { is_symlink = true; is_dir = false; mode = 511 })
    else if same_path path (path_of "/public")
    then ok (record { is_symlink = false; is_dir = true; mode = 511 })
    else if any (λ d. same_path d path) disk
    then ok (record { is_symlink = false; is_dir = true; mode = 16832 })
    else err not_found

abbrev pub disks : DiskApi
disks = record {
  Disk = List PathBuf;
  current_dir = λ disk. ok (path_of "/srv");
  symlink_metadata = metadata_of;
  canonicalize = λ path disk. ok path;
  create_dir_all = λ path disk. (ok tt, path ∷ disk);
  create_new = λ path disk. (ok tt, disk);
  sync_all = λ path disk. (ok tt, disk);
  remove_file = λ path disk. (ok tt, disk);
}

abbrev pub disk : List PathBuf
disk = path_of "/" ∷ []

abbrev pub storage : LocalStorage
storage = record { root = path_of "/srv/data"; temporary = path_of "/srv/data/tmp" }

abbrev pub prepared : List PathBuf
prepared =
    path_of "/srv/data/tmp" ∷ path_of "/srv/data/blobs" ∷ path_of "/srv/data" ∷ path_of "/" ∷ []

-- What the runs below open.
opened : Unit {0}
unfolding codes split same_codes path_of is_unsafe is_absolute push join parent same_path
    components_of validate_metadata validate_directory_permissions push_all absolute_storage_path
    inspect_ancestors_from inspect_existing_ancestors inspect_private_directory ensure_directory
    status probe_writable diagnose prepare_in prepare
opened = tt

prepares : prepare disks (codes "probe") (path_of "./data") disk ≡ (ok storage, prepared)
unfolding opened
prepares = refl

refuses :
    (prepare disks (codes "probe") (path_of "/tmp/..") disk
      ≡ (err (unsafe_path (path_of "/tmp/..")), disk))
    × (prepare disks (codes "probe") (path_of "/public") disk
        ≡ (err (unsafe_permissions (path_of "/public") 511), disk))
unfolding opened
refuses = (refl, refl)

prepare-IsMade_example :
    (root : PathBuf) × (absolute_storage_path disks (path_of "./data") disk ≡ ok root)
    × AreReal disks root [] disk
    × (same_path storage.root root ≡ true)
    × IsMade disks (codes "probe") prepared storage
prepare-IsMade_example =
    prepare-IsMade disks (codes "probe") (path_of "./data") disk prepared storage prepares

leads_through_link :
    (root : PathBuf)
    → absolute_storage_path disks (path_of "/link/data") disk ≡ ok root
    → ¬ AreReal disks root [] disk
unfolding opened
leads_through_link root e real =
    let same : path_of "/link/data" ≡ root = cc in
    let real' : AreReal disks (path_of "/link/data") [] disk =
      subst (λ r. AreReal disks r [] disk) (sym same) real in
    let passed = (inspect_ancestors_from_iff disks (path_of "/link/data") [] disk).1 real' in
    ground arith

prepare_rejects_example :
    (e : StorageError) × (prepare disks (codes "probe") (path_of "/link/data") disk ≡ (err e, disk))
prepare_rejects_example =
    prepare_rejects disks (codes "probe") (path_of "/link/data") disk leads_through_link
