-- ===== src/Storage/FileSamples.antt =====
-- A disk of files, and the theorem on a diagnosis at it.
use wiki_next.Base.{
  ◌≡◌, refl, ◌⊎◌, inl, inr, [], ◌∷◌, true, false, arith, if◌then◌else◌, Bool-cases, ok, err, Result,
}
use wiki_next.Base.Text.{codes}
use wiki_next.Config.Types.{IoError, not_found, other}
use mathlib.Core.List.{reverse}
use wiki_next.Paths.{PathBuf, root_dir, cur_dir, parent_dir, normal, path_of, join, same_path}
use wiki_next.Paths.Same.{same_path_iff}
use wiki_next.Storage.{not_writable, LocalStorage, Metadata, DiskApi, diagnose}
use wiki_next.Storage.Clean.{IsLawfulDisk, IsKept, IsLeft, diagnose_clean}

-- What is at each path.
abbrev pub Tree : Type 0
Tree = PathBuf → Result IoError Metadata

abbrev pub file : Metadata
file = record { is_symlink = false; is_dir = false; mode = 33152 }

abbrev pub directory : Metadata
directory = record { is_symlink = false; is_dir = true; mode = 16832 }

abbrev pub put : PathBuf → Result IoError Metadata → Tree → Tree
put path found tree wanted = if same_path wanted path then found else tree wanted

abbrev pub create_at : PathBuf → Tree → Result IoError Metadata → Result IoError (Unit {0}) × Tree
create_at path tree (ok metadata) = (err (other 17), tree)
create_at path tree (err not_found) = (ok tt, put path (ok file) tree)
create_at path tree (err (other code)) = (err (other code), tree)

abbrev pub remove_at : PathBuf → Tree → Result IoError Metadata → Result IoError (Unit {0}) × Tree
remove_at path tree (ok metadata) =
    if metadata.is_dir then (err (other 21), tree) else (ok tt, put path (err not_found) tree)
remove_at path tree (err e) = (err e, tree)

-- The path without `.` and `..`, which a disk without links looks up in its place.
abbrev climb : PathBuf → PathBuf
climb [] = []
climb (root_dir ∷ rest) = root_dir ∷ rest
climb (_ ∷ rest) = rest

abbrev walk : PathBuf → PathBuf → PathBuf
walk reversed [] = reverse reversed
walk reversed (root_dir ∷ rest) = walk (root_dir ∷ []) rest
walk reversed (cur_dir ∷ rest) = walk reversed rest
walk reversed (parent_dir ∷ rest) = walk (climb reversed) rest
walk reversed (normal name ∷ rest) = walk (normal name ∷ reversed) rest

abbrev at : PathBuf → PathBuf
at path = walk [] path

-- A disk without links, where syncing always fails.
abbrev disks : DiskApi
disks = record {
  Disk = Tree;
  current_dir = λ tree. ok (path_of "/srv");
  symlink_metadata = λ path tree. tree (at path);
  canonicalize = λ path tree. ok (at path);
  create_dir_all = λ path tree. (ok tt, put (at path) (ok directory) tree);
  create_new = λ path tree. create_at (at path) tree (tree (at path));
  sync_all = λ path tree. (err (other 28), tree);
  remove_file = λ path tree. remove_at (at path) tree (tree (at path));
}

put_same :
    (path : PathBuf) (found : Result IoError Metadata) (tree : Tree)
    → put path found tree path ≡ found
put_same path found tree = rw ((same_path_iff path path).1 refl) refl

put_other :
    (path wanted : PathBuf) (found : Result IoError Metadata) (tree : Tree)
    → same_path wanted path ≡ false
    → put path found tree wanted ≡ tree wanted
put_other path wanted found tree apart = rw apart refl

created :
    (path : PathBuf) (tree : Tree) (found : Result IoError Metadata)
    → (create_at path tree found).0 ≡ ok tt
    → found ≡ err not_found
created path tree (ok metadata) h = ground arith
created path tree (err not_found) h = refl
created path tree (err (other code)) h = ground arith

not_created :
    (path wanted : PathBuf) (tree : Tree) (found : Result IoError Metadata) {e : IoError}
    → (create_at path tree found).0 ≡ err e
    → (create_at path tree found).1 wanted ≡ tree wanted
not_created path wanted tree (ok metadata) h = refl
not_created path wanted tree (err not_found) h = ground arith
not_created path wanted tree (err (other code)) h = refl

create_kept :
    (path wanted : PathBuf) (tree : Tree) (found : Result IoError Metadata)
    → same_path wanted path ≡ false
    → (create_at path tree found).1 wanted ≡ tree wanted
create_kept path wanted tree (ok metadata) apart = refl
create_kept path wanted tree (err not_found) apart = put_other path wanted (ok file) tree apart
create_kept path wanted tree (err (other code)) apart = refl

removed :
    (path : PathBuf) (tree : Tree) (found : Result IoError Metadata)
    → (remove_at path tree found).0 ≡ ok tt
    → (remove_at path tree found).1 path ≡ err not_found
removed path tree (ok metadata) h = elim (Bool-cases metadata.is_dir) [
  | inl dir ↦ absurd (ground arith)
  | inr plain ↦ rw plain (put_same path (err not_found) tree)
]
removed path tree (err e) h = ground arith

remove_kept :
    (path wanted : PathBuf) (tree : Tree) (found : Result IoError Metadata)
    → same_path wanted path ≡ false
    → (remove_at path tree found).1 wanted ≡ tree wanted
remove_kept path wanted tree (ok metadata) apart = elim (Bool-cases metadata.is_dir) [
  | inl dir ↦ rw dir refl
  | inr plain ↦ rw plain (put_other path wanted (err not_found) tree apart)
]
remove_kept path wanted tree (err e) apart = refl

-- Paths lead to one file where they are looked up as the same.
disks-IsLawfulDisk : IsLawfulDisk disks
disks-IsLawfulDisk = record {
  leads = λ wanted path tree. same_path (at wanted) (at path);
  missing =
      λ path wanted tree same absent. rw ((same_path_iff (at wanted) (at path)).0 same) absent;
  created = λ path tree h. created (at path) tree (tree (at path)) h;
  not_created = λ path wanted tree h. not_created (at path) (at wanted) tree (tree (at path)) h;
  create_leads = λ path wanted tree. refl;
  create_kept =
      λ path wanted tree apart. create_kept (at path) (at wanted) tree (tree (at path)) apart;
  sync_leads = λ path wanted tree. refl;
  sync_kept = λ path wanted tree. refl;
  removed = λ path tree h. removed (at path) tree (tree (at path)) h;
  remove_leads = λ path wanted tree. refl;
  remove_kept =
      λ path wanted tree apart. remove_kept (at path) (at wanted) tree (tree (at path)) apart;
}

abbrev storage : LocalStorage
storage = record { root = path_of "/data"; temporary = path_of "/data/tmp" }

-- Three private directories, and nothing else.
abbrev tree : Tree
tree = put (path_of "/data") (ok directory) (
    put (path_of "/data/blobs") (ok directory)
      (put (path_of "/data/tmp") (ok directory) (λ path. err not_found)))

-- Another path to the file of the probe.
abbrev probe : PathBuf
probe = path_of "/data/tmp/../tmp/probe"

diagnose_clean_example :
    IsKept disks probe tree (diagnose disks (codes "probe") storage tree).1
    ⊎ (((e : IoError) × ((diagnose disks (codes "probe") storage tree).0
            ≡ err (not_writable storage.temporary e)))
        × IsLeft disks disks-IsLawfulDisk
            (join storage.temporary (codes "probe"))
            tree
            (diagnose disks (codes "probe") storage tree).1
            probe)
diagnose_clean_example = diagnose_clean disks disks-IsLawfulDisk (codes "probe") storage tree probe
