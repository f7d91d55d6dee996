-- ===== src/Runtime/LocalDisk.antt =====
-- The storage of crates/store/src/storage.rs as what crates/app/src/runtime.rs uses of it.
use wiki_next.Base.{ℕ, List, ◌≡◌, ok, ap, arith}
use wiki_next.Storage
use wiki_next.Storage.{DiskApi, LocalStorage, StorageError, StorageStatus}
use wiki_next.Net.{UrlApi}
use wiki_next.Config.Types.{Config}
use wiki_next.Search.{HttpApi}
use wiki_next.Postgres.{PgApi}
use wiki_next.Storage.Prepare.{IsMade, prepare-IsMade}
use wiki_next.Display.{display_storage_error}
use wiki_next.Runtime.Services.{StorageApi, AppServices, connect}
use wiki_next.Runtime.Startup.{connect_iff}

-- The probe's file is named anew from the disk.
abbrev pub local_disk : (D : DiskApi) → (D.Disk → List ℕ) → StorageApi
local_disk D probe_name = record {
  Disk = D.Disk;
  LocalStorage = LocalStorage;
  StorageError = StorageError;
  StorageStatus = StorageStatus;
  prepare = λ root disk. Storage.prepare D (probe_name disk) root disk;
  status = λ storage disk. (Storage.status D storage disk, disk);
  diagnose = λ storage disk. Storage.diagnose D (probe_name disk) storage disk;
  display_error = display_storage_error;
  root = λ status. status.root;
}

-- Services that have started work on three private directories: their storage is one that
-- `prepare` has made.
pub connect-IsMade :
    (U : UrlApi) (W : HttpApi U.Url) (G : PgApi) (D : DiskApi) (probe_name : D.Disk → List ℕ)
    (config : Config) (disk disk' : D.Disk) (services : AppServices U W G (local_disk D probe_name))
    → connect U W G (local_disk D probe_name) config disk ≡ (ok services, disk')
    → IsMade D (probe_name disk) disk' services.local_storage
unfolding connect
connect-IsMade U W G D probe_name config disk disk' services h =
    let S = local_disk D probe_name in
    let started : (connect U W G S config disk).0 ≡ ok services = ap (λ r. r.0) h in
    let (client, database, prepared, empty, empty') =
      (connect_iff U W G S config disk services).0 started in
    let last : (S.prepare config.storage.data_dir disk).1 ≡ disk' = ground arith in
    let made =
      prepare-IsMade D (probe_name disk) config.storage.data_dir disk
        (S.prepare config.storage.data_dir disk).1 services.local_storage
        (ap (λ r. (r, (S.prepare config.storage.data_dir disk).1)) prepared) in
    rw (← last) made.4
