-- ===== src/Runtime/DiskSamples.antt =====
-- A start on the disk of the storage, and the theorem at it.
use wiki_next.Base.{◌≡◌, refl, none, [], ok}
use wiki_next.Base.Text.{codes}
use wiki_next.Search.Samples.{urls, web}
use wiki_next.Runtime.Services.{StorageApi, AppServices, connect}
use wiki_next.Storage
use wiki_next.Storage.Prepare.{IsMade}
use wiki_next.Storage.Samples.{disk, storage, prepared}
use wiki_next.Runtime.LocalDisk.{local_disk, connect-IsMade}
use wiki_next.Base.Text.{split}
use wiki_next.Paths.{is_unsafe, is_absolute, push, join, parent, same_path, components_of}
use wiki_next.Storage.{
  validate_metadata, validate_directory_permissions, push_all, absolute_storage_path,
  inspect_ancestors_from, inspect_existing_ancestors, inspect_private_directory, ensure_directory,
  probe_writable, prepare_in,
}
use wiki_next.Runtime.Samples.{config, postgres, services, opened}

abbrev pub local_disks : StorageApi
local_disks = local_disk Storage.Samples.disks (λ disk. codes "probe")

abbrev stored_services : AppServices urls web postgres local_disks
stored_services = record {
  pool = services.pool;
  search_client = services.search_client;
  local_storage = storage;
  readiness_cache = record { cache = none; probes = [] };
  search_cache = record { cache = none; probes = [] };
}

starts : connect urls web postgres local_disks config disk ≡ (ok stored_services, prepared)
unfolding opened split is_unsafe is_absolute push join parent same_path components_of
    validate_metadata validate_directory_permissions push_all absolute_storage_path
    inspect_ancestors_from inspect_existing_ancestors inspect_private_directory ensure_directory
    probe_writable prepare_in Storage.status Storage.diagnose Storage.prepare
starts = refl

connect-IsMade_example : IsMade Storage.Samples.disks (codes "probe") prepared storage
connect-IsMade_example =
    connect-IsMade urls web postgres Storage.Samples.disks (λ disk. codes "probe") config disk
      prepared stored_services starts
