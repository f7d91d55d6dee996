-- ===== src/Runtime/Services.antt =====
-- The services of crates/app/src/runtime.rs: startup, readiness, the status of the search, the
-- migration and the doctor.
use wiki_next.Base.{ℕ, String, Option, none, [], ◌∷◌, Result, ok, err, ◌>>=◌, map_err}
use Prim.Native.String.{◌++◌ as ◌<>◌}
use wiki_next.Net.{UrlApi}
use wiki_next.Paths.{PathBuf}
use wiki_next.Config.Types.{
  Config, DatabaseConfig, MigrationConfig, acquire_timeout, search_request_timeout,
}
use wiki_next.Search
use wiki_next.Search.{HttpApi, Response, SearchClient, SearchStatus, SearchError}
use wiki_next.Postgres
use wiki_next.Postgres.{
  PgApi, StoreError, World, Failure, DatabaseOptions, DatabaseStatus, connect_store, migrate,
}
use wiki_next.Display.{FmtApi, display_store_error, display_search_error}
use wiki_next.Runtime.Report.{
  DiagnosticReport, report_new, Call, Cached, serve, check_of, doctor_check,
}

-- The local storage, as the services use it.
pub record StorageApi : Type 1 where
  pub Disk : Type 0
  pub LocalStorage : Type 0
  pub StorageError : Type 0
  pub StorageStatus : Type 0
  pub prepare : PathBuf → Disk → Result StorageError LocalStorage × Disk
  pub status : LocalStorage → Disk → Result StorageError StorageStatus × Disk
  pub diagnose : LocalStorage → Disk → Result StorageError StorageStatus × Disk
  pub display_error : FmtApi → StorageError → String
  pub root : StorageStatus → PathBuf

pub data StartupError (StoreFailure SearchFailure StorageFailure : Type 0) : Type 0 where
  database : StoreFailure → StartupError StoreFailure SearchFailure StorageFailure
  search : SearchFailure → StartupError StoreFailure SearchFailure StorageFailure
  storage : StorageFailure → StartupError StoreFailure SearchFailure StorageFailure

unfoldable pub database_options : DatabaseConfig → DatabaseOptions
database_options config = record {
  url = config.url;
  max_connections = config.max_connections;
  acquire_timeout = acquire_timeout config;
}

module _ {StoreFailure SearchFailure StorageFailure : Type 0}
    (display_store : StoreFailure → String) (display_search : SearchFailure → String)
    (display_storage : StorageFailure → String) where
  -- The `Display` of each error is passed on.
  unfoldable pub display_startup_error :
      StartupError StoreFailure SearchFailure StorageFailure → String
  display_startup_error (database e) = display_store e
  display_startup_error (search e) = display_search e
  display_startup_error (storage e) = display_storage e

-- The report of `run_doctor`, of what the three futures return.
unfoldable pub doctor_report :
    (F : FmtApi)
    {SqlError MigrateError ParseError HeaderError RequestError JsonError StorageFailure
      StorageStatus : Type 0}
    → (StorageFailure → String)
    → (StorageStatus → PathBuf)
    → Result (StoreError SqlError MigrateError) DatabaseStatus
    → Result (SearchError ParseError HeaderError RequestError JsonError) SearchStatus
    → Result StorageFailure StorageStatus
    → DiagnosticReport
doctor_report F display_storage root stored found kept = report_new (
    doctor_check "postgresql"
      (λ status.
        "PostgreSQL " <> status.server_version <> ", схема " <> F.signed status.schema_version)
      (display_store_error F) stored
    ∷ doctor_check "meilisearch" (λ status. "Meilisearch " <> status.version <> " доступен")
        (display_search_error F) found
    ∷ doctor_check "storage" (λ status. "каталог " <> F.path (root status) <> " доступен")
        display_storage kept
    ∷ [])

abbrev pub migration_options : MigrationConfig → DatabaseOptions
migration_options config = record {
  url = config.migration_url.expose;
  max_connections = config.database.max_connections;
  acquire_timeout = acquire_timeout config.database;
}

-- The crate with the answers of the network at one moment.
abbrev pub web_with :
    (U : UrlApi) (W : HttpApi U.Url)
    → (W.Client → U.Url → Result W.RequestError (Response W.RequestError))
    → HttpApi U.Url
web_with U W send = record W { send = send }

module _ (U : UrlApi) (W : HttpApi U.Url) (G : PgApi) (S : StorageApi) where
  abbrev pub SearchFailure : Type 0
  SearchFailure = SearchError U.ParseError W.HeaderError W.RequestError W.JsonError

  abbrev pub Started : Type 0 → Type 0
  Started A = Result (StartupError (Failure G) SearchFailure S.StorageError) A

  -- What the probes of `readiness` meet, and those of `search_status`.
  pub record Site : Type 0 where
    pub world : World G
    pub disk : S.Disk

  abbrev pub Network : Type 0
  Network = W.Client → U.Url → Result W.RequestError (Response W.RequestError)

  pub record AppServices : Type 0 where
    pub pool : World G
    pub search_client : SearchClient U W
    pub local_storage : S.LocalStorage
    pub readiness_cache : Cached Site
    pub search_cache : Cached Network

  unfoldable pub build_search_client : Config → Result SearchFailure (SearchClient U W)
  build_search_client config =
      Search.new U W config.search.url config.search.api_key.expose
        (search_request_timeout config.search)

  -- The end of `connect`, with what `join!` returns.
  unfoldable pub assemble :
      SearchClient U W
      → Result (Failure G) (World G)
      → Result S.StorageError S.LocalStorage
      → Started AppServices
  assemble client connected prepared = do
    world ← map_err database connected
    diagnosed ← map_err database (Postgres.diagnose G world).0
    local ← map_err storage prepared
    ok (record {
      pool = (Postgres.diagnose G world).1;
      search_client = client;
      local_storage = local;
      readiness_cache = record { cache = none; probes = [] };
      search_cache = record { cache = none; probes = [] };
    })

  -- `AppServices::connect`. The storage is prepared whether or not the database answers.
  unfoldable pub connect : Config → S.Disk → Started AppServices × S.Disk
  connect config disk = elim (build_search_client config) [
    | err e ↦ (err (search e), disk)
    | ok client ↦
        let (prepared, disk') = S.prepare config.storage.data_dir disk in
        (assemble client (connect_store G (database_options config.database)) prepared, disk')
  ]

  unfoldable pub readiness_report : S.LocalStorage → Site → DiagnosticReport
  readiness_report local site = report_new (
      check_of "postgresql" "PostgreSQL доступен" "PostgreSQL недоступен или несовместим"
        (Postgres.diagnose G site.world).0
      ∷ check_of "storage" "локальное хранилище доступно" "локальное хранилище недоступно"
          (S.diagnose local site.disk).0
      ∷ [])

  unfoldable pub readiness : AppServices → Call Site → DiagnosticReport × AppServices
  readiness services call =
      let (report, cached) =
        serve (readiness_report services.local_storage) call services.readiness_cache in
      (report, record services { readiness_cache = cached })

  unfoldable pub search_report : SearchClient U W → Network → DiagnosticReport
  search_report client network =
      let client_now : SearchClient U (web_with U W network) = record {
        base_url = client.base_url;
        http = client.http;
      } in
      report_new (
        check_of "meilisearch" "Meilisearch доступен" "Meilisearch недоступен или несовместим"
          (Search.diagnose U (web_with U W network) client_now)
        ∷ [])

  unfoldable pub search_status : AppServices → Call Network → DiagnosticReport × AppServices
  search_status services call =
      let (report, cached) =
        serve (search_report services.search_client) call services.search_cache in
      (report, record services { search_cache = cached })

  -- `migrate`, with the deadline of the migration.
  unfoldable pub run_migration : MigrationConfig → Option ℕ → Started (Unit {0})
  run_migration config deadline = do
    world ← map_err database (connect_store G (migration_options config))
    map_err database (migrate G config.application_role deadline world).0

  unfoldable pub doctor_database : Config → Result (Failure G) DatabaseStatus
  doctor_database config = do
    world ← connect_store G (database_options config.database)
    (Postgres.diagnose G world).0

  unfoldable pub doctor_search : Config → Result SearchFailure SearchStatus
  doctor_search config = do client ← build_search_client config; Search.diagnose U W client

  abbrev status_of :
      Result S.StorageError S.LocalStorage × S.Disk → Result S.StorageError S.StorageStatus × S.Disk
  status_of (err e, disk) = (err e, disk)
  status_of (ok local, disk) = S.status local disk

  unfoldable pub doctor_storage : Config → S.Disk → Result S.StorageError S.StorageStatus × S.Disk
  doctor_storage config disk = status_of (S.prepare config.storage.data_dir disk)

  unfoldable pub run_doctor : FmtApi → Config → S.Disk → DiagnosticReport × S.Disk
  run_doctor F config disk =
      let (stored, disk') = doctor_storage config disk in
      (
        doctor_report F (S.display_error F) S.root (doctor_database config) (doctor_search config)
            stored,
        disk',
      )
