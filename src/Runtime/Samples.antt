-- ===== src/Runtime/Samples.antt =====
-- Runs of the runtime over the small server, network and disk, and the theorems at them.
use wiki_next.Base.{
  ℕ, suc, ◌≡◌, refl, ◌↔◌, Bool, true, false, none, List, [], ◌∷◌, ◌==◌, if◌then◌else◌, ok, err,
  some,
}
use wiki_next.Net.{v4}
use wiki_next.Paths.{PathBuf, path_of}
use wiki_next.Config.Types.{Config, search_request_timeout, observability_default, acquire_timeout}
use wiki_next.Base.Text.{codes, same_codes}
use wiki_next.Search
use wiki_next.Search.{
  SearchClient, SearchStatus, normalize_base_url, normalize_url, with_slash, get_json,
  read_response, read_chunks, append_bounded, checked_add, is_success,
}
use wiki_next.Search.Samples.{urls, web}
use wiki_next.Postgres
use wiki_next.Postgres.{
  PgApi, World, DatabaseStatus, connect_store, strip_prefix, is_expected_postgres_version,
  probe_server, probe_schema, ensure_compatible_server,
}
use wiki_next.Postgres.Samples.{server}
use Prim.Native.String.{◌++◌ as ◌<>◌}
use wiki_next.Display.{FmtApi}
use wiki_next.Runtime.Report.{
  DiagnosticReport, report_new, success, failure, is_ok, fresh, serve, Attempt, completed, dropped,
  attempt, check_of,
}
use wiki_next.Runtime.Cache.{AreRecent, AreSpaced, served, after, served-recent, after-spaced}
use wiki_next.Runtime.Services.{
  StorageApi, database_options, Site, AppServices, build_search_client, assemble, connect,
  readiness_report, search_report, doctor_database, doctor_search, doctor_storage, run_doctor,
  doctor_report,
}
use wiki_next.Runtime.Separate.{
  Question, asks_readiness, asks_search, readiness_reports, search_reports, readiness_attempts,
  search_attempts, reports-separate,
}
use wiki_next.Postgres.Compatible.{IsCompatible}
use wiki_next.Runtime.Startup.{readiness_report_opaque, connect_iff}

-- What a probe meets is whether the component answers.
abbrev answered : Bool → DiagnosticReport
answered up = report_new (check_of "x" "up" "down" (if up then ok tt else err tt) ∷ [])

-- The second call that ends is within five seconds of the first probe, and the third is not.
abbrev attempts : List (Attempt Bool)
attempts =
    dropped
    ∷ completed (record { started = 0; finished = 100; environment = true })
    ∷ completed (record { started = 5099; finished = 5099; environment = false })
    ∷ dropped
    ∷ completed (record { started = 5100; finished = 5200; environment = false })
    ∷ []

-- A disk that lets any directory be prepared.
abbrev pub disks : StorageApi
disks = record {
  Disk = ℕ;
  LocalStorage = PathBuf;
  StorageError = Unit;
  StorageStatus = PathBuf;
  prepare = λ root disk. (ok root, suc disk);
  status = λ local disk. (ok local, disk);
  diagnose = λ local disk. (if disk == 0 then err tt else ok local, disk);
  display_error = λ F e. "storage";
  root = λ local. local;
}

abbrev pub postgres : PgApi
postgres = record (server "18.4") { connect_with = λ options url. ok 1 }

abbrev pub config : Config
config = record {
  app = record { name = "WikiNEXT" };
  server = record {
    bind = record { ip = v4 127 0 0 1; port = 3000 };
    request_timeout_ms = 10000;
    shutdown_timeout_seconds = 20;
  };
  database = record { url = "local"; max_connections = 16; acquire_timeout_ms = 5000 };
  search = record {
    url = "search";
    api_key = record { expose = "key" };
    request_timeout_ms = 2000;
  };
  storage = record { data_dir = path_of "./data" };
  observability = observability_default;
}

-- The texts of numbers are of no concern here.
abbrev pub fmt : FmtApi
fmt = record {
  number = λ n. "1";
  signed = λ n. "1";
  status_code = λ n. "503 Service Unavailable";
  path = λ path. "./data";
  octal = λ n. "0o755";
  debug_text = λ s. "\"" <> s <> "\"";
  debug_duration = λ d. "5s";
}

-- What the runs below open.
unfoldable pub opened : Unit {0}
unfolding report_new success failure is_ok fresh serve attempt check_of database_options
    build_search_client assemble connect readiness_report doctor_database doctor_search
    doctor_storage doctor_report run_doctor connect_store strip_prefix is_expected_postgres_version
    probe_server probe_schema ensure_compatible_server Postgres.diagnose Search.new Search.diagnose
    normalize_base_url normalize_url with_slash get_json read_response read_chunks append_bounded
    checked_add is_success Search.url_host_is_loopback codes same_codes search_request_timeout
    acquire_timeout path_of
opened = tt

serves :
    served answered attempts (record { cache = none; probes = [] })
    ≡ none ∷ some (answered true) ∷ some (answered true) ∷ none ∷ some (answered false) ∷ []
unfolding opened
serves = refl

examines : (run_doctor urls web postgres disks fmt config 0).0.healthy ≡ true
unfolding opened
examines = refl

served-recent_example :
    AreRecent answered [] attempts (served answered attempts (record { cache = none; probes = [] }))
served-recent_example = served-recent answered attempts

after-spaced_example :
    AreSpaced (after answered attempts (record { cache = none; probes = [] })).probes
after-spaced_example = after-spaced answered attempts

-- Two sites whose schemas have two other versions.
abbrev pub site : ℕ → Site urls web postgres disks
site schema = record { world = record { state = schema; log = [] }; disk = 0 }

readiness_report_opaque_example :
    readiness_report urls web postgres disks (path_of "a") (site 2)
    ≡ readiness_report urls web postgres disks (path_of "a") (site 3)
unfolding opened
readiness_report_opaque_example =
    readiness_report_opaque urls web postgres disks (path_of "a") (site 2) (site 3) refl refl

abbrev pub services : AppServices urls web postgres disks
services = record {
  pool = (Postgres.diagnose postgres (record { state = 1; log = [] })).1;
  search_client = record {
    base_url = record { scheme = "http"; username = ""; path = "/search/" };
    http = tt;
  };
  local_storage = path_of "./data";
  readiness_cache = record { cache = none; probes = [] };
  search_cache = record { cache = none; probes = [] };
}

-- The search engine is asked between two questions for readiness.
abbrev questions : List (Question urls web postgres disks)
questions =
    asks_readiness (record { started = 0; finished = 7; environment = site 1 })
    ∷ asks_search (record { started = 8; finished = 9; environment = web.send })
    ∷ asks_readiness (record { started = 6000; finished = 6007; environment = site 2 })
    ∷ []

reports-separate_example :
    (readiness_reports urls web postgres disks questions services
      ≡ served
          (readiness_report urls web postgres disks services.local_storage)
          (readiness_attempts urls web postgres disks questions)
          services.readiness_cache)
    × (search_reports urls web postgres disks questions services
        ≡ served
            (search_report urls web postgres disks services.search_client)
            (search_attempts urls web postgres disks questions)
            services.search_cache)
reports-separate_example = reports-separate urls web postgres disks questions services

connects : connect urls web postgres disks config 0 ≡ (ok services, 1)
unfolding opened
connects = refl

connect_iff_example : ((connect urls web postgres disks config 0).0 ≡ ok services) ↔ (
    (build_search_client urls web postgres disks config ≡ ok services.search_client)
    × ((world : World postgres) × (connect_store postgres (database_options config.database)
          ≡ ok world)
        × ((status : DatabaseStatus) × IsCompatible postgres world status)
        × (services.pool ≡ (Postgres.diagnose postgres world).1))
    × ((disks.prepare config.storage.data_dir 0).0 ≡ ok services.local_storage)
    × (services.readiness_cache ≡ record { cache = none; probes = [] })
    × (services.search_cache ≡ record { cache = none; probes = [] }))
connect_iff_example = connect_iff urls web postgres disks config 0 services
