-- ===== src/Command/Run.antt =====
-- The commands of crates/server/src/main.rs and the exit of the process.
use wiki_next.Base.{
  ℕ, String, Bool, true, false, not, Option, none, some, List, [], ◌∷◌, if◌then◌else◌, Result, ok,
  err, ◌>>=◌, map_err,
}
use Prim.Native.String.{◌++◌ as ◌<>◌}
use wiki_next.Net.{UrlApi}
use wiki_next.Paths.{PathBuf}
use wiki_next.Config.Types.{Config, ConfigError, server_request_timeout, shutdown_timeout}
use wiki_next.Config.Environment.{System}
use wiki_next.Config.Load.{TomlApi, load, migration_load}
use wiki_next.Search.{HttpApi}
use wiki_next.Postgres.{PgApi, Failure}
use wiki_next.Runtime.Report.{DiagnosticCheck, is_ok, DiagnosticReport}
use wiki_next.Runtime.Services.{
  StorageApi, StartupError, SearchFailure, AppServices, connect, run_migration, run_doctor,
  display_startup_error,
}
use wiki_next.Display.{
  FmtApi, display_config_error, display_store_error, display_search_error, display_telemetry_error,
  display_server_error,
}
use wiki_next.Server.Http.{TowerApi, Serve}
use wiki_next.Server.Routes.{RouterApi, Visits, router}
use wiki_next.Server.Telemetry.{TelemetryError, TracingApi, init_tracing}
use wiki_next.Server.Shutdown.{ServerError, Process, Ending, serve}

pub data Command : Type 0 where
  serve_command migrate_command : Command
  doctor_command : (as_json : Bool) → Command

pub record Cli : Type 0 where
  pub config : PathBuf
  pub command : Command

pub data ExitCode : Type 0 where
  exit_success exit_failure : ExitCode

pub data CliError (TomlError Tracing Startup JsonError : Type 0) : Type 0 where
  config_error : ConfigError TomlError → CliError TomlError Tracing Startup JsonError
  telemetry : Tracing → CliError TomlError Tracing Startup JsonError
  startup : Startup → CliError TomlError Tracing Startup JsonError
  server_error : ServerError → CliError TomlError Tracing Startup JsonError
  serialize : JsonError → CliError TomlError Tracing Startup JsonError
  doctor_failed : CliError TomlError Tracing Startup JsonError

-- The `Display` of the errors, which is passed on for those of the library.
unfoldable pub display_cli_error :
    (F : FmtApi) {TomlError ParseError InitError Startup JsonError : Type 0}
    → (Startup → String)
    → CliError TomlError (TelemetryError ParseError InitError) Startup JsonError
    → String
display_cli_error F display_startup (config_error e) = display_config_error F e
display_cli_error F display_startup (telemetry e) = display_telemetry_error F e
display_cli_error F display_startup (startup e) = display_startup e
display_cli_error F display_startup (server_error e) = display_server_error F e
display_cli_error F display_startup (serialize source) =
    "не удалось сериализовать диагностический отчёт"
display_cli_error F display_startup doctor_failed = "doctor обнаружил ошибки"

-- One line of the doctor.
unfoldable pub check_line : DiagnosticCheck → String
check_line check =
    "["
    <> (if is_ok check then "OK" else "ОШИБКА")
    <> "] "
    <> check.component
    <> ": "
    <> check.detail

abbrev pub check_lines : List DiagnosticCheck → List String
check_lines [] = []
check_lines (check ∷ checks) = check_line check ∷ check_lines checks

-- What the process runs on, and the disk and the deadline of a migration that it meets.
pub record Machine : Type 1 where
  pub url : UrlApi
  pub toml : TomlApi
  pub system : System
  pub http : HttpApi url.Url
  pub postgres : PgApi
  pub storage : StorageApi
  pub tracing : TracingApi
  pub tower : TowerApi
  pub routes : RouterApi tower
  pub process : Process (Visits routes url http postgres storage → Serve tower)
  pub fmt : FmtApi
  pub JsonError : Type 0
  pub to_string_pretty : DiagnosticReport → Result JsonError String
  pub disk : storage.Disk
  pub deadline : Option ℕ

module _ (m : Machine) where
  abbrev pub Failed : Type 0
  Failed =
      CliError m.toml.TomlError (TelemetryError m.tracing.ParseError m.tracing.InitError)
        (StartupError (Failure m.postgres) (SearchFailure m.url m.http m.postgres m.storage)
          m.storage.StorageError)
        m.JsonError

  abbrev pub Checked : Type 0 → Type 0
  Checked A = Result Failed A

  -- `Serve`, up to the server.
  unfoldable pub start_services :
      PathBuf → Checked (Config × AppServices m.url m.http m.postgres m.storage)
  start_services path = do
    config ← map_err config_error (load m.url m.toml m.system path)
    traced ← map_err telemetry (init_tracing m.tracing config.observability)
    services ← map_err startup (connect m.url m.http m.postgres m.storage config m.disk).0
    ok (config, services)

  abbrev served : Ending → Option (Checked (Unit {0}))
  served none = none
  served (some (t, result)) = some (map_err server_error result)

  abbrev run_services :
      Checked (Config × AppServices m.url m.http m.postgres m.storage) → Option (Checked (Unit {0}))
  run_services (err e) = some (err e)
  run_services (ok (config, services)) = served (
      serve m.process config.server.bind
        (router m.routes m.url m.http m.postgres m.storage services
          (server_request_timeout config.server))
        (shutdown_timeout config.server))

  unfoldable pub run_migrate : PathBuf → Checked (Unit {0})
  run_migrate path = do
    config ← map_err config_error (migration_load m.url m.toml m.system path)
    traced ← map_err telemetry (init_tracing m.tracing config.observability)
    map_err startup (run_migration m.url m.http m.postgres m.storage config m.deadline)

  -- `Doctor`, up to its report.
  unfoldable pub examine : PathBuf → Checked DiagnosticReport
  examine path = do
    config ← map_err config_error (load m.url m.toml m.system path)
    traced ← map_err telemetry (init_tracing m.tracing config.observability)
    ok (run_doctor m.url m.http m.postgres m.storage m.fmt config m.disk).0

  abbrev verdict : DiagnosticReport → Checked (Unit {0})
  verdict report = if not report.healthy then err doctor_failed else ok tt

  abbrev print_json :
      DiagnosticReport → Result m.JsonError String → Checked (Unit {0}) × List String
  print_json report (err e) = (err (serialize e), [])
  print_json report (ok text) = (verdict report, text ∷ [])

  abbrev print_report : Bool → Checked DiagnosticReport → Checked (Unit {0}) × List String
  print_report as_json (err e) = (err e, [])
  print_report true (ok report) = print_json report (m.to_string_pretty report)
  print_report false (ok report) = (verdict report, check_lines report.checks)

  -- `run`, with the lines that it prints. A server may run for ever.
  unfoldable pub run : Cli → Option (Checked (Unit {0})) × List String
  run cli = elim cli.command [
    | serve_command ↦ (run_services (start_services cli.config), [])
    | migrate_command ↦ (some (run_migrate cli.config), [])
    | doctor_command as_json ↦
        let (result, lines) = print_report as_json (examine cli.config) in (some result, lines)
  ]

  unfoldable pub display : Failed → String
  display e =
      display_cli_error m.fmt
        (display_startup_error (display_store_error m.fmt) (display_search_error m.fmt)
          (m.storage.display_error m.fmt))
        e

  abbrev pub exit_of : Option (Checked (Unit {0})) → Option (ExitCode × List String)
  exit_of none = none
  exit_of (some (ok _)) = some (exit_success, [])
  exit_of (some (err e)) = some (exit_failure, ("Ошибка: " <> display e) ∷ [])

  -- `main`: the code and the lines on the standard error.
  unfoldable pub exit : Cli → Option (ExitCode × List String)
  exit cli = exit_of (run cli).0
