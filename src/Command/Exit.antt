-- ===== src/Command/Exit.antt =====
-- What a process of crates/server/src/main.rs has done when it exits with success.
use wiki_next.Base.{
  ℕ, ◌+◌, ◌≤◌, String, ◌≡◌, refl, ◌↔◌, inl, inr, Bool, true, false, some, [], arith, Option-cases,
  ok, Result-cases,
}
use mathlib.Core.Path.{subst}
use wiki_next.Paths.{PathBuf}
use wiki_next.Config.Types.{Config, server_request_timeout, shutdown_timeout}
use wiki_next.Config.Load.{load}
use wiki_next.Config.Laws.{IsLoaded, load-IsLoaded}
use wiki_next.Runtime.Startup.{HasDatabase, HasSearch, run_doctor_healthy}
use wiki_next.Server.Routes.{router}
use wiki_next.Runtime.Report.{DiagnosticReport}
use wiki_next.Runtime.Services.{AppServices, connect, doctor_storage, run_doctor}
use wiki_next.Server.Telemetry.{init_tracing}
use wiki_next.Server.Shutdown.{Ending, serve}
use wiki_next.Server.Deadline.{IsTold, IsGraceful, serve-IsEnding}
use wiki_next.Command.Run.{
  Command, serve_command, migrate_command, doctor_command, Cli, exit_success, Machine,
  start_services, examine, run, exit,
}
use wiki_next.Command.Phases.{start_services-ok, examine-ok, IsMigrated, run_migrate-IsMigrated}

module _ (m : Machine) where
  exit_iff : (cli : Cli) → (exit m cli ≡ some (exit_success, [])) ↔ ((run m cli).0 ≡ some (ok tt))
  unfolding exit
  exit_iff cli = elim (Option-cases (run m cli).0) [
    | inl endless ↦ (λ h. ground arith, λ h. ground arith)
    | inr (result, e) ↦ elim (Result-cases result) [
      | inl (u, good) ↦ (λ h. ground arith, λ h. ground arith)
      | inr (p, bad) ↦ (λ h. ground arith, λ h. ground arith)
    ]
  ]

  -- The text of a report can be printed.
  abbrev pub CanPrint : Bool → DiagnosticReport → Type 0
  CanPrint true report = (text : String) × (m.to_string_pretty report ≡ ok text)
  CanPrint false report = Unit

  doctor_iff :
      (path : PathBuf) (as_json : Bool)
      → ((run m (record { config = path; command = doctor_command as_json })).0 ≡ some (ok tt)) ↔ (
          (report : DiagnosticReport) × (examine m path ≡ ok report)
          × (report.healthy ≡ true)
          × CanPrint as_json report)
  unfolding run
  doctor_iff path true = elim (Result-cases (examine m path)) [
    | inr (e, failed) ↦ (λ h. ground arith, λ (report, ok_, h, print). ground arith)
    | inl (report, examined) ↦ elim (Result-cases (m.to_string_pretty report)) [
      | inr (e, failed) ↦ (λ h. ground arith, λ (report', ok_, h, (text, print)). ground arith)
      | inl (text, printed) ↦ (
        λ h. (report, examined, ground arith, (text, printed)),
        λ (report', examined', healthy, print). ground arith,
      )
    ]
  ]
  doctor_iff path false = elim (Result-cases (examine m path)) [
    | inr (e, failed) ↦ (λ h. ground arith, λ (report, ok_, h, print). ground arith)
    | inl (report, examined) ↦ (
      λ h. (report, examined, ground arith, tt),
      λ (report', examined', healthy, print). ground arith,
    )
  ]

  -- The server of a command, with its router.
  abbrev pub serving : (config : Config) → AppServices m.url m.http m.postgres m.storage → Ending
  serving config services =
      serve m.process config.server.bind
        (router m.routes m.url m.http m.postgres m.storage services
          (server_request_timeout config.server))
        (shutdown_timeout config.server)

  -- What a command has done when it has succeeded.
  abbrev pub IsDone : PathBuf → Command → Type 0
  IsDone path serve_command =
      (config : Config) × IsLoaded m.url m.toml m.system path config
      × ((services : AppServices m.url m.http m.postgres m.storage) × ((connect m.url m.http
              m.postgres m.storage config m.disk).0
            ≡ ok services)
          × ((told : ℕ) × (ended : ℕ) × (serving config services ≡ some (ended, ok tt))
              × IsTold m.process.ctrl_c m.process.sigterm told
              × (told ≤ ended)
              × (ended ≤ told + shutdown_timeout config.server)))
  IsDone path migrate_command = IsMigrated m path
  IsDone path (doctor_command as_json) =
      (config : Config) × IsLoaded m.url m.toml m.system path config
      × HasDatabase m.url m.http m.postgres m.storage config
      × HasSearch m.url m.http m.postgres m.storage config
      × ((kept : m.storage.StorageStatus) × ((doctor_storage m.url m.http m.postgres m.storage
              config m.disk).0
            ≡ ok kept))

  ended_well :
      IsGraceful m.process
      → (config : Config) (services : AppServices m.url m.http m.postgres m.storage) {t : ℕ}
      → serving config services ≡ some (t, ok tt)
      → (told : ℕ) × (ended : ℕ) × (serving config services ≡ some (ended, ok tt))
        × IsTold m.process.ctrl_c m.process.sigterm told
        × (told ≤ ended)
        × (ended ≤ told + shutdown_timeout config.server)
  ended_well graceful config services {t} h =
      elim (serve-IsEnding m.process config.server.bind _ (shutdown_timeout config.server) (ok tt)
        graceful h) [
          | inl (e, other, at) ↦ ground arith
          | inr (listener, bound, (own, (n, told, from, by))) ↦ (n, t, h, told, from, by)
        ]

  run-IsDone :
      IsGraceful m.process
      → (path : PathBuf) (command : Command)
      → (run m (record { config = path; command = command })).0 ≡ some (ok tt)
      → IsDone path command
  unfolding run
  run-IsDone graceful path serve_command h = elim (Result-cases (start_services m path)) [
    | inr (e, failed) ↦ ground arith
    | inl ((config, services), started) ↦
        let (loaded, traced, connected) = start_services-ok m path started in
        elim (Option-cases (serving config services)) [
          | inl endless ↦ ground arith
          | inr ((t, result), ended) ↦ elim (Result-cases result) [
            | inr (e, failed) ↦ ground arith
            | inl (u, well) ↦
                let good : serving config services ≡ some (t, ok tt) = rw well at ended in
                (
                  config,
                  load-IsLoaded m.url m.toml m.system path loaded,
                  (services, connected, ended_well graceful config services good),
                )
          ]
        ]
  ]
  run-IsDone graceful path migrate_command h = run_migrate-IsMigrated m path (ground arith)
  run-IsDone graceful path (doctor_command as_json) h =
      let (report, examined, healthy, print) = (doctor_iff path as_json).0 h in
      let (config, loaded, traced, made) = (examine-ok m path report).0 examined in
      let (stored, found, kept) =
        (run_doctor_healthy m.url m.http m.postgres m.storage m.fmt config m.disk).0
          (rw made at healthy) in
      (config, load-IsLoaded m.url m.toml m.system path loaded, stored, found, kept)

  -- A process that exits with success has done what its command promises. `serve` has loaded a valid
  -- configuration, connected every service, and its server has ended well, told to stop and within
  -- the time for that. `migrate` has loaded a valid configuration and migrated the database that
  -- it connected to by it, whose server named an expected version, and at its end the database had
  -- the expected schema. `doctor` has loaded a valid configuration, connected to a compatible
  -- database, been answered by a search engine that is available and of the expected version, and got
  -- the status of the storage.
  pub exit-IsDone :
      (cli : Cli)
      → IsGraceful m.process
      → exit m cli ≡ some (exit_success, [])
      → IsDone cli.config cli.command
  exit-IsDone cli graceful h = run-IsDone graceful cli.config cli.command ((exit_iff cli).0 h)

  -- `doctor` exits with success exactly where the configuration loads, the logging starts, the
  -- database connects and names an expected version and the expected schema, the search engine
  -- answers that it is available and of the expected version, the storage returns its status, and
  -- the report can be printed.
  pub exit_doctor_iff :
      (path : PathBuf) (as_json : Bool)
      → (exit m (record { config = path; command = doctor_command as_json })
          ≡ some (exit_success, []))
        ↔ ((config : Config) × (load m.url m.toml m.system path ≡ ok config)
            × (init_tracing m.tracing config.observability ≡ ok tt)
            × HasDatabase m.url m.http m.postgres m.storage config
            × HasSearch m.url m.http m.postgres m.storage config
            × ((kept : m.storage.StorageStatus) × ((doctor_storage m.url m.http m.postgres m.storage
                    config m.disk).0
                  ≡ ok kept))
            × CanPrint as_json (run_doctor m.url m.http m.postgres m.storage m.fmt config m.disk).0)
  exit_doctor_iff path as_json = (
    λ h.
        let (report, examined, healthy, print) = (doctor_iff path as_json).0 ((exit_iff _).0 h) in
        let (config, loaded, traced, made) = (examine-ok m path report).0 examined in
        let (stored, found, kept) =
          (run_doctor_healthy m.url m.http m.postgres m.storage m.fmt config m.disk).0
            (rw made at healthy) in
        (config, loaded, traced, stored, found, kept, subst (λ r. CanPrint as_json r) made print),
    λ (config, loaded, traced, stored, found, kept, print).
        let healthy =
          (run_doctor_healthy m.url m.http m.postgres m.storage m.fmt config m.disk).1
            (stored, found, kept) in
        (exit_iff _).1 (
          (doctor_iff path as_json).1
            (_, (examine-ok m path _).1 (config, loaded, traced, refl), healthy, print)),
  )
