-- ===== src/Command/Doctor.antt =====
-- What `doctor` of crates/server/src/main.rs writes, beside its exit code.
use wiki_next.Base.{
  String, ◌≡◌, refl, ◌∙◌, Bool, true, false, not, ◌&&◌, some, [], ◌∷◌, List, arith, if◌then◌else◌,
  Result, ok, err,
}
use Prim.Native.String.{◌++◌ as ◌<>◌}
use wiki_next.Paths.{PathBuf}
use wiki_next.Config.Types.{Config}
use wiki_next.Config.Load.{load}
use wiki_next.Display.{display_store_error, display_search_error}
use wiki_next.Runtime.Report.{doctor_check, report_new, success, failure, is_ok}
use wiki_next.Runtime.Startup.{succeeded, healthy-run_doctor}
use wiki_next.Runtime.Services.{
  doctor_database, doctor_search, doctor_storage, run_doctor, doctor_report,
}
use wiki_next.Server.Telemetry.{init_tracing}
use wiki_next.Command.Phases.{examine-ok}
use wiki_next.Command.Run.{
  exit_of, check_lines, display, display_cli_error, doctor_failed, doctor_command, Cli,
  exit_success, exit_failure, Machine, check_line, run, exit,
}

-- A line says whether the component has answered, and what, or the text of its error.
abbrev pub told_of : {E A : Type 0} → String → (A → String) → (E → String) → Result E A → String
told_of component show complain (ok a) = "[" <> "OK" <> "] " <> component <> ": " <> show a
told_of component show complain (err e) = "[" <> "ОШИБКА" <> "] " <> component <> ": " <> complain e

check_line-doctor_check :
    {E A : Type 0} (component : String) (show : A → String) (complain : E → String) (r : Result E A)
    → check_line (doctor_check component show complain r) ≡ told_of component show complain r
unfolding check_line success failure is_ok
check_line-doctor_check component show complain (ok a) = refl
check_line-doctor_check component show complain (err e) = refl

and_true : (a b c : Bool) → (a && (b && (c && true))) ≡ (a && b && c)
and_true a b c = ground arith

module _ (m : Machine) where
  -- The lines for the three components.
  abbrev pub told : Config → List String
  told config =
      told_of "postgresql"
        (λ status.
          "PostgreSQL "
          <> status.server_version
          <> ", схема "
          <> m.fmt.signed status.schema_version)
        (display_store_error m.fmt) (doctor_database m.url m.http m.postgres m.storage config)
      ∷ told_of "meilisearch" (λ status. "Meilisearch " <> status.version <> " доступен")
          (display_search_error m.fmt) (doctor_search m.url m.http m.postgres m.storage config)
      ∷ told_of "storage"
          (λ status. "каталог " <> m.fmt.path (m.storage.root status) <> " доступен")
          (m.storage.display_error m.fmt)
          (doctor_storage m.url m.http m.postgres m.storage config m.disk).0
      ∷ []

  -- The three components have all returned their status.
  abbrev pub all_succeeded : Config → Bool
  all_succeeded config =
      succeeded (doctor_database m.url m.http m.postgres m.storage config)
      && succeeded (doctor_search m.url m.http m.postgres m.storage config)
      && succeeded (doctor_storage m.url m.http m.postgres m.storage config m.disk).0

  abbrev pub doctor : PathBuf → Bool → Cli
  doctor path as_json = record { config = path; command = doctor_command as_json }

  check_lines-run_doctor :
      (config : Config)
      → check_lines (run_doctor m.url m.http m.postgres m.storage m.fmt config m.disk).0.checks
        ≡ told config
  unfolding run_doctor doctor_report report_new
  check_lines-run_doctor config =
      rw
        (
          check_line-doctor_check "postgresql" _ (display_store_error m.fmt)
              (doctor_database m.url m.http m.postgres m.storage config),
          check_line-doctor_check "meilisearch" _ (display_search_error m.fmt)
              (doctor_search m.url m.http m.postgres m.storage config),
          check_line-doctor_check "storage" _ (m.storage.display_error m.fmt)
              (doctor_storage m.url m.http m.postgres m.storage config m.disk).0,
        )
        refl

  exit_of-verdict :
      (healthy : Bool)
      → exit_of m (some (if not healthy then err doctor_failed else ok tt)) ≡ (
          if healthy
          then some (exit_success, [])
          else some (exit_failure, "Ошибка: doctor обнаружил ошибки" ∷ []))
  unfolding display display_cli_error
  exit_of-verdict true = refl
  exit_of-verdict false = refl

  -- Where the configuration loads and the logging starts, `doctor` without `--json` writes one line
  -- for each of the database, the search engine and the storage, whether they answer or not: `[OK]` with what has
  -- answered, or `[ОШИБКА]` with the text of the error. The process ends with success and nothing on
  -- the standard error if no line is of the second kind, else with failure and one line there.
  pub doctor_tells :
      (path : PathBuf) (config : Config)
      → load m.url m.toml m.system path ≡ ok config
      → init_tracing m.tracing config.observability ≡ ok tt
      → ((run m (doctor path false)).1 ≡ told config)
        × (exit m (doctor path false) ≡ (
            if all_succeeded config
            then some (exit_success, [])
            else some (exit_failure, "Ошибка: doctor обнаружил ошибки" ∷ [])))
  unfolding run exit
  doctor_tells path config loaded traced =
      let report = (run_doctor m.url m.http m.postgres m.storage m.fmt config m.disk).0 in
      let examined = (examine-ok m path report).1 (config, loaded, traced, refl) in
      let healthy : report.healthy ≡ all_succeeded config =
        healthy-run_doctor m.url m.http m.postgres m.storage m.fmt config m.disk
        ∙ and_true (succeeded (doctor_database m.url m.http m.postgres m.storage config))
            (succeeded (doctor_search m.url m.http m.postgres m.storage config))
            (succeeded (doctor_storage m.url m.http m.postgres m.storage config m.disk).0) in
      (
        rw examined (check_lines-run_doctor config),
        rw (examined, healthy) (exit_of-verdict (all_succeeded config)),
      )
