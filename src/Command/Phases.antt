-- ===== src/Command/Phases.antt =====
-- The parts of the commands in crates/server/src/main.rs that go before their last step.
use wiki_next.Base.{String, ◌≡◌, ◌↔◌, inl, inr, true, arith, Bool-cases, ok, Result-cases}
use wiki_next.Paths.{PathBuf}
use wiki_next.Config.Types.{Config, MigrationConfig}
use wiki_next.Config.Load.{load, migration_load}
use wiki_next.Config.Migrating.{IsLoadedMigration, migration_load-IsLoadedMigration}
use wiki_next.Postgres.{
  done, diagnose, DatabaseStatus, World, is_expected_postgres_version, connect_store, migrate,
}
use wiki_next.Postgres.Compatible.{IsCompatible, migrate-IsCompatible}
use wiki_next.Postgres.Migration.{timed_cases, migrate_guarded}
use wiki_next.Runtime.Report.{DiagnosticReport}
use wiki_next.Runtime.Services.{AppServices, connect, run_migration, migration_options, run_doctor}
use wiki_next.Server.Telemetry.{init_tracing}
use wiki_next.Command.Run.{Machine, start_services, run_migrate, examine}

module _ (m : Machine) where
  pub start_services-ok :
      (path : PathBuf) {config : Config} {services : AppServices m.url m.http m.postgres m.storage}
      → start_services m path ≡ ok (config, services)
      → (load m.url m.toml m.system path ≡ ok config)
        × (init_tracing m.tracing config.observability ≡ ok tt)
        × ((connect m.url m.http m.postgres m.storage config m.disk).0 ≡ ok services)
  unfolding start_services
  start_services-ok path {config} {services} h =
      elim (Result-cases (load m.url m.toml m.system path)) [
        | inr (e, failed) ↦ ground arith
        | inl (c, loaded) ↦ elim (Result-cases (init_tracing m.tracing c.observability)) [
          | inr (e, failed) ↦ ground arith
          | inl (u, traced) ↦
              elim (Result-cases (connect m.url m.http m.postgres m.storage c m.disk).0) [
                | inr (e, failed) ↦ ground arith
                | inl (s, connected) ↦
                    let same : c ≡ config = ground arith in
                    let same' : s ≡ services = ground arith in
                    (rw (← same) loaded, rw (← same) traced, ground arith)
              ]
        ]
      ]

  pub examine-ok :
      (path : PathBuf) (report : DiagnosticReport)
      → (examine m path ≡ ok report) ↔ (
          (config : Config) × (load m.url m.toml m.system path ≡ ok config)
          × (init_tracing m.tracing config.observability ≡ ok tt)
          × (report ≡ (run_doctor m.url m.http m.postgres m.storage m.fmt config m.disk).0))
  unfolding examine
  examine-ok path report = (
    λ h. elim (Result-cases (load m.url m.toml m.system path)) [
      | inr (e, failed) ↦ ground arith
      | inl (c, loaded) ↦ elim (Result-cases (init_tracing m.tracing c.observability)) [
        | inr (e, failed) ↦ ground arith
        | inl (u, traced) ↦ (c, loaded, traced, ground arith)
      ]
    ],
    λ (c, loaded, traced, e). ground arith,
  )

  -- The migration has loaded a valid configuration and connected by it, the server of the database
  -- has named an expected version, and a last diagnosis has found the database compatible.
  abbrev pub IsMigrated : PathBuf → Type 0
  IsMigrated path =
      (config : MigrationConfig) × IsLoadedMigration m.url m.toml m.system path config
      × ((world : World m.postgres) × (connect_store m.postgres (migration_options config)
            ≡ ok world)
          × ((version : String) × ((m.postgres.server_version world.state).0 ≡ done (ok version))
              × (is_expected_postgres_version version ≡ true))
          × ((last : World m.postgres) × (status : DatabaseStatus) × IsCompatible m.postgres last
                status
              × ((migrate m.postgres config.application_role m.deadline world)
                  ≡ (ok tt, (diagnose m.postgres last).1))))

  migrate-expected :
      (role : String) (world : World m.postgres)
      → (migrate m.postgres role m.deadline world).0 ≡ ok tt
      → (version : String) × ((m.postgres.server_version world.state).0 ≡ done (ok version))
        × (is_expected_postgres_version version ≡ true)
  migrate-expected role world h =
      let failing = migrate_guarded m.postgres role m.deadline world in
      elim (timed_cases (m.postgres.server_version world.state).0) [
        | inl e ↦ absurd ((failing (λ v named. ground arith)).2 h)
        | inr (inl (p, e)) ↦ absurd ((failing (λ v named. ground arith)).2 h)
        | inr (inr (version, e)) ↦ elim (Bool-cases (is_expected_postgres_version version)) [
          | inl expected ↦ (version, e, expected)
          | inr refused ↦ absurd ((failing (λ v named. ground arith)).2 h)
        ]
      ]

  pub run_migrate-IsMigrated : (path : PathBuf) → run_migrate m path ≡ ok tt → IsMigrated path
  unfolding run_migrate run_migration
  run_migrate-IsMigrated path h = elim (Result-cases (migration_load m.url m.toml m.system path)) [
    | inr (e, failed) ↦ ground arith
    | inl (config, loaded) ↦ elim (Result-cases (init_tracing m.tracing config.observability)) [
      | inr (e, failed) ↦ ground arith
      | inl (u, traced) ↦
          elim (Result-cases (connect_store m.postgres (migration_options config))) [
            | inr (e, failed) ↦ ground arith
            | inl (world, connected) ↦
                elim (Result-cases
                  (migrate m.postgres config.application_role m.deadline world).0) [
                    | inr (e, failed) ↦ ground arith
                    | inl (v, migrated) ↦
                        let named = migrate-expected config.application_role world migrated in
                        let valid =
                          migration_load-IsLoadedMigration m.url m.toml m.system path loaded in
                        let (last, status, compatible, end) =
                          migrate-IsCompatible m.postgres config.application_role m.deadline world
                            migrated in
                        (
                          config,
                          valid,
                          (
                            world,
                            connected,
                            named,
                            (last, status, compatible, λ i. (migrated i, end i)),
                          ),
                        )
                  ]
          ]
    ]
  ]
