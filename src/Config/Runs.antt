-- ===== src/Config/Runs.antt =====
-- Runs of the configuration, and the theorems at them.
use wiki_next.Base.{ℕ, ◌≤◌, ◌≡◌, refl, ◌↔◌, List, ok, err}
use wiki_next.Base.Lists.{length}
use wiki_next.Paths.{path_of}
use wiki_next.Config.Types.{MigrationConfig, validation, invalid, max_config_bytes}
use wiki_next.Config.Validate.{build, validate, validate_database_url}
use wiki_next.Config.DatabaseUrl.{IsSafeDatabaseUrl, validate_database_url_iff}
use wiki_next.Config.Valid.{IsValidConfig, validate_iff}
use wiki_next.Config.Environment.{apply_migration_environment, read_environment}
use wiki_next.Config.Load.{migration_file_of, read_bounded, load, migration_load}
use wiki_next.Config.Laws.{read_bounded_whole, IsLoaded, load-IsLoaded}
use wiki_next.Config.Migrating.{IsLoadedMigration, migration_load-IsLoadedMigration}
use wiki_next.Config.Samples.{
  UrlParts, parse_parts, urls, system, system-IsLawful, decode_one, toml, opened, loaded,
}

runs :
    (validate_database_url urls {T = Unit} "f" "local" ≡ ok tt)
    × (validate_database_url urls {T = Unit} "f" "verified" ≡ ok tt)
    × (validate_database_url urls {T = Unit} "f" "remote"
        ≡ err (validation "f" "удалённый PostgreSQL требует sslmode=verify-full"))
    × (validate_database_url urls {T = Unit} "f" "twice"
        ≡ err (validation "f" "параметр sslmode нельзя дублировать"))
    × (validate_database_url urls {T = Unit} "f" "options"
        ≡ err (validation "f" "query-переопределение параметров подключения запрещено"))
unfolding opened invalid
runs = (refl, refl, refl, refl, refl)

loads : load urls toml system (path_of "config.toml") ≡ ok loaded
unfolding load opened
loads = refl

validate_database_url_iff_example :
    (validate_database_url urls {T = Unit} "f" "verified" ≡ ok tt)
    ↔ ((url : UrlParts) × (parse_parts "verified" ≡ ok url) × IsSafeDatabaseUrl urls url)
validate_database_url_iff_example = validate_database_url_iff urls Unit "f" "verified"

validate_iff_example : (validate urls {T = Unit} loaded ≡ ok tt) ↔ IsValidConfig urls loaded
validate_iff_example = validate_iff urls Unit loaded

read_bounded_whole_example :
    (file : List ℕ) × (system.open_file (path_of "config.toml") ≡ ok file)
    × (decode_one file ≡ ok "x")
    × (length file ≤ max_config_bytes)
unfolding read_bounded system-IsLawful
read_bounded_whole_example =
    read_bounded_whole system system-IsLawful Unit (path_of "config.toml") refl

load-IsLoaded_example : IsLoaded urls toml system (path_of "config.toml") loaded
load-IsLoaded_example = load-IsLoaded urls toml system (path_of "config.toml") loads

abbrev migrating : MigrationConfig
migrating = record {
  database = loaded.database;
  observability = loaded.observability;
  migration_url = record { expose = "local" };
  application_role = "wikinext";
}

migration_loads : migration_load urls toml system (path_of "config.toml") ≡ ok migrating
unfolding migration_load migration_file_of apply_migration_environment build read_environment opened
migration_loads = refl

migration_load-IsLoadedMigration_example :
    IsLoadedMigration urls toml system (path_of "config.toml") migrating
migration_load-IsLoadedMigration_example =
    migration_load-IsLoadedMigration urls toml system (path_of "config.toml") migration_loads
