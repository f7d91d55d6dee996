-- ===== src/Config/Load.antt =====
-- `Config::load` and `MigrationConfig::load` of crates/app/src/config.rs, over the `toml` crate.
use wiki_next.Base.{ℕ, ◌+◌, String, Option, none, some, ltb, Result, ok, ◌>>=◌, ◌>>◌, map_err}
use Prim.Native.String.{len}
use wiki_next.Net.{UrlApi, SocketAddr}
use wiki_next.Paths.{PathBuf, path_of}
use wiki_next.Config.Types.{
  Config, MigrationConfigFile, MigrationConfig, ConfigError, read, too_large, parse, DatabaseConfig,
  ObservabilityConfig, LogFormat, max_config_bytes, migration_url_env, default_request_timeout_ms,
  default_shutdown_timeout_seconds, default_database_connections,
  default_database_acquire_timeout_ms, default_search_timeout_ms, default_log_filter,
  log_format_default, observability_default,
}
use wiki_next.Config.Validate.{reject_if, validate, build}
use wiki_next.Config.Environment.{
  System, read_environment, apply_environment, apply_migration_environment,
  reject_runtime_migration_secret, reject_ambient_postgres_environment,
}

-- The tables of the file as they are given; what has a default may be left out.
pub record DatabaseTable : Type 0 where
  pub url : String
  pub max_connections : Option ℕ
  pub acquire_timeout_ms : Option ℕ

pub record ObservabilityTable : Type 0 where
  pub filter : Option String
  pub format : Option LogFormat

pub record ConfigTables : Type 0 where
  pub app_name : String
  pub bind : SocketAddr
  pub request_timeout_ms : Option ℕ
  pub shutdown_timeout_seconds : Option ℕ
  pub database : DatabaseTable
  pub search_url : String
  pub search_api_key : String
  pub search_timeout_ms : Option ℕ
  pub data_dir : String
  pub observability : Option ObservabilityTable

-- The `toml` crate: a text as tables, unknown fields refused for the whole configuration.
pub record TomlApi : Type 1 where
  pub TomlError : Type 0
  pub config_tables : String → Result TomlError ConfigTables
  pub migration_tables : String → Result TomlError (DatabaseTable × Option ObservabilityTable)

abbrev pub get_or {ℓ} : {A : Type ℓ} → Option A → A → A
get_or none d = d
get_or (some a) d = a

-- The derived `Deserialize` with its `serde(default)`s.
unfoldable pub database_of : DatabaseTable → DatabaseConfig
database_of t = record {
  url = t.url;
  max_connections = get_or t.max_connections default_database_connections;
  acquire_timeout_ms = get_or t.acquire_timeout_ms default_database_acquire_timeout_ms;
}

unfoldable pub observability_of : Option ObservabilityTable → ObservabilityConfig
observability_of none = observability_default
observability_of (some t) = record {
  filter = get_or t.filter default_log_filter;
  format = get_or t.format log_format_default;
}

unfoldable pub config_of : ConfigTables → Config
unfolding database_of observability_of
config_of t = record {
  app = record { name = t.app_name };
  server = record {
    bind = t.bind;
    request_timeout_ms = get_or t.request_timeout_ms default_request_timeout_ms;
    shutdown_timeout_seconds = get_or t.shutdown_timeout_seconds default_shutdown_timeout_seconds;
  };
  database = database_of t.database;
  search = record {
    url = t.search_url;
    api_key = record { expose = t.search_api_key };
    request_timeout_ms = get_or t.search_timeout_ms default_search_timeout_ms;
  };
  storage = record { data_dir = path_of t.data_dir };
  observability = observability_of t.observability;
}

unfoldable pub migration_file_of : DatabaseTable × Option ObservabilityTable → MigrationConfigFile
unfolding database_of observability_of
migration_file_of (database, observability) = record {
  database = database_of database;
  observability = observability_of observability;
}

module _ (S : System) {T : Type 0} where
  unfoldable pub read_bounded : PathBuf → Result (ConfigError T) String
  read_bounded path = do
    file ← map_err (read path) (S.open_file path)
    text ← map_err (read path) (S.take_bytes file (max_config_bytes + 1) >>= S.from_utf8)
    reject_if (ltb max_config_bytes (len text)) (too_large path max_config_bytes)
    ok text

module _ (U : UrlApi) (M : TomlApi) where
  abbrev pub Loaded : Type 0 → Type 0
  Loaded A = Result (ConfigError M.TomlError) A

  -- `Config::from_toml`.
  unfoldable pub from_toml : String → Loaded Config
  from_toml text = do
    tables ← map_err parse (M.config_tables text)
    validate U (config_of tables)
    ok (config_of tables)

  -- `MigrationConfig::from_toml`.
  unfoldable pub migration_from_toml : String → Loaded MigrationConfig
  migration_from_toml text = do
    tables ← map_err parse (M.migration_tables text)
    build U (migration_file_of tables) (migration_file_of tables).database.url

  module _ (S : System) where
    -- `Config::load`.
    unfoldable pub load : PathBuf → Loaded Config
    load path = do
      secret ← read_environment S migration_url_env
      reject_runtime_migration_secret S secret
      reject_ambient_postgres_environment S
      text ← read_bounded S path
      tables ← map_err parse (M.config_tables text)
      config ← apply_environment S (config_of tables)
      validate U config
      ok config

    -- `MigrationConfig::load`.
    unfoldable pub migration_load : PathBuf → Loaded MigrationConfig
    migration_load path = do
      reject_ambient_postgres_environment S
      text ← read_bounded S path
      tables ← map_err parse (M.migration_tables text)
      file ← apply_migration_environment S (migration_file_of tables)
      secret ← read_environment S migration_url_env
      build U file (get_or secret file.database.url)
