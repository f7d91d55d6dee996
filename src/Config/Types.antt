-- ===== src/Config/Types.antt =====
-- The types of crates/app/src/config.rs, with the constants and the defaults.
use wiki_next.Base.{ℕ, ◌*◌, String, Option, none, some, List, [], ◌∷◌, ◌=ₛ◌, if◌then◌else◌}
use wiki_next.Net.{SocketAddr}
use wiki_next.Paths.{PathBuf}

abbrev pub max_config_bytes : ℕ
max_config_bytes = 1024 * 1024

abbrev pub migration_url_env : String
migration_url_env = "WIKINEXT_DATABASE_MIGRATION_URL"

abbrev pub ambient_postgres_env : List String
ambient_postgres_env =
    "PGPORT" ∷ "PGHOSTADDR" ∷ "PGHOST" ∷ "PGUSER" ∷ "PGDATABASE" ∷ "PGPASSWORD" ∷ "PGSSLROOTCERT"
    ∷ "PGSSLCERT" ∷ "PGSSLKEY" ∷ "PGSSLMODE" ∷ "PGAPPNAME" ∷ "PGOPTIONS" ∷ "PGPASSFILE" ∷ []

pub data LogFormat : Type 0 where
  pretty json : LogFormat

-- `Default` and `FromStr` of `LogFormat`.
abbrev pub log_format_default : LogFormat
log_format_default = pretty

unfoldable pub parse_log_format : String → Option LogFormat
parse_log_format value =
    if value =ₛ "pretty" then some pretty else if value =ₛ "json" then some json else none

pub record SecretString : Type 0 where
  pub expose : String

pub record AppConfig : Type 0 where
  pub name : String

pub record ServerConfig : Type 0 where
  pub bind : SocketAddr
  pub request_timeout_ms : ℕ
  pub shutdown_timeout_seconds : ℕ

pub record DatabaseConfig : Type 0 where
  pub url : String
  pub max_connections : ℕ
  pub acquire_timeout_ms : ℕ

pub record SearchConfig : Type 0 where
  pub url : String
  pub api_key : SecretString
  pub request_timeout_ms : ℕ

pub record StorageConfig : Type 0 where
  pub data_dir : PathBuf

pub record ObservabilityConfig : Type 0 where
  pub filter : String
  pub format : LogFormat

pub record Config : Type 0 where
  pub app : AppConfig
  pub server : ServerConfig
  pub database : DatabaseConfig
  pub search : SearchConfig
  pub storage : StorageConfig
  pub observability : ObservabilityConfig

pub record MigrationConfigFile : Type 0 where
  pub database : DatabaseConfig
  pub observability : ObservabilityConfig

pub record MigrationConfig : Type 0 where
  pub database : DatabaseConfig
  pub observability : ObservabilityConfig
  pub migration_url : SecretString
  pub application_role : String

-- A `Duration`, in milliseconds.
abbrev pub Duration : Type 0
Duration = ℕ

unfoldable pub server_request_timeout : ServerConfig → Duration
server_request_timeout server = server.request_timeout_ms

unfoldable pub shutdown_timeout : ServerConfig → Duration
shutdown_timeout server = server.shutdown_timeout_seconds * 1000

unfoldable pub acquire_timeout : DatabaseConfig → Duration
acquire_timeout database = database.acquire_timeout_ms

unfoldable pub search_request_timeout : SearchConfig → Duration
search_request_timeout search = search.request_timeout_ms

abbrev pub default_request_timeout_ms : ℕ
default_request_timeout_ms = 10000

abbrev pub default_shutdown_timeout_seconds : ℕ
default_shutdown_timeout_seconds = 20

abbrev pub default_database_connections : ℕ
default_database_connections = 16

abbrev pub default_database_acquire_timeout_ms : ℕ
default_database_acquire_timeout_ms = 5000

abbrev pub default_search_timeout_ms : ℕ
default_search_timeout_ms = 2000

abbrev pub default_log_filter : String
default_log_filter = "wikinext=info,tower_http=info"

-- `Default` of `ObservabilityConfig`.
abbrev pub observability_default : ObservabilityConfig
observability_default = record { filter = default_log_filter; format = log_format_default }

-- An I/O error by its kind: `NotFound`, or another by number.
pub data IoError : Type 0 where
  not_found : IoError
  other : ℕ → IoError

pub data ConfigError (TomlError : Type 0) : Type 0 where
  read : PathBuf → IoError → ConfigError TomlError
  too_large : PathBuf → ℕ → ConfigError TomlError
  parse : TomlError → ConfigError TomlError
  environment : String → ConfigError TomlError
  forbidden_environment : String → ConfigError TomlError
  ambient_postgres_environment : String → ConfigError TomlError
  validation : String → String → ConfigError TomlError

unfoldable pub invalid : {TomlError : Type 0} → String → String → ConfigError TomlError
invalid field reason = validation field reason
