-- ===== src/Config/Environment.antt =====
-- The environment of the process, the file system as `Config::load` uses it, and
-- `apply_environment` of crates/app/src/config.rs.
use wiki_next.Base.{
  ℕ, String, Option, none, some, List, [], ◌∷◌, is_some, Result, ok, err, ◌>>=◌, ◌>>◌,
}
use wiki_next.Base.Text.{parse_unsigned}
use wiki_next.Net.{SocketAddr}
use wiki_next.Paths.{PathBuf, path_of}
use wiki_next.Config.Types.{
  Config, DatabaseConfig, ObservabilityConfig, MigrationConfigFile, ConfigError, environment,
  forbidden_environment, ambient_postgres_environment, IoError, parse_log_format, migration_url_env,
  ambient_postgres_env,
}
use wiki_next.Config.Validate.{reject_if}

-- `env::var`.
pub data EnvVar : Type 0 where
  present : String → EnvVar
  not_present not_unicode : EnvVar

-- What the loader takes from the operating system and the standard library.
pub record System : Type 1 where
  pub env : String → EnvVar
  pub parse_socket_addr : String → Option SocketAddr
  pub File : Type 0
  pub open_file : PathBuf → Result IoError File
  -- `take(n)`, read to its end.
  pub take_bytes : File → ℕ → Result IoError (List ℕ)
  pub from_utf8 : List ℕ → Result IoError String

-- `str::parse` for the types of the fields.
abbrev or_environment {ℓ} : {T : Type 0} {A : Type ℓ} → String → Option A → Result (ConfigError T) A
or_environment key none = err (environment key)
or_environment key (some a) = ok a

module _ (S : System) {T : Type 0} where
  abbrev read_var : String → EnvVar → Result (ConfigError T) (Option String)
  read_var key (present value) = ok (some value)
  read_var key not_present = ok none
  read_var key not_unicode = err (environment key)

  unfoldable pub read_environment : String → Result (ConfigError T) (Option String)
  read_environment key = read_var key (S.env key)

  abbrev override_by {ℓ} :
      {A : Type ℓ} → String → (String → Option A) → A → Option String → Result (ConfigError T) A
  override_by key parse target none = ok target
  override_by key parse target (some value) = or_environment key (parse value)

  -- `override_string`, and the overrides of the key and of the data directory, which cannot fail
  -- to parse.
  unfoldable pub override_string : String → String → Result (ConfigError T) String
  unfolding read_environment
  override_string key target = do
    value ← read_environment key
    override_by key (λ text. some text) target value

  unfoldable pub override_parsed {ℓ} :
      {A : Type ℓ} → String → (String → Option A) → A → Result (ConfigError T) A
  unfolding read_environment
  override_parsed key parse target = do
    value ← read_environment key
    override_by key parse target value

  unfoldable pub override_database : DatabaseConfig → Result (ConfigError T) DatabaseConfig
  override_database database = do
    url ← override_string "WIKINEXT_DATABASE_URL" database.url
    max_connections ←
        override_parsed "WIKINEXT_DATABASE_MAX_CONNECTIONS" (parse_unsigned 32)
          database.max_connections
    acquire_timeout_ms ←
        override_parsed "WIKINEXT_DATABASE_ACQUIRE_TIMEOUT_MS" (parse_unsigned 64)
          database.acquire_timeout_ms
    ok (record {
      url = url;
      max_connections = max_connections;
      acquire_timeout_ms = acquire_timeout_ms;
    })

  unfoldable pub override_observability :
      ObservabilityConfig → Result (ConfigError T) ObservabilityConfig
  override_observability observability = do
    filter ← override_string "WIKINEXT_LOG_FILTER" observability.filter
    format ← override_parsed "WIKINEXT_LOG_FORMAT" parse_log_format observability.format
    ok (record { filter = filter; format = format })

  -- `Config::apply_environment`.
  unfoldable pub apply_environment : Config → Result (ConfigError T) Config
  apply_environment config = do
    name ← override_string "WIKINEXT_APP_NAME" config.app.name
    bind ← override_parsed "WIKINEXT_BIND" S.parse_socket_addr config.server.bind
    request_timeout_ms ←
        override_parsed "WIKINEXT_REQUEST_TIMEOUT_MS" (parse_unsigned 64)
          config.server.request_timeout_ms
    shutdown_timeout_seconds ←
        override_parsed "WIKINEXT_SHUTDOWN_TIMEOUT_SECONDS" (parse_unsigned 64)
          config.server.shutdown_timeout_seconds
    database ← override_database config.database
    search_url ← override_string "WIKINEXT_MEILISEARCH_URL" config.search.url
    api_key ← override_string "WIKINEXT_MEILISEARCH_API_KEY" config.search.api_key.expose
    search_timeout_ms ←
        override_parsed "WIKINEXT_MEILISEARCH_TIMEOUT_MS" (parse_unsigned 64)
          config.search.request_timeout_ms
    data_dir ←
        override_parsed "WIKINEXT_DATA_DIR" (λ text. some (path_of text)) config.storage.data_dir
    observability ← override_observability config.observability
    ok (record {
      app = record { name = name };
      server = record {
        bind = bind;
        request_timeout_ms = request_timeout_ms;
        shutdown_timeout_seconds = shutdown_timeout_seconds;
      };
      database = database;
      search = record {
        url = search_url;
        api_key = record { expose = api_key };
        request_timeout_ms = search_timeout_ms;
      };
      storage = record { data_dir = data_dir };
      observability = observability;
    })

  -- `MigrationConfigFile::apply_environment`.
  unfoldable pub apply_migration_environment :
      MigrationConfigFile → Result (ConfigError T) MigrationConfigFile
  apply_migration_environment file = do
    database ← override_database file.database
    observability ← override_observability file.observability
    ok (record { database = database; observability = observability })

  unfoldable pub reject_runtime_migration_secret : Option String → Result (ConfigError T) (Unit {0})
  reject_runtime_migration_secret value =
      reject_if (is_some value) (forbidden_environment migration_url_env)

  unfoldable pub reject_ambient_postgres_value :
      String → Option String → Result (ConfigError T) (Unit {0})
  reject_ambient_postgres_value key value =
      reject_if (is_some value) (ambient_postgres_environment key)

  -- The loop over the names of the variables.
  unfoldable pub reject_ambient : List String → Result (ConfigError T) (Unit {0})
  unfolding read_environment reject_ambient_postgres_value
  reject_ambient [] = ok tt
  reject_ambient (key ∷ keys) = do
    value ← read_environment key
    reject_ambient_postgres_value key value
    reject_ambient keys

  unfoldable pub reject_ambient_postgres_environment : Result (ConfigError T) (Unit {0})
  unfolding reject_ambient
  reject_ambient_postgres_environment = reject_ambient ambient_postgres_env
