-- ===== src/Debug.antt =====
-- The `Debug` texts of crates/app/src/config.rs, crates/store/src/postgres.rs and
-- crates/search/src/lib.rs, derived or written by hand, over `std::fmt`.
pub mod Secrets
pub mod Samples
use wiki_next.Base.{
  ℕ, zero, suc, ◌+◌, ◌-◌, ◌*◌, ◌%◌, ◌^◌, ◌≤◌, ◌<◌, String, ◌≡◌, refl, sym, ap, ◌∙◌, ◌≢◌, ◌↔◌, ◌⊎◌,
  inl, inr, Bool, true, false, not, ◌&&◌, ◌||◌, Option, none, some, List, [], ◌∷◌, ◌++◌, arith,
  ◌=ₛ◌, eq_iff, ltb, leb, ◌==◌, if◌then◌else◌, Bool-cases, Option-cases, is_some, is_none_or,
  is_some_and, all, any, All, Result, ok, err, ◌>>=◌, ◌>>◌, map_err, Result-cases,
}
use wiki_next.Net.{SocketAddr, UrlApi}
use wiki_next.Paths.{PathBuf}
use wiki_next.Config.Types.{
  Duration, Config, AppConfig, ServerConfig, DatabaseConfig, SearchConfig, StorageConfig,
  ObservabilityConfig, MigrationConfig, SecretString, LogFormat, pretty, json,
}
use wiki_next.Search.{HttpApi, SearchClient}
use wiki_next.Postgres.{DatabaseOptions}

-- `std::fmt`: the builder of a struct with its fields, shut or left open at its end, and the texts
-- of the values that the fields hold.
pub record DebugApi : Type 0 where
  pub debug_struct : String → List (String × String) → String
  pub debug_struct_open : String → List (String × String) → String
  pub text : String → String
  pub number : ℕ → String
  pub duration : Duration → String
  pub path : PathBuf → String
  pub address : SocketAddr → String

module _ (D : DebugApi) where
  -- Written by hand.
  unfoldable pub debug_secret : SecretString → String
  debug_secret secret = "[REDACTED]"

  unfoldable pub debug_database_config : DatabaseConfig → String
  debug_database_config config = D.debug_struct "DatabaseConfig" (
      ("url", D.text "[REDACTED]")
      ∷ ("max_connections", D.number config.max_connections)
      ∷ ("acquire_timeout_ms", D.number config.acquire_timeout_ms)
      ∷ [])

  unfoldable pub debug_database_options : DatabaseOptions → String
  debug_database_options options = D.debug_struct "DatabaseOptions" (
      ("url", D.text "[REDACTED]")
      ∷ ("max_connections", D.number options.max_connections)
      ∷ ("acquire_timeout", D.duration options.acquire_timeout)
      ∷ [])

  unfoldable pub debug_postgres_store : String
  debug_postgres_store = D.debug_struct_open "PostgresStore" []

  -- Derived.
  unfoldable pub debug_log_format : LogFormat → String
  debug_log_format pretty = "Pretty"
  debug_log_format json = "Json"

  unfoldable pub debug_app_config : AppConfig → String
  debug_app_config config = D.debug_struct "AppConfig" (("name", D.text config.name) ∷ [])

  unfoldable pub debug_server_config : ServerConfig → String
  debug_server_config config = D.debug_struct "ServerConfig" (
      ("bind", D.address config.bind)
      ∷ ("request_timeout_ms", D.number config.request_timeout_ms)
      ∷ ("shutdown_timeout_seconds", D.number config.shutdown_timeout_seconds)
      ∷ [])

  unfoldable pub debug_search_config : SearchConfig → String
  debug_search_config config = D.debug_struct "SearchConfig" (
      ("url", D.text config.url)
      ∷ ("api_key", debug_secret config.api_key)
      ∷ ("request_timeout_ms", D.number config.request_timeout_ms)
      ∷ [])

  unfoldable pub debug_storage_config : StorageConfig → String
  debug_storage_config config =
      D.debug_struct "StorageConfig" (("data_dir", D.path config.data_dir) ∷ [])

  unfoldable pub debug_observability_config : ObservabilityConfig → String
  debug_observability_config config =
      D.debug_struct "ObservabilityConfig"
        (("filter", D.text config.filter) ∷ ("format", debug_log_format config.format) ∷ [])

  unfoldable pub debug_config : Config → String
  debug_config config = D.debug_struct "Config" (
      ("app", debug_app_config config.app)
      ∷ ("server", debug_server_config config.server)
      ∷ ("database", debug_database_config config.database)
      ∷ ("search", debug_search_config config.search)
      ∷ ("storage", debug_storage_config config.storage)
      ∷ ("observability", debug_observability_config config.observability)
      ∷ [])

  unfoldable pub debug_migration_config : MigrationConfig → String
  debug_migration_config config = D.debug_struct "MigrationConfig" (
      ("database", debug_database_config config.database)
      ∷ ("observability", debug_observability_config config.observability)
      ∷ ("migration_url", debug_secret config.migration_url)
      ∷ ("application_role", D.text config.application_role)
      ∷ [])

  module _ (U : UrlApi) (W : HttpApi U.Url) (debug_url : U.Url → String) where
    unfoldable pub debug_search_client : SearchClient U W → String
    debug_search_client client =
        D.debug_struct_open "SearchClient" (("base_url", debug_url client.base_url) ∷ [])
