-- ===== src/Config/Validate.antt =====
-- The checks of crates/app/src/config.rs, over the `url` crate.
use wiki_next.Base.{
  ℕ, String, Bool, true, false, not, ◌&&◌, ◌||◌, Option, none, some, List, [], ◌∷◌, ◌=ₛ◌, ltb, leb,
  ◌==◌, if◌then◌else◌, is_some, is_none_or, is_some_and, all, Result, ok, err, ◌>>=◌, ◌>>◌, map_err,
}
use Prim.Native.String.{len}
use text.Mathlib.Text.{starts_with}
use wiki_next.Base.Text.{
  codes, length, is_empty, is_whitespace, trim_matches, is_ascii_alphabetic, is_ascii_alphanumeric,
}
use wiki_next.Net.{UrlApi, url_host_is_loopback}
use wiki_next.Paths.{is_unsafe}
use wiki_next.Config.Types.{
  Config, DatabaseConfig, ObservabilityConfig, ConfigError, MigrationConfigFile, MigrationConfig,
  invalid,
}

-- `if test { return Err(error) }`.
abbrev pub reject_if {ℓ} : {E : Type ℓ} → Bool → E → Result E (Unit {0})
reject_if true error = err error
reject_if false error = ok tt

-- The query parameters that would replace a part of the connection.
unfoldable pub is_override : String → Bool
is_override key =
    key =ₛ "host"
    || key =ₛ "hostaddr"
    || key =ₛ "user"
    || key =ₛ "password"
    || key =ₛ "dbname"
    || key =ₛ "port"
    || key =ₛ "options"
    || starts_with key "options["

abbrev starts_well : List ℕ → Bool
starts_well [] = false
starts_well (c ∷ _) = c == b'_' || is_ascii_alphabetic c

-- A simple ASCII identifier of at most 63 bytes.
unfoldable pub is_identifier : String → Bool
unfolding codes is_ascii_alphabetic is_ascii_alphanumeric
is_identifier role =
    not (role =ₛ "")
    && leb (len role) 63
    && starts_well (codes role)
    && all (λ c. c == b'_' || is_ascii_alphanumeric c) (codes role)

module _ {T : Type 0} where
  -- The loop over `url.query_pairs()`, with the `ssl_mode` found so far.
  unfoldable pub query_ssl_mode :
      String → List (String × String) → Option String → Result (ConfigError T) (Option String)
  query_ssl_mode field [] ssl_mode = ok ssl_mode
  query_ssl_mode field ((key, value) ∷ pairs) ssl_mode =
      let rest = query_ssl_mode field pairs (some value) in
      if is_override key
      then err (invalid field "query-переопределение параметров подключения запрещено")
      else if key =ₛ "ssl-mode"
      then err (invalid field "используйте только параметр sslmode")
      else if key =ₛ "sslmode"
      then (if is_some ssl_mode
          then err (invalid field "параметр sslmode нельзя дублировать")
          else rest)
      else err (invalid field "из query-параметров разрешён только sslmode")

  unfoldable pub validate_observability : ObservabilityConfig → Result (ConfigError T) (Unit {0})
  validate_observability config =
      reject_if (is_empty (trim_matches is_whitespace (codes config.filter)))
        (invalid "observability.filter" "фильтр логов не может быть пустым")

module _ (U : UrlApi) {T : Type 0} where
  -- `validate_database_url` once the text is parsed.
  unfoldable pub check_database_url : String → U.Url → Result (ConfigError T) (Unit {0})
  check_database_url field url = do
    reject_if (not (U.scheme url =ₛ "postgres" || U.scheme url =ₛ "postgresql"))
        (invalid field "ожидается postgres:// или postgresql://")
    reject_if (not (is_some (U.host url)))
        (invalid field "PostgreSQL URL должен явно задавать host")
    reject_if (is_none_or (λ p. p =ₛ "") (U.password url))
        (invalid field "PostgreSQL URL должен явно задавать непустой password")
    reject_if (is_empty (trim_matches (λ c. c == b'/') (codes (U.path url))))
        (invalid field "PostgreSQL URL должен явно задавать имя базы")
    reject_if (is_some (U.fragment url)) (invalid field "fragment в PostgreSQL URL запрещён")
    ssl_mode ← query_ssl_mode field (U.query_pairs url) none
    reject_if
        (not (url_host_is_loopback U url) && not (is_some_and (λ m. m =ₛ "verify-full") ssl_mode))
        (invalid field "удалённый PostgreSQL требует sslmode=verify-full")

  unfoldable pub validate_database_url : String → String → Result (ConfigError T) (Unit {0})
  validate_database_url field value = do
    url ← map_err (λ _. invalid field "некорректный PostgreSQL URL") (U.parse value)
    check_database_url field url

  unfoldable pub database_role : String → String → Result (ConfigError T) String
  database_role field value = do
    url ← map_err (λ _. invalid field "некорректный PostgreSQL URL") (U.parse value)
    reject_if (not (is_identifier (U.username url)))
        (invalid field "имя роли PostgreSQL должно быть простым ASCII identifier")
    ok (U.username url)

  -- `validate_search_url` once the text is parsed.
  unfoldable pub check_search_url : U.Url → Result (ConfigError T) (Unit {0})
  check_search_url url = do
    reject_if (not (U.scheme url =ₛ "http" || U.scheme url =ₛ "https"))
        (invalid "search.url" "ожидается http:// или https://")
    reject_if
        (not (U.username url =ₛ "")
          || is_some (U.password url)
          || is_some (U.query url)
          || is_some (U.fragment url))
        (invalid "search.url" "URL не должен содержать credentials, query или fragment")
    reject_if (U.scheme url =ₛ "http" && not (url_host_is_loopback U url))
        (invalid "search.url" "удалённый Meilisearch требует HTTPS")

  unfoldable pub validate_search_url : String → Result (ConfigError T) (Unit {0})
  validate_search_url value = do
    url ← map_err (λ _. invalid "search.url" "некорректный URL") (U.parse value)
    check_search_url url

  unfoldable pub validate_database_config : DatabaseConfig → Result (ConfigError T) (Unit {0})
  validate_database_config database = do
    reject_if (not (leb 1 database.max_connections && leb database.max_connections 128))
        (invalid "database.max_connections" "допустим диапазон 1..=128")
    reject_if (database.acquire_timeout_ms == 0 || ltb 60000 database.acquire_timeout_ms)
        (invalid "database.acquire_timeout_ms" "допустим диапазон 1..=60000")
    validate_database_url "database.url" database.url
    role ← database_role "database.url" database.url
    ok tt

  -- `Config::validate`.
  unfoldable pub validate : Config → Result (ConfigError T) (Unit {0})
  validate config = do
    let app_name = trim_matches is_whitespace (codes config.app.name)
    reject_if (is_empty app_name || ltb 80 (length app_name))
        (invalid "app.name" "нужна строка длиной от 1 до 80 символов")
    reject_if (config.server.request_timeout_ms == 0 || ltb 120000 config.server.request_timeout_ms)
        (invalid "server.request_timeout_ms" "допустим диапазон 1..=120000")
    reject_if
        (config.server.shutdown_timeout_seconds == 0
          || ltb 300 config.server.shutdown_timeout_seconds)
        (invalid "server.shutdown_timeout_seconds" "допустим диапазон 1..=300")
    validate_database_config config.database
    validate_search_url config.search.url
    reject_if (ltb (len config.search.api_key.expose) 16)
        (invalid "search.api_key" "ключ Meilisearch должен содержать не менее 16 байт")
    reject_if (config.search.request_timeout_ms == 0 || ltb 60000 config.search.request_timeout_ms)
        (invalid "search.request_timeout_ms" "допустим диапазон 1..=60000")
    reject_if (is_unsafe config.storage.data_dir)
        (invalid "storage.data_dir" "нужен отдельный каталог без переходов через ..")
    validate_observability config.observability

  -- `MigrationConfig::build`.
  unfoldable pub build : MigrationConfigFile → String → Result (ConfigError T) MigrationConfig
  build file migration_url = do
    validate_database_config file.database
    validate_database_url "migration.database_url" migration_url
    migration_role ← database_role "migration.database_url" migration_url
    validate_observability file.observability
    application_role ← database_role "database.url" file.database.url
    ok (record {
      database = file.database;
      observability = file.observability;
      migration_url = record { expose = migration_url };
      application_role = application_role;
    })
