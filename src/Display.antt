-- ===== src/Display.antt =====
-- The `Display` texts of the errors, by the `error` attributes of `thiserror`, in crates/app,
-- crates/search, crates/server and crates/store.
use wiki_next.Base.{ℕ, String}
use Prim.Native.String.{◌++◌ as ◌<>◌}
use wiki_next.Paths.{PathBuf}
use wiki_next.Config.Types.{Duration, ConfigError}
use wiki_next.Config.Types
use wiki_next.Postgres
use wiki_next.Postgres.{StoreError}
use wiki_next.Search
use wiki_next.Search.{SearchError, max_diagnostic_response_bytes}
use wiki_next.Storage
use wiki_next.Storage.{StorageError}
use wiki_next.Password
use wiki_next.Password.{PasswordError, max_password_bytes}
use wiki_next.Server.Shutdown
use wiki_next.Server.Shutdown.{ServerError}
use wiki_next.Server.Telemetry.{TelemetryError, filter, already_initialized}

-- `std::fmt` of the values that the texts hold: `{}` of a number, of an `i32` by its bits, of a
-- status code and of a path, `{:#o}` of a number, `{:?}` of a text and of a duration.
pub record FmtApi : Type 0 where
  pub number : ℕ → String
  pub signed : ℕ → String
  pub status_code : ℕ → String
  pub path : PathBuf → String
  pub octal : ℕ → String
  pub debug_text : String → String
  pub debug_duration : Duration → String

module _ (F : FmtApi) where
  unfoldable pub display_config_error : {TomlError : Type 0} → ConfigError TomlError → String
  display_config_error (Types.read path source) =
      "не удалось прочитать конфигурацию " <> F.path path
  display_config_error (Types.too_large path limit) =
      "конфигурация " <> F.path path <> " превышает предел " <> F.number limit <> " байт"
  display_config_error (Types.parse source) = "не удалось разобрать конфигурацию"
  display_config_error (Types.environment key) = "некорректная переменная окружения " <> key
  display_config_error (Types.forbidden_environment key) =
      "переменная окружения " <> key <> " разрешена только для команды migrate"
  display_config_error (Types.ambient_postgres_environment key) =
      "переменная окружения " <> key
      <> " может неявно изменить PostgreSQL DSN; используйте только WIKINEXT_DATABASE_URL"
  display_config_error (Types.validation field reason) =
      "некорректное поле конфигурации " <> field <> ": " <> reason

  unfoldable pub display_store_error :
      {SqlError MigrateError : Type 0} → StoreError SqlError MigrateError → String
  display_store_error (Postgres.connect source) = "не удалось подключиться к PostgreSQL"
  display_store_error (Postgres.probe source) = "проверка PostgreSQL завершилась ошибкой"
  display_store_error (Postgres.migration_setup source) =
      "не удалось настроить deadline миграции PostgreSQL"
  display_store_error (Postgres.incompatible_server expected actual) =
      "ожидался PostgreSQL " <> expected <> ", получена версия " <> actual
  display_store_error (Postgres.incompatible_schema expected actual) =
      "ожидалась схема БД версии " <> F.signed expected <> ", получена версия " <> F.signed actual
  display_store_error (Postgres.migration source) = "не удалось применить миграции PostgreSQL"
  display_store_error (Postgres.timeout operation timeout) =
      "операция PostgreSQL " <> operation <> " превысила deadline " <> F.debug_duration timeout

  unfoldable pub display_search_error :
      {ParseError HeaderError RequestError JsonError : Type 0}
      → SearchError ParseError HeaderError RequestError JsonError
      → String
  display_search_error (Search.invalid_url source) = "некорректный URL Meilisearch"
  display_search_error Search.unsupported_scheme =
      "URL Meilisearch должен использовать http или https"
  display_search_error Search.insecure_remote = "удалённый Meilisearch требует HTTPS"
  display_search_error Search.unsafe_url =
      "URL Meilisearch не должен содержать логин, пароль, query или fragment"
  display_search_error (Search.invalid_api_key source) =
      "ключ Meilisearch нельзя передать в HTTP-заголовке"
  display_search_error (Search.client_error source) = "не удалось создать HTTP-клиент Meilisearch"
  display_search_error (Search.request source) = "Meilisearch недоступен"
  display_search_error (Search.http status) = "Meilisearch вернул HTTP " <> F.status_code status
  display_search_error Search.response_too_large =
      "ответ Meilisearch превышает предел " <> F.number max_diagnostic_response_bytes <> " байт"
  display_search_error (Search.decode source) = "Meilisearch вернул некорректный JSON"
  display_search_error (Search.unhealthy status) =
      "Meilisearch сообщил состояние " <> F.debug_text status
  display_search_error (Search.incompatible_version expected actual) =
      "ожидался Meilisearch " <> expected <> ", получена версия " <> actual

  unfoldable pub display_storage_error : StorageError → String
  display_storage_error (Storage.create path source) = "не удалось создать каталог " <> F.path path
  display_storage_error (Storage.inspect path source) =
      "не удалось проверить каталог " <> F.path path
  display_storage_error (Storage.symlink path) =
      "путь " <> F.path path <> " является символической ссылкой"
  display_storage_error (Storage.not_directory path) =
      "путь " <> F.path path <> " не является каталогом"
  display_storage_error (Storage.unsafe_path path) =
      "небезопасный путь локального хранилища " <> F.path path
  display_storage_error (Storage.unsafe_permissions path actual) =
      "каталог "
      <> F.path path
      <> " имеет небезопасные права "
      <> F.octal actual
      <> "; ожидается отдельный приватный каталог с правами 0o700"
  display_storage_error (Storage.not_writable path source) =
      "каталог " <> F.path path <> " недоступен для записи"

  unfoldable pub display_password_error : {HashError : Type 0} → PasswordError HashError → String
  display_password_error Password.empty = "пароль не может быть пустым"
  display_password_error Password.too_long =
      "пароль превышает предел " <> F.number max_password_bytes <> " байт"
  display_password_error Password.unsafe_hash = "хеш пароля не соответствует безопасной политике"
  display_password_error (Password.hash_error source) = "операция Argon2id завершилась ошибкой"

  unfoldable pub display_telemetry_error :
      {ParseError InitError : Type 0} → TelemetryError ParseError InitError → String
  display_telemetry_error (filter source) = "некорректный фильтр логов"
  display_telemetry_error (already_initialized source) = "логирование уже инициализировано"

  unfoldable pub display_server_error : ServerError → String
  display_server_error (Shutdown.bind source) = "не удалось открыть HTTP-сокет"
  display_server_error (Shutdown.serve_error source) = "HTTP-сервер завершился с ошибкой"
  display_server_error (Shutdown.shutdown_timed_out limit) =
      "graceful shutdown превысил лимит " <> F.debug_duration limit
