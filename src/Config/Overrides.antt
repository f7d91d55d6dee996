-- ===== src/Config/Overrides.antt =====
-- What `apply_environment` of crates/app/src/config.rs makes of the fields.
use wiki_next.Base.{String, ◌≡◌, refl, ◌↔◌, Option, some, arith, ok}
use wiki_next.Base.Text.{parse_unsigned}
use wiki_next.Paths.{PathBuf, path_of}
use wiki_next.Config.Types.{Config, DatabaseConfig, ObservabilityConfig, parse_log_format}
use wiki_next.Config.Environment.{
  System, EnvVar, present, not_present, not_unicode, override_string, override_parsed,
  override_database, override_observability, apply_environment,
}

-- A variable that is set gives the value that it parses to, else the old value stays.
abbrev pub Chosen : {A : Type 0} → EnvVar → (String → Option A) → A → A → Type 0
Chosen (present text) parse old new = parse text ≡ some new
Chosen not_present parse old new = new ≡ old
Chosen not_unicode parse old new = ⊥

abbrev pub as_text : String → Option String
as_text text = some text

abbrev pub as_path : String → Option PathBuf
as_path text = some (path_of text)

pub Chosen-self :
    {A : Type 0} (v : EnvVar) (parse : String → Option A) (old new : A)
    → Chosen v parse old new
    → Chosen v parse new new
Chosen-self (present text) parse old new h = h
Chosen-self not_present parse old new h = refl
Chosen-self not_unicode parse old new h = h

module _ (S : System) (T : Type 0) {A : Type 0} (key : String) (parse : String → Option A)
    (old new : A) where
  override_parsed_at :
      (v : EnvVar)
      → S.env key ≡ v
      → (override_parsed S {T = T} key parse old ≡ ok new) ↔ Chosen v parse old new
  unfolding override_parsed
  override_parsed_at (present text) e = ground (arith, e)
  override_parsed_at not_present e = ground (arith, e)
  override_parsed_at not_unicode e = ground (arith, e)

  override_parsed_iff :
      (override_parsed S {T = T} key parse old ≡ ok new) ↔ Chosen (S.env key) parse old new
  override_parsed_iff = override_parsed_at (S.env key) refl

-- `override_string` is `override_parsed` by a parser that keeps the text.
override_string-eq :
    (S : System) (T : Type 0) (key old : String)
    → override_string S {T = T} key old ≡ override_parsed S {T = T} key as_text old
unfolding override_string override_parsed
override_string-eq S T key old = refl

module _ (S : System) where
  pub record IsOverriddenDatabase (old new : DatabaseConfig) : Type 0 where
    pub url : Chosen (S.env "WIKINEXT_DATABASE_URL") as_text old.url new.url
    pub max_connections :
        Chosen
          (S.env "WIKINEXT_DATABASE_MAX_CONNECTIONS")
          (parse_unsigned 32)
          old.max_connections
          new.max_connections
    pub acquire_timeout_ms :
        Chosen
          (S.env "WIKINEXT_DATABASE_ACQUIRE_TIMEOUT_MS")
          (parse_unsigned 64)
          old.acquire_timeout_ms
          new.acquire_timeout_ms

  pub record IsOverriddenObservability (old new : ObservabilityConfig) : Type 0 where
    pub filter : Chosen (S.env "WIKINEXT_LOG_FILTER") as_text old.filter new.filter
    pub format : Chosen (S.env "WIKINEXT_LOG_FORMAT") parse_log_format old.format new.format

  -- Every field against its variable.
  pub record IsOverridden (old new : Config) : Type 0 where
    pub name : Chosen (S.env "WIKINEXT_APP_NAME") as_text old.app.name new.app.name
    pub bind : Chosen (S.env "WIKINEXT_BIND") S.parse_socket_addr old.server.bind new.server.bind
    pub request_timeout_ms :
        Chosen
          (S.env "WIKINEXT_REQUEST_TIMEOUT_MS")
          (parse_unsigned 64)
          old.server.request_timeout_ms
          new.server.request_timeout_ms
    pub shutdown_timeout_seconds :
        Chosen
          (S.env "WIKINEXT_SHUTDOWN_TIMEOUT_SECONDS")
          (parse_unsigned 64)
          old.server.shutdown_timeout_seconds
          new.server.shutdown_timeout_seconds
    pub database : IsOverriddenDatabase old.database new.database
    pub search_url : Chosen (S.env "WIKINEXT_MEILISEARCH_URL") as_text old.search.url new.search.url
    pub api_key :
        Chosen
          (S.env "WIKINEXT_MEILISEARCH_API_KEY")
          as_text
          old.search.api_key.expose
          new.search.api_key.expose
    pub search_timeout_ms :
        Chosen
          (S.env "WIKINEXT_MEILISEARCH_TIMEOUT_MS")
          (parse_unsigned 64)
          old.search.request_timeout_ms
          new.search.request_timeout_ms
    pub data_dir :
        Chosen (S.env "WIKINEXT_DATA_DIR") as_path old.storage.data_dir new.storage.data_dir
    pub observability : IsOverriddenObservability old.observability new.observability

  module _ (T : Type 0) where
    pub text_iff :
        (key old new : String)
        → (override_string S {T = T} key old ≡ ok new) ↔ Chosen (S.env key) as_text old new
    text_iff key old new = rw override_string-eq (override_parsed_iff S T key as_text old new)

    pub override_database_iff :
        (old new : DatabaseConfig)
        → (override_database S {T = T} old ≡ ok new) ↔ IsOverriddenDatabase old new
    unfolding override_database
    override_database_iff old new = (
      λ h. record {
        url = (text_iff _ _ _).0 (ground arith);
        max_connections = (override_parsed_iff S T _ _ _ _).0 (ground arith);
        acquire_timeout_ms = (override_parsed_iff S T _ _ _ _).0 (ground arith);
      },
      λ o.
          let url = (text_iff _ _ _).1 o.url in
          let most = (override_parsed_iff S T _ _ _ _).1 o.max_connections in
          let wait = (override_parsed_iff S T _ _ _ _).1 o.acquire_timeout_ms in
          rw (url, most, wait),
    )

    pub override_observability_iff :
        (old new : ObservabilityConfig)
        → (override_observability S {T = T} old ≡ ok new) ↔ IsOverriddenObservability old new
    unfolding override_observability
    override_observability_iff old new = (
      λ h. record {
        filter = (text_iff _ _ _).0 (ground arith);
        format = (override_parsed_iff S T _ _ _ _).0 (ground arith);
      },
      λ o.
          let filter = (text_iff _ _ _).1 o.filter in
          let format = (override_parsed_iff S T _ _ _ _).1 o.format in rw (filter, format),
    )

    -- `apply_environment` succeeds exactly where every variable that is set is valid Unicode and
    -- parses, and then gives each field its variable's value, or the old one if that is not set.
    pub apply_environment_iff :
        (old new : Config) → (apply_environment S {T = T} old ≡ ok new) ↔ IsOverridden old new
    unfolding apply_environment
    apply_environment_iff old new = (
      λ h. record {
        name = (text_iff _ _ _).0 (ground arith);
        bind = (override_parsed_iff S T _ _ _ _).0 (ground arith);
        request_timeout_ms = (override_parsed_iff S T _ _ _ _).0 (ground arith);
        shutdown_timeout_seconds = (override_parsed_iff S T _ _ _ _).0 (ground arith);
        database = (override_database_iff _ _).0 (ground arith);
        search_url = (text_iff _ _ _).0 (ground arith);
        api_key = (text_iff _ _ _).0 (ground arith);
        search_timeout_ms = (override_parsed_iff S T _ _ _ _).0 (ground arith);
        data_dir = (override_parsed_iff S T _ _ _ _).0 (ground arith);
        observability = (override_observability_iff _ _).0 (ground arith);
      },
      λ o.
          let name = (text_iff _ _ _).1 o.name in
          let bind = (override_parsed_iff S T _ _ _ _).1 o.bind in
          let request = (override_parsed_iff S T _ _ _ _).1 o.request_timeout_ms in
          let shutdown = (override_parsed_iff S T _ _ _ _).1 o.shutdown_timeout_seconds in
          let database = (override_database_iff _ _).1 o.database in
          let search_url = (text_iff _ _ _).1 o.search_url in
          let api_key = (text_iff _ _ _).1 o.api_key in
          let search_timeout = (override_parsed_iff S T _ _ _ _).1 o.search_timeout_ms in
          let data_dir = (override_parsed_iff S T _ _ _ _).1 o.data_dir in
          let observability = (override_observability_iff _ _).1 o.observability in
          rw (
            name, bind, request, shutdown, database, search_url, api_key, search_timeout, data_dir,
            observability,
          ),
    )
