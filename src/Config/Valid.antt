-- ===== src/Config/Valid.antt =====
-- Which configurations `validate` of crates/app/src/config.rs accepts.
use wiki_next.Base.{
  ◌≤◌, ◌≡◌, refl, ◌↔◌, inl, inr, true, false, [], ◌∷◌, arith, all, any, ok, Result-cases,
}
use Prim.Native.String.{len}
use mathlib.Core.Path.{subst}
use wiki_next.Base.Text.{codes, length, is_whitespace, trim_matches}
use wiki_next.Base.Trim.{is_empty-trim_matches}
use wiki_next.Net.{UrlApi}
use wiki_next.Paths.{PathBuf, is_unsafe, is_parent_dir, is_normal}
use wiki_next.Config.Types.{Config, DatabaseConfig}
use wiki_next.Config.Validate.{
  validate, validate_database_config, validate_database_url, validate_search_url, database_role,
  validate_observability,
}
use wiki_next.Config.DatabaseUrl.{IsSafeDatabaseUrl, validate_database_url_iff}
use wiki_next.Config.SearchUrl.{IsSafeSearchUrl, validate_search_url_iff}
use wiki_next.Config.Identifier.{IsIdentifier, database_role_iff}

is_safe_dir :
    (path : PathBuf)
    → is_unsafe path ≡ false
    → (any is_parent_dir path ≡ false) × (any is_normal path ≡ true)
unfolding is_unsafe
is_safe_dir path h = ground arith

is_unsafe_of :
    (path : PathBuf)
    → any is_parent_dir path ≡ false
    → any is_normal path ≡ true
    → is_unsafe path ≡ false
unfolding is_unsafe
is_unsafe_of [] h k = cc
is_unsafe_of (c ∷ path) h k = ground arith

module _ (U : UrlApi) where
  -- A safe connection string whose user is a simple identifier, and bounded pool settings.
  pub record IsValidDatabase (database : DatabaseConfig) : Type 0 where
    pub connections : (1 ≤ database.max_connections) × (database.max_connections ≤ 128)
    pub timeout : (1 ≤ database.acquire_timeout_ms) × (database.acquire_timeout_ms ≤ 60000)
    pub url : U.Url
    pub parsed : U.parse database.url ≡ ok url
    pub safe : IsSafeDatabaseUrl U url
    pub role : IsIdentifier (U.username url)

  pub record IsValidConfig (config : Config) : Type 0 where
    pub name_given : all is_whitespace (codes config.app.name) ≡ false
    pub name_short : length (trim_matches is_whitespace (codes config.app.name)) ≤ 80
    pub request_timeout :
        (1 ≤ config.server.request_timeout_ms) × (config.server.request_timeout_ms ≤ 120000)
    pub shutdown_timeout :
        (1 ≤ config.server.shutdown_timeout_seconds)
        × (config.server.shutdown_timeout_seconds ≤ 300)
    pub database : IsValidDatabase config.database
    pub search_url : U.Url
    pub search_parsed : U.parse config.search.url ≡ ok search_url
    pub search_safe : IsSafeSearchUrl U search_url
    pub api_key : 16 ≤ len config.search.api_key.expose
    pub search_timeout :
        (1 ≤ config.search.request_timeout_ms) × (config.search.request_timeout_ms ≤ 60000)
    pub no_parent : any is_parent_dir config.storage.data_dir ≡ false
    pub some_name : any is_normal config.storage.data_dir ≡ true
    pub filter : all is_whitespace (codes config.observability.filter) ≡ false

  module _ (T : Type 0) where
    pub validate_database_config_sound :
        (database : DatabaseConfig)
        → validate_database_config U {T = T} database ≡ ok tt
        → IsValidDatabase database
    unfolding validate_database_config
    validate_database_config_sound database h =
        elim (Result-cases (database_role U {T = T} "database.url" database.url)) [
          | inl (role, accepted) ↦
              let v : validate_database_url U {T = T} "database.url" database.url ≡ ok tt =
                ground arith in
              let (url, parsed, safe) =
                (validate_database_url_iff U T "database.url" database.url).0 v in
              let (url', parsed', named, simple) =
                (database_role_iff U T "database.url" database.url role).0 accepted in
              record {
                connections = ground arith;
                timeout = ground arith;
                url = url';
                parsed = parsed';
                safe = subst (IsSafeDatabaseUrl U) (cc (parsed, parsed')) safe;
                role = rw named simple;
              }
          | inr (e, failed) ↦ ground arith
        ]

    validate_database_config_complete :
        (database : DatabaseConfig)
        → IsValidDatabase database
        → validate_database_config U {T = T} database ≡ ok tt
    unfolding validate_database_config
    validate_database_config_complete database v =
        let url_ok =
          (validate_database_url_iff U T "database.url" database.url).1 (v.url, v.parsed, v.safe) in
        let role_ok =
          (database_role_iff U T "database.url" database.url (U.username v.url)).1
            (v.url, v.parsed, refl, v.role) in
        ground (arith, v.connections, v.timeout)

    validate_sound : (config : Config) → validate U {T = T} config ≡ ok tt → IsValidConfig config
    unfolding validate validate_observability
    validate_sound config h =
        let search_ok : validate_search_url U {T = T} config.search.url ≡ ok tt = ground arith in
        let (url, parsed, safe) = (validate_search_url_iff U T config.search.url).0 search_ok in
        let dir : is_unsafe config.storage.data_dir ≡ false = ground arith in
        let path = is_safe_dir config.storage.data_dir dir in
        record {
          name_given = ground (arith, is_empty-trim_matches is_whitespace (codes config.app.name));
          name_short = ground arith;
          request_timeout = ground arith;
          shutdown_timeout = ground arith;
          database = validate_database_config_sound config.database (ground arith);
          search_url = url;
          search_parsed = parsed;
          search_safe = safe;
          api_key = ground arith;
          search_timeout = ground arith;
          no_parent = path.0;
          some_name = path.1;
          filter =
              ground
                (arith, is_empty-trim_matches is_whitespace (codes config.observability.filter));
        }

    validate_complete : (config : Config) → IsValidConfig config → validate U {T = T} config ≡ ok tt
    unfolding validate validate_observability
    validate_complete config v =
        let name = is_empty-trim_matches is_whitespace (codes config.app.name) in
        let filter = is_empty-trim_matches is_whitespace (codes config.observability.filter) in
        let database = validate_database_config_complete config.database v.database in
        let search =
          (validate_search_url_iff U T config.search.url).1
            (v.search_url, v.search_parsed, v.search_safe) in
        let dir = is_unsafe_of config.storage.data_dir v.no_parent v.some_name in
        ground (
          arith, v.name_given, v.name_short, v.request_timeout, v.shutdown_timeout, v.api_key,
          v.search_timeout, v.filter,
        )

    -- `validate` accepts exactly the configurations whose name, limits, connection string, role,
    -- search URL, key, data directory and log filter are all within the documented bounds.
    pub validate_iff :
        (config : Config) → (validate U {T = T} config ≡ ok tt) ↔ IsValidConfig config
    validate_iff config = (validate_sound config, validate_complete config)
