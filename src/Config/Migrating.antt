-- ===== src/Config/Migrating.antt =====
-- What a configuration that `MigrationConfig::load` of crates/app/src/config.rs returns has gone
-- through.
use wiki_next.Base.{
  String, ◌≡◌, inl, inr, false, Option, none, some, all, All, arith, ok, Result, Result-cases,
}
use wiki_next.Base.Text.{codes, is_whitespace}
use wiki_next.Base.Trim.{is_empty-trim_matches}
use mathlib.Core.Path.{subst}
use wiki_next.Net.{UrlApi}
use wiki_next.Paths.{PathBuf}
use wiki_next.Config.Types.{
  MigrationConfig, MigrationConfigFile, ConfigError, migration_url_env, ambient_postgres_env,
}
use wiki_next.Config.Validate.{
  build, validate_database_config, validate_database_url, database_role, validate_observability,
}
use wiki_next.Config.DatabaseUrl.{IsSafeDatabaseUrl, validate_database_url_iff}
use wiki_next.Config.Identifier.{IsIdentifier, database_role_iff}
use wiki_next.Config.Valid.{IsValidDatabase, validate_database_config_sound}
use wiki_next.Config.Environment.{
  System, not_present, override_string, read_environment, apply_migration_environment,
}
use wiki_next.Config.Overrides.{
  Chosen, as_text, IsOverriddenDatabase, IsOverriddenObservability, override_database_iff,
  override_observability_iff, text_iff,
}
use wiki_next.Config.Load.{
  TomlApi, DatabaseTable, ObservabilityTable, migration_file_of, read_bounded, migration_load,
  get_or,
}
use wiki_next.Config.Laws.{ambient_absent}

module _ (U : UrlApi) where
  -- A text that parses to a safe connection string of the named user.
  pub record IsSafeLogin (text role : String) : Type 0 where
    pub url : U.Url
    pub parsed : U.parse text ≡ ok url
    pub safe : IsSafeDatabaseUrl U url
    pub named : U.username url ≡ role
    pub simple : IsIdentifier role

  -- The two connection strings of a migration and the settings beside them.
  pub record IsBuilt (file : MigrationConfigFile) (secret : String) (config : MigrationConfig)
      : Type 0 where
    pub database : config.database ≡ file.database
    pub observability : config.observability ≡ file.observability
    pub migration_url : config.migration_url.expose ≡ secret
    pub valid : IsValidDatabase U file.database
    pub filter : all is_whitespace (codes file.observability.filter) ≡ false
    pub application : IsSafeLogin file.database.url config.application_role
    pub owner : String
    pub migrator : IsSafeLogin secret owner

  module _ (T : Type 0) where
    login_of :
        (field text : String) {role : String}
        → validate_database_url U {T = T} field text ≡ ok tt
        → database_role U {T = T} field text ≡ ok role
        → IsSafeLogin text role
    login_of field text {role} accepted named =
        let (url, parsed, safe) = (validate_database_url_iff U T field text).0 accepted in
        let (url', parsed', user, simple) = (database_role_iff U T field text role).0 named in
        record {
          url = url';
          parsed = parsed';
          safe = subst (IsSafeDatabaseUrl U) (cc (parsed, parsed')) safe;
          named = user;
          simple = simple;
        }

    build-IsBuilt :
        (file : MigrationConfigFile) (secret : String) {config : MigrationConfig}
        → build U {T = T} file secret ≡ ok config
        → IsBuilt file secret config
    unfolding build validate_observability validate_database_config
    build-IsBuilt file secret {config} h =
        elim (Result-cases (database_role U {T = T} "migration.database_url" secret)) [
          | inr (e, failed) ↦ ground arith
          | inl (owner, named) ↦
              elim (Result-cases (database_role U {T = T} "database.url" file.database.url)) [
                | inr (e, failed) ↦ ground arith
                | inl (role, called) ↦ record {
                  database = ground arith;
                  observability = ground arith;
                  migration_url = ground arith;
                  valid = validate_database_config_sound U T file.database (ground arith);
                  filter = ground (
                    arith,
                    is_empty-trim_matches is_whitespace (codes file.observability.filter),
                  );
                  application =
                      login_of "database.url" file.database.url (ground arith) (ground arith);
                  owner = owner;
                  migrator = login_of "migration.database_url" secret (ground arith) named;
                }
              ]
        ]

-- The variable of the migration's connection string, or the connection string of the file.
secret_chosen :
    (S : System) (T : Type 0) (old : String) (secret : Option String)
    → read_environment S {T = T} migration_url_env ≡ ok secret
    → Chosen (S.env migration_url_env) as_text old (get_or secret old)
secret_chosen S T old secret h =
    (text_iff S T migration_url_env old (get_or secret old)).0 (overriding secret h)
  where
    overriding :
        (secret : Option String)
        → read_environment S {T = T} migration_url_env ≡ ok secret
        → override_string S {T = T} migration_url_env old ≡ ok (get_or secret old)
    overriding none h = unfold override_string in ground (arith, h)
    overriding (some text) h = unfold override_string in ground (arith, h)

migration_overrides :
    (S : System) (T : Type 0) (old new : MigrationConfigFile)
    → apply_migration_environment S {T = T} old ≡ ok new
    → IsOverriddenDatabase S old.database new.database
      × IsOverriddenObservability S old.observability new.observability
unfolding apply_migration_environment
migration_overrides S T old new h = (
  (override_database_iff S T old.database new.database).0 (ground arith),
  (override_observability_iff S T old.observability new.observability).0 (ground arith),
)

module _ (U : UrlApi) (M : TomlApi) (S : System) where
  -- Where the parts of a loaded configuration come from, and the checks that they have passed.
  pub record IsLoadedMigration (path : PathBuf) (config : MigrationConfig) : Type 0 where
    pub no_ambient : All (λ key. S.env key ≡ not_present) ambient_postgres_env
    pub text : String
    pub was_read : read_bounded S {T = M.TomlError} path ≡ ok text
    pub tables : DatabaseTable × Option ObservabilityTable
    pub parsed : M.migration_tables text ≡ ok tables
    pub database : IsOverriddenDatabase S (migration_file_of tables).database config.database
    pub observability :
        IsOverriddenObservability S (migration_file_of tables).observability config.observability
    pub chosen :
        Chosen (S.env migration_url_env) as_text config.database.url config.migration_url.expose
    pub valid : IsValidDatabase U config.database
    pub filter : all is_whitespace (codes config.observability.filter) ≡ false
    pub application : IsSafeLogin U config.database.url config.application_role
    pub owner : String
    pub migrator : IsSafeLogin U config.migration_url.expose owner

  -- `MigrationConfig::load` returns a configuration only where none of the thirteen ambient
  -- PostgreSQL variables is set. It is that of the file, with every field replaced whose variable
  -- is set, and it is valid. It migrates by the connection string of the migration's variable, or by
  -- that of the database where that is not set. Both are safe, each names a user that is a simple
  -- identifier, and the role of the application is the user of the database's.
  pub migration_load-IsLoadedMigration :
      (path : PathBuf) {config : MigrationConfig}
      → migration_load U M S path ≡ ok config
      → IsLoadedMigration path config
  unfolding migration_load
  migration_load-IsLoadedMigration path {config} h =
      elim (Result-cases (read_bounded S {T = M.TomlError} path)) [
        | inr (e, failed) ↦ ground arith
        | inl (text, was_read) ↦ elim (Result-cases (M.migration_tables text)) [
          | inr (e, failed) ↦ ground arith
          | inl (tables, parsed) ↦ elim (Result-cases (applied tables)) [
            | inr (e, failed) ↦ ground arith
            | inl (file, done) ↦ elim (Result-cases looked) [
              | inr (e, failed) ↦ ground arith
              | inl (secret, found) ↦
                  let b =
                    build-IsBuilt U M.TomlError file (get_or secret file.database.url)
                      {config = config} (ground arith) in
                  let (database, observability) =
                    migration_overrides S M.TomlError (migration_file_of tables) file done in
                  record {
                    no_ambient = ambient_absent S M.TomlError (ground arith);
                    text = text;
                    was_read = was_read;
                    tables = tables;
                    parsed = parsed;
                    database = rw b.database database;
                    observability = rw b.observability observability;
                    chosen =
                        rw (b.database, b.migration_url)
                          (secret_chosen S M.TomlError file.database.url secret found);
                    valid = rw b.database b.valid;
                    filter = rw b.observability b.filter;
                    application = rw b.database b.application;
                    owner = b.owner;
                    migrator = rw b.migration_url b.migrator;
                  }
            ]
          ]
        ]
      ]
    where
      looked : Result (ConfigError M.TomlError) (Option String)
      looked = read_environment S migration_url_env

      applied :
          DatabaseTable × Option ObservabilityTable
          → Result (ConfigError M.TomlError) MigrationConfigFile
      applied tables = apply_migration_environment S (migration_file_of tables)
