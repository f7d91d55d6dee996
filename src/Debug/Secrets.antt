-- ===== src/Debug/Secrets.antt =====
-- What the `Debug` texts of the program keep to themselves.
use wiki_next.Base.{String, ◌≡◌, refl, sym, ap, ◌∙◌}
use wiki_next.Net.{UrlApi}
use wiki_next.Config.Types.{Config, DatabaseConfig, MigrationConfig, SecretString}
use wiki_next.Search.{HttpApi, SearchClient}
use wiki_next.Postgres.{DatabaseOptions}
use wiki_next.Debug.{
  DebugApi, debug_secret, debug_database_config, debug_database_options, debug_search_config,
  debug_config, debug_migration_config, debug_search_client,
}

abbrev hidden : SecretString
hidden = record { expose = "" }

-- A value without its secrets: the connection strings, which hold a password, and the keys.
abbrev pub erase_database : DatabaseConfig → DatabaseConfig
erase_database config = record config { url = "" }

abbrev pub erase : Config → Config
erase config = record config {
  database = erase_database config.database;
  search = record config.search { api_key = hidden };
}

abbrev pub erase_migration : MigrationConfig → MigrationConfig
erase_migration config = record config {
  database = erase_database config.database;
  migration_url = hidden;
}

abbrev pub erase_options : DatabaseOptions → DatabaseOptions
erase_options options = record options { url = "" }

module _ (D : DebugApi) where
  debug_config-erase : (config : Config) → debug_config D (erase config) ≡ debug_config D config
  unfolding debug_config debug_database_config debug_search_config debug_secret
  debug_config-erase config = refl

  debug_migration_config-erase :
      (config : MigrationConfig)
      → debug_migration_config D (erase_migration config) ≡ debug_migration_config D config
  unfolding debug_migration_config debug_database_config debug_secret
  debug_migration_config-erase config = refl

  debug_database_options-erase :
      (options : DatabaseOptions)
      → debug_database_options D (erase_options options) ≡ debug_database_options D options
  unfolding debug_database_options
  debug_database_options-erase options = refl

-- The `Debug` texts depend on no secret: two configurations, two configurations of a migration, and
-- two sets of database options have the same text if they differ in their connection strings and
-- keys alone, and so have two search clients with the same base URL, whatever their headers are.
pub debug_secretless :
    (D : DebugApi) (U : UrlApi) (W : HttpApi U.Url) (debug_url : U.Url → String)
    (config config' : Config) (migration migration' : MigrationConfig)
    (options options' : DatabaseOptions) (client client' : SearchClient U W)
    → erase config ≡ erase config'
    → erase_migration migration ≡ erase_migration migration'
    → erase_options options ≡ erase_options options'
    → client.base_url ≡ client'.base_url
    → (debug_config D config ≡ debug_config D config')
      × (debug_migration_config D migration ≡ debug_migration_config D migration')
      × (debug_database_options D options ≡ debug_database_options D options')
      × (debug_search_client D U W debug_url client ≡ debug_search_client D U W debug_url client')
unfolding debug_search_client
debug_secretless D U W debug_url c c' m m' o o' s s' same same' same'' same_url = (
  sym (debug_config-erase D c) ∙ ap (debug_config D) same ∙ debug_config-erase D c',
  sym (debug_migration_config-erase D m)
      ∙ ap (debug_migration_config D) same'
      ∙ debug_migration_config-erase D m',
  sym (debug_database_options-erase D o)
      ∙ ap (debug_database_options D) same''
      ∙ debug_database_options-erase D o',
  rw same_url refl,
)
