-- ===== src/Config/UnitTests/Pass.antt =====
-- Proofs that the tests of crates/app/src/config.rs pass.
use wiki_next.Base.{refl}
use wiki_next.Base.Text.{codes, length, trim_matches, is_whitespace}
use wiki_next.Net.{url_host_is_loopback}
use wiki_next.Paths.{path_of, is_unsafe}
use wiki_next.Config.Types.{invalid}
use wiki_next.Config.Validate.{
  validate, validate_database_url, validate_database_config, check_database_url, query_ssl_mode,
  is_override, database_role, is_identifier, validate_search_url, check_search_url,
  validate_observability, build,
}
use wiki_next.Config.Environment.{reject_runtime_migration_secret, reject_ambient_postgres_value}
use wiki_next.Config.Load.{config_of, from_toml, migration_from_toml, migration_file_of}
use wiki_next.Debug.{
  debug_config, debug_database_config, debug_search_config, debug_secret, debug_migration_config,
  debug_app_config, debug_server_config, debug_storage_config, debug_observability_config,
  debug_log_format,
}
use wiki_next.Config.UnitTests.{
  ParsesDefaultsAndRedactsSecrets, RejectsRootStorageDirectory, RejectsStorageParentTraversal,
  RemoteDatabaseRequiresVerifiedTls, RejectsDatabaseUrlOverrideBypasses,
  RuntimeRejectsProcessScopedMigrationSecret, RejectsAmbientPostgresConfiguration,
  RemoteSearchRequiresHttps, MigrationConfigNeedsOnlyDatabaseSection,
}

-- What the tests open.
opened : Unit {0}
unfolding from_toml migration_from_toml migration_file_of validate validate_database_config
    validate_database_url check_database_url query_ssl_mode is_override database_role is_identifier
    validate_search_url check_search_url validate_observability url_host_is_loopback path_of
    is_unsafe config_of codes trim_matches is_whitespace length debug_config debug_database_config
    debug_search_config debug_secret debug_migration_config reject_runtime_migration_secret
    reject_ambient_postgres_value debug_app_config debug_server_config debug_storage_config
    debug_observability_config debug_log_format invalid build
opened = tt

redacts_secrets : ParsesDefaultsAndRedactsSecrets
unfolding opened
redacts_secrets = (_, refl, (refl, refl, refl, refl))

rejects_root : RejectsRootStorageDirectory
unfolding opened
rejects_root = (_, refl)

rejects_traversal : RejectsStorageParentTraversal
unfolding opened
rejects_traversal = (_, refl)

verified_tls : RemoteDatabaseRequiresVerifiedTls
unfolding opened
verified_tls = ((_, refl), (_, refl, tt))

rejects_bypasses : RejectsDatabaseUrlOverrideBypasses
unfolding opened
rejects_bypasses = (
  (_, refl),
  ((_, refl), ((_, refl), ((_, refl), ((_, refl), ((_, refl), ((_, refl), ((_, refl), tt))))))),
)

rejects_secret : RuntimeRejectsProcessScopedMigrationSecret
unfolding opened
rejects_secret S = (refl, refl)

rejects_ambient : RejectsAmbientPostgresConfiguration
unfolding opened
rejects_ambient S = (refl, refl)

requires_https : RemoteSearchRequiresHttps
unfolding opened
requires_https = ((_, refl), (_, refl, tt))

needs_database : MigrationConfigNeedsOnlyDatabaseSection
unfolding opened
needs_database = ((_, refl, (refl, refl, refl)), (_, refl, tt))
