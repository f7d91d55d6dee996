-- ===== src/Postgres/Samples.antt =====
-- Runs of the PostgreSQL store over a small server, and the theorems at them.
use wiki_next.Base.{
  ℕ, String, ◌≡◌, refl, ◌≢◌, ◌↔◌, ◌⊎◌, true, false, none, some, List, [], ◌∷◌, ◌++◌, ok, err,
}
use wiki_next.Base.Text.{codes, same_codes}
use wiki_next.Postgres.{
  PgApi, server_version_probe, schema_probe, run_migrations, setup, done, World,
  is_expected_postgres_version, strip_prefix, migrate, migration_steps, ensure_compatible_server,
  probe_server, probe_schema, diagnose, timeout, migration_timeout, expected_postgres_version,
  acquire, execute, set_application_role,
}
use wiki_next.Postgres.Version.{IsBreak, is_expected_postgres_version_iff}
use wiki_next.Postgres.Migration.{Sends, migrate_order, migrate_guarded}

-- A server of one version, whose state is the version of its schema.
abbrev pub server : String → PgApi
server version = record {
  State = ℕ;
  SqlError = Unit;
  MigrateError = Unit;
  connect_with = λ options url. ok 0;
  server_version = λ state. (done (ok version), state);
  schema_version = λ state. (done (ok state), state);
  set_up = λ step state. (ok tt, state);
  run = λ state. (ok tt, 1);
}

abbrev pub empty : (version : String) → World (server version)
empty version = record { state = 0; log = [] }

-- What the runs below open.
opened : Unit {0}
unfolding codes same_codes strip_prefix is_expected_postgres_version probe_server probe_schema
    ensure_compatible_server diagnose migration_steps migrate
opened = tt

versions :
    (is_expected_postgres_version "18.4 (Debian)" ≡ true)
    × (is_expected_postgres_version "18.4.1" ≡ true)
    × (is_expected_postgres_version "18.40" ≡ false)
unfolding opened
versions = (refl, refl, refl)

migrates : (migrate (server "18.4") "app" none (empty "18.4")).0 ≡ ok tt
unfolding opened
migrates = refl

-- The migrator is the sixth operation of the future.
interrupts : migrate (server "18.4") "app" (some 5) (empty "18.4") ≡ (
  err (timeout "migration" migration_timeout),
  record {
    state = 1;
    log =
        server_version_probe
        ∷ setup acquire
        ∷ setup (execute "SET lock_timeout = '10s'")
        ∷ setup (execute "SET statement_timeout = '5min'")
        ∷ setup (execute "SET search_path = public")
        ∷ setup (set_application_role "app")
        ∷ run_migrations
        ∷ [];
  },
)
unfolding opened
interrupts = refl

is_expected_postgres_version_iff_example : (is_expected_postgres_version "18.4.1" ≡ true) ↔ (
    (codes "18.4.1" ≡ codes expected_postgres_version)
    ⊎ ((rest : List ℕ) × (codes "18.4.1" ≡ codes expected_postgres_version ++ rest) × IsBreak rest))
is_expected_postgres_version_iff_example = is_expected_postgres_version_iff "18.4.1"

migrate_order_example : Sends (server "18.4") (migrate (server "18.4") "app" none) (
    server_version_probe
    ∷ setup acquire
    ∷ setup (execute "SET lock_timeout = '10s'")
    ∷ setup (execute "SET statement_timeout = '5min'")
    ∷ setup (execute "SET search_path = public")
    ∷ setup (set_application_role "app")
    ∷ run_migrations
    ∷ server_version_probe
    ∷ schema_probe
    ∷ [])
migrate_order_example = migrate_order (server "18.4") "app" none

refuses :
    (v : String)
    → ((server "18.40").server_version 0).0 ≡ done (ok v)
    → is_expected_postgres_version v ≡ false
unfolding opened
refuses v h = let e : "18.40" ≡ v = cc in rw (← e)

migrate_guarded_example :
    ((migrate (server "18.40") "app" none (empty "18.40")).1.log ≡ server_version_probe ∷ [])
    × ((migrate (server "18.40") "app" none (empty "18.40")).1.state ≡ 0)
    × ((migrate (server "18.40") "app" none (empty "18.40")).0 ≢ ok tt)
migrate_guarded_example = migrate_guarded (server "18.40") "app" none (empty "18.40") refuses
