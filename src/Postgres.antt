-- ===== src/Postgres.antt =====
-- crates/store/src/postgres.rs: the PostgreSQL store, over the `sqlx` crate and `tokio::time`.
pub mod Version
pub mod Migration
pub mod Compatible
pub mod Samples
mod UnitTests
use wiki_next.Base.{
  ℕ, zero, suc, ◌+◌, ◌-◌, ◌*◌, ◌%◌, ◌^◌, ◌≤◌, ◌<◌, String, ◌≡◌, refl, sym, ap, ◌∙◌, ◌≢◌, ◌↔◌, ◌⊎◌,
  inl, inr, Bool, true, false, not, ◌&&◌, ◌||◌, Option, none, some, List, [], ◌∷◌, ◌++◌, arith,
  ◌=ₛ◌, eq_iff, ltb, leb, ◌==◌, if◌then◌else◌, Bool-cases, Option-cases, is_some, is_none_or,
  is_some_and, all, any, All, Result, ok, err, map_err, Result-cases, ◌>>=◌,
}
use wiki_next.Base.Text.{codes, same_codes}
use wiki_next.Config.Types.{Duration}

abbrev pub database_schema_version : ℕ
database_schema_version = 1

abbrev pub expected_postgres_version : String
expected_postgres_version = "18.4"

-- In milliseconds.
abbrev pub probe_timeout : Duration
probe_timeout = 5 * 1000

abbrev pub migration_timeout : Duration
migration_timeout = 300 * 1000

pub record DatabaseOptions : Type 0 where
  pub url : String
  pub max_connections : ℕ
  pub acquire_timeout : Duration

pub record DatabaseStatus : Type 0 where
  pub server_version : String
  pub schema_version : ℕ

-- What `PgPoolOptions::new` is told.
pub record PoolOptions : Type 0 where
  pub max_connections : ℕ
  pub acquire_timeout : Duration
  pub test_before_acquire : Bool

-- A statement of the migration before the migrator runs.
pub data Setup : Type 0 where
  acquire : Setup
  execute : String → Setup
  set_application_role : String → Setup

-- What is asked of the server.
pub data Operation : Type 0 where
  server_version_probe schema_probe run_migrations : Operation
  setup : Setup → Operation

-- A result under `tokio::time::timeout`.
pub data Timed (E A : Type 0) : Type 0 where
  elapsed : Timed E A
  done : Result E A → Timed E A

-- The `sqlx` crate over the server's state. A schema version is the 32 bits of an `i32`.
pub record PgApi : Type 1 where
  pub State : Type 0
  pub SqlError : Type 0
  pub MigrateError : Type 0
  pub connect_with : PoolOptions → String → Result SqlError State
  pub server_version : State → Timed SqlError String × State
  pub schema_version : State → Timed SqlError ℕ × State
  pub set_up : Setup → State → Result SqlError (Unit {0}) × State
  pub run : State → Result MigrateError (Unit {0}) × State

pub data StoreError (SqlError MigrateError : Type 0) : Type 0 where
  connect probe migration_setup : SqlError → StoreError SqlError MigrateError
  incompatible_server : String → String → StoreError SqlError MigrateError
  incompatible_schema : ℕ → ℕ → StoreError SqlError MigrateError
  migration : MigrateError → StoreError SqlError MigrateError
  timeout : String → Duration → StoreError SqlError MigrateError

-- `str::strip_prefix`.
unfoldable pub strip_prefix : List ℕ → List ℕ → Option (List ℕ)
strip_prefix [] s = some s
strip_prefix (c ∷ p) [] = none
strip_prefix (c ∷ p) (d ∷ s) = if c == d then strip_prefix p s else none

abbrev pub begins_with_break : List ℕ → Bool
begins_with_break [] = false
begins_with_break (c ∷ s) = c == b' ' || c == b'.'

unfoldable pub is_expected_postgres_version : String → Bool
is_expected_postgres_version actual =
    same_codes (codes actual) (codes expected_postgres_version)
    || is_some_and begins_with_break (strip_prefix (codes expected_postgres_version) (codes actual))

module _ (G : PgApi) where
  -- The server, and the operations that were sent to it, oldest first.
  pub record World : Type 0 where
    pub state : G.State
    pub log : List Operation

  abbrev pub Failure : Type 0
  Failure = StoreError G.SqlError G.MigrateError

  -- `PostgresStore::connect`: the world holds the pool with the server.
  unfoldable pub connect_store : DatabaseOptions → Result Failure World
  connect_store options =
      let pool : PoolOptions = record {
        max_connections = options.max_connections;
        acquire_timeout = options.acquire_timeout;
        test_before_acquire = true;
      } in
      map_err connect (G.connect_with pool options.url) >>= λ state.
      ok (record { state = state; log = [] })

  abbrev pub Db : Type 0 → Type 0
  Db A = World → Result Failure A × World

  abbrev pub pure : {A : Type 0} → Result Failure A → Db A
  pure r w = (r, w)

  abbrev pub continue : {A B : Type 0} → Result Failure A → (A → Db B) → Db B
  continue (ok a) f w = f a w
  continue (err e) f w = (err e, w)

  abbrev pub and_then : {A B : Type 0} → Db A → (A → Db B) → Db B
  and_then m f w = let (r, w') = m w in continue r f w'

  abbrev pub logged : World → Operation → G.State → World
  logged w operation state = record { state = state; log = w.log ++ operation ∷ [] }

  abbrev probed : {A : Type 0} → String → Timed G.SqlError A → Result Failure A
  probed operation elapsed = err (timeout operation probe_timeout)
  probed operation (done (err e)) = err (probe e)
  probed operation (done (ok a)) = ok a

  unfoldable pub probe_server : Db String
  probe_server w =
      let (r, state) = G.server_version w.state in
      (probed "server version probe" r, logged w server_version_probe state)

  unfoldable pub probe_schema : Db ℕ
  probe_schema w =
      let (r, state) = G.schema_version w.state in
      (probed "schema probe" r, logged w schema_probe state)

  abbrev check_server : String → Result Failure String
  check_server server_version =
      if not (is_expected_postgres_version server_version)
      then err (incompatible_server expected_postgres_version server_version)
      else ok server_version

  abbrev check_schema : String → ℕ → Result Failure DatabaseStatus
  check_schema server_version schema_version =
      if not (schema_version == database_schema_version)
      then err (incompatible_schema database_schema_version schema_version)
      else ok (record { server_version = server_version; schema_version = schema_version })

  unfoldable pub ensure_compatible_server : Db String
  ensure_compatible_server = and_then probe_server λ version. pure (check_server version)

  unfoldable pub diagnose : Db DatabaseStatus
  diagnose = and_then ensure_compatible_server λ server_version.
      and_then probe_schema λ schema_version. pure (check_schema server_version schema_version)

  abbrev pub setups : String → List Setup
  setups application_role =
      acquire
      ∷ execute "SET lock_timeout = '10s'"
      ∷ execute "SET statement_timeout = '5min'"
      ∷ execute "SET search_path = public"
      ∷ set_application_role application_role
      ∷ []

  abbrev late : Result Failure (Unit {0})
  late = err (timeout "migration" migration_timeout)

  abbrev pub set_up : Setup → Db (Unit {0})
  set_up s w =
      let (r, state) = G.set_up s w.state in (map_err migration_setup r, logged w (setup s) state)

  abbrev pub run : Db (Unit {0})
  run w = let (r, state) = G.run w.state in (map_err migration r, logged w run_migrations state)

  -- The time is over while an operation waits: it has been sent, and its result is lost.
  abbrev pub interrupted : Db (Unit {0}) → Db (Unit {0})
  interrupted m w = let (r, w') = m w in (late, w')

  -- The future that `timeout` waits for; with a deadline of `some k`, it gets the results of `k`
  -- operations.
  unfoldable pub migration_steps : List Setup → Option ℕ → Db (Unit {0})
  migration_steps [] (some zero) = interrupted run
  migration_steps [] (some (suc k)) = run
  migration_steps [] none = run
  migration_steps (s ∷ rest) (some zero) = interrupted (set_up s)
  migration_steps (s ∷ rest) (some (suc k)) = and_then (set_up s) λ _. migration_steps rest (some k)
  migration_steps (s ∷ rest) none = and_then (set_up s) λ _. migration_steps rest none

  unfoldable pub migrate : String → Option ℕ → Db (Unit {0})
  migrate application_role deadline = and_then ensure_compatible_server λ _.
      and_then (migration_steps (setups application_role) deadline)
        λ _. and_then diagnose λ _. pure (ok tt)
