-- ===== src/Postgres/Compatible.antt =====
-- Which databases a diagnosis of crates/store/src/postgres.rs accepts, and in which a migration
-- ends.
use wiki_next.Base.{
  ◌≡◌, refl, ◌↔◌, inl, inr, Bool-cases, true, arith, Option, ℕ, String, ok, Result-cases,
}
use wiki_next.Postgres.{
  PgApi, World, DatabaseStatus, done, is_expected_postgres_version, database_schema_version,
  probe_server, probe_schema, ensure_compatible_server, diagnose, migrate, setups, migration_steps,
}
use wiki_next.Postgres.Migration.{timed_cases}

module _ (G : PgApi) where
  -- The server names an expected version and then the schema that the program is written for.
  pub record IsCompatible (world : World G) (status : DatabaseStatus) : Type 0 where
    pub named : (G.server_version world.state).0 ≡ done (ok status.server_version)
    pub expected : is_expected_postgres_version status.server_version ≡ true
    pub counted :
        (G.schema_version (G.server_version world.state).1).0 ≡ done (ok database_schema_version)
    pub schema : status.schema_version ≡ database_schema_version

  pub diagnose-IsCompatible :
      (world : World G) (status : DatabaseStatus)
      → ((diagnose G world).0 ≡ ok status) ↔ IsCompatible world status
  unfolding diagnose ensure_compatible_server probe_server probe_schema
  diagnose-IsCompatible world status = (
    λ h. elim (timed_cases (G.server_version world.state).0) [
      | inl e ↦ ground arith
      | inr (inl (p, e)) ↦ ground arith
      | inr (inr (version, e)) ↦ elim (Bool-cases (is_expected_postgres_version version)) [
        | inr refused ↦ ground arith
        | inl expected ↦ elim (timed_cases (G.schema_version (G.server_version world.state).1).0) [
          | inl e' ↦ ground arith
          | inr (inl (p, e')) ↦ ground arith
          | inr (inr (count, e')) ↦
              let same : version ≡ status.server_version = ground arith in
              let right : count ≡ database_schema_version = ground arith in
              record {
                named = rw (← same) e;
                expected = rw (← same) expected;
                counted = rw (← right) e';
                schema = ground arith;
              }
        ]
      ]
    ],
    λ c. ground (arith, c.named, c.expected, c.counted, c.schema),
  )

  -- A migration that succeeds ends in a compatible database.
  pub migrate-IsCompatible :
      (role : String) (deadline : Option ℕ) (world : World G)
      → (migrate G role deadline world).0 ≡ ok tt
      → (last : World G) × (status : DatabaseStatus) × IsCompatible last status
        × ((migrate G role deadline world).1 ≡ (diagnose G last).1)
  unfolding migrate
  migrate-IsCompatible role deadline world h =
      elim (Result-cases (ensure_compatible_server G world).0) [
        | inr (e, failed) ↦ ground arith
        | inl (version, checked) ↦
            let middle = (ensure_compatible_server G world).1 in
            elim (Result-cases (migration_steps G (setups G role) deadline middle).0) [
              | inr (e, failed) ↦ ground arith
              | inl (u, migrated) ↦
                  let last = (migration_steps G (setups G role) deadline middle).1 in
                  elim (Result-cases (diagnose G last).0) [
                    | inr (e, failed) ↦ ground arith
                    | inl (status, diagnosed) ↦ (
                      last,
                      status,
                      (diagnose-IsCompatible last status).0 diagnosed,
                      rw (checked, migrated, diagnosed) refl,
                    )
                  ]
            ]
      ]
