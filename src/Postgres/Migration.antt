-- ===== src/Postgres/Migration.antt =====
-- What `migrate` of crates/store/src/postgres.rs sends to the server, and in which order.
use wiki_next.Base.{
  ℕ, zero, suc, String, ◌≡◌, refl, sym, ◌≢◌, ◌⊎◌, inl, inr, false, Option, none, some, List, [],
  ◌∷◌, ◌++◌, arith, Result, ok, err, Result-cases,
}
use mathlib.Core.List.{append_assoc, append-nil}
use wiki_next.Postgres.{
  PgApi, Operation, server_version_probe, schema_probe, run_migrations, setup, Setup, Timed,
  elapsed, done, World, Failure, Db, pure, and_then, set_up, run, interrupted, probe_server,
  probe_schema, ensure_compatible_server, diagnose, setups, migration_steps, migrate, check_server,
  check_schema, is_expected_postgres_version, acquire, execute, set_application_role,
  DatabaseStatus,
}

pub timed_cases :
    {E A : Type 0} (t : Timed E A)
    → (t ≡ elapsed) ⊎ ((e : E) × (t ≡ done (err e))) ⊎ ((a : A) × (t ≡ done (ok a)))
timed_cases elapsed = inl refl
timed_cases (done (err e)) = inr (inl (e, refl))
timed_cases (done (ok a)) = inr (inr (a, refl))

module _ (G : PgApi) where
  abbrev probes : List Operation
  probes = server_version_probe ∷ schema_probe ∷ []

  -- The operations `sent` are a first part of `ops`, and all of it where the result is no error.
  abbrev pub Sends : {A : Type 0} → Db G A → List Operation → Type 0
  Sends {A} m ops =
      (w : World G)
      → (sent : List Operation) × (unsent : List Operation) × (sent ++ unsent ≡ ops)
        × ((m w).1.log ≡ w.log ++ sent)
        × ((a : A) → (m w).0 ≡ ok a → unsent ≡ [])

  and_then-Sends :
      {A B : Type 0} (m : Db G A) (f : A → Db G B) (first second : List Operation)
      → Sends m first
      → ((a : A) → Sends (f a) second)
      → Sends (and_then G m f) (first ++ second)
  and_then-Sends m f first second hm hf w =
      let (sent, unsent, e, log, whole) = hm w in
      elim (Result-cases (m w).0) [
        | inl (a, eq) ↦
            let (sent', unsent', e', log', whole') = hf a (m w).1 in
            let nothing_left = whole a eq in
            (
              sent ++ sent',
              unsent',
              ground (arith, append_assoc sent sent' unsent', append-nil sent),
              ground (arith, append_assoc w.log sent sent'),
              λ b h. whole' b (ground arith),
            )
        | inr (p, eq) ↦ (
          sent,
          unsent ++ second,
          ground (arith, append_assoc sent unsent second),
          ground arith,
          λ b h. ground arith,
        )
      ]

  one-Sends :
      {A : Type 0} (m : Db G A) (op : Operation)
      → ((w : World G) → (m w).1.log ≡ w.log ++ op ∷ [])
      → Sends m (op ∷ [])
  one-Sends m op h w = (op ∷ [], [], refl, h w, λ a e. refl)

  pure-Sends : {A : Type 0} (r : Result (Failure G) A) → Sends (pure G r) []
  pure-Sends r w = ([], [], refl, sym (append-nil w.log), λ a e. refl)

  set_up-Sends : (s : Setup) → Sends (set_up G s) (setup s ∷ [])
  set_up-Sends s = one-Sends (set_up G s) (setup s) λ w. refl

  run-Sends : Sends (run G) (run_migrations ∷ [])
  run-Sends = one-Sends (run G) run_migrations λ w. refl

  interrupted-Sends :
      (m : Db G Unit) (op : Operation) (unsent : List Operation)
      → ((w : World G) → (m w).1.log ≡ w.log ++ op ∷ [])
      → Sends (interrupted G m) (op ∷ unsent)
  interrupted-Sends m op unsent h w = (op ∷ [], unsent, refl, h w, λ a e. ground arith)

  abbrev migration_operations : List Setup → List Operation
  migration_operations [] = run_migrations ∷ []
  migration_operations (s ∷ rest) = setup s ∷ migration_operations rest

  migration_steps-Sends :
      (steps : List Setup) (deadline : Option ℕ)
      → Sends (migration_steps G steps deadline) (migration_operations steps)
  unfolding migration_steps
  migration_steps-Sends [] (some zero) = interrupted-Sends (run G) run_migrations [] λ w. refl
  migration_steps-Sends [] (some (suc k)) = run-Sends
  migration_steps-Sends [] none = run-Sends
  migration_steps-Sends (s ∷ rest) (some zero) =
      interrupted-Sends (set_up G s) (setup s) (migration_operations rest) λ w. refl
  migration_steps-Sends (s ∷ rest) (some (suc k)) =
      and_then-Sends (set_up G s) (λ _. migration_steps G rest (some k)) (setup s ∷ [])
        (migration_operations rest) (set_up-Sends s) (λ _. migration_steps-Sends rest (some k))
  migration_steps-Sends (s ∷ rest) none =
      and_then-Sends (set_up G s) (λ _. migration_steps G rest none) (setup s ∷ [])
        (migration_operations rest) (set_up-Sends s) (λ _. migration_steps-Sends rest none)

  ensure_compatible_server-Sends : Sends (ensure_compatible_server G) (server_version_probe ∷ [])
  unfolding ensure_compatible_server probe_server
  ensure_compatible_server-Sends =
      and_then-Sends (probe_server G) (λ v. pure G (check_server G v)) (server_version_probe ∷ [])
        [] (one-Sends (probe_server G) server_version_probe λ w. refl)
        (λ v. pure-Sends (check_server G v))

  diagnose-Sends : Sends (diagnose G) probes
  unfolding diagnose probe_schema
  diagnose-Sends =
      and_then-Sends (ensure_compatible_server G)
        (λ v. and_then G (probe_schema G) λ n. pure G (check_schema G v n))
        (server_version_probe ∷ []) (schema_probe ∷ []) ensure_compatible_server-Sends
        (λ v.
          and_then-Sends (probe_schema G) (λ n. pure G (check_schema G v n)) (schema_probe ∷ []) []
            (one-Sends (probe_schema G) schema_probe λ w. refl)
            (λ n. pure-Sends (check_schema G v n)))

  -- Whatever fails and wherever the time limit strikes, a migration has sent a first part of one
  -- sequence, in its order: the probe of the server's version, the connection, its three settings,
  -- the application's role, the migrator, and the two probes of a diagnosis. Where it succeeds, it
  -- has sent the whole sequence.
  pub migrate_order :
      (application_role : String) (deadline : Option ℕ)
      → Sends (migrate G application_role deadline) (
          server_version_probe
          ∷ setup acquire
          ∷ setup (execute "SET lock_timeout = '10s'")
          ∷ setup (execute "SET statement_timeout = '5min'")
          ∷ setup (execute "SET search_path = public")
          ∷ setup (set_application_role application_role)
          ∷ run_migrations
          ∷ probes)
  unfolding migrate
  migrate_order role deadline =
      let tail : DatabaseStatus → Db G Unit = λ _. pure G (ok tt) in
      let diagnosed : Unit → Db G Unit = λ _. and_then G (diagnose G) tail in
      let steps = migration_steps G (setups G role) deadline in
      and_then-Sends (ensure_compatible_server G) (λ _. and_then G steps diagnosed)
        (server_version_probe ∷ []) (migration_operations (setups G role) ++ probes)
        ensure_compatible_server-Sends
        (λ _.
          and_then-Sends steps diagnosed (migration_operations (setups G role)) probes
            (migration_steps-Sends (setups G role) deadline)
            (λ _.
              and_then-Sends (diagnose G) tail probes [] diagnose-Sends (λ _. pure-Sends (ok tt))))

  -- Where the server does not report an expected version, whether the probe fails, runs out of time
  -- or names another version, a migration fails and has sent that probe alone.
  pub migrate_guarded :
      (application_role : String) (deadline : Option ℕ) (w : World G)
      → ((v : String)
          → (G.server_version w.state).0 ≡ done (ok v)
          → is_expected_postgres_version v ≡ false)
      → ((migrate G application_role deadline w).1.log ≡ w.log ++ server_version_probe ∷ [])
        × ((migrate G application_role deadline w).1.state ≡ (G.server_version w.state).1)
        × ((migrate G application_role deadline w).0 ≢ ok tt)
  unfolding migrate ensure_compatible_server probe_server
  migrate_guarded role deadline w h = elim (timed_cases (G.server_version w.state).0) [
    | inl e ↦ (ground arith, ground arith, λ o. ground arith)
    | inr (inl (p, e)) ↦ (ground arith, ground arith, λ o. ground arith)
    | inr (inr (v, e)) ↦ let refused = h v e in (ground arith, ground arith, λ o. ground arith)
  ]
