-- ===== src/Runtime/Startup.antt =====
-- When the startup and the doctor of crates/app/src/runtime.rs succeed, and what a readiness report
-- discloses.
use wiki_next.Base.{
  String, ◌≡◌, refl, sym, ap, ◌∙◌, ◌↔◌, inl, inr, Bool, true, false, ◌&&◌, none, [], arith, Result,
  ok, err, Result-cases,
}
use wiki_next.Net.{UrlApi}
use wiki_next.Config.Types.{Config}
use wiki_next.Search.Probe.{HasReported, diagnose_iff}
use wiki_next.Search.{HttpApi, SearchClient, SearchStatus}
use wiki_next.Postgres
use wiki_next.Postgres.{PgApi, World, Failure, DatabaseStatus, connect_store}
use wiki_next.Postgres.Compatible.{IsCompatible, diagnose-IsCompatible}
use wiki_next.Runtime.Report.{report_new, is_ok, success, failure, check_of, doctor_check}
use wiki_next.Display.{FmtApi, display_store_error, display_search_error}
use wiki_next.Runtime.Services.{
  StorageApi, database_options, Site, AppServices, build_search_client, assemble, connect,
  readiness_report, doctor_database, doctor_search, doctor_storage, run_doctor, doctor_report,
}

abbrev pub succeeded : {F A : Type 0} → Result F A → Bool
succeeded (ok _) = true
succeeded (err _) = false

check_of-eq :
    {F A : Type 0} (component available unavailable : String) (r s : Result F A)
    → succeeded r ≡ succeeded s
    → check_of component available unavailable r ≡ check_of component available unavailable s
unfolding check_of
check_of-eq component available unavailable (ok a) (ok b) h = refl
check_of-eq component available unavailable (ok a) (err e) h = ground arith
check_of-eq component available unavailable (err e) (ok b) h = ground arith
check_of-eq component available unavailable (err e) (err f) h = refl

is_ok-doctor_check :
    {F A : Type 0} (component : String) (show : A → String) (complain : F → String) (r : Result F A)
    → is_ok (doctor_check component show complain r) ≡ succeeded r
unfolding is_ok success failure
is_ok-doctor_check component show complain (ok a) = refl
is_ok-doctor_check component show complain (err e) = refl

healthy_iff :
    {F F' F'' A A' A'' : Type 0} (r : Result F A) (s : Result F' A') (t : Result F'' A'')
    → ((succeeded r && (succeeded s && (succeeded t && true))) ≡ true)
      ↔ (((a : A) × (r ≡ ok a)) × ((a : A') × (s ≡ ok a)) × ((a : A'') × (t ≡ ok a)))
healthy_iff (ok a) (ok b) (ok c) = (λ h. ((a, refl), (b, refl), (c, refl)), λ h. refl)
healthy_iff (err e) s t = (λ h. ground arith, λ ((a, h), x, y). ground arith)
healthy_iff (ok a) (err e) t = (λ h. ground arith, λ (x, (b, h), y). ground arith)
healthy_iff (ok a) (ok b) (err e) = (λ h. ground arith, λ (x, y, (c, h)). ground arith)

module _ (U : UrlApi) (W : HttpApi U.Url) (G : PgApi) (S : StorageApi) where
  -- A readiness report tells nothing but which of the two components answered: on two sites where
  -- the same ones succeed, whatever the errors, the versions and the directories are, the reports
  -- are the same.
  pub readiness_report_opaque :
      (local : S.LocalStorage) (a b : Site U W G S)
      → succeeded (Postgres.diagnose G a.world).0 ≡ succeeded (Postgres.diagnose G b.world).0
      → succeeded (S.diagnose local a.disk).0 ≡ succeeded (S.diagnose local b.disk).0
      → readiness_report U W G S local a ≡ readiness_report U W G S local b
  unfolding readiness_report
  readiness_report_opaque local a b same_database same_storage = rw (
    check_of-eq "postgresql" "PostgreSQL доступен" "PostgreSQL недоступен или несовместим"
        (Postgres.diagnose G a.world).0 (Postgres.diagnose G b.world).0 same_database,
    check_of-eq "storage" "локальное хранилище доступно" "локальное хранилище недоступно"
        (S.diagnose local a.disk).0 (S.diagnose local b.disk).0 same_storage,
  )

  module _ (config : Config) where
    -- The database connects and is compatible.
    abbrev pub HasDatabase : Type 0
    HasDatabase =
        (world : World G) × (connect_store G (database_options config.database) ≡ ok world)
        × ((status : DatabaseStatus) × IsCompatible G world status)

    -- The client is built, and the search engine reports what is expected.
    abbrev pub HasSearch : Type 0
    HasSearch =
        (client : SearchClient U W) × (build_search_client U W G S config ≡ ok client)
        × ((status : SearchStatus) × HasReported U W client status)

    doctor_database_iff :
        ((stored : DatabaseStatus) × (doctor_database U W G S config ≡ ok stored)) ↔ HasDatabase
    unfolding doctor_database
    doctor_database_iff = (
      λ (stored, h). elim (Result-cases (connect_store G (database_options config.database))) [
        | inr (e, failed) ↦ ground arith
        | inl (world, reached) ↦
            (world, reached, (stored, (diagnose-IsCompatible G world stored).0 (ground arith)))
      ],
      λ (world, reached, (status, compatible)).
          let diagnosed = (diagnose-IsCompatible G world status).1 compatible in
          (status, ground arith),
    )

    doctor_search_iff :
        ((found : SearchStatus) × (doctor_search U W G S config ≡ ok found)) ↔ HasSearch
    unfolding doctor_search
    doctor_search_iff = (
      λ (found, h). elim (Result-cases (build_search_client U W G S config)) [
        | inr (e, failed) ↦ ground arith
        | inl (client, built) ↦
            (client, built, (found, (diagnose_iff U W client found).0 (ground arith)))
      ],
      λ (client, built, (status, reported)).
          let diagnosed = (diagnose_iff U W client status).1 reported in (status, ground arith),
    )

  pub healthy-run_doctor :
      (F : FmtApi) (config : Config) (disk : S.Disk)
      → (run_doctor U W G S F config disk).0.healthy ≡ (
          succeeded (doctor_database U W G S config)
          && (succeeded (doctor_search U W G S config)
              && (succeeded (doctor_storage U W G S config disk).0 && true)))
  unfolding run_doctor doctor_report report_new
  healthy-run_doctor F config disk =
      rw
        (
          is_ok-doctor_check "postgresql" _ (display_store_error F)
              (doctor_database U W G S config),
          is_ok-doctor_check "meilisearch" _ (display_search_error F)
              (doctor_search U W G S config),
          is_ok-doctor_check "storage" _ (S.display_error F) (doctor_storage U W G S config disk).0,
        )
        refl

  -- The doctor's report is healthy exactly where the database is compatible, the search engine is
  -- as expected, and the storage has returned its status.
  pub run_doctor_healthy :
      (F : FmtApi) (config : Config) (disk : S.Disk)
      → ((run_doctor U W G S F config disk).0.healthy ≡ true) ↔ (
          HasDatabase config
          × HasSearch config
          × ((kept : S.StorageStatus) × ((doctor_storage U W G S config disk).0 ≡ ok kept)))
  run_doctor_healthy F config disk =
      let stored = doctor_database U W G S config in
      let found = doctor_search U W G S config in
      let kept = (doctor_storage U W G S config disk).0 in
      let all_ok = healthy-run_doctor F config disk in
      let (to, from) = healthy_iff stored found kept in
      let (database, database') = doctor_database_iff config in
      let (search, search') = doctor_search_iff config in
      (
        λ h. let (a, b, c) = to (sym all_ok ∙ h) in (database a, search b, c),
        λ (a, b, c). all_ok ∙ from (database' a, search' b, c),
      )

  -- What `connect` makes of a client, a database and a storage.
  abbrev IsAssembled :
      SearchClient U W
      → Result (Failure G) (World G)
      → Result S.StorageError S.LocalStorage
      → AppServices U W G S
      → Type 0
  IsAssembled client connected prepared services =
      (client ≡ services.search_client)
      × ((world : World G) × (connected ≡ ok world)
          × ((status : DatabaseStatus) × ((Postgres.diagnose G world).0 ≡ ok status))
          × (services.pool ≡ (Postgres.diagnose G world).1))
      × (prepared ≡ ok services.local_storage)
      × (services.readiness_cache ≡ record { cache = none; probes = [] })
      × (services.search_cache ≡ record { cache = none; probes = [] })

  assemble_iff :
      (client : SearchClient U W) (connected : Result (Failure G) (World G))
      (prepared : Result S.StorageError S.LocalStorage) (services : AppServices U W G S)
      → (assemble U W G S client connected prepared ≡ ok services)
        ↔ IsAssembled client connected prepared services
  unfolding assemble
  assemble_iff client (err e) prepared services =
      (λ h. ground arith, λ (c, (world, h, status, pool), p, q, q'). ground arith)
  assemble_iff client (ok world) (err e) services = (
    λ h. elim (Result-cases (Postgres.diagnose G world).0) [
      | inl (status, diagnosed) ↦ ground arith
      | inr (p, failed) ↦ ground arith
    ],
    λ (c, w, h, q, q'). ground arith,
  )
  assemble_iff client (ok world) (ok local) services = (
    λ h. elim (Result-cases (Postgres.diagnose G world).0) [
      | inr (p, failed) ↦ ground arith
      | inl (status, diagnosed) ↦ (
        ground arith,
        (world, refl, (status, diagnosed), ground arith),
        ground arith,
        ground arith,
        ground arith,
      )
    ],
    λ (c, (w, connected, (status, diagnosed), pool), prepared, empty, empty').
        let same : world ≡ w = cc in ground arith,
  )

  -- The startup succeeds exactly where the search client is built, the database connects and is
  -- names an expected version and the expected schema, and the storage is prepared. The services
  -- then hold what was made, and both caches are empty.
  pub connect_iff :
      (config : Config) (disk : S.Disk) (services : AppServices U W G S)
      → ((connect U W G S config disk).0 ≡ ok services) ↔ (
          (build_search_client U W G S config ≡ ok services.search_client)
          × ((world : World G) × (connect_store G (database_options config.database) ≡ ok world)
              × ((status : DatabaseStatus) × IsCompatible G world status)
              × (services.pool ≡ (Postgres.diagnose G world).1))
          × ((S.prepare config.storage.data_dir disk).0 ≡ ok services.local_storage)
          × (services.readiness_cache ≡ record { cache = none; probes = [] })
          × (services.search_cache ≡ record { cache = none; probes = [] }))
  unfolding connect
  connect_iff config disk services = (
    λ h. elim (Result-cases (build_search_client U W G S config)) [
      | inr (e, refused) ↦ ground arith
      | inl (client, built) ↦
          let connected = connect_store G (database_options config.database) in
          let prepared = (S.prepare config.storage.data_dir disk).0 in
          let made = (assemble_iff client connected prepared services).0 (ground arith) in
          let (same, w, p, q, q') = made in
          let (world, reached, (status, diagnosed), pool) = w in
          let compatible = (diagnose-IsCompatible G world status).0 diagnosed in
          (built ∙ ap (λ c. ok c) same, (world, reached, (status, compatible), pool), p, q, q')
    ],
    λ (built, (world, reached, (status, compatible), pool), p, q, q').
        let diagnosed = (diagnose-IsCompatible G world status).1 compatible in
        let connected = connect_store G (database_options config.database) in
        let prepared = (S.prepare config.storage.data_dir disk).0 in
        let made' =
          (assemble_iff services.search_client connected prepared services).1
            (refl, (world, reached, (status, diagnosed), pool), p, q, q') in
        ground arith,
  )
