-- ===== src/Lib.antt =====
-- WikiNEXT: a self-hosted wiki server in Rust, modelled from its crates.
--
-- The program. `crates/core` decides who may do what: `policy.rs` resolves a subject, a page state
-- and the role policies of a category into an allow or a deny with its reason. `crates/app` puts a
-- server together: `config.rs` reads and validates the configuration, `runtime.rs` connects the
-- database, the search engine and the local storage and reports their health, `password.rs` hashes
-- passwords. `crates/store` holds the PostgreSQL store and the file storage, `crates/search` the
-- client of Meilisearch, `crates/render` the settings of the markup parser, `crates/server` the HTTP
-- server and the command line. The configuration feeds its URLs, secrets and time limits to the
-- store and the search client; the runtime calls their probes and the server serves the reports. The
-- command line runs one of the commands: serve, migrate or doctor.
--
-- Which file models which part:
--   Id             crates/core/src/id.rs: the three identifier types over an abstract UUID.
--   Policy         crates/core/src/policy.rs: `Action` the fifteen actions, `Resolve` the code
--                  (`resolve`, `unique_roles`, `unique_overrides`, `effective_grants`,
--                  `decide_grants`), `Decision` the rules on the lists of the input, and the proofs
--                  in `Valid`, `Issues`, `Grants`, `Laws`, `Order` and `Unordered`, where the
--                  policies are a quotient that forgets their order.
--   Net, Paths     the parts of `std::net` and `std::path` that the configuration tests;
--                  `Loopback` which hosts are loopback addresses. Each crate has its own test for
--                  them: that of the client stands in `Search`.
--   Config         crates/app/src/config.rs: `Types` the structs and errors, `Validate` the checks,
--                  `Environment` the overrides, `Load` the reading of the file; the proofs in
--                  `DatabaseUrl`, `SearchUrl`, `Identifier`, `Valid`, `Overrides`, `Laws` and
--                  `Migrating`.
--   Postgres       crates/store/src/postgres.rs: the version checks, the migration and the probe.
--                  `Migration`, `Compatible` and `Version` hold the proofs.
--   Storage        crates/store/src/storage.rs: the checks, `prepare`, `status` and `diagnose`;
--                  `Private`, `Prepare` and `Clean` hold the proofs.
--   Search         crates/search/src/lib.rs: the client, its bounded body and its probe, with proofs
--                  in `Body`, `Endless`, `BaseUrl` and `Probe`.
--   Password       crates/app/src/password.rs: hashing, verification, the rehash check; `Verify` the
--                  proofs.
--   Runtime        crates/app/src/runtime.rs: `Report` the reports and their cache, `Services` the
--                  startup, the probes, the migration and the doctor; the proofs in `Cache`,
--                  `Startup` and `Separate`. `LocalDisk` puts `Storage` behind the runtime's
--                  interface.
--   Server         crates/server/src/lib.rs: `Http` requests, responses and the middleware, `Layers`
--                  the stack of the source, `Routes` the router and its handlers, `Shutdown` the
--                  signals and the race of the server with its deadline, `Telemetry` the subscriber;
--                  the proofs in `Good`, `Hardened`, `Endpoints` and `Deadline`.
--   Command        crates/server/src/main.rs: `Run` the commands and the exit code; the proofs in
--                  `Phases`, `Exit` and `Doctor`.
--   Debug          the `Debug` instances of config.rs, postgres.rs and the search client; the
--                  proof in `Secrets`.
--   Display        the `Display` texts of the errors of crates/app, crates/search, crates/server and
--                  crates/store, by their `error` attributes.
--   Render         crates/render/src/lib.rs: the version of the parser and its settings.
--   Base           operators, tests on numbers and text, maps keyed by identifiers, results.
-- A module `UnitTests` states the tests of a source file, `Pass` below it proves them. A module
-- `Samples`, `FileSamples`, `EndlessSamples`, `DiskSamples`, `RouteSamples`, `Runs` or `Signals` holds
-- runs on concrete inputs.
--
-- State is passed explicitly. A `BTreeMap` and a `BTreeSet` are lists that are looked up by key,
-- with the insertion of the source; `?` is a bind of results. The store passes its world along: the
-- state of the server, and the log of the operations that were sent to it. A future under
-- `tokio::time::timeout` takes its deadline as the number of results that it still gets. A service
-- is a function of a request to an outcome: a response after a time, a panic after a time, or no
-- end. A future of the server's life is the time at which it is done, if ever. The cache of a report
-- is an option with the time it was filled at, beside the calls that have probed; its mutex makes
-- calls follow each other, and each call comes with what its probes meet. A call may also be dropped
-- before it ends, as the time limit of a request does.
--
-- Parameters. The crates that the repository only calls are records of operations: `UrlApi` for
-- `url`, `TomlApi` for `toml` and `serde`, `HttpApi` for `reqwest` and `serde_json`, `PgApi` for
-- `sqlx` and the clock, `ArgonApi` for `argon2`, `System` for the environment and the disk of the
-- configuration. `DiskApi` is the file system of the storage, with no other writer meanwhile.
-- `StorageApi` is what the runtime uses of the local storage. `TowerApi` is `http`, `tower` and
-- `tower_http` with the layers by the names of their constructors, `RouterApi` is `axum`,
-- `TracingApi` is `tracing_subscriber`, `DebugApi` and `FmtApi` are `std::fmt`, `FtmlApi` is `ftml`,
-- `Process` is what `tokio` and `axum::serve` meet while the server runs, and `Machine` is all that
-- a run of the command line meets. What a theorem needs of them is a hypothesis that states
-- documented behaviour: that the rank of a UUID tells it from all others, what `take` and
-- `from_utf8` return, that `set_path` changes the path alone, what `argon2` writes into a hash,
-- and that a disk tells a missing file on every path that leads to it.
--
-- Bounds. A configuration file is bounded by 1 MiB and a response of Meilisearch by 64 KiB, as in
-- the source; `usize` has 64 bits. No definition runs on fuel: every loop is structural on a list or
-- a text.
--
-- Not modelled: the SQL migration and the scripts, compose files and documents; the parsing of the
-- arguments by `clap`; the log lines; the re-exports and the constant of crates/app/src/lib.rs; the
-- accessors of private fields; of the tests, those that need the TOML parser, `argon2` or `ftml`
-- itself. The calls that the loading of the configuration, the startup, the migration and the doctor
-- make all return: of them only the operations under `tokio::time::timeout` may miss their deadline. A
-- server may run for ever, and a service may never answer.
pub mod Base
pub mod Id
pub mod Policy
pub mod Net
pub mod Paths
pub mod Config
pub mod Search
pub mod Postgres
pub mod Password
pub mod Runtime
pub mod Storage
pub mod Server
pub mod Command
pub mod Debug
pub mod Display
pub mod Render
