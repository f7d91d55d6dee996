-- ===== src/Config/Laws.antt =====
-- What a configuration that `Config::load` of crates/app/src/config.rs returns has gone through.
use wiki_next.Base.{
  ℕ, ◌+◌, ◌≤◌, ◌<◌, String, ◌≡◌, ◌∙◌, inl, inr, Option, List, [], ◌∷◌, arith, All, ok, Result-cases,
}
use Prim.Native.String.{len}
use wiki_next.Base.Lists.{take, length, take-eq_of_short}
use wiki_next.Net.{UrlApi}
use wiki_next.Paths.{PathBuf}
use wiki_next.Config.Types.{Config, max_config_bytes, migration_url_env, ambient_postgres_env}
use wiki_next.Config.Valid.{IsValidConfig, validate_iff}
use wiki_next.Config.Environment.{
  System, not_present, read_environment, apply_environment, reject_runtime_migration_secret,
  reject_ambient, reject_ambient_postgres_environment,
}
use wiki_next.Config.Overrides.{IsOverridden, Chosen-self, apply_environment_iff}
use wiki_next.Config.Load.{TomlApi, ConfigTables, config_of, read_bounded, load}

module _ (S : System) where
  -- Reading the variables into the result a second time changes nothing.
  apply_environment_idem :
      (T : Type 0) (old new : Config)
      → apply_environment S {T = T} old ≡ ok new
      → apply_environment S {T = T} new ≡ ok new
  apply_environment_idem T old new h =
      let o = (apply_environment_iff S T old new).0 h in
      (apply_environment_iff S T new new).1 (record {
        name = Chosen-self (S.env _) _ _ _ o.name;
        bind = Chosen-self (S.env _) _ _ _ o.bind;
        request_timeout_ms = Chosen-self (S.env _) _ _ _ o.request_timeout_ms;
        shutdown_timeout_seconds = Chosen-self (S.env _) _ _ _ o.shutdown_timeout_seconds;
        database = record {
          url = Chosen-self (S.env _) _ _ _ o.database.url;
          max_connections = Chosen-self (S.env _) _ _ _ o.database.max_connections;
          acquire_timeout_ms = Chosen-self (S.env _) _ _ _ o.database.acquire_timeout_ms;
        };
        search_url = Chosen-self (S.env _) _ _ _ o.search_url;
        api_key = Chosen-self (S.env _) _ _ _ o.api_key;
        search_timeout_ms = Chosen-self (S.env _) _ _ _ o.search_timeout_ms;
        data_dir = Chosen-self (S.env _) _ _ _ o.data_dir;
        observability = record {
          filter = Chosen-self (S.env _) _ _ _ o.observability.filter;
          format = Chosen-self (S.env _) _ _ _ o.observability.format;
        };
      })

  reject_ambient_sound :
      (T : Type 0) (keys : List String)
      → reject_ambient S {T = T} keys ≡ ok tt
      → All (λ key. S.env key ≡ not_present) keys
  unfolding reject_ambient
  reject_ambient_sound T [] h = tt
  reject_ambient_sound T (key ∷ keys) h = (ground arith, reject_ambient_sound T keys (ground arith))

  pub ambient_absent :
      (T : Type 0)
      → reject_ambient_postgres_environment S {T = T} ≡ ok tt
      → All (λ key. S.env key ≡ not_present) ambient_postgres_env
  unfolding reject_ambient_postgres_environment
  ambient_absent T h = reject_ambient_sound T ambient_postgres_env h

  secret_absent :
      (T : Type 0) {secret : Option String}
      → read_environment S {T = T} migration_url_env ≡ ok secret
      → reject_runtime_migration_secret S {T = T} secret ≡ ok tt
      → S.env migration_url_env ≡ not_present
  unfolding read_environment reject_runtime_migration_secret
  secret_absent T h k = ground arith

-- What the documentation of `File`, `take` and `String::from_utf8` promises.
pub record IsLawful (S : System) : Type 0 where
  pub contents : S.File → List ℕ
  pub taken :
      (file : S.File) (n : ℕ) {bytes : List ℕ}
      → S.take_bytes file n ≡ ok bytes
      → bytes ≡ take n (contents file)
  pub decoded :
      (bytes : List ℕ) {text : String} → S.from_utf8 bytes ≡ ok text → len text ≡ length bytes

read_bounded_within :
    (S : System) (L : IsLawful S) (T : Type 0) (path : PathBuf) {text : String}
    → read_bounded S {T = T} path ≡ ok text
    → (file : S.File) × (S.open_file path ≡ ok file)
      × ((bytes : List ℕ) × (S.take_bytes file (max_config_bytes + 1) ≡ ok bytes)
          × (S.from_utf8 bytes ≡ ok text)
          × (len text ≤ max_config_bytes))
unfolding read_bounded
read_bounded_within S L T path {text} h = elim (Result-cases (S.open_file path)) [
  | inr (e, failed) ↦ ground arith
  | inl (file, opened) ↦ elim (Result-cases (S.take_bytes file (max_config_bytes + 1))) [
    | inr (e, failed) ↦ ground arith
    | inl (bytes, taken) ↦ (file, opened, (bytes, taken, ground arith, ground arith))
  ]
]

-- A text that `read_bounded` returns is the whole file, and the file is not above the limit: the
-- limit never cuts a file short.
pub read_bounded_whole :
    (S : System) (L : IsLawful S) (T : Type 0) (path : PathBuf) {text : String}
    → read_bounded S {T = T} path ≡ ok text
    → (file : S.File) × (S.open_file path ≡ ok file)
      × (S.from_utf8 (L.contents file) ≡ ok text)
      × (length (L.contents file) ≤ max_config_bytes)
read_bounded_whole S L T path {text} h =
    let (file, opened, (bytes, taken, decoded, small)) = read_bounded_within S L T path h in
    let size = L.decoded bytes decoded in
    let prefix = L.taken file (max_config_bytes + 1) taken in
    let short : length (take (max_config_bytes + 1) (L.contents file)) < max_config_bytes + 1 =
      rw (← prefix) (omega (arith, size, small)) in
    let whole : bytes ≡ L.contents file =
      prefix ∙ take-eq_of_short (max_config_bytes + 1) (L.contents file) short in
    (file, opened, rw whole at decoded, rw (← whole) (omega (arith, size, small)))

module _ (U : UrlApi) (M : TomlApi) (S : System) where
  -- The checks that a loaded configuration has passed, and where its fields come from.
  pub record IsLoaded (path : PathBuf) (config : Config) : Type 0 where
    pub no_secret : S.env migration_url_env ≡ not_present
    pub no_ambient : All (λ key. S.env key ≡ not_present) ambient_postgres_env
    pub text : String
    pub was_read : read_bounded S {T = M.TomlError} path ≡ ok text
    pub tables : ConfigTables
    pub parsed : M.config_tables text ≡ ok tables
    pub overridden : IsOverridden S (config_of tables) config
    pub valid : IsValidConfig U config

  -- `load` returns a configuration only where neither the migration secret nor any of the thirteen
  -- ambient PostgreSQL variables is set. It is then that of the file, with every field replaced
  -- whose variable is set, and it is valid.
  pub load-IsLoaded :
      (path : PathBuf) {config : Config} → load U M S path ≡ ok config → IsLoaded path config
  unfolding load
  load-IsLoaded path {config} h =
      elim (Result-cases (read_environment S {T = M.TomlError} migration_url_env)) [
        | inr (e, failed) ↦ ground arith
        | inl (secret, looked) ↦ elim (Result-cases (read_bounded S {T = M.TomlError} path)) [
          | inr (e, failed) ↦ ground arith
          | inl (text, was_read) ↦ elim (Result-cases (M.config_tables text)) [
            | inr (e, failed) ↦ ground arith
            | inl (tables, parsed) ↦ record {
              no_secret = secret_absent S M.TomlError looked (ground arith);
              no_ambient = ambient_absent S M.TomlError (ground arith);
              text = text;
              was_read = was_read;
              tables = tables;
              parsed = parsed;
              overridden =
                  (apply_environment_iff S M.TomlError (config_of tables) config).0 (ground arith);
              valid = (validate_iff U M.TomlError config).0 (ground arith);
            }
          ]
        ]
      ]
