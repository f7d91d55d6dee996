-- ===== src/Config/Samples.antt =====
-- A small URL parser, environment and file for the configuration.
use wiki_next.Base.{
  ℕ, zero, suc, ◌+◌, ◌-◌, ◌*◌, ◌%◌, ◌^◌, ◌≤◌, ◌<◌, String, ◌≡◌, refl, sym, ap, ◌∙◌, ◌≢◌, ◌↔◌, ◌⊎◌,
  inl, inr, Bool, true, false, not, ◌&&◌, ◌||◌, Option, none, some, List, [], ◌∷◌, ◌++◌, arith,
  ◌=ₛ◌, eq_iff, ltb, leb, ◌==◌, if◌then◌else◌, Bool-cases, Option-cases, is_some, is_none_or,
  is_some_and, all, any, All, Result, ok, err, ◌>>=◌, ◌>>◌, map_err, Result-cases,
}
use Prim.Native.String.{len}
use wiki_next.Base.Lists.{length, take}
use wiki_next.Base.Text
use wiki_next.Base.Text.{codes, parse_unsigned, trim_matches, is_whitespace}
use wiki_next.Net.{UrlApi, v4, Host, domain, ipv4, url_host_is_loopback}
use wiki_next.Paths.{path_of, is_unsafe}
use wiki_next.Config.Types.{Config, IoError, other, parse_log_format}
use wiki_next.Config.Validate.{
  validate, validate_database_url, validate_database_config, check_database_url, query_ssl_mode,
  is_override, database_role, is_identifier, validate_search_url, check_search_url,
  validate_observability,
}
use wiki_next.Config.Environment.{
  System, EnvVar, present, not_present, override_string, override_parsed, override_database,
  override_observability, apply_environment, reject_runtime_migration_secret,
  reject_ambient_postgres_environment,
}
use wiki_next.Config.Load.{TomlApi, ConfigTables, config_of, read_bounded}
use wiki_next.Config.Laws.{IsLawful}

-- A parsed URL as its parts.
pub record UrlParts : Type 0 where
  pub scheme : String
  pub host : Option Host
  pub username : String
  pub password : Option String
  pub path : String
  pub query_pairs : List (String × String)

abbrev pub remote : List (String × String) → UrlParts
remote pairs = record {
  scheme = "postgres";
  host = some (domain "db.example.test");
  username = "wikinext";
  password = some "database-secret";
  path = "/wikinext";
  query_pairs = pairs;
}

abbrev pub local : UrlParts
local = record (remote []) { host = some (domain "127.0.0.1") }

abbrev pub search_parts : UrlParts
search_parts = record {
  scheme = "http";
  host = some (ipv4 127 0 0 1);
  username = "";
  password = none;
  path = "/";
  query_pairs = [];
}

-- The texts that the runs use.
abbrev pub parse_parts : String → Result (Unit {0}) UrlParts
parse_parts text =
    if text =ₛ "local"
    then ok local
    else if text =ₛ "remote"
    then ok (remote [])
    else if text =ₛ "verified"
    then ok (remote (("sslmode", "verify-full") ∷ []))
    else if text =ₛ "twice"
    then ok (remote (("sslmode", "verify-full") ∷ ("sslmode", "disable") ∷ []))
    else if text =ₛ "options"
    then ok (remote (("options[search_path]", "attacker") ∷ ("sslmode", "verify-full") ∷ []))
    else if text =ₛ "search"
    then ok search_parts
    else err tt

abbrev pub urls : UrlApi
urls = record {
  Url = UrlParts;
  ParseError = Unit;
  parse = parse_parts;
  scheme = λ u. u.scheme;
  host = λ u. u.host;
  username = λ u. u.username;
  password = λ u. u.password;
  path = λ u. u.path;
  query = λ u. none;
  fragment = λ u. none;
  query_pairs = λ u. u.query_pairs;
  set_path = λ u p. record u { path = p };
  join = λ u p. ok (record u { path = p });
  parse_ipv6 = λ s. none;
}

abbrev pub environment_of : String → EnvVar
environment_of key =
    if key =ₛ "WIKINEXT_DATABASE_MAX_CONNECTIONS" then present "+32" else not_present

abbrev pub decode_one : List ℕ → Result IoError String
decode_one (_ ∷ []) = ok "x"
decode_one _ = err (other 0)

-- A disk whose only file is one byte long.
abbrev pub system : System
system = record {
  env = environment_of;
  parse_socket_addr = λ s. none;
  File = List ℕ;
  open_file = λ path. ok (b'x' ∷ []);
  take_bytes = λ file n. ok (take n file);
  from_utf8 = decode_one;
}

pub decode_one-len :
    (bytes : List ℕ) {text : String} → decode_one bytes ≡ ok text → len text ≡ length bytes
decode_one-len [] h = cc
decode_one-len (c ∷ []) {text} h = let e : ◌≡◌ {A = String} "x" text = cc in rw (← e)
decode_one-len (c ∷ d ∷ s) h = cc

unfoldable pub system-IsLawful : IsLawful system
system-IsLawful = record {
  contents = λ file. file;
  taken = λ file n h. ground arith;
  decoded = decode_one-len;
}

abbrev pub tables : ConfigTables
tables = record {
  app_name = " WikiNEXT ";
  bind = record { ip = v4 127 0 0 1; port = 3000 };
  request_timeout_ms = none;
  shutdown_timeout_seconds = none;
  database = record { url = "local"; max_connections = none; acquire_timeout_ms = none };
  search_url = "search";
  search_api_key = "search-development-key";
  search_timeout_ms = none;
  data_dir = "./data";
  observability = none;
}

abbrev pub toml : TomlApi
toml = record {
  TomlError = Unit;
  config_tables = λ text. ok tables;
  migration_tables = λ text. ok (tables.database, none);
}

-- What the runs below open.
unfoldable pub opened : Unit {0}
unfolding validate validate_database_config validate_database_url check_database_url query_ssl_mode
    is_override database_role is_identifier validate_search_url check_search_url
    validate_observability url_host_is_loopback path_of is_unsafe config_of apply_environment
    override_database override_observability override_string override_parsed parse_unsigned
    parse_log_format read_bounded reject_runtime_migration_secret
    reject_ambient_postgres_environment codes trim_matches is_whitespace wiki_next.Base.Text.length
opened = tt

abbrev pub loaded : Config
unfolding opened
loaded = record (config_of tables) {
  database = record (config_of tables).database { max_connections = 32 };
}
