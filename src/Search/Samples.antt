-- ===== src/Search/Samples.antt =====
-- Runs of the search client over a small URL parser and server, and the theorems at them.
use wiki_next.Base.{
  ℕ, ◌≤◌, String, ◌≡◌, refl, ◌↔◌, true, none, some, List, [], ◌∷◌, ◌=ₛ◌, if◌then◌else◌, Result, ok,
  err,
}
use Prim.Native.String.{◌++◌ as ◌<>◌}
use wiki_next.Net.{UrlApi, ipv4, url_host_is_loopback}
use wiki_next.Config.Validate.{validate_search_url, check_search_url}
use wiki_next.Base.Text.{codes, same_codes}
use wiki_next.Base.Lists.{length}
use wiki_next.Search.{
  HttpApi, Response, SearchClient, HealthResponse, VersionResponse, normalize_base_url,
  normalize_url, with_slash, new, get_json, diagnose, read_response, read_chunks, append_bounded,
  checked_add, is_success, http, max_diagnostic_response_bytes, ends_with_slash,
  expected_meilisearch_version,
}
use wiki_next.Search.Body.{received, concat, read_chunks_iff}
use wiki_next.Search.BaseUrl.{IsLawfulSetPath, normalize-validated, normalize_url_idem}
use wiki_next.Search.Probe.{HasAnswered, diagnose_iff}

-- A parsed URL as its parts.
pub record UrlParts : Type 0 where
  pub scheme : String
  pub username : String
  pub path : String

abbrev search_parts : UrlParts
search_parts = record { scheme = "http"; username = ""; path = "/search" }

abbrev pub urls : UrlApi
urls = record {
  Url = UrlParts;
  ParseError = Unit;
  parse = λ text. if text =ₛ "search" then ok search_parts else err tt;
  scheme = λ u. u.scheme;
  host = λ u. some (ipv4 127 0 0 1);
  username = λ u. u.username;
  password = λ u. none;
  path = λ u. u.path;
  query = λ u. none;
  fragment = λ u. none;
  query_pairs = λ u. [];
  set_path = λ u p. record u { path = p };
  join = λ u p. ok (record u { path = u.path <> p });
  parse_ipv6 = λ s. none;
}

urls-IsLawfulSetPath : IsLawfulSetPath urls
urls-IsLawfulSetPath = record {
  scheme = λ u p. refl;
  host = λ u p. refl;
  username = λ u p. refl;
  password = λ u p. refl;
  query = λ u p. refl;
  fragment = λ u p. refl;
  path = λ u web. refl;
}

-- A server that answers both requests with one byte in two chunks.
abbrev answer : UrlParts → Result (Unit {0}) (Response (Unit {0}))
answer url =
    if url.path =ₛ "/search/health"
    then ok (record { status = 200; content_length = some 1; chunks = ok [] ∷ ok (1 ∷ []) ∷ [] })
    else if url.path =ₛ "/search/version"
    then ok (record { status = 200; content_length = none; chunks = ok (2 ∷ []) ∷ ok [] ∷ [] })
    else ok (record { status = 404; content_length = none; chunks = [] })

abbrev pub health_of : List ℕ → Result (Unit {0}) HealthResponse
health_of bytes = if same_codes bytes (1 ∷ []) then ok (record { status = "available" }) else err tt

abbrev pub version_of : List ℕ → Result (Unit {0}) VersionResponse
version_of bytes =
    if same_codes bytes (2 ∷ []) then ok (record { package_version = "1.45.1" }) else err tt

abbrev pub web : HttpApi UrlParts
web = record {
  HeaderValue = String;
  HeaderError = Unit;
  RequestError = Unit;
  JsonError = Unit;
  Client = Unit;
  header_value = λ text. ok text;
  set_sensitive = λ value. value;
  client = λ options. ok tt;
  send = λ client url. answer url;
  health_from_slice = health_of;
  version_from_slice = version_of;
}

abbrev pub client : SearchClient urls web
client = record { base_url = record search_parts { path = "/search/" }; http = tt }

-- What the runs below open.
opened : Unit {0}
unfolding validate_search_url check_search_url url_host_is_loopback normalize_base_url normalize_url
    with_slash new get_json diagnose read_response read_chunks append_bounded checked_add is_success
    codes same_codes wiki_next.Search.url_host_is_loopback
opened = tt

builds : new urls web "search" "key" 500 ≡ ok client
unfolding opened
builds = refl

probes : diagnose urls web client ≡ ok (record { version = "1.45.1" })
unfolding opened
probes = refl

misses : get_json urls web client web.health_from_slice "stats" ≡ err (http 404)
unfolding opened
misses = refl

abbrev chunks : List (Result (Unit {0}) (List ℕ))
chunks = ok (1 ∷ []) ∷ ok (2 ∷ []) ∷ []

read_chunks_iff_example :
    (read_chunks {P = Unit {0}} {H = Unit {0}} {R = Unit {0}} {J = Unit {0}} chunks []
      ≡ ok (1 ∷ 2 ∷ []))
    ↔ ((parts : List (List ℕ)) × (chunks ≡ received parts)
        × (1 ∷ 2 ∷ [] ≡ concat parts)
        × (length {A = ℕ} (1 ∷ 2 ∷ []) ≤ max_diagnostic_response_bytes))
read_chunks_iff_example = read_chunks_iff {P = Unit} {H = Unit} {J = Unit} chunks (1 ∷ 2 ∷ [])

normalize-validated_example :
    (url : UrlParts) × (urls.parse "search" ≡ ok url)
    × (normalize_base_url urls {H = Unit {0}} {R = Unit {0}} {J = Unit {0}} "search"
        ≡ ok (with_slash urls url))
unfolding validate_search_url check_search_url url_host_is_loopback
normalize-validated_example = normalize-validated urls {T = Unit {0}} "search" refl

normalize_url_idem_example :
    (ends_with_slash (codes client.base_url.path) ≡ true)
    × (normalize_url urls {H = Unit {0}} {R = Unit {0}} {J = Unit {0}} client.base_url
        ≡ ok client.base_url)
unfolding opened
normalize_url_idem_example =
    normalize_url_idem urls urls-IsLawfulSetPath search_parts Unit Unit Unit refl

diagnose_iff_example : (diagnose urls web client ≡ ok (record { version = "1.45.1" })) ↔ (
    (health : HealthResponse) × (version : VersionResponse) × HasAnswered urls web client
      web.health_from_slice "health" health
    × HasAnswered urls web client web.version_from_slice "version" version
    × (health.status ≡ "available")
    × (version.package_version ≡ expected_meilisearch_version)
    × ("1.45.1" ≡ expected_meilisearch_version))
diagnose_iff_example = diagnose_iff urls web client (record { version = "1.45.1" })
