-- ===== src/Search.antt =====
-- crates/search/src/lib.rs: the client of Meilisearch, over the `url`, `reqwest` and `serde_json`
-- crates.
pub mod Body
pub mod Endless
pub mod BaseUrl
pub mod Probe
pub mod Samples
mod EndlessSamples
mod UnitTests
use wiki_next.Base.{
  ℕ, zero, suc, ◌+◌, ◌-◌, ◌*◌, ◌%◌, ◌^◌, ◌≤◌, ◌<◌, String, ◌≡◌, refl, sym, ap, ◌∙◌, ◌≢◌, ◌↔◌, ◌⊎◌,
  inl, inr, Bool, true, false, not, ◌&&◌, ◌||◌, Option, none, some, List, [], ◌∷◌, ◌++◌, arith,
  ◌=ₛ◌, eq_iff, ltb, leb, ◌==◌, if◌then◌else◌, Bool-cases, Option-cases, is_some, is_none_or,
  is_some_and, all, any, All, Result, ok, err, ◌>>=◌, ◌>>◌, map_err, Result-cases,
}
use Prim.Native.String.{◌++◌ as ◌<>◌}
use wiki_next.Base.Lists.{length}
use wiki_next.Base.Text.{codes, eq_ignore_ascii_case}
use wiki_next.Net.{
  UrlApi, Host, domain, ipv4, ipv6, is_loopback, ipv4_is_loopback, ipv6_is_loopback, parse_ip,
}
use wiki_next.Config.Types.{Duration}
use wiki_next.Config.Validate.{reject_if}

abbrev pub expected_meilisearch_version : String
expected_meilisearch_version = "1.45.1"

abbrev pub max_diagnostic_response_bytes : ℕ
max_diagnostic_response_bytes = 64 * 1024

pub record SearchStatus : Type 0 where
  pub version : String

pub record HealthResponse : Type 0 where
  pub status : String

pub record VersionResponse : Type 0 where
  pub package_version : String

-- What `Client::builder` is told.
pub record ClientOptions (HeaderValue : Type 0) : Type 0 where
  pub authorization : HeaderValue
  pub accept : String
  pub proxy : Bool
  pub redirects : Bool
  pub timeout : Duration

-- A response: its status, its announced length, and the results of `chunk()` up to the last one.
pub record Response (RequestError : Type 0) : Type 0 where
  pub status : ℕ
  pub content_length : Option ℕ
  pub chunks : List (Result RequestError (List ℕ))

-- The `reqwest` and `serde_json` crates.
pub record HttpApi (Url : Type 0) : Type 1 where
  pub HeaderValue : Type 0
  pub HeaderError : Type 0
  pub RequestError : Type 0
  pub JsonError : Type 0
  pub Client : Type 0
  pub header_value : String → Result HeaderError HeaderValue
  pub set_sensitive : HeaderValue → HeaderValue
  pub client : ClientOptions HeaderValue → Result RequestError Client
  pub send : Client → Url → Result RequestError (Response RequestError)
  pub health_from_slice : List ℕ → Result JsonError HealthResponse
  pub version_from_slice : List ℕ → Result JsonError VersionResponse

pub data SearchError (ParseError HeaderError RequestError JsonError : Type 0) : Type 0 where
  invalid_url : ParseError → SearchError ParseError HeaderError RequestError JsonError
  unsupported_scheme insecure_remote unsafe_url :
      SearchError ParseError HeaderError RequestError JsonError
  invalid_api_key : HeaderError → SearchError ParseError HeaderError RequestError JsonError
  client_error : RequestError → SearchError ParseError HeaderError RequestError JsonError
  request : RequestError → SearchError ParseError HeaderError RequestError JsonError
  http : ℕ → SearchError ParseError HeaderError RequestError JsonError
  response_too_large : SearchError ParseError HeaderError RequestError JsonError
  decode : JsonError → SearchError ParseError HeaderError RequestError JsonError
  unhealthy : String → SearchError ParseError HeaderError RequestError JsonError
  incompatible_version : String → String → SearchError ParseError HeaderError RequestError JsonError

-- `usize::checked_add` on a 64-bit machine.
unfoldable pub checked_add : ℕ → ℕ → Option ℕ
checked_add a b = if ltb (a + b) (2 ^ 64) then some (a + b) else none

abbrev pub ends_with_slash : List ℕ → Bool
ends_with_slash [] = false
ends_with_slash (c ∷ []) = c == b'/'
ends_with_slash (c ∷ d ∷ s) = ends_with_slash (d ∷ s)

-- `200 ≤ status < 300`.
unfoldable pub is_success : ℕ → Bool
is_success status = leb 200 status && ltb status 300

module _ {P H R J : Type 0} where
  unfoldable pub append_bounded : List ℕ → List ℕ → Result (SearchError P H R J) (List ℕ)
  append_bounded body chunk =
      if is_some_and (λ total. leb total max_diagnostic_response_bytes)
        (checked_add (length body) (length chunk))
      then ok (body ++ chunk)
      else err response_too_large

  -- The loop over `response.chunk()`.
  unfoldable pub read_chunks :
      List (Result R (List ℕ)) → List ℕ → Result (SearchError P H R J) (List ℕ)
  read_chunks [] body = ok body
  read_chunks (chunk ∷ chunks) body = do
    bytes ← map_err request chunk
    longer ← append_bounded body bytes
    read_chunks chunks longer

  -- The part of `get_json` from the status of the response to its body.
  unfoldable pub read_response : Response R → Result (SearchError P H R J) (List ℕ)
  read_response response =
      if not (is_success response.status)
      then err (http response.status)
      else if is_some_and (λ n. ltb max_diagnostic_response_bytes n) response.content_length
      then err response_too_large
      else read_chunks response.chunks []

module _ (U : UrlApi) where
  abbrev host_is_loopback : Option Host → Bool
  host_is_loopback (some (domain host)) =
      eq_ignore_ascii_case host "localhost" || is_some_and is_loopback (parse_ip U host)
  host_is_loopback (some (ipv4 a b c d)) = ipv4_is_loopback a
  host_is_loopback (some (ipv6 bits)) = ipv6_is_loopback bits
  host_is_loopback none = false

  -- The client's own copy of the test.
  unfoldable pub url_host_is_loopback : U.Url → Bool
  unfolding parse_ip eq_ignore_ascii_case is_loopback
  url_host_is_loopback url = host_is_loopback (U.host url)

  unfoldable pub with_slash : U.Url → U.Url
  with_slash url =
      if ends_with_slash (codes (U.path url)) then url else U.set_path url (U.path url <> "/")

  -- `normalize_base_url` once the text is parsed.
  unfoldable pub normalize_url :
      {H R J : Type 0} → U.Url → Result (SearchError U.ParseError H R J) U.Url
  normalize_url url =
      if not (U.scheme url =ₛ "http" || U.scheme url =ₛ "https")
      then err unsupported_scheme
      else if U.scheme url =ₛ "http" && not (url_host_is_loopback url)
      then err insecure_remote
      else if not (U.username url =ₛ "")
          || is_some (U.password url)
          || is_some (U.query url)
          || is_some (U.fragment url)
      then err unsafe_url
      else ok (with_slash url)

  unfoldable pub normalize_base_url :
      {H R J : Type 0} → String → Result (SearchError U.ParseError H R J) U.Url
  normalize_base_url value = do url ← map_err invalid_url (U.parse value); normalize_url url

module _ (U : UrlApi) (W : HttpApi U.Url) where
  abbrev pub SearchResult : Type 0 → Type 0
  SearchResult A = Result (SearchError U.ParseError W.HeaderError W.RequestError W.JsonError) A

  pub record SearchClient : Type 0 where
    pub base_url : U.Url
    pub http : W.Client

  -- `SearchClient::new`.
  unfoldable pub new : String → String → Duration → SearchResult SearchClient
  new base_url api_key request_timeout = do
    base ← normalize_base_url U base_url
    authorization ← map_err invalid_api_key (W.header_value ("Bearer " <> api_key))
    built ← map_err client_error (
        W.client (record {
          authorization = W.set_sensitive authorization;
          accept = "application/json";
          proxy = false;
          redirects = false;
          timeout = request_timeout;
        }))
    ok (record { base_url = base; http = built })

  -- `get_json`, with the decoder of the type that is asked for.
  unfoldable pub get_json :
      {A : Type 0} → SearchClient → (List ℕ → Result W.JsonError A) → String → SearchResult A
  get_json client from_slice path = do
    url ← map_err invalid_url (U.join client.base_url path)
    response ← map_err request (W.send client.http url)
    body ← read_response response
    map_err decode (from_slice body)

  unfoldable pub diagnose : SearchClient → SearchResult SearchStatus
  diagnose client = do
    health ← get_json client W.health_from_slice "health"
    reject_if (not (health.status =ₛ "available")) (unhealthy health.status)
    version ← get_json client W.version_from_slice "version"
    reject_if (not (version.package_version =ₛ expected_meilisearch_version))
        (incompatible_version expected_meilisearch_version version.package_version)
    ok (record { version = version.package_version })
