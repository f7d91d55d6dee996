-- ===== src/Search/Probe.antt =====
-- What a successful probe of Meilisearch in crates/search/src/lib.rs has seen.
use wiki_next.Base.{
  ℕ, String, ◌≤◌, ◌<◌, ◌≡◌, ◌↔◌, inl, inr, some, List, arith, eq_iff, Option-cases, Result, ok,
  Result-cases,
}
use wiki_next.Base.Lists.{length}
use wiki_next.Net.{UrlApi}
use wiki_next.Search.{
  HttpApi, Response, SearchClient, SearchStatus, HealthResponse, VersionResponse,
  expected_meilisearch_version, max_diagnostic_response_bytes, is_success, read_response, get_json,
  diagnose,
}
use wiki_next.Search.Body.{received, concat, read_chunks_iff}

-- A response of success whose body arrives whole, within the limit that its length was announced
-- to keep.
pub record HasBody {R : Type 0} (response : Response R) (body : List ℕ) : Type 0 where
  pub success : (200 ≤ response.status) × (response.status < 300)
  pub announced : (n : ℕ) → response.content_length ≡ some n → n ≤ max_diagnostic_response_bytes
  pub parts : List (List ℕ)
  pub arrived : response.chunks ≡ received parts
  pub joined : body ≡ concat parts
  pub small : length body ≤ max_diagnostic_response_bytes

module _ {P H R J : Type 0} (response : Response R) (body : List ℕ) where
  read_response_iff :
      (read_response {P = P} {H = H} {J = J} response ≡ ok body) ↔ HasBody response body
  unfolding read_response is_success
  read_response_iff = (
    λ h.
        let (parts, arrived, joined, small) =
          (read_chunks_iff {P = P} {H = H} {J = J} response.chunks body).0 (ground arith) in
        record {
          success = ground arith;
          announced = λ n e. ground arith;
          parts = parts;
          arrived = arrived;
          joined = joined;
          small = small;
        },
    λ b.
        let read =
          (read_chunks_iff {P = P} {H = H} {J = J} response.chunks body).1
            (b.parts, b.arrived, b.joined, b.small) in
        let (low, high) = b.success in
        elim (Option-cases response.content_length) [
          | inl absent ↦ ground arith
          | inr (n, e) ↦ let most = b.announced n e in ground arith
        ],
  )

module _ (U : UrlApi) (W : HttpApi U.Url) (client : SearchClient U W) where
  -- The request to a path was sent, and the body of its response decodes to a value.
  pub record HasAnswered {A : Type 0} (from_slice : List ℕ → Result W.JsonError A) (path : String)
      (value : A) : Type 0 where
    pub url : U.Url
    pub addressed : U.join client.base_url path ≡ ok url
    pub response : Response W.RequestError
    pub sent : W.send client.http url ≡ ok response
    pub body : List ℕ
    pub read : HasBody response body
    pub decoded : from_slice body ≡ ok value

  get_json_iff :
      {A : Type 0} (from_slice : List ℕ → Result W.JsonError A) (path : String) (value : A)
      → (get_json U W client from_slice path ≡ ok value) ↔ HasAnswered from_slice path value
  unfolding get_json
  get_json_iff from_slice path value = (
    λ h. elim (Result-cases (U.join client.base_url path)) [
      | inr (problem, failed) ↦ ground arith
      | inl (url, addressed) ↦ elim (Result-cases (W.send client.http url)) [
        | inr (problem, failed) ↦ ground arith
        | inl (response, sent) ↦
            elim (Result-cases
              (read_response {P = U.ParseError} {H = W.HeaderError} {J = W.JsonError} response)) [
                | inr (problem, failed) ↦ ground arith
                | inl (body, was_read) ↦ record {
                  url = url;
                  addressed = addressed;
                  response = response;
                  sent = sent;
                  body = body;
                  read = (read_response_iff response body).0 was_read;
                  decoded = ground arith;
                }
              ]
      ]
    ],
    λ a.
        let was_read =
          (read_response_iff {P = U.ParseError} {H = W.HeaderError} {J = W.JsonError} a.response
              a.body).1
            a.read in
        ground (arith, a.addressed, a.sent, a.decoded),
  )

  -- The server is available and of the expected version, by its answers to both requests.
  abbrev pub HasReported : SearchStatus → Type 0
  HasReported status =
      (health : HealthResponse) × (version : VersionResponse) × HasAnswered W.health_from_slice
        "health" health
      × HasAnswered W.version_from_slice "version" version
      × (health.status ≡ "available")
      × (version.package_version ≡ expected_meilisearch_version)
      × (status.version ≡ expected_meilisearch_version)

  -- The probe succeeds exactly where both requests are answered by a status of success and a body
  -- that arrives whole and within the limit, in the announced length as well, where the first body
  -- decodes to the status `available`, and the second to the expected version. That is then the
  -- version that the probe returns.
  pub diagnose_iff :
      (status : SearchStatus) → (diagnose U W client ≡ ok status) ↔ HasReported status
  unfolding diagnose
  diagnose_iff status = (
    λ h. elim (Result-cases (get_json U W client W.health_from_slice "health")) [
      | inr (problem, failed) ↦ ground arith
      | inl (health, got) ↦
          elim (Result-cases (get_json U W client W.version_from_slice "version")) [
            | inr (problem, failed) ↦ ground arith
            | inl (version, got') ↦
                let up : health.status ≡ "available" =
                  ground (arith, eq_iff health.status "available") in
                let right : version.package_version ≡ expected_meilisearch_version =
                  ground (arith, eq_iff version.package_version expected_meilisearch_version) in
                let answer = (get_json_iff W.health_from_slice "health" health).0 got in
                let answer' = (get_json_iff W.version_from_slice "version" version).0 got' in
                (health, version, answer, answer', up, right, ground arith)
          ]
    ],
    λ (health, version, answer, answer', up, right, e).
        let got = (get_json_iff W.health_from_slice "health" health).1 answer in
        let got' = (get_json_iff W.version_from_slice "version" version).1 answer' in
        ground (
          arith,
          eq_iff health.status "available",
          eq_iff version.package_version expected_meilisearch_version,
        ),
  )
