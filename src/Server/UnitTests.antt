-- ===== src/Server/UnitTests.antt =====
-- The tests of crates/server/src/lib.rs as statements on the crates that they run on.
pub mod Pass
use wiki_next.Base.{ℕ, String, ◌≡◌, ◌≢◌, some, false, []}
use Prim.Native.String.{len}
use wiki_next.Config.Types.{Duration}
use wiki_next.Runtime.Report.{DiagnosticReport}
use wiki_next.Server.Http.{replied, panicked, TowerApi, Req, Res, Out, Serve}
use wiki_next.Server.Layers.{request_id_header, content_security_policy, apply_http_layers}
use wiki_next.Server.Routes.{RouterApi, report_response, liveness_router}

module _ {T : TowerApi} (A : RouterApi T) where
  -- `Request::builder()`, with the headers that it starts from.
  abbrev pub get_request : String → T.Headers → Req T
  get_request path headers = record {
    method = "GET";
    path = path;
    version = "HTTP/1.1";
    headers = headers;
  }

  abbrev pub Contains : T.Headers → String → Type 0
  Contains headers name = (value : String) × (T.header headers name ≡ some value)

  -- `oneshot`, and what is asserted of the response.
  abbrev pub Responds : Out T → (Res T → Type 0) → Type 0
  Responds out Asserted = (time : Duration) × (r : Res T) × (out ≡ replied time r) × Asserted r

  abbrev pub LivenessIsDependencyIndependentAndHardened : Duration → T.Headers → Type 0
  LivenessIsDependencyIndependentAndHardened took headers =
      Responds
        (apply_http_layers T (A.call (liveness_router A took)) 1000
          (get_request "/healthz" headers))
        λ response.
          (response.status ≡ 200)
          × (T.header response.headers "x-content-type-options" ≡ some "nosniff")
          × Contains response.headers request_id_header

  -- The headers are those of a client that sends an identifier.
  abbrev pub ReplacesUntrustedClientRequestId : Duration → T.Headers → Type 0
  ReplacesUntrustedClientRequestId took headers =
      Responds
        (apply_http_layers T (A.call (liveness_router A took)) 1000
          (get_request "/healthz" headers))
        λ response.
          (request_id : String) × (T.header response.headers request_id_header ≡ some request_id)
          × (request_id ≢ "attacker-controlled")
          × (len request_id ≡ 36)

  abbrev pub AreKept : Res T → Type 0
  AreKept response =
      (T.header response.headers "x-content-type-options" ≡ some "nosniff")
      × Contains response.headers content_security_policy
      × Contains response.headers request_id_header

  -- The handler sleeps, and answers by a status code alone.
  abbrev pub TimeoutResponseKeepsRequestIdAndSecurityHeaders : Res T → T.Headers → Type 0
  TimeoutResponseKeepsRequestIdAndSecurityHeaders answer headers =
      let slow = A.route A.empty "/slow" (A.get (λ request. replied 50 answer)) in
      Responds (apply_http_layers T (A.call slow) 1 (get_request "/slow" headers))
        λ response. (response.status ≡ 504) × AreKept response

  abbrev pub PanicResponseKeepsRequestIdAndSecurityHeaders : T.Headers → Type 0
  PanicResponseKeepsRequestIdAndSecurityHeaders headers =
      let panicking = A.route A.empty "/panic" (A.get (λ request. panicked 0)) in
      Responds (apply_http_layers T (A.call panicking) 1000 (get_request "/panic" headers))
        λ response. (response.status ≡ 500) × AreKept response

abbrev pub UnhealthyReportMapsToServiceUnavailable : Type 0
UnhealthyReportMapsToServiceUnavailable =
    let report : DiagnosticReport = record { healthy = false; checks = [] } in
    (report_response report).0 ≡ 503
