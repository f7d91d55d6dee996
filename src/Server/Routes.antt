-- ===== src/Server/Routes.antt =====
-- The routes of crates/server/src/lib.rs and their handlers, over the `axum` crate.
use wiki_next.Base.{ℕ, String, if◌then◌else◌}
use wiki_next.Config.Types.{Duration}
use wiki_next.Net.{UrlApi}
use wiki_next.Search.{HttpApi}
use wiki_next.Postgres.{PgApi}
use wiki_next.Runtime.Report.{DiagnosticReport, Call}
use wiki_next.Runtime.Services
use wiki_next.Runtime.Services.{StorageApi, AppServices, Site, Network}
use wiki_next.Server.Http.{replied, TowerApi, Res, Out, Serve}
use wiki_next.Server.Layers.{apply_http_layers}

-- What a handler sends as JSON: a `Liveness`, by its status, or a report.
pub data Json : Type 0 where
  liveness_json : String → Json
  report_json : DiagnosticReport → Json

-- `axum`: a router is made of routes, and is then a service. `get` lets requests by the method GET
-- through to a handler.
pub record RouterApi (T : TowerApi) : Type 1 where
  pub Router : Type 0
  pub empty : Router
  pub route : Router → String → Serve T → Router
  pub merge : Router → Router → Router
  pub call : Router → Serve T
  pub get : Serve T → Serve T
  pub encode : Json → T.Body
  pub into_response : ℕ → Json → Res T

-- The report's code: `StatusCode::OK` or `StatusCode::SERVICE_UNAVAILABLE`.
unfoldable pub report_response : DiagnosticReport → ℕ × Json
report_response report = (if report.healthy then 200 else 503, report_json report)

-- One request to a handler, and how long the handler takes.
pub record Visit (E : Type 0) : Type 0 where
  pub call : Call E
  pub took : Duration

module _ {T : TowerApi} (A : RouterApi T) where
  abbrev send : Duration → ℕ × Json → Out T
  send took (status, json) = replied took (A.into_response status json)

  unfoldable pub liveness : Duration → Serve T
  liveness took request = send took (200, liveness_json "ok")

  unfoldable pub liveness_router : Duration → A.Router
  liveness_router took = A.route A.empty "/healthz" (A.get (liveness took))

  module _ (U : UrlApi) (W : HttpApi U.Url) (G : PgApi) (S : StorageApi) where
    -- What the handlers meet.
    pub record Visits : Type 0 where
      pub liveness_took : Duration
      pub readiness_visit : Visit (Site U W G S)
      pub search_visit : Visit (Network U W G S)

    unfoldable pub readiness : AppServices U W G S → Visit (Site U W G S) → Serve T
    readiness services visit request =
        send visit.took (report_response (Services.readiness U W G S services visit.call).0)

    unfoldable pub search_status : AppServices U W G S → Visit (Network U W G S) → Serve T
    search_status services visit request =
        send visit.took (report_response (Services.search_status U W G S services visit.call).0)

    unfoldable pub status_routes : AppServices U W G S → Visits → A.Router
    status_routes services visits =
        A.route (A.route A.empty "/readyz" (A.get (readiness services visits.readiness_visit)))
          "/status/search" (A.get (search_status services visits.search_visit))

    unfoldable pub router : AppServices U W G S → Duration → Visits → Serve T
    router services request_timeout visits =
        apply_http_layers T
          (A.call (A.merge (liveness_router visits.liveness_took) (status_routes services visits)))
          request_timeout
