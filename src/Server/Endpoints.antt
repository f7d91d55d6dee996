-- ===== src/Server/Endpoints.antt =====
-- What the routes of crates/server/src/lib.rs answer.
use wiki_next.Base.{
  ℕ, ◌<◌, String, ◌≡◌, refl, ap, ◌∙◌, ◌≢◌, ◌⊎◌, inl, inr, true, false, none, arith, if◌then◌else◌,
  Bool-cases,
}
use wiki_next.Config.Types.{Duration}
use wiki_next.Net.{UrlApi}
use wiki_next.Search.{HttpApi}
use wiki_next.Postgres.{PgApi}
use wiki_next.Runtime.Report.{DiagnosticReport}
use wiki_next.Runtime.Services
use wiki_next.Runtime.Services.{StorageApi, AppServices}
use wiki_next.Server.Http.{replied, TowerApi, Req, Res, Serve, IsLawful}
use wiki_next.Server.Good.{Answers, differ}
use wiki_next.Server.Hardened.{apply_http_layers-IsHardened}
use wiki_next.Server.Routes.{
  Json, liveness_json, report_json, RouterApi, report_response, liveness, liveness_router, Visits,
  readiness, search_status, status_routes, router,
}

-- What the documentation of `axum` promises: a route is taken where its path is the request's, `get`
-- lets the method GET through, merged routers keep their routes, and a response of JSON has the
-- headers of its content alone.
pub record IsLawfulRouter {T : TowerApi} (A : RouterApi T) : Type 0 where
  pub route_hit :
      (r : A.Router) (path : String) (h : Serve T) (req : Req T)
      → req.path ≡ path
      → A.call (A.route r path h) req ≡ h req
  pub route_miss :
      (r : A.Router) (path : String) (h : Serve T) (req : Req T)
      → req.path ≢ path
      → A.call (A.route r path h) req ≡ A.call r req
  pub merge_left :
      (r : A.Router) (path : String) (h : Serve T) (s : A.Router) (req : Req T)
      → req.path ≡ path
      → A.call (A.merge (A.route r path h) s) req ≡ A.call (A.route r path h) req
  pub merge_right :
      (path : String) (h : Serve T) (s : A.Router) (req : Req T)
      → req.path ≢ path
      → A.call (A.merge (A.route A.empty path h) s) req ≡ A.call s req
  pub got : (h : Serve T) (req : Req T) → req.method ≡ "GET" → A.get h req ≡ h req
  pub coded : (status : ℕ) (json : Json) → (A.into_response status json).status ≡ status
  pub encoded : (status : ℕ) (json : Json) → (A.into_response status json).body ≡ A.encode json
  pub plain :
      (status : ℕ) (json : Json) (name : String)
      → name ≢ "content-type"
      → name ≢ "content-length"
      → T.header (A.into_response status json).headers name ≡ none

pub data Route : Type 0 where
  healthz readyz status_search : Route

abbrev pub path_of_route : Route → String
path_of_route healthz = "/healthz"
path_of_route readyz = "/readyz"
path_of_route status_search = "/status/search"

module _ {T : TowerApi} (A : RouterApi T) (U : UrlApi) (W : HttpApi U.Url) (G : PgApi)
    (S : StorageApi) (services : AppServices U W G S) (visits : Visits A U W G S) where
  abbrev pub took : Route → Duration
  took healthz = visits.liveness_took
  took readyz = visits.readiness_visit.took
  took status_search = visits.search_visit.took

  -- The report as JSON, and 200 where it is healthy or 503 where it is not.
  abbrev Reports : DiagnosticReport → Res T → Type 0
  Reports report r =
      (r.body ≡ A.encode (report_json report))
      × (((r.status ≡ 200) × (report.healthy ≡ true))
          ⊎ ((r.status ≡ 503) × (report.healthy ≡ false)))

  abbrev pub IsAnswer : Route → Res T → Type 0
  IsAnswer healthz r = (r.body ≡ A.encode (liveness_json "ok")) × (r.status ≡ 200)
  IsAnswer readyz r = Reports (Services.readiness U W G S services visits.readiness_visit.call).0 r
  IsAnswer status_search r =
      Reports (Services.search_status U W G S services visits.search_visit.call).0 r

  module _ (R : IsLawfulRouter A) where
    report_response-Reports :
        (report : DiagnosticReport)
        → Reports report (A.into_response (report_response report).0 (report_response report).1)
    unfolding report_response
    report_response-Reports report =
        let body = R.encoded (if report.healthy then 200 else 503) (report_json report) in
        let status = R.coded (if report.healthy then 200 else 503) (report_json report) in
        (
          body,
          elim (Bool-cases report.healthy) [
            | inl up ↦ inl (status ∙ ap (λ b. if b then 200 else 503) up, up)
            | inr down ↦ inr (status ∙ ap (λ b. if b then 200 else 503) down, down)
          ],
        )

    routes-IsAnswer :
        (route : Route) (req : Req T)
        → req.method ≡ "GET"
        → req.path ≡ path_of_route route
        → (own : Res T) × (A.call
              (A.merge
                (liveness_router A visits.liveness_took)
                (status_routes A U W G S services visits))
              req
            ≡ replied (took route) own)
          × IsAnswer route own
    unfolding liveness_router status_routes liveness readiness search_status
    routes-IsAnswer healthz req method path = (
      _,
      R.merge_left A.empty "/healthz" _ _ req path
          ∙ R.route_hit A.empty "/healthz" _ req path
          ∙ R.got _ req method,
      (R.encoded 200 (liveness_json "ok"), R.coded 200 (liveness_json "ok")),
    )
    routes-IsAnswer readyz req method path =
        let off : req.path ≢ "/healthz" = rw path (differ "/readyz" "/healthz" refl) in
        let off' : req.path ≢ "/status/search" = rw path (differ "/readyz" "/status/search" refl) in
        (
          _,
          R.merge_right "/healthz" _ _ req off
              ∙ R.route_miss _ "/status/search" _ req off'
              ∙ R.route_hit A.empty "/readyz" _ req path
              ∙ R.got _ req method,
          report_response-Reports
              (Services.readiness U W G S services visits.readiness_visit.call).0,
        )
    routes-IsAnswer status_search req method path =
        let off : req.path ≢ "/healthz" = rw path (differ "/status/search" "/healthz" refl) in
        (
          _,
          R.merge_right "/healthz" _ _ req off
              ∙ R.route_hit _ "/status/search" _ req path
              ∙ R.got _ req method,
          report_response-Reports
              (Services.search_status U W G S services visits.search_visit.call).0,
        )

    IsAnswer-same :
        (route : Route) (own r : Res T)
        → r.status ≡ own.status
        → r.body ≡ own.body
        → IsAnswer route own
        → IsAnswer route r
    IsAnswer-same healthz own r status body (b, s) = (body ∙ b, status ∙ s)
    IsAnswer-same readyz own r status body (b, inl (s, h)) = (body ∙ b, inl (status ∙ s, h))
    IsAnswer-same readyz own r status body (b, inr (s, h)) = (body ∙ b, inr (status ∙ s, h))
    IsAnswer-same status_search own r status body (b, inl (s, h)) = (body ∙ b, inl (status ∙ s, h))
    IsAnswer-same status_search own r status body (b, inr (s, h)) = (body ∙ b, inr (status ∙ s, h))

    -- Each of the three paths is answered by GET, if its handler is quicker than the time limit:
    -- `/healthz` with 200 whatever the services do, `/readyz` and `/status/search` with the report
    -- of the services at this call, and 200 exactly where it is healthy, 503 otherwise.
    pub router-IsAnswer :
        (L : IsLawful T) (request_timeout : Duration) (route : Route) (req : Req T)
        → req.method ≡ "GET"
        → req.path ≡ path_of_route route
        → took route < request_timeout
        → (r : Res T) × (router A U W G S services request_timeout visits req
            ≡ replied (took route) r)
          × IsAnswer route r
    unfolding router
    router-IsAnswer L request_timeout route req method path quick =
        let routes = A.call (
          A.merge (liveness_router A visits.liveness_took)
            (status_routes A U W G S services visits)) in
        let (id, headers, made, set, keeps, (time, r, e, short, answers, are)) =
          apply_http_layers-IsHardened T L routes request_timeout req in
        let (own, e', is) = routes-IsAnswer route (record req { headers = headers }) method path in
        let answers' : Answers T request_timeout (replied (took route) own) time r =
          rw e' at answers in
        elim answers' [
          | inl (at, status, body) ↦ (r, rw at at e, IsAnswer-same route own r status body is)
          | inr (late, lost) ↦ absurd (omega (arith, quick, late))
        ]
