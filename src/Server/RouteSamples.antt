-- ===== src/Server/RouteSamples.antt =====
-- A small router, and the theorem on the routes at it.
use wiki_next.Base.{ℕ, String, ◌≡◌, refl, List, [], ◌∷◌, ◌++◌, arith, ◌=ₛ◌, if◌then◌else◌}
use wiki_next.Server.Http.{replied, Req, Res, Out, Serve}
use wiki_next.Search.Samples.{urls, web}
use wiki_next.Runtime.Samples.{disks, postgres, site, services}
use wiki_next.Server.Routes.{Json, liveness_json, report_json, RouterApi, Visits, router}
use wiki_next.Server.Endpoints.{IsLawfulRouter, readyz, IsAnswer, router-IsAnswer}
use wiki_next.Server.Samples.{none_set, same_name, other_name, tower, tower-IsLawful}

-- Routes by their paths, the first that fits.
abbrev RouteTable : Type 0
RouteTable = List (String × Serve tower)

abbrev refused : ℕ → Out tower
refused status = replied 0 (record { status = status; headers = none_set; body = 0 })

abbrev call_routes : RouteTable → Serve tower
call_routes [] request = refused 404
call_routes ((path, handler) ∷ routes) request =
    if request.path =ₛ path then handler request else call_routes routes request

abbrev encode_json : Json → ℕ
encode_json (liveness_json status) = 1
encode_json (report_json report) = if report.healthy then 2 else 3

abbrev pub routes : RouterApi tower
routes = record {
  Router = RouteTable;
  empty = [];
  route = λ table path handler. (path, handler) ∷ table;
  merge = λ left right. left ++ right;
  call = call_routes;
  get = λ handler request. if request.method =ₛ "GET" then handler request else refused 405;
  encode = encode_json;
  into_response =
      λ status json. record { status = status; headers = none_set; body = encode_json json };
}

pub routes-IsLawfulRouter : IsLawfulRouter routes
routes-IsLawfulRouter = record {
  route_hit = λ table path handler request at. rw (at, same_name path) refl;
  route_miss = λ table path handler request off. rw (other_name request.path path off) refl;
  merge_left = λ table path handler right request at. rw (at, same_name path) refl;
  merge_right = λ path handler right request off. rw (other_name request.path path off) refl;
  got = λ handler request method. rw method refl;
  coded = λ status json. refl;
  encoded = λ status json. refl;
  plain = λ status json name typed sized. refl;
}

abbrev pub visits : Visits routes urls web postgres disks
visits = record {
  liveness_took = 1;
  readiness_visit = record {
    call = record { started = 0; finished = 7; environment = site 1 };
    took = 7;
  };
  search_visit = record {
    call = record { started = 0; finished = 9; environment = web.send };
    took = 9;
  };
}

abbrev ask : String → Req tower
ask path = record { method = "GET"; path = path; version = "HTTP/1.1"; headers = none_set }

router-IsAnswer_example :
    (r : Res tower) × (router routes urls web postgres disks services 1000 visits (ask "/readyz")
      ≡ replied 7 r)
    × IsAnswer routes urls web postgres disks services visits readyz r
router-IsAnswer_example =
    router-IsAnswer routes urls web postgres disks services visits routes-IsLawfulRouter
      tower-IsLawful 1000 readyz (ask "/readyz") refl refl (omega arith)
