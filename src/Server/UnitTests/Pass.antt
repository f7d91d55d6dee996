-- ===== src/Server/UnitTests/Pass.antt =====
-- The tests of crates/server/src/lib.rs pass on crates that keep their promises.
use wiki_next.Base.{
  ◌⊎◌, false, ◌=ₛ◌, ◌∷◌, ◌<◌, String, ◌≡◌, ◌≢◌, refl, ap, ◌∙◌, inl, inr, true, none, some, arith,
  ◌≤◌,
}
use Prim.Native.String.{len}
use wiki_next.Config.Types.{Duration}
use wiki_next.Server.Http.{replied, panicked, TowerApi, Req, Res, Out, Serve, IsLawful}
use wiki_next.Server.Layers.{apply_http_layers, request_id_header, content_security_policy}
use wiki_next.Server.Routes.{liveness_json, RouterApi, report_response, liveness_router, liveness}
use wiki_next.Server.Good.{differ, AreSet, Answers, IsOwn}
use wiki_next.Server.Hardened.{security_headers, apply_http_layers-IsHardened}
use wiki_next.Server.Endpoints.{IsLawfulRouter}
use wiki_next.Server.UnitTests.{
  get_request, LivenessIsDependencyIndependentAndHardened, ReplacesUntrustedClientRequestId,
  TimeoutResponseKeepsRequestIdAndSecurityHeaders, PanicResponseKeepsRequestIdAndSecurityHeaders,
  UnhealthyReportMapsToServiceUnavailable,
}

module _ (T : TowerApi) where
  -- The routes set no header that the server sets.
  abbrev IsPlain : Out T → Type 0
  IsPlain inner =
      (r : Res T) (name : String)
      → name ≢ "content-type"
      → name ≢ "content-length"
      → ¬ IsOwn T name inner r

  bare-IsPlain :
      (time : Duration) (own : Res T)
      → ((name : String)
          → name ≢ "content-type"
          → name ≢ "content-length"
          → T.header own.headers name ≡ none)
      → IsPlain (replied time own)
  bare-IsPlain time own bare r name typed sized (value, there, here) =
      let free = bare name typed sized in ground arith

  given :
      (inner : Out T) (r : Res T) (name value : String)
      → IsPlain inner
      → (name =ₛ "content-type") ≡ false
      → (name =ₛ "content-length") ≡ false
      → (T.header r.headers name ≡ some value) ⊎ IsOwn T name inner r
      → T.header r.headers name ≡ some value
  given inner r name value plain typed sized (inl set) = set
  given inner r name value plain typed sized (inr own) =
      absurd (plain r name (differ _ _ typed) (differ _ _ sized) own)

  -- What the server makes of routes that answer a request so, whatever its identifier is.
  abbrev IsServed : Out T → Duration → Out T → Type 0
  IsServed inner limit out =
      (id : String) × (T.is_uuid id ≡ true)
      × ((time : Duration) × (r : Res T) × (out ≡ replied time r)
          × (time ≤ limit)
          × Answers T limit inner time r
          × (T.header r.headers request_id_header ≡ some id)
          × (T.header r.headers "x-content-type-options" ≡ some "nosniff")
          × ((value : String) × (T.header r.headers content_security_policy ≡ some value)))

  plain-IsServed :
      IsLawful T
      → (routes : Serve T) (limit : Duration) (request : Req T) (inner : Out T) → IsPlain inner
      → ((headers : T.Headers) → routes (record request { headers = headers }) ≡ inner)
      → IsServed inner limit (apply_http_layers T routes limit request)
  plain-IsServed L routes limit request inner plain same =
      let (id, seen, made, set, keeps, (time, r, e, short, answers, are)) =
        apply_http_layers-IsHardened T L routes limit request in
      let are' : AreSet T inner r ((request_id_header, id) ∷ security_headers) =
        rw (same seen) at are in
      let (identified, (sniffed, (referred, (secured, rest)))) = are' in
      (
        id,
        made,
        (
          time,
          r,
          e,
          short,
          (rw (same seen) at answers),
          given inner r _ _ plain refl refl identified,
          given inner r _ _ plain refl refl sniffed,
          (_, given inner r _ _ plain refl refl secured),
        ),
      )

module _ {T : TowerApi} (A : RouterApi T) (R : IsLawfulRouter A) (L : IsLawful T) where
  got :
      (path : String) (handler : Serve T) (request : Req T)
      → request.method ≡ "GET"
      → request.path ≡ path
      → A.call (A.route A.empty path (A.get handler)) request ≡ handler request
  got path handler request method at =
      R.route_hit A.empty path (A.get handler) request at ∙ R.got handler request method

  -- A liveness request that its handler answers in time.
  answered :
      (took : Duration) (headers : T.Headers)
      → took < 1000
      → (id : String) × (T.is_uuid id ≡ true)
        × ((time : Duration) × (r : Res T) × (apply_http_layers T
                (A.call (liveness_router A took))
                1000
                (get_request A "/healthz" headers)
              ≡ replied time r)
            × (r.status ≡ 200)
            × (T.header r.headers request_id_header ≡ some id)
            × (T.header r.headers "x-content-type-options" ≡ some "nosniff"))
  unfolding liveness_router liveness
  answered took headers quick =
      let own = A.into_response 200 (liveness_json "ok") in
      let (id, made, (time, r, e, short, answers, identified, sniffed, secured)) =
        plain-IsServed T L (A.call (liveness_router A took)) 1000 (get_request A "/healthz" headers)
          (replied took own) (bare-IsPlain T took own (R.plain 200 (liveness_json "ok")))
          (λ seen. got "/healthz" _ _ refl refl) in
      elim answers [
        | inl (at, status, body) ↦
            (id, made, (time, r, e, status ∙ R.coded 200 (liveness_json "ok"), identified, sniffed))
        | inr (late, lost) ↦ absurd (omega (arith, quick, late))
      ]

  liveness_passes :
      (took : Duration) (headers : T.Headers)
      → took < 1000
      → LivenessIsDependencyIndependentAndHardened A took headers
  liveness_passes took headers quick =
      let (id, made, (time, r, e, status, identified, sniffed)) = answered took headers quick in
      (time, r, e, (status, sniffed, (id, identified)))

  request_id_passes :
      (took : Duration) (headers : T.Headers)
      → took < 1000
      → ((id : String) → T.is_uuid id ≡ true → len id ≡ 36)
      → ReplacesUntrustedClientRequestId A took headers
  request_id_passes took headers quick uuid_length =
      let (id, made, (time, r, e, status, identified, sniffed)) = answered took headers quick in
      let long = uuid_length id made in
      (time, r, e, (id, identified, λ same. absurd (ground (arith, ap len same)), long))

  timeout_passes :
      (answer : Res T) (headers : T.Headers)
      → ((name : String) → T.header answer.headers name ≡ none)
      → TimeoutResponseKeepsRequestIdAndSecurityHeaders A answer headers
  timeout_passes answer headers bare =
      let (id, made, (time, r, e, short, answers, identified, sniffed, secured)) =
        plain-IsServed T L (A.call (A.route A.empty "/slow" (A.get (λ request. replied 50 answer))))
          1 (get_request A "/slow" headers) (replied 50 answer)
          (bare-IsPlain T 50 answer (λ name typed sized. bare name))
          (λ seen. got "/slow" _ _ refl refl) in
      elim answers [
        | inl (at, kept, same) ↦ absurd (omega (arith, at, short))
        | inr (late, lost) ↦ (time, r, e, (lost, (sniffed, secured, (id, identified))))
      ]

  panic_passes : (headers : T.Headers) → PanicResponseKeepsRequestIdAndSecurityHeaders A headers
  panic_passes headers =
      let (id, made, (time, r, e, short, answers, identified, sniffed, secured)) =
        plain-IsServed T L (A.call (A.route A.empty "/panic" (A.get (λ request. panicked 0)))) 1000
          (get_request A "/panic" headers) (panicked 0) (λ r name typed sized own. own)
          (λ seen. got "/panic" _ _ refl refl) in
      elim answers [
        | inl (at, failed) ↦ (time, r, e, (failed, (sniffed, secured, (id, identified))))
        | inr (late, lost) ↦ absurd (omega (arith, late))
      ]

report_passes : UnhealthyReportMapsToServiceUnavailable
unfolding report_response
report_passes = refl
