-- ===== src/Server/Hardened.antt =====
-- What every response has gone through the middleware of crates/server/src/lib.rs with.
use wiki_next.Base.{◌≤◌, String, ◌≡◌, refl, ◌∙◌, ◌≢◌, true, some, List, [], ◌∷◌}
use wiki_next.Config.Types.{Duration}
use wiki_next.Server.Http.{
  replied, Layer, TowerApi, Req, Res, Out, Serve, Keeps, Caught, Limited, IsLawful,
}
use wiki_next.Server.Layers.{
  request_id_header, content_security_policy, permissions_policy, gateway_timeout,
  discard_client_request_id, make_http_span, http_layers, apply_http_layers,
}
use wiki_next.Server.Good.{
  differ, Answers, Defaults, IsNew, AreSet, IsGood, Sets-IsGood, IsGood-Caught,
}

-- The layers from the first that sets a header on, and with the one that copies the identifier.
abbrev setting : (T : TowerApi) → Duration → List (Layer T.Headers T.Body)
setting T limit =
    T.if_not_present "x-content-type-options" "nosniff"
    ∷ T.if_not_present "referrer-policy" "no-referrer"
    ∷ T.if_not_present content_security_policy
        "default-src 'self'; object-src 'none'; base-uri 'self'; frame-ancestors 'none'"
    ∷ T.if_not_present permissions_policy
        "accelerometer=(), camera=(), geolocation=(), microphone=(), payment=()"
    ∷ T.trace (make_http_span T)
    ∷ T.catch_panic
    ∷ T.timeout gateway_timeout limit
    ∷ []

abbrev propagating : (T : TowerApi) → Duration → List (Layer T.Headers T.Body)
propagating T limit = T.propagate_request_id request_id_header ∷ setting T limit

abbrev referrer_default : String × String
referrer_default = ("referrer-policy", "no-referrer")

abbrev content_default : String × String
content_default = (
  content_security_policy,
  "default-src 'self'; object-src 'none'; base-uri 'self'; frame-ancestors 'none'",
)

abbrev permissions_default : String × String
permissions_default =
    (permissions_policy, "accelerometer=(), camera=(), geolocation=(), microphone=(), payment=()")

abbrev pub security_headers : Defaults
security_headers =
    ("x-content-type-options", "nosniff")
    ∷ referrer_default
    ∷ content_default
    ∷ permissions_default
    ∷ []

module _ (T : TowerApi) (L : IsLawful T) (router : Serve T) (limit : Duration) (req : Req T) where
  abbrev IsSafe : Defaults → List (Layer T.Headers T.Body) → Type 0
  IsSafe set layers = IsGood T limit (router req) set (T.build layers router req)

  if_not_present-IsSafe :
      (name value : String) (set : Defaults) (layers : List (Layer T.Headers T.Body))
      → name ≢ "content-type"
      → IsNew name set
      → IsSafe set layers
      → IsSafe ((name, value) ∷ set) (T.if_not_present name value ∷ layers)
  if_not_present-IsSafe name value set layers typed new good =
      rw (L.build_cons (T.if_not_present name value) layers router req) (
        Sets-IsGood T limit (router req) set name value _ _ typed new
          (L.defaulted name value (T.build layers router) req) good)

  innermost-IsSafe :
      IsSafe [] (T.trace (make_http_span T) ∷ T.catch_panic ∷ T.timeout gateway_timeout limit ∷ [])
  innermost-IsSafe =
      let timed = T.timeout gateway_timeout limit ∷ [] in
      let at : T.build timed router req ≡ T.timeout gateway_timeout limit (T.build [] router) req =
        L.build_cons (T.timeout gateway_timeout limit) [] router req in
      let limited : Limited T gateway_timeout limit (router req) (T.build timed router req) =
        rw (at, ← L.build_nil router req)
          (L.limited gateway_timeout limit (T.build [] router) req) in
      let caught : Caught T (T.build timed router req)
          (T.build (T.catch_panic ∷ timed) router req) =
        rw (L.build_cons T.catch_panic timed router req) (L.caught (T.build timed router) req) in
      rw
        (
          L.build_cons (T.trace (make_http_span T)) (T.catch_panic ∷ timed) router req,
          L.traced (make_http_span T) (T.build (T.catch_panic ∷ timed) router) req,
        )
        (IsGood-Caught T limit (router req) _ _ limited caught)

  set-IsSafe : IsSafe security_headers (setting T limit)
  set-IsSafe =
      if_not_present-IsSafe _ _ (referrer_default ∷ content_default ∷ permissions_default ∷ []) _
        (differ _ _ refl) (differ _ _ refl, (differ _ _ refl, (differ _ _ refl, tt)))
        (if_not_present-IsSafe _ _ (content_default ∷ permissions_default ∷ []) _ (differ _ _ refl)
          (differ _ _ refl, (differ _ _ refl, tt))
          (if_not_present-IsSafe _ _ (permissions_default ∷ []) _ (differ _ _ refl)
            (differ _ _ refl, tt)
            (if_not_present-IsSafe _ _ [] _ (differ _ _ refl) tt innermost-IsSafe)))

  -- A response in time, with the headers of the source, or those of the routes where they have set
  -- them, and with the identifier of the request as the routes see it.
  abbrev pub IsHardened : String → Out T → Type 0
  IsHardened id out =
      (time : Duration) × (r : Res T) × (out ≡ replied time r)
      × (time ≤ limit)
      × Answers T limit (router req) time r
      × AreSet T (router req) r ((request_id_header, id) ∷ security_headers)

  -- The layer that copies the identifier into the response.
  propagated-IsHardened :
      (id : String)
      → T.header req.headers request_id_header ≡ some id
      → IsHardened id (T.build (propagating T limit) router req)
  propagated-IsHardened id set =
      let passed = L.propagated request_id_header id (T.build (setting T limit) router) req set in
      let (time, r, e, short, answers, are, free) =
        Sets-IsGood T limit (router req) security_headers request_id_header id _ _ (differ _ _ refl)
          (differ _ _ refl, (differ _ _ refl, (differ _ _ refl, (differ _ _ refl, tt)))) passed
          set-IsSafe in
      rw (L.build_cons (T.propagate_request_id request_id_header) (setting T limit) router req)
        (time, r, e, short, answers, are)

-- Whatever the routes do with a request, panics and hangs included, the server answers it within
-- the time limit. The response carries the four security headers with the values of the source,
-- and the identifier of the request that the routes have seen, which the server has made; the
-- routes may have set any of these headers to another value. It is the routes' response, 500 where
-- they panicked, or 504 at the limit.
pub apply_http_layers-IsHardened :
    (T : TowerApi) (L : IsLawful T) (router : Serve T) (limit : Duration) (req : Req T)
    → (id : String) × (headers : T.Headers) × (T.is_uuid id ≡ true)
      × (T.header headers request_id_header ≡ some id)
      × Keeps T request_id_header req.headers headers
      × IsHardened T L router limit
          (record req { headers = headers })
          id
          (apply_http_layers T router limit req)
unfolding apply_http_layers http_layers discard_client_request_id
apply_http_layers-IsHardened T L router limit req =
    let bare : Req T = record req { headers = T.remove req.headers request_id_header } in
    let after_id = propagating T limit in
    let (id, headers, made, set, keeps, e) =
      L.identified request_id_header (T.build after_id router) bare
        (L.removed req.headers request_id_header) in
    let seen : Req T = record req { headers = headers } in
    let whole : apply_http_layers T router limit req ≡ T.build after_id router seen =
      L.build_cons _ _ router req ∙ L.from_fn _ _ req ∙ L.build_cons _ _ router bare ∙ e in
    (
      id,
      headers,
      made,
      set,
      λ other apart. keeps other apart ∙ L.kept req.headers request_id_header other apart,
      rw whole (propagated-IsHardened T L router limit seen id set),
    )
