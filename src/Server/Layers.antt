-- ===== src/Server/Layers.antt =====
-- The middleware of crates/server/src/lib.rs, in its order.
use wiki_next.Base.{ℕ, String, Option, none, some, List, [], ◌∷◌}
use wiki_next.Config.Types.{Duration}
use wiki_next.Server.Http.{Span, Layer, TowerApi, Req, Out, Serve}

abbrev pub request_id_header : String
request_id_header = "x-request-id"

abbrev pub content_security_policy : String
content_security_policy = "content-security-policy"

abbrev pub permissions_policy : String
permissions_policy = "permissions-policy"

abbrev pub gateway_timeout : ℕ
gateway_timeout = 504

module _ (T : TowerApi) where
  unfoldable pub discard_client_request_id : Req T → Serve T → Out T
  discard_client_request_id request next =
      next (record request { headers = T.remove request.headers request_id_header })

  abbrev and_to_str : Option String → Option String
  and_to_str (some value) = T.to_str value
  and_to_str none = none

  abbrev or_invalid : Option String → String
  or_invalid (some text) = text
  or_invalid none = "<invalid>"

  unfoldable pub make_http_span : Req T → Span
  make_http_span request = record {
    request_id = or_invalid (and_to_str (T.header request.headers request_id_header));
    method = request.method;
    path = request.path;
    version = request.version;
  }

  unfoldable pub http_layers : Duration → List (Layer T.Headers T.Body)
  http_layers request_timeout =
      T.from_fn discard_client_request_id
      ∷ T.set_request_id request_id_header
      ∷ T.propagate_request_id request_id_header
      ∷ T.if_not_present "x-content-type-options" "nosniff"
      ∷ T.if_not_present "referrer-policy" "no-referrer"
      ∷ T.if_not_present content_security_policy
          "default-src 'self'; object-src 'none'; base-uri 'self'; frame-ancestors 'none'"
      ∷ T.if_not_present permissions_policy
          "accelerometer=(), camera=(), geolocation=(), microphone=(), payment=()"
      ∷ T.trace make_http_span
      ∷ T.catch_panic
      ∷ T.timeout gateway_timeout request_timeout
      ∷ []

  unfoldable pub apply_http_layers : Serve T → Duration → Serve T
  apply_http_layers router request_timeout = T.build (http_layers request_timeout) router
