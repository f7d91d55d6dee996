-- ===== src/Search/UnitTests/Pass.antt =====
-- Proofs that the tests of crates/search/src/lib.rs pass.
use wiki_next.Base.{◌≡◌, refl, inl, inr, false, [], ◌∷◌, arith, ok, Result-cases}
use wiki_next.Base.Lists.{length-append}
use wiki_next.Base.Text.{codes}
use wiki_next.Net.{ipv4}
use wiki_next.Search.{
  HttpApi, SearchClient, normalize_base_url, normalize_url, with_slash, append_bounded, checked_add,
  new,
}
use wiki_next.Debug.{debug_search_client}
use wiki_next.Search.UnitTests.{
  UrlParts, http_at, urls, NormalizesBasePath, RejectsCredentialsAndNonHttpSchemes,
  PlaintextHttpIsLoopbackOnly, ClientDebugDoesNotExposeApiKey, BoundsDiagnosticResponseBody,
}

-- What the tests open.
opened : Unit {0}
unfolding normalize_base_url normalize_url with_slash wiki_next.Search.url_host_is_loopback codes
opened = tt

normalizes : NormalizesBasePath
unfolding opened
normalizes = ((_, refl, refl), (_, refl, refl))

rejects : RejectsCredentialsAndNonHttpSchemes
unfolding opened
rejects = (refl, refl)

plaintext : PlaintextHttpIsLoopbackOnly
unfolding opened
plaintext = (((_, refl, tt), ((_, refl, tt), ((_, refl, tt), tt))), refl, (_, refl, tt))

-- The client of the test keeps the URL of the test.
new-base_url :
    (W : HttpApi UrlParts) (client : SearchClient urls W)
    → new urls W "http://127.0.0.1:7700" "development-master-key" 1000 ≡ ok client
    → client.base_url ≡ http_at (ipv4 127 0 0 1) "http://127.0.0.1:7700"
unfolding opened new
new-base_url W client h = elim (Result-cases (W.header_value "Bearer development-master-key")) [
  | inr (p, refused) ↦ ground arith
  | inl (value, accepted) ↦
      elim (Result-cases (
        W.client (record {
          authorization = W.set_sensitive value;
          accept = "application/json";
          proxy = false;
          redirects = false;
          timeout = 1000;
        }))) [ inr (p, failed) ↦ ground arith | inl (built, done) ↦ ground arith ]
]

keyless : ClientDebugDoesNotExposeApiKey
unfolding opened debug_search_client
keyless W client h = rw (new-base_url W client h) refl

bounds : BoundsDiagnosticResponseBody
unfolding append_bounded checked_add
bounds body h =
    let longer = length-append body (1 ∷ []) in (ground (arith, longer), ground (arith, longer))
