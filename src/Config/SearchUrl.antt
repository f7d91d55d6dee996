-- ===== src/Config/SearchUrl.antt =====
-- Which URLs `validate_search_url` of crates/app/src/config.rs accepts.
use wiki_next.Base.{
  String, ◌≡◌, ◌↔◌, ◌⊎◌, inl, inr, false, none, arith, ◌=ₛ◌, eq_iff, ok, Result-cases,
}
use wiki_next.Net.Loopback.{IsLoopback, url_host_is_loopback_iff}
use wiki_next.Net.{UrlApi}
use wiki_next.Config.Validate.{check_search_url, validate_search_url}

-- An HTTP URL with no secret in it, and over TLS unless the host is a loopback address.
pub record IsSafeSearchUrl (U : UrlApi) (url : U.Url) : Type 0 where
  pub secure : (U.scheme url ≡ "https") ⊎ ((U.scheme url ≡ "http") × IsLoopback U (U.host url))
  pub username : U.username url ≡ ""
  pub password : U.password url ≡ none
  pub query : U.query url ≡ none
  pub fragment : U.fragment url ≡ none

module _ (U : UrlApi) (T : Type 0) where
  check_search_url_sound :
      (url : U.Url) → check_search_url U {T = T} url ≡ ok tt → IsSafeSearchUrl U url
  unfolding check_search_url
  check_search_url_sound url h = ground (
    arith,
    url_host_is_loopback_iff U url,
    eq_iff (U.scheme url) "http",
    eq_iff (U.scheme url) "https",
    eq_iff (U.username url) "",
  )

  check_search_url_complete :
      (url : U.Url) → IsSafeSearchUrl U url → check_search_url U {T = T} url ≡ ok tt
  unfolding check_search_url
  check_search_url_complete url safe = elim safe.secure [
    | inl tls ↦
        let scheme : (U.scheme url =ₛ "http") ≡ false = rw tls in
        ground (arith, eq_iff (U.scheme url) "https", eq_iff (U.username url) "", safe)
    | inr (plain, loopback) ↦
        let near = (url_host_is_loopback_iff U url).1 loopback in
        ground (arith, eq_iff (U.scheme url) "http", eq_iff (U.username url) "", safe)
  ]

  -- `validate_search_url` accepts exactly the texts that parse to a safe search URL.
  pub validate_search_url_iff :
      (value : String)
      → (validate_search_url U {T = T} value ≡ ok tt)
        ↔ ((url : U.Url) × (U.parse value ≡ ok url) × IsSafeSearchUrl U url)
  unfolding validate_search_url
  validate_search_url_iff value = (
    λ h. elim (Result-cases (U.parse value)) [
      | inl (url, parsed) ↦ (url, parsed, check_search_url_sound url (ground arith))
      | inr (e, failed) ↦ ground arith
    ],
    λ (url, parsed, safe). rw parsed (check_search_url_complete url safe),
  )
