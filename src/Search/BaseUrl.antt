-- ===== src/Search/BaseUrl.antt =====
-- The base URL of the client in crates/search/src/lib.rs, and the configuration that supplies it.
use wiki_next.Base.{
  ℕ, String, ◌≡◌, refl, ◌↔◌, ◌⊎◌, Option, none, some, inl, inr, true, false, List, [], ◌∷◌, arith,
  ◌=ₛ◌, eq_iff, Bool-cases, ok,
}
use Prim.Native.String.{◌++◌ as ◌<>◌}
use Prim.Native.Char.{code}
use text.Mathlib.TextLemmas.{cons-append}
use wiki_next.Base.Text.{codes}
use wiki_next.Net.{UrlApi, Host, domain, ipv4, ipv6, ipv4_is_loopback, ipv6_is_loopback}
use wiki_next.Net.Loopback.{IsLoopback, domain_iff}
use wiki_next.Config.Validate.{validate_search_url}
use wiki_next.Config.SearchUrl.{validate_search_url_iff}
use wiki_next.Search.{
  host_is_loopback, url_host_is_loopback, ends_with_slash, with_slash, normalize_url,
  normalize_base_url,
}

-- What the documentation of `Url::set_path` promises: the other parts stay, and the path
-- of an HTTP URL, which is encoded, needs no new encoding when a slash is put behind it.
pub record IsLawfulSetPath (U : UrlApi) : Type 0 where
  pub scheme : (u : U.Url) (p : String) → U.scheme (U.set_path u p) ≡ U.scheme u
  pub host : (u : U.Url) (p : String) → U.host (U.set_path u p) ≡ U.host u
  pub username : (u : U.Url) (p : String) → U.username (U.set_path u p) ≡ U.username u
  pub password : (u : U.Url) (p : String) → U.password (U.set_path u p) ≡ U.password u
  pub query : (u : U.Url) (p : String) → U.query (U.set_path u p) ≡ U.query u
  pub fragment : (u : U.Url) (p : String) → U.fragment (U.set_path u p) ≡ U.fragment u
  pub path :
      (u : U.Url)
      → (U.scheme u ≡ "http") ⊎ (U.scheme u ≡ "https")
      → U.path (U.set_path u (U.path u <> "/")) ≡ U.path u <> "/"

ends_with_slash-cons :
    (c : ℕ) (s : List ℕ) → ends_with_slash s ≡ true → ends_with_slash (c ∷ s) ≡ true
ends_with_slash-cons c [] h = cc
ends_with_slash-cons c (d ∷ s) h = h

ends_with_slash-append : (s : String) → ends_with_slash (codes (s <> "/")) ≡ true
unfolding codes
ends_with_slash-append String.[] = refl
ends_with_slash-append (String.◌∷◌ c s) =
    rw cons-append (ends_with_slash-cons (code c) (codes (s <> "/")) (ends_with_slash-append s))

module _ (U : UrlApi) where
  host_iff : (host : Option Host) → (host_is_loopback U host ≡ true) ↔ IsLoopback U host
  unfolding ipv4_is_loopback ipv6_is_loopback
  host_iff none = (λ h. ground arith, λ h. absurd h)
  host_iff (some (domain host)) = domain_iff U host
  host_iff (some (ipv4 a b c d)) = (λ h. ground arith, λ h. ground arith)
  host_iff (some (ipv6 bits)) = (λ h. ground arith, λ h. ground arith)

  url_host_is_loopback_iff :
      (url : U.Url) → (url_host_is_loopback U url ≡ true) ↔ IsLoopback U (U.host url)
  unfolding url_host_is_loopback
  url_host_is_loopback_iff url = host_iff (U.host url)

module _ (U : UrlApi) {H R J : Type 0} where
  -- Whatever `validate_search_url` of the configuration accepts, the client accepts as its base
  -- URL, so that the client cannot be refused for a URL that was validated.
  pub normalize-validated :
      {T : Type 0} (value : String)
      → validate_search_url U {T = T} value ≡ ok tt
      → (url : U.Url) × (U.parse value ≡ ok url)
        × (normalize_base_url U {H = H} {R = R} {J = J} value ≡ ok (with_slash U url))
  unfolding normalize_base_url normalize_url
  normalize-validated {T} value h =
      let (url, parsed, safe) = (validate_search_url_iff U T value).0 h in
      elim safe.secure [
        | inl tls ↦
            let scheme : (U.scheme url =ₛ "http") ≡ false = rw tls in
            (
              url,
              parsed,
              ground (arith, eq_iff (U.scheme url) "https", eq_iff (U.username url) "", safe),
            )
        | inr (plain, loopback) ↦
            let near = (url_host_is_loopback_iff U url).1 loopback in
            (
              url,
              parsed,
              ground (arith, eq_iff (U.scheme url) "http", eq_iff (U.username url) "", safe),
            )
      ]

with_slash-eq_self :
    (U : UrlApi) (url : U.Url)
    → ends_with_slash (codes (U.path url)) ≡ true
    → with_slash U url ≡ url
unfolding with_slash
with_slash-eq_self U url ends = rw ends

module _ (U : UrlApi) (L : IsLawfulSetPath U) (url : U.Url) where
  path-with_slash :
      (U.scheme url ≡ "http") ⊎ (U.scheme url ≡ "https")
      → ends_with_slash (codes (U.path (with_slash U url))) ≡ true
  unfolding with_slash
  path-with_slash web = elim (Bool-cases (ends_with_slash (codes (U.path url)))) [
    | inl ends ↦ rw (ends, with_slash) ends
    | inr other ↦ rw (other, with_slash) (rw (L.path url web) (ends_with_slash-append (U.path url)))
  ]

  -- What is tested of a URL stays when a slash is put behind its path.
  parts-with_slash :
      (U.scheme (with_slash U url) ≡ U.scheme url)
      × (url_host_is_loopback U (with_slash U url) ≡ url_host_is_loopback U url)
      × (U.username (with_slash U url) ≡ U.username url)
      × (U.password (with_slash U url) ≡ U.password url)
      × (U.query (with_slash U url) ≡ U.query url)
      × (U.fragment (with_slash U url) ≡ U.fragment url)
  unfolding with_slash url_host_is_loopback
  parts-with_slash = elim (Bool-cases (ends_with_slash (codes (U.path url)))) [
    | inl ends ↦ rw (ends, with_slash) (refl, refl, refl, refl, refl, refl)
    | inr other ↦
        rw (other, with_slash)
          (
            L.scheme url _,
            rw L.host,
            L.username url _,
            L.password url _,
            L.query url _,
            L.fragment url _,
          )
  ]

  -- A normalised URL has a path that ends in a slash, so that `join` extends it, and normalising
  -- it again changes nothing.
  pub normalize_url_idem :
      (H R J : Type 0) {out : U.Url}
      → normalize_url U {H = H} {R = R} {J = J} url ≡ ok out
      → (ends_with_slash (codes (U.path out)) ≡ true)
        × (normalize_url U {H = H} {R = R} {J = J} out ≡ ok out)
  unfolding normalize_url
  normalize_url_idem H R J {out} h =
      let e : with_slash U url ≡ out = ground arith in
      let web : (U.scheme url ≡ "http") ⊎ (U.scheme url ≡ "https") =
        ground (arith, eq_iff (U.scheme url) "http", eq_iff (U.scheme url) "https") in
      rw (← e) (
        path-with_slash web,
        ground (
          arith,
          parts-with_slash,
          with_slash-eq_self U (with_slash U url) (path-with_slash web),
        ),
      )
