-- ===== src/Net/Loopback.antt =====
-- Which hosts are loopback addresses, and the test of crates/app/src/config.rs for them.
use wiki_next.Base.{
  String, ◌≡◌, ◌↔◌, ◌⊎◌, inl, inr, true, ◌||◌, Option, none, some, arith, Option-cases, Bool-cases,
  is_some_and,
}
use wiki_next.Base.Text.{eq_ignore_ascii_case}
use wiki_next.Net.{
  IpAddr, v4, v6, Host, domain, ipv4, ipv6, UrlApi, is_loopback, ipv4_is_loopback, ipv6_is_loopback,
  parse_ip, url_host_is_loopback, host_is_loopback,
}

-- 127.0.0.0/8 and ::1.
abbrev pub IsLoopbackAddress : IpAddr → Type 0
IsLoopbackAddress (v4 a b c d) = a ≡ 127
IsLoopbackAddress (v6 bits) = bits ≡ 1

-- The name `localhost` in any case, or a loopback address, written as a name or found as one.
abbrev pub IsLoopback : UrlApi → Option Host → Type 0
IsLoopback U none = ⊥
IsLoopback U (some (domain host)) =
    (eq_ignore_ascii_case host "localhost" ≡ true)
    ⊎ ((address : IpAddr) × (parse_ip U host ≡ some address) × IsLoopbackAddress address)
IsLoopback U (some (ipv4 a b c d)) = a ≡ 127
IsLoopback U (some (ipv6 bits)) = bits ≡ 1

is_loopback_iff : (address : IpAddr) → (is_loopback address ≡ true) ↔ IsLoopbackAddress address
unfolding is_loopback ipv4_is_loopback ipv6_is_loopback
is_loopback_iff (v4 a b c d) = (λ h. ground arith, λ h. ground arith)
is_loopback_iff (v6 bits) = (λ h. ground arith, λ h. ground arith)

module _ (U : UrlApi) where
  -- What both crates test of a name.
  pub domain_iff :
      (host : String)
      → ((eq_ignore_ascii_case host "localhost" || is_some_and is_loopback (parse_ip U host))
          ≡ true)
        ↔ IsLoopback U (some (domain host))
  domain_iff host = (
    λ h. elim (Bool-cases (eq_ignore_ascii_case host "localhost")) [
      | inl named ↦ inl named
      | inr other ↦ elim (Option-cases (parse_ip U host)) [
        | inl unparsed ↦ ground arith
        | inr (address, parsed) ↦ inr (address, parsed, (is_loopback_iff address).0 (ground arith))
      ]
    ],
    λ h. elim h [
      | inl named ↦ ground arith
      | inr (address, parsed, near) ↦ let found = (is_loopback_iff address).1 near in ground arith
    ],
  )

  host_iff : (host : Option Host) → (host_is_loopback U host ≡ true) ↔ IsLoopback U host
  unfolding ipv4_is_loopback ipv6_is_loopback
  host_iff none = (λ h. ground arith, λ h. absurd h)
  host_iff (some (domain host)) = domain_iff host
  host_iff (some (ipv4 a b c d)) = (λ h. ground arith, λ h. ground arith)
  host_iff (some (ipv6 bits)) = (λ h. ground arith, λ h. ground arith)

  pub url_host_is_loopback_iff :
      (url : U.Url) → (url_host_is_loopback U url ≡ true) ↔ IsLoopback U (U.host url)
  unfolding url_host_is_loopback
  url_host_is_loopback_iff url = host_iff (U.host url)
