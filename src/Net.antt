-- ===== src/Net.antt =====
-- Internet addresses of the standard library, and the interface of the `url` crate, which
-- crates/app/src/config.rs and crates/search/src/lib.rs call.
pub mod Loopback
use wiki_next.Base.{
  ℕ, String, Bool, false, not, ◌&&◌, ◌||◌, Option, none, some, List, [], ◌∷◌, leb, ◌==◌,
  if◌then◌else◌, is_some_and, all, Result,
}
use wiki_next.Base.Text.{codes, length, decimal, is_ascii_digit, split, eq_ignore_ascii_case}

-- `IpAddr`: the octets of an IPv4 address, the 128 bits of an IPv6 address.
pub data IpAddr : Type 0 where
  v4 : (a b c d : ℕ) → IpAddr
  v6 : ℕ → IpAddr

-- `Ipv4Addr::is_loopback`: 127.0.0.0/8.
unfoldable pub ipv4_is_loopback : ℕ → Bool
ipv4_is_loopback first_octet = first_octet == 127

-- `Ipv6Addr::is_loopback`: ::1.
unfoldable pub ipv6_is_loopback : ℕ → Bool
ipv6_is_loopback bits = bits == 1

unfoldable pub is_loopback : IpAddr → Bool
unfolding ipv4_is_loopback ipv6_is_loopback
is_loopback (v4 a b c d) = ipv4_is_loopback a
is_loopback (v6 bits) = ipv6_is_loopback bits

pub record SocketAddr : Type 0 where
  pub ip : IpAddr
  pub port : ℕ

-- One number of a dotted address: one to three digits, no leading zero, at most 255.
unfoldable pub parse_octet : List ℕ → Option ℕ
unfolding is_ascii_digit decimal length
parse_octet [] = none
parse_octet (c ∷ s) =
    if all is_ascii_digit (c ∷ s)
      && leb (length (c ∷ s)) 3
      && not (c == b'0' && not (length s == 0))
      && leb (decimal 0 (c ∷ s)) 255
    then some (decimal 0 (c ∷ s))
    else none

infixl 5 ◌>>=?◌
abbrev ◌>>=?◌ {ℓ κ} : {A : Type ℓ} {B : Type κ} → Option A → (A → Option B) → Option B
none >>=? f = none
some a >>=? f = f a

abbrev ipv4_of : List (List ℕ) → Option IpAddr
ipv4_of (a ∷ b ∷ c ∷ d ∷ []) = parse_octet a >>=? λ i.
    parse_octet b >>=? λ j. parse_octet c >>=? λ k. parse_octet d >>=? λ l. some (v4 i j k l)
ipv4_of _ = none

unfoldable pub parse_ipv4 : String → Option IpAddr
unfolding codes split parse_octet
parse_ipv4 s = ipv4_of (split b'.' (codes s))

-- `url::Host`.
pub data Host : Type 0 where
  domain : String → Host
  ipv4 : (a b c d : ℕ) → Host
  ipv6 : ℕ → Host

-- The `url` crate, and the parser of IPv6 addresses.
pub record UrlApi : Type 1 where
  pub Url : Type 0
  pub ParseError : Type 0
  pub parse : String → Result ParseError Url
  pub scheme : Url → String
  pub host : Url → Option Host
  pub username : Url → String
  pub password : Url → Option String
  pub path : Url → String
  pub query : Url → Option String
  pub fragment : Url → Option String
  pub query_pairs : Url → List (String × String)
  pub set_path : Url → String → Url
  pub join : Url → String → Result ParseError Url
  pub parse_ipv6 : String → Option IpAddr

module _ (U : UrlApi) where
  -- `parse::<IpAddr>`.
  unfoldable pub parse_ip : String → Option IpAddr
  unfolding parse_ipv4
  parse_ip s = elim (parse_ipv4 s) [ some address ↦ some address | none ↦ U.parse_ipv6 s ]

  abbrev host_is_loopback : Option Host → Bool
  host_is_loopback (some (domain host)) =
      eq_ignore_ascii_case host "localhost" || is_some_and is_loopback (parse_ip host)
  host_is_loopback (some (ipv4 a b c d)) = ipv4_is_loopback a
  host_is_loopback (some (ipv6 bits)) = ipv6_is_loopback bits
  host_is_loopback none = false

  -- `url_host_is_loopback` of crates/app/src/config.rs.
  unfoldable pub url_host_is_loopback : U.Url → Bool
  unfolding parse_ip eq_ignore_ascii_case is_loopback
  url_host_is_loopback url = host_is_loopback (U.host url)
