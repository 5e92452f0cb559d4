-- ===== src/UrlValidation.antt =====
-- crates/lumenqraph-core/src/url_validation.rs: which addresses a webhook may not be sent to, and the
-- check at delivery. The URL parser, the parser of addresses and the
-- name resolution are parameters of the check.
mod Examples
pub mod Networks
pub mod Networks6
pub mod Delivery
use lumenqraph.Base.{
  ℕ, ◌+◌, ◌*◌, ◌/◌, ◌%◌, Bool, true, false, not, ◌&&◌, ◌||◌, Option, none, some, List, [], ◌∷◌,
  ◌++◌, ltb, leb, ◌==◌, if◌then◌else◌,
}
use lumenqraph.Base.Str.{Str, lit}
use lumenqraph.Base.Result.{Result, ok, err}

-- The four octets of an address.
pub record Ipv4 : Type 0 where
  pub a : ℕ
  pub b : ℕ
  pub c : ℕ
  pub d : ℕ

-- The eight 16-bit segments of an address.
pub record Ipv6 : Type 0 where
  pub s0 : ℕ
  pub s1 : ℕ
  pub s2 : ℕ
  pub s3 : ℕ
  pub s4 : ℕ
  pub s5 : ℕ
  pub s6 : ℕ
  pub s7 : ℕ

pub data IpAddr : Type 0 where
  v4 : Ipv4 → IpAddr
  v6 : Ipv6 → IpAddr

-- The tests of the standard library.
unfoldable pub is_loopback_v4 : Ipv4 → Bool
is_loopback_v4 ip = ip.a == 127

unfoldable pub is_private_v4 : Ipv4 → Bool
is_private_v4 ip =
    ip.a == 10 || (ip.a == 172 && leb 16 ip.b && leb ip.b 31) || (ip.a == 192 && ip.b == 168)

unfoldable pub is_link_local_v4 : Ipv4 → Bool
is_link_local_v4 ip = ip.a == 169 && ip.b == 254

unfoldable pub is_multicast_v4 : Ipv4 → Bool
is_multicast_v4 ip = leb 224 ip.a && leb ip.a 239

unfoldable pub is_broadcast_v4 : Ipv4 → Bool
is_broadcast_v4 ip = ip.a == 255 && ip.b == 255 && ip.c == 255 && ip.d == 255

unfoldable pub is_documentation_v4 : Ipv4 → Bool
is_documentation_v4 ip =
    (ip.a == 192 && ip.b == 0 && ip.c == 2)
    || (ip.a == 198 && ip.b == 51 && ip.c == 100)
    || (ip.a == 203 && ip.b == 0 && ip.c == 113)

unfoldable pub is_reserved_v4 : Ipv4 → Bool
is_reserved_v4 ip =
    (ip.a == 100 && leb 64 ip.b && leb ip.b 127)
    || (ip.a == 192 && ip.b == 168)
    || (ip.a == 172 && leb 16 ip.b && leb ip.b 31)
    || ip.a == 10
    || ip.a == 127
    || (ip.a == 169 && ip.b == 254)
    || leb 240 ip.a

unfoldable pub is_shared_address_space_v4 : Ipv4 → Bool
is_shared_address_space_v4 ip = ip.a == 100 && leb 64 ip.b && leb ip.b 127

unfoldable pub is_benchmarking_v4 : Ipv4 → Bool
is_benchmarking_v4 ip = ip.a == 198 && (ip.b == 18 || ip.b == 19)

-- The IPv4 case of `is_reserved_ip`.
unfoldable pub is_reserved_ipv4 : Ipv4 → Bool
is_reserved_ipv4 ip =
    is_loopback_v4 ip
    || is_private_v4 ip
    || is_link_local_v4 ip
    || is_multicast_v4 ip
    || is_broadcast_v4 ip
    || ip.a == 0
    || is_documentation_v4 ip
    || is_reserved_v4 ip
    || is_shared_address_space_v4 ip
    || is_benchmarking_v4 ip

-- `to_ipv4_mapped`: the address behind `::ffff:0:0/96`.
unfoldable pub to_ipv4_mapped : Ipv6 → Option Ipv4
to_ipv4_mapped ip =
    if ip.s0 == 0 && ip.s1 == 0 && ip.s2 == 0 && ip.s3 == 0 && ip.s4 == 0 && ip.s5 == 0xffff
    then some (record { a = ip.s6 / 256; b = ip.s6 % 256; c = ip.s7 / 256; d = ip.s7 % 256 })
    else none

unfoldable pub is_nat64_wellknown : Ipv6 → Bool
is_nat64_wellknown ip = ip.s0 == 0x64 && ip.s1 == 0xff9b && ip.s2 == 0 && ip.s3 == 0

unfoldable pub is_6to4 : Ipv6 → Bool
is_6to4 ip = ip.s0 == 0x2002

unfoldable pub is_ipv4_compatible : Ipv6 → Bool
is_ipv4_compatible ip =
    ip.s0 == 0
    && ip.s1 == 0
    && ip.s2 == 0
    && ip.s3 == 0
    && ip.s4 == 0
    && ip.s5 == 0
    && not (ip.s6 == 0 && (ip.s7 == 0 || ip.s7 == 1))

unfoldable pub is_discard_prefix : Ipv6 → Bool
is_discard_prefix ip = ip.s0 == 0x100

unfoldable pub is_documentation_v6 : Ipv6 → Bool
is_documentation_v6 ip = ip.s0 == 0x2001 && ip.s1 == 0xdb8

abbrev low_zero : Ipv6 → Bool
low_zero ip =
    ip.s0 == 0 && ip.s1 == 0 && ip.s2 == 0 && ip.s3 == 0 && ip.s4 == 0 && ip.s5 == 0 && ip.s6 == 0

-- The tests of the standard library; a mask of the highest bits is a division.
unfoldable pub is_loopback_v6 : Ipv6 → Bool
is_loopback_v6 ip = low_zero ip && ip.s7 == 1

unfoldable pub is_unspecified_v6 : Ipv6 → Bool
is_unspecified_v6 ip = low_zero ip && ip.s7 == 0

unfoldable pub is_multicast_v6 : Ipv6 → Bool
is_multicast_v6 ip = ip.s0 / 256 == 0xff

unfoldable pub is_unicast_link_local : Ipv6 → Bool
is_unicast_link_local ip = ip.s0 / 64 == 0xfe80 / 64

unfoldable pub is_unique_local : Ipv6 → Bool
is_unique_local ip = ip.s0 / 512 == 0xfc00 / 512

-- The IPv6 case of `is_reserved_ip`, for an address that is not a mapped one.
unfoldable pub is_reserved_ipv6 : Ipv6 → Bool
is_reserved_ipv6 ip =
    is_nat64_wellknown ip
    || is_6to4 ip
    || is_ipv4_compatible ip
    || is_loopback_v6 ip
    || is_multicast_v6 ip
    || is_unicast_link_local ip
    || is_unspecified_v6 ip
    || is_unique_local ip
    || is_documentation_v6 ip
    || is_discard_prefix ip

unfoldable pub is_reserved_mapped : Option Ipv4 → Ipv6 → Bool
is_reserved_mapped (some ip) whole = is_reserved_ipv4 ip
is_reserved_mapped none whole = is_reserved_ipv6 whole

unfoldable pub is_reserved_ip : IpAddr → Bool
is_reserved_ip (v4 ip) = is_reserved_ipv4 ip
is_reserved_ip (v6 ip) = is_reserved_mapped (to_ipv4_mapped ip) ip

-- What the code asks for: `Url::parse` with the `host_str` of the URL, or its error; the parser of
-- literal addresses; the addresses of a name, or `none` if it does not resolve; how an address is
-- printed.
pub record Net : Type 0 where
  pub parse_url : Str → Result Str (Option Str)
  pub parse_ip : Str → Option IpAddr
  pub lookup : Str → Option (List IpAddr)
  pub show_ip : IpAddr → Str

-- `s.strip_suffix(']')`.
unfoldable pub strip_bracket : Str → Option Str
strip_bracket [] = none
strip_bracket (c ∷ []) = if c == b']' then some [] else none
strip_bracket (c ∷ d ∷ cs) = elim (strip_bracket (d ∷ cs)) [ none ↦ none | some t ↦ some (c ∷ t) ]

-- The host without its brackets, if it has both.
unfoldable pub addr_str : Str → Str
unfolding strip_bracket
addr_str [] = []
addr_str (c ∷ cs) =
    if c == b'[' then elim (strip_bracket cs) [ none ↦ c ∷ cs | some t ↦ t ] else c ∷ cs

module _ (net : Net) where
  -- The loop over the resolved addresses, and the first of them after it.
  unfoldable pub all_public : IpAddr → List IpAddr → Result Str IpAddr
  all_public first [] = ok first
  all_public first (ip ∷ ips) =
      let rest = all_public first ips in
      if is_reserved_ip ip
      then err (lit "hostname resolves to internal/reserved address: " ++ net.show_ip ip)
      else rest

  unfoldable pub validate_resolved : Option (List IpAddr) → Result Str IpAddr
  validate_resolved none = err (lit "could not resolve hostname")
  validate_resolved (some []) = err (lit "hostname resolved to no addresses")
  validate_resolved (some (ip ∷ ips)) = all_public ip (ip ∷ ips)

  unfoldable pub validate_host : Option Str → Result Str IpAddr
  unfolding addr_str
  validate_host none = err (lit "url must have a host")
  validate_host (some host) = elim (net.parse_ip (addr_str host)) [
    | some ip ↦
        if is_reserved_ip ip
        then err (lit "IP address points to an internal/reserved network")
        else ok ip
    | none ↦ validate_resolved (net.lookup (host ++ lit ":80"))
  ]

  unfoldable pub validate_webhook_url_at_delivery : Str → Result Str IpAddr
  validate_webhook_url_at_delivery url = elim (net.parse_url url) [
    | err e ↦ err (lit "invalid URL: " ++ e)
    | ok host ↦ validate_host host
  ]
