-- ===== src/UrlValidation/Networks6.antt =====
-- The reserved IPv6 addresses as ranges.
use lumenqraph.Base.{
  ℕ, ◌+◌, ◌*◌, ◌^◌, ◌/◌, ◌%◌, ◌<◌, ◌≡◌, ◌∙◌, sym, refl, Bool, ◌&&◌, ◌||◌, ltb, leb, ◌==◌,
  if◌then◌else◌, Bool-cases, inl, inr, ap, arith,
}
use lumenqraph.UrlValidation.{
  Ipv6, v6, to_ipv4_mapped, is_reserved_mapped, is_reserved_ipv6, is_reserved_ip,
}
use lumenqraph.UrlValidation.{
  is_nat64_wellknown, is_6to4, is_ipv4_compatible, is_discard_prefix, is_documentation_v6,
  is_loopback_v6, is_unspecified_v6, is_multicast_v6, is_unicast_link_local, is_unique_local,
}
use lumenqraph.UrlValidation.Networks.{value_v4, special_v4, is_reserved_ip-v4}

-- The number of an IPv6 address.
abbrev pub value_v6 : Ipv6 → ℕ
value_v6 ip =
    ((((((ip.s0 * 65_536 + ip.s1) * 65_536 + ip.s2) * 65_536 + ip.s3) * 65_536 + ip.s4) * 65_536
            + ip.s5)
          * 65_536
        + ip.s6)
      * 65_536
    + ip.s7

pub record IsIpv6 (ip : Ipv6) : Type 0 where
  pub s0 : ip.s0 < 65_536
  pub s1 : ip.s1 < 65_536
  pub s2 : ip.s2 < 65_536
  pub s3 : ip.s3 < 65_536
  pub s4 : ip.s4 < 65_536
  pub s5 : ip.s5 < 65_536
  pub s6 : ip.s6 < 65_536
  pub s7 : ip.s7 < 65_536

-- An address, and how many there are from it on.
abbrev pub range : ℕ → ℕ → ℕ → Bool
range first size n = leb first n && ltb n (first + size)

-- The networks that are not public: IPv4-compatible, NAT64, discard, documentation, 6to4, unique
-- local, link local and multicast.
abbrev pub special_v6 : ℕ → Bool
special_v6 n =
    range 0 (2 ^ 32) n
    || range (0x64 * 2 ^ 112 + 0xff9b * 2 ^ 96) (2 ^ 64) n
    || range (0x100 * 2 ^ 112) (2 ^ 112) n
    || range (0x2001 * 2 ^ 112 + 0xdb8 * 2 ^ 96) (2 ^ 96) n
    || range (0x2002 * 2 ^ 112) (2 ^ 112) n
    || range (0xfc00 * 2 ^ 112) (2 ^ 121) n
    || range (0xfe80 * 2 ^ 112) (2 ^ 118) n
    || range (0xff00 * 2 ^ 112) (2 ^ 120) n

-- The IPv4-mapped addresses.
abbrev pub mapped : ℕ → Bool
mapped n = range (0xffff * 2 ^ 32) (2 ^ 32) n

module _ (ip : Ipv6) (w : IsIpv6 ip) where
  compatible_segments :
      range 0 (2 ^ 32) (value_v6 ip)
      ≡ ((ip.s0 == 0 && ip.s1 == 0 && ip.s2 == 0 && ip.s3 == 0 && ip.s4 == 0 && ip.s5 == 0))
  compatible_segments = ground (arith, w.s0, w.s1, w.s2, w.s3, w.s4, w.s5, w.s6, w.s7)

  nat64_segments :
      range (0x64 * 2 ^ 112 + 0xff9b * 2 ^ 96) (2 ^ 64) (value_v6 ip)
      ≡ ((ip.s0 == 0x64 && ip.s1 == 0xff9b && ip.s2 == 0 && ip.s3 == 0))
  nat64_segments = ground (arith, w.s0, w.s1, w.s2, w.s3, w.s4, w.s5, w.s6, w.s7)

  discard_segments : range (0x100 * 2 ^ 112) (2 ^ 112) (value_v6 ip) ≡ (ip.s0 == 0x100)
  discard_segments = ground (arith, w.s0, w.s1, w.s2, w.s3, w.s4, w.s5, w.s6, w.s7)

  documentation_segments :
      range (0x2001 * 2 ^ 112 + 0xdb8 * 2 ^ 96) (2 ^ 96) (value_v6 ip)
      ≡ ((ip.s0 == 0x2001 && ip.s1 == 0xdb8))
  documentation_segments = ground (arith, w.s0, w.s1, w.s2, w.s3, w.s4, w.s5, w.s6, w.s7)

  six_to_four_segments : range (0x2002 * 2 ^ 112) (2 ^ 112) (value_v6 ip) ≡ (ip.s0 == 0x2002)
  six_to_four_segments = ground (arith, w.s0, w.s1, w.s2, w.s3, w.s4, w.s5, w.s6, w.s7)

  unique_local_segments :
      range (0xfc00 * 2 ^ 112) (2 ^ 121) (value_v6 ip) ≡ ((ip.s0 / 512 == 0xfc00 / 512))
  unique_local_segments = ground (arith, w.s0, w.s1, w.s2, w.s3, w.s4, w.s5, w.s6, w.s7)

  link_local_v6_segments :
      range (0xfe80 * 2 ^ 112) (2 ^ 118) (value_v6 ip) ≡ ((ip.s0 / 64 == 0xfe80 / 64))
  link_local_v6_segments = ground (arith, w.s0, w.s1, w.s2, w.s3, w.s4, w.s5, w.s6, w.s7)

  multicast_v6_segments : range (0xff00 * 2 ^ 112) (2 ^ 120) (value_v6 ip) ≡ ((ip.s0 / 256 == 0xff))
  multicast_v6_segments = ground (arith, w.s0, w.s1, w.s2, w.s3, w.s4, w.s5, w.s6, w.s7)

  mapped_segments :
      mapped (value_v6 ip)
      ≡ (ip.s0 == 0 && ip.s1 == 0 && ip.s2 == 0 && ip.s3 == 0 && ip.s4 == 0 && ip.s5 == 0xffff)
  mapped_segments = ground (arith, w.s0, w.s1, w.s2, w.s3, w.s4, w.s5, w.s6, w.s7)

  special_segments : special_v6 (value_v6 ip) ≡ (
      (ip.s0 == 0 && ip.s1 == 0 && ip.s2 == 0 && ip.s3 == 0 && ip.s4 == 0 && ip.s5 == 0)
      || (ip.s0 == 0x64 && ip.s1 == 0xff9b && ip.s2 == 0 && ip.s3 == 0)
      || ip.s0 == 0x100
      || (ip.s0 == 0x2001 && ip.s1 == 0xdb8)
      || ip.s0 == 0x2002
      || (ip.s0 / 512 == 0xfc00 / 512)
      || (ip.s0 / 64 == 0xfe80 / 64)
      || (ip.s0 / 256 == 0xff))
  special_segments =
      rw
        (
          compatible_segments, nat64_segments, discard_segments, documentation_segments,
          six_to_four_segments, unique_local_segments, link_local_v6_segments,
          multicast_v6_segments,
        )
        refl

  mapped_value :
      value_v4 (record { a = ip.s6 / 256; b = ip.s6 % 256; c = ip.s7 / 256; d = ip.s7 % 256 })
      ≡ value_v6 ip % 2 ^ 32
  mapped_value = omega (arith, w.s6, w.s7)

reserved_segments :
    (ip : Ipv6)
    → is_reserved_ipv6 ip ≡ (
        (ip.s0 == 0 && ip.s1 == 0 && ip.s2 == 0 && ip.s3 == 0 && ip.s4 == 0 && ip.s5 == 0)
        || (ip.s0 == 0x64 && ip.s1 == 0xff9b && ip.s2 == 0 && ip.s3 == 0)
        || ip.s0 == 0x100
        || (ip.s0 == 0x2001 && ip.s1 == 0xdb8)
        || ip.s0 == 0x2002
        || (ip.s0 / 512 == 0xfc00 / 512)
        || (ip.s0 / 64 == 0xfe80 / 64)
        || (ip.s0 / 256 == 0xff))
unfolding is_reserved_ipv6 is_nat64_wellknown is_6to4 is_ipv4_compatible is_discard_prefix
    is_documentation_v6 is_loopback_v6 is_unspecified_v6 is_multicast_v6 is_unicast_link_local
    is_unique_local
reserved_segments ip = ground arith

-- An IPv6 address of 16-bit segments is reserved exactly when it is mapped from a reserved IPv4 address, or is not
-- mapped and its number lies in one of the networks.
is_reserved_ip-v6 :
    (ip : Ipv6)
    → IsIpv6 ip
    → is_reserved_ip (v6 ip) ≡ (
        if mapped (value_v6 ip)
        then special_v4 (value_v6 ip % 2 ^ 32)
        else special_v6 (value_v6 ip))
unfolding is_reserved_ip is_reserved_mapped to_ipv4_mapped
is_reserved_ip-v6 ip w = elim (Bool-cases (mapped (value_v6 ip))) [
  | inl m ↦
      rw (m, sym (mapped_segments ip w) ∙ m)
        (is_reserved_ip-v4
            (record { a = ip.s6 / 256; b = ip.s6 % 256; c = ip.s7 / 256; d = ip.s7 % 256 })
            (record {
              a = omega (arith, w.s6);
              b = omega arith;
              c = omega (arith, w.s7);
              d = omega arith;
            })
          ∙ ap special_v4 (mapped_value ip w))
  | inr m ↦
      rw (m, sym (mapped_segments ip w) ∙ m) (reserved_segments ip ∙ sym (special_segments ip w))
]
