-- ===== src/UrlValidation/Networks.antt =====
-- The reserved addresses as ranges, from the first to the last address of each network.
use lumenqraph.Base.{ℕ, ◌+◌, ◌*◌, ◌<◌, ◌≡◌, ◌∙◌, sym, refl, Bool, ◌&&◌, ◌||◌, ltb, leb, ◌==◌, arith}
use lumenqraph.UrlValidation.{
  Ipv4, v4, is_loopback_v4, is_private_v4, is_link_local_v4, is_multicast_v4, is_broadcast_v4,
  is_documentation_v4, is_reserved_v4, is_shared_address_space_v4, is_benchmarking_v4,
  is_reserved_ipv4, is_reserved_ip,
}

-- The number of an IPv4 address.
abbrev pub value_v4 : Ipv4 → ℕ
value_v4 ip = ((ip.a * 256 + ip.b) * 256 + ip.c) * 256 + ip.d

pub record IsIpv4 (ip : Ipv4) : Type 0 where
  pub a : ip.a < 256
  pub b : ip.b < 256
  pub c : ip.c < 256
  pub d : ip.d < 256

-- An address, and how many low bits of it are free.
abbrev pub network : ℕ → ℕ → ℕ → ℕ → ℕ → ℕ → Bool
network a b c d size n =
    let first = ((a * 256 + b) * 256 + c) * 256 + d in leb first n && ltb n (first + size)

-- The networks that are refused, by their prefixes: "this" network, private use, shared address
-- space, loopback, link local, documentation, benchmarking, multicast and the reserved rest. Of the
-- networks that are not globally reachable, 192.0.0.0/24 is not among them.
abbrev pub special_v4 : ℕ → Bool
special_v4 n =
    network 0 0 0 0 16_777_216 n
    || network 10 0 0 0 16_777_216 n
    || network 100 64 0 0 4_194_304 n
    || network 127 0 0 0 16_777_216 n
    || network 169 254 0 0 65_536 n
    || network 172 16 0 0 1_048_576 n
    || network 192 0 2 0 256 n
    || network 192 168 0 0 65_536 n
    || network 198 18 0 0 131_072 n
    || network 198 51 100 0 256 n
    || network 203 0 113 0 256 n
    || network 224 0 0 0 536_870_912 n

-- The octets of the addresses of each network.
module _ (ip : Ipv4) (w : IsIpv4 ip) where
  this_octets : network 0 0 0 0 16_777_216 (value_v4 ip) ≡ (ip.a == 0)
  this_octets = ground (arith, w.a, w.b, w.c, w.d)

  private_10_octets : network 10 0 0 0 16_777_216 (value_v4 ip) ≡ (ip.a == 10)
  private_10_octets = ground (arith, w.a, w.b, w.c, w.d)

  shared_octets :
      network 100 64 0 0 4_194_304 (value_v4 ip) ≡ ((ip.a == 100 && leb 64 ip.b && leb ip.b 127))
  shared_octets = ground (arith, w.a, w.b, w.c, w.d)

  loopback_octets : network 127 0 0 0 16_777_216 (value_v4 ip) ≡ (ip.a == 127)
  loopback_octets = ground (arith, w.a, w.b, w.c, w.d)

  link_local_octets : network 169 254 0 0 65_536 (value_v4 ip) ≡ ((ip.a == 169 && ip.b == 254))
  link_local_octets = ground (arith, w.a, w.b, w.c, w.d)

  private_172_octets :
      network 172 16 0 0 1_048_576 (value_v4 ip) ≡ ((ip.a == 172 && leb 16 ip.b && leb ip.b 31))
  private_172_octets = ground (arith, w.a, w.b, w.c, w.d)

  test_1_octets : network 192 0 2 0 256 (value_v4 ip) ≡ ((ip.a == 192 && ip.b == 0 && ip.c == 2))
  test_1_octets = ground (arith, w.a, w.b, w.c, w.d)

  private_192_octets : network 192 168 0 0 65_536 (value_v4 ip) ≡ ((ip.a == 192 && ip.b == 168))
  private_192_octets = ground (arith, w.a, w.b, w.c, w.d)

  benchmarking_octets :
      network 198 18 0 0 131_072 (value_v4 ip) ≡ ((ip.a == 198 && (ip.b == 18 || ip.b == 19)))
  benchmarking_octets = ground (arith, w.a, w.b, w.c, w.d)

  test_2_octets :
      network 198 51 100 0 256 (value_v4 ip) ≡ ((ip.a == 198 && ip.b == 51 && ip.c == 100))
  test_2_octets = ground (arith, w.a, w.b, w.c, w.d)

  test_3_octets :
      network 203 0 113 0 256 (value_v4 ip) ≡ ((ip.a == 203 && ip.b == 0 && ip.c == 113))
  test_3_octets = ground (arith, w.a, w.b, w.c, w.d)

  upper_octets : network 224 0 0 0 536_870_912 (value_v4 ip) ≡ (leb 224 ip.a)
  upper_octets = ground (arith, w.a, w.b, w.c, w.d)

  special_octets : special_v4 (value_v4 ip) ≡ (
      ip.a == 0
      || ip.a == 10
      || (ip.a == 100 && leb 64 ip.b && leb ip.b 127)
      || ip.a == 127
      || (ip.a == 169 && ip.b == 254)
      || (ip.a == 172 && leb 16 ip.b && leb ip.b 31)
      || (ip.a == 192 && ip.b == 0 && ip.c == 2)
      || (ip.a == 192 && ip.b == 168)
      || (ip.a == 198 && (ip.b == 18 || ip.b == 19))
      || (ip.a == 198 && ip.b == 51 && ip.c == 100)
      || (ip.a == 203 && ip.b == 0 && ip.c == 113)
      || leb 224 ip.a)
  special_octets =
      rw
        (
          this_octets, private_10_octets, shared_octets, loopback_octets, link_local_octets,
          private_172_octets, test_1_octets, private_192_octets, benchmarking_octets, test_2_octets,
          test_3_octets, upper_octets,
        )
        refl

reserved_octets :
    (ip : Ipv4)
    → is_reserved_ipv4 ip ≡ (
        ip.a == 0
        || ip.a == 10
        || (ip.a == 100 && leb 64 ip.b && leb ip.b 127)
        || ip.a == 127
        || (ip.a == 169 && ip.b == 254)
        || (ip.a == 172 && leb 16 ip.b && leb ip.b 31)
        || (ip.a == 192 && ip.b == 0 && ip.c == 2)
        || (ip.a == 192 && ip.b == 168)
        || (ip.a == 198 && (ip.b == 18 || ip.b == 19))
        || (ip.a == 198 && ip.b == 51 && ip.c == 100)
        || (ip.a == 203 && ip.b == 0 && ip.c == 113)
        || leb 224 ip.a)
unfolding is_reserved_ipv4 is_loopback_v4 is_private_v4 is_link_local_v4 is_multicast_v4
    is_broadcast_v4 is_documentation_v4 is_reserved_v4 is_shared_address_space_v4 is_benchmarking_v4
reserved_octets ip = ground arith

-- An IPv4 address of octets below 256 is reserved exactly when its number lies in one of the twelve
-- listed networks, each given by its first address and its size.
pub is_reserved_ip-v4 : (ip : Ipv4) → IsIpv4 ip → is_reserved_ip (v4 ip) ≡ special_v4 (value_v4 ip)
unfolding is_reserved_ip
is_reserved_ip-v4 ip w = reserved_octets ip ∙ sym (special_octets ip w)
