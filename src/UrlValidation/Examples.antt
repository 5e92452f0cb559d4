-- ===== src/UrlValidation/Examples.antt =====
-- Concrete addresses and a small network, and the theorems at them.
use lumenqraph.Base.{◌≡◌, refl, false, none, some, [], ◌∷◌, arith}
use lumenqraph.Base.Str.{Str, lit}
use lumenqraph.Base.Result.{ok}
use lumenqraph.UrlValidation.{
  addr_str, Ipv4, Ipv6, IpAddr, v4, v6, is_reserved_ip, Net, validate_webhook_url_at_delivery,
}
use lumenqraph.UrlValidation.Networks.{value_v4, special_v4, is_reserved_ip-v4}
use lumenqraph.UrlValidation.Networks6.{IsIpv6}
use lumenqraph.UrlValidation.Delivery.{LeadsTo, delivery_public}

abbrev public_dns : Ipv4
public_dns = record { a = 8; b = 8; c = 8; d = 8 }

is_reserved_ip-v4_example : is_reserved_ip (v4 public_dns) ≡ special_v4 (value_v4 public_dns)
is_reserved_ip-v4_example =
    is_reserved_ip-v4 public_dns
      (record { a = omega arith; b = omega arith; c = omega arith; d = omega arith })

-- ::ffff:10.0.0.1.
abbrev mapped_private : Ipv6
mapped_private = record { s0 = 0; s1 = 0; s2 = 0; s3 = 0; s4 = 0; s5 = 0xffff; s6 = 0xa00; s7 = 1 }

mapped_private-IsIpv6 : IsIpv6 mapped_private
mapped_private-IsIpv6 = record {
  s0 = omega arith;
  s1 = omega arith;
  s2 = omega arith;
  s3 = omega arith;
  s4 = omega arith;
  s5 = omega arith;
  s6 = omega arith;
  s7 = omega arith;
}

-- Every URL has the host "hooks", which resolves to one public address.
abbrev net : Net
net = record {
  parse_url = λ url. ok (some (lit "hooks"));
  parse_ip = λ host. none;
  lookup = λ host. some (v4 public_dns ∷ []);
  show_ip = λ ip. [];
}

hooks_valid : validate_webhook_url_at_delivery net (lit "https://hooks/") ≡ ok (v4 public_dns)
unfolding validate_webhook_url_at_delivery is_reserved_ip lumenqraph.UrlValidation.validate_host
    addr_str lumenqraph.UrlValidation.validate_resolved lumenqraph.UrlValidation.all_public
    lumenqraph.UrlValidation.is_reserved_ipv4 lumenqraph.UrlValidation.is_loopback_v4
    lumenqraph.UrlValidation.is_private_v4 lumenqraph.UrlValidation.is_link_local_v4
    lumenqraph.UrlValidation.is_multicast_v4 lumenqraph.UrlValidation.is_broadcast_v4
    lumenqraph.UrlValidation.is_documentation_v4 lumenqraph.UrlValidation.is_reserved_v4
    lumenqraph.UrlValidation.is_shared_address_space_v4 lumenqraph.UrlValidation.is_benchmarking_v4
hooks_valid = refl

delivery_public_example :
    (is_reserved_ip (v4 public_dns) ≡ false)
    × ((host : Str) × (net.parse_url (lit "https://hooks/") ≡ ok (some host))
        × LeadsTo net host (v4 public_dns))
delivery_public_example = delivery_public net (lit "https://hooks/") (v4 public_dns) hooks_valid

bare_address : addr_str (lit "[::1]") ≡ lit "::1"
unfolding addr_str lumenqraph.UrlValidation.strip_bracket
bare_address = refl

half_bracket : addr_str (lit "[::1") ≡ lit "[::1"
unfolding addr_str lumenqraph.UrlValidation.strip_bracket
half_bracket = refl
