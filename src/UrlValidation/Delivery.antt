-- ===== src/UrlValidation/Delivery.antt =====
-- What an address that the check at delivery returns is.
use lumenqraph.Base.{
  ◌≡◌, ◌⊎◌, ◌∙◌, ap, refl, false, Option, none, some, List, [], ◌∷◌, ◌++◌, In, here, there,
  Bool-cases, inl, inr, if◌then◌else◌,
}
use lumenqraph.Base.Str.{Str, lit}
use lumenqraph.Base.Result.{Result, ok, err}
use lumenqraph.UrlValidation.{
  IpAddr, is_reserved_ip, Net, addr_str, all_public, validate_resolved, validate_host,
  validate_webhook_url_at_delivery,
}

module _ (net : Net) where
  all_public-ok :
      (first ip : IpAddr) (ips : List IpAddr)
      → all_public net first ips ≡ ok ip
      → (ip ≡ first) × ((a : IpAddr) → In a ips → is_reserved_ip a ≡ false)
  unfolding all_public
  all_public-ok first ip [] h = (cc h, λ a m. elim m [ ])
  all_public-ok first ip (x ∷ ips) h = elim (Bool-cases (is_reserved_ip x)) [
    | inl r ↦ cc (rw r at h)
    | inr r ↦ let (e, rest) = all_public-ok first ip ips (rw r at h) in (e, go r rest)
  ]
    where
      go :
          {x : IpAddr} {ips : List IpAddr}
          → is_reserved_ip x ≡ false
          → ((a : IpAddr) → In a ips → is_reserved_ip a ≡ false)
          → (a : IpAddr) → In a (x ∷ ips)
          → is_reserved_ip a ≡ false
      go r rest a here = r
      go r rest a (there m) = rest a m

  -- A name that resolves to the address first, and to public addresses only.
  abbrev pub ResolvesTo : Str → IpAddr → Type 0
  ResolvesTo host ip =
      (ips : List IpAddr) × (net.lookup (host ++ lit ":80") ≡ some (ip ∷ ips))
      × ((a : IpAddr) → In a (ip ∷ ips) → is_reserved_ip a ≡ false)

  -- How a host leads to an address: as a literal, in brackets or not, or else as a name.
  abbrev pub LeadsTo : Str → IpAddr → Type 0
  LeadsTo host ip =
      (net.parse_ip (addr_str host) ≡ some ip)
      ⊎ ((net.parse_ip (addr_str host) ≡ none) × ResolvesTo host ip)

  resolved_public :
      (host : Str) (ip : IpAddr) (o : Option (List IpAddr))
      → net.lookup (host ++ lit ":80") ≡ o
      → validate_resolved net o ≡ ok ip
      → ResolvesTo host ip
  unfolding validate_resolved
  resolved_public host ip none e h = cc h
  resolved_public host ip (some []) e h = cc h
  resolved_public host ip (some (x ∷ ips)) e h =
      let (p, all) = all_public-ok x ip (x ∷ ips) h in (ips, rw p e, rw p all)

  literal_public :
      (a ip : IpAddr)
      → (if is_reserved_ip a
          then err (lit "IP address points to an internal/reserved network")
          else ok a)
        ≡ ok ip
      → (a ≡ ip) × (is_reserved_ip ip ≡ false)
  literal_public a ip h = elim (Bool-cases (is_reserved_ip a)) [
    | inl r ↦ cc (rw r at h)
    | inr r ↦ let e : a ≡ ip = cc (rw r at h) in (e, rw (← e) r)
  ]

  host_public :
      (host : Str) (ip : IpAddr)
      → validate_host net (some host) ≡ ok ip
      → (is_reserved_ip ip ≡ false) × LeadsTo host ip
  unfolding validate_host
  host_public host ip h = go (net.parse_ip (addr_str host)) refl
    where
      go :
          (o : Option IpAddr)
          → net.parse_ip (addr_str host) ≡ o
          → (is_reserved_ip ip ≡ false) × LeadsTo host ip
      go (some a) q =
          let (e, public) = literal_public a ip (rw (validate_host, q) at h) in
          (public, inl (q ∙ ap some e))
      go none q =
          let (ips, e, all) =
            resolved_public host ip (net.lookup (host ++ lit ":80")) refl
              (rw (validate_host, q) at h) in
          (all ip here, inr (q, (ips, e, all)))

  -- The check at delivery returns only an address that is not reserved, and it is the literal host
  -- of the URL, with or without brackets, or the host is no literal and the address is the first of
  -- those that its name resolves to, none of which is reserved.
  pub delivery_public :
      (url : Str) (ip : IpAddr)
      → validate_webhook_url_at_delivery net url ≡ ok ip
      → (is_reserved_ip ip ≡ false)
        × ((host : Str) × (net.parse_url url ≡ ok (some host)) × LeadsTo host ip)
  unfolding validate_webhook_url_at_delivery validate_host
  delivery_public url ip h = go (net.parse_url url) refl h
    where
      go :
          (r : Result Str (Option Str))
          → net.parse_url url ≡ r
          → (elim r as (λ _. Result Str IpAddr) [
            | err e ↦ err (lit "invalid URL: " ++ e)
            | ok host ↦ validate_host net host
          ])
            ≡ ok ip
          → (is_reserved_ip ip ≡ false)
            × ((host : Str) × (net.parse_url url ≡ ok (some host)) × LeadsTo host ip)
      go (err e) p h = cc h
      go (ok none) p h = cc h
      go (ok (some host)) p h = let (r, l) = host_public host ip h in (r, (host, p, l))
