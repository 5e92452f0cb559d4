-- ===== src/RpcClient/Examples.antt =====
-- Runs of the RPC client, and its theorems at concrete inputs.
use lumenqraph.Base.{
  ℕ, ◌+◌, ◌≡◌, refl, all, true, false, none, some, List, [], ◌∷◌, length, In, arith, drop, ◌==◌,
}
use lumenqraph.Base.Str.{Str, lit, str_eq}
use lumenqraph.Base.Result.{ok}
use lumenqraph.RpcClient.{event_filters}
use lumenqraph.RpcClient.Requests.{IsSpread, event_filters-IsSpread}
use lumenqraph.RpcClient.Hosts.{host_of, with_user, host_of-address}
use lumenqraph.RpcClient.Failover.{Client, with_urls, try_failover}
use lumenqraph.RpcClient.Failover.Interleaved.{
  started, advanced, IsConsistent, failover-IsConsistent,
}
use lumenqraph.RpcClient.Network.{
  Reply, request_failed, answered, Network, validate_network_passphrases, maybe_probe_primary,
}
use lumenqraph.RpcClient.Network.Pinned.{HasReported, validate_network_passphrases-agreed}
use lumenqraph.RpcClient.Calls.{call}
use lumenqraph.RpcClient.Calls.Served.{IsServed, call-IsServed}
use lumenqraph.RpcClient.Calls.Reference.{IsStatic, first_settled}
use lumenqraph.RpcClient.Calls.Agreement.{call-first_settled}

abbrev two_urls : List Str
two_urls = lit "a" ∷ lit "b" ∷ []

-- A network whose first endpoint never responds, and whose second one answers 7. The world is the
-- number of requests that were sent.
abbrev reply_of : Str → Reply ℕ
reply_of url = elim (str_eq url (lit "b")) [
  | true ↦ answered (some 7) none
  | false ↦ request_failed (lit "refused")
]

abbrev report_of : Str → Reply Str
report_of url = answered (some (lit "net")) none

abbrev net : Network ℕ ℕ
net = record {
  now = λ w. w;
  sleep = λ w ms. w;
  gen_range = λ w hi. (w, 0);
  get_network = λ w url. (w, report_of url);
  get_health = λ w url. (w, false);
  post = λ w url. (w + 1, reply_of url);
}

abbrev pinned_client : Client
pinned_client = record with_urls { network_passphrase = some (lit "net") }

pinned_client-IsConsistent : IsConsistent two_urls pinned_client
unfolding with_urls
pinned_client-IsConsistent = record {
  in_range = omega arith;
  snapshot = refl;
  timed = (λ h. refl, λ h. refl);
}

served_by_second : (call net (lit "getHealth") two_urls 0 pinned_client).2 ≡ ok 7
unfolding call with_urls str_eq
served_by_second = refl

-- The client has moved on after three attempts, and the next call starts at the second endpoint.
moved_on : (call net (lit "getHealth") two_urls 0 pinned_client).1.failover.active_idx ≡ 1
unfolding call with_urls str_eq
moved_on = refl

-- The same network with the log of its requests.
abbrev logged_net : Network (List Str) ℕ
logged_net = record {
  now = λ w. length w;
  sleep = λ w ms. w;
  gen_range = λ w hi. (w, 0);
  get_network = λ w url. (w, report_of url);
  get_health = λ w url. (w, false);
  post = λ w url. (url ∷ w, reply_of url);
}

call-IsServed_example :
    IsServed net
      (lit "getHealth")
      two_urls
      pinned_client
      (call net (lit "getHealth") two_urls 0 pinned_client)
      7
call-IsServed_example =
    call-IsServed net (lit "getHealth") two_urls 0 pinned_client 7 served_by_second

net-IsStatic : IsStatic net reply_of report_of
net-IsStatic = record { posts = λ w url. refl; networks = λ w url. refl }

call-first_settled_example :
    (call net (lit "getHealth") two_urls 0 pinned_client).2
    ≡ first_settled
        (lit "getHealth")
        reply_of
        report_of
        (maybe_probe_primary net two_urls 0 pinned_client).1.network_passphrase
        ((maybe_probe_primary net two_urls 0 pinned_client).1.failover.active_idx == 0)
        (length two_urls)
        none
        (drop (maybe_probe_primary net two_urls 0 pinned_client).1.failover.active_idx two_urls)
call-first_settled_example =
    call-first_settled net reply_of report_of net-IsStatic (lit "getHealth") two_urls 0
      pinned_client pinned_client-IsConsistent

failover-IsConsistent_example : IsConsistent two_urls (try_failover two_urls 5 0 with_urls).0
failover-IsConsistent_example = failover-IsConsistent (omega arith) (advanced started 5 0)

agreed_on_net : (validate_network_passphrases net two_urls 0 with_urls).2 ≡ ok (lit "net")
unfolding validate_network_passphrases str_eq
agreed_on_net = refl

validate_network_passphrases-agreed_example :
    ((url : Str) → In url two_urls → HasReported net url (lit "net"))
    × ((validate_network_passphrases net two_urls 0 with_urls).1.network_passphrase
        ≡ some (lit "net"))
validate_network_passphrases-agreed_example =
    validate_network_passphrases-agreed net two_urls 0 with_urls (lit "net") agreed_on_net

event_filters-IsSpread_example : IsSpread two_urls (event_filters two_urls)
event_filters-IsSpread_example = event_filters-IsSpread two_urls

host_of-address_example : host_of (lit "https://u:p@h/x") ≡ lit "h"
unfolding all
host_of-address_example =
    host_of-address (with_user (lit "https") (lit "u:p") (lit "x") refl refl refl)
