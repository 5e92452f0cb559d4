-- ===== src/RpcClient/Network.antt =====
-- What crates/lumenqraph-indexer/src/rpc_client.rs asks the endpoints about themselves: the network
-- that they serve, and whether the primary is healthy again.
pub mod Pinned
use lumenqraph.Base.{
  ℕ, zero, suc, ◌+◌, ◌-◌, ◌*◌, ◌==◌, min, Bool, Option, none, some, List, [], ◌∷◌, length,
  if◌then◌else◌,
}
use lumenqraph.Base.Int.{ℤ}
use lumenqraph.Base.Str.{Str, lit, str_eq}
use lumenqraph.Base.Result.{Result, ok, err}
use lumenqraph.RpcClient.{SorobanRpcError}
use lumenqraph.RpcClient.Hosts.{host_of}
use lumenqraph.RpcClient.Failover.{Client, should_probe, fail_back}

-- What comes back of a request: no response, a response with an error status (the client may not
-- know which), a body that cannot be decoded, or `RpcResponse` with its result and its error.
pub data Reply (R : Type 0) : Type 0 where
  request_failed : Str → Reply R
  http_error : Option ℕ → Reply R
  undecodable : Str → Reply R
  answered : Option R → Option (ℤ × Str) → Reply R

-- An error of a call, without the words that are added to it.
pub data CallError : Type 0 where
  request_error : Str → CallError
  http_status : Option ℕ → CallError
  decode_error : Str → CallError
  rpc_error : SorobanRpcError → CallError
  no_result : CallError
  network_mismatch : Str → CallError
  all_failed : ℕ → CallError

-- The endpoints, the clock and the random numbers, which are not in the repository. The state of
-- the world is passed through each request; `post` sends the body of the call.
pub record Network (W R : Type 0) : Type 0 where
  pub now : W → ℕ
  pub sleep : W → ℕ → W
  pub gen_range : W → ℕ → W × ℕ
  pub get_network : W → Str → W × Reply Str
  pub get_health : W → Str → W × Bool
  pub post : W → Str → W × Reply R

abbrev pub nth : List Str → ℕ → Str
nth [] n = []
nth (s ∷ rest) zero = s
nth (s ∷ rest) (suc n) = nth rest n

-- `url_at`. The list is not empty.
unfoldable pub url_at : List Str → ℕ → Str
url_at urls idx = nth urls (min idx (length urls - 1))

-- The passphrase in the answer to `getNetwork`, whose error field is not read.
unfoldable pub passphrase_of : Reply Str → Result CallError Str
passphrase_of (request_failed e) = err (request_error e)
passphrase_of (http_error status) = err (http_status status)
passphrase_of (undecodable e) = err (decode_error e)
passphrase_of (answered none error) = err no_result
passphrase_of (answered (some p) error) = ok p

abbrev pub compared : Str → Str → Result CallError Str → Option CallError
compared url expected (err e) = some e
compared url expected (ok actual) =
    if str_eq actual expected then none else some (network_mismatch (host_of url))

module _ {W R : Type 0} (net : Network W R) (urls : List Str) where
  -- `Ok(())` is `none`.
  unfoldable pub check_endpoint_network : ℕ → W → Client → W × Option CallError
  unfolding url_at passphrase_of
  check_endpoint_network idx w c = elim c.network_passphrase [
    | none ↦ (w, none)
    | some expected ↦ (
      (net.get_network w (url_at urls idx)).0,
      compared (url_at urls idx) expected (passphrase_of (net.get_network w (url_at urls idx)).1),
    )
  ]

  unfoldable pub maybe_probe_primary : W → Client → W × Client
  unfolding should_probe fail_back url_at
  maybe_probe_primary w c =
      if should_probe (net.now w) c
      then (
        (net.get_health w (url_at urls 0)).0,
        (if (net.get_health w (url_at urls 0)).1 then fail_back c else c),
      )
      else (w, c)

module _ {W R : Type 0} (net : Network W R) where
  -- The loop of `validate_network_passphrases` over the endpoints.
  unfoldable pub common_passphrase : W → Option Str → List Str → W × Result CallError (Option Str)
  unfolding passphrase_of
  common_passphrase w expected [] = (w, ok expected)
  common_passphrase w expected (url ∷ rest) = elim (passphrase_of (net.get_network w url).1) [
    | err e ↦ ((net.get_network w url).0, err e)
    | ok p ↦ elim expected [
      | none ↦ common_passphrase (net.get_network w url).0 (some p) rest
      | some prior ↦
          let next = common_passphrase (net.get_network w url).0 (some prior) rest in
          if str_eq prior p
          then next
          else ((net.get_network w url).0, err (network_mismatch (host_of url)))
    ]
  ]

  -- It pins the passphrase that it returns. The list of endpoints is not empty, so there is one.
  unfoldable pub validate_network_passphrases :
      List Str → W → Client → W × Client × Result CallError Str
  unfolding common_passphrase
  validate_network_passphrases urls w c =
      let found : W × Result CallError (Option Str) = common_passphrase w none urls in
      elim found.1 [
        | err e ↦ (found.0, c, err e)
        | ok none ↦ (found.0, c, err (all_failed 0))
        | ok (some p) ↦ (found.0, record c { network_passphrase = some p }, ok p)
      ]
