-- ===== src/RpcClient.antt =====
-- crates/lumenqraph-indexer/src/rpc_client.rs: the codes of the server's errors, the filters of a
-- `getEvents` request and the host that is logged. The children model the failover between the
-- endpoints and the calls.
mod Examples
pub mod Requests
pub mod Hosts
pub mod Failover
pub mod Network
pub mod Calls
use lumenqraph.Base.{
  ℕ, zero, suc, ◌*◌, Bool, true, false, not, Option, none, some, List, [], ◌∷◌, length, take, drop,
  is_nil, ltb, ◌==◌, if◌then◌else◌,
}
use lumenqraph.Base.Int.{ℤ, pos, negsuc}
use lumenqraph.Base.Str.{Str, lit}
use lumenqraph.Base.Result.{Result, ok, err}

pub data SorobanRpcErrorCode : Type 0 where
  parse_error invalid_request method_not_found invalid_params internal_error server_error
        processing_limit_exceeded :
      SorobanRpcErrorCode
  other : ℤ → SorobanRpcErrorCode

-- `negsuc n` is -(n + 1).
unfoldable pub from_code : ℤ → SorobanRpcErrorCode
from_code (pos n) = other (pos n)
from_code (negsuc n) =
    if n == 32699
    then parse_error
    else if n == 32599
    then invalid_request
    else if n == 32600
    then method_not_found
    else if n == 32601
    then invalid_params
    else if n == 32602
    then internal_error
    else if n == 31999
    then server_error
    else if n == 32000
    then processing_limit_exceeded
    else other (negsuc n)

unfoldable pub code : SorobanRpcErrorCode → ℤ
code parse_error = negsuc 32699
code invalid_request = negsuc 32599
code method_not_found = negsuc 32600
code invalid_params = negsuc 32601
code internal_error = negsuc 32602
code server_error = negsuc 31999
code processing_limit_exceeded = negsuc 32000
code (other c) = c

unfoldable pub is_retryable : SorobanRpcErrorCode → Bool
is_retryable processing_limit_exceeded = true
is_retryable internal_error = true
is_retryable server_error = true
is_retryable _ = false

unfoldable pub is_permanent : SorobanRpcErrorCode → Bool
unfolding is_retryable
is_permanent e = not (is_retryable e)

pub record SorobanRpcError : Type 0 where
  pub code : ℤ
  pub message : Str
  pub method : Str
  pub error_code : SorobanRpcErrorCode

-- `SorobanRpcError::new`.
unfoldable pub new_error : ℤ → Str → Str → SorobanRpcError
unfolding from_code
new_error c message method = record {
  code = c;
  message = message;
  method = method;
  error_code = from_code c;
}

-- The causes of an error, outermost first: an error of the server, or anything else.
pub data Cause : Type 0 where
  rpc_cause : SorobanRpcError → Cause
  other_cause : Str → Cause

unfoldable pub is_non_retryable_rpc_error : List Cause → Bool
unfolding is_permanent
is_non_retryable_rpc_error [] = false
is_non_retryable_rpc_error (rpc_cause e ∷ rest) = is_permanent e.error_code
is_non_retryable_rpc_error (other_cause s ∷ rest) = is_non_retryable_rpc_error rest

pub record EventFilter : Type 0 where
  pub filter_type : Str
  pub contract_ids : List Str

abbrev pub max_ids_per_filter : ℕ
max_ids_per_filter = 5

abbrev pub max_filters : ℕ
max_filters = 5

-- `chunks` of the standard library, for a number of chunks.
unfoldable pub chunks : {A : Type 0} → ℕ → ℕ → List A → List (List A)
chunks zero size xs = []
chunks (suc fuel) size [] = []
chunks (suc fuel) size (x ∷ xs) =
    let rest = chunks fuel size (drop size (x ∷ xs)) in take size (x ∷ xs) ∷ rest

unfoldable pub filter_of : List Str → EventFilter
filter_of ids = record { filter_type = lit "contract"; contract_ids = ids }

unfoldable pub map_filters : List (List Str) → List EventFilter
unfolding filter_of
map_filters [] = []
map_filters (ids ∷ rest) = filter_of ids ∷ map_filters rest

-- The error is the number of contracts that its message gives.
unfoldable pub event_filters : List Str → Result ℕ (List EventFilter)
unfolding map_filters filter_of chunks
event_filters ids =
    if ltb (max_ids_per_filter * max_filters) (length ids)
    then err (length ids)
    else if is_nil ids
    then ok (filter_of [] ∷ [])
    else ok (map_filters (chunks (length ids) max_ids_per_filter ids))

pub record GetEventsParams : Type 0 where
  pub start_ledger : Option ℕ
  pub filters : List EventFilter
  pub limit : ℕ
  pub cursor : Option Str
  pub xdr_format : Str

-- The parameters that `get_events` sends.
unfoldable pub get_events_params : Option ℕ → List Str → Option Str → ℕ → Result ℕ GetEventsParams
unfolding event_filters
get_events_params start_ledger ids cursor limit = elim (event_filters ids) [
  | err n ↦ err n
  | ok filters ↦ ok (record {
    start_ledger = elim cursor [ none ↦ start_ledger | some c ↦ none ];
    filters = filters;
    limit = limit;
    cursor = cursor;
    xdr_format = lit "base64";
  })
]
