-- ===== src/RpcClient/Calls.antt =====
-- `call_with_cursor` of crates/lumenqraph-indexer/src/rpc_client.rs, for one call at a time. Its cursor
-- is not a parameter, since the code does not use it.
pub mod Attempts
pub mod Rounds
pub mod Served
pub mod Counted
pub mod Spread
pub mod Reference
pub mod Agreement
use lumenqraph.Base.{
  ℕ, zero, suc, ◌+◌, ◌-◌, ◌/◌, ◌==◌, max, Bool, true, false, ◌&&◌, ◌||◌, Option, none, some, List,
  length, ltb, leb, if◌then◌else◌,
}
use lumenqraph.Base.Int.{ℤ, pos, negsuc}
use lumenqraph.Base.Str.{Str}
use lumenqraph.Base.Result.{Result, ok, err, ok_or}
use lumenqraph.RpcClient.{is_retryable, SorobanRpcError, new_error}
use lumenqraph.RpcClient.Failover.{Client, fetch_add, try_failover}
use lumenqraph.RpcClient.Network.{
  Reply, request_failed, http_error, undecodable, answered, CallError, request_error, http_status,
  decode_error, rpc_error, no_result, all_failed, Network, url_at, check_endpoint_network,
  maybe_probe_primary,
}

-- What an attempt comes to: the call returns, or the endpoint is tried again.
pub data AttemptOutcome (R : Type 0) : Type 0 where
  returned : Result CallError R → AttemptOutcome R
  retried : CallError → AttemptOutcome R

-- A server error is a status from 500 to 599.
unfoldable pub is_retryable_status : Option ℕ → Bool
is_retryable_status none = false
is_retryable_status (some s) = (leb 500 s && ltb s 600) || s == 429

abbrev is_32001 : ℤ → Bool
is_32001 (pos n) = false
is_32001 (negsuc n) = n == 32000

unfoldable pub settle_rpc_error :
    {R : Type 0} → SorobanRpcError → Client → Client × AttemptOutcome R
unfolding is_retryable
settle_rpc_error e c =
    if is_retryable e.error_code
    then (
      (if is_32001 e.code
          then record c { calls_failed_32001 = fetch_add c.calls_failed_32001 }
          else c),
      retried (rpc_error e),
    )
    else (c, returned (err (rpc_error e)))

-- What the body of the loop does with what comes back.
unfoldable pub settle_reply : {R : Type 0} → Str → Reply R → Client → Client × AttemptOutcome R
unfolding is_retryable_status settle_rpc_error new_error
settle_reply method (request_failed e) c = (c, retried (request_error e))
settle_reply method (http_error status) c =
    if is_retryable_status status
    then (c, retried (http_status status))
    else (record c { calls_failed = fetch_add c.calls_failed }, returned (err (http_status status)))
settle_reply method (undecodable e) c = (c, retried (decode_error e))
settle_reply method (answered result (some (code, message))) c =
    settle_rpc_error (new_error code message method)
      (record c { calls_failed = fetch_add c.calls_failed })
settle_reply method (answered result none) c = (c, returned (ok_or no_result result))

-- `BASE_DELAYS_MS`, from the second attempt on.
unfoldable pub base_delay : ℕ → ℕ
base_delay (suc zero) = 1_000
base_delay _ = 2_000

-- The sum is an `i64` that is not negative: the jitter is at least a quarter below 0.
unfoldable pub delay_ms : ℕ → ℕ → ℕ
unfolding base_delay
delay_ms attempt random = max (base_delay attempt + random - base_delay attempt / 4) 1

-- The result of the attempts at one endpoint: the call's, or the last error.
pub data Tried (R : Type 0) : Type 0 where
  finished : Result CallError R → Tried R
  exhausted : Option CallError → Tried R

abbrev pub max_attempts_per_url : ℕ
max_attempts_per_url = 3

module _ {W R : Type 0} (net : Network W R) (method : Str) where
  unfoldable pub pause : ℕ → W → W
  unfolding delay_ms base_delay
  pause zero w = w
  pause (suc k) w =
      net.sleep (net.gen_range w (base_delay (suc k) / 2)).0
        (delay_ms (suc k) (net.gen_range w (base_delay (suc k) / 2)).1)

  -- The attempts that remain at an endpoint, with the number of those that were made.
  unfoldable pub attempts : ℕ → ℕ → Str → Option CallError → W → Client → W × Client × Tried R
  unfolding pause settle_reply
  attempts zero attempt url last_err w c = (w, c, exhausted last_err)
  attempts (suc n) attempt url last_err w c =
      let posted : W × Reply R = net.post (pause attempt w) url in
      let settled : Client × AttemptOutcome R =
        settle_reply method posted.1 (record c { calls_made = fetch_add c.calls_made }) in
      elim settled.1 [
        | returned r ↦ (posted.0, settled.0, finished r)
        | retried e ↦ attempts n (attempt + 1) url (some e) posted.0 settled.0
      ]

  module _ (urls : List Str) where
    unfoldable pub give_up : Option CallError → W → Client → W × Client × Result CallError R
    give_up last_err w c = (
      w,
      record c { calls_failed = fetch_add c.calls_failed },
      err (elim last_err [ none ↦ all_failed (length urls) | some e ↦ e ]),
    )

    -- The check before traffic goes to an endpoint that is not the primary.
    unfoldable pub check_active : W → Client → W × Option CallError
    unfolding check_endpoint_network
    check_active w c =
        if c.failover.active_idx == 0
        then (w, none)
        else check_endpoint_network net urls c.failover.active_idx w c

    -- The rounds that remain, one for each endpoint at most.
    unfoldable pub url_rounds : ℕ → Option CallError → W → Client → W × Client × Result CallError R
    unfolding give_up check_active attempts url_at try_failover
    url_rounds zero last_err w c = give_up last_err w c
    url_rounds (suc n) last_err w c =
        let check : W × Option CallError = check_active w c in
        elim check.1 [
          | some e ↦ (check.0, c, err e)
          | none ↦
              let tried : W × Client × Tried R =
                attempts max_attempts_per_url 0 (url_at urls c.failover.active_idx) last_err check.0
                  c in
              elim tried.2 [
                | finished r ↦ (tried.0, tried.1, r)
                | exhausted last' ↦
                    let next : Client × ℕ =
                      try_failover urls (net.now tried.0) c.failover.active_idx tried.1 in
                    let rest = url_rounds n last' tried.0 next.0 in
                    if next.1 == c.failover.active_idx then give_up last' tried.0 next.0 else rest
              ]
        ]

    unfoldable pub call : W → Client → W × Client × Result CallError R
    unfolding maybe_probe_primary url_rounds
    call w c =
        url_rounds (length urls) none (maybe_probe_primary net urls w c).0
          (maybe_probe_primary net urls w c).1
