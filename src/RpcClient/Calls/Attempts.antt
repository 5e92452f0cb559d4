-- ===== src/RpcClient/Calls/Attempts.antt =====
-- The attempts of a call at one endpoint: what they keep of the client, and what they return.
use lumenqraph.Base.{ℕ, zero, suc, ◌+◌, ◌*◌, ◌/◌, ◌≤◌, ◌≡◌, refl, ◌∙◌, Option, none, some, arith}
use lumenqraph.Base.Str.{Str}
use lumenqraph.Base.Result.{Result, ok}
use lumenqraph.RpcClient.{SorobanRpcError, new_error}
use lumenqraph.RpcClient.Failover.{Client, fetch_add}
use lumenqraph.RpcClient.Network.{
  Reply, request_failed, http_error, undecodable, answered, CallError, Network,
}
use lumenqraph.RpcClient.Calls.{
  AttemptOutcome, returned, retried, settle_rpc_error, settle_reply, base_delay, delay_ms, Tried,
  finished, pause, attempts,
}

-- What the attempts leave of a client: the failover, the pinned network, and their number.
pub record IsKept (c d : Client) : Type 0 where
  pub failover : d.failover ≡ c.failover
  pub pinned : d.network_passphrase ≡ c.network_passphrase
  pub made : d.calls_made ≡ c.calls_made

pub IsKept-trans : {b c d : Client} → IsKept b c → IsKept c d → IsKept b d
IsKept-trans f g = record {
  failover = g.failover ∙ f.failover;
  pinned = g.pinned ∙ f.pinned;
  made = g.made ∙ f.made;
}

settle_rpc_error-IsKept :
    (R : Type 0) (e : SorobanRpcError) (c : Client) → IsKept c (settle_rpc_error {R = R} e c).0
unfolding settle_rpc_error
settle_rpc_error-IsKept R e c = record {
  failover = ground arith;
  pinned = ground arith;
  made = ground arith;
}

pub settle_reply-IsKept :
    {R : Type 0} (method : Str) (r : Reply R) (c : Client) → IsKept c (settle_reply method r c).0
unfolding settle_reply
settle_reply-IsKept method (request_failed e) c = record {
  failover = refl;
  pinned = refl;
  made = refl;
}
settle_reply-IsKept method (http_error status) c = record {
  failover = ground arith;
  pinned = ground arith;
  made = ground arith;
}
settle_reply-IsKept method (undecodable e) c = record {
  failover = refl;
  pinned = refl;
  made = refl;
}
settle_reply-IsKept {R} method (answered result (some (code, message))) c =
    let k =
      settle_rpc_error-IsKept R (new_error code message method)
        (record c { calls_failed = fetch_add c.calls_failed }) in
    record { failover = k.failover; pinned = k.pinned; made = k.made }
settle_reply-IsKept method (answered result none) c = record {
  failover = refl;
  pinned = refl;
  made = refl;
}

settle_rpc_error-returned :
    {R : Type 0} (e : SorobanRpcError) (c d : Client)
    → (settle_rpc_error {R = R} e c).1 ≡ (settle_rpc_error {R = R} e d).1
unfolding settle_rpc_error
settle_rpc_error-returned e c d = ground arith

-- The counters do not matter to what an attempt comes to.
pub settle_reply-returned :
    {R : Type 0} (method : Str) (r : Reply R) (c d : Client)
    → (settle_reply method r c).1 ≡ (settle_reply method r d).1
unfolding settle_reply
settle_reply-returned method (request_failed e) c d = refl
settle_reply-returned method (http_error status) c d = ground arith
settle_reply-returned method (undecodable e) c d = refl
settle_reply-returned method (answered result (some (code, message))) c d =
    settle_rpc_error-returned (new_error code message method) _ _
settle_reply-returned method (answered result none) c d = refl

-- A call that succeeds returns the result of an answer without an error.
pub settle_reply-ok :
    {R : Type 0} (method : Str) (r : Reply R) (c : Client) (x : R)
    → (settle_reply method r c).1 ≡ returned (ok x)
    → r ≡ answered (some x) none
unfolding settle_reply settle_rpc_error
settle_reply-ok method (request_failed e) c x h = cc
settle_reply-ok method (http_error status) c x h = ground (arith, h)
settle_reply-ok method (undecodable e) c x h = cc
settle_reply-ok method (answered result (some (code, message))) c x h = ground (arith, h)
settle_reply-ok method (answered none none) c x h = cc
settle_reply-ok method (answered (some y) none) c x h = cc

-- The delay before the second and the third attempt is within a quarter of a second, or half a
-- second, of its base, for every random number that the generator may return.
pub delay_ms-bounds :
    (attempt random : ℕ)
    → random ≤ base_delay attempt / 2
    → (base_delay attempt * 3 ≤ delay_ms attempt random * 4)
      × (delay_ms attempt random * 4 ≤ base_delay attempt * 5)
unfolding delay_ms base_delay
delay_ms-bounds zero random h = omega arith
delay_ms-bounds (suc zero) random h = omega arith
delay_ms-bounds (suc (suc k)) random h = omega arith

-- The client with one more attempt counted.
abbrev pub counted : Client → Client
counted c = record c { calls_made = fetch_add c.calls_made }

module _ {W R : Type 0} (net : Network W R) (method : Str) where
  -- The answer to the next attempt, and what it comes to.
  abbrev pub posted : ℕ → Str → W → W × Reply R
  posted attempt url w = net.post (pause net method attempt w) url

  abbrev pub settled : ℕ → Str → W → Client → Client × AttemptOutcome R
  settled attempt url w c = settle_reply method (posted attempt url w).1 (counted c)

  pub attempts_returned :
      (n attempt : ℕ) (url : Str) (last : Option CallError) (w : W) (c : Client)
      (r : Result CallError R)
      → (settled attempt url w c).1 ≡ returned r
      → attempts net method (suc n) attempt url last w c
        ≡ ((posted attempt url w).0, (settled attempt url w c).0, finished r)
  unfolding attempts
  attempts_returned n attempt url last w c r q = rw (attempts, q) refl

  pub attempts_retried :
      (n attempt : ℕ) (url : Str) (last : Option CallError) (w : W) (c : Client) (e : CallError)
      → (settled attempt url w c).1 ≡ retried e
      → attempts net method (suc n) attempt url last w c
        ≡ attempts net method n
            (attempt + 1)
            url
            (some e)
            (posted attempt url w).0
            (settled attempt url w c).0
  unfolding attempts
  attempts_retried n attempt url last w c e q = rw (attempts, q) refl

  -- An answer of an endpoint, without an error, that has just arrived.
  abbrev pub HasAnswered : Str → W → R → Type 0
  HasAnswered url w x =
      (before : W) × (w ≡ (net.post before url).0)
      × ((net.post before url).1 ≡ answered (some x) none)

  -- What the attempts at one endpoint do, from a client to another.
  pub record IsTried (url : Str) (c : Client) (t : W × Client × Tried R) : Type 0 where
    pub failover : t.1.failover ≡ c.failover
    pub pinned : t.1.network_passphrase ≡ c.network_passphrase
    pub answer : (x : R) → t.2 ≡ finished (ok x) → HasAnswered url t.0 x

  pub attempts-IsTried :
      (n attempt : ℕ) (url : Str) (last : Option CallError) (w : W) (c : Client)
      → IsTried url c (attempts net method n attempt url last w c)
  unfolding attempts
  attempts-IsTried zero attempt url last w c = record {
    failover = refl;
    pinned = refl;
    answer = λ x e. cc;
  }
  attempts-IsTried (suc n) attempt url last w c = go (settled attempt url w c).1 refl (λ e.
      attempts-IsTried n (attempt + 1) url (some e) (posted attempt url w).0
        (settled attempt url w c).0)
    where
      k : IsKept (counted c) (settled attempt url w c).0
      k = settle_reply-IsKept method (posted attempt url w).1 (counted c)

      go :
          (o : AttemptOutcome R)
          → (settled attempt url w c).1 ≡ o
          → ((e : CallError)
              → IsTried url (settled attempt url w c).0 (
                  attempts net method n
                    (attempt + 1)
                    url
                    (some e)
                    (posted attempt url w).0
                    (settled attempt url w c).0))
          → IsTried url c (attempts net method (suc n) attempt url last w c)
      go (returned r) q ih = rw (attempts_returned n attempt url last w c r q) (record {
        failover = k.failover;
        pinned = k.pinned;
        answer = λ x e. (
          pause net method attempt w,
          refl,
          settle_reply-ok method (posted attempt url w).1 (counted c) x (q ∙ cc),
        );
      })
      go (retried e) q ih = rw (attempts_retried n attempt url last w c e q) (record {
        failover = (ih e).failover ∙ k.failover;
        pinned = (ih e).pinned ∙ k.pinned;
        answer = (ih e).answer;
      })
