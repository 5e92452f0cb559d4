-- ===== src/RpcClient/Calls/Reference.antt =====
-- A call against endpoints that answer the same each time: the reference is a walk down the list
-- that asks each endpoint once.
use lumenqraph.Base.{
  ℕ, zero, suc, ◌+◌, ◌-◌, ◌≤◌, ◌<◌, ◌==◌, ◌≡◌, refl, ap, ◌∙◌, Bool, false, Option, none, some, List,
  [], ◌∷◌, length, drop, min, arith, if◌then◌else◌, Bool-cases, inl, inr,
}
use lumenqraph.Base.Str.{Str}
use lumenqraph.Base.Result.{Result, err}
use lumenqraph.RpcClient.Failover.{Client, with_urls, try_failover}
use lumenqraph.RpcClient.Network.{
  Reply, CallError, all_failed, Network, nth, url_at, passphrase_of, compared,
  check_endpoint_network,
}
use lumenqraph.RpcClient.Calls.{
  AttemptOutcome, returned, retried, settle_reply, finished, exhausted, attempts, check_active,
}
use lumenqraph.RpcClient.Calls.Attempts.{
  counted, settled, settle_reply-returned, attempts_returned, attempts_retried,
}

module _ {R : Type 0} (method : Str) (reply : Str → Reply R) (report : Str → Reply Str) where
  -- What an endpoint's answer comes to, for a client that has made no call.
  abbrev pub verdict : Str → AttemptOutcome R
  verdict url = (settle_reply method (reply url) with_urls).1

  -- The check of an endpoint against the pinned passphrase.
  unfoldable pub mismatch : Option Str → Str → Option CallError
  unfolding passphrase_of
  mismatch none url = none
  mismatch (some expected) url = compared url expected (passphrase_of (report url))

  -- The first endpoint whose check fails or whose answer is final; of the endpoints, the first is
  -- check_active only if it is not the primary.
  unfoldable pub first_settled :
      Option Str → Bool → ℕ → Option CallError → List Str → Result CallError R
  unfolding mismatch settle_reply with_urls
  first_settled pinned primary total last [] =
      err (elim last [ none ↦ all_failed total | some e ↦ e ])
  first_settled pinned primary total last (url ∷ rest) =
      elim (if primary then none else mismatch pinned url) [
        | some e ↦ err e
        | none ↦ elim (verdict url) [
          | returned r ↦ r
          | retried e ↦ first_settled pinned false total (some e) rest
        ]
      ]

-- The endpoints answer a request the same each time.
pub record IsStatic {W R : Type 0} (net : Network W R) (reply : Str → Reply R)
    (report : Str → Reply Str) : Type 0 where
  pub posts : (w : W) (url : Str) → (net.post w url).1 ≡ reply url
  pub networks : (w : W) (url : Str) → (net.get_network w url).1 ≡ report url

drop-nth :
    (urls : List Str) (i : ℕ) → i < length urls → drop i urls ≡ nth urls i ∷ drop (suc i) urls
drop-nth [] i h = absurd (omega arith)
drop-nth (u ∷ us) zero h = refl
drop-nth (u ∷ us) (suc i) h = drop-nth us i (omega arith)

pub drop_all : (urls : List Str) (n : ℕ) → length urls ≤ n → drop n urls ≡ []
drop_all [] zero h = refl
drop_all [] (suc n) h = refl
drop_all (u ∷ us) zero h = absurd (omega arith)
drop_all (u ∷ us) (suc n) h = drop_all us n (omega arith)

pub drop-url_at :
    (urls : List Str) (i : ℕ) → i < length urls → drop i urls ≡ url_at urls i ∷ drop (suc i) urls
unfolding url_at
drop-url_at urls i h =
    let e : min i (length urls - 1) ≡ i = omega arith in rw (url_at, e) (drop-nth urls i h)

module _ {W R : Type 0} (net : Network W R) (reply : Str → Reply R) (report : Str → Reply Str)
    (static : IsStatic net reply report) (method : Str) where
  pub settled-verdict :
      (attempt : ℕ) (url : Str) (w : W) (c : Client)
      → (settled net method attempt url w c).1 ≡ verdict method reply report url
  settled-verdict attempt url w c =
      ap (λ r. (settle_reply method r (counted c)).1) (static.posts _ url)
      ∙ settle_reply-returned method (reply url) (counted c) with_urls

  pub attempts_final :
      (n attempt : ℕ) (url : Str) (last : Option CallError) (w : W) (c : Client)
      (r : Result CallError R)
      → verdict method reply report url ≡ returned r
      → (attempts net method (suc n) attempt url last w c).2 ≡ finished r
  attempts_final n attempt url last w c r v =
      rw
        (attempts_returned net method n attempt url last w c r
          (settled-verdict attempt url w c ∙ v))
        refl

  attempts_transient :
      (n attempt : ℕ) (url : Str) (w : W) (c : Client) (e : CallError)
      → verdict method reply report url ≡ retried e
      → (attempts net method n attempt url (some e) w c).2 ≡ exhausted (some e)
  unfolding attempts
  attempts_transient zero attempt url w c e v = refl
  attempts_transient (suc n) attempt url w c e v =
      rw
        (attempts_retried net method n attempt url (some e) w c e
          (settled-verdict attempt url w c ∙ v))
        (attempts_transient n (attempt + 1) url _ _ e v)

  pub attempts_transient_first :
      (n attempt : ℕ) (url : Str) (last : Option CallError) (w : W) (c : Client) (e : CallError)
      → verdict method reply report url ≡ retried e
      → (attempts net method (suc n) attempt url last w c).2 ≡ exhausted (some e)
  attempts_transient_first n attempt url last w c e v =
      rw
        (attempts_retried net method n attempt url last w c e (settled-verdict attempt url w c ∙ v))
        (attempts_transient n (attempt + 1) url _ _ e v)

  module _ (urls : List Str) where
    unfoldable pub next_of : Client → ℕ
    next_of c = min (c.failover.active_idx + 1) (length urls - 1)

    pub try_failover-next :
        (now : ℕ) (c d : Client)
        → d.failover ≡ c.failover
        → ((try_failover urls now c.failover.active_idx d).1 ≡ next_of c)
          × ((try_failover urls now c.failover.active_idx d).0.failover.active_idx ≡ next_of c)
          × ((try_failover urls now c.failover.active_idx d).0.network_passphrase
              ≡ d.network_passphrase)
    unfolding try_failover next_of
    try_failover-next now c d e =
        let same : d.failover.active_idx ≡ c.failover.active_idx = ap (λ s. s.active_idx) e in
        (ground (arith, same), ground (arith, same), ground (arith, same))

    pub check_active-mismatch :
        (w : W) (c : Client)
        → (check_active net method urls w c).1 ≡ (
            if c.failover.active_idx == 0
            then none
            else mismatch method reply report c.network_passphrase
                (url_at urls c.failover.active_idx))
    unfolding check_active mismatch
    check_active-mismatch w c = elim (Bool-cases (c.failover.active_idx == 0)) [
      | inl e ↦ rw (check_active, e) refl
      | inr e ↦ rw (check_active, e) (asked c.network_passphrase refl)
    ]
      where
        asked :
            (o : Option Str)
            → c.network_passphrase ≡ o
            → (check_endpoint_network net urls c.failover.active_idx w c).1
              ≡ mismatch method reply report c.network_passphrase
                  (url_at urls c.failover.active_idx)
        asked none q = rw (check_endpoint_network, mismatch, q) refl
        asked (some expected) q =
            rw
              (
                check_endpoint_network,
                mismatch,
                q,
                static.networks w (url_at urls c.failover.active_idx),
              )
              refl

    -- What the reference does at the active endpoint and after it.
    abbrev pub expected_of : Option CallError → Client → Result CallError R
    expected_of last c =
        first_settled method reply report c.network_passphrase (c.failover.active_idx == 0)
          (length urls) last (drop c.failover.active_idx urls)

    -- The reference, from what the check and the answer of the active endpoint come to.
    module _ (last : Option CallError) (c : Client)
        (inside : c.failover.active_idx < length urls) where
      abbrev pub check_of : Option CallError
      check_of =
          if c.failover.active_idx == 0
          then none
          else mismatch method reply report c.network_passphrase (url_at urls c.failover.active_idx)

      abbrev pub verdict_of : AttemptOutcome R
      verdict_of = verdict method reply report (url_at urls c.failover.active_idx)

      pub expected-refused : (e : CallError) → check_of ≡ some e → expected_of last c ≡ err e
      unfolding first_settled
      expected-refused e q =
          rw (drop-url_at urls c.failover.active_idx inside, first_settled, q) refl

      pub expected-returned :
          (r : Result CallError R)
          → check_of ≡ none
          → verdict_of ≡ returned r
          → expected_of last c ≡ r
      unfolding first_settled
      expected-returned r q v =
          rw (drop-url_at urls c.failover.active_idx inside, first_settled, q, v) refl

      pub expected-retried :
          (e : CallError)
          → check_of ≡ none
          → verdict_of ≡ retried e
          → expected_of last c
            ≡ first_settled method reply report c.network_passphrase false
                (length urls)
                (some e)
                (drop (suc c.failover.active_idx) urls)
      unfolding first_settled
      expected-retried e q v =
          rw (drop-url_at urls c.failover.active_idx inside, first_settled, q, v) refl
