-- ===== src/RpcClient/Calls/Agreement.antt =====
-- The walk of a call over the endpoints that answer the same each time.
use lumenqraph.Base.{
  ℕ, zero, suc, ◌+◌, ◌≤◌, ◌<◌, ◌==◌, ◌≡◌, refl, sym, ap, ◌∙◌, false, Option, none, some, List,
  length, drop, arith,
}
use lumenqraph.Base.Str.{Str}
use lumenqraph.Base.Result.{Result}
use lumenqraph.RpcClient.Failover.{Client}
use lumenqraph.RpcClient.Failover.Interleaved.{IsConsistent, fail_back-IsConsistent}
use lumenqraph.RpcClient.Network.{Reply, CallError, Network, url_at, maybe_probe_primary}
use lumenqraph.RpcClient.Calls.{
  AttemptOutcome, returned, retried, finished, exhausted, give_up, check_active, url_rounds, call,
  max_attempts_per_url,
}
use lumenqraph.RpcClient.Calls.Attempts.{IsTried, attempts-IsTried}
use lumenqraph.RpcClient.Calls.Rounds.{
  round, advanced, RoundCase, refused, served, ended, moved, url_rounds-cases,
}
use lumenqraph.RpcClient.Calls.Reference.{
  first_settled, IsStatic, drop_all, attempts_final, attempts_transient_first, next_of,
  try_failover-next, check_active-mismatch, expected_of, check_of, verdict_of, expected-refused,
  expected-returned, expected-retried,
}

not_zero : (n : ℕ) → (suc n == 0) ≡ false
not_zero n = ground arith

module _ {W R : Type 0} (net : Network W R) (reply : Str → Reply R) (report : Str → Reply Str)
    (static : IsStatic net reply report) (method : Str) (urls : List Str) where
  abbrev expected : Option CallError → Client → Result CallError R
  expected = expected_of net reply report static method urls

  module _ (last : Option CallError) (w : W) (c : Client)
      (inside : c.failover.active_idx < length urls) where
    abbrev Checked : Type 0
    Checked = (check_active net method urls w c).1 ≡ none

    abbrev verdict_here : AttemptOutcome R
    verdict_here = verdict_of net reply report static method urls last c inside

    same_check :
        {o : Option CallError}
        → (check_active net method urls w c).1 ≡ o
        → check_of net reply report static method urls last c inside ≡ o
    same_check q = sym (check_active-mismatch net reply report static method urls w c) ∙ q

    -- The verdict behind a round that returned.
    served-expected :
        (r : Result CallError R)
        → Checked
        → (round net method urls last w c).2 ≡ finished r
        → expected last c ≡ r
    served-expected r q f = go verdict_here refl
      where
        go : (o : AttemptOutcome R) → verdict_here ≡ o → expected last c ≡ r
        go (returned r') v =
            let e =
              attempts_final net reply report static method 2 0 (url_at urls c.failover.active_idx)
                last (check_active net method urls w c).0 c r' v in
            let same : r' ≡ r = cc in
            expected-returned net reply report static method urls last c inside r' (same_check q) v
            ∙ same
        go (retried x) v =
            let e =
              attempts_transient_first net reply report static method 2 0
                (url_at urls c.failover.active_idx) last (check_active net method urls w c).0 c x
                v in
            cc

    -- The verdict behind a round that was exhausted.
    exhausted-expected :
        (last' : Option CallError)
        → Checked
        → (round net method urls last w c).2 ≡ exhausted last'
        → expected last c
          ≡ first_settled method reply report c.network_passphrase false
              (length urls)
              last'
              (drop (suc c.failover.active_idx) urls)
    exhausted-expected last' q f = go verdict_here refl
      where
        go :
            (o : AttemptOutcome R)
            → verdict_here ≡ o
            → expected last c
              ≡ first_settled method reply report c.network_passphrase false
                  (length urls)
                  last'
                  (drop (suc c.failover.active_idx) urls)
        go (returned r') v =
            let e =
              attempts_final net reply report static method 2 0 (url_at urls c.failover.active_idx)
                last (check_active net method urls w c).0 c r' v in
            cc
        go (retried x) v =
            let e =
              attempts_transient_first net reply report static method 2 0
                (url_at urls c.failover.active_idx) last (check_active net method urls w c).0 c x
                v in
            let same : some x ≡ last' = cc in
            expected-retried net reply report static method urls last c inside x (same_check q) v
            ∙ ap
                (λ l.
                  first_settled method reply report c.network_passphrase false (length urls) l
                    (drop (suc c.failover.active_idx) urls))
                same

  url_rounds-first_settled :
      (n : ℕ) (last : Option CallError) (w : W) (c : Client)
      → c.failover.active_idx < length urls
      → length urls ≤ c.failover.active_idx + n
      → (url_rounds net method urls n last w c).2 ≡ expected last c
  unfolding next_of give_up first_settled
  url_rounds-first_settled zero last w c inside enough = absurd (omega arith)
  url_rounds-first_settled (suc n) last w c inside enough =
      go (url_rounds-cases net method urls n last w c) (λ last' i e.
        url_rounds-first_settled n last' (round net method urls last w c).0
          (advanced net method urls last w c).0 i e)
    where
      kept :
          IsTried net method (url_at urls c.failover.active_idx) c (round net method urls last w c)
      kept =
          attempts-IsTried net method max_attempts_per_url 0 (url_at urls c.failover.active_idx)
            last (check_active net method urls w c).0 c

      next :
          ((advanced net method urls last w c).1 ≡ next_of net reply report static method urls c)
          × ((advanced net method urls last w c).0.failover.active_idx
              ≡ next_of net reply report static method urls c)
          × ((advanced net method urls last w c).0.network_passphrase
              ≡ (round net method urls last w c).1.network_passphrase)
      next =
          try_failover-next net reply report static method urls
            (net.now (round net method urls last w c).0) c (round net method urls last w c).1
            kept.failover

      go :
          RoundCase net method urls n last w c
          → ((last' : Option CallError)
              → (advanced net method urls last w c).0.failover.active_idx < length urls
              → length urls ≤ (advanced net method urls last w c).0.failover.active_idx + n
              → (url_rounds net method urls n last'
                  (round net method urls last w c).0
                  (advanced net method urls last w c).0).2
                ≡ expected last' (advanced net method urls last w c).0)
          → (url_rounds net method urls (suc n) last w c).2 ≡ expected last c
      go (refused e q eq) ih = rw eq (
          sym (
            expected-refused net reply report static method urls last c inside e
              (same_check last w c inside q)))
      go (served r q f eq) ih = rw eq (sym (served-expected last w c inside r q f))
      go (ended last' q f e eq) ih =
          let at_end : length urls ≤ suc c.failover.active_idx =
            ground (arith, e, next.0, inside) in
          rw
            (
              eq,
              exhausted-expected last w c inside last' q f,
              drop_all urls (suc c.failover.active_idx) at_end,
            )
            refl
      go (moved last' q f e eq) ih =
          let here : (advanced net method urls last w c).0.failover.active_idx
              ≡ suc c.failover.active_idx =
            ground (arith, e, next.0, next.1, inside) in
          let same : expected last' (advanced net method urls last w c).0
              ≡ first_settled method reply report c.network_passphrase false (length urls) last'
                  (drop (suc c.failover.active_idx) urls) =
            rw (here, next.2 ∙ kept.pinned, not_zero c.failover.active_idx) refl in
          rw eq (
            ih last' (ground (arith, here, e, next.0, inside)) (omega (arith, here, enough))
            ∙ (same ∙ sym (exhausted-expected last w c inside last' q f)))

  probed_inside :
      (w : W) (c : Client)
      → IsConsistent urls c
      → (maybe_probe_primary net urls w c).1.failover.active_idx < length urls
  unfolding maybe_probe_primary
  probed_inside w c i = ground (arith, i.in_range, (fail_back-IsConsistent urls c i).in_range)

  -- Against endpoints that answer the same each time, a call by a consistent client returns what
  -- the first endpoint whose check fails or whose answer is final gives, from the active endpoint
  -- on, and the last error if there is none; the active endpoint is the one after the probe of the
  -- primary, and each endpoint counts only by what its first answer comes to.
  pub call-first_settled :
      (w : W) (c : Client)
      → IsConsistent urls c
      → (call net method urls w c).2
        ≡ first_settled method reply report
            (maybe_probe_primary net urls w c).1.network_passphrase
            ((maybe_probe_primary net urls w c).1.failover.active_idx == 0)
            (length urls)
            none
            (drop (maybe_probe_primary net urls w c).1.failover.active_idx urls)
  unfolding call
  call-first_settled w c i =
      url_rounds-first_settled (length urls) none (maybe_probe_primary net urls w c).0
        (maybe_probe_primary net urls w c).1 (probed_inside w c i) (omega arith)
