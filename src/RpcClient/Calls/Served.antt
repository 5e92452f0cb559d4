-- ===== src/RpcClient/Calls/Served.antt =====
-- What a call that succeeds has been served by.
use lumenqraph.Base.{
  ℕ, zero, suc, ◌==◌, ◌≡◌, ◌≢◌, refl, ap, sym, ◌∙◌, false, Option, none, some, List, length, arith,
  Bool-cases, inl, inr,
}
use mathlib.Core.Path.{subst}
use lumenqraph.Base.Str.{Str, str_eq, eq_of_str_eq}
use lumenqraph.Base.Result.{Result, ok, err}
use lumenqraph.RpcClient.Failover.{Client, try_failover, fail_back}
use lumenqraph.RpcClient.Network.{
  CallError, Network, url_at, passphrase_of, check_endpoint_network, maybe_probe_primary,
}
use lumenqraph.RpcClient.Network.Pinned.{HasReported}
use lumenqraph.RpcClient.Calls.{
  give_up, check_active, url_rounds, call, max_attempts_per_url, finished,
}
use lumenqraph.RpcClient.Calls.Attempts.{HasAnswered, IsTried, attempts-IsTried}
use lumenqraph.RpcClient.Calls.Rounds.{
  round, advanced, RoundCase, refused, served, ended, moved, url_rounds-cases,
}

pub fail_back-pinned : (c : Client) → (fail_back c).network_passphrase ≡ c.network_passphrase
unfolding fail_back
fail_back-pinned c = ground arith

pub try_failover-pinned :
    (urls : List Str) (now from_idx : ℕ) (c : Client)
    → (try_failover urls now from_idx c).0.network_passphrase ≡ c.network_passphrase
unfolding try_failover
try_failover-pinned urls now from_idx c = ground arith

module _ {W R : Type 0} (net : Network W R) (method : Str) (urls : List Str) where
  -- The check of an endpoint that is not the primary has seen the pinned passphrase.
  check_active-reported :
      (w : W) (c : Client) (p : Str)
      → (check_active net method urls w c).1 ≡ none
      → c.failover.active_idx ≢ 0
      → c.network_passphrase ≡ some p
      → HasReported net (url_at urls c.failover.active_idx) p
  unfolding check_active check_endpoint_network
  check_active-reported w c p q not_primary pinned =
      go (passphrase_of (net.get_network w (url_at urls c.failover.active_idx)).1) refl
    where
      away : (c.failover.active_idx == 0) ≡ false
      away = ground (arith, not_primary)

      go :
          (r : Result CallError Str)
          → passphrase_of (net.get_network w (url_at urls c.failover.active_idx)).1 ≡ r
          → HasReported net (url_at urls c.failover.active_idx) p
      go (err e) e' = let x = rw (check_active, away, check_endpoint_network, pinned, e') at q in cc
      go (ok a) e' = elim (Bool-cases (str_eq a p)) [
        | inl same ↦ let found : a ≡ p = eq_of_str_eq a p same in (w, e' ∙ ap ok found)
        | inr other ↦
            let x = rw (check_active, away, check_endpoint_network, pinned, e', other) at q in cc
      ]

  -- The answer that a call returns, from an endpoint whose network is verified.
  pub record IsServed (c : Client) (t : W × Client × Result CallError R) (x : R) : Type 0 where
    pub answer : HasAnswered net method (url_at urls t.1.failover.active_idx) t.0 x
    pub verified :
        (p : Str)
        → c.network_passphrase ≡ some p
        → t.1.failover.active_idx ≢ 0
        → HasReported net (url_at urls t.1.failover.active_idx) p

  url_rounds-IsServed :
      (n : ℕ) (last : Option CallError) (w : W) (c : Client) (x : R)
      → (url_rounds net method urls n last w c).2 ≡ ok x
      → IsServed c (url_rounds net method urls n last w c) x
  unfolding url_rounds give_up
  url_rounds-IsServed zero last w c x h = cc
  url_rounds-IsServed (suc n) last w c x h =
      go (url_rounds-cases net method urls n last w c) (λ last' q.
        url_rounds-IsServed n last' (round net method urls last w c).0
          (advanced net method urls last w c).0 x q)
    where
      tried :
          IsTried net method (url_at urls c.failover.active_idx) c (round net method urls last w c)
      tried =
          attempts-IsTried net method max_attempts_per_url 0 (url_at urls c.failover.active_idx)
            last (check_active net method urls w c).0 c

      same_url :
          url_at urls (round net method urls last w c).1.failover.active_idx
          ≡ url_at urls c.failover.active_idx
      same_url = ap (λ s. url_at urls s.active_idx) tried.failover

      go :
          RoundCase net method urls n last w c
          → ((last' : Option CallError)
              → (url_rounds net method urls n last'
                  (round net method urls last w c).0
                  (advanced net method urls last w c).0).2
                ≡ ok x
              → IsServed
                  (advanced net method urls last w c).0
                  (url_rounds net method urls n last'
                    (round net method urls last w c).0
                    (advanced net method urls last w c).0)
                  x)
          → IsServed c (url_rounds net method urls (suc n) last w c) x
      go (refused e q eq) ih = let y = rw eq at h in cc
      go (served r q f eq) ih =
          let result : r ≡ ok x = rw eq at h in
          rw eq (record {
            answer =
                subst (λ u. HasAnswered net method u (round net method urls last w c).0 x)
                  (sym same_url) (tried.answer x (f ∙ ap finished result));
            verified = λ p pinned away.
                subst (λ u. HasReported net u p) (sym same_url)
                  (check_active-reported w c p q
                    (λ z. away (ap (λ s. s.active_idx) tried.failover ∙ z)) pinned);
          })
      go (ended last' q f e eq) ih = let y = rw eq at h in cc
      go (moved last' q f e eq) ih = rw eq (record {
        answer = (ih last' (rw eq at h)).answer;
        verified = λ p pinned. (ih last' (rw eq at h)).verified p (
            try_failover-pinned urls (net.now (round net method urls last w c).0)
              c.failover.active_idx (round net method urls last w c).1
            ∙ (tried.pinned ∙ pinned));
      })

  -- A call that succeeds returns the result of an answer without an error that the active endpoint
  -- has just given, and if that endpoint is not the primary and a passphrase is pinned, the
  -- endpoint has reported that passphrase.
  pub call-IsServed :
      (w : W) (c : Client) (x : R)
      → (call net method urls w c).2 ≡ ok x
      → IsServed c (call net method urls w c) x
  unfolding call maybe_probe_primary
  call-IsServed w c x h = record {
    answer = s.answer;
    verified = λ p pinned. s.verified p (probed ∙ pinned);
  }
    where
      probed : (maybe_probe_primary net urls w c).1.network_passphrase ≡ c.network_passphrase
      probed = ground (arith, fail_back-pinned c)

      s :
          IsServed
            (maybe_probe_primary net urls w c).1
            (url_rounds net method urls
              (length urls)
              none
              (maybe_probe_primary net urls w c).0
              (maybe_probe_primary net urls w c).1)
            x
      s =
          url_rounds-IsServed (length urls) none (maybe_probe_primary net urls w c).0
            (maybe_probe_primary net urls w c).1 x h
