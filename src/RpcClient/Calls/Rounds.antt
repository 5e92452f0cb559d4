-- ===== src/RpcClient/Calls/Rounds.antt =====
-- The ways that a round of a call goes on, with what leads to each.
use lumenqraph.Base.{
  ℕ, suc, ◌==◌, ◌≡◌, refl, true, false, Option, none, some, List, Bool-cases, inl, inr,
}
use lumenqraph.Base.Str.{Str}
use lumenqraph.Base.Result.{Result, err}
use lumenqraph.RpcClient.Failover.{Client, try_failover}
use lumenqraph.RpcClient.Network.{CallError, Network, url_at}
use lumenqraph.RpcClient.Calls.{
  Tried, finished, exhausted, max_attempts_per_url, attempts, give_up, check_active, url_rounds,
}

module _ {W R : Type 0} (net : Network W R) (method : Str) (urls : List Str) where
  abbrev active_url : Client → Str
  active_url c = url_at urls c.failover.active_idx

  -- The attempts of a round at the active endpoint, after its check.
  abbrev pub round : Option CallError → W → Client → W × Client × Tried R
  round last w c =
      attempts net method max_attempts_per_url 0 (url_at urls c.failover.active_idx) last
        (check_active net method urls w c).0 c

  -- The failover after a round.
  abbrev pub advanced : Option CallError → W → Client → Client × ℕ
  advanced last w c =
      try_failover urls (net.now (round last w c).0) c.failover.active_idx (round last w c).1

  -- The four ways that a round goes on.
  url_rounds-refused :
      (n : ℕ) (last : Option CallError) (w : W) (c : Client) (e : CallError)
      → (check_active net method urls w c).1 ≡ some e
      → url_rounds net method urls (suc n) last w c
        ≡ ((check_active net method urls w c).0, c, err e)
  unfolding url_rounds
  url_rounds-refused n last w c e q = rw (url_rounds, q) refl

  url_rounds-finished :
      (n : ℕ) (last : Option CallError) (w : W) (c : Client) (r : Result CallError R)
      → (check_active net method urls w c).1 ≡ none
      → (round last w c).2 ≡ finished r
      → url_rounds net method urls (suc n) last w c ≡ ((round last w c).0, (round last w c).1, r)
  unfolding url_rounds
  url_rounds-finished n last w c r q f = rw (url_rounds, q, f) refl

  url_rounds-ended :
      (n : ℕ) (last last' : Option CallError) (w : W) (c : Client)
      → (check_active net method urls w c).1 ≡ none
      → (round last w c).2 ≡ exhausted last'
      → ((advanced last w c).1 == c.failover.active_idx) ≡ true
      → url_rounds net method urls (suc n) last w c
        ≡ give_up net method urls last' (round last w c).0 (advanced last w c).0
  unfolding url_rounds
  url_rounds-ended n last last' w c q f e = rw (url_rounds, q, f, e) refl

  url_rounds-advanced :
      (n : ℕ) (last last' : Option CallError) (w : W) (c : Client)
      → (check_active net method urls w c).1 ≡ none
      → (round last w c).2 ≡ exhausted last'
      → ((advanced last w c).1 == c.failover.active_idx) ≡ false
      → url_rounds net method urls (suc n) last w c
        ≡ url_rounds net method urls n last' (round last w c).0 (advanced last w c).0
  unfolding url_rounds
  url_rounds-advanced n last last' w c q f e = rw (url_rounds, q, f, e) refl

  -- How the rounds that remain go on.
  pub data RoundCase (n : ℕ) (last : Option CallError) (w : W) (c : Client) : Type 0 where
    refused :
        (e : CallError)
        → (check_active net method urls w c).1 ≡ some e
        → url_rounds net method urls (suc n) last w c
          ≡ ((check_active net method urls w c).0, c, err e)
        → RoundCase n last w c
    served :
        (r : Result CallError R)
        → (check_active net method urls w c).1 ≡ none
        → (round last w c).2 ≡ finished r
        → url_rounds net method urls (suc n) last w c ≡ ((round last w c).0, (round last w c).1, r)
        → RoundCase n last w c
    ended :
        (last' : Option CallError)
        → (check_active net method urls w c).1 ≡ none
        → (round last w c).2 ≡ exhausted last'
        → ((advanced last w c).1 == c.failover.active_idx) ≡ true
        → url_rounds net method urls (suc n) last w c
          ≡ give_up net method urls last' (round last w c).0 (advanced last w c).0
        → RoundCase n last w c
    moved :
        (last' : Option CallError)
        → (check_active net method urls w c).1 ≡ none
        → (round last w c).2 ≡ exhausted last'
        → ((advanced last w c).1 == c.failover.active_idx) ≡ false
        → url_rounds net method urls (suc n) last w c
          ≡ url_rounds net method urls n last' (round last w c).0 (advanced last w c).0
        → RoundCase n last w c

  pub url_rounds-cases :
      (n : ℕ) (last : Option CallError) (w : W) (c : Client) → RoundCase n last w c
  url_rounds-cases n last w c = check (check_active net method urls w c).1 refl
    where
      tried :
          (check_active net method urls w c).1 ≡ none
          → (t : Tried R) → (round last w c).2 ≡ t
          → RoundCase n last w c
      tried q (finished r) f = served r q f (url_rounds-finished n last w c r q f)
      tried q (exhausted last') f =
          elim (Bool-cases ((advanced last w c).1 == c.failover.active_idx)) [
            | inl e ↦ ended last' q f e (url_rounds-ended n last last' w c q f e)
            | inr e ↦ moved last' q f e (url_rounds-advanced n last last' w c q f e)
          ]

      check :
          (o : Option CallError) → (check_active net method urls w c).1 ≡ o → RoundCase n last w c
      check none q = tried q (round last w c).2 refl
      check (some e) q = refused e q (url_rounds-refused n last w c e q)
