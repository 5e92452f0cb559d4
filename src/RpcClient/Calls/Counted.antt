-- ===== src/RpcClient/Calls/Counted.antt =====
-- How many requests a call makes, and that the counter of attempts counts them.
use lumenqraph.Base.{ℕ, ◌+◌, ◌-◌, ◌%◌, ◌^◌, ◌≤◌, ◌≡◌}
use lumenqraph.Base.Str.{Str}
use lumenqraph.RpcClient.Network.{Network}

-- A measure of the world that counts the requests with the body of the call, and nothing else.
pub record IsMeasure {W R : Type 0} (net : Network W R) (sent : W → ℕ) : Type 0 where
  pub sleeping : (w : W) (ms : ℕ) → sent (net.sleep w ms) ≡ sent w
  pub drawing : (w : W) (hi : ℕ) → sent (net.gen_range w hi).0 ≡ sent w
  pub asking : (w : W) (url : Str) → sent (net.get_network w url).0 ≡ sent w
  pub probing : (w : W) (url : Str) → sent (net.get_health w url).0 ≡ sent w
  pub posting : (w : W) (url : Str) → sent (net.post w url).0 ≡ sent w + 1

-- From a number of requests and a counter to another, by so many requests at most.
pub record IsCounted (bound before made after made' : ℕ) : Type 0 where
  pub grown : before ≤ after
  pub at_most : after ≤ before + bound
  pub exact : made' ≡ (made + (after - before)) % 2 ^ 64
