-- ===== src/RpcClient/Calls/Spread.antt =====
-- How many requests a call makes to each endpoint.
use lumenqraph.Base.{ℕ, ◌+◌, ◌≡◌, List, [], ◌∷◌, if◌then◌else◌}
use lumenqraph.Base.Str.{Str, str_eq}
use lumenqraph.RpcClient.Network.{Network}

-- How often a URL stands in a list.
unfoldable pub count : Str → List Str → ℕ
unfolding str_eq
count u [] = 0
count u (v ∷ urls) = (if str_eq v u then 1 else 0) + count u urls

-- A measure of the world that counts the requests with the body of the call to one URL, and
-- nothing else.
pub record IsMeasureOf {W R : Type 0} (net : Network W R) (u : Str) (sent : W → ℕ) : Type 0 where
  pub sleeping : (w : W) (ms : ℕ) → sent (net.sleep w ms) ≡ sent w
  pub drawing : (w : W) (hi : ℕ) → sent (net.gen_range w hi).0 ≡ sent w
  pub asking : (w : W) (url : Str) → sent (net.get_network w url).0 ≡ sent w
  pub probing : (w : W) (url : Str) → sent (net.get_health w url).0 ≡ sent w
  pub posting : (w : W) (url : Str) → sent (net.post w url).0 ≡ sent w + count u (url ∷ [])
