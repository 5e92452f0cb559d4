-- ===== src/Lru.antt =====
-- The LruCache of the lru crate: its operations, and what its documentation says of them. The
-- cache itself is a parameter of the components that use it.
use lumenqraph.Base.{ℕ, ◌≡◌, ◌≢◌, ◌⊎◌, Option, none, some, List, In}

-- `peek` looks without a change, `get` makes the entry the most recently used one, `put` gives
-- the value that the key had, and may evict another entry; `keys` are those of `iter`.
pub record Lru (C K V : Type 0) : Type 0 where
  pub new : ℕ → C
  pub peek : C → K → Option V
  pub get : K → C → Option V × C
  pub put : K → V → C → Option V × C
  pub pop : K → C → C
  pub keys : C → List K

pub record IsLru {C K V : Type 0} (l : Lru C K V) : Type 0 where
  pub peek-new : (n : ℕ) (k : K) → l.peek (l.new n) k ≡ none
  pub get-value : (k : K) (c : C) → (l.get k c).0 ≡ l.peek c k
  pub peek-get : (k j : K) (c : C) → l.peek (l.get k c).1 j ≡ l.peek c j
  pub put-value : (k : K) (v : V) (c : C) → (l.put k v c).0 ≡ l.peek c k
  pub peek-put : (k : K) (v : V) (c : C) → l.peek (l.put k v c).1 k ≡ some v
  pub peek-put_other :
      (k j : K) (v : V) (c : C)
      → j ≢ k
      → (l.peek (l.put k v c).1 j ≡ l.peek c j) ⊎ (l.peek (l.put k v c).1 j ≡ none)
  pub peek-pop : (k : K) (c : C) → l.peek (l.pop k c) k ≡ none
  pub peek-pop_other : (k j : K) (c : C) → j ≢ k → l.peek (l.pop k c) j ≡ l.peek c j
  pub In-keys : (k : K) (v : V) (c : C) → l.peek c k ≡ some v → In k (l.keys c)
