-- ===== src/CallCache/Fresh.antt =====
-- What a lookup gives.
use lumenqraph.Base.{
  ℕ, ◌-◌, ◌<◌, ◌≡◌, refl, sym, ap, ◌∙◌, true, false, Option, none, some, List, ltb→lt, ◌==◌, inl,
  inr, Bool-cases, arith,
}
use mathlib.Core.Option.{some-injective}
use lumenqraph.Lru.{Lru, IsLru}
use lumenqraph.CallCache.{Key, CallCache, is_live, looked_up, get, insert}
use lumenqraph.CallCache.History.{Write, latest, CallReach}
use lumenqraph.CallCache.Steps.{insert-inner, reach-Refines}

module _ {C Value : Type 0} (lru : Lru C Key (Value × ℕ)) (laws : IsLru lru) where
  looked_up-result :
      (now : ℕ) (k : Key) (s : CallCache C) (entry : Option (Value × ℕ)) (v : Value)
      → (looked_up lru now k s entry).0 ≡ some v
      → (t : ℕ) × (entry ≡ some (v, t)) × (now - t < s.ttl)
  unfolding looked_up
  looked_up-result now k s none v e = cc
  looked_up-result now k s (some (w, t)) v e = elim (Bool-cases (is_live s.ttl now t)) [
    | inl l ↦ (t, ap (λ x. some (x, t)) (some-injective w v (rw l at e)), ltb→lt (now - t) s.ttl l)
    | inr l ↦ let x = rw l at e in cc
  ]

  get-result :
      (now : ℕ) (k : Key) (s : CallCache C) (v : Value)
      → (get lru now k s).0 ≡ some v
      → (t : ℕ) × (lru.peek s.inner k ≡ some (v, t)) × (now - t < s.ttl)
  unfolding get
  get-result now k s v e = elim (Bool-cases (s.ttl == 0)) [
    | inl z ↦ let x = rw z at e in cc
    | inr z ↦
        let (entry, inner) = lru.get k s.inner in
        let (t, found, live) =
          looked_up-result now k (record s { inner = inner }) entry v (rw z at e) in
        (t, sym (laws.get-value k s.inner) ∙ found, live)
  ]

  get-found :
      (now : ℕ) (k : Key) (s : CallCache C) (v : Value) (t : ℕ)
      → lru.peek s.inner k ≡ some (v, t)
      → now - t < s.ttl
      → (get lru now k s).0 ≡ some v
  unfolding get looked_up
  get-found now k s v t p l =
      let z : (s.ttl == 0) ≡ false = ground arith in
      let live : is_live s.ttl now t ≡ true = ground arith in
      rw (z, laws.get-value k s.inner, p, live) refl

-- Whatever the client stored, looked up and invalidated before, in any order and with any
-- instants: a result that the cache returns is the last one that was stored for its key, its
-- contract was not invalidated since then, and it is younger than the TTL.
pub get-IsLatest :
    {C Value : Type 0} (lru : Lru C Key (Value × ℕ))
    → IsLru lru
    → {s : CallCache C} {h : List (Write Value)} (now : ℕ) (k : Key) (v : Value) → CallReach lru s h
    → (get lru now k s).0 ≡ some v
    → (t : ℕ) × (latest h k ≡ some (v, t)) × (now - t < s.ttl)
get-IsLatest lru laws {s = s} now k v reach e =
    let (t, found, live) = get-result lru laws now k s v e in
    (t, (reach-Refines lru laws reach k (v, t) found).1, live)

-- Until its TTL is over, a result that was just stored is returned.
pub get-insert :
    {C Value : Type 0} (lru : Lru C Key (Value × ℕ))
    → IsLru lru
    → (s : CallCache C) (now later : ℕ) (k : Key) (v : Value) → later - now < s.ttl
    → (get lru later k (insert lru now k v s)).0 ≡ some v
get-insert lru laws s now later k v h =
    let z : (s.ttl == 0) ≡ false = ground arith in
    let (inner, ttl) = insert-inner lru laws now k v s z in
    let held = ap (λ c. lru.peek c k) inner ∙ laws.peek-put k (v, now) s.inner in
    get-found lru laws later k (insert lru now k v s) v now held (omega (arith, h, ttl))
