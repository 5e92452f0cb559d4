-- ===== src/CallCache/Steps.antt =====
-- The operations of the cache against its history, one by one.
use lumenqraph.Base.{
  ℕ, ◌<◌, ◌≡◌, refl, sym, ◌∙◌, max, true, false, Option, none, some, List, [], ◌∷◌, ◌==◌,
  if◌then◌else◌, In, here, there, inl, inr, Bool-cases, arith,
}
use lumenqraph.Base.Str.{Str, str_eq}
use lumenqraph.Base.Text.{filter}
use lumenqraph.Lru.{Lru, IsLru}
use lumenqraph.CallCache.{
  Key, CallCache, is_live, count, new, looked_up, get, insert, pop_all, invalidate_contract,
}
use lumenqraph.CallCache.History.{
  Write, stored, invalidated, latest, key_eq, ne_of_key_eq, eq_of_key_eq, CallReach, started, got,
  inserted, dropped, Refines,
}

module _ {C Value : Type 0} (lru : Lru C Key (Value × ℕ)) (laws : IsLru lru) where
  pop-holds :
      (k j : Key) (c : C) (e : Value × ℕ)
      → lru.peek (lru.pop k c) j ≡ some e
      → lru.peek c j ≡ some e
  pop-holds k j c e p = elim (Bool-cases (key_eq k j)) [
    | inl t ↦ let q = rw (← eq_of_key_eq k j t) at p in let x = sym (laws.peek-pop k c) ∙ q in cc
    | inr f ↦ sym (laws.peek-pop_other k j c (ne_of_key_eq k j f)) ∙ p
  ]

  looked_up-holds :
      (now : ℕ) (k j : Key) (s : CallCache C) (entry : Option (Value × ℕ)) (e : Value × ℕ)
      → lru.peek (looked_up lru now k s entry).1.inner j ≡ some e
      → lru.peek s.inner j ≡ some e
  unfolding looked_up
  looked_up-holds now k j s none e p = p
  looked_up-holds now k j s (some (v, t)) e p = elim (Bool-cases (is_live s.ttl now t)) [
    | inl l ↦ rw l at p
    | inr l ↦ pop-holds k j s.inner e (rw l at p)
  ]

  looked_up-ttl :
      (now : ℕ) (k : Key) (s : CallCache C) (entry : Option (Value × ℕ))
      → (looked_up lru now k s entry).1.ttl ≡ s.ttl
  unfolding looked_up
  looked_up-ttl now k s none = refl
  looked_up-ttl now k s (some (v, t)) = ground arith

  get-Refines :
      (now : ℕ) (k : Key) (s : CallCache C) (h : List (Write Value))
      → Refines lru s h
      → Refines lru (get lru now k s).1 h
  unfolding get
  get-Refines now k s h r = elim (Bool-cases (s.ttl == 0)) [
    | inl z ↦ rw z r
    | inr z ↦ rw z (λ j e p.
        let (entry, inner) = lru.get k s.inner in
        let s' : CallCache C = record s { inner = inner } in
        let (on, found) =
          r j e (sym (laws.peek-get k j s.inner) ∙ looked_up-holds now k j s' entry e p) in
        (omega (arith, on, looked_up-ttl now k s' entry), found))
  ]

  put-Refines :
      (now : ℕ) (k j : Key) (v : Value) (c : C) (e : Value × ℕ) (before : Option (Value × ℕ))
      → lru.peek (lru.put k (v, now) c).1 j ≡ some e
      → (lru.peek c j ≡ some e → before ≡ some e)
      → (if key_eq k j then some (v, now) else before) ≡ some e
  put-Refines now k j v c e before p r = elim (Bool-cases (key_eq k j)) [
    | inl t ↦ rw t (sym (laws.peek-put k (v, now) c) ∙ rw (← eq_of_key_eq k j t) at p)
    | inr f ↦ rw f (elim (laws.peek-put_other k j (v, now) c (ne_of_key_eq k j f)) [
      | inl q ↦ r (sym q ∙ p)
      | inr q ↦ let x = sym q ∙ p in cc
    ])
  ]

  pub insert-inner :
      (now : ℕ) (k : Key) (v : Value) (s : CallCache C)
      → (s.ttl == 0) ≡ false
      → ((insert lru now k v s).inner ≡ (lru.put k (v, now) s.inner).1)
        × ((insert lru now k v s).ttl ≡ s.ttl)
  unfolding insert
  insert-inner now k v s z = rw z (go (lru.put k (v, now) s.inner).0)
    where
      go :
          (replaced : Option (Value × ℕ))
          → let inner = (lru.put k (v, now) s.inner).1 in
            let s' : CallCache C = elim replaced [
              | none ↦ record s { inner = inner }
              | some old ↦ record s { inner = inner; evictions = count s.evictions }
            ] in
            (s'.inner ≡ inner) × (s'.ttl ≡ s.ttl)
      go none = (refl, refl)
      go (some old) = (refl, refl)

  insert-off :
      (now : ℕ) (k : Key) (v : Value) (s : CallCache C)
      → (s.ttl == 0) ≡ true
      → insert lru now k v s ≡ s
  unfolding insert
  insert-off now k v s z = rw z refl

  off : (n : ℕ) → 0 < n → (n == 0) ≡ true → ⊥
  off n h z = ground arith

  on : (m n : ℕ) → n ≡ m → (m == 0) ≡ false → 0 < n
  on m n e z = ground arith

  insert-Refines :
      (now : ℕ) (k : Key) (v : Value) (s : CallCache C) (h : List (Write Value))
      → Refines lru s h
      → Refines lru (insert lru now k v s) (stored k v now ∷ h)
  unfolding latest
  insert-Refines now k v s h r j e p = elim (Bool-cases (s.ttl == 0)) [
    | inl z ↦
        let (live, _) = r j e (rw (insert-off now k v s z) at p) in elim (off s.ttl live z) [ ]
    | inr z ↦
        let (inner, ttl) = insert-inner now k v s z in
        (
          on s.ttl (insert lru now k v s).ttl ttl z,
          put-Refines now k j v s.inner e (latest h j) (rw inner at p) (λ q. (r j e q).1),
        )
  ]

  pop_all-holds :
      (ks : List Key) (j : Key) (c : C) (e : Value × ℕ)
      → lru.peek (pop_all lru ks c) j ≡ some e
      → (lru.peek c j ≡ some e) × (In j ks → ⊥)
  unfolding pop_all
  pop_all-holds [] j c e p = (p, elim [ ])
  pop_all-holds (k ∷ ks) j c e p =
      let (q, fresh) = pop_all-holds ks j (lru.pop k c) e p in
      (pop-holds k j c e q, λ m. not_popped j k ks c e q fresh m)
    where
      not_popped :
          (j k : Key) (ks : List Key) (c : C) (e : Value × ℕ)
          → lru.peek (lru.pop k c) j ≡ some e
          → (In j ks → ⊥)
          → In j (k ∷ ks)
          → ⊥
      not_popped j k ks c e q fresh here = let x = sym (laws.peek-pop j c) ∙ q in cc
      not_popped j k ks c e q fresh (there m) = fresh m

  invalidate_contract-Refines :
      (contract_id : Str) (s : CallCache C) (h : List (Write Value))
      → Refines lru s h
      → Refines lru (invalidate_contract lru contract_id s) (invalidated contract_id ∷ h)
  unfolding invalidate_contract latest filter
  invalidate_contract-Refines contract_id s h r j e p =
      let stale = filter (λ k. str_eq k.contract_id contract_id) (lru.keys s.inner) in
      let (q, kept) = pop_all-holds stale j s.inner e p in
      let (live, found) = r j e q in
      elim (Bool-cases (str_eq j.contract_id contract_id)) [
        | inl t ↦ elim (kept (In-filter j (lru.keys s.inner) t (laws.In-keys j e s.inner q))) [ ]
        | inr f ↦ (live, rw f found)
      ]
    where
      In-filter :
          (j : Key) (ks : List Key)
          → str_eq j.contract_id contract_id ≡ true
          → In j ks
          → In j (filter (λ k. str_eq k.contract_id contract_id) ks)
      In-filter j [] t m = elim m [ ]
      In-filter j (k ∷ ks) t here = rw t here
      In-filter j (k ∷ ks) t (there m) = elim (Bool-cases (str_eq k.contract_id contract_id)) [
        | inl u ↦ rw u (there (In-filter j ks t m))
        | inr u ↦ rw u (In-filter j ks t m)
      ]

  new-Refines : (n ttl : ℕ) → Refines lru (new lru n ttl) []
  unfolding new
  new-Refines n ttl k e p = let x = sym (laws.peek-new (max n 1) k) ∙ p in cc

  pub reach-Refines :
      {s : CallCache C} {h : List (Write Value)} → CallReach lru s h → Refines lru s h
  reach-Refines (started n ttl) = new-Refines n ttl
  reach-Refines (got {s = s} {h = h} now k reach) = get-Refines now k s h (reach-Refines reach)
  reach-Refines (inserted {s = s} {h = h} now k v reach) =
      insert-Refines now k v s h (reach-Refines reach)
  reach-Refines (dropped {s = s} {h = h} c reach) =
      invalidate_contract-Refines c s h (reach-Refines reach)
