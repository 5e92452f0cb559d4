-- ===== src/CallCache/History.antt =====
-- The history of what was stored in the cache and invalidated, and what it says of the cache.
use lumenqraph.Base.{
  ℕ, ◌<◌, ◌≡◌, ◌≢◌, refl, sym, ap, ◌∙◌, Bool, true, false, ◌&&◌, Option, none, some, List, [], ◌∷◌,
  if◌then◌else◌, arith,
}
use lumenqraph.Base.Str.{Str, str_eq, eq_of_str_eq, str_eq_refl}
use lumenqraph.Lru.{Lru}
use lumenqraph.CallCache.{Key, CallCache, new, get, insert, invalidate_contract}

-- What a client did that changes what the cache may hold.
pub data Write (Value : Type 0) : Type 0 where
  stored : Key → Value → ℕ → Write Value
  invalidated : Str → Write Value

abbrev pub source_eq : Option Str → Option Str → Bool
source_eq none none = true
source_eq none (some t) = false
source_eq (some s) none = false
source_eq (some s) (some t) = str_eq s t

abbrev pub key_eq : Key → Key → Bool
key_eq j k =
    str_eq j.contract_id k.contract_id
    && str_eq j.function k.function
    && str_eq j.args k.args
    && source_eq j.source_account k.source_account
    && str_eq j.wasm_hash k.wasm_hash

-- The last result that was stored for a key since its contract was last invalidated, with the time; the
-- latest write is first.
unfoldable pub latest : {Value : Type 0} → List (Write Value) → Key → Option (Value × ℕ)
latest [] k = none
latest (stored j v t ∷ h) k = let before = latest h k in if key_eq j k then some (v, t) else before
latest (invalidated c ∷ h) k =
    let before = latest h k in if str_eq k.contract_id c then none else before

source_eq_refl : (s : Option Str) → source_eq s s ≡ true
source_eq_refl none = refl
source_eq_refl (some s) = str_eq_refl s

pub key_eq_refl : (k : Key) → key_eq k k ≡ true
key_eq_refl k =
    rw
      (
        str_eq_refl k.contract_id,
        str_eq_refl k.function,
        str_eq_refl k.args,
        source_eq_refl k.source_account,
        str_eq_refl k.wasm_hash,
      )
      refl

pub ne_of_key_eq : (j k : Key) → key_eq j k ≡ false → k ≢ j
ne_of_key_eq j k h e = let p = rw e at h in let q = sym (key_eq_refl j) ∙ p in cc

eq_of_source_eq : (s t : Option Str) → source_eq s t ≡ true → s ≡ t
eq_of_source_eq none none h = refl
eq_of_source_eq none (some t) h = cc
eq_of_source_eq (some s) none h = cc
eq_of_source_eq (some s) (some t) h = ap some (eq_of_str_eq s t h)

pub eq_of_key_eq : (j k : Key) → key_eq j k ≡ true → j ≡ k
eq_of_key_eq j k h = ground (
  arith,
  h,
  eq_of_str_eq j.contract_id k.contract_id,
  eq_of_str_eq j.function k.function,
  eq_of_str_eq j.args k.args,
  eq_of_source_eq j.source_account k.source_account,
  eq_of_str_eq j.wasm_hash k.wasm_hash,
)

module _ {C Value : Type 0} (lru : Lru C Key (Value × ℕ)) where
  -- The states that the operations reach, each with what was written so far.
  pub data CallReach : CallCache C → List (Write Value) → Type 0 where
    started : (max_entries ttl_secs : ℕ) → CallReach (new lru max_entries ttl_secs) []
    got :
        {s : CallCache C} {h : List (Write Value)} (now : ℕ) (k : Key)
        → CallReach s h
        → CallReach (get lru now k s).1 h
    inserted :
        {s : CallCache C} {h : List (Write Value)} (now : ℕ) (k : Key) (v : Value)
        → CallReach s h
        → CallReach (insert lru now k v s) (stored k v now ∷ h)
    dropped :
        {s : CallCache C} {h : List (Write Value)} (c : Str)
        → CallReach s h
        → CallReach (invalidate_contract lru c s) (invalidated c ∷ h)

  -- The cache is off and empty, or it holds only what is the latest of the history.
  abbrev pub Refines : CallCache C → List (Write Value) → Type 0
  Refines s h =
      (k : Key) (e : Value × ℕ) → lru.peek s.inner k ≡ some e → (0 < s.ttl) × (latest h k ≡ some e)
