-- ===== src/CallCache.antt =====
-- crates/lumenqraph-api/src/call_cache.rs: the cache of the results of contract calls. The LRU
-- cache is a parameter, and so is `serde_json::to_string` of a value that is neither an object nor an
-- array. A mutex makes each operation one step; instants and durations are counted in
-- nanoseconds.
mod Examples
pub mod Keys
pub mod History
pub mod Steps
pub mod Fresh
use lumenqraph.Base.{
  ℕ, ◌+◌, ◌-◌, ◌*◌, ◌%◌, ◌^◌, max, Bool, true, false, not, ◌&&◌, Option, none, some, List, [], ◌∷◌,
  ◌++◌, map, ltb, ◌==◌, if◌then◌else◌,
}
use lumenqraph.Base.Str.{Str, lit, str_eq, str_ltb, join}
use lumenqraph.Base.Text.{filter}
use lumenqraph.Json.{
  Json, Items, Fields, null, boolean, number, string, array, object, no_items, item, no_fields,
  field,
}
use lumenqraph.Lru.{Lru}

pub record CallScope : Type 0 where
  pub source_account : Option Str
  pub wasm_hash : Str

pub record Key : Type 0 where
  pub contract_id : Str
  pub function : Str
  pub args : Str
  pub source_account : Option Str
  pub wasm_hash : Str

-- A place in the order of `sort_by_key`, which is stable.
unfoldable pub insert_by_key : Str → Str → List (Str × Str) → List (Str × Str)
insert_by_key k v [] = (k, v) ∷ []
insert_by_key k v ((j, w) ∷ rest) =
    let later = insert_by_key k v rest in
    if str_ltb j k then (j, w) ∷ later else (k, v) ∷ (j, w) ∷ rest

abbrev pub pair : Str × Str → Str
pair p = lit "\"" ++ p.0 ++ lit "\":" ++ p.1

module _ {Number : Type 0} (to_string : Json Number → Str) where
  -- The rendered fields are sorted: the order reads the keys only.
  unfoldable mutual
    pub normalize_json : Json Number → Str
    normalize_json null = to_string null
    normalize_json (boolean b) = to_string (boolean b)
    normalize_json (number n) = to_string (number n)
    normalize_json (string s) = to_string (string s)
    normalize_json (array xs) = lit "[" ++ join (lit ",") (normalize_items xs) ++ lit "]"
    normalize_json (object m) = lit "{" ++ join (lit ",") (map pair (sorted_fields m)) ++ lit "}"

    pub normalize_items : Items Number → List Str
    normalize_items no_items = []
    normalize_items (item x xs) = normalize_json x ∷ normalize_items xs

    pub sorted_fields : Fields Number → List (Str × Str)
    sorted_fields no_fields = []
    sorted_fields (field k v m) = insert_by_key k (normalize_json v) (sorted_fields m)

  abbrev pub make_key : Str → Str → Json Number → CallScope → Key
  make_key contract_id function args scope = record {
    contract_id = contract_id;
    function = function;
    args = normalize_json args;
    source_account = scope.source_account;
    wasm_hash = scope.wasm_hash;
  }

pub record CallCache (C : Type 0) : Type 0 where
  pub inner : C
  pub ttl : ℕ
  pub hits : ℕ
  pub misses : ℕ
  pub evictions : ℕ

-- `fetch_add` of one to an AtomicU64.
abbrev pub count : ℕ → ℕ
count n = (n + 1) % 2 ^ 64

-- `inserted_at.elapsed() < ttl`, at the time `now`.
abbrev pub is_live : ℕ → ℕ → ℕ → Bool
is_live ttl now inserted_at = ltb (now - inserted_at) ttl

module _ {C Value : Type 0} (lru : Lru C Key (Value × ℕ)) where
  unfoldable pub new : ℕ → ℕ → CallCache C
  new max_entries ttl_secs = record {
    inner = lru.new (max max_entries 1);
    ttl = ttl_secs * 1_000_000_000;
    hits = 0;
    misses = 0;
    evictions = 0;
  }

  -- What `get` does with the entry that it finds.
  unfoldable pub looked_up : ℕ → Key → CallCache C → Option (Value × ℕ) → Option Value × CallCache C
  looked_up now key s none = (none, record s { misses = count s.misses })
  looked_up now key s (some (value, inserted_at)) =
      if is_live s.ttl now inserted_at
      then (some value, record s { hits = count s.hits })
      else (none, record s { inner = lru.pop key s.inner; misses = count s.misses })

  unfoldable pub get : ℕ → Key → CallCache C → Option Value × CallCache C
  unfolding looked_up
  get now key s =
      if s.ttl == 0
      then (none, s)
      else let (entry, inner) = lru.get key s.inner in
        looked_up now key (record s { inner = inner }) entry

  unfoldable pub insert : ℕ → Key → Value → CallCache C → CallCache C
  insert now key result s =
      if s.ttl == 0
      then s
      else let (replaced, inner) = lru.put key (result, now) s.inner in
        elim replaced [
          | none ↦ record s { inner = inner }
          | some old ↦ record s { inner = inner; evictions = count s.evictions }
        ]

  unfoldable pub pop_all : List Key → C → C
  pop_all [] c = c
  pop_all (key ∷ stale) c = pop_all stale (lru.pop key c)

  unfoldable pub invalidate_contract : Str → CallCache C → CallCache C
  invalidate_contract contract_id s =
      let stale = filter (λ key. str_eq key.contract_id contract_id) (lru.keys s.inner) in
      record s { inner = pop_all stale s.inner }
