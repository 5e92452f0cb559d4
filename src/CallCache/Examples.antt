-- ===== src/CallCache/Examples.antt =====
-- A cache with room for one entry, and the theorems at it.
use lumenqraph.Base.{
  ◌≢◌, sym, ℕ, ◌-◌, ◌<◌, ◌≡◌, refl, inl, inr, Bool, true, false, Option, none, some, List, [], ◌∷◌,
  if◌then◌else◌, Bool-cases, In, here, arith,
}
use lumenqraph.Base.Str.{Str, lit}
use lumenqraph.Json.{Json, null, object, no_fields, field}
use lumenqraph.Lru.{Lru, IsLru}
use lumenqraph.CallCache.{Key, CallCache, CallScope, make_key, new, get, insert}
use lumenqraph.CallCache.Keys.{same_object, swapped, make_key-Same}
use lumenqraph.CallCache.History.{
  stored, latest, key_eq, key_eq_refl, eq_of_key_eq, CallReach, started, inserted,
}
use lumenqraph.CallCache.Fresh.{get-IsLatest}

-- Values are numbers.
abbrev Slot : Type 0
Slot = Option (Key × (ℕ × ℕ))

abbrev peek : Slot → Key → Option (ℕ × ℕ)
peek none k = none
peek (some (j, v)) k = if key_eq j k then some v else none

abbrev pop : Key → Slot → Slot
pop k none = none
pop k (some (j, v)) = if key_eq j k then none else some (j, v)

abbrev slot_keys : Slot → List Key
slot_keys none = []
slot_keys (some (j, v)) = j ∷ []

abbrev one_slot : Lru Slot Key (ℕ × ℕ)
one_slot = record {
  new = λ n. none;
  peek = peek;
  get = λ k c. (peek c k, c);
  put = λ k v c. (peek c k, some (k, v));
  pop = pop;
  keys = slot_keys;
}

peek-pop : (k : Key) (c : Slot) → peek (pop k c) k ≡ none
peek-pop k none = refl
peek-pop k (some (j, v)) = elim (Bool-cases (key_eq j k)) [
  | inl e ↦ rw e refl
  | inr e ↦ rw (e, e) refl
]

key_eq-false : (k j : Key) → j ≢ k → key_eq k j ≡ false
key_eq-false k j h = elim (Bool-cases (key_eq k j)) [
  | inl e ↦ elim (h (sym (eq_of_key_eq k j e))) [ ]
  | inr e ↦ e
]

peek-pop_other : (k j : Key) (c : Slot) → j ≢ k → peek (pop k c) j ≡ peek c j
peek-pop_other k j none h = refl
peek-pop_other k j (some (i, v)) h = elim (Bool-cases (key_eq i k)) [
  | inl e ↦ rw (e, eq_of_key_eq i k e, key_eq-false k j h) refl
  | inr e ↦ rw e refl
]

In-slot_keys : (k : Key) (v : ℕ × ℕ) (c : Slot) → peek c k ≡ some v → In k (slot_keys c)
In-slot_keys k v none h = cc
In-slot_keys k v (some (j, w)) h = elim (Bool-cases (key_eq j k)) [
  | inl e ↦ rw (eq_of_key_eq j k e) here
  | inr e ↦ let x = rw e at h in cc
]

one_slot-IsLru : IsLru one_slot
one_slot-IsLru = record {
  peek-new = λ n k. refl;
  get-value = λ k c. refl;
  peek-get = λ k j c. refl;
  put-value = λ k v c. refl;
  peek-put = λ k v c. rw (key_eq_refl k) refl;
  peek-put_other = λ k j v c h. inr (rw (key_eq-false k j h) refl);
  peek-pop = peek-pop;
  peek-pop_other = peek-pop_other;
  In-keys = In-slot_keys;
}

-- Two parameters, in either order.
abbrev to_string : Json ℕ → Str
to_string v = lit "0"

abbrev scope : CallScope
scope = record { source_account = none; wasm_hash = lit "h" }

abbrev a_first : Json ℕ
a_first = object (field (lit "a") null (field (lit "b") null no_fields))

abbrev b_first : Json ℕ
b_first = object (field (lit "b") null (field (lit "a") null no_fields))

abbrev key : Key
key = make_key to_string (lit "C") (lit "balance") a_first scope

make_key-Same_example :
    make_key to_string (lit "C") (lit "balance") a_first scope
    ≡ make_key to_string (lit "C") (lit "balance") b_first scope
unfolding lumenqraph.Base.Str.str_eq
make_key-Same_example =
    make_key-Same to_string (lit "C") (lit "balance") a_first b_first scope
      (same_object (swapped (lit "a") (lit "b") refl))

-- Five is stored at the time 10, for a second.
abbrev stored_five : CallCache Slot
stored_five = insert one_slot 10 key 5 (new one_slot 4 1)

stored_five-reached : CallReach one_slot stored_five (stored key 5 10 ∷ [])
stored_five-reached = inserted 10 key 5 (started 4 1)

hit : (get one_slot 11 key stored_five).0 ≡ some 5
unfolding get insert new lumenqraph.Base.Str.str_eq lumenqraph.CallCache.normalize_json
    lumenqraph.Base.Str.join lumenqraph.CallCache.insert_by_key lumenqraph.Base.Str.str_ltb
hit = refl

get-IsLatest_example :
    (t : ℕ) × (latest {Value = ℕ} (stored key 5 10 ∷ []) key ≡ some (5, t))
    × (11 - t < 1_000_000_000)
unfolding insert new
get-IsLatest_example = get-IsLatest one_slot one_slot-IsLru 11 key 5 stored_five-reached hit
