-- ===== src/SpecIndex/Scans.antt =====
-- The index of a list by name, against a scan of the list.
use lumenqraph.Base.{
  ℕ, zero, suc, ◌-◌, ◌≤◌, ◌≡◌, refl, sym, ap, ◌∙◌, Bool, true, false, Option, none, some, List, [],
  ◌∷◌, if◌then◌else◌, inl, inr, Bool-cases, arith,
}
use lumenqraph.Base.Str.{Str, str_eq, eq_of_str_eq}
use lumenqraph.Base.Chain.{◌>>=◌}
use lumenqraph.SpecIndex.{hash_get, or_insert, nth, index_names}

-- `Iterator::find`.
unfoldable pub find : {A : Type 0} → (A → Bool) → List A → Option A
find p [] = none
find p (x ∷ xs) = let rest = find p xs in if p x then some x else rest

-- The first place at which a name stands, counted from `i`.
unfoldable pub first_place : {A : Type 0} → (A → Str) → ℕ → List A → Str → Option ℕ
first_place name i [] k = none
first_place name i (x ∷ xs) k =
    let rest = first_place name (suc i) xs k in if str_eq (name x) k then some i else rest

-- The value of the first option that has one.
abbrev pub first_of {ℓ} : {A : Type ℓ} → Option A → Option A → Option A
first_of none b = b
first_of (some a) b = some a

abbrev pub map_option : {A B : Type 0} → (A → B) → Option A → Option B
map_option f none = none
map_option f (some a) = some (f a)

pub first_of-none : {R : Type 0} (o : Option R) → o ≡ first_of o none
first_of-none none = refl
first_of-none (some a) = refl

pub first_of_assoc :
    {R : Type 0} (a b c : Option R) → first_of (first_of a b) c ≡ first_of a (first_of b c)
first_of_assoc none b c = refl
first_of_assoc (some x) b c = refl

or_insert-held :
    {R : Type 0} (k : Str) (v : R) (m : List (Str × R)) (j : Str) (held : Option R)
    → hash_get str_eq m k ≡ held
    → hash_get str_eq (elim held [ none ↦ (k, v) ∷ m | some w ↦ m ]) j
      ≡ first_of (hash_get str_eq m j) (if str_eq k j then some v else none)
unfolding hash_get
or_insert-held k v m j none e = elim (Bool-cases (str_eq k j)) [
  | inl t ↦ rw (t, ← eq_of_str_eq k j t, e) refl
  | inr t ↦ rw t (first_of-none (hash_get str_eq m j))
]
or_insert-held k v m j (some w) e = elim (Bool-cases (str_eq k j)) [
  | inl t ↦ rw (t, ← eq_of_str_eq k j t, e) refl
  | inr t ↦ rw t (first_of-none (hash_get str_eq m j))
]

hash_get-or_insert :
    {R : Type 0} (k j : Str) (v : R) (m : List (Str × R))
    → hash_get str_eq (or_insert str_eq k v m) j
      ≡ first_of (hash_get str_eq m j) (if str_eq k j then some v else none)
unfolding or_insert
hash_get-or_insert k j v m = or_insert-held k v m j (hash_get str_eq m k) refl

pub hash_get-index_names :
    {A R : Type 0} (name : A → Str) (ref : ℕ → R) (i : ℕ) (xs : List A) (m : List (Str × R))
    (k : Str)
    → hash_get str_eq (index_names name ref i xs m) k
      ≡ first_of (hash_get str_eq m k) (map_option ref (first_place name i xs k))
unfolding index_names first_place
hash_get-index_names name ref i [] m k = first_of-none (hash_get str_eq m k)
hash_get-index_names name ref i (x ∷ xs) m k =
    hash_get-index_names name ref (suc i) xs (or_insert str_eq (name x) (ref i) m) k
    ∙ rw (hash_get-or_insert (name x) k (ref i) m)
        (go (hash_get str_eq m k) (str_eq (name x) k) ref i (first_place name (suc i) xs k))
  where
    go :
        {R : Type 0} (held : Option R) (b : Bool) (ref : ℕ → R) (i : ℕ) (rest : Option ℕ)
        → first_of (first_of held (if b then some (ref i) else none)) (map_option ref rest)
          ≡ first_of held (map_option ref (if b then some i else rest))
    go (some r) b ref i rest = refl
    go none true ref i rest = refl
    go none false ref i rest = refl

nth-first_place :
    {A : Type 0} (name : A → Str) (i j : ℕ) (xs : List A) (k : Str)
    → first_place name i xs k ≡ some j
    → (i ≤ j) × (nth xs (j - i) ≡ find (λ x. str_eq (name x) k) xs)
unfolding first_place nth find
nth-first_place name i j [] k h = cc
nth-first_place name i j (x ∷ xs) k h = elim (Bool-cases (str_eq (name x) k)) [
  | inl e ↦
      let same : i ≡ j = ground (arith, rw e at h) in
      (omega (arith, same), rw (e, at_zero j i same) refl)
  | inr e ↦
      let (le, found) = nth-first_place name (suc i) j xs k (rw e at h) in
      (omega (arith, le), rw (e, at_suc j i le) found)
]
  where
    at_zero : (j i : ℕ) → i ≡ j → j - i ≡ zero
    at_zero j i h = omega arith

    at_suc : (j i : ℕ) → suc i ≤ j → j - i ≡ suc (j - suc i)
    at_suc j i h = omega arith

pub find-first_place :
    {A : Type 0} (name : A → Str) (i : ℕ) (xs : List A) (k : Str)
    → first_place name i xs k ≡ none
    → find (λ x. str_eq (name x) k) xs ≡ none
unfolding first_place find
find-first_place name i [] k h = refl
find-first_place name i (x ∷ xs) k h = ground (arith, h, find-first_place name (suc i) xs k)

-- Looking a name up in an index is scanning the list.
pub indexed :
    {A : Type 0} (name : A → Str) (xs : List A) (k : Str) (place : Option ℕ)
    → first_place name 0 xs k ≡ place
    → (place >>= (λ i. nth xs i)) ≡ find (λ x. str_eq (name x) k) xs
indexed name xs k none e = sym (find-first_place name 0 xs k e)
indexed name xs k (some i) e = ap (nth xs) (from_zero i) ∙ (nth-first_place name 0 i xs k e).1
  where
    from_zero : (i : ℕ) → i ≡ i - 0
    from_zero i = omega arith
