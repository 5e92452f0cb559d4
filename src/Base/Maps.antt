-- ===== src/Base/Maps.antt =====
-- `BTreeMap<String, V>` and `BTreeSet<String>`: an association list in the order of its keys.
use mathlib.Core.Path.{◌≡◌, refl}
use mathlib.Core.Logic.{inl, inr}
use mathlib.Core.Option.{Option, none, some}
use mathlib.Core.List.{List, [], ◌∷◌}
use native.Mathlib.Omega.{arith}
use lumenqraph.Base.Tests.{if◌then◌else◌, Bool-cases}
use lumenqraph.Base.Lists.{In, here, there}
use lumenqraph.Base.Str.{Str, str_eq, eq_of_str_eq, str_eq_refl, str_ltb}

abbrev pub Map {ℓ} : Type ℓ → Type ℓ
Map V = List (Str × V)

module _ {ℓ} {V : Type ℓ} where
  -- `map.get(k)`.
  unfoldable pub get : Map V → Str → Option V
  get [] k = none
  get ((j, v) ∷ m) k = if str_eq j k then some v else get m k

  -- `map.insert(k, v)`: a present key gets the new value.
  unfoldable pub insert : Str → V → Map V → Map V
  insert k v [] = (k, v) ∷ []
  insert k v ((j, w) ∷ m) =
      if str_eq j k
      then (k, v) ∷ m
      else if str_ltb k j
      then (k, v) ∷ (j, w) ∷ m
      else (j, w) ∷ insert k v m

  -- `map.keys()`.
  unfoldable pub keys : Map V → List Str
  keys [] = []
  keys ((j, v) ∷ m) = j ∷ keys m

  pub get-insert :
      (k j : Str) (v : V) (m : Map V)
      → get (insert k v m) j ≡ (if str_eq k j then some v else get m j)
  unfolding get insert
  get-insert k j v [] = refl
  get-insert k j v ((i, w) ∷ m) = ground (
    arith,
    get-insert k j v m,
    eq_of_str_eq i k,
    eq_of_str_eq k j,
    str_eq_refl i,
    str_eq_refl k,
    str_eq_refl j,
  )

  pub In-keys_of_get : (m : Map V) (k : Str) {v : V} → get m k ≡ some v → In k (keys m)
  unfolding get keys
  In-keys_of_get [] k h = cc
  In-keys_of_get ((j, w) ∷ m) k h = elim (Bool-cases (str_eq j k)) [
    | inl e ↦ rw (← eq_of_str_eq j k e) here
    | inr e ↦ there (In-keys_of_get m k (rw e at h))
  ]
