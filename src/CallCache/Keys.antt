-- ===== src/CallCache/Keys.antt =====
-- The keys of the cache, and the order of the fields of an object.
use lumenqraph.Base.{map, ◌≡◌, refl, ap, ◌∙◌, false, List, [], ◌∷◌, ◌++◌, arith}
use mathlib.Core.Path.{ap₂}
use lumenqraph.Base.Str.{
  Str, lit, str_eq, str_eq_refl, str_ltb_irrefl, str_ltb_trans, str_ltb_total, join,
}
use lumenqraph.Json.{Json, Items, Fields, array, object, no_items, item, no_fields, field}
use lumenqraph.CallCache.{
  make_key, CallScope, insert_by_key, normalize_json, normalize_items, sorted_fields, pair,
}

-- The same values up to the order of the fields of objects, at every depth. The fields that
-- change places have different names.
mutual
  pub data Same {Number : Type 0} : Json Number → Json Number → Type 0 where
    same : (x : Json Number) → Same x x
    same_array : {xs ys : Items Number} → SameItems xs ys → Same (array xs) (array ys)
    same_object : {m n : Fields Number} → SameFields m n → Same (object m) (object n)

  pub data SameItems {Number : Type 0} : Items Number → Items Number → Type 0 where
    none_left : SameItems no_items no_items
    same_item :
        {x y : Json Number} {xs ys : Items Number}
        → Same x y
        → SameItems xs ys
        → SameItems (item x xs) (item y ys)

  pub data SameFields {Number : Type 0} : Fields Number → Fields Number → Type 0 where
    no_more : SameFields no_fields no_fields
    same_field :
        {x y : Json Number} {m n : Fields Number} (k : Str)
        → Same x y
        → SameFields m n
        → SameFields (field k x m) (field k y n)
    swapped :
        {x y : Json Number} {m : Fields Number} (j k : Str)
        → str_eq j k ≡ false
        → SameFields (field j x (field k y m)) (field k y (field j x m))
    chained : {l m n : Fields Number} → SameFields l m → SameFields m n → SameFields l n

insert_by_key_comm :
    (j k v w : Str) (rest : List (Str × Str))
    → str_eq j k ≡ false
    → insert_by_key j v (insert_by_key k w rest) ≡ insert_by_key k w (insert_by_key j v rest)
unfolding insert_by_key
insert_by_key_comm j k v w [] h =
    ground (arith, str_ltb_total j k, str_ltb_trans j k j, str_ltb_irrefl j, str_eq_refl j, h)
insert_by_key_comm j k v w ((i, u) ∷ rest) h = ground (
  arith,
  insert_by_key_comm j k v w rest h,
  str_ltb_total j k,
  str_ltb_trans j k j,
  str_ltb_irrefl j,
  str_eq_refl j,
  h,
  str_ltb_trans i j k,
  str_ltb_trans i k j,
  str_ltb_trans j i k,
  str_ltb_trans k i j,
)

module _ {Number : Type 0} (to_string : Json Number → Str) where
  mutual
    unfolding normalize_json

    Same-normalize :
        {x y : Json Number} → Same x y → normalize_json to_string x ≡ normalize_json to_string y
    Same-normalize (same x) = refl
    Same-normalize (same_array e) = ap (λ l. lit "[" ++ join (lit ",") l ++ lit "]") (same-items e)
    Same-normalize (same_object e) =
        ap (λ l. lit "{" ++ join (lit ",") (map pair l) ++ lit "}") (same-fields e)

    same-items :
        {xs ys : Items Number}
        → SameItems xs ys
        → normalize_items to_string xs ≡ normalize_items to_string ys
    same-items none_left = refl
    same-items (same_item e f) = ap₂ ◌∷◌ (Same-normalize e) (same-items f)

    same-fields :
        {m n : Fields Number}
        → SameFields m n
        → sorted_fields to_string m ≡ sorted_fields to_string n
    same-fields no_more = refl
    same-fields (same_field k e f) = ap₂ (insert_by_key k) (Same-normalize e) (same-fields f)
    same-fields (swapped {x = x} {y = y} {m = m} j k h) =
        insert_by_key_comm j k (normalize_json to_string x) (normalize_json to_string y)
          (sorted_fields to_string m) h
    same-fields (chained e f) = same-fields e ∙ same-fields f

-- Two calls whose arguments differ only in the order of the fields of objects, at any depth, have the
-- same key.
pub make_key-Same :
    {Number : Type 0} (to_string : Json Number → Str) (contract_id function : Str)
    (x y : Json Number) (scope : CallScope)
    → Same x y
    → make_key to_string contract_id function x scope
      ≡ make_key to_string contract_id function y scope
make_key-Same to_string contract_id function x y scope e = rw (Same-normalize to_string e) refl
