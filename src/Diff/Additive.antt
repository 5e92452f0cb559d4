-- ===== src/Diff/Additive.antt =====
-- What a change has to be to count as potentially breaking only.
use lumenqraph.Base.{
  ◌≤◌, ◌<◌, ◌≡◌, refl, Bool, true, false, some, List, [], ◌∷◌, ◌++◌, map, length, drop, is_nil, any,
  arith, Bool-cases, inl, inr, In, here, there,
}
use lumenqraph.Base.Str.{Str, lit, join, eq_of_str_eq, eq_of_strs_eq}
use lumenqraph.Spec.{EventParam, EventSpec, UnionCase, EnumCase}
use lumenqraph.Diff.Reclassify.{
  zip_all, same_param, added_name, eq_ignore_case, map_event_added_fields, appended_cases,
  same_case, same_enum_case,
}

-- The longer list is the shorter one with a tail, if the shared part agrees and the test is
-- equality.
module _ {A : Type 0} (same : A → A → Bool) (eq_of_same : (x y : A) → same x y ≡ true → x ≡ y) where
  zip_all-prefix :
      (xs ys : List A)
      → length xs ≤ length ys
      → zip_all same xs ys ≡ true
      → ys ≡ xs ++ drop (length xs) ys
  unfolding zip_all
  zip_all-prefix [] ys le h = refl
  zip_all-prefix (x ∷ xs) [] le h = absurd (omega arith)
  zip_all-prefix (x ∷ xs) (y ∷ ys) le h = elim (Bool-cases (same x y)) [
    | inl e ↦ cc (eq_of_same x y e, zip_all-prefix xs ys (omega arith) (rw e at h))
    | inr e ↦ cc (e, h)
  ]

eq_of_same_param : (o n : EventParam) → same_param o n ≡ true → o ≡ n
unfolding same_param
eq_of_same_param o n h = ground (
  arith,
  eq_of_str_eq o.name n.name,
  eq_of_str_eq o.type_name n.type_name,
  eq_of_str_eq o.location n.location,
)

pub eq_of_same_case : (o n : UnionCase) → same_case o n ≡ true → o ≡ n
unfolding same_case
eq_of_same_case o n h =
    ground (arith, eq_of_str_eq o.name n.name, eq_of_strs_eq o.type_names n.type_names)

eq_of_same_enum_case : (o n : EnumCase) → same_enum_case o n ≡ true → o ≡ n
unfolding same_enum_case
eq_of_same_enum_case o n h = ground (arith, eq_of_str_eq o.name n.name)

module _ {A : Type 0} (same : A → A → Bool) (eq_of_same : (x y : A) → same x y ≡ true → x ≡ y)
    (name_of : A → Str) where
  -- For a test that implies equality, cases are described as appended only if the old cases stand
  -- unchanged in front of at least one more.
  appended_cases-prefix :
      (o n : List A) {d : Str}
      → appended_cases same name_of o n ≡ some d
      → (n ≡ o ++ drop (length o) n) × (length o < length n)
  unfolding appended_cases
  appended_cases-prefix o n h = ground (arith, zip_all-prefix same eq_of_same o n)

-- Where no parameter outside the data is among the added ones.
locations_of_added :
    (ps : List EventParam)
    → any is_nil (map added_name ps) ≡ false
    → {p : EventParam} → In p ps
    → eq_ignore_case p.location (lit "data") ≡ true
unfolding any added_name
locations_of_added [] h m = elim m [ ]
locations_of_added (q ∷ ps) h here = ground arith
locations_of_added (q ∷ ps) h (there m) = locations_of_added ps (ground arith) m

-- The data is a map before and after, the old parameters stand unchanged in front of at least one more, and all that are added are in
-- the data.
pub record IsExtended (before after : EventSpec) : Type 0 where
  pub format : after.data_format ≡ before.data_format
  pub is_map : eq_ignore_case before.data_format (lit "map") ≡ true
  pub prefix : after.params ≡ before.params ++ drop (length before.params) after.params
  pub more : length before.params < length after.params
  pub in_data :
      (p : EventParam)
      → In p (drop (length before.params) after.params)
      → eq_ignore_case p.location (lit "data") ≡ true

-- An event has its added fields described only if its data is a map, and it is the old event with
-- more parameters, all of them in its data.
pub added_fields-IsExtended :
    (before after : EventSpec) {d : Str}
    → map_event_added_fields before after ≡ some d
    → IsExtended before after
unfolding map_event_added_fields
added_fields-IsExtended before after h = record {
  format = ground (arith, eq_of_str_eq before.data_format after.data_format);
  is_map = ground (arith, eq_of_str_eq before.data_format after.data_format);
  prefix = ground (arith, zip_all-prefix same_param eq_of_same_param before.params after.params);
  more = ground arith;
  in_data = λ p m. locations_of_added _ (ground arith) m;
}

-- The description names the added parameters.
pub added_fields-description :
    (before after : EventSpec) {d : Str}
    → map_event_added_fields before after ≡ some d
    → d
      ≡ lit "added field(s) "
        ++ join (lit ", ") (map added_name (drop (length before.params) after.params))
unfolding map_event_added_fields
added_fields-description before after h = ground (arith, h)
