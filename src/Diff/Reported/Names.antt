-- ===== src/Diff/Reported/Names.antt =====
-- The names that the loop goes through are those of the two maps.
use lumenqraph.Base.{
  ◌≡◌, inl, inr, some, List, [], ◌∷◌, ◌++◌, In, here, there, In-append_left, In-append_right,
  In-cons-map, Bool-cases,
}
use lumenqraph.Base.Str.{Str, str_eq, eq_of_str_eq, str_ltb}
use lumenqraph.Base.Maps.{Map, get, insert, keys, In-keys_of_get}
use lumenqraph.Diff.Sections.{collect, names}

In-keys-insert_self : (k : Str) (m : Map (Unit {0})) → In k (keys (insert k tt m))
unfolding keys insert
In-keys-insert_self k [] = here
In-keys-insert_self k ((j, v) ∷ m) = elim (Bool-cases (str_eq j k)) [
  | inl e ↦ rw e here
  | inr e ↦ rw e (elim (Bool-cases (str_ltb k j)) [
    | inl l ↦ rw l here
    | inr g ↦ rw g (there (In-keys-insert_self k m))
  ])
]

In-keys-insert : (k n : Str) (m : Map (Unit {0})) → In n (keys m) → In n (keys (insert k tt m))
unfolding keys insert
In-keys-insert k n [] h = elim h [ ]
In-keys-insert k n ((j, v) ∷ m) h = elim (Bool-cases (str_eq j k)) [
  | inl e ↦ rw e (rw (← eq_of_str_eq j k e) h)
  | inr e ↦ rw e (elim (Bool-cases (str_ltb k j)) [
    | inl l ↦ rw l (there h)
    | inr g ↦ rw g (In-cons-map (In-keys-insert k n m) h)
  ])
]

In-collect_of_set :
    (n : Str) (ks : List Str) (set : Map (Unit {0}))
    → In n (keys set)
    → In n (keys (collect ks set))
unfolding collect
In-collect_of_set n [] set h = h
In-collect_of_set n (k ∷ ks) set h =
    In-collect_of_set n ks (insert k tt set) (In-keys-insert k n set h)

In-collect :
    (n : Str) (ks : List Str) (set : Map (Unit {0})) → In n ks → In n (keys (collect ks set))
unfolding collect
In-collect n [] set h = elim h [ ]
In-collect n (k ∷ ks) set here =
    In-collect_of_set k ks (insert k tt set) (In-keys-insert_self k set)
In-collect n (k ∷ ks) set (there h) = In-collect n ks (insert k tt set) h

-- A name that either map holds is gone through.
pub In-names_old :
    (old new : Map Str) (n : Str) {v : Str} → get old n ≡ some v → In n (names old new)
unfolding names
In-names_old old new n h =
    In-collect n (keys old ++ keys new) []
      (In-append_left (keys old) (keys new) (In-keys_of_get old n h))

pub In-names_new :
    (old new : Map Str) (n : Str) {v : Str} → get new n ≡ some v → In n (names old new)
unfolding names
In-names_new old new n h =
    In-collect n (keys old ++ keys new) []
      (In-append_right (keys old) (keys new) (In-keys_of_get new n h))
