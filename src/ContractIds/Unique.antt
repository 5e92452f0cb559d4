-- ===== src/ContractIds/Unique.antt =====
-- Keeping the first of equal entries, against a definition that removes the later ones.
use lumenqraph.Base.{
  ◌≡◌, refl, sym, ap, ◌∙◌, Bool, true, not, ◌&&◌, List, [], ◌∷◌, ◌++◌, inl, inr, Bool-cases, arith,
}
use mathlib.Core.List.{append_assoc, append-nil}
use lumenqraph.Base.Str.{str_eq, eq_of_str_eq, str_eq_refl}
use lumenqraph.Base.Text.{Text, filter}
use lumenqraph.ContractIds.{contains, dedup}

-- Each entry, without the later ones that equal it.
unfoldable pub firsts : List Text → List Text
firsts [] = []
firsts (x ∷ xs) = x ∷ filter (λ y. not (str_eq x y)) (firsts xs)

-- No entry occurs again behind itself.
unfoldable pub is_unique : List Text → Bool
is_unique [] = true
is_unique (x ∷ xs) = not (contains xs x) && is_unique xs

filter-filter :
    (p q r : Text → Bool)
    → ((y : Text) → r y ≡ (q y && p y))
    → (xs : List Text) → filter p (filter q xs) ≡ filter r xs
unfolding filter
filter-filter p q r e [] = refl
filter-filter p q r e (x ∷ xs) = ground (arith, e x, filter-filter p q r e xs)

-- What is in the set stays out of the list.
abbrev unseen : List Text → Text → Bool
unseen seen y = not (contains seen y)

contains-eq :
    (seen : List Text) (x y : Text)
    → contains seen x ≡ true
    → str_eq x y ≡ true
    → contains seen y ≡ true
contains-eq seen x y h e = rw (eq_of_str_eq x y e) at h

dedup-firsts :
    (seen ids xs : List Text) → dedup seen ids xs ≡ ids ++ filter (unseen seen) (firsts xs)
unfolding dedup firsts filter contains
dedup-firsts seen ids [] = sym (append-nil ids)
dedup-firsts seen ids (x ∷ xs) = elim (Bool-cases (contains seen x)) [
  | inl h ↦
      rw
        (
          h,
          filter-filter (unseen seen) (λ y. not (str_eq x y)) (unseen seen)
              (λ y. ground (arith, contains-eq seen x y h)) (firsts xs),
        )
        (dedup-firsts seen ids xs)
  | inr h ↦
      rw
        (
          h,
          filter-filter (unseen seen) (λ y. not (str_eq x y)) (unseen (x ∷ seen))
              (λ y. ground arith) (firsts xs),
        )
        (dedup-firsts (x ∷ seen) (ids ++ x ∷ []) xs
          ∙ append_assoc ids (x ∷ []) (filter (unseen (x ∷ seen)) (firsts xs)))
]

filter-all : (xs : List Text) → filter (λ y. not (contains [] y)) xs ≡ xs
unfolding filter contains
filter-all [] = refl
filter-all (x ∷ xs) = ap (◌∷◌ x) (filter-all xs)

-- The loop, from its start.
pub dedup_lem : (xs : List Text) → dedup [] [] xs ≡ firsts xs
dedup_lem xs = dedup-firsts [] [] xs ∙ filter-all (firsts xs)

contains-filter :
    (p : Text → Bool) (xs : List Text) (y : Text)
    → contains (filter p xs) y ≡ (contains xs y && p y)
unfolding contains filter
contains-filter p [] y = refl
contains-filter p (x ∷ xs) y = elim (Bool-cases (str_eq x y)) [
  | inl e ↦ ground (arith, e, ap p (eq_of_str_eq x y e), contains-filter p xs y)
  | inr e ↦ ground (arith, e, contains-filter p xs y)
]

-- The same entries.
pub contains-firsts : (xs : List Text) (y : Text) → contains (firsts xs) y ≡ contains xs y
unfolding contains firsts
contains-firsts [] y = refl
contains-firsts (x ∷ xs) y =
    ground (arith, contains-filter (λ z. not (str_eq x z)) (firsts xs) y, contains-firsts xs y)

is_unique-filter :
    (p : Text → Bool) (xs : List Text) → is_unique xs ≡ true → is_unique (filter p xs) ≡ true
unfolding is_unique filter
is_unique-filter p [] h = refl
is_unique-filter p (x ∷ xs) h = ground (arith, h, contains-filter p xs x, is_unique-filter p xs)

pub is_unique-firsts : (xs : List Text) → is_unique (firsts xs) ≡ true
unfolding is_unique firsts
is_unique-firsts [] = refl
is_unique-firsts (x ∷ xs) = ground (
  arith,
  contains-filter (λ z. not (str_eq x z)) (firsts xs) x,
  str_eq_refl x,
  is_unique-filter (λ z. not (str_eq x z)) (firsts xs) (is_unique-firsts xs),
)
