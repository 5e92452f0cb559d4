-- ===== src/Base/Str.antt =====
-- A Rust `String` or `&str`: the list of its UTF-8 bytes. Equality and order are those of the
-- bytes, as in the standard library.
use Prim.Native.Char.{code}
use Prim.Native.String.{String}
use Prim.Native.Nat.{ℕ}
use mathlib.Core.Path.{◌≡◌, refl}
use mathlib.Core.Logic.{◌↔◌}
use mathlib.Core.Bool.{Bool, true, false, ◌&&◌}
use mathlib.Core.List.{List, [], ◌∷◌, ◌++◌}
use native.Mathlib.Omega.{arith}
use lumenqraph.Base.Tests.{ltb, ◌==◌, if◌then◌else◌}

abbrev pub Str : Type 0
Str = List ℕ

-- The bytes of an ASCII literal.
abbrev pub lit : String → Str
lit String.[] = []
lit (String.◌∷◌ c s) = code c ∷ lit s

unfoldable pub str_eq : Str → Str → Bool
str_eq [] [] = true
str_eq [] (y ∷ ys) = false
str_eq (x ∷ xs) [] = false
str_eq (x ∷ xs) (y ∷ ys) = x == y && str_eq xs ys

pub eq_of_str_eq : (s t : Str) → str_eq s t ≡ true → s ≡ t
unfolding str_eq
eq_of_str_eq [] [] h = refl
eq_of_str_eq [] (y ∷ ys) h = cc
eq_of_str_eq (x ∷ xs) [] h = cc
eq_of_str_eq (x ∷ xs) (y ∷ ys) h = ground (arith, eq_of_str_eq xs ys)

pub str_eq_refl : (s : Str) → str_eq s s ≡ true
unfolding str_eq
str_eq_refl [] = refl
str_eq_refl (x ∷ xs) = ground (arith, str_eq_refl xs)

pub str_eq_iff : (s t : Str) → (str_eq s t ≡ true) ↔ (s ≡ t)
str_eq_iff s t = (eq_of_str_eq s t, λ e. ground (arith, e, str_eq_refl s))

-- The lexicographic order.
unfoldable pub str_ltb : Str → Str → Bool
str_ltb [] [] = false
str_ltb [] (y ∷ ys) = true
str_ltb (x ∷ xs) [] = false
str_ltb (x ∷ xs) (y ∷ ys) = if x == y then str_ltb xs ys else ltb x y

pub str_ltb_irrefl : (s : Str) → str_ltb s s ≡ false
unfolding str_ltb
str_ltb_irrefl [] = refl
str_ltb_irrefl (x ∷ xs) = ground (arith, str_ltb_irrefl xs)

pub str_ltb_trans : (s t u : Str) → str_ltb s t ≡ true → str_ltb t u ≡ true → str_ltb s u ≡ true
unfolding str_ltb
str_ltb_trans s [] u h k = absurd_left s h
  where
    absurd_left : (s : Str) → str_ltb s [] ≡ true → str_ltb s u ≡ true
    absurd_left [] h = cc
    absurd_left (x ∷ xs) h = cc
str_ltb_trans s (y ∷ ys) [] h k = cc
str_ltb_trans [] (y ∷ ys) (z ∷ zs) h k = refl
str_ltb_trans (x ∷ xs) (y ∷ ys) (z ∷ zs) h k = ground (arith, str_ltb_trans xs ys zs)

-- Of two strings, one is the lesser unless they are equal.
pub str_ltb_total : (s t : Str) → str_ltb s t ≡ false → str_ltb t s ≡ false → s ≡ t
unfolding str_ltb
str_ltb_total [] [] h k = refl
str_ltb_total [] (y ∷ ys) h k = cc
str_ltb_total (x ∷ xs) [] h k = cc
str_ltb_total (x ∷ xs) (y ∷ ys) h k = ground (arith, str_ltb_total xs ys)

-- `[a, b, c].join(sep)`.
unfoldable pub join : Str → List Str → Str
join sep [] = []
join sep (x ∷ []) = x
join sep (x ∷ y ∷ ys) = x ++ sep ++ join sep (y ∷ ys)

-- `==` on `&[String]`.
unfoldable pub strs_eq : List Str → List Str → Bool
strs_eq [] [] = true
strs_eq [] (y ∷ ys) = false
strs_eq (x ∷ xs) [] = false
strs_eq (x ∷ xs) (y ∷ ys) = str_eq x y && strs_eq xs ys

pub eq_of_strs_eq : (xs ys : List Str) → strs_eq xs ys ≡ true → xs ≡ ys
unfolding strs_eq
eq_of_strs_eq [] [] h = refl
eq_of_strs_eq [] (y ∷ ys) h = cc
eq_of_strs_eq (x ∷ xs) [] h = cc
eq_of_strs_eq (x ∷ xs) (y ∷ ys) h = ground (arith, eq_of_str_eq x y, eq_of_strs_eq xs ys)

pub strs_eq_refl : (xs : List Str) → strs_eq xs xs ≡ true
unfolding strs_eq
strs_eq_refl [] = refl
strs_eq_refl (x ∷ xs) = ground (arith, str_eq_refl x, strs_eq_refl xs)

pub strs_eq_iff : (xs ys : List Str) → (strs_eq xs ys ≡ true) ↔ (xs ≡ ys)
strs_eq_iff xs ys = (eq_of_strs_eq xs ys, λ e. rw e (strs_eq_refl ys))
