-- ===== src/Base/Sort.antt =====
-- `Vec<String>::sort`, compared with permutations. Equal strings are indistinguishable, so every stable sort is this one.
use mathlib.Core.Path.{◌≡◌, refl, ap, ◌∙◌}
use mathlib.Core.Logic.{∥∥₁_elim, inl, inr}
use mathlib.Core.List.{List, [], ◌∷◌, Perm, Permᴰ}
use mathlib.Core.List.Perm
use native.Mathlib.Omega.{arith}
use native.Mathlib.Nat.{ℕ_set}
use Prim.Native.Nat.{suc}
use lumenqraph.Base.Lists.{length}
use lumenqraph.Base.Tests.{if◌then◌else◌, Bool-cases}
use lumenqraph.Base.Str.{Str, str_ltb, str_ltb_irrefl, str_ltb_trans, str_ltb_total}

unfoldable pub insert_sorted : Str → List Str → List Str
insert_sorted a [] = a ∷ []
insert_sorted a (x ∷ xs) = if str_ltb x a then x ∷ insert_sorted a xs else a ∷ x ∷ xs

unfoldable pub sort : List Str → List Str
unfolding insert_sorted
sort [] = []
sort (x ∷ xs) = insert_sorted x (sort xs)

insert_sorted-perm : (a : Str) (xs : List Str) → Perm (insert_sorted a xs) (a ∷ xs)
unfolding insert_sorted
insert_sorted-perm a [] = Perm.refl (a ∷ [])
insert_sorted-perm a (x ∷ xs) = elim (Bool-cases (str_ltb x a)) [
  | inl e ↦ rw e (Perm.trans (Perm.cons x (insert_sorted-perm a xs)) (Perm.swap a x xs))
  | inr e ↦ rw e (Perm.refl (a ∷ x ∷ xs))
]

pub sort-perm : (xs : List Str) → Perm (sort xs) xs
unfolding sort
sort-perm [] = Perm.refl []
sort-perm (x ∷ xs) = Perm.trans (insert_sorted-perm x (sort xs)) (Perm.cons x (sort-perm xs))

insert_sorted_comm :
    (a b : Str) (xs : List Str)
    → insert_sorted a (insert_sorted b xs) ≡ insert_sorted b (insert_sorted a xs)
unfolding insert_sorted
insert_sorted_comm a b [] = ground (arith, str_ltb_total a b, str_ltb_trans a b a, str_ltb_irrefl a)
insert_sorted_comm a b (x ∷ xs) = ground (
  arith,
  insert_sorted_comm a b xs,
  str_ltb_total a b,
  str_ltb_trans a b a,
  str_ltb_irrefl a,
  str_ltb_trans x a b,
  str_ltb_trans x b a,
  str_ltb_trans a x b,
  str_ltb_trans b x a,
)

sort-eq_of_Permᴰ : {xs ys : List Str} → Permᴰ xs ys → sort xs ≡ sort ys
unfolding sort
sort-eq_of_Permᴰ Permᴰ.nil = refl
sort-eq_of_Permᴰ (Permᴰ.cons {a = a} {l₂ = l} e p) =
    ap (insert_sorted a) (sort-eq_of_Permᴰ p) ∙ ap (λ c. insert_sorted c (sort l)) e
sort-eq_of_Permᴰ (Permᴰ.swap {a = a} {b = b} {l = l} e f) =
    rw (← e, ← f) (insert_sorted_comm a b (sort l))
sort-eq_of_Permᴰ (Permᴰ.trans p q) = sort-eq_of_Permᴰ p ∙ sort-eq_of_Permᴰ q

Str-list_set : IsSet (List Str)
Str-list_set = hlevel

-- Sorting identifies exactly the lists that are permutations of one another.
pub sort-eq_of_perm : (xs ys : List Str) → Perm xs ys → sort xs ≡ sort ys
sort-eq_of_perm xs ys p = ∥∥₁_elim p (Str-list_set (sort xs) (sort ys)) sort-eq_of_Permᴰ

pub perm_of_sort-eq : (xs ys : List Str) → sort xs ≡ sort ys → Perm xs ys
perm_of_sort-eq xs ys e = Perm.trans (Perm.symm (sort-perm xs)) (rw e (sort-perm ys))

length-Permᴰ : {xs ys : List Str} → Permᴰ xs ys → length xs ≡ length ys
length-Permᴰ Permᴰ.nil = refl
length-Permᴰ (Permᴰ.cons e p) = ap suc (length-Permᴰ p)
length-Permᴰ (Permᴰ.swap e f) = refl
length-Permᴰ (Permᴰ.trans p q) = length-Permᴰ p ∙ length-Permᴰ q

pub length-perm : (xs ys : List Str) → Perm xs ys → length xs ≡ length ys
length-perm xs ys p = ∥∥₁_elim p (ℕ_set (length xs) (length ys)) length-Permᴰ
