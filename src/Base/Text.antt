-- ===== src/Base/Text.antt =====
-- A Rust `&str` read by its characters: the list of their code points, and what the standard
-- library does with them.
use Prim.Native.Nat.{ℕ, ◌≤◌}
use mathlib.Core.Path.{◌≡◌, refl}
use mathlib.Core.Logic.{inl, inr}
use mathlib.Core.Bool.{Bool, true, false, not, ◌&&◌, ◌||◌}
use mathlib.Core.List.{List, [], ◌∷◌, ◌++◌}
use native.Mathlib.Omega.{arith}
use lumenqraph.Base.Tests.{leb, ◌==◌, if◌then◌else◌, Bool-cases}
use lumenqraph.Base.Lists.{is_nil, all, length}

abbrev pub Text : Type 0
Text = List ℕ

-- `char::is_control` and `char::is_whitespace`.
abbrev pub is_control : ℕ → Bool
is_control c = leb c 0x1f || leb 0x7f c && leb c 0x9f

abbrev pub is_whitespace : ℕ → Bool
is_whitespace c =
    leb 9 c && leb c 13
    || c == 0x20
    || c == 0x85
    || c == 0xa0
    || c == 0x1680
    || leb 0x2000 c && leb c 0x200a
    || c == 0x2028
    || c == 0x2029
    || c == 0x202f
    || c == 0x205f
    || c == 0x3000

-- `Iterator::filter`.
unfoldable pub filter : {A : Type 0} → (A → Bool) → List A → List A
filter p [] = []
filter p (x ∷ xs) = let rest = filter p xs in if p x then x ∷ rest else rest

unfoldable pub starts_with : Text → Text → Bool
starts_with [] t = true
starts_with (p ∷ ps) [] = false
starts_with (p ∷ ps) (c ∷ cs) = p == c && starts_with ps cs

-- `trim_start_matches`.
unfoldable pub drop_while : (ℕ → Bool) → Text → Text
drop_while p [] = []
drop_while p (c ∷ cs) = let rest = drop_while p cs in if p c then rest else c ∷ cs

unfoldable pub take_while : (ℕ → Bool) → Text → Text
take_while p [] = []
take_while p (c ∷ cs) = let rest = take_while p cs in if p c then c ∷ rest else []

-- `trim_end`, for white space.
unfoldable pub trim_end : Text → Text
trim_end [] = []
trim_end (c ∷ cs) =
    let rest = trim_end cs in if is_whitespace c && is_nil rest then [] else c ∷ rest

unfoldable pub trim : Text → Text
unfolding drop_while trim_end
trim t = trim_end (drop_while is_whitespace t)

abbrev pub on_head : ℕ → List Text → List Text
on_head c [] = (c ∷ []) ∷ []
on_head c (w ∷ ws) = (c ∷ w) ∷ ws

-- `str::split` at the characters with a property: one more part than there are such characters.
unfoldable pub split : (ℕ → Bool) → Text → List Text
split p [] = [] ∷ []
split p (c ∷ cs) = let rest = split p cs in if p c then [] ∷ rest else on_head c rest

unfoldable pub split_whitespace : Text → List Text
unfolding split filter
split_whitespace t = filter (λ w. not (is_nil w)) (split is_whitespace t)

-- What holds of every character of a text holds of those of its parts, and a part has no separator.
pub all-split :
    (p q : ℕ → Bool) (t : Text)
    → all q t ≡ true
    → all (all (λ c. not (p c) && q c)) (split p t) ≡ true
unfolding split all
all-split p q [] h = refl
all-split p q (c ∷ cs) h =
    go (split p cs) (all-split p q cs (ground (arith, h))) (ground (arith, h))
  where
    go :
        (rest : List Text)
        → all (all (λ d. not (p d) && q d)) rest ≡ true
        → q c ≡ true
        → all (all (λ d. not (p d) && q d)) (if p c then [] ∷ rest else on_head c rest) ≡ true
    go [] r e = ground (arith, e)
    go (w ∷ ws) r e = ground (arith, r, e)

pub all-filter :
    {A : Type 0} (p q : A → Bool) (xs : List A) → all q xs ≡ true → all q (filter p xs) ≡ true
unfolding filter all
all-filter p q [] h = refl
all-filter p q (x ∷ xs) h = ground (arith, h, all-filter p q xs)

pub all-filter_self : {A : Type 0} (p : A → Bool) (xs : List A) → all p (filter p xs) ≡ true
unfolding filter all
all-filter_self p [] = refl
all-filter_self p (x ∷ xs) = ground (arith, all-filter_self p xs)

-- The end of a text does not matter to a pattern that it has in front.
pub starts_with-append :
    (p t rest : Text) → starts_with p t ≡ true → starts_with p (t ++ rest) ≡ true
unfolding starts_with
starts_with-append [] t rest h = refl
starts_with-append (p ∷ ps) [] rest h = cc
starts_with-append (p ∷ ps) (c ∷ cs) rest h = ground (arith, h, starts_with-append ps cs rest)

-- What follows as many characters as the pattern has does not matter to it.
pub starts_with-longer :
    (p t rest : Text) → length p ≤ length t → starts_with p (t ++ rest) ≡ starts_with p t
unfolding starts_with
starts_with-longer [] t rest h = refl
starts_with-longer (p ∷ ps) [] rest h = ground arith
starts_with-longer (p ∷ ps) (c ∷ cs) rest h = ground (arith, starts_with-longer ps cs rest)

pub starts_with_self : (p rest : Text) → starts_with p (p ++ rest) ≡ true
unfolding starts_with
starts_with_self [] rest = refl
starts_with_self (p ∷ ps) rest = ground (arith, starts_with_self ps rest)

-- A character that the pattern does not have ends the part of the text that matters to it.
pub starts_with-stop :
    (p t rest : Text) (c : ℕ)
    → all (λ d. not (d == c)) p ≡ true
    → starts_with p (t ++ c ∷ rest) ≡ starts_with p t
unfolding starts_with all
starts_with-stop [] t rest c h = refl
starts_with-stop (p ∷ ps) [] rest c h = ground (arith, h)
starts_with-stop (p ∷ ps) (d ∷ ds) rest c h = ground (arith, h, starts_with-stop ps ds rest c)

-- `trim_end` leaves a prefix.
pub trim_end-prefix : (t : Text) → (rest : Text) × (t ≡ trim_end t ++ rest)
unfolding trim_end
trim_end-prefix [] = ([], refl)
trim_end-prefix (c ∷ cs) = let (rest, e) = trim_end-prefix cs in go (trim_end cs) rest e
  where
    go :
        (shorter rest : Text)
        → cs ≡ shorter ++ rest
        → (after : Text) × (c ∷ cs
            ≡ (if is_whitespace c && is_nil shorter then [] else c ∷ shorter) ++ after)
    go [] rest e = elim (Bool-cases (is_whitespace c)) [
      | inl t ↦ (c ∷ cs, rw t refl)
      | inr f ↦ (rest, rw (f, e) refl)
    ]
    go (d ∷ ds) rest e = elim (Bool-cases (is_whitespace c)) [
      | inl t ↦ (rest, rw (t, e) refl)
      | inr f ↦ (rest, rw (f, e) refl)
    ]
