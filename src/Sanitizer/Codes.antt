-- ===== src/Sanitizer/Codes.antt =====
-- Which code is read out of an error message.
use lumenqraph.Base.{
  ℕ, ◌^◌, ◌≤◌, ◌<◌, ◌≡◌, refl, ap, ◌∙◌, Bool, true, false, none, some, [], ◌∷◌, ◌++◌, length, drop,
  all, length-append, arith,
}
use mathlib.Core.List.{append_assoc, append-nil}
use lumenqraph.Base.Str.{lit}
use lumenqraph.Base.Decimal.{is_digit, decimal, parse_digits-whole, decimal-first, all-decimal}
use lumenqraph.Base.Text.{
  Text, starts_with, drop_while, take_while, starts_with-longer, starts_with_self,
}
use lumenqraph.Sanitizer.{find_after, parse_u32, contract_error, parse_contract_error_code}

drop-append : (xs ys : Text) → drop (length xs) (xs ++ ys) ≡ ys
drop-append [] ys = refl
drop-append (x ∷ xs) ys = drop-append xs ys

find_after-here : (p rest : Text) → find_after p (p ++ rest) ≡ some rest
unfolding find_after starts_with
find_after-here [] [] = refl
find_after-here [] (c ∷ cs) = refl
find_after-here (p ∷ ps) rest = rw (starts_with_self (p ∷ ps) rest, drop-append ps rest) refl

-- Behind a text that does not hold the pattern, and does not begin it, the pattern is found where it stands.
find_after-first :
    (p start : Text) (last : ℕ) (before rest : Text)
    → p ≡ start ++ last ∷ []
    → find_after p (before ++ start) ≡ none
    → find_after p (before ++ (p ++ rest)) ≡ some rest
unfolding find_after
find_after-first p start last [] rest e h = find_after-here p rest
find_after-first p start last (c ∷ cs) rest e h =
    let here : starts_with p (c ∷ (cs ++ start)) ≡ false = ground (arith, h) in
    let later : find_after p (cs ++ start) ≡ none = ground (arith, h) in
    let whole : cs ++ (p ++ rest) ≡ (cs ++ start) ++ last ∷ rest =
      rw (e, append_assoc start (last ∷ []) rest, append_assoc cs start (last ∷ rest)) refl in
    let long : length p ≤ length (c ∷ (cs ++ start)) =
      omega (arith, ap length e, length-append start (last ∷ []), length-append cs start) in
    let shut : starts_with p (c ∷ (cs ++ (p ++ rest))) ≡ false =
      rw whole (starts_with-longer p (c ∷ (cs ++ start)) (last ∷ rest) long ∙ here) in
    rw shut (find_after-first p start last cs rest e later)

take_while-append :
    (p : ℕ → Bool) (xs rest : Text)
    → all p xs ≡ true
    → take_while p (xs ++ rest) ≡ xs ++ take_while p rest
unfolding take_while all
take_while-append p [] rest h = refl
take_while-append p (x ∷ xs) rest h = ground (arith, h, take_while-append p xs rest)

parse_u32-decimal : (n : ℕ) → n < 2 ^ 32 → parse_u32 (decimal n) ≡ some n
parse_u32-decimal n h =
    let (d, ds, e, dig) = decimal-first n in
    let whole = parse_digits-whole n in rw e (rw (rw e at whole) (ground (arith, h)))

-- `Error(Contract, #n)` in a message is read as n, for each n below 2^32, whatever follows the
-- number but a digit, if the text before neither holds `Error(Contract` nor ends with a part of it
-- that the rest completes.
pub parse_contract_error_code-printed :
    (before rest : Text) (n : ℕ)
    → n < 2 ^ 32
    → find_after contract_error (before ++ lit "Error(Contrac") ≡ none
    → take_while is_digit rest ≡ []
    → parse_contract_error_code (before ++ (contract_error ++ (lit ", #" ++ (decimal n ++ rest))))
      ≡ some n
unfolding parse_contract_error_code drop_while
parse_contract_error_code-printed before rest n l h k =
    rw
      (find_after-first contract_error (lit "Error(Contrac") b't' before
        (lit ", #" ++ (decimal n ++ rest)) refl h)
      (rw (take_while-append is_digit (decimal n) rest (all-decimal n), k, append-nil (decimal n))
        (parse_u32-decimal n l))
