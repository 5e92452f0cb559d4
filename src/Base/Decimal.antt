-- ===== src/Base/Decimal.antt =====
-- Decimal integers of the standard library: `to_string` and `parse::<i64>`.
use Prim.Native.Nat.{ℕ, zero, suc, ◌+◌, ◌-◌, ◌*◌, ◌/◌, ◌%◌, ◌^◌, ◌≤◌, ◌<◌}
use mathlib.Core.Path.{◌≡◌, refl, ◌∙◌}
use mathlib.Core.Logic.{inl, inr}
use mathlib.Core.Bool.{Bool, true, ◌&&◌, ◌||◌}
use mathlib.Core.Option.{Option, none, some}
use lumenqraph.Base.Lists.{all}
use mathlib.Core.List.{List, [], ◌∷◌, ◌++◌, append_assoc, append-nil}
use native.Mathlib.Omega.{arith}
use lumenqraph.Base.Tests.{ltb, leb, ◌==◌, if◌then◌else◌, Bool-cases}
use lumenqraph.Base.Int.{ℤ, pos, negsuc}
use lumenqraph.Base.Str.{Str}

abbrev pub is_digit : ℕ → Bool
is_digit c = leb b'0' c && leb c b'9'

-- The digits of `n`, highest first, for fuel above `n`.
unfoldable pub digits : ℕ → ℕ → Str
digits zero n = []
digits (suc fuel) n =
    let upper = digits fuel (n / 10) in
    if ltb n 10 then (b'0' + n) ∷ [] else upper ++ (b'0' + n % 10) ∷ []

unfoldable pub decimal : ℕ → Str
unfolding digits
decimal n = digits (suc n) n

unfoldable pub decimal_ℤ : ℤ → Str
decimal_ℤ (pos n) = decimal n
decimal_ℤ (negsuc n) = b'-' ∷ decimal (suc n)

-- Digits read from the left, after the value `acc`.
unfoldable pub parse_digits : ℕ → Str → Option ℕ
parse_digits acc [] = some acc
parse_digits acc (c ∷ cs) = if is_digit c then parse_digits (acc * 10 + (c - b'0')) cs else none

parse_digits-digits :
    (fuel n : ℕ) (rest : Str)
    → n < fuel
    → parse_digits 0 (digits fuel n ++ rest) ≡ parse_digits n rest
unfolding digits parse_digits
parse_digits-digits zero n rest h = elim h [ ]
parse_digits-digits (suc fuel) n rest h = elim (Bool-cases (ltb n 10)) [
  | inl e ↦ rw e (ground arith)
  | inr e ↦
      rw (e, append_assoc)
        (parse_digits-digits fuel (n / 10) ((b'0' + n % 10) ∷ rest) (ground arith) ∙ ground arith)
]

-- Reading a printed number and what follows goes on from the number.
pub parse_digits-decimal :
    (n : ℕ) (rest : Str) → parse_digits 0 (decimal n ++ rest) ≡ parse_digits n rest
unfolding decimal
parse_digits-decimal n rest = parse_digits-digits (suc n) n rest (omega arith)

digits_fuel : (f g n : ℕ) → n < f → n < g → digits f n ≡ digits g n
unfolding digits
digits_fuel zero g n h k = elim h [ ]
digits_fuel (suc f) zero n h k = elim k [ ]
digits_fuel (suc f) (suc g) n h k = ground (arith, digits_fuel f g (n / 10))

-- The last digit stands behind the digits of the rest.
pub decimal_small : (n : ℕ) → n < 10 → decimal n ≡ (b'0' + n) ∷ []
unfolding decimal
decimal_small n h = ground arith

pub decimal_step : (n : ℕ) → 10 ≤ n → decimal n ≡ decimal (n / 10) ++ (b'0' + n % 10) ∷ []
unfolding decimal
decimal_step n h = ground (arith, digits_fuel n (suc (n / 10)) (n / 10))

-- The first character of a number is a digit.
digits-first :
    (fuel n : ℕ) → n < fuel → (d : ℕ) × (ds : Str) × (digits fuel n ≡ d ∷ ds) × (is_digit d ≡ true)
unfolding digits
digits-first zero n h = elim h [ ]
digits-first (suc fuel) n h = elim (Bool-cases (ltb n 10)) [
  | inl e ↦ (b'0' + n, [], rw e, ground arith)
  | inr e ↦
      let (d, ds, eq, dig) = digits-first fuel (n / 10) (ground arith) in
      (d, ds ++ (b'0' + n % 10) ∷ [], rw (e, eq), dig)
]

pub decimal-first : (n : ℕ) → (d : ℕ) × (ds : Str) × (decimal n ≡ d ∷ ds) × (is_digit d ≡ true)
unfolding decimal
decimal-first n = digits-first (suc n) n (omega arith)

abbrev pub i64_limit : ℕ
i64_limit = 2 ^ 63

-- The value of `i64::from_str` after the sign: at least one digit, and no overflow.
abbrev positive : Option ℕ → Option ℤ
positive none = none
positive (some n) = if ltb n i64_limit then some (pos n) else none

abbrev negative : Option ℕ → Option ℤ
negative none = none
negative (some zero) = some (pos 0)
negative (some (suc n)) = if ltb n i64_limit then some (negsuc n) else none

abbrev unsigned_digits : Str → Option ℕ
unsigned_digits [] = none
unsigned_digits (c ∷ cs) = parse_digits 0 (c ∷ cs)

unfoldable pub parse_i64 : Str → Option ℤ
unfolding parse_digits
parse_i64 [] = none
parse_i64 (c ∷ cs) =
    if c == b'-'
    then negative (unsigned_digits cs)
    else if c == b'+'
    then positive (unsigned_digits cs)
    else positive (parse_digits 0 (c ∷ cs))

-- The range of `i64`.
abbrev pub IsI64 : ℤ → Type 0
IsI64 (pos n) = n < 2 ^ 63
IsI64 (negsuc n) = n < 2 ^ 63

pub parse_digits-whole : (n : ℕ) → parse_digits 0 (decimal n) ≡ some n
parse_digits-whole n =
    rw (append-nil (decimal n)) at (parse_digits-decimal n []) ∙ (unfold parse_digits in refl)

unsigned_digits-decimal : (n : ℕ) → unsigned_digits (decimal n) ≡ some n
unsigned_digits-decimal n =
    let (d, ds, e, _) = decimal-first n in rw e (rw e at (parse_digits-whole n))

-- Parsing what was printed gives the integer back.
pub parse_i64-decimal_ℤ : (a : ℤ) → IsI64 a → parse_i64 (decimal_ℤ a) ≡ some a
unfolding decimal_ℤ parse_i64
parse_i64-decimal_ℤ (pos n) h =
    let (d, ds, e, dig) = decimal-first n in
    rw e (ground (arith, dig, rw e at (parse_digits-whole n)))
parse_i64-decimal_ℤ (negsuc n) h = ground (arith, unsigned_digits-decimal (suc n))

-- The characters of a number.
abbrev pub is_numeral : ℕ → Bool
is_numeral c = is_digit c || c == b'-'

-- A test on all of a list is one on its parts.
pub all-append :
    {A : Type 0} (p : A → Bool) (xs ys : List A) → all p (xs ++ ys) ≡ (all p xs && all p ys)
unfolding all
all-append p [] ys = refl
all-append p (x ∷ xs) ys = ground (arith, all-append p xs ys)

all-digits :
    (p : ℕ → Bool)
    → ((d : ℕ) → d < 10 → p (b'0' + d) ≡ true)
    → (fuel n : ℕ) → all p (digits fuel n) ≡ true
unfolding digits all
all-digits p h zero n = refl
all-digits p h (suc fuel) n = ground (
  arith,
  h n,
  h (n % 10),
  all-digits p h fuel (n / 10),
  all-append p (digits fuel (n / 10)) ((b'0' + n % 10) ∷ []),
)

pub all-decimal : (n : ℕ) → all is_digit (decimal n) ≡ true
unfolding decimal
all-decimal n = all-digits is_digit (λ d h. ground (arith, h)) (suc n) n

pub all-decimal_ℤ : (a : ℤ) → all is_numeral (decimal_ℤ a) ≡ true
unfolding decimal_ℤ decimal all
all-decimal_ℤ (pos n) = all-digits is_numeral (λ d h. ground (arith, h)) (suc n) n
all-decimal_ℤ (negsuc n) = all-digits is_numeral (λ d h. ground (arith, h)) (suc (suc n)) (suc n)
