-- ===== src/IntArgs/RoundTrip.antt =====
-- The integers that are rendered for a client, read as arguments.
use lumenqraph.Base.{
  ℕ, ◌+◌, ◌^◌, ◌≤◌, ◌<◌, ◌≡◌, refl, sym, ap, ◌∙◌, Bool, true, false, not, some, [], ◌∷◌, all,
  is_nil, ltb, inl, inr, Bool-cases, arith,
}
use mathlib.Core.Option.{some-injective}
use lumenqraph.Base.Decimal.{is_digit, decimal, decimal-first, all-decimal, parse_digits-whole}
use lumenqraph.Base.Result.{ok}
use lumenqraph.Base.Text.{Text, is_whitespace, drop_while, trim_end, trim}
use lumenqraph.Json.{string}
use lumenqraph.Xdr.{Parts, invert, negate, u256_to_decimal, i256_to_decimal}
use lumenqraph.Xdr.Unsigned.{IsParts, parts_value, u256_to_decimal_lem}
use lumenqraph.Xdr.Signed.{negate-IsParts, negate-value}
use lumenqraph.IntArgs.{
  zero_limbs, parse_magnitude, starts_with_minus, without_plus, without_sign, negate_limbs,
  signed_limbs, text_of_int, parse_u256, parse_i256,
}
use lumenqraph.IntArgs.Magnitude.{digits_loop-value, eq_of_value}

abbrev is_solid : ℕ → Bool
is_solid c = not (is_whitespace c)

solid :
    (c : ℕ) (cs : Text)
    → all is_solid (c ∷ cs) ≡ true
    → (is_whitespace c ≡ false) × (all is_solid cs ≡ true)
unfolding all
solid c cs h = elim (Bool-cases (is_whitespace c)) [
  | inl e ↦ let x = rw e at h in cc
  | inr e ↦ (e, rw e at h)
]

trim_end-solid : (s : Text) → all is_solid s ≡ true → trim_end s ≡ s
unfolding trim_end all
trim_end-solid [] h = refl
trim_end-solid (c ∷ cs) h =
    let (here, later) = solid c cs h in rw (here, trim_end-solid cs later) refl

trim-solid : (s : Text) → all is_solid s ≡ true → trim s ≡ s
unfolding trim drop_while all
trim-solid [] h = trim_end-solid [] h
trim-solid (c ∷ cs) h = rw ((solid c cs h).0) (trim_end-solid (c ∷ cs) h)

all-solid : (s : Text) → all is_digit s ≡ true → all is_solid s ≡ true
unfolding all
all-solid [] h = refl
all-solid (c ∷ cs) h = ground (arith, h, all-solid cs)

trim-decimal : (n : ℕ) → trim (decimal n) ≡ decimal n
trim-decimal n = trim-solid (decimal n) (all-solid (decimal n) (all-decimal n))

zero_limbs-IsParts : IsParts zero_limbs
unfolding zero_limbs
zero_limbs-IsParts = omega arith

parse_magnitude-decimal : (p : Parts) → IsParts p → parse_magnitude (decimal (parts_value p)) ≡ ok p
unfolding parse_magnitude zero_limbs
parse_magnitude-decimal p w =
    let n = parts_value p in
    let (d, ds, e, _) = decimal-first n in
    let nonempty : is_nil (decimal n) ≡ false = rw e refl in
    rw (nonempty, all-decimal n)
      (elim (digits_loop-value zero_limbs (decimal n) n zero_limbs-IsParts (parse_digits-whole n)) [
        | inl (q, found, v, same) ↦ found ∙ ap ok (eq_of_value q p v w same)
        | inr (big, out) ↦ elim (fits p w big) [ ]
      ])
  where
    fits : (p : Parts) → IsParts p → 2 ^ 256 ≤ parts_value p → ⊥
    fits p w h = ground (arith, w, h)

-- Where the carry is zero, the rest of the limbs is only inverted.
negate_limbs_lem : (q : Parts) → negate_limbs q ≡ negate q
unfolding negate_limbs negate invert
negate_limbs_lem q = ground arith

negate-complement :
    (q : Parts) → IsParts q → 0 < parts_value q → parts_value (negate q) + parts_value q ≡ 2 ^ 256
unfolding negate invert
negate-complement q w h = omega (arith, w, h)

negate_limbs-negate : (p : Parts) → IsParts p → 2 ^ 63 ≤ p.hi_hi → negate_limbs (negate p) ≡ p
negate_limbs-negate p w h =
    let q = negate p in
    let v = negate-IsParts p in
    let up = negate-complement p w (positive p h) in
    negate_limbs_lem q
    ∙ eq_of_value (negate q) p (negate-IsParts q) w
        (omega (arith, up, negate-complement q v (below p w (parts_value q) up)))
  where
    positive : (p : Parts) → 2 ^ 63 ≤ p.hi_hi → 0 < parts_value p
    positive p h = omega arith

    below : (p : Parts) → IsParts p → (n : ℕ) → n + parts_value p ≡ 2 ^ 256 → 0 < n
    below p w n h = omega (arith, w, h)

signed_limbs-negative :
    (q : Parts) → IsParts q → parts_value q ≤ 2 ^ 255 → signed_limbs true q ≡ ok (negate_limbs q)
unfolding signed_limbs
signed_limbs-negative q w h = ground (arith, w, h)

signed_limbs-positive : (p : Parts) → ltb p.hi_hi (2 ^ 63) ≡ true → signed_limbs false p ≡ ok p
unfolding signed_limbs
signed_limbs-positive p e = ground (arith, e)

minus-solid : (n : ℕ) → all is_solid (b'-' ∷ decimal n) ≡ true
unfolding all
minus-solid n = all-solid (decimal n) (all-decimal n)

without_plus-decimal : (n : ℕ) → without_plus (decimal n) ≡ decimal n
without_plus-decimal n = let (d, ds, e, h) = decimal-first n in rw e (ground (arith, h))

without_sign-decimal : (n : ℕ) → without_sign (decimal n) ≡ decimal n
without_sign-decimal n = let (d, ds, e, h) = decimal-first n in rw e (ground (arith, h))

starts_with_minus-decimal : (n : ℕ) → starts_with_minus (decimal n) ≡ false
starts_with_minus-decimal n = let (d, ds, e, h) = decimal-first n in rw e (ground (arith, h))

-- An unsigned 256-bit integer that is rendered as a string for a client is read back from that string
-- as the same four limbs.
pub parse_u256-u256_to_decimal :
    {Number : Type 0} (is_64_bit : Number → Bool) (to_string : Number → Text) (p : Parts) (s : Text)
    → IsParts p
    → u256_to_decimal p ≡ some s
    → parse_u256 is_64_bit to_string (string s) ≡ ok p
unfolding parse_u256 text_of_int
parse_u256-u256_to_decimal is_64_bit to_string p s w h =
    let n = parts_value p in
    let printed : decimal n ≡ s =
      some-injective (decimal n) s (sym (u256_to_decimal_lem p w) ∙ h) in
    rw (← printed, trim-decimal n, starts_with_minus-decimal n, without_plus-decimal n)
      (parse_magnitude-decimal p w)

-- A signed 256-bit integer that is rendered as a string for a client is read back from that string as the
-- same bit pattern.
pub parse_i256-i256_to_decimal :
    {Number : Type 0} (is_64_bit : Number → Bool) (to_string : Number → Text) (p : Parts) (s : Text)
    → IsParts p
    → i256_to_decimal p ≡ some s
    → parse_i256 is_64_bit to_string (string s) ≡ ok p
unfolding parse_i256 text_of_int i256_to_decimal
parse_i256-i256_to_decimal is_64_bit to_string p s w h = elim (Bool-cases (ltb p.hi_hi (2 ^ 63))) [
  | inl e ↦
      let n = parts_value p in
      let printed : decimal n ≡ s =
        some-injective (decimal n) s (sym (u256_to_decimal_lem p w) ∙ rw e at h) in
      rw
        (
          ← printed,
          trim-decimal n,
          starts_with_minus-decimal n,
          without_sign-decimal n,
          parse_magnitude-decimal p w,
        )
        (signed_limbs-positive p e)
  | inr e ↦
      let q = negate p in
      let v = negate-IsParts p in
      let n = parts_value q in
      let printed : b'-' ∷ decimal n ≡ s =
        some-injective (b'-' ∷ decimal n) s (rw (e, u256_to_decimal_lem q v) at h) in
      rw (← printed, trim-solid (b'-' ∷ decimal n) (minus-solid n), parse_magnitude-decimal q v)
        (signed_limbs-negative q v (small p w (high p e))
          ∙ ap ok (negate_limbs-negate p w (high p e)))
]
  where
    high : (p : Parts) → ltb p.hi_hi (2 ^ 63) ≡ false → 2 ^ 63 ≤ p.hi_hi
    high p e = ground arith

    small : (p : Parts) → IsParts p → 2 ^ 63 ≤ p.hi_hi → parts_value (negate p) ≤ 2 ^ 255
    small p w h = omega (arith, negate-value p w h)
