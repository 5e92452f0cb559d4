-- ===== src/IntArgs/Magnitude.antt =====
-- The value of the limbs that a row of digits is read as.
use lumenqraph.Base.{
  ℕ, ◌+◌, ◌-◌, ◌*◌, ◌^◌, ◌≤◌, ◌<◌, ◌≡◌, ◌⊎◌, refl, true, none, some, [], ◌∷◌, inl, inr, Bool-cases,
  arith,
}
use mathlib.Core.Option.{some-injective}
use lumenqraph.Base.Decimal.{is_digit, parse_digits}
use lumenqraph.Base.Result.{ok, err}
use lumenqraph.Base.Text.{Text}
use lumenqraph.Xdr.{Parts, low_word, high_word}
use lumenqraph.Xdr.Unsigned.{IsParts, parts_value}
use lumenqraph.IntArgs.{out_of_range_256, mul10_add, digits_loop}

-- The low words of the sums.
abbrev sums : Parts → ℕ → Parts
sums p d =
    let a0 = p.lo_lo * 10 + d in
    let a1 = p.lo_hi * 10 + high_word a0 in
    let a2 = p.hi_lo * 10 + high_word a1 in
    let a3 = p.hi_hi * 10 + high_word a2 in
    record { hi_hi = low_word a3; hi_lo = low_word a2; lo_hi = low_word a1; lo_lo = low_word a0 }

sums-IsParts : (p : Parts) (d : ℕ) → IsParts (sums p d)
sums-IsParts p d = omega arith

sums-value :
    (p : Parts) (d : ℕ)
    → IsParts p
    → parts_value p * 10 + d < 2 ^ 256
    → d < 10
    → parts_value (sums p d) ≡ parts_value p * 10 + d
sums-value p d w h l = omega (arith, w, h, l)

mul10_add-some :
    (p : Parts) (d : ℕ)
    → IsParts p
    → parts_value p * 10 + d < 2 ^ 256
    → d < 10
    → mul10_add p d ≡ some (sums p d)
unfolding mul10_add
mul10_add-some p d w h l = ground (arith, w, h, l)

mul10_add-none :
    (p : Parts) (d : ℕ)
    → IsParts p
    → 2 ^ 256 ≤ parts_value p * 10 + d
    → d < 10
    → mul10_add p d ≡ none
unfolding mul10_add
mul10_add-none p d w h l = ground (arith, w, h, l)

pub eq_of_value : (p q : Parts) → IsParts p → IsParts q → parts_value p ≡ parts_value q → p ≡ q
eq_of_value p q v w e = ground (arith, v, w, e)

parse_digits-le : (acc : ℕ) (s : Text) (n : ℕ) → parse_digits acc s ≡ some n → acc ≤ n
unfolding parse_digits
parse_digits-le acc [] n h = ground (arith, h)
parse_digits-le acc (c ∷ cs) n h = elim (Bool-cases (is_digit c)) [
  | inl e ↦ omega (arith, parse_digits-le (acc * 10 + (c - b'0')) cs n (rw e at h))
  | inr e ↦ let x = rw e at h in cc
]

digit-value : (c : ℕ) → is_digit c ≡ true → c - b'0' < 10
digit-value c h = ground (arith, h)

-- Reading digits behind limbs gives the limbs of the number, or fails if the number is too large.
pub digits_loop-value :
    (p : Parts) (s : Text) (n : ℕ)
    → IsParts p
    → parse_digits (parts_value p) s ≡ some n
    → ((q : Parts) × (digits_loop p s ≡ ok q) × IsParts q × (parts_value q ≡ n))
      ⊎ ((2 ^ 256 ≤ n) × (digits_loop p s ≡ err out_of_range_256))
unfolding digits_loop parse_digits
digits_loop-value p [] n w h = inl (p, refl, w, some-injective (parts_value p) n h)
digits_loop-value p (c ∷ cs) n w h = elim (Bool-cases (is_digit c)) [
  | inr e ↦ let x = rw e at h in cc
  | inl e ↦
      let d = c - b'0' in
      let l = digit-value c e in
      elim (le_or_lt (2 ^ 256) (parts_value p * 10 + d)) [
        | inl big ↦ inr (
          le_trans (2 ^ 256) (parts_value p * 10 + d) n big
              (parse_digits-le (parts_value p * 10 + d) cs n (rw e at h)),
          rw (mul10_add-none p d w big l) refl,
        )
        | inr small ↦ rw (mul10_add-some p d w small l) (
            digits_loop-value (sums p d) cs n (sums-IsParts p d)
              (rw (sums-value p d w small l) (rw e at h)))
      ]
]
  where
    le_or_lt : (m n : ℕ) → (m ≤ n) ⊎ (n < m)
    le_or_lt m n = omega arith

    le_trans : (a b c : ℕ) → a ≤ b → b ≤ c → a ≤ c
    le_trans a b c h k = omega arith
