-- ===== src/Xdr/Padding.antt =====
-- Digits padded to a width, and the number they complete.
use mathlib.Core.List.{append_assoc, append-nil}
use native.Mathlib.Nat.{pow-suc, one-le-pow}
use lumenqraph.Base.{
  ℕ, zero, suc, ◌+◌, ◌-◌, ◌*◌, ◌/◌, ◌%◌, ◌^◌, ◌≤◌, ◌<◌, ◌⊎◌, ◌≡◌, refl, sym, ap, ◌∙◌, [], ◌∷◌, ◌++◌,
  length, length-append, arith, inl, inr,
}
use lumenqraph.Base.Str.{Str}
use lumenqraph.Base.Decimal.{decimal, decimal_small, decimal_step}
use lumenqraph.Xdr.{zeros, padded}

-- The `k` lowest digits of `n`.
unfoldable pub low_digits : ℕ → ℕ → Str
low_digits zero n = []
low_digits (suc k) n = low_digits k (n / 10) ++ (b'0' + n % 10) ∷ []

zeros-snoc : (k : ℕ) → zeros k ++ b'0' ∷ [] ≡ zeros (suc k)
unfolding zeros
zeros-snoc zero = refl
zeros-snoc (suc k) = ap (◌∷◌ b'0') (zeros-snoc k)

low_digits-zero : (k : ℕ) → low_digits k 0 ≡ zeros k
unfolding low_digits zeros
low_digits-zero zero = refl
low_digits-zero (suc k) = rw (low_digits-zero k) (zeros-snoc k)

small_or : (n : ℕ) → (n < 10) ⊎ (10 ≤ n)
small_or n = grind arith

ten_pow : (k : ℕ) → 10 ^ suc k ≡ 10 * 10 ^ k
ten_pow k = omega (arith, pow-suc 10 k)

-- The lowest digits of a number that has no more: its digits behind zeros.
IsPadded : ℕ → ℕ → Type 0
IsPadded k n =
    (length (decimal n) ≤ k) × (low_digits k n ≡ zeros (k - length (decimal n)) ++ decimal n)

pad_small : (k n : ℕ) → n < 10 → IsPadded (suc k) n
unfolding low_digits IsPadded
pad_small k n h =
    let upper : n / 10 ≡ 0 = omega arith in
    let last : b'0' + n % 10 ≡ b'0' + n = omega arith in
    let width : suc k - 1 ≡ k = omega arith in
    rw (decimal_small n h) (omega arith, rw (upper, last, low_digits-zero k, width) refl)

pad_step : (k n : ℕ) → 10 ≤ n → IsPadded k (n / 10) → IsPadded (suc k) n
unfolding low_digits IsPadded
pad_step k n h (fits, e) =
    let width : suc k - (length (decimal (n / 10)) + 1) ≡ k - length (decimal (n / 10)) =
      omega arith in
    rw (decimal_step n h, length-append)
      (
        omega arith,
        rw (e, width) (append_assoc (zeros (k - length (decimal (n / 10)))) (decimal (n / 10)) _),
      )

low_digits-decimal : (k n : ℕ) → n < 10 ^ suc k → IsPadded (suc k) n
low_digits-decimal zero n h = pad_small 0 n (omega arith)
low_digits-decimal (suc k) n h = elim (small_or n) [
  | inl s ↦ pad_small (suc k) n s
  | inr b ↦ pad_step (suc k) n b (low_digits-decimal k (n / 10) (omega (arith, ten_pow (suc k))))
]

-- `{c:0k}` writes the `k` lowest digits.
pub padded-low_digits : (k n : ℕ) → n < 10 ^ suc k → padded (suc k) n ≡ low_digits (suc k) n
unfolding padded IsPadded
padded-low_digits k n h = sym (low_digits-decimal k n h).1

-- The last digit and the rest of such a number, for `t = 10 ^ k`.
module _ (q r t : ℕ) (h : 0 < q) (l : 0 < t) where
  at_least_ten : 10 ≤ q * (10 * t) + r
  at_least_ten = grind arith

  upper_part : (q * (10 * t) + r) / 10 ≡ q * t + r / 10
  upper_part = omega arith

  last_part : (q * (10 * t) + r) % 10 ≡ r % 10
  last_part = omega arith

-- A number with a positive upper part, written upper part first.
pub decimal-append :
    (k q r : ℕ) → 0 < q → r < 10 ^ k → decimal (q * 10 ^ k + r) ≡ decimal q ++ low_digits k r
unfolding low_digits
decimal-append zero q r h l = rw append-nil (ap decimal (omega arith))
decimal-append (suc k) q r h l =
    let t = 10 ^ k in
    let pos : 0 < t = one-le-pow k 10 (omega arith) in
    rw (ten_pow k) (
      decimal_step (q * (10 * t) + r) (at_least_ten q r t h pos)
      ∙ rw
          (
            upper_part q r t h pos,
            last_part q r t h pos,
            decimal-append k q (r / 10) h (omega (arith, ten_pow k)),
          )
          (append_assoc (decimal q) (low_digits k (r / 10)) _))
