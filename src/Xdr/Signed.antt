-- ===== src/Xdr/Signed.antt =====
-- The rendering of a signed 256-bit integer is the decimal notation of its two's complement value.
use lumenqraph.Base.{
  ℕ, suc, ◌+◌, ◌-◌, ◌*◌, ◌^◌, ◌≤◌, ◌≡◌, refl, some, arith, Bool-cases, inl, inr, ltb, if◌then◌else◌,
}
use lumenqraph.Base.Int.{ℤ, pos, negsuc}
use lumenqraph.Base.Decimal.{decimal_ℤ}
use lumenqraph.Xdr.{Parts, invert, low_word, high_word, negate, i256_to_decimal}
use lumenqraph.Xdr.Unsigned.{parts_value, IsParts, u256_to_decimal_lem}

-- The integer that the bit pattern stands for.
abbrev pub signed_value : Parts → ℤ
signed_value p =
    if ltb p.hi_hi (2 ^ 63) then pos (parts_value p) else negsuc (2 ^ 256 - 1 - parts_value p)

-- One limb of the negation, as an equation without division.
carry_split : (s : ℕ) → s ≡ high_word s * 2 ^ 64 + low_word s
carry_split s = omega arith

pub negate-IsParts : (p : Parts) → IsParts (negate p)
unfolding negate
negate-IsParts p = omega arith

-- Inverting and adding one is subtraction from `2 ^ 256`, for a negative pattern.
pub negate-value :
    (p : Parts)
    → IsParts p
    → 2 ^ 63 ≤ p.hi_hi
    → parts_value (negate p) ≡ suc (2 ^ 256 - 1 - parts_value p)
unfolding negate invert
negate-value p w h = omega arith

-- For limbs below 2 ^ 64, rendering ends, and gives the decimal notation, with its sign, of the
-- integer whose two's complement they are.
pub i256_to_decimal_lem :
    (p : Parts) → IsParts p → i256_to_decimal p ≡ some (decimal_ℤ (signed_value p))
unfolding i256_to_decimal decimal_ℤ
i256_to_decimal_lem p w = elim (Bool-cases (ltb p.hi_hi (2 ^ 63))) [
  | inl e ↦ rw e (u256_to_decimal_lem p w)
  | inr e ↦
      rw (e, u256_to_decimal_lem (negate p) (negate-IsParts p), negate-value p w (ground arith))
        refl
]
