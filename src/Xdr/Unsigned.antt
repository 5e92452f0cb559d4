-- ===== src/Xdr/Unsigned.antt =====
-- The rendering of an unsigned 256-bit integer is its decimal notation.
use mathlib.Core.List.{append_assoc, append-nil}
use lumenqraph.Base.{
  ℕ, zero, suc, ◌+◌, ◌*◌, ◌^◌, ◌<◌, ◌≡◌, refl, sym, ap, ◌∙◌, true, Option, some, List, [], ◌∷◌,
  ◌++◌, arith, Bool-cases, inl, inr,
}
use lumenqraph.Base.Decimal.{decimal}
use lumenqraph.Xdr.{
  Parts, chunk, divide, chunks_loop, padded, write_rest, write_chunks, rounds, u256_to_decimal,
}
use lumenqraph.Xdr.Padding.{padded-low_digits, decimal-append}
use lumenqraph.Xdr.Division.{value, AreWords, divide-value, divide-flag}

-- The number that the four limbs stand for.
abbrev pub parts_value : Parts → ℕ
parts_value p = ((p.hi_hi * 2 ^ 64 + p.hi_lo) * 2 ^ 64 + p.lo_hi) * 2 ^ 64 + p.lo_lo

pub record IsParts (p : Parts) : Type 0 where
  pub hi_hi : p.hi_hi < 2 ^ 64
  pub hi_lo : p.hi_lo < 2 ^ 64
  pub lo_hi : p.lo_hi < 2 ^ 64
  pub lo_lo : p.lo_lo < 2 ^ 64

-- The largest value that `fuel` rounds can render.
abbrev bound : ℕ → ℕ
bound zero = 0
bound (suc zero) = chunk
bound (suc (suc fuel)) = bound (suc fuel) * chunk

decimal-chunk : (q r : ℕ) → 0 < q → r < chunk → decimal (q * chunk + r) ≡ decimal q ++ padded 19 r
decimal-chunk q r h l = rw (padded-low_digits 18 r l) (decimal-append 19 q r h l)

-- The chunks that the loop returns, written out, are the digits of the value, and then the chunks
-- that were there.
Renders : Option (List ℕ) → ℕ → List ℕ → Type 0
Renders o v cs = (out : List ℕ) × (o ≡ some out) × (write_chunks out ≡ decimal v ++ write_rest cs)

quotient_fits : (fuel q r v : ℕ) → v ≡ q * chunk + r → v < bound (suc fuel) → 0 < q → q < bound fuel
quotient_fits zero q r v e h pos = absurd (omega arith)
quotient_fits (suc fuel) q r v e h pos = omega arith

-- The last chunk, and one more chunk below a positive quotient.
Renders-last : (q r v : ℕ) (cs : List ℕ) → v ≡ q * chunk + r → q ≡ 0 → Renders (some (r ∷ cs)) v cs
unfolding Renders write_chunks
Renders-last q r v cs e z =
    let same : r ≡ v = omega arith in (r ∷ cs, refl, ap (λ n. decimal n ++ write_rest cs) same)

Renders-more :
    (o : Option (List ℕ)) (q r v : ℕ) (cs : List ℕ)
    → v ≡ q * chunk + r
    → 0 < q
    → r < chunk
    → Renders o q (r ∷ cs)
    → Renders o v cs
unfolding Renders write_rest
Renders-more o q r v cs e pos small (out, found, written) = (
  out,
  found,
  written
      ∙ sym (
          rw (e, decimal-chunk q r pos small)
            (append_assoc (decimal q) (padded 19 r) (write_rest cs))),
)

chunks_loop-Renders :
    (fuel : ℕ) (limbs cs : List ℕ)
    → AreWords limbs
    → value 0 limbs < bound fuel
    → Renders (chunks_loop fuel limbs cs) (value 0 limbs) cs
unfolding chunks_loop
chunks_loop-Renders zero limbs cs w h = elim h [ ]
chunks_loop-Renders (suc fuel) limbs cs w h =
    let d = divide limbs 0 true in
    let (e, small, words) = divide-value limbs 0 0 true w (omega arith) in
    let (zero_q, pos_q) = divide-flag limbs 0 in
    elim (Bool-cases d.2) [
      | inl z ↦ rw z (Renders-last (value 0 d.0) d.1 (value 0 limbs) cs e (zero_q z))
      | inr z ↦ rw z (
          Renders-more (chunks_loop fuel d.0 (d.1 ∷ cs)) (value 0 d.0) d.1 (value 0 limbs) cs e
            (pos_q z) small
            (chunks_loop-Renders fuel d.0 (d.1 ∷ cs) words
              (quotient_fits fuel (value 0 d.0) d.1 (value 0 limbs) e h (pos_q z))))
    ]

-- For limbs below 2 ^ 64, rendering ends, and gives the digits of the number that they stand for.
pub u256_to_decimal_lem :
    (p : Parts) → IsParts p → u256_to_decimal p ≡ some (decimal (parts_value p))
unfolding u256_to_decimal AreWords value Renders write_rest
u256_to_decimal_lem p w =
    let (out, found, written) =
      chunks_loop-Renders rounds (p.hi_hi ∷ p.hi_lo ∷ p.lo_hi ∷ p.lo_lo ∷ []) []
        (w.hi_hi, (w.hi_lo, (w.lo_hi, (w.lo_lo, tt))))
        (omega (arith, w.hi_hi, w.hi_lo, w.lo_hi, w.lo_lo)) in
    let same : ((((0 + p.hi_hi) * 2 ^ 64 + p.hi_lo) * 2 ^ 64 + p.lo_hi) * 2 ^ 64 + p.lo_lo)
        ≡ parts_value p =
      omega arith in
    rw (found, u256_to_decimal) (ap some (written ∙ append-nil (decimal _) ∙ ap decimal same))
