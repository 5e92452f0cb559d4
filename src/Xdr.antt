-- ===== src/Xdr.antt =====
-- crates/lumenqraph-core/src/xdr.rs: the decimal rendering of 256-bit integers.
-- `UInt256Parts` and `Int256Parts` hold four 64-bit limbs, the highest first; the highest limb of a
-- signed one is read as its bit pattern. A `u64` is a number below `2 ^ 64`.
mod Examples
pub mod Padding
pub mod Division
pub mod Unsigned
pub mod Signed
use lumenqraph.Base.{
  ℕ, zero, suc, ◌+◌, ◌-◌, ◌*◌, ◌/◌, ◌%◌, ◌^◌, Bool, true, false, ◌&&◌, Option, none, some, List, [],
  ◌∷◌, ◌++◌, map, length, ltb, leb, ◌==◌, if◌then◌else◌,
}
use lumenqraph.Base.Str.{Str}
use lumenqraph.Base.Decimal.{decimal}

pub record Parts : Type 0 where
  pub hi_hi : ℕ
  pub hi_lo : ℕ
  pub lo_hi : ℕ
  pub lo_lo : ℕ

-- The largest power of ten that fits a `u64`.
abbrev pub chunk : ℕ
chunk = 10_000_000_000_000_000_000

-- One pass of the division over the limbs, from the remainder so far: the new limbs, the
-- remainder, and whether all new limbs are zero.
unfoldable pub divide : List ℕ → ℕ → Bool → List ℕ × ℕ × Bool
divide [] rem all_zero = ([], rem, all_zero)
divide (limb ∷ limbs) rem all_zero =
    let cur = (rem * 2 ^ 64 + limb) % 2 ^ 128 in
    let limb' = cur / chunk % 2 ^ 64 in
    let (rest, rem', z) = divide limbs (cur % chunk) (all_zero && limb' == 0) in
    (limb' ∷ rest, rem', z)

-- The loop that collects the chunks; the last one is at the head. `none` is for no fuel left.
unfoldable pub chunks_loop : ℕ → List ℕ → List ℕ → Option (List ℕ)
chunks_loop zero limbs chunks = none
chunks_loop (suc fuel) limbs chunks =
    let (limbs', rem, all_zero) = divide limbs 0 true in
    let rest = chunks_loop fuel limbs' (rem ∷ chunks) in
    if all_zero then some (rem ∷ chunks) else rest

unfoldable pub zeros : ℕ → Str
zeros zero = []
zeros (suc n) = b'0' ∷ zeros n

-- `{c:019}`.
unfoldable pub padded : ℕ → ℕ → Str
padded width c = zeros (width - length (decimal c)) ++ decimal c

-- The second loop of the rendering: the head chunk is written plainly, the others padded.
unfoldable pub write_rest : List ℕ → Str
write_rest [] = []
write_rest (c ∷ cs) = padded 19 c ++ write_rest cs

unfoldable pub write_chunks : List ℕ → Str
write_chunks [] = decimal 0
write_chunks (c ∷ cs) = decimal c ++ write_rest cs

-- A value below `2 ^ 256` has at most five chunks.
abbrev pub rounds : ℕ
rounds = 5

unfoldable pub u256_to_decimal : Parts → Option Str
u256_to_decimal p = elim (chunks_loop rounds (p.hi_hi ∷ p.hi_lo ∷ p.lo_hi ∷ p.lo_lo ∷ []) []) [
  | none ↦ none
  | some chunks ↦ some (write_chunks chunks)
]

-- `!limb`.
unfoldable pub invert : ℕ → ℕ
invert limb = 2 ^ 64 - 1 - limb

-- `sum as u64` and `sum >> 64`, for `sum = limb + carry`.
abbrev pub low_word : ℕ → ℕ
low_word sum = sum % 2 ^ 64

abbrev pub high_word : ℕ → ℕ
high_word sum = sum / 2 ^ 64

-- All bits inverted, and one added from the lowest limb up.
unfoldable pub negate : Parts → Parts
unfolding invert
negate p =
    let s0 = invert p.lo_lo + 1 in
    let s1 = invert p.lo_hi + high_word s0 in
    let s2 = invert p.hi_lo + high_word s1 in
    let s3 = invert p.hi_hi + high_word s2 in
    record { hi_hi = low_word s3; hi_lo = low_word s2; lo_hi = low_word s1; lo_lo = low_word s0 }

unfoldable pub i256_to_decimal : Parts → Option Str
i256_to_decimal p =
    if ltb p.hi_hi (2 ^ 63)
    then u256_to_decimal p
    else elim (u256_to_decimal (negate p)) [ none ↦ none | some s ↦ some (b'-' ∷ s) ]
