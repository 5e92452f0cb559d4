-- ===== src/Xdr/Division.antt =====
-- One pass over the limbs divides their value by `chunk`.
use lumenqraph.Base.{
  ℕ, zero, suc, ◌+◌, ◌*◌, ◌/◌, ◌%◌, ◌^◌, ◌<◌, ◌≡◌, refl, ap, ◌∙◌, Bool, true, false, ◌&&◌, List, [],
  ◌∷◌, arith, ◌==◌,
}
use lumenqraph.Xdr.{chunk, divide}

-- The value of limbs behind the value `acc`.
unfoldable pub value : ℕ → List ℕ → ℕ
value acc [] = acc
value acc (limb ∷ limbs) = value (acc * 2 ^ 64 + limb) limbs

unfoldable pub AreWords : List ℕ → Type 0
AreWords [] = Unit
AreWords (limb ∷ limbs) = (limb < 2 ^ 64) × AreWords limbs

value-pos : (acc : ℕ) (limbs : List ℕ) → 0 < acc → 0 < value acc limbs
unfolding value
value-pos acc [] h = h
value-pos acc (limb ∷ limbs) h = value-pos (acc * 2 ^ 64 + limb) limbs (omega arith)

-- The two words of a round, as the code computes them.
abbrev pub cur_of : ℕ → ℕ → ℕ
cur_of rem limb = (rem * 2 ^ 64 + limb) % 2 ^ 128

abbrev pub word_of : ℕ → ℕ → ℕ
word_of rem limb = cur_of rem limb / chunk % 2 ^ 64

-- No step of a round wraps around, and its words are quotient and remainder.
round_exact :
    (acc rem limb : ℕ)
    → limb < 2 ^ 64
    → rem < chunk
    → (acc * chunk + rem) * 2 ^ 64 + limb
      ≡ (acc * 2 ^ 64 + word_of rem limb) * chunk + cur_of rem limb % chunk
round_exact acc rem limb word small = omega arith

pub divide-value :
    (limbs : List ℕ) (acc rem : ℕ) (z : Bool)
    → AreWords limbs
    → rem < chunk
    → (value (acc * chunk + rem) limbs
        ≡ value acc (divide limbs rem z).0 * chunk + (divide limbs rem z).1)
      × ((divide limbs rem z).1 < chunk)
      × AreWords (divide limbs rem z).0
unfolding divide value AreWords
divide-value [] acc rem z w h = (refl, h, tt)
divide-value (limb ∷ limbs) acc rem z (word, w) h =
    let (e, small, words) =
      divide-value limbs (acc * 2 ^ 64 + word_of rem limb) (cur_of rem limb % chunk)
        (z && word_of rem limb == 0) w (omega arith) in
    (ap (λ t. value t limbs) (round_exact acc rem limb word h) ∙ e, small, (omega arith, words))

divide-false : (limbs : List ℕ) (rem : ℕ) → (divide limbs rem false).2 ≡ false
unfolding divide
divide-false [] rem = refl
divide-false (limb ∷ limbs) rem = divide-false limbs (cur_of rem limb % chunk)

-- The flag says whether the quotient is zero.
abbrev pub FlagOf : Bool → ℕ → Type 0
FlagOf z q = (z ≡ true → q ≡ 0) × (z ≡ false → 0 < q)

flag_word :
    (w : ℕ) (limbs : List ℕ) (rem : ℕ)
    → FlagOf (divide limbs rem true).2 (value 0 (divide limbs rem true).0)
    → FlagOf (divide limbs rem (w == 0)).2 (value (0 + w) (divide limbs rem (w == 0)).0)
flag_word zero limbs rem h = h
flag_word (suc w) limbs rem h =
    let more : (suc w == 0) ≡ false = ground arith in
    rw more (
      λ e. cc (e, divide-false limbs rem),
      λ e. value-pos (0 + suc w) (divide limbs rem false).0 (omega arith),
    )

pub divide-flag :
    (limbs : List ℕ) (rem : ℕ)
    → FlagOf (divide limbs rem true).2 (value 0 (divide limbs rem true).0)
unfolding divide value
divide-flag [] rem = (λ e. refl, λ e. cc)
divide-flag (limb ∷ limbs) rem =
    flag_word (word_of rem limb) limbs (cur_of rem limb % chunk)
      (divide-flag limbs (cur_of rem limb % chunk))
