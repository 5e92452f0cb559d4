-- ===== src/Wasm/Reading.antt =====
-- What the reader finds at its position.
use lumenqraph.Base.{
  ap, ℕ, zero, suc, ◌+◌, ◌^◌, ◌<◌, ◌≡◌, refl, ◌∙◌, some, [], ◌∷◌, ◌++◌, length, take, drop,
  length-append, arith,
}
use lumenqraph.Base.Str.{Str}
use lumenqraph.Wasm.{Reader, checked_add, get_byte, get_range, byte, take_bytes}

-- `rest` is what the reader has left.
abbrev pub At : Reader → Str → Type 0
At c rest = (drop c.pos c.buf ≡ rest) × (c.pos + length rest ≡ length c.buf)

get_byte-drop :
    (buf : Str) (i : ℕ) {b : ℕ} {rest : Str} → drop i buf ≡ b ∷ rest → get_byte buf i ≡ some b
unfolding get_byte
get_byte-drop [] zero h = cc
get_byte-drop [] (suc i) h = cc
get_byte-drop (x ∷ xs) zero h = cc
get_byte-drop (x ∷ xs) (suc i) h = get_byte-drop xs i h

drop-nil : (n : ℕ) → drop {A = ℕ} n [] ≡ []
drop-nil zero = refl
drop-nil (suc n) = refl

suc-add : (m n : ℕ) → suc m + n ≡ suc (m + n)
suc-add m n = omega arith

drop-drop : (m n : ℕ) (xs : Str) → drop (m + n) xs ≡ drop n (drop m xs)
drop-drop zero n xs = ground arith
drop-drop (suc m) n [] = ground (arith, drop-nil (suc m + n), drop-nil n)
drop-drop (suc m) n (x ∷ xs) = ap (λ i. drop i (x ∷ xs)) (suc-add m n) ∙ drop-drop m n xs

pub take-append : (xs ys : Str) → take (length xs) (xs ++ ys) ≡ xs
take-append [] ys = refl
take-append (x ∷ xs) ys = ground (arith, take-append xs ys)

pub drop-append : (xs ys : Str) → drop (length xs) (xs ++ ys) ≡ ys
drop-append [] ys = refl
drop-append (x ∷ xs) ys = drop-append xs ys

-- Moving on over a prefix of what is left.
pub At-append :
    (c : Reader) (xs rest : Str)
    → At c (xs ++ rest)
    → At (record c { pos = c.pos + length xs }) rest
At-append c xs rest (d, e) = (
  rw (drop-drop c.pos (length xs) c.buf, d) (drop-append xs rest),
  omega (arith, e, length-append xs rest),
)

pub byte-At :
    (c : Reader) (b : ℕ) (rest : Str)
    → At c (b ∷ rest)
    → byte c ≡ some (b, record c { pos = c.pos + 1 })
unfolding byte
byte-At c b rest (d, e) = rw (get_byte-drop c.buf c.pos d) refl

pub take_bytes-At :
    (c : Reader) (xs rest : Str)
    → At c (xs ++ rest)
    → length c.buf < 2 ^ 64
    → take_bytes (length xs) c ≡ some (xs, record c { pos = c.pos + length xs })
unfolding take_bytes checked_add get_range
take_bytes-At c xs rest (d, e) h =
    ground (arith, d, e, h, length-append xs rest, take-append xs rest)
