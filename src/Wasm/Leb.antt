-- ===== src/Wasm/Leb.antt =====
-- Unsigned LEB128 numbers: seven bits in each byte, the lowest first, and the top bit on all but
-- the last.
use lumenqraph.Base.{
  ℕ, zero, suc, ◌+◌, ◌*◌, ◌/◌, ◌%◌, ◌^◌, ◌<◌, ◌≡◌, false, ap, ◌∙◌, some, [], ◌∷◌, ◌++◌, length, ltb,
  if◌then◌else◌, inl, inr, Bool-cases, arith,
}
use native.Mathlib.Nat.{pow-succ'}
use lumenqraph.Base.Str.{Str}
use lumenqraph.Wasm.{Reader, leb_loop, leb_u32}
use lumenqraph.Wasm.Reading.{At, byte-At, At-append}

-- The bytes of a number, for as many bytes as it may have.
unfoldable pub leb_bytes : ℕ → ℕ → Str
leb_bytes zero n = []
leb_bytes (suc k) n = if ltb n 0x80 then n ∷ [] else (0x80 + n % 0x80) ∷ leb_bytes k (n / 0x80)

unfoldable pub encode_leb : ℕ → Str
encode_leb n = leb_bytes 5 n

pow-shift : (s : ℕ) → 2 ^ (s + 7) ≡ 128 * 2 ^ s
pow-shift s = ground (
  arith,
  pow-succ' 2 s,
  pow-succ' 2 (s + 1),
  pow-succ' 2 (s + 2),
  pow-succ' 2 (s + 3),
  pow-succ' 2 (s + 4),
  pow-succ' 2 (s + 5),
  pow-succ' 2 (s + 6),
)

regroup : (r q p : ℕ) → r * p + q * (128 * p) ≡ (r + 128 * q) * p
regroup r q p = grind arith

split_low : (n p : ℕ) → n % 128 * p + n / 128 * (128 * p) ≡ n * p
split_low n p = regroup (n % 128) (n / 128) p ∙ ap (λ m. m * p) (omega arith)

-- What is left to add, once the low bits are added.
step :
    (n p : ℕ)
    → n * p < 2 ^ 32
    → ((128 + n % 128) % 128 * p % 2 ^ 32 ≡ n % 128 * p) × (n / 128 * (128 * p) < 2 ^ 32)
step n p h =
    let e = ap (λ m. m * p) (low n) in
    (omega (arith, e, h, split_low n p), omega (arith, h, split_low n p))
  where
    low : (n : ℕ) → (128 + n % 128) % 128 ≡ n % 128
    low n = omega arith

has_more : (k n : ℕ) → n < 128 ^ suc k → ltb n 128 ≡ false → (n / 128 < 128 ^ k) × (0 < k)
has_more zero n h e = ground arith
has_more (suc k) n h e = (omega (arith, h, pow-succ' 128 (suc k)), omega arith)

leb_loop-At :
    (k n result shift : ℕ) (c : Reader) (rest : Str)
    → n < 128 ^ k
    → 0 < k
    → n * 2 ^ shift < 2 ^ 32
    → At c (leb_bytes k n ++ rest)
    → leb_loop k result shift c
      ≡ some (result + n * 2 ^ shift, record c { pos = c.pos + length (leb_bytes k n) })
unfolding leb_loop leb_bytes
leb_loop-At zero n result shift c rest h k l at = ground arith
leb_loop-At (suc k) n result shift c rest h k' l at = elim (Bool-cases (ltb n 0x80)) [
  | inl e ↦ rw (e, byte-At c n rest (rw e at at)) (ground (arith, e, l))
  | inr e ↦
      let b = 128 + n % 128 in
      let c' : Reader = record c { pos = c.pos + 1 } in
      let (low, l') = step n (2 ^ shift) l in
      let (h', k'') = has_more k n h e in
      let at' = At-append c (b ∷ []) (leb_bytes k (n / 128) ++ rest) (rw e at at) in
      rw (e, byte-At c b (leb_bytes k (n / 128) ++ rest) (rw e at at), low)
        (ground (
          arith,
          split_low n (2 ^ shift),
          pow-shift shift,
          leb_loop-At k (n / 128) (result + n % 128 * 2 ^ shift) (shift + 7) c' rest h' k''
              (rw (pow-shift shift) l') at',
        ))
]

-- Reading a printed number gives the number.
pub leb_u32-encode :
    (n : ℕ) (c : Reader) (rest : Str)
    → n < 2 ^ 32
    → At c (encode_leb n ++ rest)
    → leb_u32 c ≡ some (n, record c { pos = c.pos + length (encode_leb n) })
unfolding leb_u32 encode_leb
leb_u32-encode n c rest h at =
    leb_loop-At 5 n 0 0 c rest (omega arith) (omega arith) (omega arith) at ∙ ground arith
