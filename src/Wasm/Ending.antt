-- ===== src/Wasm/Ending.antt =====
-- How far the walk over any bytes goes.
use lumenqraph.Base.{
  ℕ, zero, suc, ◌+◌, ◌*◌, ◌%◌, ◌^◌, ◌≤◌, ◌<◌, ◌≡◌, ◌≢◌, refl, sym, ap, ◌∙◌, ◌⊎◌, Option, none, some,
  length, ltb, ltb→lt, ◌==◌, if◌then◌else◌, inl, inr, Bool-cases, arith,
}
use lumenqraph.Base.Str.{Str, str_eq}
use lumenqraph.Base.Chain.{>>=-eq-some}
use lumenqraph.Wasm.{
  Reader, Pass, found, skip_to, checked_add, get_byte, get_range, byte, take_bytes, leb_loop,
  leb_u32, custom_section, section, section_loop, magic, behind_version, behind_magic,
  wasm_custom_section,
}

-- The reader has moved on, in the same bytes.
abbrev pub Behind : Reader → Reader → Type 0
Behind c c' = (c'.buf ≡ c.buf) × (c.pos ≤ c'.pos)

pub byte-Behind :
    (c : Reader) {b : ℕ} {c' : Reader} → byte c ≡ some (b, c') → (c'.buf ≡ c.buf) × (c.pos < c'.pos)
unfolding byte
byte-Behind c h = let (b', _, e) = >>=-eq-some (get_byte c.buf c.pos) _ h in ground (arith, e)

leb_loop-Behind :
    (k result shift : ℕ) (c : Reader) (n : ℕ) (c' : Reader)
    → leb_loop k result shift c ≡ some (n, c')
    → Behind c c'
unfolding leb_loop
leb_loop-Behind zero result shift c n c' h = cc
leb_loop-Behind (suc k) result shift c n c' h =
    let ((b, c1), r, e) = >>=-eq-some (byte c) _ h in
    let result' = result + (b % 0x80 * 2 ^ shift) % 2 ^ 32 in
    let (same, past) = byte-Behind c r in
    elim (Bool-cases (ltb b 0x80)) [
      | inl t ↦
          let last : c1 ≡ c' = ground (arith, e, t) in
          (ap (λ d. d.buf) (sym last) ∙ same, omega (arith, past, ap (λ d. d.pos) last))
      | inr t ↦
          let (same', past') = leb_loop-Behind k result' (shift + 7) c1 n c' (rw t at e) in
          (same' ∙ same, omega (arith, past, past'))
    ]

pub leb_u32-Behind : (c : Reader) {n : ℕ} {c' : Reader} → leb_u32 c ≡ some (n, c') → Behind c c'
unfolding leb_u32
leb_u32-Behind c h = leb_loop-Behind 5 0 0 c _ _ h

checked_add-le : (a b : ℕ) {n : ℕ} → checked_add a b ≡ some n → a ≤ n
unfolding checked_add
checked_add-le a b h = ground arith

custom_section-skips :
    (want : Str) (last : ℕ) (c : Reader) (e : ℕ)
    → custom_section want last c ≡ some (skip_to e)
    → e ≡ last
unfolding custom_section
custom_section-skips want last c e h =
    let ((n, c1), _, h1) = >>=-eq-some (leb_u32 c) _ h in
    let ((name, c2), _, h2) = >>=-eq-some (take_bytes n c1) _ h1 in ground (arith, h2)

-- The bytes of a section, from its length on.
body-skips :
    (want : Str) (id last e : ℕ) (c : Reader)
    → (if ltb (length c.buf) last
        then none
        else if id == 0
        then custom_section want last c
        else some (skip_to last))
      ≡ some (skip_to e)
    → e ≡ last
body-skips want id last e c h = ground (arith, h, custom_section-skips want last c e)

section-skips : (want : Str) (c : Reader) {e : ℕ} → section want c ≡ some (skip_to e) → c.pos < e
unfolding section
section-skips want c {e = e} h =
    let ((id, c1), r1, h1) = >>=-eq-some (byte c) _ h in
    let ((size, c2), r2, h2) = >>=-eq-some (leb_u32 c1) _ h1 in
    let (last, r3, h3) = >>=-eq-some (checked_add c2.pos size) _ h2 in
    let (b, p) = byte-Behind c r1 in
    let (b', p') = leb_u32-Behind c1 r2 in
    omega
      (arith, p, p', checked_add-le c2.pos size r3, body-skips want id last e c2 (rw (b' ∙ b) h3))

section_loop-ends :
    (fuel : ℕ) (want : Str) (c : Reader)
    → 0 < fuel
    → length c.buf < fuel + c.pos
    → section_loop fuel want c ≢ none
unfolding section_loop
section_loop-ends zero want c l h = ground arith
section_loop-ends (suc fuel) want c l h = elim (Bool-cases (ltb c.pos (length c.buf))) [
  | inl e ↦
      let k : c.pos < length c.buf = ltb→lt c.pos (length c.buf) e in
      rw e (go (λ n. section_loop-ends fuel want (record c { pos = n })) (section want c) refl k)
  | inr e ↦ rw e (λ p. cc)
]
  where
    go :
        ((n : ℕ)
          → 0 < fuel
          → length c.buf < fuel + n
          → section_loop fuel want (record c { pos = n }) ≢ none)
        → (pass : Option Pass) → section want c ≡ pass
        → c.pos < length c.buf
        → elim pass [
          | none ↦ some none
          | some (found content) ↦ some content
          | some (skip_to body_end) ↦ section_loop fuel want (record c { pos = body_end })
        ]
          ≢ none
    go ih none e k p = cc
    go ih (some (found content)) e k p = cc
    go ih (some (skip_to body_end)) e k p =
        ih body_end (omega (arith, section-skips want c e)) (omega (arith, section-skips want c e))
          p

take_bytes-inv :
    (n : ℕ) (c : Reader) (s : Str) (c' : Reader)
    → take_bytes n c ≡ some (s, c')
    → (c'.buf ≡ c.buf) × (c'.pos ≡ c.pos + n) × (c'.pos ≤ length c.buf)
unfolding take_bytes checked_add get_range
take_bytes-inv n c s c' h =
    let (last, r, h1) = >>=-eq-some (checked_add c.pos n) _ h in
    let (t, r', h2) = >>=-eq-some (get_range c.buf c.pos last) _ h1 in ground (arith, r, r', h2)

-- An outcome is nothing, or that of the loop behind the header.
abbrev pub IsLoop : ℕ → Str → Str → Option (Option Str) → Type 0
IsLoop fuel wasm want outcome =
    (outcome ≡ some none)
    ⊎ ((c : Reader) × (c.buf ≡ wasm)
        × (0 < length wasm)
        × (0 < c.pos)
        × (outcome ≡ section_loop fuel want c))

behind_version-IsLoop :
    (fuel : ℕ) (wasm want : Str) (c : Reader)
    → (c.buf ≡ wasm)
    → (c.pos ≡ 4)
    → (next : Option (Str × Reader)) → take_bytes 4 c ≡ next
    → IsLoop fuel wasm want (behind_version fuel want next)
behind_version-IsLoop fuel wasm want c b p none e = inl refl
behind_version-IsLoop fuel wasm want c b p (some (version, c')) e =
    let (b', p', l) = take_bytes-inv 4 c version c' e in
    inr (c', b' ∙ b, omega (arith, p, p', l, ap length b), omega (arith, p'), refl)

behind_magic-IsLoop :
    (fuel : ℕ) (wasm want : Str) (next : Option (Str × Reader))
    → take_bytes 4 (record { buf = wasm; pos = 0 }) ≡ next
    → IsLoop fuel wasm want (behind_magic fuel want next)
behind_magic-IsLoop fuel wasm want none e = inl refl
behind_magic-IsLoop fuel wasm want (some (header, c)) e = elim (Bool-cases (str_eq header magic)) [
  | inl t ↦
      let (b, p, _) = take_bytes-inv 4 (record { buf = wasm; pos = 0 }) header c e in
      rw t (behind_version-IsLoop fuel wasm want c b (omega (arith, p)) (take_bytes 4 c) refl)
  | inr f ↦ rw f (inl refl)
]

pub wasm_custom_section-IsLoop :
    (fuel : ℕ) (wasm want : Str) → IsLoop fuel wasm want (wasm_custom_section fuel wasm want)
unfolding wasm_custom_section
wasm_custom_section-IsLoop fuel wasm want =
    behind_magic-IsLoop fuel wasm want (take_bytes 4 (record { buf = wasm; pos = 0 })) refl

-- Whatever the bytes are, as many passes as there are bytes are enough: the walk ends.
pub wasm_custom_section-ends :
    (wasm want : Str) → wasm_custom_section (length wasm) wasm want ≢ none
wasm_custom_section-ends wasm want = elim (wasm_custom_section-IsLoop (length wasm) wasm want) [
  | inl e ↦ rw e (λ p. cc)
  | inr (c, b, l, p, e) ↦
      rw e (section_loop-ends (length wasm) want c l (omega (arith, p, ap length b)))
]
