-- ===== src/Wasm/Sections.antt =====
-- What the walk finds in a module that is written section by section.
use lumenqraph.Base.{
  ℕ, zero, suc, ◌+◌, ◌^◌, ◌≤◌, ◌<◌, ◌≡◌, refl, ◌∙◌, true, false, Option, none, some, List, [], ◌∷◌,
  ◌++◌, length, ltb, ◌==◌, if◌then◌else◌, length-append, arith,
}
use mathlib.Core.List.{append_assoc}
use lumenqraph.Base.Str.{Str, str_eq, str_eq_refl}
use lumenqraph.Wasm.{
  Reader, Pass, found, skip_to, checked_add, get_range, take_bytes, custom_section, section,
  section_loop, magic, wasm_custom_section,
}
use lumenqraph.Wasm.Reading.{At, byte-At, take_bytes-At, At-append, take-append}
use lumenqraph.Wasm.Leb.{encode_leb, leb_u32-encode}

-- A custom section has the id 0, any other a greater one.
pub data Section : Type 0 where
  custom : Str → Str → Section
  other : ℕ → Str → Section

abbrev pub id : Section → ℕ
id (custom name content) = 0
id (other n body) = suc n

abbrev pub payload : Section → Str
payload (custom name content) = encode_leb (length name) ++ (name ++ content)
payload (other n body) = body

unfoldable pub encode : Section → Str
encode s = id s ∷ (encode_leb (length (payload s)) ++ payload s)

unfoldable pub encode_all : List Section → Str
encode_all [] = []
encode_all (s ∷ ss) = encode s ++ encode_all ss

abbrev pub encode_module : Str → List Section → Str
encode_module version ss = magic ++ (version ++ encode_all ss)

-- The content of the first custom section with a name.
unfoldable pub find_custom : Str → List Section → Option Str
find_custom want [] = none
find_custom want (custom name content ∷ ss) =
    let rest = find_custom want ss in if str_eq name want then some content else rest
find_custom want (other n body ∷ ss) = find_custom want ss

abbrev pass_of : Str → ℕ → Section → Pass
pass_of want body_end (custom name content) =
    if str_eq name want then found (some content) else skip_to body_end
pass_of want body_end (other n body) = skip_to body_end

get_range-At :
    (c : Reader) (xs rest : Str)
    → At c (xs ++ rest)
    → get_range c.buf c.pos (c.pos + length xs) ≡ some xs
unfolding get_range
get_range-At c xs rest (d, e) = ground (arith, d, e, length-append xs rest, take-append xs rest)

At-short : (c : Reader) (xs ys : Str) → At c (xs ++ ys) → length c.buf < 2 ^ 32 → length xs < 2 ^ 32
At-short c xs ys at h = omega (arith, at.1, length-append xs ys)

custom_section-At :
    (want name content rest : Str) (c : Reader)
    → At c (payload (custom name content) ++ rest)
    → length c.buf < 2 ^ 32
    → let body_end = c.pos + length (payload (custom name content)) in
      custom_section want body_end c ≡ some (pass_of want body_end (custom name content))
unfolding custom_section
custom_section-At want name content rest c at h =
    let len = encode_leb (length name) in
    let at0 : At c (len ++ (name ++ (content ++ rest))) =
      rw (append_assoc len (name ++ content) rest, append_assoc name content rest) at at in
    let c1 : Reader = record c { pos = c.pos + length len } in
    let at1 = At-append c len (name ++ (content ++ rest)) at0 in
    let c2 : Reader = record c { pos = c.pos + length len + length name } in
    let at2 = At-append c1 name (content ++ rest) at1 in
    rw
      (
        leb_u32-encode (length name) c (name ++ (content ++ rest))
            (At-short c1 name (content ++ rest) at1 h) at0,
        take_bytes-At c1 name (content ++ rest) at1 (omega (arith, h)),
        body_end len name content c.pos,
        get_range-At c2 content rest at2,
      )
      refl
  where
    body_end :
        (xs ys zs : Str) (n : ℕ)
        → n + length (xs ++ (ys ++ zs)) ≡ n + length xs + length ys + length zs
    body_end xs ys zs n = omega (arith, length-append xs (ys ++ zs), length-append ys zs)

body-At :
    (want : Str) (s : Section) (rest : Str) (c : Reader)
    → At c (payload s ++ rest)
    → length c.buf < 2 ^ 32
    → let body_end = c.pos + length (payload s) in
      (if id s == 0 then custom_section want body_end c else some (skip_to body_end))
      ≡ some (pass_of want body_end s)
body-At want (custom name content) rest c at h = custom_section-At want name content rest c at h
body-At want (other n body) rest c at h = ground arith

checked_add-short : (a b : ℕ) → a + b < 2 ^ 64 → checked_add a b ≡ some (a + b)
unfolding checked_add
checked_add-short a b h = ground arith

section-At :
    (want : Str) (s : Section) (rest : Str) (c : Reader)
    → At c (encode s ++ rest)
    → length c.buf < 2 ^ 32
    → section want c ≡ some (pass_of want (c.pos + length (encode s)) s)
unfolding section encode
section-At want s rest c at h =
    let len = encode_leb (length (payload s)) in
    let at0 : At c (id s ∷ (len ++ (payload s ++ rest))) =
      rw (append_assoc len (payload s) rest) at at in
    let c1 : Reader = record c { pos = c.pos + 1 } in
    let at1 = At-append c (id s ∷ []) (len ++ (payload s ++ rest)) at0 in
    let c2 : Reader = record c { pos = c.pos + 1 + length len } in
    let at2 = At-append c1 len (payload s ++ rest) at1 in
    let short = At-short c2 (payload s) rest at2 h in
    rw
      (
        byte-At c (id s) (len ++ (payload s ++ rest)) at0,
        leb_u32-encode (length (payload s)) c1 (payload s ++ rest) short at1,
      )
      (rw
        (
          checked_add-short c2.pos (length (payload s))
              (omega (arith, at2.1, h, length-append (payload s) rest)),
          fits c2 (payload s) rest at2,
          end_of_section len (payload s) c.pos,
        )
        (body-At want s rest c2 at2 h))
  where
    fits :
        (c : Reader) (xs ys : Str)
        → At c (xs ++ ys)
        → ltb (length c.buf) (c.pos + length xs) ≡ false
    fits c xs ys at = ground (arith, at.1, length-append xs ys)

    end_of_section :
        (xs ys : Str) (n : ℕ) → n + suc (length (xs ++ ys)) ≡ n + 1 + length xs + length ys
    end_of_section xs ys n = omega (arith, length-append xs ys)

more :
    (s : Section) (rest : Str) (c : Reader)
    → At c (encode s ++ rest)
    → ltb c.pos (length c.buf) ≡ true
unfolding encode
more s rest c at = ground (arith, at.1)

-- The first section is the one looked for, or the rest is looked at.
after_pass :
    (fuel : ℕ) (want : Str) (s : Section) (ss : List Section) (buf : Str) (n : ℕ)
    → section_loop fuel want (record { buf = buf; pos = n }) ≡ some (find_custom want ss)
    → elim (pass_of want n s) [
      | found content ↦ some content
      | skip_to body_end ↦ section_loop fuel want (record { buf = buf; pos = body_end })
    ]
      ≡ some (find_custom want (s ∷ ss))
unfolding find_custom
after_pass fuel want (custom name content) ss buf n h = ground (arith, h)
after_pass fuel want (other m body) ss buf n h = h

-- Each section takes a pass of the loop.
section_loop-At :
    (fuel : ℕ) (want : Str) (ss : List Section) (c : Reader)
    → length ss < fuel
    → At c (encode_all ss)
    → length c.buf < 2 ^ 32
    → section_loop fuel want c ≡ some (find_custom want ss)
unfolding section_loop encode_all find_custom
section_loop-At zero want ss c l at h = ground arith
section_loop-At (suc fuel) want [] c l at h = ground (arith, at.1)
section_loop-At (suc fuel) want (s ∷ ss) c l at h =
    rw (more s (encode_all ss) c at, section-At want s (encode_all ss) c at h)
      (after_pass fuel want s ss c.buf (c.pos + length (encode s)) (
        section_loop-At fuel want ss (record c { pos = c.pos + length (encode s) })
          (omega (arith, l)) (At-append c (encode s) (encode_all ss) at) h))

length-encode_all : (ss : List Section) → length ss ≤ length (encode_all ss)
unfolding encode_all encode
length-encode_all [] = omega arith
length-encode_all (s ∷ ss) =
    omega (arith, length-encode_all ss, length-append (encode s) (encode_all ss))

-- Behind the header, the walk is its loop.
wasm_custom_section-header :
    (fuel : ℕ) (wasm want version : Str) (c c' : Reader)
    → take_bytes 4 (record { buf = wasm; pos = 0 }) ≡ some (magic, c)
    → take_bytes 4 c ≡ some (version, c')
    → wasm_custom_section fuel wasm want ≡ section_loop fuel want c'
unfolding wasm_custom_section
wasm_custom_section-header fuel wasm want version c c' h rest =
    rw (wasm_custom_section, h, str_eq_refl magic, rest) refl

-- A module written section by section, of less than 2^32 bytes: the walk, with as many passes as
-- the module has bytes, ends with the content of the first custom section of the wanted name, or
-- with nothing if no custom section has that name. The other sections are skipped whatever they
-- contain.
pub wasm_custom_section-encode :
    (version want : Str) (ss : List Section)
    → length version ≡ 4
    → length (encode_module version ss) < 2 ^ 32
    → wasm_custom_section (length (encode_module version ss)) (encode_module version ss) want
      ≡ some (find_custom want ss)
wasm_custom_section-encode version want ss v h =
    let wasm = encode_module version ss in
    let c0 : Reader = record { buf = wasm; pos = 0 } in
    let at0 : At c0 wasm = (refl, omega arith) in
    let c1 : Reader = record { buf = wasm; pos = 4 } in
    let at1 : At c1 (version ++ encode_all ss) =
      At-append c0 magic (version ++ encode_all ss) at0 in
    let c2 : Reader = record { buf = wasm; pos = 8 } in
    let at2 : At c2 (encode_all ss) = rw v at (At-append c1 version (encode_all ss) at1) in
    let header : take_bytes 4 c0 ≡ some (magic, c1) =
      take_bytes-At c0 magic (version ++ encode_all ss) at0 (omega (arith, h)) in
    let rest : take_bytes 4 c1 ≡ some (version, c2) =
      rw v at (take_bytes-At c1 version (encode_all ss) at1 (omega (arith, h))) in
    wasm_custom_section-header (length wasm) wasm want version c1 c2 header rest
    ∙ (section_loop-At (length wasm) want ss c2
        (omega (arith, length-encode_all ss, length-append version (encode_all ss))) at2 h)
