-- ===== src/Wasm/Parts.antt =====
-- What the walk finds in any bytes.
use lumenqraph.Base.{
  ℕ, zero, suc, ◌-◌, ◌≡◌, refl, sym, ◌∙◌, Option, none, some, ◌++◌, length, take, drop, ltb, inl,
  inr, Bool-cases, take-append-drop, arith,
}
use lumenqraph.Base.Str.{Str}
use lumenqraph.Base.Chain.{>>=-eq-some}
use lumenqraph.Wasm.{
  Reader, Pass, found, skip_to, checked_add, get_range, byte, take_bytes, leb_u32, custom_section,
  section, section_loop, wasm_custom_section,
}
use lumenqraph.Wasm.Ending.{byte-Behind, leb_u32-Behind, wasm_custom_section-IsLoop}

-- `content` is a contiguous part of `buf`.
abbrev pub IsPart : Str → Str → Type 0
IsPart content buf = (before : Str) × (after : Str) × (buf ≡ before ++ (content ++ after))

get_range-IsPart :
    (buf : Str) (first last : ℕ) {content : Str}
    → get_range buf first last ≡ some content
    → IsPart content buf
unfolding get_range
get_range-IsPart buf first last {content = content} h =
    let n = last - first in
    let e : take n (drop first buf) ≡ content = ground (arith, h) in
    (
      take first buf,
      drop n (drop first buf),
      rw (← e, take-append-drop n (drop first buf), take-append-drop first buf) refl,
    )

custom_section-IsPart :
    (want : Str) (last : ℕ) (c : Reader) (content : Str)
    → custom_section want last c ≡ some (found (some content))
    → IsPart content c.buf
unfolding custom_section
custom_section-IsPart want last c content h =
    let ((n, c1), _, h1) = >>=-eq-some (leb_u32 c) _ h in
    let ((name, c2), _, h2) = >>=-eq-some (take_bytes n c1) _ h1 in
    let range : get_range c.buf c2.pos last ≡ some content = ground (arith, h2) in
    get_range-IsPart c.buf c2.pos last range

section-IsPart :
    (want : Str) (c : Reader) (content : Str)
    → section want c ≡ some (found (some content))
    → IsPart content c.buf
unfolding section
section-IsPart want c content h =
    let ((id, c1), r1, h1) = >>=-eq-some (byte c) _ h in
    let ((size, c2), r2, h2) = >>=-eq-some (leb_u32 c1) _ h1 in
    let (last, r3, h3) = >>=-eq-some (checked_add c2.pos size) _ h2 in
    let custom : custom_section want last c2 ≡ some (found (some content)) = ground (arith, h3) in
    rw ((leb_u32-Behind c1 r2).0 ∙ (byte-Behind c r1).0) at
      (custom_section-IsPart want last c2 content custom)

section_loop-IsPart :
    (fuel : ℕ) (want : Str) (c : Reader) (content : Str)
    → section_loop fuel want c ≡ some (some content)
    → IsPart content c.buf
unfolding section_loop
section_loop-IsPart zero want c content h = cc
section_loop-IsPart (suc fuel) want c content h = elim (Bool-cases (ltb c.pos (length c.buf))) [
  | inl e ↦
      go (λ n. section_loop-IsPart fuel want (record c { pos = n }) content) (section want c) refl
        (rw e at h)
  | inr e ↦ let k = rw e at h in cc
]
  where
    go :
        ((n : ℕ)
          → section_loop fuel want (record c { pos = n }) ≡ some (some content)
          → IsPart content c.buf)
        → (pass : Option Pass) → section want c ≡ pass
        → elim pass [
          | none ↦ some none
          | some (found content) ↦ some content
          | some (skip_to body_end) ↦ section_loop fuel want (record c { pos = body_end })
        ]
          ≡ some (some content)
        → IsPart content c.buf
    go ih none e k = cc
    go ih (some (found none)) e k = cc
    go ih (some (found (some x))) e k =
        let same : x ≡ content = ground (arith, k) in section-IsPart want c content (rw same at e)
    go ih (some (skip_to body_end)) e k = ih body_end k

-- Whatever is found in a module is a contiguous part of it, however malformed the module is.
wasm_custom_section-IsPart :
    (fuel : ℕ) (wasm want content : Str)
    → wasm_custom_section fuel wasm want ≡ some (some content)
    → IsPart content wasm
wasm_custom_section-IsPart fuel wasm want content h =
    elim (wasm_custom_section-IsLoop fuel wasm want) [
      | inl e ↦ let k = sym e ∙ h in cc
      | inr (c, b, l, p, e) ↦ rw b at (section_loop-IsPart fuel want c content (sym e ∙ h))
    ]
