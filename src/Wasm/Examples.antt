-- ===== src/Wasm/Examples.antt =====
-- A small module, and the theorems at it.
use lumenqraph.Base.{
  ◌≢◌, ℕ, ◌^◌, ◌≡◌, ◌<◌, refl, Option, none, some, List, [], ◌∷◌, ◌++◌, length, arith,
}
use lumenqraph.Base.Str.{Str, lit}
use lumenqraph.Wasm.{wasm_custom_section, Reader, leb_u32}
use lumenqraph.Wasm.Leb.{leb_u32-encode, encode_leb}
use lumenqraph.Wasm.Sections.{
  Section, custom, other, encode_module, find_custom, wasm_custom_section-encode,
}
use lumenqraph.Wasm.Ending.{wasm_custom_section-ends}

abbrev version : Str
version = 1 ∷ 0 ∷ 0 ∷ 0 ∷ []

abbrev sections : List Section
sections = other 0 (9 ∷ []) ∷ custom (lit "meta") (1 ∷ []) ∷ custom (lit "spec") (7 ∷ 8 ∷ []) ∷ []

abbrev wasm : Str
wasm = encode_module version sections

wasm_has_section : wasm_custom_section 3 wasm (lit "spec") ≡ some (some (7 ∷ 8 ∷ []))
unfolding wasm_custom_section lumenqraph.Wasm.take_bytes lumenqraph.Wasm.checked_add
    lumenqraph.Wasm.get_range lumenqraph.Wasm.Sections.encode_all lumenqraph.Wasm.Sections.encode
    lumenqraph.Wasm.Leb.encode_leb lumenqraph.Wasm.Leb.leb_bytes lumenqraph.Base.Str.str_eq
    lumenqraph.Wasm.section_loop lumenqraph.Wasm.section lumenqraph.Wasm.byte
    lumenqraph.Wasm.get_byte lumenqraph.Wasm.leb_u32 lumenqraph.Wasm.leb_loop
    lumenqraph.Wasm.custom_section
wasm_has_section = refl

wasm_short : length wasm < 2 ^ 32
unfolding lumenqraph.Wasm.Sections.encode_all lumenqraph.Wasm.Sections.encode
    lumenqraph.Wasm.Leb.encode_leb lumenqraph.Wasm.Leb.leb_bytes
wasm_short = omega arith

wasm_custom_section-encode_example :
    wasm_custom_section (length wasm) wasm (lit "spec") ≡ some (find_custom (lit "spec") sections)
wasm_custom_section-encode_example =
    wasm_custom_section-encode version (lit "spec") sections refl wasm_short

wasm_custom_section-ends_example : wasm_custom_section (length wasm) wasm (lit "spec") ≢ none
wasm_custom_section-ends_example = wasm_custom_section-ends wasm (lit "spec")
