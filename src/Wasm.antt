-- ===== src/Wasm.antt =====
-- crates/lumenqraph-core/src/spec.rs: the walk over the sections of a WebAssembly module that
-- finds the interface of a contract, and its byte reader. A usize has 64 bits.
mod Examples
pub mod Reading
pub mod Leb
pub mod Sections
pub mod Ending
pub mod Parts
use lumenqraph.Base.{
  ℕ, zero, suc, ◌+◌, ◌-◌, ◌*◌, ◌%◌, ◌^◌, Bool, true, false, ◌&&◌, Option, none, some, List, [], ◌∷◌,
  length, take, drop, ltb, leb, ◌==◌, if◌then◌else◌,
}
use lumenqraph.Base.Str.{Str, lit, str_eq}
use lumenqraph.Base.Chain.{◌>>=◌}

pub record Reader : Type 0 where
  pub buf : Str
  pub pos : ℕ

-- `usize::checked_add`.
unfoldable pub checked_add : ℕ → ℕ → Option ℕ
checked_add a b = if ltb (a + b) (2 ^ 64) then some (a + b) else none

-- `buf.get(i)`.
unfoldable pub get_byte : Str → ℕ → Option ℕ
get_byte [] i = none
get_byte (b ∷ bs) zero = some b
get_byte (b ∷ bs) (suc i) = get_byte bs i

-- `buf.get(first..last)`.
unfoldable pub get_range : Str → ℕ → ℕ → Option Str
get_range buf first last =
    if leb first last && leb last (length buf)
    then some (take (last - first) (drop first buf))
    else none

unfoldable pub byte : Reader → Option (ℕ × Reader)
byte c = do b ← get_byte c.buf c.pos; some (b, record c { pos = c.pos + 1 })

-- `Reader::take`.
unfoldable pub take_bytes : ℕ → Reader → Option (Str × Reader)
take_bytes n c = do
  last ← checked_add c.pos n
  s ← get_range c.buf c.pos last
  some (s, record c { pos = last })

-- The passes of the loop of `leb_u32` that are left. Each byte is below 256. The bits of `result` are below `shift`, so
-- `|=` adds, and the shift drops what leaves a u32.
unfoldable pub leb_loop : ℕ → ℕ → ℕ → Reader → Option (ℕ × Reader)
leb_loop zero result shift c = none
leb_loop (suc n) result shift c = do
  read ← byte c
  let result' = result + (read.0 % 0x80 * 2 ^ shift) % 2 ^ 32
  let rest = leb_loop n result' (shift + 7) read.1
  if ltb read.0 0x80 then some (result', read.1) else rest

unfoldable pub leb_u32 : Reader → Option (ℕ × Reader)
leb_u32 c = leb_loop 5 0 0 c

-- What a pass of the section loop ends with: the content that is looked for (or `None`, as a
-- range), the place of the next section, or the early return of a truncated module.
pub data Pass : Type 0 where
  found : Option Str → Pass
  skip_to : ℕ → Pass

-- The custom section that ends at `body_end`, from its name on.
unfoldable pub custom_section : Str → ℕ → Reader → Option Pass
custom_section want body_end c = do
  name_len ← leb_u32 c
  name_bytes ← take_bytes name_len.0 name_len.1
  some (
      if str_eq name_bytes.0 want
      then found (get_range c.buf name_bytes.1.pos body_end)
      else skip_to body_end)

-- One pass of the loop of `wasm_custom_section`.
unfoldable pub section : Str → Reader → Option Pass
section want c = do
  id ← byte c
  size ← leb_u32 id.1
  body_end ← checked_add size.1.pos size.0
  if ltb (length c.buf) body_end
      then none
      else if id.0 == 0
      then custom_section want body_end size.1
      else some (skip_to body_end)

-- The loop, on fuel: the outer `none` is that of no fuel.
unfoldable pub section_loop : ℕ → Str → Reader → Option (Option Str)
section_loop zero want c = none
section_loop (suc fuel) want c =
    if ltb c.pos (length c.buf)
    then elim (section want c) [
      | none ↦ some none
      | some (found content) ↦ some content
      | some (skip_to body_end) ↦ section_loop fuel want (record c { pos = body_end })
    ]
    else some none

abbrev pub magic : Str
magic = 0 ∷ lit "asm"

-- From the read of the version on, and from the read of the magic number on.
abbrev pub behind_version : ℕ → Str → Option (Str × Reader) → Option (Option Str)
behind_version fuel want none = some none
behind_version fuel want (some (version, c)) = section_loop fuel want c

abbrev pub behind_magic : ℕ → Str → Option (Str × Reader) → Option (Option Str)
behind_magic fuel want none = some none
behind_magic fuel want (some (header, c)) =
    if str_eq header magic then behind_version fuel want (take_bytes 4 c) else some none

unfoldable pub wasm_custom_section : ℕ → Str → Str → Option (Option Str)
wasm_custom_section fuel wasm want =
    behind_magic fuel want (take_bytes 4 (record { buf = wasm; pos = 0 }))
