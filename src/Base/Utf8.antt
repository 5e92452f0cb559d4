-- ===== src/Base/Utf8.antt =====
-- `String::from_utf8` of the standard library: which bytes are well-formed UTF-8.
use Prim.Native.Nat.{ℕ, zero, suc}
use mathlib.Core.Path.{◌≡◌, refl}
use mathlib.Core.Bool.{Bool, true, false, ◌&&◌}
use mathlib.Core.Option.{Option, none, some}
use mathlib.Core.List.{[], ◌∷◌, ◌++◌}
use native.Mathlib.Omega.{arith}
use lumenqraph.Base.Tests.{ltb, leb, ◌==◌, if◌then◌else◌}
use lumenqraph.Base.Lists.{all}
use lumenqraph.Base.Str.{Str}

-- A first byte: how many bytes follow, and the range of the next one.
abbrev lead : ℕ → Option (ℕ × ℕ × ℕ)
lead b =
    if ltb b 0x80
    then some (0, 0x80, 0xbf)
    else if ltb b 0xc2
    then none
    else if ltb b 0xe0
    then some (1, 0x80, 0xbf)
    else if b == 0xe0
    then some (2, 0xa0, 0xbf)
    else if b == 0xed
    then some (2, 0x80, 0x9f)
    else if ltb b 0xf0
    then some (2, 0x80, 0xbf)
    else if b == 0xf0
    then some (3, 0x90, 0xbf)
    else if ltb b 0xf4
    then some (3, 0x80, 0xbf)
    else if b == 0xf4
    then some (3, 0x80, 0x8f)
    else none

-- The bytes after `n` more of the character that is being read, the next of them in a range.
unfoldable pub utf8_from : ℕ → ℕ → ℕ → Str → Bool
utf8_from zero lo hi [] = true
utf8_from (suc n) lo hi [] = false
utf8_from zero lo hi (b ∷ bs) = elim (lead b) [
  | none ↦ false
  | some (n, lo', hi') ↦ utf8_from n lo' hi' bs
]
utf8_from (suc n) lo hi (b ∷ bs) = leb lo b && leb b hi && utf8_from n 0x80 0xbf bs

unfoldable pub is_utf8 : Str → Bool
unfolding utf8_from
is_utf8 bs = utf8_from 0 0x80 0xbf bs

abbrev pub is_ascii : ℕ → Bool
is_ascii b = ltb b 0x80

-- Characters below 128 in front do not matter.
pub is_utf8-append : (xs ys : Str) → all is_ascii xs ≡ true → is_utf8 (xs ++ ys) ≡ is_utf8 ys
unfolding is_utf8 utf8_from all
is_utf8-append [] ys h = refl
is_utf8-append (x ∷ xs) ys h = ground (arith, is_utf8-append xs ys)
