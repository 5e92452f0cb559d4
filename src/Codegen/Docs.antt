-- ===== src/Codegen/Docs.antt =====
-- The doc comments of the generated clients, crates/lumenqraph-core/src/codegen.rs.
use lumenqraph.Base.{
  ℕ, zero, suc, ◌+◌, ◌-◌, ◌/◌, ◌%◌, ◌<◌, ◌≡◌, ◌∙◌, is_nil, refl, Bool, true, false, not, ◌&&◌, ◌||◌,
  [], ◌∷◌, ◌++◌, length, all, ltb, ◌==◌, if◌then◌else◌, arith, Bool-cases, inl, inr,
}
use lumenqraph.Base.Decimal.{all-append}
use lumenqraph.Base.Str.{lit}
use lumenqraph.Base.Text.{Text, starts_with, is_control}

-- `str::replace`, with the number of characters that the last match still covers.
unfoldable pub replace_from : Text → Text → ℕ → Text → Text
unfolding starts_with
replace_from pattern to skip [] = []
replace_from pattern to (suc skip) (c ∷ cs) = replace_from pattern to skip cs
replace_from pattern to zero (c ∷ cs) =
    if starts_with pattern (c ∷ cs)
    then to ++ replace_from pattern to (length pattern - 1) cs
    else c ∷ replace_from pattern to zero cs

unfoldable pub replace : Text → Text → Text → Text
unfolding replace_from
replace pattern to t = replace_from pattern to zero t

unfoldable pub ts_doc : Text → Text
unfolding replace
ts_doc doc = replace (0x2029 ∷ []) (lit "\\u2029") (
    replace (0x2028 ∷ []) (lit "\\u2028")
      (replace (13 ∷ []) (10 ∷ []) (replace (lit "*/") (lit "*\\/") doc)))

unfoldable pub rust_doc : Text → Text
unfolding replace
rust_doc doc = replace (0x2029 ∷ []) (lit "\\u{2029}") (
    replace (0x2028 ∷ []) (lit "\\u{2028}")
      (replace (13 ∷ []) (10 ∷ []) (replace (lit "*/") (lit "* /") doc)))

-- A digit of `{:x}`.
abbrev pub hex_digit : ℕ → ℕ
hex_digit d = if ltb d 10 then 48 + d else 87 + d

-- A control character is below 0xa0, so `{:02x}` is two digits.
unfoldable pub py_char : ℕ → Text
py_char c =
    if c == 10 || c == 13
    then lit "\\n"
    else if c == 0x2028
    then lit "\\u2028"
    else if c == 0x2029
    then lit "\\u2029"
    else if is_control c
    then 92 ∷ 120 ∷ hex_digit (c / 16) ∷ hex_digit (c % 16) ∷ []
    else c ∷ []

unfoldable pub py_chars : Text → Text
unfolding py_char
py_chars [] = []
py_chars (c ∷ cs) = py_char c ++ py_chars cs

unfoldable pub py_doc : Text → Text
unfolding py_chars
py_doc doc = lit "# " ++ py_chars doc

-- Whether `*/` ends in a text, where the test says that a `*` stands before it.
unfoldable pub closes : Bool → Text → Bool
closes star [] = false
closes star (c ∷ cs) = (star && c == 47) || closes (c == 42) cs

abbrev pub Absent : ℕ → Text → Type 0
Absent x t = all (λ c. not (c == x)) t ≡ true

abbrev begins_slash : Text → Bool
begins_slash [] = false
begins_slash (c ∷ cs) = c == 47

-- The replaced text does not close a comment, for a character between the star and the slash.
replace-closes :
    (m : ℕ) (star : Bool) (t : Text)
    → (m == 42) ≡ false
    → (m == 47) ≡ false
    → (star && begins_slash t) ≡ false
    → closes star (replace_from (42 ∷ 47 ∷ []) (42 ∷ m ∷ 47 ∷ []) 0 t) ≡ false
unfolding closes replace_from starts_with
replace-closes m star [] a b h = refl
replace-closes m star (c ∷ []) a b h = ground (arith, h)
replace-closes m star (c ∷ d ∷ cs) a b h =
    ground
      (arith, a, b, h, replace-closes m false cs a b refl, replace-closes m (c == 42) (d ∷ cs) a b)

closes-append_safe :
    (star : Bool) (to rest : Text)
    → all (λ c. not (c == 42) && not (c == 47)) to ≡ true
    → closes false rest ≡ false
    → (star && begins_slash (to ++ rest)) ≡ false
    → closes star (to ++ rest) ≡ false
unfolding closes all
closes-append_safe star [] [] h r s = refl
closes-append_safe star [] (c ∷ cs) h r s = ground (arith, r, s)
closes-append_safe star (c ∷ cs) rest h r s = ground (arith, h, r, closes-append_safe false cs rest)

replaced_none : (pattern to : Text) (skip : ℕ) → replace_from pattern to skip [] ≡ []
unfolding replace_from
replaced_none pattern to skip = refl

replaced_here :
    (x c : ℕ) (to cs : Text)
    → (x == c) ≡ true
    → replace_from (x ∷ []) to 0 (c ∷ cs) ≡ to ++ replace_from (x ∷ []) to 0 cs
unfolding replace_from starts_with
replaced_here x c to cs h = ground (arith, h)

replaced_later :
    (x c : ℕ) (to cs : Text)
    → (x == c) ≡ false
    → replace_from (x ∷ []) to 0 (c ∷ cs) ≡ c ∷ replace_from (x ∷ []) to 0 cs
unfolding replace_from starts_with
replaced_later x c to cs h = ground (arith, h)

-- A character is replaced by a text that has no star and no slash.
one-closes :
    (x : ℕ) (to : Text) (star : Bool) (t : Text)
    → (x == 42) ≡ false
    → is_nil to ≡ false
    → all (λ c. not (c == 42) && not (c == 47)) to ≡ true
    → closes star t ≡ false
    → closes star (replace_from (x ∷ []) to 0 t) ≡ false
unfolding closes all
one-closes x to star [] a n s h = rw (replaced_none (x ∷ []) to 0) refl
one-closes x [] star (c ∷ cs) a n s h = cc
one-closes x (d ∷ ds) star (c ∷ cs) a n s h = elim (Bool-cases (x == c)) [
  | inl same ↦ rw (replaced_here x c (d ∷ ds) cs same) (
      closes-append_safe star (d ∷ ds) (replace_from (x ∷ []) (d ∷ ds) 0 cs) s
        (one-closes x (d ∷ ds) false cs a n s (ground (arith, h, a, same))) (ground (arith, s)))
  | inr other ↦
      rw (replaced_later x c (d ∷ ds) cs other)
        (ground (arith, h, one-closes x (d ∷ ds) (c == 42) cs a n s))
]

-- What a replacement of a character leaves out: the character, and what was not there before.
one-all :
    (p : ℕ → Bool) (x : ℕ) (to t : Text)
    → all p to ≡ true
    → all (λ c. p c || x == c) t ≡ true
    → all p (replace_from (x ∷ []) to 0 t) ≡ true
unfolding all
one-all p x to [] h k = rw (replaced_none (x ∷ []) to 0) refl
one-all p x to (c ∷ cs) h k = elim (Bool-cases (x == c)) [
  | inl same ↦
      rw (replaced_here x c to cs same) (
        all-append p to (replace_from (x ∷ []) to 0 cs) ∙ ground (arith, h, k, one-all p x to cs h))
  | inr other ↦ rw (replaced_later x c to cs other) (ground (arith, k, other, one-all p x to cs h))
]

-- The characters that break a line of a comment.
abbrev pub is_break : ℕ → Bool
is_break c = c == 13 || c == 0x2028 || c == 0x2029

-- What makes a text safe in a block comment whose lines end with a line feed.
pub record IsSafe (t : Text) : Type 0 where
  pub open_comment : closes false t ≡ false
  pub no_break : all (λ c. not (is_break c)) t ≡ true

-- The replacements after the first one, for a spelling of the two line separators.
escaped : Text → Text → Text → Text
unfolding replace
escaped ls ps t =
    replace (0x2029 ∷ []) ps (replace (0x2028 ∷ []) ls (replace (13 ∷ []) (10 ∷ []) t))

abbrev IsPlain : Text → Type 0
IsPlain to =
    (is_nil to ≡ false)
    × (all (λ c. not (c == 42) && not (c == 47)) to ≡ true)
    × (all (λ c. not (is_break c)) to ≡ true)

any_char : (t : Text) → all (λ c. true) t ≡ true
unfolding all
any_char [] = refl
any_char (c ∷ cs) = any_char cs

escaped-IsSafe :
    (ls ps t : Text) → IsPlain ls → IsPlain ps → closes false t ≡ false → IsSafe (escaped ls ps t)
unfolding escaped replace all
escaped-IsSafe ls ps t l p h = record {
  open_comment =
      one-closes 0x2029 ps false _ refl p.0 p.1 (
        one-closes 0x2028 ls false _ refl l.0 l.1 (one-closes 13 (10 ∷ []) false t refl refl lf h));
  no_break =
      one-all (λ c. not (is_break c)) 0x2029 ps
        (replace_from (0x2028 ∷ []) ls 0 (replace_from (13 ∷ []) (10 ∷ []) 0 t)) p.2
        (one-all (λ c. not (is_break c) || 0x2029 == c) 0x2028 ls
          (replace_from (13 ∷ []) (10 ∷ []) 0 t) (ls_plain ls l.2)
          (one-all (λ c. (not (is_break c) || 0x2029 == c) || 0x2028 == c) 13 (10 ∷ []) t lf_break
            (every t)));
}
  where
    lf : all (λ c. not (c == 42) && not (c == 47)) (10 ∷ []) ≡ true
    lf = refl

    lf_break : all (λ c. (not (is_break c) || 0x2029 == c) || 0x2028 == c) (10 ∷ []) ≡ true
    lf_break = refl

    ls_plain :
        (ls : Text)
        → all (λ c. not (is_break c)) ls ≡ true
        → all (λ c. not (is_break c) || 0x2029 == c) ls ≡ true
    ls_plain [] h = refl
    ls_plain (c ∷ cs) h = ground (arith, h, ls_plain cs)

    every :
        (t : Text)
        → all (λ c. ((not (is_break c) || 0x2029 == c) || 0x2028 == c) || 13 == c) t ≡ true
    every [] = refl
    every (c ∷ cs) = ground (arith, every cs)

-- A doc string in a generated TypeScript or Rust client neither ends its comment nor breaks a line
-- of it other than by a line feed, where the generator splits it.
pub docs-IsSafe : (doc : Text) → IsSafe (ts_doc doc) × IsSafe (rust_doc doc)
unfolding ts_doc rust_doc replace escaped all
docs-IsSafe doc = (
  escaped-IsSafe (lit "\\u2028") (lit "\\u2029") _ (refl, refl, refl) (refl, refl, refl)
      (replace-closes 92 false doc refl refl refl),
  escaped-IsSafe (lit "\\u{2028}") (lit "\\u{2029}") _ (refl, refl, refl) (refl, refl, refl)
      (replace-closes 32 false doc refl refl refl),
)

abbrev is_printable : ℕ → Bool
is_printable c = not (is_control c) && not (c == 0x2028) && not (c == 0x2029)

hex_digit-is_printable : (d : ℕ) → d < 16 → is_printable (hex_digit d) ≡ true
hex_digit-is_printable d h = ground arith

py_char-all : (c : ℕ) → all is_printable (py_char c) ≡ true
unfolding py_char all
py_char-all c = ground (arith, hex_digit-is_printable (c / 16), hex_digit-is_printable (c % 16))

py_chars-all : (doc : Text) → all is_printable (py_chars doc) ≡ true
unfolding py_chars all
py_chars-all [] = refl
py_chars-all (c ∷ cs) =
    all-append is_printable (py_char c) (py_chars cs)
    ∙ ground (arith, py_char-all c, py_chars-all cs)

-- A doc string in a generated Python client stays on the line of its comment: the line has no
-- control character and no line separator.
py_doc-all :
    (doc : Text)
    → all (λ c. not (is_control c) && not (c == 0x2028) && not (c == 0x2029)) (py_doc doc) ≡ true
unfolding py_doc all
py_doc-all doc = py_chars-all doc
