-- ===== src/Codegen/Comments.antt =====
-- The doc comments above the generated methods, of crates/lumenqraph-core/src/codegen.rs:
-- `render_method` for TypeScript and the loop over the functions for Rust.
use lumenqraph.Base.{
  ℕ, ◌≡◌, Bool, true, false, not, ◌&&◌, List, [], ◌∷◌, ◌++◌, all, is_nil, ◌==◌, if◌then◌else◌,
}
use lumenqraph.Base.Str.{lit}
use lumenqraph.Base.Text.{Text, starts_with, trim, on_head}
use lumenqraph.Codegen.Docs.{ts_doc, rust_doc, closes, is_break}

-- `str::lines`: the end of a line is a line feed, with a carriage return before it, if there is one.
unfoldable pub lines : Text → List Text
unfolding starts_with
lines [] = []
lines (c ∷ cs) =
    let rest = lines cs in
    if c == 10
    then [] ∷ rest
    else if c == 13 && starts_with (10 ∷ []) cs
    then rest
    else on_head c rest

-- `writeln!(out, "<prefix>{line}")` for each line.
unfoldable pub write_lines : Text → List Text → Text
write_lines prefix [] = []
write_lines prefix (l ∷ ls) = prefix ++ (l ++ 10 ∷ write_lines prefix ls)

unfoldable pub rust_comment : Text → Text
unfolding trim rust_doc lines write_lines
rust_comment doc =
    if is_nil (trim doc) then [] else write_lines (lit "    /// ") (lines (rust_doc (trim doc)))

unfoldable pub ts_comment : Text → Text
unfolding trim ts_doc lines write_lines
ts_comment doc =
    if is_nil (trim doc)
    then []
    else lit "  /**\n" ++ (write_lines (lit "   * ") (lines (ts_doc (trim doc))) ++ lit "   */\n")

-- A character that no compiler takes as the end of a line.
abbrev pub is_inner : ℕ → Bool
is_inner c = not (is_break c) && not (c == 10)

-- Lines that begin with a prefix.
pub data IsPrefixed (prefix : Text) : Text → Type 0 where
  none : IsPrefixed prefix []
  line :
      (l : Text) {rest : Text}
      → all is_inner l ≡ true
      → IsPrefixed prefix rest
      → IsPrefixed prefix (prefix ++ (l ++ 10 ∷ rest))

-- A block comment that closes at its end only: the opening `/*`, the text up to the closing star
-- and the closing slash.
pub record IsBlock (t : Text) : Type 0 where
  pub body : Text
  pub text : t ≡ lit "  /**\n" ++ (body ++ lit "   */\n")
  pub prefixed : IsPrefixed (lit "   * ") body
  pub open_comment : closes false (lit "*\n" ++ (body ++ lit "   *")) ≡ false

-- The first line goes on after a character, and the others begin anew.
open_lines : Bool → List Text → Bool
unfolding closes all
open_lines star [] = true
open_lines star (l ∷ ls) = not (closes star l) && all (λ k. not (closes false k)) ls
