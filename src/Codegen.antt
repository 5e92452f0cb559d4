-- ===== src/Codegen.antt =====
-- crates/lumenqraph-core/src/codegen.rs: the names, the doc comments and the types of the generated
-- clients. A name is its characters (`Base.Text`); `{:?}` of the standard library is a parameter.
mod Examples
pub mod Docs
pub mod Comments
pub mod Names
pub mod Types
use lumenqraph.Base.{
  ℕ, ◌-◌, Bool, true, false, not, ◌&&◌, ◌||◌, List, [], ◌∷◌, ◌++◌, all, any, is_nil, leb, ◌==◌,
  if◌then◌else◌,
}
use lumenqraph.Base.Str.{lit, str_eq}
use lumenqraph.Base.Decimal.{decimal}
use lumenqraph.Base.Text.{Text}

unfoldable pub is_ascii_digit : ℕ → Bool
is_ascii_digit c = leb 48 c && leb c 57

unfoldable pub is_ascii_letter : ℕ → Bool
is_ascii_letter c = (leb 65 c && leb c 90) || (leb 97 c && leb c 122)

unfoldable pub is_ascii_alphanumeric : ℕ → Bool
unfolding is_ascii_digit is_ascii_letter
is_ascii_alphanumeric c = is_ascii_letter c || is_ascii_digit c

-- An identifier of TypeScript may have `$`.
unfoldable pub is_ts_ident : Text → Bool
unfolding all is_ascii_alphanumeric is_ascii_letter
is_ts_ident [] = false
is_ts_ident (c ∷ cs) =
    (is_ascii_letter c || c == 95 || c == 36)
    && all (λ d. is_ascii_alphanumeric d || d == 95 || d == 36) cs

unfoldable pub is_valid_ident : Text → Bool
unfolding all is_ascii_alphanumeric is_ascii_letter
is_valid_ident [] = false
is_valid_ident (c ∷ cs) =
    (is_ascii_letter c || c == 95) && all (λ d. is_ascii_alphanumeric d || d == 95) cs

abbrev pub kept_or_underscore : ℕ → ℕ
kept_or_underscore c = if is_ascii_alphanumeric c || c == 95 then c else 95

unfoldable pub sanitized : Text → Text
unfolding is_ascii_alphanumeric
sanitized [] = []
sanitized (c ∷ cs) = kept_or_underscore c ∷ sanitized cs

unfoldable pub sanitize_ident : Text → Text
unfolding sanitized
sanitize_ident name = if is_nil (sanitized name) then 95 ∷ [] else sanitized name

-- The names of the types of the three clients, and of the cases of an enum.
unfoldable pub ts_type_name : Text → Text
unfolding is_ts_ident sanitize_ident
ts_type_name name = if is_ts_ident name then name else lit "Type_" ++ sanitize_ident name

unfoldable pub ts_case_name : Text → Text
unfolding is_ts_ident sanitize_ident
ts_case_name name = if is_ts_ident name then name else lit "Case_" ++ sanitize_ident name

unfoldable pub py_type_name : Text → Text
unfolding is_valid_ident sanitize_ident
py_type_name name = if is_valid_ident name then name else lit "Type_" ++ sanitize_ident name

unfoldable pub rust_type_name : Text → Text
unfolding is_valid_ident sanitize_ident
rust_type_name name = if is_valid_ident name then name else lit "Type_" ++ sanitize_ident name

-- `{name:?}` is a parameter.
unfoldable pub ts_key : (Text → Text) → Text → Text
unfolding is_ts_ident
ts_key debug name = if is_ts_ident name then name else debug name

abbrev pub py_keywords : List Text
py_keywords =
    lit "from"
    ∷ lit "class"
    ∷ lit "import"
    ∷ lit "return"
    ∷ lit "def"
    ∷ lit "lambda"
    ∷ lit "pass"
    ∷ lit "in"
    ∷ lit "is"
    ∷ lit "not"
    ∷ lit "and"
    ∷ lit "or"
    ∷ lit "else"
    ∷ lit "if"
    ∷ lit "for"
    ∷ lit "while"
    ∷ lit "with"
    ∷ lit "yield"
    ∷ lit "raise"
    ∷ lit "try"
    ∷ lit "except"
    ∷ lit "finally"
    ∷ lit "del"
    ∷ lit "global"
    ∷ lit "nonlocal"
    ∷ lit "assert"
    ∷ lit "break"
    ∷ lit "continue"
    ∷ lit "as"
    ∷ lit "type"
    ∷ lit "None"
    ∷ lit "True"
    ∷ lit "False"
    ∷ []

unfoldable pub is_py_keyword : Text → Bool
unfolding any str_eq
is_py_keyword name = any (str_eq name) py_keywords

abbrev pub rust_keywords : List Text
rust_keywords =
    lit "type"
    ∷ lit "self"
    ∷ lit "fn"
    ∷ lit "let"
    ∷ lit "mut"
    ∷ lit "use"
    ∷ lit "mod"
    ∷ lit "pub"
    ∷ lit "impl"
    ∷ lit "struct"
    ∷ lit "enum"
    ∷ lit "trait"
    ∷ lit "match"
    ∷ lit "if"
    ∷ lit "else"
    ∷ lit "for"
    ∷ lit "while"
    ∷ lit "loop"
    ∷ lit "return"
    ∷ lit "break"
    ∷ lit "continue"
    ∷ lit "where"
    ∷ lit "as"
    ∷ lit "in"
    ∷ lit "ref"
    ∷ lit "move"
    ∷ lit "async"
    ∷ lit "await"
    ∷ lit "dyn"
    ∷ lit "unsafe"
    ∷ lit "extern"
    ∷ lit "crate"
    ∷ lit "super"
    ∷ lit "static"
    ∷ lit "const"
    ∷ lit "box"
    ∷ lit "true"
    ∷ lit "false"
    ∷ []

unfoldable pub is_rust_keyword : Text → Bool
unfolding any str_eq
is_rust_keyword name = any (str_eq name) rust_keywords

-- `{fallback_prefix}_{index}`.
unfoldable pub fallback_name : Text → ℕ → Text
fallback_name prefix index = prefix ++ 95 ∷ decimal index

unfoldable pub py_ident : Text → Text → ℕ → Text
unfolding is_valid_ident is_py_keyword fallback_name
py_ident name prefix index =
    if is_valid_ident name && not (is_py_keyword name) then name else fallback_name prefix index

unfoldable pub rust_ident : Text → Text → ℕ → Text
unfolding is_valid_ident is_rust_keyword fallback_name
rust_ident name prefix index =
    if not (is_valid_ident name)
    then fallback_name prefix index
    else if is_rust_keyword name
    then lit "r#" ++ name
    else name
