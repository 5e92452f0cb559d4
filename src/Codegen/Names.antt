-- ===== src/Codegen/Names.antt =====
-- The names of the generated clients are identifiers of their languages.
use lumenqraph.Base.{
  ℕ, ◌≡◌, refl, ap, ◌⊎◌, inl, inr, Bool, true, false, not, ◌||◌, List, [], ◌∷◌, ◌++◌, all, any,
  ◌==◌, arith, Bool-cases,
}
use lumenqraph.Base.Str.{lit, str_eq, eq_of_str_eq}
use lumenqraph.Base.Decimal.{decimal, all-decimal, all-append, is_digit}
use lumenqraph.Base.Text.{Text}
use lumenqraph.Codegen.{
  is_ascii_letter, is_ascii_digit, is_ascii_alphanumeric, is_ts_ident, is_valid_ident,
  kept_or_underscore, sanitized, sanitize_ident, ts_type_name, ts_case_name, py_type_name,
  rust_type_name, py_keywords, rust_keywords, is_py_keyword, is_rust_keyword, fallback_name,
  py_ident, rust_ident,
}

abbrev is_word : ℕ → Bool
is_word d = is_ascii_alphanumeric d || d == 95

kept-is_word : (c : ℕ) → is_word (kept_or_underscore c) ≡ true
unfolding is_ascii_alphanumeric
kept-is_word c = ground arith

sanitized-all : (name : Text) → all is_word (sanitized name) ≡ true
unfolding sanitized all
sanitized-all [] = refl
sanitized-all (c ∷ cs) = ground (arith, kept-is_word c, sanitized-all cs)

sanitize_ident-all : (name : Text) → all is_word (sanitize_ident name) ≡ true
unfolding sanitize_ident all is_ascii_alphanumeric
sanitize_ident-all name = ground (arith, sanitized-all name)

ts_prefixed :
    (name : Text)
    → (is_ts_ident (lit "Type_" ++ sanitize_ident name) ≡ true)
      × (is_ts_ident (lit "Case_" ++ sanitize_ident name) ≡ true)
unfolding is_ts_ident all is_ascii_alphanumeric is_ascii_letter
ts_prefixed name =
    let h = all_ts (sanitize_ident name) (sanitize_ident-all name) in
    (ground (arith, h), ground (arith, h))
  where
    all_ts :
        (t : Text)
        → all is_word t ≡ true
        → all (λ d. is_ascii_alphanumeric d || d == 95 || d == 36) t ≡ true
    all_ts [] h = refl
    all_ts (c ∷ cs) h = ground (arith, h, all_ts cs)

valid_prefixed : (name : Text) → is_valid_ident (lit "Type_" ++ sanitize_ident name) ≡ true
unfolding is_valid_ident all is_ascii_alphanumeric is_ascii_letter
valid_prefixed name = ground (arith, sanitize_ident-all name)

-- Whatever the name in the interface, which the contract chooses, the name of a type or of a case
-- in the generated client is an identifier of the client's language.
type_names-is_ident :
    (name : Text)
    → (is_ts_ident (ts_type_name name) ≡ true)
      × (is_ts_ident (ts_case_name name) ≡ true)
      × (is_valid_ident (py_type_name name) ≡ true)
      × (is_valid_ident (rust_type_name name) ≡ true)
unfolding ts_type_name ts_case_name py_type_name rust_type_name
type_names-is_ident name = (
  ground (arith, (ts_prefixed name).0),
  ground (arith, (ts_prefixed name).1),
  ground (arith, valid_prefixed name),
  ground (arith, valid_prefixed name),
)

valid-all : (p : Text) → is_valid_ident p ≡ true → all is_word p ≡ true
unfolding is_valid_ident all is_ascii_alphanumeric
valid-all [] h = cc
valid-all (c ∷ cs) h = ground (arith, h)

digits-all : (t : Text) → all is_digit t ≡ true → all is_word t ≡ true
unfolding all is_ascii_alphanumeric is_ascii_digit
digits-all [] h = refl
digits-all (c ∷ cs) h = ground (arith, h, digits-all cs)

-- A valid prefix makes a valid fallback.
fallback-is_valid_ident :
    (prefix : Text) (index : ℕ)
    → is_valid_ident prefix ≡ true
    → is_valid_ident (fallback_name prefix index) ≡ true
unfolding is_valid_ident fallback_name all
fallback-is_valid_ident [] index h = cc
fallback-is_valid_ident (c ∷ cs) index h = ground (
  arith,
  h,
  all-append is_word cs (95 ∷ decimal index),
  digits-all (decimal index) (all-decimal index),
)

has_underscore : Text → Bool
unfolding any
has_underscore t = any (λ c. c == 95) t

fallback-has_underscore :
    (prefix : Text) (index : ℕ) → has_underscore (fallback_name prefix index) ≡ true
unfolding has_underscore fallback_name any
fallback-has_underscore [] index = refl
fallback-has_underscore (c ∷ cs) index = ground (arith, fallback-has_underscore cs index)

-- No keyword has an underscore.
no_keyword :
    (words : List Text) (name : Text)
    → all (λ w. not (has_underscore w)) words ≡ true
    → has_underscore name ≡ true
    → any (str_eq name) words ≡ false
unfolding any all
no_keyword [] name h k = refl
no_keyword (w ∷ words) name h k = elim (Bool-cases (str_eq name w)) [
  | inl same ↦
      let e : has_underscore name ≡ has_underscore w =
        ap has_underscore (eq_of_str_eq name w same) in
      absurd_of (ground (arith, h, e, k))
  | inr other ↦ rw other (no_keyword words name (ground (arith, h)) k)
]
  where
    absurd_of : false ≡ true → (str_eq name w || any (str_eq name) words) ≡ false
    absurd_of e = cc

fallback-is_py_keyword :
    (prefix : Text) (index : ℕ) → is_py_keyword (fallback_name prefix index) ≡ false
unfolding is_py_keyword has_underscore any all
fallback-is_py_keyword prefix index =
    no_keyword py_keywords (fallback_name prefix index) refl (fallback-has_underscore prefix index)

fallback-is_rust_keyword :
    (prefix : Text) (index : ℕ) → is_rust_keyword (fallback_name prefix index) ≡ false
unfolding is_rust_keyword has_underscore any all
fallback-is_rust_keyword prefix index =
    no_keyword rust_keywords (fallback_name prefix index) refl
      (fallback-has_underscore prefix index)

-- A name that is neither a keyword nor a raw identifier.
pub record IsName (is_keyword : Text → Bool) (name : Text) : Type 0 where
  pub valid : is_valid_ident name ≡ true
  pub no_keyword : is_keyword name ≡ false

py_ident-IsName :
    (name prefix : Text) (index : ℕ)
    → is_valid_ident prefix ≡ true
    → IsName is_py_keyword (py_ident name prefix index)
unfolding py_ident
py_ident-IsName name prefix index h =
    split (Bool-cases (is_valid_ident name)) (Bool-cases (is_py_keyword name))
  where
    fallback : IsName is_py_keyword (fallback_name prefix index)
    fallback = record {
      valid = fallback-is_valid_ident prefix index h;
      no_keyword = fallback-is_py_keyword prefix index;
    }

    split :
        (is_valid_ident name ≡ true) ⊎ (is_valid_ident name ≡ false)
        → (is_py_keyword name ≡ true) ⊎ (is_py_keyword name ≡ false)
        → IsName is_py_keyword (py_ident name prefix index)
    split (inr invalid) k = rw (py_ident, invalid) fallback
    split (inl valid) (inl keyword) = rw (py_ident, valid, keyword) fallback
    split (inl valid) (inr other) =
        rw (py_ident, valid, other) (record { valid = valid; no_keyword = other })

-- Whatever the name and the place of a function, field or argument, and for a prefix that is an
-- identifier, its name in the Python client is an identifier that is not a listed keyword, and its
-- name in the Rust client is one as well or the raw form of a listed keyword.
pub idents-IsName :
    (name prefix : Text) (index : ℕ)
    → is_valid_ident prefix ≡ true
    → IsName is_py_keyword (py_ident name prefix index)
      × (IsName is_rust_keyword (rust_ident name prefix index)
          ⊎ ((is_rust_keyword name ≡ true) × (rust_ident name prefix index ≡ lit "r#" ++ name)))
unfolding py_ident rust_ident
idents-IsName name prefix index h = (
  py_ident-IsName name prefix index h,
  rust (Bool-cases (is_valid_ident name)) (Bool-cases (is_rust_keyword name)),
)
  where
    v : is_valid_ident (fallback_name prefix index) ≡ true
    v = fallback-is_valid_ident prefix index h

    rust :
        (is_valid_ident name ≡ true) ⊎ (is_valid_ident name ≡ false)
        → (is_rust_keyword name ≡ true) ⊎ (is_rust_keyword name ≡ false)
        → IsName is_rust_keyword (rust_ident name prefix index)
          ⊎ ((is_rust_keyword name ≡ true) × (rust_ident name prefix index ≡ lit "r#" ++ name))
    rust (inr invalid) k = inl (
        rw (rust_ident, invalid)
          (record { valid = v; no_keyword = fallback-is_rust_keyword prefix index }))
    rust (inl valid) (inl keyword) = inr (keyword, rw (rust_ident, valid, keyword) refl)
    rust (inl valid) (inr other) =
        inl (rw (rust_ident, valid, other) (record { valid = valid; no_keyword = other }))
