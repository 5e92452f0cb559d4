-- ===== src/Sanitizer/Messages.antt =====
-- What a sanitized message contains.
use lumenqraph.Base.{
  ℕ, ◌≤◌, ◌≡◌, refl, Bool, true, false, not, ◌&&◌, ◌||◌, List, [], ◌∷◌, ◌++◌, map, length, take,
  all, any, is_nil, ltb, leb, leb→le, zero, suc, ◌==◌, inl, inr, Bool-cases, length-append,
  length-take, arith,
}
use lumenqraph.Base.Str.{join}
use lumenqraph.Base.Decimal.{is_digit, all-append}
use lumenqraph.Base.Text.{
  Text, is_control, is_whitespace, filter, drop_while, trim_end, trim, split, split_whitespace,
  all-split, all-filter, all-filter_self, trim_end-prefix,
}
use lumenqraph.Sanitizer.{
  looks_like_base64, is_url, is_public_identifier, is_identifier, is_ascii_alphabetic, redact,
  redact_internal_detail, truncated, sanitize_simulation_error,
}

abbrev is_printable : ℕ → Bool
is_printable c = not (is_control c)

-- A printable character that occurs in no URL behind its scheme, and in no base64 padding.
abbrev pub is_clean : ℕ → Bool
is_clean c = is_printable c && not (c == b'+') && not (c == b'/') && not (c == b'=')

-- The alphabet of strkeys is that of base32.
abbrev is_base32 : ℕ → Bool
is_base32 c = leb b'A' c && leb c b'Z' || leb b'2' c && leb c b'7'

-- What is documented of strkeys.
abbrev pub IsStrkeys : (Text → Bool) → Type 0
IsStrkeys is_strkey = (tok : Text) → is_strkey tok ≡ true → all is_base32 tok ≡ true

all-cons :
    {A : Type 0} (p : A → Bool) (x : A) (xs : List A)
    → all p (x ∷ xs) ≡ true
    → (p x ≡ true) × (all p xs ≡ true)
unfolding all
all-cons p x xs h = (ground (arith, h), ground (arith, h))

all-weaken :
    {A : Type 0} (p q : A → Bool) (xs : List A)
    → ((x : A) → p x ≡ true → q x ≡ true)
    → all p xs ≡ true
    → all q xs ≡ true
unfolding all
all-weaken p q [] i h = refl
all-weaken p q (x ∷ xs) i h =
    let (h1, h2) = all-cons p x xs h in rw (i x h1) (all-weaken p q xs i h2)

all-join :
    (q : ℕ → Bool) (sep : Text) (ws : List Text)
    → all q sep ≡ true
    → all (all q) ws ≡ true
    → all q (join sep ws) ≡ true
unfolding join all
all-join q sep [] s h = refl
all-join q sep (w ∷ []) s h = ground (arith, h)
all-join q sep (w ∷ v ∷ ws) s h =
    let (h1, h2) = all-cons (all q) w (v ∷ ws) h in
    let rest = all-join q sep (v ∷ ws) s h2 in
    rw (all-append q (w ++ sep) (join sep (v ∷ ws)), all-append q w sep, h1, s, rest) refl

all-drop_while : (q p : ℕ → Bool) (t : Text) → all q t ≡ true → all q (drop_while p t) ≡ true
unfolding all drop_while
all-drop_while q p [] h = refl
all-drop_while q p (c ∷ cs) h = ground (arith, h, all-drop_while q p cs)

all-trim : (q : ℕ → Bool) (t : Text) → all q t ≡ true → all q (trim t) ≡ true
unfolding trim
all-trim q t h =
    let start = drop_while is_whitespace t in
    let (rest, e) = trim_end-prefix start in
    ground (arith, all-append q (trim_end start) rest, e, all-drop_while q is_whitespace t h)

all-take : (q : ℕ → Bool) (n : ℕ) (t : Text) → all q t ≡ true → all q (take n t) ≡ true
unfolding all
all-take q zero t h = refl
all-take q (suc n) [] h = refl
all-take q (suc n) (c ∷ cs) h = ground (arith, h, all-take q n cs)

all-truncated : (t : Text) → all is_clean t ≡ true → all is_clean (truncated t) ≡ true
unfolding truncated all
all-truncated t h = elim (Bool-cases (leb (length t) 256)) [
  | inl e ↦ rw e h
  | inr e ↦ rw (e, all-append is_clean (take 255 t) (0x2026 ∷ []), all-take is_clean 255 t h) refl
]

length-truncated : (t : Text) → length (truncated t) ≤ 256
unfolding truncated
length-truncated t = elim (Bool-cases (leb (length t) 256)) [
  | inl e ↦ rw e (leb→le (length t) 256 e)
  | inr e ↦ rw e (omega (arith, length-take 255 t, length-append (take 255 t) (0x2026 ∷ [])))
]

-- The words of a text with printable characters are printable.
split_whitespace-printable :
    (t : Text) → all is_printable t ≡ true → all (all is_printable) (split_whitespace t) ≡ true
unfolding split_whitespace
split_whitespace-printable t h =
    all-filter (λ w. not (is_nil w)) (all is_printable) (split is_whitespace t)
      (all-words (split is_whitespace t) (all-split is_whitespace is_printable t h))
  where
    second : (a b : Bool) → (a && b) ≡ true → b ≡ true
    second a b e = ground (arith, e)

    all-words :
        (ws : List Text)
        → all (all (λ c. not (is_whitespace c) && is_printable c)) ws ≡ true
        → all (all is_printable) ws ≡ true
    all-words ws k =
        all-weaken (all (λ c. not (is_whitespace c) && is_printable c)) (all is_printable) ws
          (λ w.
            all-weaken (λ c. not (is_whitespace c) && is_printable c) is_printable w
              (λ c e. second (not (is_whitespace c)) (is_printable c) e))
          k

no_punctuation :
    (t : Text)
    → all is_printable t ≡ true
    → any (λ c. c == b'+') t ≡ false
    → any (λ c. c == b'/') t ≡ false
    → any (λ c. c == b'=') t ≡ false
    → all is_clean t ≡ true
unfolding all any
no_punctuation [] h p s e = refl
no_punctuation (c ∷ cs) h p s e = ground (arith, h, p, s, e, no_punctuation cs)

plain-clean :
    (t : Text)
    → all is_printable t ≡ true
    → (looks_like_base64 t || ltb 64 (length t)) ≡ false
    → all is_clean t ≡ true
unfolding looks_like_base64
plain-clean t h b = no_punctuation t h (ground (arith, b)) (ground (arith, b)) (ground (arith, b))

identifier-clean : (t : Text) → is_identifier t ≡ true → all is_clean t ≡ true
unfolding all
identifier-clean [] h = cc
identifier-clean (c ∷ cs) h =
    let rest =
      all-weaken (λ d. is_ascii_alphabetic d || is_digit d || d == b'_') is_clean cs
        (λ d e. ground (arith, e)) in
    ground (arith, h, rest)

module _ (is_strkey : Text → Bool) (strkeys : IsStrkeys is_strkey) where
  public-clean : (tok : Text) → is_public_identifier is_strkey tok ≡ true → all is_clean tok ≡ true
  unfolding is_public_identifier
  public-clean tok i = elim (Bool-cases (is_strkey tok)) [
    | inl k ↦ all-weaken is_base32 is_clean tok (λ c e. ground (arith, e)) (strkeys tok k)
    | inr k ↦ identifier-clean tok (ground (arith, i, k))
  ]

  redact-clean :
      (tok : Text) → all is_printable tok ≡ true → all is_clean (redact is_strkey tok) ≡ true
  unfolding redact all
  redact-clean tok h = elim (Bool-cases (is_url tok)) [
    | inl u ↦ rw u refl
    | inr u ↦ elim (Bool-cases (is_public_identifier is_strkey tok)) [
      | inl i ↦ rw (u, i) (public-clean tok i)
      | inr i ↦ elim (Bool-cases (looks_like_base64 tok || ltb 64 (length tok))) [
        | inl b ↦ rw (u, i, b) refl
        | inr b ↦ rw (u, i, b) (plain-clean tok h b)
      ]
    ]
  ]

  redact_internal_detail-clean :
      (t : Text)
      → all is_printable t ≡ true
      → all is_clean (redact_internal_detail is_strkey t) ≡ true
  unfolding redact_internal_detail all
  redact_internal_detail-clean t h =
      all-join is_clean (b' ' ∷ []) (map (redact is_strkey) (split_whitespace t)) refl
        (all-map (split_whitespace t) (split_whitespace-printable t h))
    where
      all-map :
          (ws : List Text)
          → all (all is_printable) ws ≡ true
          → all (all is_clean) (map (redact is_strkey) ws) ≡ true
      all-map [] k = refl
      all-map (w ∷ ws) k =
          let (k1, k2) = all-cons (all is_printable) w ws k in
          rw (redact-clean w k1) (all-map ws k2)

-- A sanitized message has at most 256 characters. None of them is a control character, and none
-- is '+', '/' or '=', so the message holds no URL and no padded base64, wherever they stood in
-- the original. The only condition is that valid strkeys are in the alphabet of base32.
pub sanitize_simulation_error-IsClean :
    (is_strkey : Text → Bool)
    → IsStrkeys is_strkey
    → (raw : Text)
    → let message = sanitize_simulation_error is_strkey raw in
      (length message ≤ 256) × (all is_clean message ≡ true)
unfolding sanitize_simulation_error all
sanitize_simulation_error-IsClean is_strkey strkeys raw =
    let cleaned = filter is_printable raw in
    let collapsed = join (b' ' ∷ []) (split_whitespace cleaned) in
    let redacted = redact_internal_detail is_strkey collapsed in
    let printable = split_whitespace-printable cleaned (all-filter_self is_printable raw) in
    let clean =
      redact_internal_detail-clean is_strkey strkeys collapsed
        (all-join is_printable (b' ' ∷ []) (split_whitespace cleaned) refl printable) in
    (
      length-truncated (trim redacted),
      all-truncated (trim redacted) (all-trim is_clean redacted clean),
    )
