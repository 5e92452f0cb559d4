-- ===== src/Codegen/Types/Words.antt =====
-- The words of a generated TypeScript type: the maximal runs of the characters of identifiers.
use mathlib.Core.Path.{subst}
use mathlib.Core.List.{append_assoc}
use lumenqraph.Base.{
  ℕ, ◌≡◌, refl, sym, ap, ◌∙◌, Bool, true, false, not, ◌||◌, List, [], ◌∷◌, ◌++◌, In, In-cons_cases,
  any, all, is_nil, ◌==◌, if◌then◌else◌, arith, Bool-cases, inl, inr,
}
use lumenqraph.Base.Decimal.{all-append}
use lumenqraph.Base.Str.{lit, join, str_eq, str_eq_refl}
use lumenqraph.Base.Text.{Text, split, on_head}
use lumenqraph.Codegen.{is_ts_ident, is_ascii_alphanumeric, is_ascii_letter}
use lumenqraph.Codegen.Types.{SpecType, Pos, UdtNames, has_udt, Used, ts}
use lumenqraph.Codegen.Types.Reading.{
  TsType, TsTypes, named, ReadsClosely, name, elements, grouped, values, parts, Reads, closely,
  or_else, ReadsAll, no_more, more, ts-Reads,
}
use lumenqraph.Codegen.Types.Defined.{
  emitted, built_in, IsDefined, AllDefined, of_language, of_interface, of_prelude, both, in_array,
  in_record, in_tuple, defined_parts,
}
use lumenqraph.Codegen.Types.Mentioned.{rendered, ts-IsDefined}

abbrev pub is_word_end : ℕ → Bool
unfolding is_ascii_alphanumeric is_ascii_letter
is_word_end c = not (is_ascii_alphanumeric c || c == 95 || c == 36)

-- A word that the generated client may use: built in, a user-defined type of the interface, or an
-- alias of the prelude. Between two separators stands the empty word.
unfoldable pub is_known : UdtNames → Used → Text → Bool
unfolding any str_eq has_udt emitted
is_known udts used w =
    is_nil w
    || any (str_eq w) (lit "Record" ∷ built_in)
    || has_udt udts w
    || any (λ a. str_eq w a.name) (emitted used)

-- Every word of a text is known.
abbrev pub AllKnown : UdtNames → Used → Text → Type 0
AllKnown udts used t = all (is_known udts used) (split is_word_end t) ≡ true

module _ (q : ℕ → Bool) where
  split_some : (t : Text) → is_nil (split q t) ≡ false
  unfolding split
  split_some [] = refl
  split_some (c ∷ cs) = go (split q cs)
    where
      go : (ws : List Text) → is_nil (if q c then [] ∷ ws else on_head c ws) ≡ false
      go [] = ground arith
      go (w ∷ ws) = ground arith

  on_head-append :
      (c : ℕ) (ws vs : List Text) → is_nil ws ≡ false → on_head c (ws ++ vs) ≡ on_head c ws ++ vs
  on_head-append c [] vs h = cc h
  on_head-append c (w ∷ ws) vs h = refl

  -- A separator ends the words before it.
  split-append :
      (t : Text) (c : ℕ) (u : Text) → q c ≡ true → split q (t ++ c ∷ u) ≡ split q t ++ split q u
  unfolding split
  split-append [] c u h = rw h refl
  split-append (d ∷ t) c u h = elim (Bool-cases (q d)) [
    | inl e ↦ rw (e, split-append t c u h) refl
    | inr e ↦ rw (e, split-append t c u h) (on_head-append d (split q t) (split q u) (split_some t))
  ]

  split_whole : (t : Text) → all (λ c. not (q c)) t ≡ true → split q t ≡ t ∷ []
  unfolding split all
  split_whole [] h = refl
  split_whole (c ∷ cs) h =
      let e : q c ≡ false = ground (arith, h) in rw (e, split_whole cs (ground (arith, h))) refl

is_ts_ident-all : (n : Text) → is_ts_ident n ≡ true → all (λ c. not (is_word_end c)) n ≡ true
unfolding is_ts_ident all is_ascii_alphanumeric is_ascii_letter
is_ts_ident-all [] h = refl
is_ts_ident-all (c ∷ cs) h = ground (arith, h, tail cs (ground (arith, h)))
  where
    tail :
        (cs : Text)
        → all (λ d. is_ascii_alphanumeric d || d == 95 || d == 36) cs ≡ true
        → all (λ d. not (is_word_end d)) cs ≡ true
    tail [] h = refl
    tail (d ∷ ds) h = ground (arith, h, tail ds (ground (arith, h)))

any-In : {A : Type 0} (p : A → Bool) (x : A) (xs : List A) → In x xs → p x ≡ true → any p xs ≡ true
unfolding any
any-In p x [] i h = elim i [ ]
any-In p x (y ∷ ys) i h = elim (In-cons_cases i) [
  | inl same ↦ let e : p y ≡ true = ap p (sym same) ∙ h in rw e refl
  | inr later ↦ ground (arith, any-In p x ys later h)
]

module _ (udts : UdtNames) (used : Used) where
  known_name : (n : Text) → IsDefined udts used (named n) → is_known udts used n ≡ true
  unfolding is_known any
  known_name n (of_language i) = ground (arith, any-In (str_eq n) n built_in i (str_eq_refl n))
  known_name n (of_interface h) = ground (arith, h)
  known_name n (of_prelude a i) =
      ground (arith, any-In (λ b. str_eq a.name b.name) a (emitted used) i (str_eq_refl a.name))

  name-AllKnown :
      (n : Text) → is_ts_ident n ≡ true → IsDefined udts used (named n) → AllKnown udts used n
  unfolding all
  name-AllKnown n h d =
      rw (split_whole is_word_end n (is_ts_ident-all n h)) (ground (arith, known_name n d))

  -- Two texts with a separator between them.
  apart :
      (t : Text) (c : ℕ) (u : Text)
      → is_word_end c ≡ true
      → AllKnown udts used t
      → AllKnown udts used u
      → AllKnown udts used (t ++ c ∷ u)
  apart t c u h k l =
      ap (all (is_known udts used)) (split-append is_word_end t c u h)
      ∙ all-append (is_known udts used) (split is_word_end t) (split is_word_end u)
      ∙ ground (arith, k, l)

  empty-AllKnown : AllKnown udts used []
  unfolding split all is_known
  empty-AllKnown = refl

  record-AllKnown : AllKnown udts used (lit "Record")
  unfolding split all is_known any str_eq is_ascii_alphanumeric is_ascii_letter
  record-AllKnown = refl

  string-AllKnown : AllKnown udts used (lit "string")
  unfolding split all is_known any str_eq is_ascii_alphanumeric is_ascii_letter
  string-AllKnown = refl

  between :
      (c d : ℕ) (t : Text)
      → is_word_end c ≡ true
      → is_word_end d ≡ true
      → AllKnown udts used t
      → AllKnown udts used (c ∷ (t ++ d ∷ []))
  between c d t h k l = apart [] c (t ++ d ∷ []) h empty-AllKnown (apart t d [] k l empty-AllKnown)

  data EachKnown : List Text → Type 0 where
    none_left : EachKnown []
    one_more :
        {t : Text} {ts : List Text} → AllKnown udts used t → EachKnown ts → EachKnown (t ∷ ts)

  join-AllKnown : (ts : List Text) → EachKnown ts → AllKnown udts used (join (lit ", ") ts)
  unfolding join is_ascii_alphanumeric is_ascii_letter is_word_end
  join-AllKnown [] ks = empty-AllKnown
  join-AllKnown (t ∷ []) (one_more k ks) = k
  join-AllKnown (t ∷ u ∷ us) (one_more k ks) =
      subst (AllKnown udts used) (sym (append_assoc t (lit ", ") (join (lit ", ") (u ∷ us)))) (
        apart t 44 (lit " " ++ join (lit ", ") (u ∷ us)) refl k
          (apart [] 32 (join (lit ", ") (u ∷ us)) refl empty-AllKnown (join-AllKnown _ ks)))

  mutual
    unfolding is_ascii_alphanumeric is_ascii_letter is_word_end

    close-AllKnown :
        {t : Text} {a : TsType} → ReadsClosely t a → IsDefined udts used a → AllKnown udts used t
    close-AllKnown (name n h) d = name-AllKnown n h d
    close-AllKnown (elements {t} r) (in_array d) =
        apart t 91 (lit "]") refl (close-AllKnown r d)
          (apart [] 93 [] refl empty-AllKnown empty-AllKnown)
    close-AllKnown (grouped {t} r) d = between 40 41 t refl refl (reads-AllKnown r d)
    close-AllKnown (values {t} r) (in_record d) =
        apart (lit "Record") 60 (lit "string, " ++ (t ++ lit ">")) refl record-AllKnown (
          apart (lit "string") 44 (lit " " ++ (t ++ lit ">")) refl string-AllKnown
            (between 32 62 t refl refl (reads-AllKnown r d)))
    close-AllKnown (parts {ts} r) (in_tuple d) =
        between 91 93 (join (lit ", ") ts) refl refl (join-AllKnown ts (all-AllKnown r d))

    reads-AllKnown :
        {t : Text} {a : TsType} → Reads t a → IsDefined udts used a → AllKnown udts used t
    reads-AllKnown (closely r) d = close-AllKnown r d
    reads-AllKnown (or_else {t} {u} r s) (both d e) =
        apart t 32 (lit "| " ++ u) refl (reads-AllKnown r d) (
          apart [] 124 (lit " " ++ u) refl empty-AllKnown
            (apart [] 32 u refl empty-AllKnown (close-AllKnown s e)))

    all-AllKnown :
        {ts : List Text} {bs : TsTypes} → ReadsAll ts bs → AllDefined udts used bs → EachKnown ts
    all-AllKnown no_more ds = none_left
    all-AllKnown (more r rs) ds =
        one_more (reads-AllKnown r (defined_parts ds).0) (all-AllKnown rs (defined_parts ds).1)

-- For an interface whose user-defined types have names that are identifiers, every word of the
-- TypeScript text of a type is built in, a user-defined type of the interface, or an alias that the
-- prelude defines, whatever was rendered before and after it.
pub ts-AllKnown :
    (udts : UdtNames) (pos : Pos) (t : SpecType) (later : List (Pos × SpecType)) (used : Used)
    → all is_ts_ident udts ≡ true
    → AllKnown udts (rendered udts later (ts udts pos t used).0) (ts udts pos t used).1
ts-AllKnown udts pos t later used safe =
    reads-AllKnown udts (rendered udts later (ts udts pos t used).0) (ts-Reads udts pos t used safe)
      (ts-IsDefined udts pos t later used)
