-- ===== src/Codegen/Types/Defined.antt =====
-- The names that a generated TypeScript type mentions, and the prelude that defines the aliases.
use lumenqraph.Base.{
  ◌≡◌, ◌⊎◌, refl, sym, ap, ◌∙◌, Bool, true, false, List, [], ◌∷◌, ◌++◌, any, In, here, there,
  In-cons_cases, arith, if◌then◌else◌, Bool-cases, inl, inr,
}
use lumenqraph.Base.Str.{lit, str_eq, str_eq_refl}
use lumenqraph.Base.Text.{Text, filter}
use lumenqraph.Codegen.Docs.{ts_doc}
use lumenqraph.Codegen.Types.{UdtNames, has_udt, Used, alias, int_definition}
use lumenqraph.Codegen.Types.Reading.{
  TsType, TsTypes, named, either, array, record_of, tuple, no_parts, part, int_or_text,
  alias_meaning,
}

-- A row of `ALIASES`: name, definition, doc.
pub record Alias : Type 0 where
  pub name : Text
  pub definition : Text
  pub doc : Text

abbrev int_doc : Text
int_doc = lit "Pass a decimal string (safe at any size) or a number; returned as a decimal string."

abbrev int_alias : Text → Alias
int_alias n = record { name = n; definition = int_definition; doc = int_doc }

abbrev pub aliases : List Alias
aliases =
    record {
      name = lit "Address";
      definition = lit "string";
      doc = lit "A Stellar strkey address (`G…` account or `C…` contract).";
    }
    ∷ record {
      name = lit "Bytes";
      definition = lit "string";
      doc = lit "Hex-encoded bytes (`0x` prefix optional on input; results are `0x`-prefixed).";
    }
    ∷ int_alias (lit "u64")
    ∷ int_alias (lit "i64")
    ∷ int_alias (lit "u128")
    ∷ int_alias (lit "i128")
    ∷ int_alias (lit "u256")
    ∷ int_alias (lit "i256")
    ∷ record {
      name = lit "Timepoint";
      definition = int_definition;
      doc = lit "Seconds since the Unix epoch; returned as a decimal string.";
    }
    ∷ record {
      name = lit "Duration";
      definition = int_definition;
      doc = lit "A span of seconds; returned as a decimal string.";
    }
    ∷ []

-- The aliases that the prelude defines.
unfoldable pub emitted : Used → List Alias
unfolding filter any str_eq
emitted used = filter (λ a. any (str_eq a.name) used) aliases

unfoldable pub render_aliases : List Alias → Text
unfolding ts_doc
render_aliases [] = []
render_aliases (a ∷ rest) =
    lit "\n/** "
    ++ ts_doc a.doc
    ++ lit " */\nexport type "
    ++ a.name
    ++ lit " = "
    ++ a.definition
    ++ lit ";\n"
    ++ render_aliases rest

unfoldable pub render_prelude : Used → Text
unfolding render_aliases emitted
render_prelude used = render_aliases (emitted used)

abbrev pub built_in : List Text
built_in =
    lit "boolean" ∷ lit "null" ∷ lit "number" ∷ lit "string" ∷ lit "never" ∷ lit "unknown" ∷ []

-- Every name in a type is built in, or a user-defined type, or an alias of the prelude.
mutual
  pub data IsDefined (udts : UdtNames) (used : Used) : TsType → Type 0 where
    of_language : {n : Text} → In n built_in → IsDefined udts used (named n)
    of_interface : {n : Text} → has_udt udts n ≡ true → IsDefined udts used (named n)
    of_prelude : (a : Alias) → In a (emitted used) → IsDefined udts used (named a.name)
    both :
        {s t : TsType}
        → IsDefined udts used s
        → IsDefined udts used t
        → IsDefined udts used (either s t)
    in_array : {t : TsType} → IsDefined udts used t → IsDefined udts used (array t)
    in_record : {t : TsType} → IsDefined udts used t → IsDefined udts used (record_of t)
    in_tuple : {bs : TsTypes} → AllDefined udts used bs → IsDefined udts used (tuple bs)

  pub data AllDefined (udts : UdtNames) (used : Used) : TsTypes → Type 0 where
    no_more : AllDefined udts used no_parts
    more :
        {t : TsType} {bs : TsTypes}
        → IsDefined udts used t
        → AllDefined udts used bs
        → AllDefined udts used (part t bs)

pub defined_parts :
    {udts : UdtNames} {used : Used} {t : TsType} {bs : TsTypes}
    → AllDefined udts used (part t bs)
    → IsDefined udts used t × AllDefined udts used bs
defined_parts (more d ds) = (d, ds)

any_of_In : (n : Text) (used : Used) → In n used → any (str_eq n) used ≡ true
unfolding any
any_of_In n [] i = elim i [ ]
any_of_In n (m ∷ used) i = elim (In-cons_cases i) [
  | inl same ↦ let e : str_eq n m ≡ true = ap (str_eq n) (sym same) ∙ str_eq_refl n in rw e refl
  | inr later ↦ ground (arith, any_of_In n used later)
]

In_filter :
    (p : Alias → Bool) (a : Alias) (xs : List Alias) → In a xs → p a ≡ true → In a (filter p xs)
unfolding filter
In_filter p a [] i h = elim i [ ]
In_filter p a (x ∷ xs) i h = elim (In-cons_cases i) [
  | inl same ↦ let e : p x ≡ true = ap p (sym same) ∙ h in rw (e, same) here
  | inr later ↦ elim (Bool-cases (p x)) [
    | inl kept ↦ rw kept (there (In_filter p a xs later h))
    | inr left ↦ rw left (In_filter p a xs later h)
  ]
]

filter_grows :
    (p q : Alias → Bool) (a : Alias) (xs : List Alias)
    → ((x : Alias) → p x ≡ true → q x ≡ true)
    → In a (filter p xs)
    → In a (filter q xs)
unfolding filter
filter_grows p q a [] h i = i
filter_grows p q a (x ∷ xs) h i = elim (Bool-cases (p x)) [
  | inl kept ↦ elim (In-cons_cases (rw kept at i)) [
    | inl same ↦ rw (h x kept, same) here
    | inr later ↦ rw (h x kept) (there (filter_grows p q a xs h later))
  ]
  | inr left ↦ further (Bool-cases (q x)) (filter_grows p q a xs h (rw left at i))
]
  where
    further :
        (q x ≡ true) ⊎ (q x ≡ false)
        → In a (filter q xs)
        → In a (if q x then x ∷ filter q xs else filter q xs)
    further (inl e) j = rw e (there j)
    further (inr e) j = rw e j

-- The second set has the names of the first.
abbrev pub Grows : Used → Used → Type 0
Grows used more_used = (n : Text) → any (str_eq n) used ≡ true → any (str_eq n) more_used ≡ true

emitted_grows :
    (used more_used : Used) (a : Alias)
    → Grows used more_used
    → In a (emitted used)
    → In a (emitted more_used)
unfolding emitted
emitted_grows used more_used a g i =
    filter_grows (λ b. any (str_eq b.name) used) (λ b. any (str_eq b.name) more_used) a aliases
      (λ b h. g b.name h) i

mutual
  pub defined_grows :
      {udts : UdtNames} {used more_used : Used} {t : TsType}
      → Grows used more_used
      → IsDefined udts used t
      → IsDefined udts more_used t
  defined_grows g (of_language i) = of_language i
  defined_grows g (of_interface h) = of_interface h
  defined_grows {used = used} {more_used = more_used} g (of_prelude a i) =
      of_prelude a (emitted_grows used more_used a g i)
  defined_grows g (both d e) = both (defined_grows g d) (defined_grows g e)
  defined_grows g (in_array d) = in_array (defined_grows g d)
  defined_grows g (in_record d) = in_record (defined_grows g d)
  defined_grows g (in_tuple d) = in_tuple (all_grow g d)

  all_grow :
      {udts : UdtNames} {used more_used : Used} {bs : TsTypes}
      → Grows used more_used
      → AllDefined udts used bs
      → AllDefined udts more_used bs
  all_grow g no_more = no_more
  all_grow g (more d ds) = more (defined_grows g d) (all_grow g ds)

pub alias-Grows :
    (udts : UdtNames) (n definition : Text) (used : Used)
    → Grows used (alias udts n definition used).0
unfolding alias any
alias-Grows udts n definition used m h = elim (Bool-cases (has_udt udts n)) [
  | inl same ↦ rw (alias, same) h
  | inr other ↦ rw (alias, other) (ground (arith, h))
]

pub alias-IsDefined :
    (udts : UdtNames) (a : Alias) (t : TsType) (used : Used)
    → In a aliases
    → IsDefined udts used t
    → IsDefined udts (alias udts a.name a.definition used).0 (alias_meaning udts a.name t)
unfolding alias alias_meaning emitted any
alias-IsDefined udts a t used i d = elim (Bool-cases (has_udt udts a.name)) [
  | inl same ↦ rw (alias, alias_meaning, same) d
  | inr other ↦
      rw (alias, alias_meaning, other)
        (of_prelude a (
          In_filter (λ b. any (str_eq b.name) (a.name ∷ used)) a aliases i
            (any_of_In a.name (a.name ∷ used) here)))
]

pub int_or_text-IsDefined : (udts : UdtNames) (used : Used) → IsDefined udts used int_or_text
unfolding int_or_text
int_or_text-IsDefined udts used =
    both (of_language (there (there here))) (of_language (there (there (there here))))

pub text-IsDefined : (udts : UdtNames) (used : Used) → IsDefined udts used (named (lit "string"))
text-IsDefined udts used = of_language (there (there (there here)))
