-- ===== src/Codegen/Types/Reading.antt =====
-- How TypeScript reads the types that `Gen::ts` writes. Postfix `[]` binds closer than `|`.
use lumenqraph.Base.{
  ℕ, ◌≡◌, refl, ap, Bool, true, false, ◌||◌, List, [], ◌∷◌, ◌++◌, any, all, arith, ◌==◌,
  if◌then◌else◌, Bool-cases, inl, inr,
}
use mathlib.Core.Path.{subst}
use mathlib.Core.List.{append_assoc}
use lumenqraph.Base.Str.{lit, join, str_eq, eq_of_str_eq}
use lumenqraph.Base.Text.{Text}
use lumenqraph.Codegen.{is_ts_ident, is_ascii_alphanumeric, is_ascii_letter}
use lumenqraph.Codegen.Types.{
  SpecType, SpecTypes, bool, void, u32, i32, u64, i64, u128, i128, u256, i256, timepoint, duration,
  string, symbol, address, bytes, muxed_address, val, error, bytes_n, option_of, vec_of, tuple_of,
  map_to, result_of, udt, no_types, one_type, Pos, arg, ret, UdtNames, has_udt, Used, alias,
  int_definition, parenthesised, ts, ts_all,
}

-- A type of TypeScript, as far as the generator uses them.
mutual
  pub data TsType : Type 0 where
    named : Text → TsType
    either : TsType → TsType → TsType
    array : TsType → TsType
    record_of : TsType → TsType
    tuple : TsTypes → TsType

  pub data TsTypes : Type 0 where
    no_parts : TsTypes
    part : TsType → TsTypes → TsTypes

-- The grammar: what a text reads as, where a union needs no parentheses and where it does.
mutual
  pub data ReadsClosely : Text → TsType → Type 0 where
    name : (n : Text) → is_ts_ident n ≡ true → ReadsClosely n (named n)
    elements : {t : Text} {a : TsType} → ReadsClosely t a → ReadsClosely (t ++ lit "[]") (array a)
    grouped : {t : Text} {a : TsType} → Reads t a → ReadsClosely (lit "(" ++ (t ++ lit ")")) a
    values :
        {t : Text} {a : TsType}
        → Reads t a
        → ReadsClosely (lit "Record<string, " ++ (t ++ lit ">")) (record_of a)
    parts :
        {ts : List Text} {bs : TsTypes}
        → ReadsAll ts bs
        → ReadsClosely (lit "[" ++ (join (lit ", ") ts ++ lit "]")) (tuple bs)

  pub data Reads : Text → TsType → Type 0 where
    closely : {t : Text} {a : TsType} → ReadsClosely t a → Reads t a
    or_else :
        {t u : Text} {a b : TsType}
        → Reads t a
        → ReadsClosely u b
        → Reads (t ++ (lit " | " ++ u)) (either a b)

  pub data ReadsAll : List Text → TsTypes → Type 0 where
    no_more : ReadsAll [] no_parts
    more :
        {t : Text} {ts : List Text} {a : TsType} {bs : TsTypes}
        → Reads t a
        → ReadsAll ts bs
        → ReadsAll (t ∷ ts) (part a bs)

-- The type that a type of the interface has for a caller: a value that JSON may hold.
unfoldable pub int_or_text : TsType
int_or_text = either (named (lit "number")) (named (lit "string"))

unfoldable pub alias_meaning : UdtNames → Text → TsType → TsType
alias_meaning udts n t = if has_udt udts n then t else named n

unfoldable mutual
  unfolding int_or_text alias_meaning has_udt

  pub meaning : UdtNames → Pos → SpecType → TsType
  meaning udts pos bool = named (lit "boolean")
  meaning udts pos void = named (lit "null")
  meaning udts pos u32 = named (lit "number")
  meaning udts pos i32 = named (lit "number")
  meaning udts pos u64 = alias_meaning udts (lit "u64") int_or_text
  meaning udts pos i64 = alias_meaning udts (lit "i64") int_or_text
  meaning udts pos u128 = alias_meaning udts (lit "u128") int_or_text
  meaning udts pos i128 = alias_meaning udts (lit "i128") int_or_text
  meaning udts pos u256 = alias_meaning udts (lit "u256") int_or_text
  meaning udts pos i256 = alias_meaning udts (lit "i256") int_or_text
  meaning udts pos timepoint = alias_meaning udts (lit "Timepoint") int_or_text
  meaning udts pos duration = alias_meaning udts (lit "Duration") int_or_text
  meaning udts pos string = named (lit "string")
  meaning udts pos symbol = named (lit "string")
  meaning udts pos address = alias_meaning udts (lit "Address") (named (lit "string"))
  meaning udts pos bytes = alias_meaning udts (lit "Bytes") (named (lit "string"))
  meaning udts pos (bytes_n n) = alias_meaning udts (lit "Bytes") (named (lit "string"))
  meaning udts pos (option_of t) = either (meaning udts pos t) (named (lit "null"))
  meaning udts pos (vec_of t) = array (meaning udts pos t)
  meaning udts pos (tuple_of types) = tuple (meanings udts pos types)
  meaning udts pos (map_to t) = record_of (meaning udts pos t)
  meaning udts ret (result_of t) = meaning udts ret t
  meaning udts arg (result_of t) = named (lit "never")
  meaning udts ret val = named (lit "unknown")
  meaning udts arg val = named (lit "never")
  meaning udts ret error = named (lit "unknown")
  meaning udts arg error = named (lit "never")
  meaning udts ret muxed_address = named (lit "string")
  meaning udts arg muxed_address = named (lit "never")
  meaning udts pos (udt n) = named (if has_udt udts n then n else lit "unknown")

  pub meanings : UdtNames → Pos → SpecTypes → TsTypes
  meanings udts pos no_types = no_parts
  meanings udts pos (one_type t types) = part (meaning udts pos t) (meanings udts pos types)

any-append : (p : ℕ → Bool) (t u : Text) → any p (t ++ u) ≡ (any p t || any p u)
unfolding any
any-append p [] u = refl
any-append p (c ∷ cs) u = ground (arith, any-append p cs u)

-- Without `|`, a text reads closely.
closely_of : {t : Text} {a : TsType} → Reads t a → any (λ c. c == 124) t ≡ false → ReadsClosely t a
unfolding any
closely_of (closely r) h = r
closely_of (or_else {t} {u} r s) h =
    let e = any-append (λ c. c == 124) t (lit " | " ++ u) in absurd_of (ground (arith, e, h))
  where
    absurd_of : {x : Text} {b : TsType} → false ≡ true → ReadsClosely x b
    absurd_of e = cc

known : (n : Text) → is_ts_ident n ≡ true → Reads n (named n)
known n h = closely (name n h)

int_or_text-Reads : Reads int_definition int_or_text
unfolding int_or_text is_ts_ident all is_ascii_alphanumeric is_ascii_letter
int_or_text-Reads = or_else (known (lit "number") refl) (name (lit "string") refl)

alias-Reads :
    (udts : UdtNames) (n definition : Text) (t : TsType) (used : Used)
    → is_ts_ident n ≡ true
    → Reads definition t
    → Reads (alias udts n definition used).1 (alias_meaning udts n t)
unfolding alias alias_meaning
alias-Reads udts n definition t used h r = elim (Bool-cases (has_udt udts n)) [
  | inl same ↦ rw (alias, alias_meaning, same) r
  | inr other ↦ rw (alias, alias_meaning, other) (known n h)
]

parenthesised-Reads : {a : TsType} (t : Text) → Reads t a → ReadsClosely (parenthesised t) (array a)
parenthesised-Reads {a} t r = elim (Bool-cases (any (λ c. c == 124) t)) [
  | inl bar ↦ rw bar (
      subst (λ u. ReadsClosely (40 ∷ u) (array a)) (append_assoc t (lit ")") (lit "[]"))
        (elements (grouped r)))
  | inr plain ↦ rw plain (elements (closely_of r plain))
]

has_udt-is_ts_ident :
    (udts : UdtNames) (n : Text)
    → all is_ts_ident udts ≡ true
    → has_udt udts n ≡ true
    → is_ts_ident n ≡ true
unfolding has_udt any all
has_udt-is_ts_ident [] n h u = cc
has_udt-is_ts_ident (m ∷ udts) n h u = elim (Bool-cases (str_eq n m)) [
  | inl same ↦
      let e : is_ts_ident n ≡ is_ts_ident m = ap is_ts_ident (eq_of_str_eq n m same) in
      ground (arith, e, h)
  | inr other ↦ has_udt-is_ts_ident udts n (ground (arith, h)) (ground (arith, u, other))
]

module _ (udts : UdtNames) (safe : all is_ts_ident udts ≡ true) where
  udt-Reads :
      (n : Text)
      → Reads
          (if has_udt udts n then n else lit "unknown")
          (named (if has_udt udts n then n else lit "unknown"))
  unfolding is_ts_ident all is_ascii_alphanumeric is_ascii_letter
  udt-Reads n = elim (Bool-cases (has_udt udts n)) [
    | inl defined ↦ rw defined (known n (has_udt-is_ts_ident udts n safe defined))
    | inr other ↦ rw other (known (lit "unknown") refl)
  ]

  mutual
    unfolding ts meaning is_ts_ident all is_ascii_alphanumeric is_ascii_letter

    type_reads :
        (pos : Pos) (t : SpecType) (used : Used) → Reads (ts udts pos t used).1 (meaning udts pos t)
    type_reads pos bool used = known (lit "boolean") refl
    type_reads pos void used = known (lit "null") refl
    type_reads pos u32 used = known (lit "number") refl
    type_reads pos i32 used = known (lit "number") refl
    type_reads pos u64 used =
        alias-Reads udts (lit "u64") int_definition int_or_text used refl int_or_text-Reads
    type_reads pos i64 used =
        alias-Reads udts (lit "i64") int_definition int_or_text used refl int_or_text-Reads
    type_reads pos u128 used =
        alias-Reads udts (lit "u128") int_definition int_or_text used refl int_or_text-Reads
    type_reads pos i128 used =
        alias-Reads udts (lit "i128") int_definition int_or_text used refl int_or_text-Reads
    type_reads pos u256 used =
        alias-Reads udts (lit "u256") int_definition int_or_text used refl int_or_text-Reads
    type_reads pos i256 used =
        alias-Reads udts (lit "i256") int_definition int_or_text used refl int_or_text-Reads
    type_reads pos timepoint used =
        alias-Reads udts (lit "Timepoint") int_definition int_or_text used refl int_or_text-Reads
    type_reads pos duration used =
        alias-Reads udts (lit "Duration") int_definition int_or_text used refl int_or_text-Reads
    type_reads pos string used = known (lit "string") refl
    type_reads pos symbol used = known (lit "string") refl
    type_reads pos address used =
        alias-Reads udts (lit "Address") (lit "string") (named (lit "string")) used refl
          (known (lit "string") refl)
    type_reads pos bytes used =
        alias-Reads udts (lit "Bytes") (lit "string") (named (lit "string")) used refl
          (known (lit "string") refl)
    type_reads pos (bytes_n n) used =
        alias-Reads udts (lit "Bytes") (lit "string") (named (lit "string")) used refl
          (known (lit "string") refl)
    type_reads pos (option_of t) used = or_else (type_reads pos t used) (name (lit "null") refl)
    type_reads pos (vec_of t) used =
        closely (parenthesised-Reads (ts udts pos t used).1 (type_reads pos t used))
    type_reads pos (tuple_of types) used = closely (parts (types_read pos types used))
    type_reads pos (map_to t) used = closely (values (type_reads pos t used))
    type_reads ret (result_of t) used = type_reads ret t used
    type_reads arg (result_of t) used = known (lit "never") refl
    type_reads ret val used = known (lit "unknown") refl
    type_reads arg val used = known (lit "never") refl
    type_reads ret error used = known (lit "unknown") refl
    type_reads arg error used = known (lit "never") refl
    type_reads ret muxed_address used = known (lit "string") refl
    type_reads arg muxed_address used = known (lit "never") refl
    type_reads pos (udt n) used = udt-Reads n

    types_read :
        (pos : Pos) (types : SpecTypes) (used : Used)
        → ReadsAll (ts_all udts pos types used).1 (meanings udts pos types)
    types_read pos no_types used = no_more
    types_read pos (one_type t types) used =
        more (type_reads pos t used) (types_read pos types (ts udts pos t used).0)

-- For an interface whose user-defined types have names that are identifiers, the text that the
-- generator writes for a type reads, by the grammar of TypeScript, as the type that is meant: an
-- array of a union has its parentheses, and a name that is not defined is `unknown`.
pub ts-Reads :
    (udts : UdtNames) (pos : Pos) (t : SpecType) (used : Used)
    → all is_ts_ident udts ≡ true
    → Reads (ts udts pos t used).1 (meaning udts pos t)
ts-Reads udts pos t used safe = type_reads udts safe pos t used
