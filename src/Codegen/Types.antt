-- ===== src/Codegen/Types.antt =====
-- The types of the generated clients: `Gen::ts`, `py_type` and `rust_type` of
-- crates/lumenqraph-core/src/codegen.rs. The types of a contract's interface are those of the XDR
-- crate; the name of a user-defined type is its characters.
pub mod Reading
pub mod Defined
pub mod Mentioned
pub mod Words
use lumenqraph.Base.{
  ℕ, Bool, true, false, ◌||◌, Option, none, some, List, [], ◌∷◌, ◌++◌, any, ◌==◌, if◌then◌else◌,
}
use lumenqraph.Base.Str.{lit, str_eq, join}
use lumenqraph.Base.Text.{Text}
use lumenqraph.Codegen.{py_type_name, rust_type_name}

-- `ScSpecTypeDef`. A key of a map and the error of a result are not read.
mutual
  pub data SpecType : Type 0 where
    bool void u32 i32 u64 i64 u128 i128 u256 i256 timepoint duration string symbol address bytes
          muxed_address val error :
        SpecType
    bytes_n : ℕ → SpecType
    option_of : SpecType → SpecType
    vec_of : SpecType → SpecType
    tuple_of : SpecTypes → SpecType
    map_to : SpecType → SpecType
    result_of : SpecType → SpecType
    udt : Text → SpecType

  pub data SpecTypes : Type 0 where
    no_types : SpecTypes
    one_type : SpecType → SpecTypes → SpecTypes

pub data Pos : Type 0 where
  arg ret : Pos

-- The names of the user-defined types of an interface, whatever their kind.
abbrev pub UdtNames : Type 0
UdtNames = List Text

unfoldable pub has_udt : UdtNames → Text → Bool
unfolding any str_eq
has_udt udts name = any (str_eq name) udts

-- `BTreeSet::insert`, of which only membership is read.
abbrev pub Used : Type 0
Used = List Text

-- An alias whose name is a user-defined type is written out. The definition is that of the name.
unfoldable pub alias : UdtNames → Text → Text → Used → Used × Text
unfolding has_udt
alias udts name definition used =
    if has_udt udts name then (used, definition) else (name ∷ used, name)

abbrev pub int_definition : Text
int_definition = lit "number | string"

abbrev pub parenthesised : Text → Text
parenthesised inner =
    if any (λ c. c == 124) inner then lit "(" ++ inner ++ lit ")[]" else inner ++ lit "[]"

unfoldable mutual
  unfolding alias has_udt any join

  pub ts : UdtNames → Pos → SpecType → Used → Used × Text
  ts udts pos bool used = (used, lit "boolean")
  ts udts pos void used = (used, lit "null")
  ts udts pos u32 used = (used, lit "number")
  ts udts pos i32 used = (used, lit "number")
  ts udts pos u64 used = alias udts (lit "u64") int_definition used
  ts udts pos i64 used = alias udts (lit "i64") int_definition used
  ts udts pos u128 used = alias udts (lit "u128") int_definition used
  ts udts pos i128 used = alias udts (lit "i128") int_definition used
  ts udts pos u256 used = alias udts (lit "u256") int_definition used
  ts udts pos i256 used = alias udts (lit "i256") int_definition used
  ts udts pos timepoint used = alias udts (lit "Timepoint") int_definition used
  ts udts pos duration used = alias udts (lit "Duration") int_definition used
  ts udts pos string used = (used, lit "string")
  ts udts pos symbol used = (used, lit "string")
  ts udts pos address used = alias udts (lit "Address") (lit "string") used
  ts udts pos bytes used = alias udts (lit "Bytes") (lit "string") used
  ts udts pos (bytes_n n) used = alias udts (lit "Bytes") (lit "string") used
  ts udts pos (option_of t) used =
      let inner : Used × Text = ts udts pos t used in (inner.0, inner.1 ++ lit " | null")
  ts udts pos (vec_of t) used =
      let inner : Used × Text = ts udts pos t used in (inner.0, parenthesised inner.1)
  ts udts pos (tuple_of types) used =
      let inner : Used × List Text = ts_all udts pos types used in
      (inner.0, lit "[" ++ join (lit ", ") inner.1 ++ lit "]")
  ts udts pos (map_to t) used =
      let inner : Used × Text = ts udts pos t used in
      (inner.0, lit "Record<string, " ++ inner.1 ++ lit ">")
  ts udts ret (result_of t) used = ts udts ret t used
  ts udts arg (result_of t) used = (used, lit "never")
  ts udts ret val used = (used, lit "unknown")
  ts udts arg val used = (used, lit "never")
  ts udts ret error used = (used, lit "unknown")
  ts udts arg error used = (used, lit "never")
  ts udts ret muxed_address used = (used, lit "string")
  ts udts arg muxed_address used = (used, lit "never")
  ts udts pos (udt name) used = (used, if has_udt udts name then name else lit "unknown")

  pub ts_all : UdtNames → Pos → SpecTypes → Used → Used × List Text
  ts_all udts pos no_types used = (used, [])
  ts_all udts pos (one_type t types) used =
      let one : Used × Text = ts udts pos t used in
      let rest : Used × List Text = ts_all udts pos types one.0 in (rest.0, one.1 ∷ rest.1)

unfoldable mutual
  unfolding join py_type_name

  pub py_type : SpecType → Text
  py_type bool = lit "bool"
  py_type void = lit "None"
  py_type u32 = lit "int"
  py_type i32 = lit "int"
  py_type u64 = lit "INT"
  py_type i64 = lit "INT"
  py_type u128 = lit "INT"
  py_type i128 = lit "INT"
  py_type u256 = lit "INT"
  py_type i256 = lit "INT"
  py_type timepoint = lit "INT"
  py_type duration = lit "INT"
  py_type string = lit "str"
  py_type symbol = lit "str"
  py_type address = lit "ADDRESS"
  py_type bytes = lit "BYTES"
  py_type (bytes_n n) = lit "BYTES"
  py_type (option_of t) = lit "Optional[" ++ py_type t ++ lit "]"
  py_type (vec_of t) = lit "list[" ++ py_type t ++ lit "]"
  py_type (tuple_of types) = lit "tuple[" ++ join (lit ", ") (py_types types) ++ lit "]"
  py_type (map_to t) = lit "dict[str, " ++ py_type t ++ lit "]"
  py_type (result_of t) = py_type t
  py_type val = lit "Any"
  py_type error = lit "Any"
  py_type muxed_address = lit "Any"
  py_type (udt name) = py_type_name name

  pub py_types : SpecTypes → List Text
  py_types no_types = []
  py_types (one_type t types) = py_type t ∷ py_types types

unfoldable mutual
  unfolding join rust_type_name

  pub rust_type : SpecType → Text
  rust_type bool = lit "bool"
  rust_type void = lit "()"
  rust_type u32 = lit "u32"
  rust_type i32 = lit "i32"
  rust_type u64 = lit "u64"
  rust_type timepoint = lit "u64"
  rust_type i64 = lit "i64"
  rust_type duration = lit "i64"
  rust_type u128 = lit "String"
  rust_type u256 = lit "String"
  rust_type i128 = lit "String"
  rust_type i256 = lit "String"
  rust_type string = lit "String"
  rust_type symbol = lit "String"
  rust_type address = lit "String"
  rust_type bytes = lit "String"
  rust_type (bytes_n n) = lit "String"
  rust_type (option_of t) = lit "Option<" ++ rust_type t ++ lit ">"
  rust_type (vec_of t) = lit "Vec<" ++ rust_type t ++ lit ">"
  rust_type (tuple_of types) = lit "(" ++ join (lit ", ") (rust_types types) ++ lit ")"
  rust_type (map_to t) = lit "std::collections::HashMap<String, " ++ rust_type t ++ lit ">"
  rust_type (result_of t) = rust_type t
  rust_type val = lit "serde_json::Value"
  rust_type error = lit "serde_json::Value"
  rust_type muxed_address = lit "serde_json::Value"
  rust_type (udt name) = rust_type_name name

  pub rust_types : SpecTypes → List Text
  rust_types no_types = []
  rust_types (one_type t types) = rust_type t ∷ rust_types types

abbrev pub py_return_type : Option SpecType → Text
py_return_type none = lit "None"
py_return_type (some t) = py_type t

abbrev pub rust_return_type : Option SpecType → Text
rust_return_type none = lit "()"
rust_return_type (some t) = rust_type t
