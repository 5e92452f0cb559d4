-- ===== src/Codegen/Examples.antt =====
-- Names, comments and types of generated clients, and the theorems at them.
use lumenqraph.Base.{◌≡◌, ◌⊎◌, refl, true, [], ◌∷◌, ◌++◌, all}
use lumenqraph.Base.Str.{lit}
use lumenqraph.Codegen.{
  is_ts_ident, is_valid_ident, rust_type_name, is_py_keyword, is_rust_keyword, py_ident, rust_ident,
}
use lumenqraph.Codegen.Names.{IsName, idents-IsName}
use lumenqraph.Codegen.Types.{
  SpecType, u64, option_of, vec_of, map_to, udt, ret, UdtNames, ts, py_type,
}
use lumenqraph.Codegen.Types.Reading.{Reads, meaning, ts-Reads}
use lumenqraph.Codegen.Types.Mentioned.{rendered}
use lumenqraph.Codegen.Types.Words.{AllKnown, ts-AllKnown}

-- A list of optional numbers, beside a type of the interface.
abbrev list_type : SpecType
list_type = vec_of (option_of u64)

abbrev one_udt : UdtNames
one_udt = lit "Position" ∷ []

list_type_text : (ts one_udt ret list_type []).1 ≡ lit "(u64 | null)[]"
unfolding ts
list_type_text = refl

list_type_python : py_type (map_to list_type) ≡ lit "dict[str, list[Optional[INT]]]"
unfolding py_type
list_type_python = refl

hostile_name : rust_type_name (lit "a b;") ≡ lit "Type_a_b_"
unfolding rust_type_name
hostile_name = refl

-- `self` is a keyword that has no raw form, and a reference to a type has its name as it is.
raw_self : rust_ident (lit "self") (lit "arg") 0 ≡ lit "r#self"
unfolding rust_ident
raw_self = refl

raw_reference : (ts (lit "a b;" ∷ []) ret (udt (lit "a b;")) []).1 ≡ lit "a b;"
unfolding ts
raw_reference = refl

ts-Reads_example : Reads (ts one_udt ret list_type []).1 (meaning one_udt ret list_type)
unfolding all is_ts_ident
ts-Reads_example = ts-Reads one_udt ret list_type [] refl

one_udt_safe : all is_ts_ident one_udt ≡ true
unfolding all is_ts_ident
one_udt_safe = refl

ts-AllKnown_example :
    AllKnown one_udt
      (rendered one_udt ((ret, udt (lit "Position")) ∷ []) (ts one_udt ret list_type []).0)
      (ts one_udt ret list_type []).1
ts-AllKnown_example =
    ts-AllKnown one_udt ret list_type ((ret, udt (lit "Position")) ∷ []) [] one_udt_safe

idents-IsName_example :
    IsName is_py_keyword (py_ident (lit "class") (lit "field") 3)
    × (IsName is_rust_keyword (rust_ident (lit "class") (lit "field") 3)
        ⊎ ((is_rust_keyword (lit "class") ≡ true)
            × (rust_ident (lit "class") (lit "field") 3 ≡ lit "r#" ++ lit "class")))
unfolding is_valid_ident
idents-IsName_example = idents-IsName (lit "class") (lit "field") 3 refl
