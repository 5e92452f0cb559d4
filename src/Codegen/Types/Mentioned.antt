-- ===== src/Codegen/Types/Mentioned.antt =====
-- The names that the types of an interface mention in the TypeScript client are defined there.
use lumenqraph.Base.{List, [], ◌∷◌, here, there, Bool-cases, inl, inr, if◌then◌else◌}
use lumenqraph.Base.Str.{lit}
use lumenqraph.Base.Text.{Text}
use lumenqraph.Codegen.Types.{
  SpecType, SpecTypes, bool, void, u32, i32, u64, i64, u128, i128, u256, i256, timepoint, duration,
  string, symbol, address, bytes, muxed_address, val, error, bytes_n, option_of, vec_of, tuple_of,
  map_to, result_of, udt, no_types, one_type, Pos, arg, ret, UdtNames, has_udt, Used,
  int_definition, ts, ts_all,
}
use lumenqraph.Codegen.Types.Reading.{named, int_or_text, meaning, meanings}
use lumenqraph.Codegen.Types.Defined.{
  IsDefined, AllDefined, of_language, of_interface, both, in_array, in_record, in_tuple, no_more,
  more, Grows, defined_grows, alias-Grows, alias-IsDefined, int_or_text-IsDefined, text-IsDefined,
}

module _ (udts : UdtNames) where
  mutual
    unfolding ts

    ts-Grows : (pos : Pos) (t : SpecType) (used : Used) → Grows used (ts udts pos t used).0
    ts-Grows pos bool used = λ n h. h
    ts-Grows pos void used = λ n h. h
    ts-Grows pos u32 used = λ n h. h
    ts-Grows pos i32 used = λ n h. h
    ts-Grows pos u64 used = alias-Grows udts (lit "u64") int_definition used
    ts-Grows pos i64 used = alias-Grows udts (lit "i64") int_definition used
    ts-Grows pos u128 used = alias-Grows udts (lit "u128") int_definition used
    ts-Grows pos i128 used = alias-Grows udts (lit "i128") int_definition used
    ts-Grows pos u256 used = alias-Grows udts (lit "u256") int_definition used
    ts-Grows pos i256 used = alias-Grows udts (lit "i256") int_definition used
    ts-Grows pos timepoint used = alias-Grows udts (lit "Timepoint") int_definition used
    ts-Grows pos duration used = alias-Grows udts (lit "Duration") int_definition used
    ts-Grows pos string used = λ n h. h
    ts-Grows pos symbol used = λ n h. h
    ts-Grows pos address used = alias-Grows udts (lit "Address") (lit "string") used
    ts-Grows pos bytes used = alias-Grows udts (lit "Bytes") (lit "string") used
    ts-Grows pos (bytes_n k) used = alias-Grows udts (lit "Bytes") (lit "string") used
    ts-Grows pos (option_of t) used = ts-Grows pos t used
    ts-Grows pos (vec_of t) used = ts-Grows pos t used
    ts-Grows pos (tuple_of types) used = ts_all-Grows pos types used
    ts-Grows pos (map_to t) used = ts-Grows pos t used
    ts-Grows ret (result_of t) used = ts-Grows ret t used
    ts-Grows arg (result_of t) used = λ n h. h
    ts-Grows ret val used = λ n h. h
    ts-Grows arg val used = λ n h. h
    ts-Grows ret error used = λ n h. h
    ts-Grows arg error used = λ n h. h
    ts-Grows ret muxed_address used = λ n h. h
    ts-Grows arg muxed_address used = λ n h. h
    ts-Grows pos (udt m) used = λ n h. h

    ts_all-Grows :
        (pos : Pos) (types : SpecTypes) (used : Used) → Grows used (ts_all udts pos types used).0
    ts_all-Grows pos no_types used = λ n h. h
    ts_all-Grows pos (one_type t types) used =
        λ n h. ts_all-Grows pos types (ts udts pos t used).0 n (ts-Grows pos t used n h)

  udt-IsDefined :
      (n : Text) (used : Used)
      → IsDefined udts used (named (if has_udt udts n then n else lit "unknown"))
  udt-IsDefined n used = elim (Bool-cases (has_udt udts n)) [
    | inl defined ↦ rw defined (of_interface defined)
    | inr other ↦ rw other (of_language (there (there (there (there (there here))))))
  ]

  mutual
    unfolding ts meaning

    type_defined :
        (pos : Pos) (t : SpecType) (used : Used)
        → IsDefined udts (ts udts pos t used).0 (meaning udts pos t)
    type_defined pos bool used = of_language here
    type_defined pos void used = of_language (there here)
    type_defined pos u32 used = of_language (there (there here))
    type_defined pos i32 used = of_language (there (there here))
    type_defined pos u64 used =
        alias-IsDefined udts _ int_or_text used (there (there here))
          (int_or_text-IsDefined udts used)
    type_defined pos i64 used =
        alias-IsDefined udts _ int_or_text used (there (there (there here)))
          (int_or_text-IsDefined udts used)
    type_defined pos u128 used =
        alias-IsDefined udts _ int_or_text used (there (there (there (there here))))
          (int_or_text-IsDefined udts used)
    type_defined pos i128 used =
        alias-IsDefined udts _ int_or_text used (there (there (there (there (there here)))))
          (int_or_text-IsDefined udts used)
    type_defined pos u256 used =
        alias-IsDefined udts _ int_or_text used (there (there (there (there (there (there here))))))
          (int_or_text-IsDefined udts used)
    type_defined pos i256 used =
        alias-IsDefined udts _ int_or_text used
          (there (there (there (there (there (there (there here)))))))
          (int_or_text-IsDefined udts used)
    type_defined pos timepoint used =
        alias-IsDefined udts _ int_or_text used
          (there (there (there (there (there (there (there (there here))))))))
          (int_or_text-IsDefined udts used)
    type_defined pos duration used =
        alias-IsDefined udts _ int_or_text used
          (there (there (there (there (there (there (there (there (there here)))))))))
          (int_or_text-IsDefined udts used)
    type_defined pos string used = text-IsDefined udts used
    type_defined pos symbol used = text-IsDefined udts used
    type_defined pos address used =
        alias-IsDefined udts _ (named (lit "string")) used here (text-IsDefined udts used)
    type_defined pos bytes used =
        alias-IsDefined udts _ (named (lit "string")) used (there here) (text-IsDefined udts used)
    type_defined pos (bytes_n k) used =
        alias-IsDefined udts _ (named (lit "string")) used (there here) (text-IsDefined udts used)
    type_defined pos (option_of t) used = both (type_defined pos t used) (of_language (there here))
    type_defined pos (vec_of t) used = in_array (type_defined pos t used)
    type_defined pos (tuple_of types) used = in_tuple (types_defined pos types used)
    type_defined pos (map_to t) used = in_record (type_defined pos t used)
    type_defined ret (result_of t) used = type_defined ret t used
    type_defined arg (result_of t) used = of_language (there (there (there (there here))))
    type_defined ret val used = of_language (there (there (there (there (there here)))))
    type_defined arg val used = of_language (there (there (there (there here))))
    type_defined ret error used = of_language (there (there (there (there (there here)))))
    type_defined arg error used = of_language (there (there (there (there here))))
    type_defined ret muxed_address used = text-IsDefined udts used
    type_defined arg muxed_address used = of_language (there (there (there (there here))))
    type_defined pos (udt m) used = udt-IsDefined m used

    types_defined :
        (pos : Pos) (types : SpecTypes) (used : Used)
        → AllDefined udts (ts_all udts pos types used).0 (meanings udts pos types)
    types_defined pos no_types used = no_more
    types_defined pos (one_type t types) used =
        more
          (defined_grows (ts_all-Grows pos types (ts udts pos t used).0) (type_defined pos t used))
          (types_defined pos types (ts udts pos t used).0)

-- The aliases in use after further types were rendered.
unfoldable pub rendered : UdtNames → List (Pos × SpecType) → Used → Used
unfolding ts
rendered udts [] used = used
rendered udts ((pos, t) ∷ later) used = rendered udts later (ts udts pos t used).0

rendered-Grows :
    (udts : UdtNames) (later : List (Pos × SpecType)) (used : Used)
    → Grows used (rendered udts later used)
unfolding rendered
rendered-Grows udts [] used = λ n h. h
rendered-Grows udts ((pos, t) ∷ later) used =
    λ n h. rendered-Grows udts later (ts udts pos t used).0 n (ts-Grows udts pos t used n h)

-- Every name that the TypeScript of a type mentions is built in, or a user-defined type of the
-- interface, or an alias that the prelude defines, whatever was rendered before and after it.
pub ts-IsDefined :
    (udts : UdtNames) (pos : Pos) (t : SpecType) (later : List (Pos × SpecType)) (used : Used)
    → IsDefined udts (rendered udts later (ts udts pos t used).0) (meaning udts pos t)
ts-IsDefined udts pos t later used =
    defined_grows (rendered-Grows udts later (ts udts pos t used).0) (type_defined udts pos t used)
