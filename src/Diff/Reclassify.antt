-- ===== src/Diff/Reclassify.antt =====
-- `diff_events` and `diff_types` of diff.rs: a changed event or type that only gained data fields
-- or cases moves from `changed` to `potentially_breaking`.
use lumenqraph.Base.{
  ℕ, ◌+◌, Bool, true, false, not, ◌&&◌, Option, none, some, List, [], ◌∷◌, ◌++◌, map, length, drop,
  is_nil, any, ltb, leb, ◌==◌, if◌then◌else◌,
}
use lumenqraph.Base.Str.{Str, lit, str_eq, strs_eq, join}
use lumenqraph.Spec.{EventParam, EventSpec, UnionCase, UdtUnion, EnumCase, UdtEnum, ContractSpec}
use lumenqraph.Diff.Types.{potentially_breaking, ChangedItem, SectionDiff}
use lumenqraph.Diff.Sections.{diff_section}
use lumenqraph.Diff.Render.{event_sigs, type_sigs}

infixl 5 ◌>>=◌
abbrev pub ◌>>=◌ {ℓ κ} : {A : Type ℓ} {B : Type κ} → Option A → (A → Option B) → Option B
none >>= f = none
some a >>= f = f a

-- `str::eq_ignore_ascii_case`.
abbrev lower : ℕ → ℕ
lower c = if leb b'A' c && leb c b'Z' then c + 32 else c

unfoldable pub eq_ignore_case : Str → Str → Bool
eq_ignore_case [] [] = true
eq_ignore_case [] (y ∷ ys) = false
eq_ignore_case (x ∷ xs) [] = false
eq_ignore_case (x ∷ xs) (y ∷ ys) = lower x == lower y && eq_ignore_case xs ys

-- `a.iter().zip(b.iter()).all(test)`: the longer list's rest is not looked at.
unfoldable pub zip_all {ℓ} : {A : Type ℓ} → (A → A → Bool) → List A → List A → Bool
zip_all test (x ∷ xs) (y ∷ ys) = test x y && zip_all test xs ys
zip_all test _ _ = true

unfoldable pub find_event : Str → List EventSpec → Option EventSpec
find_event name [] = none
find_event name (e ∷ es) = if str_eq e.name name then some e else find_event name es

unfoldable pub same_param : EventParam → EventParam → Bool
same_param o n =
    str_eq o.name n.name && str_eq o.type_name n.type_name && str_eq o.location n.location

-- The name of a parameter in the data, and "" for one elsewhere.
unfoldable pub added_name : EventParam → Str
unfolding eq_ignore_case
added_name p = if not (eq_ignore_case p.location (lit "data")) then [] else p.name

unfoldable pub map_event_added_fields : EventSpec → EventSpec → Option Str
map_event_added_fields old new =
    if not (str_eq old.data_format new.data_format)
    then none
    else if not (eq_ignore_case new.data_format (lit "map"))
    then none
    else if leb (length new.params) (length old.params)
    then none
    else if not (zip_all same_param old.params new.params)
    then none
    else (let added = map added_name (drop (length old.params) new.params) in
        if any is_nil added then none else some (lit "added field(s) " ++ join (lit ", ") added))

unfoldable pub find_union : Str → List UdtUnion → Option UdtUnion
find_union name [] = none
find_union name (u ∷ us) = if str_eq u.name name then some u else find_union name us

unfoldable pub find_enum : Str → List UdtEnum → Option UdtEnum
find_enum name [] = none
find_enum name (e ∷ es) = if str_eq e.name name then some e else find_enum name es

unfoldable pub same_case : UnionCase → UnionCase → Bool
same_case a b = str_eq a.name b.name && strs_eq a.type_names b.type_names

unfoldable pub same_enum_case : EnumCase → EnumCase → Bool
same_enum_case a b = str_eq a.name b.name && (a.value == b.value)

-- The description of appended cases; `none` where a case was not just appended.
unfoldable pub appended_cases {ℓ} :
    {A : Type ℓ} → (A → A → Bool) → (A → Str) → List A → List A → Option Str
appended_cases same name_of o n =
    if ltb (length o) (length n) && zip_all same o n
    then some (lit "added case(s) " ++ join (lit ", ") (map name_of (drop (length o) n)))
    else none

-- The second half of `added_cases_only`.
unfoldable pub added_enum_cases : Option UdtEnum → Option UdtEnum → Option Str
added_enum_cases (some o) (some n) = appended_cases same_enum_case (λ c. c.name) o.cases n.cases
added_enum_cases _ _ = none

unfoldable pub added_cases :
    Option UdtUnion → Option UdtUnion → Option UdtEnum → Option UdtEnum → Option Str
added_cases (some o) (some n) oe ne = appended_cases same_case (λ c. c.name) o.cases n.cases
added_cases _ _ oe ne = added_enum_cases oe ne

unfoldable pub added_cases_only : ContractSpec → ContractSpec → Str → Option Str
added_cases_only old new name =
    added_cases (find_union name old.unions) (find_union name new.unions) (find_enum name old.enums)
      (find_enum name new.enums)

-- One round of the loop over the drained `changed`: by the description, if there is one.
unfoldable pub push_changed : Option Str → ChangedItem → SectionDiff → SectionDiff
push_changed none item d = record d { changed = d.changed ++ (item ∷ []) }
push_changed (some description) item d = record d {
  potentially_breaking =
      d.potentially_breaking
      ++ (record {
        name = item.name;
        from = item.from;
        to = item.to;
        severity = potentially_breaking;
        description = description;
      }
          ∷ []);
}

unfoldable pub reclassify_loop : (Str → Option Str) → List ChangedItem → SectionDiff → SectionDiff
reclassify_loop describe [] d = d
reclassify_loop describe (item ∷ items) d =
    reclassify_loop describe items (push_changed (describe item.name) item d)

unfoldable pub reclassify : (Str → Option Str) → SectionDiff → SectionDiff
reclassify describe d = reclassify_loop describe d.changed (record d { changed = [] })

unfoldable pub describe_event : ContractSpec → ContractSpec → Str → Option Str
describe_event old new name = do
  before ← find_event name old.events
  after ← find_event name new.events
  map_event_added_fields before after

unfoldable pub diff_events : ContractSpec → ContractSpec → SectionDiff
diff_events old new =
    reclassify (describe_event old new)
      (diff_section (event_sigs old.events []) (event_sigs new.events []))

unfoldable pub diff_types : ContractSpec → ContractSpec → SectionDiff
diff_types old new =
    reclassify (added_cases_only old new) (diff_section (type_sigs old) (type_sigs new))
