-- ===== src/SpecIndex/Names.antt =====
-- The lookups by name against a scan of the lists in their order.
use lumenqraph.Base.{
  ℕ, suc, ◌≡◌, refl, sym, ap, ◌∙◌, Bool, true, false, Option, none, some, List, [], ◌∷◌, ◌++◌, ◌==◌,
  if◌then◌else◌, inl, inr, Bool-cases,
}
use lumenqraph.Base.Str.{Str, str_eq}
use lumenqraph.Base.Chain.{◌>>=◌}
use lumenqraph.Spec.{ErrorCase, UdtErrorEnum, ContractSpec}
use lumenqraph.SpecIndex.{
  hash_get, nth, index_names, functions_by_name, function, UdtRef, in_enums, in_unions, in_structs,
  UdtDef, enum_def, union_def, struct_def, udts_by_name, udt_at, udt_def, index_cases, index_errors,
  resolve_error_code,
}
use lumenqraph.SpecIndex.Scans.{
  find, first_place, first_of, map_option, first_of-none, first_of_assoc, hash_get-index_names,
  find-first_place, indexed,
}

index_names-empty :
    {A R : Type 0} (name : A → Str) (ref : ℕ → R) (xs : List A) (k : Str)
    → hash_get str_eq (index_names name ref 0 xs []) k ≡ map_option ref (first_place name 0 xs k)
unfolding hash_get
index_names-empty name ref xs k = hash_get-index_names name ref 0 xs [] k

map_option-id : {R : Type 0} (o : Option R) → map_option (λ x. x) o ≡ o
map_option-id none = refl
map_option-id (some a) = refl

function_lem :
    (spec : ContractSpec) (name : Str)
    → function spec name ≡ find (λ f. str_eq f.name name) spec.functions
unfolding function functions_by_name
function_lem spec name =
    let place = first_place (λ f. f.name) 0 spec.functions name in
    rw (index_names-empty (λ f. f.name) (λ i. i) spec.functions name, map_option-id place)
      (indexed (λ f. f.name) spec.functions name place refl)

-- The definition of a name among the enums, else the unions, else the structs.
unfoldable pub find_udt : ContractSpec → Str → Option UdtDef
find_udt spec name = first_of (map_option enum_def (find (λ e. str_eq e.name name) spec.enums)) (
    first_of (map_option union_def (find (λ u. str_eq u.name name) spec.unions))
      (map_option struct_def (find (λ s. str_eq s.name name) spec.structs)))

-- What a reference to a list leads to.
at_place :
    {A : Type 0} (name : A → Str) (xs : List A) (k : Str) (definition : A → UdtDef)
    (place : Option ℕ)
    → first_place name 0 xs k ≡ place
    → (place >>= (λ i. nth xs i >>= (λ x. some (definition x))))
      ≡ map_option definition (find (λ x. str_eq (name x) k) xs)
at_place name xs k definition none e = rw (find-first_place name 0 xs k e) refl
at_place name xs k definition (some i) e =
    rw (indexed name xs k (some i) e) (chained (find (λ x. str_eq (name x) k) xs) definition)
  where
    chained :
        {A : Type 0} (o : Option A) (definition : A → UdtDef)
        → (o >>= (λ x. some (definition x))) ≡ map_option definition o
    chained none definition = refl
    chained (some x) definition = refl

found_at :
    {A : Type 0} (name : A → Str) (i j : ℕ) (xs : List A) (k : Str)
    → first_place name i xs k ≡ some j
    → (x : A) × (find (λ y. str_eq (name y) k) xs ≡ some x)
unfolding first_place find
found_at name i j [] k h = cc
found_at name i j (x ∷ xs) k h = elim (Bool-cases (str_eq (name x) k)) [
  | inl e ↦ (x, rw e refl)
  | inr e ↦ let (y, f) = found_at name (suc i) j xs k (rw e at h) in (y, rw e f)
]

-- A name is looked up in one list, or else in the rest.
module _ {A : Type 0} (spec : ContractSpec) (name : A → Str) (xs : List A) (k : Str) where
  resolved :
      (ref : ℕ → UdtRef) (definition : A → UdtDef)
      → ((i : ℕ) → udt_at spec (ref i) ≡ (nth xs i >>= (λ x. some (definition x))))
      → (rest_ref : Option UdtRef) (rest : Option UdtDef) → (rest_ref >>= udt_at spec) ≡ rest
      → (place : Option ℕ) → first_place name 0 xs k ≡ place
      → (first_of (map_option ref place) rest_ref >>= udt_at spec)
        ≡ first_of (map_option definition (find (λ x. str_eq (name x) k) xs)) rest
  resolved ref definition f rest_ref rest r none e = rw (find-first_place name 0 xs k e) r
  resolved ref definition f rest_ref rest r (some i) e =
      let (x, found) = found_at name 0 i xs k e in
      rw found (f i ∙ at_place name xs k definition (some i) e ∙ ap (map_option definition) found)

udt_def_lem : (spec : ContractSpec) (name : Str) → udt_def spec name ≡ find_udt spec name
unfolding udt_def udts_by_name find_udt
udt_def_lem spec name =
    let enums = index_names (λ e. e.name) in_enums 0 spec.enums [] in
    let unions = index_names (λ u. u.name) in_unions 0 spec.unions enums in
    let pe = first_place (λ e. e.name) 0 spec.enums name in
    let pu = first_place (λ u. u.name) 0 spec.unions name in
    let ps = first_place (λ s. s.name) 0 spec.structs name in
    rw
      (
        hash_get-index_names (λ s. s.name) in_structs 0 spec.structs unions name,
        hash_get-index_names (λ u. u.name) in_unions 0 spec.unions enums name,
        index_names-empty (λ e. e.name) in_enums spec.enums name,
        first_of-none (map_option in_structs ps),
        first_of_assoc (map_option in_enums pe) (map_option in_unions pu)
            (first_of (map_option in_structs ps) none),
        first_of-none (map_option struct_def (find (λ s. str_eq s.name name) spec.structs)),
      )
      (resolved spec (λ e. e.name) spec.enums name in_enums enum_def (λ i. refl) _ _
        (resolved spec (λ u. u.name) spec.unions name in_unions union_def (λ i. refl) _ _
          (resolved spec (λ s. s.name) spec.structs name in_structs struct_def (λ i. refl) none none
            refl ps refl)
          pu refl)
        pe refl)

-- All error cases, in the order of their declaration.
unfoldable pub declared : List UdtErrorEnum → List ErrorCase
declared [] = []
declared (e ∷ es) = e.cases ++ declared es

-- The name of the last case with a code.
unfoldable pub last_name : List ErrorCase → ℕ → Option Str
last_name [] code = none
last_name (c ∷ cs) code =
    first_of (last_name cs code) (if c.code == code then some c.name else none)

hash_get-index_cases :
    (cs : List ErrorCase) (m : List (ℕ × Str)) (code : ℕ)
    → hash_get ◌==◌ (index_cases cs m) code ≡ first_of (last_name cs code) (hash_get ◌==◌ m code)
unfolding index_cases last_name hash_get
hash_get-index_cases [] m code = refl
hash_get-index_cases (c ∷ cs) m code =
    hash_get-index_cases cs ((c.code, c.name) ∷ m) code ∙ go (last_name cs code) (c.code == code)
  where
    go :
        (later : Option Str) (b : Bool)
        → first_of later (if b then some c.name else hash_get ◌==◌ m code)
          ≡ first_of (first_of later (if b then some c.name else none)) (hash_get ◌==◌ m code)
    go none true = refl
    go none false = refl
    go (some n) b = refl

last_name-append :
    (cs ds : List ErrorCase) (code : ℕ)
    → last_name (cs ++ ds) code ≡ first_of (last_name ds code) (last_name cs code)
unfolding last_name
last_name-append [] ds code = first_of-none (last_name ds code)
last_name-append (c ∷ cs) ds code = rw (last_name-append cs ds code) (
    first_of_assoc (last_name ds code) (last_name cs code)
      (if c.code == code then some c.name else none))

hash_get-index_errors :
    (es : List UdtErrorEnum) (m : List (ℕ × Str)) (code : ℕ)
    → hash_get ◌==◌ (index_errors es m) code
      ≡ first_of (last_name (declared es) code) (hash_get ◌==◌ m code)
unfolding index_errors declared last_name
hash_get-index_errors [] m code = refl
hash_get-index_errors (e ∷ es) m code =
    hash_get-index_errors es (index_cases e.cases m) code
    ∙ rw (hash_get-index_cases e.cases m code, last_name-append e.cases (declared es) code)
        (sym (
          first_of_assoc (last_name (declared es) code) (last_name e.cases code)
            (hash_get ◌==◌ m code)))

-- The indexes find what a scan finds: a function is the first one of its name; a user-defined type is
-- the first of its name among the enums, else among the unions, else among the structs; and an error code has the
-- name of the last case that is declared with it.
pub lookups_lem :
    (spec : ContractSpec) (name : Str) (code : ℕ)
    → (function spec name ≡ find (λ f. str_eq f.name name) spec.functions)
      × (udt_def spec name ≡ find_udt spec name)
      × (resolve_error_code spec code ≡ last_name (declared spec.errors) code)
unfolding resolve_error_code hash_get
lookups_lem spec name code = (
  function_lem spec name,
  udt_def_lem spec name,
  hash_get-index_errors spec.errors [] code
      ∙ sym (first_of-none (last_name (declared spec.errors) code)),
)
