-- ===== src/SpecIndex.antt =====
-- crates/lumenqraph-core/src/spec.rs: the indexes that `reindex` builds, and the lookups in them. A
-- HashMap is the list of its insertions, the latest first; the order in which it is iterated over is a
-- parameter. Indexes and codes are as large as the lists.
mod Examples
pub mod Scans
pub mod Names
pub mod Places
pub mod Longest
pub mod Prefixes
use lumenqraph.Base.{
  ℕ, zero, suc, Bool, true, false, not, ◌&&◌, Option, none, some, List, [], ◌∷◌, length, take,
  is_nil, ltb, leb, ◌==◌, if◌then◌else◌,
}
use lumenqraph.Base.Str.{Str, str_eq, strs_eq}
use lumenqraph.Base.Chain.{◌>>=◌}
use lumenqraph.Spec.{
  FunctionSpec, EventSpec, UdtStruct, UdtUnion, UdtEnum, ErrorCase, UdtErrorEnum, ContractSpec,
}

module _ {K R : Type 0} (eq : K → K → Bool) where
  unfoldable pub hash_get : List (K × R) → K → Option R
  hash_get [] k = none
  hash_get ((j, v) ∷ m) k = let rest = hash_get m k in if eq j k then some v else rest

  -- `entry(k).or_insert(v)`.
  unfoldable pub or_insert : K → R → List (K × R) → List (K × R)
  or_insert k v m = elim (hash_get m k) [ none ↦ (k, v) ∷ m | some w ↦ m ]

-- `slice.get(i)`.
unfoldable pub nth : {A : Type 0} → List A → ℕ → Option A
nth [] i = none
nth (x ∷ xs) zero = some x
nth (x ∷ xs) (suc i) = nth xs i

-- The loops of `reindex`, from the index `i` on.
unfoldable pub index_prefixes : ℕ → List EventSpec → List (List Str × ℕ) → List (List Str × ℕ)
index_prefixes i [] m = m
index_prefixes i (e ∷ es) m =
    index_prefixes (suc i) es (if is_nil e.prefix_topics then m else (e.prefix_topics, i) ∷ m)

-- The loops over functions, events, enums, unions and structs, which keep the first of a name.
unfoldable pub index_names :
    {A R : Type 0} → (A → Str) → (ℕ → R) → ℕ → List A → List (Str × R) → List (Str × R)
index_names name ref i [] m = m
index_names name ref i (x ∷ xs) m =
    index_names name ref (suc i) xs (or_insert str_eq (name x) (ref i) m)

abbrev add_first_topic : List Str → ℕ → List (Str × ℕ) → List (Str × ℕ)
add_first_topic [] i m = m
add_first_topic (t ∷ ts) i m = (t, i) ∷ m

unfoldable pub index_first_topics : ℕ → List EventSpec → List (Str × ℕ) → List (Str × ℕ)
index_first_topics i [] m = m
index_first_topics i (e ∷ es) m =
    index_first_topics (suc i) es (add_first_topic e.prefix_topics i m)

unfoldable pub events_by_prefix : List EventSpec → List (List Str × ℕ)
events_by_prefix es = index_prefixes 0 es []

unfoldable pub events_by_name : List EventSpec → List (Str × ℕ)
events_by_name es = index_first_topics 0 es (index_names (λ e. e.name) (λ i. i) 0 es [])

unfoldable pub functions_by_name : List FunctionSpec → List (Str × ℕ)
functions_by_name fs = index_names (λ f. f.name) (λ i. i) 0 fs []

pub data UdtRef : Type 0 where
  in_enums : ℕ → UdtRef
  in_unions : ℕ → UdtRef
  in_structs : ℕ → UdtRef

pub data UdtDef : Type 0 where
  enum_def : UdtEnum → UdtDef
  union_def : UdtUnion → UdtDef
  struct_def : UdtStruct → UdtDef

unfoldable pub udts_by_name : ContractSpec → List (Str × UdtRef)
udts_by_name spec =
    let enums = index_names (λ e. e.name) in_enums 0 spec.enums [] in
    let unions = index_names (λ u. u.name) in_unions 0 spec.unions enums in
    index_names (λ s. s.name) in_structs 0 spec.structs unions

-- `ContractSpec::function`.
unfoldable pub function : ContractSpec → Str → Option FunctionSpec
function spec name = do
  i ← hash_get str_eq (functions_by_name spec.functions) name
  nth spec.functions i

abbrev udt_at : ContractSpec → UdtRef → Option UdtDef
udt_at spec (in_enums i) = do e ← nth spec.enums i; some (enum_def e)
udt_at spec (in_unions i) = do u ← nth spec.unions i; some (union_def u)
udt_at spec (in_structs i) = do s ← nth spec.structs i; some (struct_def s)

unfoldable pub udt_def : ContractSpec → Str → Option UdtDef
udt_def spec name = do ref ← hash_get str_eq (udts_by_name spec) name; udt_at spec ref

-- The error code index, without the doc strings. `error_enums` has the entries of `errors`.
unfoldable pub index_cases : List ErrorCase → List (ℕ × Str) → List (ℕ × Str)
index_cases [] m = m
index_cases (c ∷ cs) m = index_cases cs ((c.code, c.name) ∷ m)

unfoldable pub index_errors : List UdtErrorEnum → List (ℕ × Str) → List (ℕ × Str)
index_errors [] m = m
index_errors (e ∷ es) m = index_errors es (index_cases e.cases m)

unfoldable pub resolve_error_code : ContractSpec → ℕ → Option Str
resolve_error_code spec code = hash_get ◌==◌ (index_errors spec.errors []) code

-- The topics begin with a prefix, which is not empty.
abbrev pub is_match : List Str → List Str → Bool
is_match topics prefix =
    ltb 0 (length prefix)
    && leb (length prefix) (length topics)
    && strs_eq (take (length prefix) topics) prefix

-- The loop over `events_by_prefix` in `enrich_event`, with the best match so far.
unfoldable pub best_prefix : List Str → Option ℕ → ℕ → List (List Str × ℕ) → Option ℕ
best_prefix topics best best_len [] = best
best_prefix topics best best_len ((prefix, idx) ∷ rest) =
    let plen = length prefix in
    let taken = best_prefix topics (some idx) plen rest in
    let passed = best_prefix topics best best_len rest in
    if is_match topics prefix && leb best_len plen then taken else passed

abbrev or_named : Option ℕ → Option ℕ → Option ℕ
or_named none b = b
or_named (some a) b = some a

-- The event that `enrich_event` matches: `entries` is the iteration over `events_by_prefix`, `topics`
-- the leading strings of the decoded topics.
unfoldable pub match_event :
    List EventSpec → List (List Str × ℕ) → Str → List Str → Option EventSpec
match_event events entries event_name topics = do
  i ←
      or_named (best_prefix topics none 0 entries)
        (hash_get str_eq (events_by_name events) event_name)
  nth events i
