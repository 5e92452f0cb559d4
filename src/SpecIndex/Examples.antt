-- ===== src/SpecIndex/Examples.antt =====
-- A small interface, and the theorems at it.
use lumenqraph.Base.{
  ℕ, ◌≡◌, refl, ◌⊎◌, inl, inr, false, some, List, [], ◌∷◌, In, here, there, Bool-cases,
}
use mathlib.Core.Option.{some-injective}
use lumenqraph.Base.Str.{Str, lit, str_eq, strs_eq, eq_of_strs_eq}
use lumenqraph.Base.Chain.{◌>>=◌}
use lumenqraph.Spec.{EventSpec, ContractSpec}
use lumenqraph.SpecIndex.{
  hash_get, events_by_prefix, events_by_name, is_match, match_event, nth, function, udt_def,
  resolve_error_code,
}
use lumenqraph.SpecIndex.Scans.{find}
use lumenqraph.SpecIndex.Names.{find_udt, declared, last_name, lookups_lem}
use lumenqraph.SpecIndex.Prefixes.{IsIteration, IsLongest, match_event_lem}

abbrev pool : EventSpec
pool = record {
  name = lit "Pool";
  prefix_topics = lit "pool" ∷ [];
  params = [];
  data_format = lit "map";
}

abbrev deposit : EventSpec
deposit = record pool { name = lit "Deposit"; prefix_topics = lit "pool" ∷ lit "deposit" ∷ [] }

abbrev events : List EventSpec
events = deposit ∷ pool ∷ []

abbrev topics : List Str
topics = lit "pool" ∷ lit "deposit" ∷ lit "x" ∷ []

-- The iteration starts with the shorter prefix.
abbrev iteration : List (List Str × ℕ)
iteration = (lit "pool" ∷ [], 1) ∷ (lit "pool" ∷ lit "deposit" ∷ [], 0) ∷ []

matched : match_event events iteration (lit "pool") topics ≡ some deposit
unfolding match_event lumenqraph.SpecIndex.best_prefix strs_eq str_eq nth
matched = refl

listed :
    (p : List Str) (i : ℕ)
    → In (p, i) iteration
    → hash_get strs_eq (events_by_prefix events) p ≡ some i
unfolding hash_get events_by_prefix lumenqraph.SpecIndex.index_prefixes strs_eq str_eq
listed p i here = refl
listed p i (there here) = refl
listed p i (there (there m)) = elim m [ ]

held :
    (p : List Str) (i : ℕ)
    → hash_get strs_eq (events_by_prefix events) p ≡ some i
    → In (p, i) iteration
unfolding hash_get events_by_prefix lumenqraph.SpecIndex.index_prefixes
held p i h = elim (Bool-cases (strs_eq pool.prefix_topics p)) [
  | inl e ↦ rw (← eq_of_strs_eq pool.prefix_topics p e, ← some-injective 1 i (rw e at h)) here
  | inr e ↦ elim (Bool-cases (strs_eq deposit.prefix_topics p)) [
    | inl f ↦
        rw (← eq_of_strs_eq deposit.prefix_topics p f, ← some-injective 0 i (rw (e, f) at h))
          (there here)
    | inr f ↦ let x = rw (e, f) at h in cc
  ]
]

iteration-IsIteration : IsIteration iteration events
iteration-IsIteration p i = (listed p i, held p i)

match_event_lem_example :
    ((i : ℕ) × IsLongest events topics i
      × (match_event events iteration (lit "pool") topics ≡ nth events i))
    ⊎ (((j : ℕ) (d : EventSpec) → nth events j ≡ some d → is_match topics d.prefix_topics ≡ false)
        × (match_event events iteration (lit "pool") topics
            ≡ (hash_get str_eq (events_by_name events) (lit "pool") >>= (λ i. nth events i))))
match_event_lem_example = match_event_lem events iteration (lit "pool") topics iteration-IsIteration

abbrev spec : ContractSpec
spec = record {
  functions = record { name = lit "f"; inputs = []; outputs = [] } ∷ [];
  events = events;
  structs = [];
  unions = [];
  enums = record { name = lit "E"; cases = [] } ∷ [];
  errors = record { name = lit "Err"; cases = record { name = lit "Bad"; code = 6 } ∷ [] } ∷ [];
}

lookups_lem_example :
    (function spec (lit "E") ≡ find (λ f. str_eq f.name (lit "E")) spec.functions)
    × (udt_def spec (lit "E") ≡ find_udt spec (lit "E"))
    × (resolve_error_code spec 6 ≡ last_name (declared spec.errors) 6)
lookups_lem_example = lookups_lem spec (lit "E") 6
