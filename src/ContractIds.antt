-- ===== src/ContractIds.antt =====
-- crates/lumenqraph-core/src/xdr.rs: the list of contracts that an operator sets in the environment
-- variable CONTRACT_IDS. The strkeys of the stellar-strkey crate are a parameter. The warning on
-- duplicates is not modelled, and the texts of the errors are what they mention.
mod Examples
pub mod Unique
pub mod Parsed
use lumenqraph.Base.{
  ℕ, Bool, true, false, not, ◌||◌, List, [], ◌∷◌, ◌++◌, map, length, is_nil, leb, ltb, ◌==◌,
  if◌then◌else◌,
}
use lumenqraph.Base.Str.{str_eq}
use lumenqraph.Base.Text.{Text, filter, trim, split}
use lumenqraph.Base.Result.{Result, ok, err, ◌>>=◌}

pub data ContractIdsError : Type 0 where
  invalid_contract_id : Text → ContractIdsError
  too_many_contract_ids : ℕ → ContractIdsError

abbrev pub max_contract_ids : ℕ
max_contract_ids = 25

-- The entries between the commas, trimmed, without the empty ones.
unfoldable pub entries : Text → List Text
entries raw = filter (λ s. not (is_nil s)) (map trim (split (λ c. c == b',') raw))

-- Whether a hash set has a text.
unfoldable pub contains : List Text → Text → Bool
contains [] s = false
contains (x ∷ xs) s = str_eq x s || contains xs s

-- The loop that keeps the first of equal entries: `seen` is the hash set, `ids` the list so far.
unfoldable pub dedup : List Text → List Text → List Text → List Text
dedup seen ids [] = ids
dedup seen ids (id ∷ rest) =
    let repeated = dedup seen ids rest in
    let fresh = dedup (id ∷ seen) (ids ++ id ∷ []) rest in
    if contains seen id then repeated else fresh

module _ (is_valid_contract_id : Text → Bool) where
  -- The loop that returns at the first entry that is not valid.
  unfoldable pub check_ids : List Text → Result ContractIdsError (Unit {0})
  check_ids [] = ok tt
  check_ids (id ∷ ids) =
      let rest = check_ids ids in
      if is_valid_contract_id id then rest else err (invalid_contract_id id)

  unfoldable pub parse_contract_ids : Text → Result ContractIdsError (List Text)
  parse_contract_ids raw = do
    checked ← check_ids (entries raw)
    let ids = dedup [] [] (entries raw)
    if ltb max_contract_ids (length ids) then err (too_many_contract_ids (length ids)) else ok ids
