-- ===== src/ContractIds/Examples.antt =====
-- Lists of contracts, and the theorems at them.
use lumenqraph.Base.{
  ℕ, ◌≤◌, ◌≡◌, refl, ◌⊎◌, Bool, true, false, List, [], ◌∷◌, length, all, leb, if◌then◌else◌,
}
use lumenqraph.Base.Str.{lit}
use lumenqraph.Base.Text.{Text, starts_with}
use lumenqraph.Base.Result.{ok, err}
use lumenqraph.ContractIds.{
  parse_contract_ids, entries, contains, invalid_contract_id, too_many_contract_ids,
}
use lumenqraph.ContractIds.Unique.{firsts}
use lumenqraph.ContractIds.Parsed.{IsFirstInvalid, parse_contract_ids-outcome}

-- The first letter stands for the test on a strkey.
abbrev valid : Text → Bool
valid s = starts_with (b'C' ∷ []) s

abbrev raw : Text
raw = lit "CA, CB,,CA , CC"

raw_parsed : parse_contract_ids valid raw ≡ ok (lit "CA" ∷ lit "CB" ∷ lit "CC" ∷ [])
unfolding parse_contract_ids lumenqraph.ContractIds.check_ids entries lumenqraph.Base.Text.filter
    lumenqraph.Base.Text.split lumenqraph.Base.Text.trim starts_with lumenqraph.ContractIds.dedup
    contains lumenqraph.Base.Str.str_eq
raw_parsed = refl

parse_contract_ids-outcome_example :
    let ids = firsts (entries raw) in
    ((all valid (entries raw) ≡ true)
      × (parse_contract_ids valid raw
          ≡ (if leb (length ids) 25 then ok ids else err (too_many_contract_ids (length ids)))))
    ⊎ ((id : Text) × IsFirstInvalid valid id (entries raw)
        × (parse_contract_ids valid raw ≡ err (invalid_contract_id id)))
parse_contract_ids-outcome_example = parse_contract_ids-outcome valid raw
