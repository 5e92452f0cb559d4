-- ===== src/ContractIds/Parsed.antt =====
-- Which lists of contracts are accepted, and what they are read as.
use lumenqraph.Base.{
  ◌≤◌, ◌≡◌, refl, sym, ap, ◌∙◌, ◌⊎◌, Bool, true, false, List, [], ◌∷◌, length, all, leb, leb→le,
  ◌++◌, if◌then◌else◌, inl, inr, Bool-cases, arith,
}
use lumenqraph.Base.Text.{Text}
use lumenqraph.Base.Result.{ok, err}
use lumenqraph.ContractIds.{
  invalid_contract_id, too_many_contract_ids, entries, contains, check_ids, parse_contract_ids,
}
use lumenqraph.ContractIds.Unique.{firsts, dedup_lem, is_unique, contains-firsts, is_unique-firsts}

-- The first entry that is not valid.
abbrev pub IsFirstInvalid : (Text → Bool) → Text → List Text → Type 0
IsFirstInvalid valid id ids =
    (before : List Text) × (after : List Text) × (ids ≡ before ++ id ∷ after)
    × (all valid before ≡ true)
    × (valid id ≡ false)

module _ (valid : Text → Bool) where
  check_ids-valid : (ids : List Text) → all valid ids ≡ true → check_ids valid ids ≡ ok tt
  unfolding check_ids all
  check_ids-valid [] h = refl
  check_ids-valid (id ∷ ids) h = ground (arith, h, check_ids-valid ids)

  check_ids-invalid :
      (ids : List Text)
      → all valid ids ≡ false
      → (id : Text) × IsFirstInvalid valid id ids
        × (check_ids valid ids ≡ err (invalid_contract_id id))
  unfolding check_ids all
  check_ids-invalid [] h = cc
  check_ids-invalid (x ∷ xs) h = elim (Bool-cases (valid x)) [
    | inl e ↦
        let (id, (before, after, eq, good, bad), out) =
          check_ids-invalid xs (ground (arith, h, e)) in
        (id, (x ∷ before, after, ap (◌∷◌ x) eq, rw e good, bad), rw e out)
    | inr e ↦ (x, ([], xs, refl, refl, e), rw e refl)
  ]

-- If every entry is valid, the list is read as its entries without the later ones of equal ones,
-- in their order, or refused with their number if that is above 25. Otherwise the error names the first
-- entry that is not valid.
pub parse_contract_ids-outcome :
    (valid : Text → Bool) (raw : Text)
    → let ids = firsts (entries raw) in
      ((all valid (entries raw) ≡ true)
        × (parse_contract_ids valid raw
            ≡ (if leb (length ids) 25 then ok ids else err (too_many_contract_ids (length ids)))))
      ⊎ ((id : Text) × IsFirstInvalid valid id (entries raw)
          × (parse_contract_ids valid raw ≡ err (invalid_contract_id id)))
unfolding parse_contract_ids
parse_contract_ids-outcome valid raw = elim (Bool-cases (all valid (entries raw))) [
  | inl e ↦
      inl (e, rw (check_ids-valid valid (entries raw) e, dedup_lem (entries raw)) (ground arith))
  | inr e ↦
      let (id, first, out) = check_ids-invalid valid (entries raw) e in inr (id, first, rw out refl)
]

-- An accepted list of contracts has at most 25 entries, all of them valid, no two of them equal,
-- and they are the entries that were written.
parse_contract_ids-IsAccepted :
    (valid : Text → Bool) (raw : Text) (ids : List Text)
    → parse_contract_ids valid raw ≡ ok ids
    → (length ids ≤ 25)
      × (is_unique ids ≡ true)
      × (all valid (entries raw) ≡ true)
      × ((s : Text) → contains ids s ≡ contains (entries raw) s)
parse_contract_ids-IsAccepted valid raw ids h = elim (parse_contract_ids-outcome valid raw) [
  | inl (e, out) ↦ accepted (firsts (entries raw)) refl e (sym out ∙ h)
  | inr (id, first, out) ↦ let k = sym out ∙ h in cc
]
  where
    accepted :
        (read : List Text)
        → firsts (entries raw) ≡ read
        → all valid (entries raw) ≡ true
        → (if leb (length read) 25 then ok read else err (too_many_contract_ids (length read)))
          ≡ ok ids
        → (length ids ≤ 25)
          × (is_unique ids ≡ true)
          × (all valid (entries raw) ≡ true)
          × ((s : Text) → contains ids s ≡ contains (entries raw) s)
    accepted read f e k =
        let few : leb (length read) 25 ≡ true = ground (arith, k) in
        let same : read ≡ ids = ground (arith, k) in
        let found = f ∙ same in
        (
          rw (← same) (leb→le (length read) 25 few),
          rw found at (is_unique-firsts (entries raw)),
          e,
          λ s. rw found at (contains-firsts (entries raw) s),
        )
