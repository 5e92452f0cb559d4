-- ===== src/RpcClient/Requests.antt =====
-- The errors of the server, and the request for a page of events.
use lumenqraph.Base.{
  ℕ, zero, suc, ◌+◌, ◌*◌, ◌≤◌, ◌<◌, ◌≡◌, refl, ap, ◌∙◌, ◌↔◌, ◌⊎◌, inl, inr, true, List, [], ◌∷◌,
  ◌++◌, length, take, drop, length-take, length-drop, take-append-drop, arith, ltb, ltb→lt,
  Bool-cases, false,
}
use lumenqraph.Base.Int.{ℤ, pos, negsuc}
use lumenqraph.Base.Str.{Str}
use lumenqraph.Base.Result.{Result, ok, err}
use lumenqraph.RpcClient.{
  from_code, code, is_retryable, new_error, EventFilter, max_ids_per_filter, max_filters, chunks,
  filter_of, map_filters, event_filters,
}

-- An error of the server keeps its code through the classification, and it is retried exactly when
-- the code is -32603, -32000 or -32001.
pub new_error-code :
    (c : ℤ) (message method : Str)
    → (code (new_error c message method).error_code ≡ c)
      × ((is_retryable (new_error c message method).error_code ≡ true)
          ↔ ((c ≡ negsuc 32602) ⊎ ((c ≡ negsuc 31999) ⊎ (c ≡ negsuc 32000))))
unfolding new_error from_code code is_retryable
new_error-code (pos n) message method = ground arith
new_error-code (negsuc n) message method = ground arith

-- The contracts of the filters, in order.
unfoldable pub watched : List EventFilter → List Str
watched [] = []
watched (f ∷ fs) = f.contract_ids ++ watched fs

-- A filter that the server accepts beside others: it names 1 to 5 contracts.
pub data AllSized : List EventFilter → Type 0 where
  no_filters : AllSized []
  sized :
      {f : EventFilter} {fs : List EventFilter}
      → 1 ≤ length f.contract_ids
      → length f.contract_ids ≤ max_ids_per_filter
      → AllSized fs
      → AllSized (f ∷ fs)

sized_chunks :
    (fuel : ℕ) (ids : List Str)
    → length ids ≤ fuel
    → AllSized (map_filters (chunks fuel max_ids_per_filter ids))
      × (watched (map_filters (chunks fuel max_ids_per_filter ids)) ≡ ids)
      × (length (map_filters (chunks fuel max_ids_per_filter ids)) * 5 < length ids + 5)
unfolding chunks map_filters filter_of watched
sized_chunks zero [] h = (no_filters, refl, omega arith)
sized_chunks zero (x ∷ xs) h = elim h [ ]
sized_chunks (suc fuel) [] h = (no_filters, refl, omega arith)
sized_chunks (suc fuel) (x ∷ xs) h =
    let ih = sized_chunks fuel (drop 5 (x ∷ xs)) (omega (arith, length-drop 5 (x ∷ xs), h)) in
    (
      sized (omega (arith, length-take 5 (x ∷ xs))) (omega (arith, length-take 5 (x ∷ xs))) ih.0,
      ap (λ l. take 5 (x ∷ xs) ++ l) ih.1 ∙ take-append-drop 5 (x ∷ xs),
      omega (arith, ih.2, length-drop 5 (x ∷ xs)),
    )

le_of_ltb : (a b : ℕ) → ltb a b ≡ false → b ≤ a
le_of_ltb a b h = ground arith

-- What a request for a list of contracts may be: refused above 25 contracts, one bare filter for
-- none, and otherwise filters that the server accepts and that name the contracts in order.
pub data IsSpread (ids : List Str) : Result ℕ (List EventFilter) → Type 0 where
  refused : max_ids_per_filter * max_filters < length ids → IsSpread ids (err (length ids))
  every_contract : ids ≡ [] → IsSpread ids (ok (filter_of [] ∷ []))
  spread :
      {fs : List EventFilter}
      → AllSized fs
      → 1 ≤ length fs
      → length fs ≤ max_filters
      → watched fs ≡ ids
      → IsSpread ids (ok fs)

-- The filters of a request are refused above 25 contracts, a single bare filter for no contract,
-- and otherwise 1 to 5 filters of 1 to 5 contracts each that name the contracts in order.
pub event_filters-IsSpread : (ids : List Str) → IsSpread ids (event_filters ids)
unfolding event_filters
event_filters-IsSpread [] = every_contract refl
event_filters-IsSpread (x ∷ xs) =
    let c = sized_chunks (length (x ∷ xs)) (x ∷ xs) (omega arith) in
    elim (Bool-cases (ltb 25 (length (x ∷ xs)))) [
      | inl large ↦ rw large (refused (ltb→lt 25 (length (x ∷ xs)) large))
      | inr small ↦
          rw small (spread c.0 (omega arith) (omega (arith, c.2, le_of_ltb 25 _ small)) c.1)
    ]
