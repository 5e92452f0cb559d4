-- ===== src/Webhooks.antt =====
-- crates/lumenqraph-api/src/routes/webhooks.rs: what is checked of a new webhook subscription, and the
-- row that is stored. The check of the address and of a contract's strkey are parameters.
mod Examples
pub mod Listed
use lumenqraph.Base.{
  ℕ, suc, Bool, true, false, not, ◌&&◌, ◌||◌, Option, none, some, List, [], ◌∷◌, ◌++◌, length,
  is_nil, all, leb, ltb, ◌==◌, if◌then◌else◌,
}
use lumenqraph.Base.Str.{Str, lit, str_eq}
use lumenqraph.Base.Result.{Result, ok, err}
use lumenqraph.Base.Text.{filter}
use lumenqraph.Json.{Json, null, object, Fields, no_fields, field}
use lumenqraph.Dispatcher.Enqueue.{Kind, event, upgrade, Sub}

-- `CreateWebhook`. The starting number that `since` leads to is the newest event's.
pub record CreateWebhook (N : Type 0) : Type 0 where
  pub url : Str
  pub kind : Str
  pub contract_id : Option Str
  pub contract_ids : Option (List Str)
  pub event_name : Option Str
  pub event_names : Option (List Str)
  pub filter : Option (Json N)
  pub since : Bool

pub data CreateError : Type 0 where
  invalid_url event_name_of_upgrade too_many_contracts too_many_names invalid_filter : CreateError
  unknown_kind invalid_contract invalid_name : Str → CreateError

unfoldable pub kind_of : Str → Option Kind
unfolding str_eq
kind_of s =
    if str_eq s (lit "event")
    then some event
    else if str_eq s (lit "upgrade")
    then some upgrade
    else none

abbrev pub is_some {ℓ} : {A : Type ℓ} → Option A → Bool
is_some none = false
is_some (some a) = true

abbrev pub legacy_value : Option Str → List Str
legacy_value none = []
legacy_value (some v) = if is_nil v then [] else v ∷ []

abbrev pub listed_values : Option (List Str) → List Str
listed_values none = []
listed_values (some values) = values

abbrev pub some_if_any : List Str → Option (List Str)
some_if_any [] = none
some_if_any (v ∷ values) = some (v ∷ values)

-- `normalize_contract_ids`, and `normalize_event_names`, which is the same.
unfoldable pub normalize : Option Str → Option (List Str) → Option (List Str)
unfolding filter
normalize legacy_single multi =
    some_if_any (filter (λ v. not (is_nil v)) (legacy_value legacy_single ++ listed_values multi))

unfoldable pub is_event_char : ℕ → Bool
is_event_char c =
    (leb 48 c && leb c 57) || (leb 65 c && leb c 90) || (leb 97 c && leb c 122) || c == 95

-- `validate_event_name`: a symbol.
unfoldable pub validate_event_name : Str → Bool
unfolding all is_event_char
validate_event_name name = not (is_nil name) && leb (length name) 32 && all is_event_char name

-- The first value of a list that a check refuses.
unfoldable pub first_refused : (Str → Bool) → List Str → Option Str
first_refused valid [] = none
first_refused valid (v ∷ values) =
    let rest = first_refused valid values in if valid v then rest else some v

-- The checks of a list, where the list is given: its length, then each value.
unfoldable pub check_list :
    (Str → Bool) → CreateError → (Str → CreateError) → Option (List Str) → Option CreateError
unfolding first_refused
check_list valid too_many invalid none = none
check_list valid too_many invalid (some values) =
    if ltb 25 (length values)
    then some too_many
    else elim (first_refused valid values) [ none ↦ none | some v ↦ some (invalid v) ]

abbrev pub first_of : Option (List Str) → Option Str
first_of none = none
first_of (some []) = none
first_of (some (v ∷ values)) = some v

abbrev field_count : {N : Type 0} → Fields N → ℕ
field_count no_fields = 0
field_count (field key value rest) = suc (field_count rest)

abbrev is_object : {N : Type 0} → Json N → Bool
is_object (object _) = true
is_object _ = false

-- The checks of each field; an array of any length passes the last arm of the match.
unfoldable pub valid_fields : {N : Type 0} → Fields N → Bool
valid_fields no_fields = true
valid_fields (field key value rest) =
    leb (length key) 64 && not (is_object value) && valid_fields rest

unfoldable pub validate_webhook_filter : {N : Type 0} → Json N → Bool
unfolding valid_fields
validate_webhook_filter (object o) = leb (field_count o) 16 && valid_fields o
validate_webhook_filter null = true
validate_webhook_filter _ = false

-- `body.filter.as_ref().unwrap_or(&Value::Null)`: a `jsonb` null, not an SQL NULL.
abbrev pub filter_or_null : {N : Type 0} → Option (Json N) → Json N
filter_or_null none = null
filter_or_null (some f) = f

module _ {N : Type 0} (valid_url valid_contract : Str → Bool) where
  abbrev filter_refused : Option (Json N) → Bool
  filter_refused none = false
  filter_refused (some f) = not (validate_webhook_filter f)

  -- The row of the `INSERT`, which has no `backfill_seq`.
  unfoldable pub new_row : Str → ℕ → Kind → CreateWebhook N → Sub (Json N)
  unfolding normalize
  new_row id global_max kind body = record {
    id = id;
    active = true;
    kind = kind;
    contract_id = first_of (normalize body.contract_id body.contract_ids);
    contract_ids = listed_values (normalize body.contract_id body.contract_ids);
    event_name = first_of (normalize body.event_name body.event_names);
    event_names = listed_values (normalize body.event_name body.event_names);
    filter = some (filter_or_null body.filter);
    starting_seq = if body.since then global_max else 0;
    backfill_seq = none;
  }

  -- The checks of the lists and the filter, in their order.
  unfoldable pub check_body : CreateWebhook N → Option CreateError
  unfolding check_list normalize validate_event_name validate_webhook_filter
  check_body body =
      if filter_refused body.filter
      then some invalid_filter
      else elim (check_list valid_contract too_many_contracts invalid_contract
          (normalize body.contract_id body.contract_ids)) [
            | some e ↦ some e
            | none ↦
                check_list validate_event_name too_many_names invalid_name
                  (normalize body.event_name body.event_names)
          ]

  unfoldable pub create_webhook : Str → ℕ → CreateWebhook N → Result CreateError (Sub (Json N))
  unfolding kind_of check_body new_row
  create_webhook id global_max body =
      if not (valid_url body.url) then err invalid_url else elim (kind_of body.kind) [
        | none ↦ err (unknown_kind body.kind)
        | some kind ↦
            if str_eq body.kind (lit "upgrade") && is_some body.event_name
            then err event_name_of_upgrade
            else elim (check_body body) [
              | some e ↦ err e
              | none ↦ ok (new_row id global_max kind body)
            ]
      ]
