-- ===== src/Webhooks/Listed.antt =====
-- Which events a new subscription asks for.
use lumenqraph.Base.{ℕ, ◌≡◌, Bool, true, false, ◌&&◌, Option, none, some, List, any, if◌then◌else◌}
use lumenqraph.Base.Str.{Str, str_eq}
use lumenqraph.Base.Text.{filter}
use lumenqraph.Json.{Json}
use lumenqraph.Dispatcher.Enqueue.{Event, Kind, Sub, is_event, matches}
use lumenqraph.Dispatcher.Enqueue.Filters.{Jsonb, passes_jsonb}
use lumenqraph.Webhooks.{CreateWebhook, kind_of, normalize, new_row}

-- A value of an event is on a list, where one is given.
unfoldable pub is_listed : Option (List Str) → Option Str → Bool
unfolding any str_eq
is_listed none value = true
is_listed (some values) none = false
is_listed (some values) (some v) = any (str_eq v) values

module _ {N : Type 0} (pg : Jsonb N) where
  -- A request without a filter asks for every event.
  abbrev filter_passes : Option (Json N) → Event → Bool
  filter_passes none e = true
  filter_passes (some f) e = passes_jsonb pg f e

  -- What a request asks for.
  unfoldable pub asks_for : CreateWebhook N → Kind → Event → Bool
  unfolding normalize is_listed passes_jsonb
  asks_for body kind e =
      is_event kind
      && is_listed (normalize body.contract_id body.contract_ids) (some e.contract_id)
      && is_listed (normalize body.event_name body.event_names) e.event_name
      && filter_passes body.filter e

-- What a row is to the request that made it.
pub record IsRowOf {N : Type 0} (pg : Jsonb N) (global_max : ℕ) (body : CreateWebhook N)
    (s : Sub (Json N)) : Type 0 where
  pub kind : Kind
  pub of_kind : kind_of body.kind ≡ some kind
  pub active : s.active ≡ true
  pub start : s.starting_seq ≡ (if body.since then global_max else 0)
  pub no_backfill : s.backfill_seq ≡ none
  pub asks : (e : Event) → matches (passes_jsonb pg) s e ≡ asks_for pg body kind e

-- A row that is stored is that of the request, for its kind.
module _ {N : Type 0} (valid_url valid_contract : Str → Bool) (id : Str) (global_max : ℕ)
    (body : CreateWebhook N) (s : Sub (Json N)) where
  IsNewRow : Type 0
  IsNewRow =
      (kind : Kind) × (kind_of body.kind ≡ some kind)
      × (new_row valid_url valid_contract id global_max kind body ≡ s)
