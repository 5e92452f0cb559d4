-- ===== src/Webhooks/Examples.antt =====
-- A request for a subscription, and the theorem at it.
use lumenqraph.Base.{ℕ, ◌≡◌, refl, Bool, ◌||◌, true, false, none, some, [], ◌∷◌}
use lumenqraph.Base.Str.{Str, lit, str_eq}
use lumenqraph.Json.{Json, object, Fields, no_fields, field}
use lumenqraph.Dispatcher.Enqueue.Filters.{Jsonb}
use lumenqraph.Webhooks.{CreateWebhook, validate_event_name}

abbrev a_request : CreateWebhook ℕ
a_request = record {
  url = lit "https://h/x";
  kind = lit "event";
  contract_id = none;
  contract_ids = some (lit "CA" ∷ lit "CB" ∷ []);
  event_name = some (lit "mint");
  event_names = none;
  filter = none;
  since = true;
}

abbrev any_value : Str → Bool
any_value s = true

-- A database that finds the keys of an object, and nothing in them.
abbrev in_fields : Fields ℕ → Str → Bool
in_fields no_fields k = false
in_fields (field key value rest) k = str_eq key k || in_fields rest k

abbrev has_key : Json ℕ → Str → Bool
has_key (object o) k = in_fields o k
has_key _ k = false

abbrev a_database : Jsonb ℕ
a_database = record {
  has_key = has_key;
  text_at = λ f k. none;
  has_topic = λ k f e. false;
  is_enriched = λ k f e. false;
}

dashed_name : validate_event_name (lit "a-b") ≡ false
unfolding validate_event_name
dashed_name = refl
