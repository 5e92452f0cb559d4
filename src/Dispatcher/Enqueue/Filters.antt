-- ===== src/Dispatcher/Enqueue/Filters.antt =====
-- The condition on `s.filter` of the queries of crates/lumenqraph-webhooks/src/dispatcher.rs. The
-- operators of `jsonb` are PostgreSQL's, so they are parameters.
use lumenqraph.Base.{◌≡◌, Bool, true, false, not, ◌&&◌, ◌||◌, Option, some}
use lumenqraph.Base.Str.{Str, lit, str_eq}
use lumenqraph.Json.{Json, null, object, no_fields}
use lumenqraph.Dispatcher.Enqueue.{Event}

-- What the condition uses of PostgreSQL. A test that is NULL is false here: neither selects a row.
pub record Jsonb (N : Type 0) : Type 0 where
  -- `filter ? key`.
  pub has_key : Json N → Str → Bool
  -- `filter ->> key`.
  pub text_at : Json N → Str → Option Str
  -- `e.decoded_topics @> jsonb_build_array(…, (filter ->> key)::jsonb)`.
  pub has_topic : Str → Json N → Event → Bool
  -- `e.enriched @> jsonb_build_object(key, filter -> key)`.
  pub is_enriched : Str → Json N → Event → Bool

-- The documented behaviour of `?` on a `jsonb` null, which has no keys and no elements.
pub record IsKeyTest {N : Type 0} (pg : Jsonb N) : Type 0 where
  pub of_null : (key : Str) → pg.has_key null key ≡ false

-- `filter = '{}'::jsonb`.
abbrev is_empty_object : {N : Type 0} → Json N → Bool
is_empty_object (object no_fields) = true
is_empty_object _ = false

-- `text = column`, where either may be NULL.
abbrev equals : Option Str → Option Str → Bool
equals (some s) (some t) = str_eq s t
equals _ _ = false

module _ {N : Type 0} (pg : Jsonb N) where
  -- `NOT (filter ? key) OR test`.
  abbrev unless_absent : Json N → Str → Bool → Bool
  unless_absent f key test = not (pg.has_key f key) || test

  abbrev topic : Str → Json N → Event → Bool
  topic key f e = unless_absent f key (pg.has_topic key f e)

  abbrev enriched : Str → Json N → Event → Bool
  enriched key f e = unless_absent f key (pg.is_enriched key f e)

  -- The condition, for a filter that is not NULL.
  unfoldable pub passes_jsonb : Json N → Event → Bool
  unfolding str_eq
  passes_jsonb f e =
      is_empty_object f
      || unless_absent f (lit "contract_id")
          (equals (pg.text_at f (lit "contract_id")) (some e.contract_id))
        && unless_absent f (lit "event_name")
            (equals (pg.text_at f (lit "event_name")) e.event_name)
        && topic (lit "topic0") f e
        && topic (lit "topic1") f e
        && topic (lit "topic2") f e
        && topic (lit "topic3") f e
        && enriched (lit "to") f e
        && enriched (lit "from") f e
        && enriched (lit "amount") f e

  pub passes_jsonb-null : IsKeyTest pg → (e : Event) → passes_jsonb null e ≡ true
  unfolding passes_jsonb
  passes_jsonb-null k e = simp k.of_null
