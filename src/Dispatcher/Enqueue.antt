-- ===== src/Dispatcher/Enqueue.antt =====
-- The first stage of crates/lumenqraph-webhooks/src/dispatcher.rs: the deliveries of new events and of a
-- subscription's backfill. The tables are the state, and each query that commits is one step. The
-- test of a subscription's filter is a parameter here; Filters has the condition of the queries.
pub mod Inserted
pub mod Reach
pub mod Backfill
pub mod Filters
use lumenqraph.Base.{
  ℕ, ◌+◌, ◌-◌, min, max, Bool, true, false, ◌&&◌, ◌||◌, Option, none, some, List, [], ◌∷◌, length,
  any, ltb, leb, if◌then◌else◌,
}
use lumenqraph.Base.Str.{Str, str_eq}

-- A row of `events`, as far as the queries read it.
pub record Event : Type 0 where
  pub seq : ℕ
  pub event_id : Str
  pub contract_id : Str
  pub event_name : Option Str

pub data Kind : Type 0 where
  event upgrade : Kind

-- A row of `webhook_subscriptions`. An array column that is NULL is an empty list.
pub record Sub (F : Type 0) : Type 0 where
  pub id : Str
  pub active : Bool
  pub kind : Kind
  pub contract_id : Option Str
  pub contract_ids : List Str
  pub event_name : Option Str
  pub event_names : List Str
  pub filter : Option F
  pub starting_seq : ℕ
  pub backfill_seq : Option ℕ

-- A row of `webhook_deliveries`: the columns of its unique index.
pub record Delivery : Type 0 where
  pub subscription_id : Str
  pub event_id : Str

unfoldable pub same_delivery : Delivery → Delivery → Bool
unfolding str_eq
same_delivery d e = str_eq d.subscription_id e.subscription_id && str_eq d.event_id e.event_id

abbrev pub is_event : Kind → Bool
is_event event = true
is_event upgrade = false

-- `column IS NULL OR column = value`, for a value that may be NULL.
abbrev pub null_or : Option Str → Option Str → Bool
null_or none value = true
null_or (some c) none = false
null_or (some c) (some value) = str_eq c value

-- `value = ANY(column)`, for an array that may be empty.
abbrev pub any_of : List Str → Option Str → Bool
any_of column none = false
any_of column (some value) = any (str_eq value) column

-- `INSERT … ON CONFLICT DO NOTHING`.
unfoldable pub insert_delivery : Delivery → List Delivery → List Delivery
unfolding any same_delivery
insert_delivery d ds = if any (same_delivery d) ds then ds else d ∷ ds

module _ {F : Type 0} (passes : F → Event → Bool) where
  abbrev passes_filter : Option F → Event → Bool
  passes_filter none e = true
  passes_filter (some f) e = passes f e

  -- The conditions of the queries on a subscription and an event.
  unfoldable pub matches : Sub F → Event → Bool
  unfolding any str_eq
  matches s e =
      is_event s.kind
      && (null_or s.contract_id (some e.contract_id) || any_of s.contract_ids (some e.contract_id))
      && (null_or s.event_name e.event_name || any_of s.event_names e.event_name)
      && passes_filter s.filter e

  -- The whole `WHERE` of `enqueue_events`.
  unfoldable pub is_due : ℕ → ℕ → Sub F → Event → Bool
  unfolding matches
  is_due last_seq upper s e =
      s.active && matches s e && ltb (max s.starting_seq last_seq) e.seq && leb e.seq upper

  -- The window of `enqueue_backfill`, which does not ask again whether the subscription is active.
  unfoldable pub is_in_backfill : ℕ → ℕ → Sub F → Event → Bool
  unfolding matches
  is_in_backfill backfill_seq upper s e = matches s e && ltb backfill_seq e.seq && leb e.seq upper

-- The rows of a join that a condition selects, inserted.
module _ {F : Type 0} (p : Sub F → Event → Bool) where
  unfoldable pub insert_for : Event → List (Sub F) → List Delivery → List Delivery
  unfolding insert_delivery
  insert_for e [] ds = ds
  insert_for e (s ∷ subs) ds =
      let rest = insert_for e subs ds in
      if p s e
      then insert_delivery (record { subscription_id = s.id; event_id = e.event_id }) rest
      else rest

  unfoldable pub insert_all : List Event → List (Sub F) → List Delivery → List Delivery
  unfolding insert_for
  insert_all [] subs ds = ds
  insert_all (e ∷ events) subs ds = insert_for e subs (insert_all events subs ds)

-- `COALESCE(max(seq), 0)`.
unfoldable pub max_seq : List Event → ℕ
max_seq [] = 0
max_seq (e ∷ events) = max e.seq (max_seq events)

pub record Database (F : Type 0) : Type 0 where
  pub events : List Event
  pub subs : List (Sub F)
  pub deliveries : List Delivery
  pub last_seq : ℕ

module _ {F : Type 0} (passes : F → Event → Bool) (batch : ℕ) where
  -- The upper end of the window of a pass.
  abbrev pub live_upper : Database F → ℕ
  live_upper db = min (db.last_seq + batch) (max_seq db.events)

  unfoldable pub enqueue_events : Database F → Database F × ℕ
  unfolding max_seq insert_all is_due
  enqueue_events db =
      let created : List Delivery =
        insert_all (is_due passes db.last_seq (live_upper db)) db.events db.subs db.deliveries in
      if leb (max_seq db.events) db.last_seq then (db, 0) else (
        record db { deliveries = created; last_seq = live_upper db },
        length created - length db.deliveries,
      )

  -- The body of the loop of `enqueue_backfill`, for the cursor of a subscription: the row and the
  -- deliveries after it, with the number of rows that were created. A subscription without a cursor
  -- is not selected.
  unfoldable pub backfill_pass :
      List Event → Option ℕ → Sub F → List Delivery → Sub F × List Delivery × ℕ
  unfolding insert_all is_in_backfill
  backfill_pass events none s ds = (s, ds, 0)
  backfill_pass events (some from) s ds =
      let upper : ℕ = min (from + batch) s.starting_seq in
      let created : List Delivery =
        insert_all (is_in_backfill passes from upper) events (s ∷ []) ds in
      if leb s.starting_seq from then (record s { backfill_seq = none }, ds, 0) else (
        record s { backfill_seq = if leb s.starting_seq upper then none else some upper },
        created,
        length created - length ds,
      )

  -- The loop over the subscriptions; those that are not active are not selected.
  unfoldable pub enqueue_backfill :
      List Event → List (Sub F) → List Delivery → List (Sub F) × List Delivery × ℕ
  unfolding backfill_pass
  enqueue_backfill events [] ds = ([], ds, 0)
  enqueue_backfill events (s ∷ subs) ds =
      let one : Sub F × List Delivery × ℕ =
        if s.active then backfill_pass events s.backfill_seq s ds else (s, ds, 0) in
      let rest : List (Sub F) × List Delivery × ℕ = enqueue_backfill events subs one.1 in
      (one.0 ∷ rest.0, rest.1, one.2 + rest.2)
