-- ===== src/Dispatcher/Enqueue/Reach.antt =====
-- The live stream over time: events are committed, subscriptions are made and ended, and passes of
-- `enqueue_events` run, in any order.
use lumenqraph.Base.{
  ℕ, ◌≤◌, ◌<◌, ◌≡◌, ap, inl, inr, max, Bool, true, List, [], ◌∷◌, In, In-cons_cases, arith,
}
use lumenqraph.Dispatcher.Enqueue.{
  Event, Sub, Delivery, matches, is_due, insert_all, max_seq, Database, live_upper, enqueue_events,
}
use lumenqraph.Dispatcher.Enqueue.Inserted.{IsDistinct, row_of}

module _ {F : Type 0} (passes : F → Event → Bool) (batch : ℕ) where
  -- A database with the subscriptions that are active since a watermark, each with the watermark at
  -- which it was made, and the events that were committed with a number above the watermark of that
  -- moment. The numbers are given at the insert, so an event may be committed after a larger one.
  pub data StreamReach : Database F → List (Sub F × ℕ) → List Event → Type 0 where
    empty : StreamReach (record { events = []; subs = []; deliveries = []; last_seq = 0 }) [] []
    indexed :
        {db : Database F} {since : List (Sub F × ℕ)} {timely : List Event}
        → StreamReach db since timely
        → (e : Event) → db.last_seq < e.seq
        → StreamReach (record db { events = e ∷ db.events }) since (e ∷ timely)
    -- An event that the watermark has passed before it was committed.
    indexed_late :
        {db : Database F} {since : List (Sub F × ℕ)} {timely : List Event}
        → StreamReach db since timely
        → (e : Event) → e.seq ≤ db.last_seq
        → StreamReach (record db { events = e ∷ db.events }) since timely
    subscribed :
        {db : Database F} {since : List (Sub F × ℕ)} {timely : List Event}
        → StreamReach db since timely
        → (s : Sub F) → s.active ≡ true
        → StreamReach (record db { subs = s ∷ db.subs }) ((s, db.last_seq) ∷ since) timely
    -- Any change of the other subscriptions: one that ended or changed is no longer followed.
    changed :
        {db : Database F} {since : List (Sub F × ℕ)} {timely : List Event}
        → StreamReach db since timely
        → (subs : List (Sub F)) (since' : List (Sub F × ℕ))
        → ((x : Sub F × ℕ) → In x since' → In x since × In x.0 subs)
        → StreamReach (record db { subs = subs }) since' timely
    enqueued :
        {db : Database F} {since : List (Sub F × ℕ)} {timely : List Event}
        → StreamReach db since timely
        → StreamReach (enqueue_events passes batch db).0 since timely

  -- What the stream has of a database.
  pub record IsCaughtUp (db : Database F) (since : List (Sub F × ℕ)) (timely : List Event)
      : Type 0 where
    pub watermark : db.last_seq ≤ max_seq db.events
    pub distinct : IsDistinct db.deliveries
    pub stored : (e : Event) → In e timely → In e db.events
    pub following : (x : Sub F × ℕ) → In x since → In x.0 db.subs × (x.0.active ≡ true)
    pub complete :
        (x : Sub F × ℕ) (e : Event)
        → In x since
        → In e timely
        → matches passes x.0 e ≡ true
        → max x.0.starting_seq x.1 < e.seq
        → e.seq ≤ db.last_seq
        → In (row_of x.0 e) db.deliveries
    pub sound :
        (d : Delivery)
        → In d db.deliveries
        → (e : Event) × In e db.events × (e.seq ≤ db.last_seq) × (e.event_id ≡ d.event_id)

  created_of : Database F → List Delivery
  created_of db =
      insert_all (is_due passes db.last_seq (live_upper passes batch db)) db.events db.subs
        db.deliveries

  seq-le-max_seq : (e : Event) (events : List Event) → In e events → e.seq ≤ max_seq events
  unfolding max_seq
  seq-le-max_seq e [] i = elim i [ ]
  seq-le-max_seq e (f ∷ events) i = elim (In-cons_cases i) [
    | inl same ↦ let h : e.seq ≡ f.seq = ap (λ g. g.seq) same in omega (arith, h)
    | inr later ↦ omega (arith, seq-le-max_seq e events later)
  ]
