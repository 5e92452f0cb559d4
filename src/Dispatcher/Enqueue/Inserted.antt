-- ===== src/Dispatcher/Enqueue/Inserted.antt =====
-- Which deliveries an insertion leaves, and that none is doubled.
use lumenqraph.Base.{
  ◌≡◌, sym, ap, ◌∙◌, ◌⊎◌, inl, inr, Bool, true, false, List, [], ◌∷◌, any, In, here, there,
  In-cons_cases, arith, Bool-cases,
}
use lumenqraph.Base.Str.{eq_of_str_eq, str_eq_refl}
use lumenqraph.Dispatcher.Enqueue.{
  Event, Sub, Delivery, same_delivery, insert_delivery, insert_for, insert_all,
}

pub eq_of_same_delivery : (d e : Delivery) → same_delivery d e ≡ true → d ≡ e
unfolding same_delivery
eq_of_same_delivery d e h =
    rows (eq_of_str_eq _ _ (ground (arith, h))) (eq_of_str_eq _ _ (ground (arith, h)))
  where
    rows : d.subscription_id ≡ e.subscription_id → d.event_id ≡ e.event_id → d ≡ e
    rows s i = cc

same_delivery_refl : (d : Delivery) → same_delivery d d ≡ true
unfolding same_delivery
same_delivery_refl d = ground (arith, str_eq_refl d.subscription_id, str_eq_refl d.event_id)

-- The list has no row twice.
pub data IsDistinct : List Delivery → Type 0 where
  no_rows : IsDistinct []
  one_more :
      {d : Delivery} {ds : List Delivery}
      → any (same_delivery d) ds ≡ false
      → IsDistinct ds
      → IsDistinct (d ∷ ds)

pub insert_delivery-IsDistinct :
    (d : Delivery) (ds : List Delivery) → IsDistinct ds → IsDistinct (insert_delivery d ds)
unfolding insert_delivery
insert_delivery-IsDistinct d ds h = elim (Bool-cases (any (same_delivery d) ds)) [
  | inl old ↦ rw (insert_delivery, old) h
  | inr new ↦ rw (insert_delivery, new) (one_more new h)
]

In_of_any : (d : Delivery) (ds : List Delivery) → any (same_delivery d) ds ≡ true → In d ds
unfolding any
In_of_any d [] h = cc
In_of_any d (e ∷ ds) h = elim (Bool-cases (same_delivery d e)) [
  | inl same ↦ rw (eq_of_same_delivery d e same) here
  | inr other ↦ there (In_of_any d ds (rw other at h))
]

pub In-insert_delivery : (d : Delivery) (ds : List Delivery) → In d (insert_delivery d ds)
unfolding insert_delivery
In-insert_delivery d ds = elim (Bool-cases (any (same_delivery d) ds)) [
  | inl old ↦ rw (insert_delivery, old) (In_of_any d ds old)
  | inr new ↦ rw (insert_delivery, new) here
]

pub insert_delivery-kept :
    (d x : Delivery) (ds : List Delivery) → In x ds → In x (insert_delivery d ds)
unfolding insert_delivery
insert_delivery-kept d x ds i = elim (Bool-cases (any (same_delivery d) ds)) [
  | inl old ↦ rw (insert_delivery, old) i
  | inr new ↦ rw (insert_delivery, new) (there i)
]

pub insert_delivery-cases :
    (d x : Delivery) (ds : List Delivery) → In x (insert_delivery d ds) → (x ≡ d) ⊎ In x ds
unfolding insert_delivery
insert_delivery-cases d x ds i = elim (Bool-cases (any (same_delivery d) ds)) [
  | inl old ↦ inr (rw (insert_delivery, old) at i)
  | inr new ↦ In-cons_cases (rw (insert_delivery, new) at i)
]

-- The rows that a condition selects from the join, as deliveries.
abbrev pub row_of : {F : Type 0} → Sub F → Event → Delivery
row_of s e = record { subscription_id = s.id; event_id = e.event_id }

module _ {F : Type 0} (p : Sub F → Event → Bool) where
  pub insert_for-IsDistinct :
      (e : Event) (subs : List (Sub F)) (ds : List Delivery)
      → IsDistinct ds
      → IsDistinct (insert_for p e subs ds)
  unfolding insert_for
  insert_for-IsDistinct e [] ds h = h
  insert_for-IsDistinct e (s ∷ subs) ds h = elim (Bool-cases (p s e)) [
    | inl selected ↦ rw selected (
        insert_delivery-IsDistinct (row_of s e) (insert_for p e subs ds)
          (insert_for-IsDistinct e subs ds h))
    | inr left ↦ rw left (insert_for-IsDistinct e subs ds h)
  ]

  pub insert_all-IsDistinct :
      (events : List Event) (subs : List (Sub F)) (ds : List Delivery)
      → IsDistinct ds
      → IsDistinct (insert_all p events subs ds)
  unfolding insert_all
  insert_all-IsDistinct [] subs ds h = h
  insert_all-IsDistinct (e ∷ events) subs ds h =
      insert_for-IsDistinct e subs (insert_all p events subs ds)
        (insert_all-IsDistinct events subs ds h)

  insert_for-kept :
      (e : Event) (subs : List (Sub F)) (ds : List Delivery) (x : Delivery)
      → In x ds
      → In x (insert_for p e subs ds)
  unfolding insert_for
  insert_for-kept e [] ds x i = i
  insert_for-kept e (s ∷ subs) ds x i = elim (Bool-cases (p s e)) [
    | inl selected ↦ rw selected (
        insert_delivery-kept (row_of s e) x (insert_for p e subs ds)
          (insert_for-kept e subs ds x i))
    | inr left ↦ rw left (insert_for-kept e subs ds x i)
  ]

  pub insert_all-kept :
      (events : List Event) (subs : List (Sub F)) (ds : List Delivery) (x : Delivery)
      → In x ds
      → In x (insert_all p events subs ds)
  unfolding insert_all
  insert_all-kept [] subs ds x i = i
  insert_all-kept (e ∷ events) subs ds x i =
      insert_for-kept e subs (insert_all p events subs ds) x (insert_all-kept events subs ds x i)

  In-insert_for :
      (e : Event) (s : Sub F) (subs : List (Sub F)) (ds : List Delivery)
      → In s subs
      → p s e ≡ true
      → In (row_of s e) (insert_for p e subs ds)
  unfolding insert_for
  In-insert_for e s [] ds i h = elim i [ ]
  In-insert_for e s (t ∷ subs) ds i h = elim (In-cons_cases i) [
    | inl same ↦
        rw (ap (λ u. p u e) (sym same) ∙ h)
          (rw (same) (In-insert_delivery (row_of t e) (insert_for p e subs ds)))
    | inr later ↦ elim (Bool-cases (p t e)) [
      | inl selected ↦ rw selected (
          insert_delivery-kept (row_of t e) (row_of s e) (insert_for p e subs ds)
            (In-insert_for e s subs ds later h))
      | inr left ↦ rw left (In-insert_for e s subs ds later h)
    ]
  ]

  -- Every pair that the condition selects has its delivery.
  pub In-insert_all :
      (e : Event) (s : Sub F) (events : List Event) (subs : List (Sub F)) (ds : List Delivery)
      → In e events
      → In s subs
      → p s e ≡ true
      → In (row_of s e) (insert_all p events subs ds)
  unfolding insert_all
  In-insert_all e s [] subs ds i j h = elim i [ ]
  In-insert_all e s (f ∷ events) subs ds i j h = elim (In-cons_cases i) [
    | inl same ↦
        rw same (In-insert_for f s subs (insert_all p events subs ds) j (ap (p s) (sym same) ∙ h))
    | inr later ↦
        insert_for-kept f subs (insert_all p events subs ds) (row_of s e)
          (In-insert_all e s events subs ds later j h)
  ]

  -- A delivery that an insertion leaves was there, or is of a pair that the condition selects.
  pub record IsSelected (events : List Event) (subs : List (Sub F)) (x : Delivery) : Type 0 where
    pub sub : Sub F
    pub event : Event
    pub of_subs : In sub subs
    pub of_events : In event events
    pub selected : p sub event ≡ true
    pub row : x ≡ row_of sub event

  insert_for-cases :
      (e : Event) (subs : List (Sub F)) (ds : List Delivery) (x : Delivery)
      → In x (insert_for p e subs ds)
      → In x ds ⊎ ((s : Sub F) × In s subs × (p s e ≡ true) × (x ≡ row_of s e))
  unfolding insert_for
  insert_for-cases e [] ds x i = inl i
  insert_for-cases e (s ∷ subs) ds x i = elim (Bool-cases (p s e)) [
    | inl sel ↦ elim (insert_delivery-cases (row_of s e) x (insert_for p e subs ds) (rw sel at i)) [
      | inl same ↦ inr (s, here, sel, same)
      | inr j ↦ wider (insert_for-cases e subs ds x j)
    ]
    | inr left ↦ wider (insert_for-cases e subs ds x (rw left at i))
  ]
    where
      wider :
          In x ds ⊎ ((t : Sub F) × In t subs × (p t e ≡ true) × (x ≡ row_of t e))
          → In x ds ⊎ ((t : Sub F) × In t (s ∷ subs) × (p t e ≡ true) × (x ≡ row_of t e))
      wider (inl j) = inl j
      wider (inr (t, j, sel, row)) = inr (t, there j, sel, row)

  pub insert_all-cases :
      (events : List Event) (subs : List (Sub F)) (ds : List Delivery) (x : Delivery)
      → In x (insert_all p events subs ds)
      → In x ds ⊎ IsSelected events subs x
  unfolding insert_all
  insert_all-cases [] subs ds x i = inl i
  insert_all-cases (e ∷ events) subs ds x i =
      elim (insert_for-cases e subs (insert_all p events subs ds) x i) [
        | inl j ↦ wider (insert_all-cases events subs ds x j)
        | inr (t, j, sel, row) ↦ inr (record {
          sub = t;
          event = e;
          of_subs = j;
          of_events = here;
          selected = sel;
          row = row;
        })
      ]
    where
      wider : In x ds ⊎ IsSelected events subs x → In x ds ⊎ IsSelected (e ∷ events) subs x
      wider (inl j) = inl j
      wider (inr s) = inr (record {
        sub = s.sub;
        event = s.event;
        of_subs = s.of_subs;
        of_events = there s.of_events;
        selected = s.selected;
        row = s.row;
      })
