-- ===== src/Diff/Moved.antt =====
-- Reclassifying moves the described entries of `changed`, and loses and invents nothing.
use mathlib.Core.List.{append-nil, append_assoc}
use lumenqraph.Base.{
  ◌≡◌, ◌↔◌, refl, sym, ◌∙◌, ◌⊎◌, inl, inr, Option, none, some, List, [], ◌∷◌, ◌++◌, In, here, there,
  In-one, In-append_left, In-append_right, In-append_cases,
}
use lumenqraph.Base.Str.{Str}
use lumenqraph.Diff.Types.{SectionDiff, ChangedItem, PotentiallyBreakingItem, potentially_breaking}
use lumenqraph.Diff.Reclassify.{push_changed, reclassify_loop, reclassify}

abbrev pub moved_item : ChangedItem → Str → PotentiallyBreakingItem
moved_item item description = record {
  name = item.name;
  from = item.from;
  to = item.to;
  severity = potentially_breaking;
  description = description;
}

kept_one : Option Str → ChangedItem → List ChangedItem
kept_one none item = item ∷ []
kept_one (some description) item = []

moved_one : Option Str → ChangedItem → List PotentiallyBreakingItem
moved_one none item = []
moved_one (some description) item = moved_item item description ∷ []

kept_step :
    (o : Option Str) (item : ChangedItem) (d : SectionDiff)
    → (push_changed o item d).changed ≡ d.changed ++ kept_one o item
unfolding push_changed kept_one
kept_step none item d = refl
kept_step (some x) item d = sym (append-nil d.changed)

moved_step :
    (o : Option Str) (item : ChangedItem) (d : SectionDiff)
    → (push_changed o item d).potentially_breaking ≡ d.potentially_breaking ++ moved_one o item
unfolding push_changed moved_one
moved_step none item d = sym (append-nil d.potentially_breaking)
moved_step (some x) item d = refl

rest_step :
    (o : Option Str) (item : ChangedItem) (d : SectionDiff)
    → ((push_changed o item d).added ≡ d.added)
      × ((push_changed o item d).removed ≡ d.removed)
      × ((push_changed o item d).reordered ≡ d.reordered)
unfolding push_changed
rest_step none item d = (refl, refl, refl)
rest_step (some x) item d = (refl, refl, refl)

module _ (describe : Str → Option Str) where
  kept : List ChangedItem → List ChangedItem
  kept [] = []
  kept (item ∷ items) = kept_one (describe item.name) item ++ kept items

  moved : List ChangedItem → List PotentiallyBreakingItem
  moved [] = []
  moved (item ∷ items) = moved_one (describe item.name) item ++ moved items

  loop-kept :
      (items : List ChangedItem) (d : SectionDiff)
      → (reclassify_loop describe items d).changed ≡ d.changed ++ kept items
  unfolding reclassify_loop kept
  loop-kept [] d = sym (append-nil d.changed)
  loop-kept (item ∷ items) d =
      loop-kept items (push_changed (describe item.name) item d)
      ∙ rw kept_step (append_assoc d.changed (kept_one (describe item.name) item) (kept items))

  loop-moved :
      (items : List ChangedItem) (d : SectionDiff)
      → (reclassify_loop describe items d).potentially_breaking
        ≡ d.potentially_breaking ++ moved items
  unfolding reclassify_loop moved
  loop-moved [] d = sym (append-nil d.potentially_breaking)
  loop-moved (item ∷ items) d =
      loop-moved items (push_changed (describe item.name) item d)
      ∙ rw moved_step
          (append_assoc d.potentially_breaking (moved_one (describe item.name) item) (moved items))

  In-kept :
      (item : ChangedItem) (items : List ChangedItem)
      → In item items
      → describe item.name ≡ none
      → In item (kept items)
  unfolding kept kept_one
  In-kept item [] m e = elim m [ ]
  In-kept item (x ∷ items) here e = rw e here
  In-kept item (x ∷ items) (there m) e =
      In-append_right (kept_one (describe x.name) x) (kept items) (In-kept item items m e)

  In-moved :
      (item : ChangedItem) (description : Str) (items : List ChangedItem)
      → In item items
      → describe item.name ≡ some description
      → In (moved_item item description) (moved items)
  unfolding moved moved_one
  In-moved item t [] m e = elim m [ ]
  In-moved item t (x ∷ items) here e = rw e here
  In-moved item t (x ∷ items) (there m) e =
      In-append_right (moved_one (describe x.name) x) (moved items) (In-moved item t items m e)

  kept_one_only :
      (o : Option Str) (item x : ChangedItem) → In x (kept_one o item) → (x ≡ item) × (o ≡ none)
  unfolding kept_one
  kept_one_only none item x m = (In-one m, refl)
  kept_one_only (some t) item x m = elim m [ ]

  moved_one_only :
      (o : Option Str) (item : ChangedItem) (x : PotentiallyBreakingItem)
      → In x (moved_one o item)
      → (t : Str) × (o ≡ some t) × (x ≡ moved_item item t)
  unfolding moved_one
  moved_one_only none item x m = elim m [ ]
  moved_one_only (some t) item x m = (t, refl, In-one m)

  kept_only :
      (x : ChangedItem) (items : List ChangedItem)
      → In x (kept items)
      → In x items × (describe x.name ≡ none)
  unfolding kept
  kept_only x [] m = elim m [ ]
  kept_only x (item ∷ items) m =
      elim (In-append_cases (kept_one (describe item.name) item) (kept items) m) [
        | inl l ↦ let (e, n) = kept_one_only (describe item.name) item x l in rw e (here, n)
        | inr r ↦ let (i, n) = kept_only x items r in (there i, n)
      ]

  moved_only :
      (x : PotentiallyBreakingItem) (items : List ChangedItem)
      → In x (moved items)
      → (item : ChangedItem) × (t : Str) × In item items
        × (describe item.name ≡ some t)
        × (x ≡ moved_item item t)
  unfolding moved
  moved_only x [] m = elim m [ ]
  moved_only x (item ∷ items) m =
      elim (In-append_cases (moved_one (describe item.name) item) (moved items) m) [
        | inl l ↦
            let (t, e, p) = moved_one_only (describe item.name) item x l in (item, t, here, e, p)
        | inr r ↦ let (i, t, j, e, p) = moved_only x items r in (i, t, there j, e, p)
      ]

  -- A described entry of `changed`, as it stands in `potentially_breaking`.
  abbrev pub HasMoved : SectionDiff → PotentiallyBreakingItem → Type 0
  HasMoved d p =
      (item : ChangedItem) × (t : Str) × In item d.changed
      × (describe item.name ≡ some t)
      × (p ≡ moved_item item t)

  -- What stays in `changed` after reclassifying is what has no description.
  reclassify-changed :
      (d : SectionDiff) (item : ChangedItem)
      → In item (reclassify describe d).changed ↔ (In item d.changed × (describe item.name ≡ none))
  unfolding reclassify
  reclassify-changed d item = (
    λ m. kept_only item d.changed (rw loop-kept at m),
    λ (m, e). rw loop-kept (In-kept item d.changed m e),
  )

  -- What is in `potentially_breaking` after reclassifying is what was there, and the entries of
  -- `changed` that have a description, with it.
  pub reclassify-moved :
      (d : SectionDiff) (p : PotentiallyBreakingItem)
      → In p (reclassify describe d).potentially_breaking
        ↔ (In p d.potentially_breaking ⊎ HasMoved d p)
  unfolding reclassify
  reclassify-moved d p = (forward, backward)
    where
      forward :
          In p (reclassify describe d).potentially_breaking
          → In p d.potentially_breaking ⊎ HasMoved d p
      forward m =
          elim (In-append_cases d.potentially_breaking (moved d.changed) (rw loop-moved at m)) [
            | inl l ↦ inl l
            | inr r ↦ inr (moved_only p d.changed r)
          ]

      backward :
          (In p d.potentially_breaking ⊎ HasMoved d p)
          → In p (reclassify describe d).potentially_breaking
      backward (inl l) = rw loop-moved (In-append_left d.potentially_breaking (moved d.changed) l)
      backward (inr (item, t, m, e, q)) =
          rw (loop-moved, q)
            (In-append_right d.potentially_breaking (moved d.changed)
              (In-moved item t d.changed m e))
